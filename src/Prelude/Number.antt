-- ===== src/Prelude/Number.antt =====
-- `str(n)` of a natural number, and the value of a run of decimal digits.
use Prim.Native.Nat.{ℕ, zero, suc, ◌+◌, ◌-◌, ◌*◌, ◌/◌, ◌%◌, ◌<◌}
use mathlib.Core.Path.{◌≡◌, refl, ap, sym, ◌∙◌}
use mathlib.Core.Logic.{◌≢◌, inl, inr}
use mathlib.Core.Bool.{Bool, true, ◌&&◌}
use mathlib.Core.List.{[], ◌∷◌, ◌++◌}
use native.Mathlib.Omega.{arith}
use charles_mcp.Prelude.Tests.{if◌then◌else◌, ltb, leb, Bool-cases}
use charles_mcp.Prelude.Lists.{All}
use charles_mcp.Prelude.Text.{Text}

-- Each round drops a digit, so a fuel above the number is enough.
decimal : ℕ → ℕ → Text
decimal zero n = []
decimal (suc f) n =
    let rest = decimal f (n / 10) in if ltb n 10 then (48 + n) ∷ [] else rest ++ (48 + n % 10) ∷ []

unfoldable pub str_nat : ℕ → Text
unfolding decimal
str_nat n = decimal (suc n) n

unfoldable pub digits_value : ℕ → Text → ℕ
digits_value acc [] = acc
digits_value acc (c ∷ cs) = digits_value (acc * 10 + (c - 48)) cs

digits_value-append :
    (acc : ℕ) (xs ys : Text) → digits_value acc (xs ++ ys) ≡ digits_value (digits_value acc xs) ys
unfolding digits_value
digits_value-append acc [] ys = refl
digits_value-append acc (x ∷ xs) ys = digits_value-append (acc * 10 + (x - 48)) xs ys

digits_value-decimal : (f n : ℕ) → n < f → digits_value 0 (decimal f n) ≡ n
unfolding decimal digits_value
digits_value-decimal zero n h = elim h [ ]
digits_value-decimal (suc f) n h = elim (Bool-cases (ltb n 10)) [
  | inl small ↦ rw small (omega arith)
  | inr large ↦
      rw (large, digits_value-append 0 (decimal f (n / 10)) ((48 + n % 10) ∷ []))
        (rw (digits_value-decimal f (n / 10) (ground arith)) (omega arith))
]

-- Reading back what `str` printed gives the number.
pub digits_value-str_nat : (n : ℕ) → digits_value 0 (str_nat n) ≡ n
unfolding str_nat
digits_value-str_nat n = digits_value-decimal (suc n) n (omega arith)

pub str_nat-injective : (n m : ℕ) → str_nat n ≡ str_nat m → n ≡ m
str_nat-injective n m p =
    sym (digits_value-str_nat n) ∙ ap (digits_value 0) p ∙ digits_value-str_nat m

abbrev pub is_ascii_digit : ℕ → Bool
is_ascii_digit c = leb 48 c && leb c 57

abbrev pub AllDigits : Text → Type 0
AllDigits = All (λ c. is_ascii_digit c ≡ true)

AllDigits-append : (xs ys : Text) → AllDigits xs → AllDigits ys → AllDigits (xs ++ ys)
AllDigits-append [] ys h k = k
AllDigits-append (x ∷ xs) ys (p, h) k = (p, AllDigits-append xs ys h k)

decimal-AllDigits : (f n : ℕ) → AllDigits (decimal f n)
unfolding decimal
decimal-AllDigits zero n = tt
decimal-AllDigits (suc f) n = elim (Bool-cases (ltb n 10)) [
  | inl small ↦ rw small (ground arith, tt)
  | inr large ↦
      rw large
        (AllDigits-append (decimal f (n / 10)) _ (decimal-AllDigits f (n / 10)) (ground arith, tt))
]

-- `str` prints decimal digits only.
pub str_nat-AllDigits : (n : ℕ) → AllDigits (str_nat n)
unfolding str_nat
str_nat-AllDigits n = decimal-AllDigits (suc n) n

snoc-ne-nil : (xs : Text) (c : ℕ) → xs ++ c ∷ [] ≢ []
snoc-ne-nil [] c p = cc
snoc-ne-nil (x ∷ xs) c p = cc

pub str_nat-ne-nil : (n : ℕ) → str_nat n ≢ []
unfolding str_nat decimal
str_nat-ne-nil n = elim (Bool-cases (ltb n 10)) [
  | inl small ↦ rw small (λ p. cc)
  | inr large ↦ rw large (snoc-ne-nil (decimal n (n / 10)) _)
]
