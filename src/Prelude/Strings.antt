-- ===== src/Prelude/Strings.antt =====
-- Python's methods of `str` and `bytes` that walk a text, on lists of code points.
use Prim.Native.Nat.{ℕ, ◌-◌}
use mathlib.Core.Path.{◌≡◌, refl, ap}
use mathlib.Core.Bool.{Bool, true, false, ◌&&◌, ◌||◌}
use mathlib.Core.List.{List, [], ◌∷◌, ◌++◌}
use native.Mathlib.Omega.{arith}
use mathlib.Core.Logic.{inl, inr}
use charles_mcp.Prelude.Tests.{Bool-cases, if◌then◌else◌, leb}
use charles_mcp.Prelude.Lists.{take, length, take-length-append, length-append}
use charles_mcp.Prelude.Equality.{◌==◌, nat_eq, contains, eq_refl, eq_iff}
use charles_mcp.Prelude.Text.{Text, text_eq}

abbrev prepend : ℕ → List Text → List Text
prepend c [] = (c ∷ []) ∷ []
prepend c (piece ∷ pieces) = (c ∷ piece) ∷ pieces

-- `text.split(sep)` by one character: never empty.
unfoldable pub split : ℕ → Text → List Text
split sep [] = [] ∷ []
split sep (c ∷ cs) = let rest = split sep cs in if c == sep then [] ∷ rest else prepend c rest

-- `sep.join(pieces)`
unfoldable pub join : ℕ → List Text → Text
join sep [] = []
join sep (piece ∷ []) = piece
join sep (piece ∷ next ∷ pieces) = piece ++ sep ∷ join sep (next ∷ pieces)

-- `text.startswith(prefix)`
unfoldable pub starts_with : Text → Text → Bool
starts_with [] text = true
starts_with (p ∷ ps) [] = false
starts_with (p ∷ ps) (c ∷ cs) = p == c && starts_with ps cs

-- `text.endswith(suffix)`
unfoldable pub ends_with : Text → Text → Bool
ends_with suffix [] = [] == suffix
ends_with suffix (c ∷ cs) = (c ∷ cs) == suffix || ends_with suffix cs

-- `part in text`
unfoldable pub occurs : Text → Text → Bool
unfolding starts_with
occurs part [] = starts_with part []
occurs part (c ∷ cs) = starts_with part (c ∷ cs) || occurs part cs

-- `text[:-n]`
abbrev pub drop_end : ℕ → Text → Text
drop_end n text = take (length text - n) text

-- `text.split(sep, 1)[0]`
unfoldable pub before : ℕ → Text → Text
before sep [] = []
before sep (c ∷ cs) = let rest = before sep cs in if c == sep then [] else c ∷ rest

-- `text.split(sep, 1)[1]` of a text with `sep` in it.
unfoldable pub after : ℕ → Text → Text
after sep [] = []
after sep (c ∷ cs) = let rest = after sep cs in if c == sep then cs else rest

-- `text.lstrip(...)` and `text.rstrip(...)` of the characters that `drop` holds of.
unfoldable pub lstrip : (ℕ → Bool) → Text → Text
lstrip drop [] = []
lstrip drop (c ∷ cs) = let rest = lstrip drop cs in if drop c then rest else c ∷ cs

abbrev rstrip_cons : (ℕ → Bool) → ℕ → Text → Text
rstrip_cons drop c [] = if drop c then [] else c ∷ []
rstrip_cons drop c (d ∷ ds) = c ∷ d ∷ ds

unfoldable pub rstrip : (ℕ → Bool) → Text → Text
rstrip drop [] = []
rstrip drop (c ∷ cs) = rstrip_cons drop c (rstrip drop cs)

-- `c.isspace()`
abbrev pub is_space : ℕ → Bool
is_space c =
    (leb 9 c && leb c 13)
    || (leb 28 c && leb c 32)
    || c == 0x85
    || c == 0xa0
    || c == 0x1680
    || (leb 0x2000 c && leb c 0x200a)
    || c == 0x2028
    || c == 0x2029
    || c == 0x202f
    || c == 0x205f
    || c == 0x3000

-- The whitespace of `bytes.strip()`.
abbrev pub is_byte_space : ℕ → Bool
is_byte_space c = (leb 9 c && leb c 13) || c == 32

-- `text.strip()`
unfoldable pub strip : Text → Text
unfolding lstrip rstrip
strip text = rstrip is_space (lstrip is_space text)

unfoldable pub strip_bytes : Text → Text
unfolding lstrip rstrip
strip_bytes bytes = rstrip is_byte_space (lstrip is_byte_space bytes)

-- `text.lower()` and `text.upper()`: the case tables of Unicode are Python's own.
pub record CaseTables : Type 0 where
  pub lower : Text → Text
  pub upper : Text → Text

pub starts_with_trans :
    (p q text : Text)
    → starts_with p q ≡ true
    → starts_with q text ≡ true
    → starts_with p text ≡ true
unfolding starts_with
starts_with_trans [] q text h k = refl
starts_with_trans (p ∷ ps) [] text h k = cc
starts_with_trans (p ∷ ps) (c ∷ q) [] h k = cc
starts_with_trans (p ∷ ps) (c ∷ q) (d ∷ text) h k =
    ground (arith, eq_iff p c, eq_iff c d, eq_iff p d, starts_with_trans ps q text)

pub starts_with_self : (text : Text) → starts_with text text ≡ true
unfolding starts_with
starts_with_self [] = refl
starts_with_self (c ∷ cs) = ground (arith, eq_refl c, starts_with_self cs)

-- A text without the separator is all before it.
pub before-clean : (sep : ℕ) (text : Text) → contains text sep ≡ false → before sep text ≡ text
unfolding before
before-clean sep [] h = refl
before-clean sep (c ∷ cs) h = ground (arith, before-clean sep cs)

-- A split has a first piece.
pub split-cons :
    (sep : ℕ) (text : Text)
    → (piece : Text) × (pieces : List Text) × (split sep text ≡ piece ∷ pieces)
unfolding split
split-cons sep [] = ([], [], refl)
split-cons sep (c ∷ cs) =
    let (piece, pieces, e) = split-cons sep cs in
    elim (Bool-cases (c == sep)) [
      | inl hit ↦ ([], split sep cs, rw hit)
      | inr miss ↦ (c ∷ piece, pieces, rw (miss, e))
    ]

pub ends_with-parts :
    (suffix text : Text) → ends_with suffix text ≡ true → (front : Text) × (text ≡ front ++ suffix)
unfolding ends_with
ends_with-parts suffix [] h = ([], (eq_iff [] suffix).0 h)
ends_with-parts suffix (c ∷ cs) h = elim (Bool-cases ((c ∷ cs) == suffix)) [
  | inl here ↦ ([], (eq_iff (c ∷ cs) suffix).0 here)
  | inr later ↦
      let (front, e) = ends_with-parts suffix cs (rw later at h) in (c ∷ front, ap (λ t. c ∷ t) e)
]

-- Cutting off a text that is appended.
pub drop_end-append : (front suffix : Text) → drop_end (length suffix) (front ++ suffix) ≡ front
drop_end-append front suffix =
    rw
      (let e : length (front ++ suffix) - length suffix ≡ length front =
          omega (arith, length-append front suffix) in
        e)
      (take-length-append front suffix)
