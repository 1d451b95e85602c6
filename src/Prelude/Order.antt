-- ===== src/Prelude/Order.antt =====
-- Python's comparison of numbers, texts and tuples, and `list.sort` by a key.
pub use Prim.Native.Nat.{compare, Ordering}
use Prim.Native.Nat.Ordering.{lt, eq, gt}
use mathlib.Core.Path.{◌≡◌, refl}
use mathlib.Core.Bool.{Bool, true, false}
use mathlib.Core.List.{[], ◌∷◌}
use native.Mathlib.Omega.{arith}
use charles_mcp.Prelude.Text.{Text}
use charles_mcp.Prelude.Int.{ℤ, pos, negsuc}

abbrev pub flip : Ordering → Ordering
flip lt = gt
flip eq = eq
flip gt = lt

-- The first difference decides.
abbrev pub then_by : Ordering → Ordering → Ordering
then_by lt next = lt
then_by eq next = next
then_by gt next = gt

abbrev pub at_most : Ordering → Bool
at_most gt = false
at_most _ = true

abbrev pub compare_bool : Bool → Bool → Ordering
compare_bool false true = lt
compare_bool true false = gt
compare_bool _ _ = eq

abbrev pub compare_int : ℤ → ℤ → Ordering
compare_int (pos m) (pos n) = compare m n
compare_int (pos m) (negsuc n) = gt
compare_int (negsuc m) (pos n) = lt
compare_int (negsuc m) (negsuc n) = compare n m

-- Character by character, a prefix first.
unfoldable pub compare_text : Text → Text → Ordering
compare_text [] [] = eq
compare_text [] (d ∷ ds) = lt
compare_text (c ∷ cs) [] = gt
compare_text (c ∷ cs) (d ∷ ds) = then_by (compare c d) (compare_text cs ds)

-- What sorting relies on.
pub record IsOrder {ℓ} {A : Type ℓ} (cmp : A → A → Ordering) : Type ℓ where
  pub flips : (a b : A) → cmp b a ≡ flip (cmp a b)
  pub same : (a b c : A) → cmp a b ≡ eq → cmp a c ≡ cmp b c
  pub chains : (a b c : A) → cmp a b ≡ lt → cmp b c ≡ lt → cmp a c ≡ lt

pub compare-IsOrder : IsOrder compare
compare-IsOrder = record {
  flips = λ a b. ground arith;
  same = λ a b c p. ground arith;
  chains = λ a b c p q. ground arith;
}

pub compare_bool-IsOrder : IsOrder compare_bool
compare_bool-IsOrder = record {
  flips = λ a b. ground arith;
  same = λ a b c p. ground arith;
  chains = λ a b c p q. ground arith;
}

pub compare_int-IsOrder : IsOrder compare_int
compare_int-IsOrder = record {
  flips = λ a b. ground arith;
  same = λ a b c p. ground arith;
  chains = λ a b c p q. ground arith;
}

text_flips : (a b : Text) → compare_text b a ≡ flip (compare_text a b)
unfolding compare_text
text_flips [] [] = refl
text_flips [] (d ∷ ds) = refl
text_flips (c ∷ cs) [] = refl
text_flips (c ∷ cs) (d ∷ ds) = ground (arith, text_flips cs ds)

text_same : (a b c : Text) → compare_text a b ≡ eq → compare_text a c ≡ compare_text b c
unfolding compare_text
text_same [] [] z p = refl
text_same [] (d ∷ ds) z p = cc
text_same (c ∷ cs) [] z p = cc
text_same (c ∷ cs) (d ∷ ds) [] p = refl
text_same (c ∷ cs) (d ∷ ds) (e ∷ es) p = ground (arith, text_same cs ds es)

text_chains : (a b c : Text) → compare_text a b ≡ lt → compare_text b c ≡ lt → compare_text a c ≡ lt
unfolding compare_text
text_chains [] [] z p q = cc
text_chains [] (d ∷ ds) [] p q = cc
text_chains [] (d ∷ ds) (e ∷ es) p q = refl
text_chains (c ∷ cs) [] z p q = cc
text_chains (c ∷ cs) (d ∷ ds) [] p q = cc
text_chains (c ∷ cs) (d ∷ ds) (e ∷ es) p q = ground (arith, text_chains cs ds es)

pub compare_text-IsOrder : IsOrder compare_text
compare_text-IsOrder = record { flips = text_flips; same = text_same; chains = text_chains }

module _ {ℓ} {A : Type ℓ} (f g : A → A → Ordering) (p : IsOrder f) (q : IsOrder g) where
  -- A tuple is compared at its first difference.
  pub then_by-IsOrder : IsOrder (λ a b. then_by (f a b) (g a b))
  then_by-IsOrder = record {
    flips = λ a b. ground (arith, p.flips a b, q.flips a b);
    same = λ a b c h. ground (arith, p.same a b c, q.same a b c);
    chains = λ a b c h k. ground (
      arith,
      p.chains a b c,
      q.chains a b c,
      p.same a b c,
      p.same c b a,
      p.flips a c,
      p.flips b c,
      p.flips a b,
    );
  }

module _ {ℓ κ} {A : Type ℓ} {B : Type κ} (cmp : B → B → Ordering) (key : A → B) where
  -- By a key, and by a key in descending order.
  pub key-IsOrder : IsOrder cmp → IsOrder (λ a b. cmp (key a) (key b))
  key-IsOrder p = record {
    flips = λ a b. p.flips (key a) (key b);
    same = λ a b c. p.same (key a) (key b) (key c);
    chains = λ a b c. p.chains (key a) (key b) (key c);
  }

  pub key_down-IsOrder : IsOrder cmp → IsOrder (λ a b. cmp (key b) (key a))
  key_down-IsOrder p = record {
    flips = λ a b. p.flips (key b) (key a);
    same = λ a b c h. ground (
      arith,
      p.same (key a) (key b) (key c),
      p.flips (key a) (key b),
      p.flips (key a) (key c),
      p.flips (key b) (key c),
    );
    chains = λ a b c h k. p.chains (key c) (key b) (key a) k h;
  }
