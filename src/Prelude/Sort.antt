-- ===== src/Prelude/Sort.antt =====
-- `list.sort`: stable, by insertion from the end. What the clients use is its first item.
use Prim.Native.Nat.{ℕ, suc, ◌+◌, Ordering}
use mathlib.Core.Path.{◌≡◌, refl, subst, ap, ◌∙◌}
use mathlib.Core.Logic.{◌⊎◌, ◌≢◌, ◌⊎◌, inl, inr}
use mathlib.Core.Bool.{true}
use mathlib.Core.List.{List, [], ◌∷◌}
use mathlib.Core.Option.{Option, none, some}
use native.Mathlib.Omega.{arith}
use charles_mcp.Prelude.Tests.{if◌then◌else◌, Bool-cases}
use charles_mcp.Prelude.Lists.{All, Among, length, sum_by}
use charles_mcp.Prelude.Order.{IsOrder, at_most}

module _ {ℓ} {A : Type ℓ} (cmp : A → A → Ordering) where
  unfoldable pub insert_sorted : A → List A → List A
  insert_sorted x [] = x ∷ []
  insert_sorted x (y ∷ ys) =
      let rest = insert_sorted x ys in if at_most (cmp x y) then x ∷ y ∷ ys else y ∷ rest

  unfoldable pub sort : List A → List A
  unfolding insert_sorted
  sort [] = []
  sort (x ∷ xs) = insert_sorted x (sort xs)

  abbrev pub first : List A → Option A
  first [] = none
  first (x ∷ xs) = some x

  first-insert_sorted : (x : A) (ys : List A) → first (insert_sorted x ys) ≢ none
  unfolding insert_sorted
  first-insert_sorted x [] p = cc
  first-insert_sorted x (y ∷ ys) p = ground arith

  -- Only the empty list has no first item.
  pub first-sort-none : (xs : List A) → first (sort xs) ≡ none → xs ≡ []
  unfolding sort
  first-sort-none [] p = refl
  first-sort-none (x ∷ xs) p = absurd (first-insert_sorted x (sort xs) p)

  module _ (o : IsOrder cmp) where
    at_most_trans :
        (a b c : A) → at_most (cmp a b) ≡ true → at_most (cmp b c) ≡ true → at_most (cmp a c) ≡ true
    at_most_trans a b c p q = ground (
      arith,
      o.chains a b c,
      o.same a b c,
      o.same b c a,
      o.same c b a,
      o.flips a c,
      o.flips b c,
      o.flips a b,
    )

    All-at_most :
        (a b : A) (xs : List A)
        → at_most (cmp a b) ≡ true
        → All (λ x. at_most (cmp b x) ≡ true) xs
        → All (λ x. at_most (cmp a x) ≡ true) xs
    All-at_most a b [] p h = tt
    All-at_most a b (x ∷ xs) p (h, hs) = (at_most_trans a b x p h, All-at_most a b xs p hs)

    at_most_refl : (a : A) → at_most (cmp a a) ≡ true
    at_most_refl a = ground (arith, o.flips a a)

    module _ (x : A) (xs : List A) where
      step :
          (ys : List A)
          → ((n : A) → first ys ≡ some n → All (λ z. at_most (cmp n z) ≡ true) xs)
          → (first ys ≡ none → xs ≡ [])
          → (m : A) → first (insert_sorted x ys) ≡ some m
          → (at_most (cmp m x) ≡ true) × All (λ z. at_most (cmp m z) ≡ true) xs
      unfolding insert_sorted
      step [] ih empty m p =
          rw (empty refl)
            (subst (λ t. at_most (cmp t x) ≡ true) (ground arith) (at_most_refl x), tt)
      step (y ∷ ys) ih empty m p = elim (Bool-cases (at_most (cmp x y))) [
        | inl le ↦
            subst (λ t. (at_most (cmp t x) ≡ true) × All (λ z. at_most (cmp t z) ≡ true) xs)
              (ground arith) (at_most_refl x, All-at_most x y xs le (ih y refl))
        | inr above ↦
            subst (λ t. (at_most (cmp t x) ≡ true) × All (λ z. at_most (cmp t z) ≡ true) xs)
              (ground arith) (ground (arith, o.flips x y), ih y refl)
      ]

    -- The first item of the sorted list is at most every item.
    pub first-sort-at_most :
        (xs : List A) (m : A) → first (sort xs) ≡ some m → All (λ x. at_most (cmp m x) ≡ true) xs
    unfolding sort
    first-sort-at_most [] m p = tt
    first-sort-at_most (x ∷ xs) m p =
        step x xs (sort xs) (first-sort-at_most xs) (first-sort-none xs) m p

-- The first item of the sorted list is one of the items.
module _ {A : Type 0} (cmp : A → A → Ordering) where
  pub first-sort-Among : (xs : List A) (m : A) → first cmp (sort cmp xs) ≡ some m → Among m xs
  unfolding sort insert_sorted
  first-sort-Among [] m p = absurd (cc)
  first-sort-Among (x ∷ xs) m p = by_first (sort cmp xs) p (first-sort-Among xs m)
    where
      by_first :
          (ys : List A)
          → first cmp (insert_sorted cmp x ys) ≡ some m
          → (first cmp ys ≡ some m → Among m xs)
          → (m ≡ x) ⊎ Among m xs
      by_first [] q ih = inl (ground arith)
      by_first (y ∷ ys) q ih = elim (Bool-cases (at_most (cmp x y))) [
        | inl le ↦ inl (ground arith)
        | inr above ↦ inr (ih (ground arith))
      ]

-- Sorting keeps the number of items, and their sum.
module _ {ℓ} {A : Type ℓ} (cmp : A → A → Ordering) where
  sum-insert_sorted :
      (f : A → ℕ) (x : A) (ys : List A) → sum_by f (insert_sorted cmp x ys) ≡ f x + sum_by f ys
  unfolding insert_sorted
  sum-insert_sorted f x [] = refl
  sum-insert_sorted f x (y ∷ ys) = ground (arith, sum-insert_sorted f x ys)

  pub sum-sort : (f : A → ℕ) (xs : List A) → sum_by f (sort cmp xs) ≡ sum_by f xs
  unfolding sort
  sum-sort f [] = refl
  sum-sort f (x ∷ xs) = sum-insert_sorted f x (sort cmp xs) ∙ ap (λ n. f x + n) (sum-sort f xs)

  length-insert_sorted : (x : A) (ys : List A) → length (insert_sorted cmp x ys) ≡ suc (length ys)
  unfolding insert_sorted
  length-insert_sorted x [] = refl
  length-insert_sorted x (y ∷ ys) = ground (arith, length-insert_sorted x ys)

  pub length-sort : (xs : List A) → length (sort cmp xs) ≡ length xs
  unfolding sort
  length-sort [] = refl
  length-sort (x ∷ xs) = length-insert_sorted x (sort cmp xs) ∙ ap (λ n. suc n) (length-sort xs)
