-- ===== src/JsonPatch/Pointer/Alias.antt =====
-- `pointers_may_alias` as a relation on pointers.
use charles_mcp.Prelude.{
  ◌≡◌, refl, ◌≢◌, ◌⊎◌, inl, inr, ap, Bool, true, false, ◌&&◌, List, [], ◌∷◌, arith, length, ◌==◌,
  nat_eq, Bool-cases, eq_iff, eq_refl, eq_of_ne,
}
use charles_mcp.Prelude.Text.{Text, text_eq}
use charles_mcp.JsonPatch.Python.{Python, Result}
use charles_mcp.Prelude.Outcome.{ok, ◌>>=◌}
use charles_mcp.JsonPatch.Pointer.{
  parse_pointer, addresses_array, alias_loop, tokens_may_alias, pointers_may_alias,
}

module _ (py : Python) where
  abbrev answer : Result (List Text) → Result (List Text) → Result Bool
  answer ra rb = ra >>= λ ta. rb >>= λ tb. ok (tokens_may_alias py ta tb)

  -- Some position tells the two paths apart, whichever document they are applied to.
  abbrev pub Diverges : List Text → List Text → Type 0
  Diverges [] ys = ⊥
  Diverges (x ∷ xs) [] = ⊥
  Diverges (x ∷ xs) (y ∷ ys) =
      ((x ≢ y) × ((addresses_array py x && addresses_array py y) ≡ false)) ⊎ Diverges xs ys

  tails_differ :
      (saw : Bool) (x y : Text) (xs ys : List Text)
      → x ≡ y
      → (saw ≡ true) ⊎ (◌≢◌ {A = List Text} (x ∷ xs) (y ∷ ys))
      → (saw ≡ true) ⊎ (xs ≢ ys)
  tails_differ saw x y xs ys e (inl s) = inl s
  tails_differ saw x y xs ys e (inr d) = inr (λ t. d (cc (e, t)))

  alias_loop-Diverges :
      (saw : Bool) (xs ys : List Text)
      → length xs ≡ length ys
      → alias_loop py saw xs ys ≡ false
      → (saw ≡ true) ⊎ (xs ≢ ys)
      → Diverges xs ys
  unfolding alias_loop
  alias_loop-Diverges saw [] [] n h (inl s) = cc
  alias_loop-Diverges saw [] [] n h (inr d) = absurd (d refl)
  alias_loop-Diverges saw [] (y ∷ ys) n h d = absurd (omega arith)
  alias_loop-Diverges saw (x ∷ xs) [] n h d = absurd (omega arith)
  alias_loop-Diverges saw (x ∷ xs) (y ∷ ys) n h d = elim (Bool-cases (x == y)) [
    | inl same ↦ inr (
        alias_loop-Diverges saw xs ys (omega arith) (ground arith)
          (tails_differ saw x y xs ys ((eq_iff x y).0 same) d))
    | inr differ ↦ elim (Bool-cases (addresses_array py x && addresses_array py y)) [
      | inl both ↦ inr (alias_loop-Diverges true xs ys (omega arith) (ground arith) (inl refl))
      | inr one ↦ inl ((λ p. cc ((eq_iff x y).1 p)), one)
    ]
  ]

  -- The pointers' own answer, on paths of one length.
  pub tokens_may_alias-Diverges :
      (xs ys : List Text)
      → length xs ≡ length ys
      → xs ≢ ys
      → tokens_may_alias py xs ys ≡ false
      → Diverges xs ys
  unfolding tokens_may_alias
  tokens_may_alias-Diverges [] [] n d h = absurd (d refl)
  tokens_may_alias-Diverges [] (y ∷ ys) n d h = absurd (omega arith)
  tokens_may_alias-Diverges (x ∷ xs) ys n d h =
      alias_loop-Diverges false (x ∷ xs) ys n (ground arith) (inr d)

  alias_loop-same : (xs : List Text) → alias_loop py false xs xs ≡ false
  unfolding alias_loop
  alias_loop-same [] = refl
  alias_loop-same (x ∷ xs) = rw (eq_refl x) (alias_loop-same xs)

  tokens_may_alias-same : (xs : List Text) → tokens_may_alias py xs xs ≡ false
  unfolding tokens_may_alias
  tokens_may_alias-same [] = refl
  tokens_may_alias-same (x ∷ xs) = ground (arith, alias_loop-same (x ∷ xs))

  -- Two different spellings of one path are reported as free of aliasing.
  pub pointers_may_alias-missed :
      (a b : Text) (tokens : List Text)
      → a ≢ b
      → parse_pointer a ≡ ok tokens
      → parse_pointer b ≡ ok tokens
      → pointers_may_alias py a b ≡ ok false
  unfolding pointers_may_alias
  pointers_may_alias-missed a b tokens d pa pb =
      rw (eq_of_ne a b d, pa, pb) (ap ok (tokens_may_alias-same tokens))
