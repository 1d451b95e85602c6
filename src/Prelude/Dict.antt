-- ===== src/Prelude/Dict.antt =====
-- Python's `dict`: an association list in insertion order. Proofs elsewhere go by the laws.
use mathlib.Core.Path.{◌≡◌, refl}
use Prim.Native.Nat.{ℕ, zero, suc}
use mathlib.Core.Logic.{◌⊎◌, inl, inr}
use mathlib.Core.Bool.{false, ◌||◌}
use mathlib.Core.Option.{Option, none, some}
use mathlib.Core.List.{List, [], ◌∷◌, ◌++◌}
use native.Mathlib.Omega.{arith}
use charles_mcp.Prelude.Tests.{if◌then◌else◌, Bool-cases}
use charles_mcp.Prelude.Lists.{drop}
use charles_mcp.Prelude.Equality.{Eq, ◌==◌, contains, eq_refl}

abbrev pub Dict {ℓ κ} : Type ℓ → Type κ → Type (ℓ ⊔ κ)
Dict K V = List (K × V)

module _ {ℓ κ} {K : Type ℓ} {V : Type κ} where
  abbrev pub keys : Dict K V → List K
  keys [] = []
  keys ((k, _) ∷ d) = k ∷ keys d

  abbrev pub values : Dict K V → List V
  values [] = []
  values ((_, v) ∷ d) = v ∷ values d

module _ {ℓ κ} {K : Type ℓ} {V : Type κ} ⦃e : Eq K⦄ where
  -- `d.get(k)`
  unfoldable pub lookup : K → Dict K V → Option V
  lookup k [] = none
  lookup k ((j, v) ∷ d) = if j == k then some v else lookup k d

  -- `d[k] = v`: a known key keeps its place, a new one goes last.
  unfoldable pub insert : K → V → Dict K V → Dict K V
  insert k v [] = (k, v) ∷ []
  insert k v ((j, w) ∷ d) = if j == k then (j, v) ∷ d else (j, w) ∷ insert k v d

  -- `d.pop(k, None)`
  unfoldable pub erase : K → Dict K V → Dict K V
  erase k [] = []
  erase k ((j, w) ∷ d) = let rest = erase k d in if j == k then rest else (j, w) ∷ rest

  pub lookup-insert :
      (k j : K) (v : V) (d : Dict K V)
      → lookup j (insert k v d) ≡ (if k == j then some v else lookup j d)
  unfolding lookup insert
  lookup-insert k j v [] = refl
  lookup-insert k j v ((i, w) ∷ d) =
      ground (arith, e.beq_iff k j, e.beq_iff i k, e.beq_iff i j, lookup-insert k j v d)

  pub lookup-erase :
      (k j : K) (d : Dict K V) → lookup j (erase k d) ≡ (if k == j then none else lookup j d)
  unfolding lookup erase
  lookup-erase k j [] = ground arith
  lookup-erase k j ((i, w) ∷ d) =
      ground (arith, e.beq_iff k j, e.beq_iff i k, e.beq_iff i j, lookup-erase k j d)

  -- A dict has each key once.
  abbrev pub NodupKeys : Dict K V → Type 0
  NodupKeys [] = Unit
  NodupKeys ((k, _) ∷ d) = (contains (keys d) k ≡ false) × NodupKeys d

  pub contains-keys-erase :
      (k j : K) (d : Dict K V)
      → contains (keys (erase k d)) j ≡ (if k == j then false else contains (keys d) j)
  unfolding erase
  contains-keys-erase k j [] = ground arith
  contains-keys-erase k j ((i, w) ∷ d) =
      ground (arith, e.beq_iff k j, e.beq_iff i k, e.beq_iff i j, contains-keys-erase k j d)

  pub erase-NodupKeys : (k : K) (d : Dict K V) → NodupKeys d → NodupKeys (erase k d)
  unfolding erase
  erase-NodupKeys k [] u = tt
  erase-NodupKeys k ((i, w) ∷ d) (fresh, u) =
      ground (arith, erase-NodupKeys k d u, contains-keys-erase k i d)

  pub ruleset dict_laws = (lookup-insert, lookup-erase)

-- The first of two, where there is one.
abbrev pub or_else {ℓ} : {V : Type ℓ} → Option V → Option V → Option V
or_else none later = later
or_else (some v) later = some v

-- Items at the end, and items that are cut off at the front.
module _ {ℓ κ} {K : Type ℓ} {V : Type κ} ⦃e : Eq K⦄ where
  pub lookup-append :
      (k : K) (d f : Dict K V) → lookup k (d ++ f) ≡ or_else (lookup k d) (lookup k f)
  unfolding lookup
  lookup-append k [] f = refl
  lookup-append k ((j, v) ∷ d) f = ground (arith, lookup-append k d f)

  pub erase-fresh : (k : K) (d : Dict K V) → contains (keys d) k ≡ false → erase k d ≡ d
  unfolding erase
  erase-fresh k [] h = refl
  erase-fresh k ((j, v) ∷ d) h = ground (arith, erase-fresh k d)

  pub contains-keys-lookup :
      (k : K) (d : Dict K V) → lookup k d ≡ none → contains (keys d) k ≡ false
  unfolding lookup
  contains-keys-lookup k [] h = refl
  contains-keys-lookup k ((j, v) ∷ d) h = ground (arith, contains-keys-lookup k d)

  pub lookup-fresh : (k : K) (d : Dict K V) → contains (keys d) k ≡ false → lookup k d ≡ none
  unfolding lookup
  lookup-fresh k [] h = refl
  lookup-fresh k ((j, v) ∷ d) h = ground (arith, lookup-fresh k d)

  pub contains-keys-append :
      (d f : Dict K V) (k : K)
      → contains (keys (d ++ f)) k ≡ (contains (keys d) k || contains (keys f) k)
  contains-keys-append [] f k = refl
  contains-keys-append ((j, v) ∷ d) f k = ground (arith, contains-keys-append d f k)

  pub append-NodupKeys :
      (k : K) (v : V) (d : Dict K V)
      → NodupKeys d
      → contains (keys d) k ≡ false
      → NodupKeys (d ++ (k, v) ∷ [])
  append-NodupKeys k v [] u h = (refl, tt)
  append-NodupKeys k v ((j, w) ∷ d) (fresh, u) h = ground (
    arith,
    e.beq_iff j k,
    e.beq_iff k j,
    append-NodupKeys k v d u,
    contains-keys-append d ((k, v) ∷ []) j,
  )

  pub contains-keys-drop :
      (n : ℕ) (k : K) (d : Dict K V)
      → contains (keys d) k ≡ false
      → contains (keys (drop n d)) k ≡ false
  contains-keys-drop zero k d h = h
  contains-keys-drop (suc n) k [] h = refl
  contains-keys-drop (suc n) k ((j, v) ∷ d) h = contains-keys-drop n k d (ground arith)

  pub drop-NodupKeys : (n : ℕ) (d : Dict K V) → NodupKeys d → NodupKeys (drop n d)
  drop-NodupKeys zero d u = u
  drop-NodupKeys (suc n) [] u = tt
  drop-NodupKeys (suc n) ((j, v) ∷ d) (fresh, u) = drop-NodupKeys n d u

  -- An item is cut off or stays what it was.
  pub lookup-drop :
      (n : ℕ) (k : K) (d : Dict K V)
      → NodupKeys d
      → (lookup k (drop n d) ≡ none) ⊎ (lookup k (drop n d) ≡ lookup k d)
  unfolding lookup
  lookup-drop zero k d u = inr refl
  lookup-drop (suc n) k [] u = inl refl
  lookup-drop (suc n) k ((j, v) ∷ d) (fresh, u) = elim (Bool-cases (j == k)) [
    | inl hit ↦
        inl (
          lookup-fresh k (drop n d) (contains-keys-drop n k d (rw (← (e.beq_iff j k).0 hit) fresh)))
    | inr miss ↦ rw miss (lookup-drop n k d u)
  ]

  pub lookup-head : (k : K) (v : V) (d : Dict K V) → lookup k ((k, v) ∷ d) ≡ some v
  unfolding lookup
  lookup-head k v d = rw (eq_refl k) refl

  pub erase-head :
      (k : K) (v : V) (d : Dict K V) → contains (keys d) k ≡ false → erase k ((k, v) ∷ d) ≡ d
  unfolding erase
  erase-head k v d fresh = rw (eq_refl k) (erase-fresh k d fresh)
