-- ===== src/Prelude/Outcome.antt =====
-- Python calls that return or raise. `E` is the type of the exceptions that the model tells apart.
use mathlib.Core.Path.{◌≡◌, refl, subst}
use mathlib.Core.Logic.{◌⊎◌, inl, inr}
use mathlib.Core.Option.{Option, none, some}

pub data Outcome {ℓ} (E : Type 0) (A : Type ℓ) : Type ℓ where
  raise : E → Outcome E A
  ok : A → Outcome E A

module _ {ℓ κ} {E : Type 0} {A : Type ℓ} {B : Type κ} where
  infixl 5 ◌>>=◌
  abbrev pub ◌>>=◌ : Outcome E A → (A → Outcome E B) → Outcome E B
  ◌>>=◌ call next = elim call [ raise e ↦ raise e | ok a ↦ next a ]

  -- A chain that returned: its first call did, and so did the rest on that value.
  pub chain-parts :
      (call : Outcome E A) (next : A → Outcome E B) {b : B} (returned : (call >>= next) ≡ ok b)
      → (a : A) × (call ≡ ok a) × (next a ≡ ok b)
  chain-parts (raise e) next returned = cc
  chain-parts (ok a) next returned = (a, refl, returned)

  -- A chain that raised: its first call did, or it returned and the rest raised on that value.
  pub chain-raise :
      (call : Outcome E A) (next : A → Outcome E B) {e : E} (raised : (call >>= next) ≡ raise e)
      → (call ≡ raise e) ⊎ ((a : A) × (call ≡ ok a) × (next a ≡ raise e))
  chain-raise (raise f) next raised = inl (cc raised)
  chain-raise (ok a) next raised = inr (a, refl, raised)

  -- Rests that agree on every value make equal chains.
  pub chain-eq :
      (call : Outcome E A) (f g : A → Outcome E B) (agree : (a : A) → f a ≡ g a)
      → (call >>= f) ≡ (call >>= g)
  chain-eq (raise e) f g agree = refl
  chain-eq (ok a) f g agree = agree a

module _ {κ} {E : Type 0} {B : Type κ} where
  infixl 5 ◌>>◌
  abbrev pub ◌>>◌ : Outcome E (Unit {0}) → Outcome E B → Outcome E B
  ◌>>◌ call rest = call >>= λ _. rest

module _ {ℓ κ ι} {E : Type 0} {A : Type ℓ} {B : Type κ} {C : Type ι} where
  pub chain_assoc :
      (call : Outcome E A) (f : A → Outcome E B) (g : B → Outcome E C)
      → ((call >>= f) >>= g) ≡ (call >>= λ a. f a >>= g)
  chain_assoc (raise e) f g = refl
  chain_assoc (ok a) f g = refl

module _ {ℓ} {E : Type 0} {A : Type ℓ} where
  pub chain-ok : (call : Outcome E A) → (call >>= λ a. ok a) ≡ call
  chain-ok (raise e) = refl
  chain-ok (ok a) = refl

  pub same_value : {a b : A} → ◌≡◌ {A = Outcome E A} (ok a) (ok b) → a ≡ b
  same_value p = cc

  -- The value, or this exception in its place.
  abbrev pub or_raise : E → Option A → Outcome E A
  or_raise e none = raise e
  or_raise e (some a) = ok a

  pub or_raise-parts : (e : E) (o : Option A) {a : A} → or_raise e o ≡ ok a → o ≡ some a
  or_raise-parts e none p = cc
  or_raise-parts e (some a) p = cc

-- A call that raises, or returns what the predicate holds of.
module _ {ℓ κ} {E : Type 0} {A : Type ℓ} (P : A → Type κ) where
  abbrev pub Always : Outcome E A → Type κ
  Always (raise e) = Unit
  Always (ok a) = P a

  pub always_ok : (call : Outcome E A) {a : A} → Always call → call ≡ ok a → P a
  always_ok (raise e) h p = cc
  always_ok (ok a) h p = subst P (same_value p) h

module _ {ℓ κ ι} {E : Type 0} {A : Type ℓ} {B : Type κ} (P : B → Type ι) where
  pub chain-Always :
      (call : Outcome E A) (next : A → Outcome E B)
      → ((a : A) → Always P (next a))
      → Always P (call >>= next)
  chain-Always (raise e) next h = tt
  chain-Always (ok a) next h = h a

  -- The rest of a chain is run on what its first call always returns.
  pub chain-Always_of {θ} :
      (Q : A → Type θ) (call : Outcome E A) (next : A → Outcome E B)
      → Always Q call
      → ((a : A) → Q a → Always P (next a))
      → Always P (call >>= next)
  chain-Always_of Q (raise e) next q h = tt
  chain-Always_of Q (ok a) next q h = h a q
