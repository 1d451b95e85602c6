-- ===== src/Prelude/Action.antt =====
-- Calls that change a state, and return or raise beside it.
pub mod Laws
use charles_mcp.Prelude.Outcome.{Outcome, raise, ok}

abbrev pub Action {ℓ} : Type 0 → Type 0 → Type ℓ → Type ℓ
Action S E A = S → S × Outcome E A

module _ {ℓ} {S E : Type 0} {A : Type ℓ} where
  unfoldable pub pure : A → Action S E A
  pure a s = (s, ok a)

  unfoldable pub throw : E → Action S E A
  throw e s = (s, raise e)

  unfoldable pub gets : (S → A) → Action S E A
  gets f s = (s, ok (f s))

  unfoldable pub lift : Outcome E A → Action S E A
  lift call s = (s, call)

  abbrev pub handled : (E → Action S E A) → S × Outcome E A → S × Outcome E A
  handled handler (t, raise e) = handler e t
  handled handler (t, ok a) = (t, ok a)

  -- `try` and `except`: the handler goes on from the state that the body left.
  unfoldable pub rescue : Action S E A → (E → Action S E A) → Action S E A
  rescue body handler s = handled handler (body s)

module _ {S E : Type 0} where
  unfoldable pub change : (S → S) → Action S E (Unit {0})
  change f s = (f s, ok tt)

  abbrev pub skip : Action S E (Unit {0})
  skip = pure tt

module _ {ℓ κ} {S E : Type 0} {A : Type ℓ} {B : Type κ} where
  abbrev pub continued : (A → Action S E B) → S × Outcome E A → S × Outcome E B
  continued next (t, raise e) = (t, raise e)
  continued next (t, ok a) = next a t

  infixl 5 ◌>>=◌
  unfoldable pub ◌>>=◌ : Action S E A → (A → Action S E B) → Action S E B
  ◌>>=◌ first next s = continued next (first s)

module _ {κ} {S E : Type 0} {B : Type κ} where
  infixl 5 ◌>>◌
  abbrev pub ◌>>◌ : Action S E (Unit {0}) → Action S E B → Action S E B
  ◌>>◌ first next = first >>= λ _. next
