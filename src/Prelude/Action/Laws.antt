-- ===== src/Prelude/Action/Laws.antt =====
-- What holds of an action, one rule for each way to build it.
use Prim.Native.Nat.{ℕ, ◌+◌, ◌≤◌}
use mathlib.Core.Path.{◌≡◌, refl}
use mathlib.Core.Bool.{Bool, true, false}
use native.Mathlib.Omega.{arith}
use charles_mcp.Prelude.Tests.{if◌then◌else◌}
use charles_mcp.Prelude.Outcome.{Outcome, raise, ok}
use charles_mcp.Prelude.Action.{Action, pure, throw, gets, lift, rescue, handled, continued, ◌>>=◌}

-- `Q` of what is returned and the state, or `R` of the state beside an exception.
abbrev pub Ends {ℓ} :
    {S E : Type 0} → {A : Type ℓ} → (A → S → Type 0) → (S → Type 0) → S × Outcome E A → Type 0
Ends Q R (s, ok a) = Q a s
Ends Q R (s, raise e) = R s

-- From a state with `P`, the action returns with `Q` or raises with `R`.
pub record Triple {ℓ} {S E : Type 0} {A : Type ℓ} (P : S → Type 0) (m : Action S E A)
    (Q : A → S → Type 0) (R : S → Type 0) : Type ℓ where
  pub run : (s : S) → P s → Ends Q R (m s)

-- The action makes the measure `f` larger by `n` at most, whether it returns or raises.
pub record Adds {ℓ} {S E : Type 0} {A : Type ℓ} (f : S → ℕ) (n : ℕ) (m : Action S E A)
    : Type ℓ where
  pub adds : (s : S) → f (m s).0 ≤ n + f s

Ends-le {ℓ} :
    {S E : Type 0} {A : Type ℓ} {R T : S → Type 0} (Q : A → S → Type 0) (r : S × Outcome E A)
    → ((s : S) → R s → T s)
    → Ends Q R r
    → Ends Q T r
Ends-le Q (s, raise e) weaker h = weaker s h
Ends-le Q (s, ok a) weaker h = h

module _ {ℓ} {S E : Type 0} {A : Type ℓ} {R : S → Type 0} {Q : A → S → Type 0} where
  rescue-Ends :
      {M : S → Type 0} (handler : E → Action S E A) (r : S × Outcome E A)
      → ((e : E) → Triple M (handler e) Q R)
      → Ends Q M r
      → Ends Q R (handled handler r)
  rescue-Ends handler (t, raise e) handles h = (handles e).run t h
  rescue-Ends handler (t, ok a) handles h = h

module _ {ℓ} {S E : Type 0} {A : Type ℓ} {P R : S → Type 0} {Q : A → S → Type 0} where
  pub Triple-pure : (a : A) → ((s : S) → P s → Q a s) → Triple {E = E} P (pure a) Q R
  unfolding pure
  Triple-pure a h = record { run = h }

  pub Triple-throw : (e : E) → ((s : S) → P s → R s) → Triple P (throw e) Q R
  unfolding throw
  Triple-throw e h = record { run = h }

  pub Triple-gets : (f : S → A) → ((s : S) → P s → Q (f s) s) → Triple {E = E} P (gets f) Q R
  unfolding gets
  Triple-gets f h = record { run = h }

  -- The state before may be described with more.
  pub Triple-from :
      {T : S → Type 0} {m : Action S E A} → ((s : S) → T s → P s) → Triple P m Q R → Triple T m Q R
  Triple-from stronger h = record { run = λ s t. h.run s (stronger s t) }

  -- What is known of more than the state.
  pub Triple-given :
      {X : Type 0} {m : Action S E A} → (X → Triple P m Q R) → Triple (λ s. P s × X) m Q R
  Triple-given h = record { run = λ s (p, x). (h x).run s p }

  -- The exception's state may be described with less.
  pub Triple-raise_le :
      {T : S → Type 0} {m : Action S E A} → ((s : S) → R s → T s) → Triple P m Q R → Triple P m Q T
  Triple-raise_le {m = m} weaker h = record { run = λ s p. Ends-le Q (m s) weaker (h.run s p) }

  pub Triple-if :
      (b : Bool) (m n : Action S E A)
      → (b ≡ true → Triple P m Q R)
      → (b ≡ false → Triple P n Q R)
      → Triple P (if b then m else n) Q R
  Triple-if true m n h k = h refl
  Triple-if false m n h k = k refl

  pub Triple-rescue :
      {M : S → Type 0} (body : Action S E A) (handler : E → Action S E A)
      → Triple P body Q M
      → ((e : E) → Triple M (handler e) Q R)
      → Triple P (rescue body handler) Q R
  unfolding rescue
  Triple-rescue body handler tries handles = record {
    run = λ s h. rescue-Ends handler (body s) handles (tries.run s h);
  }

module _ {ℓ κ} {S E : Type 0} {A : Type ℓ} {B : Type κ} {R : S → Type 0} {M : A → S → Type 0}
    {Q : B → S → Type 0} where
  bind-Ends :
      (next : A → Action S E B) (r : S × Outcome E A)
      → ((a : A) → Triple (M a) (next a) Q R)
      → Ends M R r
      → Ends Q R (continued next r)
  bind-Ends next (t, raise e) later h = h
  bind-Ends next (t, ok a) later h = (later a).run t h

module _ {ℓ κ} {S E : Type 0} {A : Type ℓ} {B : Type κ} {P R : S → Type 0} {M : A → S → Type 0}
    {Q : B → S → Type 0} where
  pub Triple-bind :
      (first : Action S E A) (next : A → Action S E B)
      → Triple P first M R
      → ((a : A) → Triple (M a) (next a) Q R)
      → Triple P (first >>= next) Q R
  unfolding ◌>>=◌
  Triple-bind first next begins later = record {
    run = λ s h. bind-Ends next (first s) later (begins.run s h);
  }

module _ {ℓ} {S E : Type 0} {A : Type ℓ} {f : S → ℕ} where
  pub Adds-pure : (a : A) → Adds {E = E} f 0 (pure a)
  unfolding pure
  Adds-pure a = record { adds = λ s. omega arith }

  pub Adds-throw : (e : E) → Adds {A = A} f 0 (throw e)
  unfolding throw
  Adds-throw e = record { adds = λ s. omega arith }

  pub Adds-gets : (g : S → A) → Adds {E = E} f 0 (gets g)
  unfolding gets
  Adds-gets g = record { adds = λ s. omega arith }

  pub Adds-lift : (call : Outcome E A) → Adds f 0 (lift call)
  unfolding lift
  Adds-lift call = record { adds = λ s. omega arith }

  pub Adds-if :
      (n : ℕ) (b : Bool) (m k : Action S E A)
      → (b ≡ true → Adds f n m)
      → (b ≡ false → Adds f n k)
      → Adds f n (if b then m else k)
  Adds-if n true m j h k = h refl
  Adds-if n false m j h k = k refl

  pub Adds-le : {n k : ℕ} {m : Action S E A} → n ≤ k → Adds f n m → Adds f k m
  Adds-le fits h = record { adds = λ s. omega (arith, fits, h.adds s) }

  rescue-Adds :
      (n k base : ℕ) (handler : E → Action S E A) (r : S × Outcome E A)
      → ((e : E) → Adds f k (handler e))
      → f r.0 ≤ n + base
      → f (handled handler r).0 ≤ n + k + base
  rescue-Adds n k base handler (t, raise e) handles h = omega (arith, h, (handles e).adds t)
  rescue-Adds n k base handler (t, ok a) handles h = omega (arith, h)

  pub Adds-rescue :
      (n k : ℕ) (body : Action S E A) (handler : E → Action S E A)
      → Adds f n body
      → ((e : E) → Adds f k (handler e))
      → Adds f (n + k) (rescue body handler)
  unfolding rescue
  Adds-rescue n k body handler tries handles = record {
    adds = λ s. rescue-Adds n k (f s) handler (body s) handles (tries.adds s);
  }

module _ {ℓ κ} {S E : Type 0} {A : Type ℓ} {B : Type κ} {f : S → ℕ} where
  bind-Adds :
      (n k base : ℕ) (next : A → Action S E B) (r : S × Outcome E A)
      → ((a : A) → Adds f k (next a))
      → f r.0 ≤ n + base
      → f (continued next r).0 ≤ n + k + base
  bind-Adds n k base next (t, raise e) later h = omega (arith, h)
  bind-Adds n k base next (t, ok a) later h = omega (arith, h, (later a).adds t)

  pub Adds-bind :
      (n k : ℕ) (first : Action S E A) (next : A → Action S E B)
      → Adds f n first
      → ((a : A) → Adds f k (next a))
      → Adds f (n + k) (first >>= next)
  unfolding ◌>>=◌
  Adds-bind n k first next begins later = record {
    adds = λ s. bind-Adds n k (f s) next (first s) later (begins.adds s);
  }
