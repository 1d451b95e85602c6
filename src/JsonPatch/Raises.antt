-- ===== src/JsonPatch/Raises.antt =====
-- Which faults a computation can raise, with a rule for each way to build one.
use charles_mcp.Prelude.{◌≡◌, refl, Bool, true, false, Option, none, some, if◌then◌else◌}
use charles_mcp.JsonPatch.Python.{Fault, Result}
use charles_mcp.Prelude.Outcome.{ok, raise, ◌>>=◌, or_raise}

pub record Raises {ℓ} {A : Type ℓ} (allowed : Fault → Bool) (m : Result A) : Type ℓ where
  pub at : (e : Fault) → m ≡ raise e → allowed e ≡ true

module _ {ℓ} {A : Type ℓ} {allowed : Fault → Bool} where
  pub Raises-ok : (a : A) → Raises allowed (ok a)
  Raises-ok a = record { at = λ e h. cc }

  pub Raises-raise : (e : Fault) → allowed e ≡ true → Raises {A = A} allowed (raise e)
  Raises-raise e fine = record { at = λ f h. let same : e ≡ f = cc in rw (← same) fine }

  pub Raises-or_raise :
      (e : Fault) (o : Option A) → allowed e ≡ true → Raises allowed (or_raise e o)
  Raises-or_raise e none fine = Raises-raise e fine
  Raises-or_raise e (some a) fine = Raises-ok a

  pub Raises-if :
      (b : Bool) (m n : Result A)
      → (b ≡ true → Raises allowed m)
      → (b ≡ false → Raises allowed n)
      → Raises allowed (if b then m else n)
  Raises-if true m n hm hn = hm refl
  Raises-if false m n hm hn = hn refl

module _ {ℓ κ} {A : Type ℓ} {B : Type κ} {allowed : Fault → Bool} where
  pub Raises-bind :
      (m : Result A) (f : A → Result B)
      → Raises allowed m
      → ((a : A) → m ≡ ok a → Raises allowed (f a))
      → Raises allowed (m >>= f)
  Raises-bind (ok a) f hm hf = hf a refl
  Raises-bind (raise e) f hm hf = record { at = λ d h. hm.at d (let same : e ≡ d = cc in rw same) }

pub ruleset raises_rules = (Raises-ok, Raises-raise, Raises-or_raise, Raises-if, Raises-bind)
