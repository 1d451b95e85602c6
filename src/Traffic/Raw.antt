-- ===== src/Traffic/Raw.antt =====
-- Access to the raw entries of Charles, and the exceptions of the traffic queries.
use charles_mcp.Prelude.{Option, none, some, List, [], ◌∷◌, if◌then◌else◌}
use charles_mcp.Prelude.Text.{Text}
use charles_mcp.Prelude.Int.{ℤ}
use charles_mcp.Prelude.Outcome.{Outcome, ok, raise}
use charles_mcp.LiveState.Errors.{LiveError}
use charles_mcp.LiveState.Entries.{Platform, section, truthy}
use charles_mcp.Json.{Value, Items, Fields, str, obj, nil, cons, get_field, end}

-- `live_error` is what a section that is no dict, and the live service, raise; `validation_error`
-- is pydantic's; `query_error` is what jmespath raises.
pub data Fault : Type 0 where
  live_error : LiveError → Fault
  type_error : Fault
  validation_error : Fault
  query_error : Fault
  file_not_found : Fault
  missing_capture_id : Fault
  missing_recording_path : Fault
  entry_not_found : Text → Text → Fault

abbrev pub Result {ℓ} : Type ℓ → Type ℓ
Result A = Outcome Fault A

abbrev pub from_live {ℓ} : {A : Type ℓ} → Outcome LiveError A → Result A
from_live (raise e) = raise (live_error e)
from_live (ok a) = ok a

-- pydantic's conversion of the value of a field, `none` for a missing one.
pub record Pydantic : Type 0 where
  pub text_field : Option Value → Result (Option Text)
  pub int_field : Option Value → Result (Option ℤ)
  pub dict_field : Value → Result Fields

module _ (pf : Platform) where
  -- `payload.get(key) or {}`, on which `.get` is called next.
  unfoldable pub part : Text → Fields → Result Fields
  part key payload = from_live (section pf key payload)

  -- `str(value)`
  abbrev pub show : Value → Text
  show (str s) = s
  show v = pf.str_of v

  -- `payload.get(key) or {}` as a value.
  unfoldable pub value_or_dict : Text → Fields → Value
  unfolding truthy
  value_or_dict key payload = elim (get_field key payload) [
    | none ↦ obj end
    | some v ↦ if truthy pf v then v else obj end
  ]

-- The items of a list.
abbrev pub items_of : Items → List Value
items_of nil = []
items_of (cons v xs) = v ∷ items_of xs
