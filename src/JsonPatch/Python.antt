-- ===== src/JsonPatch/Python.antt =====
-- What json_patch.py takes from Python: errors as values, and the built-in functions on text and
-- values that the model is parametric in.
use charles_mcp.Prelude.{ℕ, ◌≡◌, Bool, true, Option, some}
use charles_mcp.Prelude.Text.{Text}
use charles_mcp.Prelude.Number.{is_ascii_digit, AllDigits, digits_value}
use charles_mcp.Prelude.{[], ◌≢◌}
use charles_mcp.Prelude.Outcome.{Outcome}
use charles_mcp.Json.{Value}

-- The reasons for a `JsonPatchError`. The texts of the messages are left out.
pub data Reason : Type 0 where
  bad_pointer : Reason
  not_an_object : ℕ → Reason
  unsupported_op : ℕ → Reason
  missing_path : ℕ → Reason
  missing_value : ℕ → Reason
  whole_document : ℕ → Reason
  does_not_exist : Reason
  not_a_container : Reason
  not_a_selector : Reason
  no_element : Reason
  many_elements : ℕ → Reason
  bad_index : Reason
  out_of_range : ℕ → Reason

-- `JsonPatchError` is a `ValueError` that the callers catch by its own name. A plain `ValueError`
-- comes from `int(token)`.
pub data Fault : Type 0 where
  patch_error : Reason → Fault
  key_error : Fault
  value_error : Fault

abbrev pub Result {ℓ} : Type ℓ → Type ℓ
Result A = Outcome Fault A

-- The built-in functions whose tables or parsers are Python's own.
pub record Python : Type 0 where
  -- `c.isdigit()` of one character, by the Unicode tables.
  pub is_digit : ℕ → Bool
  -- `int(text)`; `none` is a `ValueError`.
  pub int_of : Text → Option ℕ
  -- `json.loads(text)`; `none` is a `ValueError`.
  pub loads : Text → Option Value
  -- `json.dumps(value, ensure_ascii=False)`
  pub dumps : Value → Text
  -- `str(value)` of a value that is no string.
  pub str_of : Value → Text
  -- `a == b` of two JSON values.
  pub equal : Value → Value → Bool

-- The documented behaviour on the ASCII digits.
pub record IsPython (py : Python) : Type 0 where
  pub ascii_digit : (c : ℕ) → is_ascii_digit c ≡ true → py.is_digit c ≡ true
  pub ascii_int : (t : Text) → t ≢ [] → AllDigits t → py.int_of t ≡ some (digits_value 0 t)
