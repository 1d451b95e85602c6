-- ===== src/JsonPatch/Warnings.antt =====
-- `type_change_warnings`: the patches that change the JSON type of a value.
use charles_mcp.Prelude.{not, Option, none, some, List, [], ◌∷◌, ◌++◌, if◌then◌else◌}
use charles_mcp.Prelude.Text.{Text}
use charles_mcp.Prelude.Outcome.{ok, raise, ◌>>=◌}
use charles_mcp.Json.{Value, null, bool, int, float, str, arr, obj, Fields, get_field}
use charles_mcp.JsonPatch.Python.{Python, value_error, Result}
use charles_mcp.JsonPatch.Lookup.{get_pointer}
use charles_mcp.JsonPatch.Edit.{is_set, key_op, key_path, key_value, text_of}

-- The three warnings, with the pointer. The values' texts are left out.
pub data TypeWarning : Type 0 where
  float_to_int : Text → TypeWarning
  int_to_float : Text → TypeWarning
  text_change : Text → TypeWarning

-- The `isinstance` tests, for a value that is not `None` and no `bool`.
pub data Kind : Type 0 where
  integral : Kind
  fractional : Kind
  textual : Kind
  container : Kind

abbrev pub kind_of : Value → Option Kind
kind_of null = none
kind_of (bool b) = none
kind_of (int n) = some integral
kind_of (float f) = some fractional
kind_of (str s) = some textual
kind_of (arr xs) = some container
kind_of (obj fs) = some container

abbrev warn_kinds : Text → Kind → Kind → List TypeWarning
warn_kinds pointer fractional integral = float_to_int pointer ∷ []
warn_kinds pointer integral fractional = int_to_float pointer ∷ []
warn_kinds pointer textual textual = []
warn_kinds pointer textual new = text_change pointer ∷ []
warn_kinds pointer current textual = text_change pointer ∷ []
warn_kinds pointer current new = []

abbrev pub warn_values : Text → Option Kind → Option Kind → List TypeWarning
warn_values pointer (some current) (some new) = warn_kinds pointer current new
warn_values pointer current new = []

abbrev pub or_default : Value → Option Value → Value
or_default v none = v
or_default v (some w) = w

module _ (py : Python) where
  -- `except (KeyError, JsonPatchError): continue`; a plain `ValueError` is the caller's.
  abbrev warn_found : Text → Value → Result Value → Result (List TypeWarning)
  warn_found pointer new (ok current) = ok (warn_values pointer (kind_of current) (kind_of new))
  warn_found pointer new (raise value_error) = raise value_error
  warn_found pointer new (raise e) = ok []

  unfoldable pub warn_patch : Value → Fields → Result (List TypeWarning)
  warn_patch document patch =
      if not (is_set (get_field key_op patch))
      then ok []
      else (let pointer = text_of py (or_default (str []) (get_field key_path patch)) in
          warn_found pointer (or_default null (get_field key_value patch))
            (get_pointer py document pointer))

  unfoldable pub type_change_warnings : Value → List Fields → Result (List TypeWarning)
  type_change_warnings document [] = ok []
  type_change_warnings document (patch ∷ patches) = do
    found ← warn_patch document patch
    rest ← type_change_warnings document patches
    ok (found ++ rest)
