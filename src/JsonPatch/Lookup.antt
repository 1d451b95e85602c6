-- ===== src/JsonPatch/Lookup.antt =====
-- Reading: `get_pointer`, and the index that a token selects in a list.
use charles_mcp.Prelude.{
  ℕ, zero, suc, Bool, false, ◌||◌, not, Option, none, some, List, [], ◌∷◌, length, ltb, leb, ◌==◌,
  nat_eq, if◌then◌else◌,
}
use charles_mcp.Prelude.Text.{Text, text_eq}
use charles_mcp.Json.{Value, Items, nil, cons, obj, arr, str, get_field, get_item, size}
use charles_mcp.JsonPatch.Python.{
  Python, no_element, many_elements, bad_index, not_a_selector, out_of_range, Fault, patch_error,
  key_error, value_error, Result,
}
use charles_mcp.Prelude.Outcome.{ok, raise, ◌>>=◌, or_raise}
use charles_mcp.JsonPatch.Pointer.{parse_pointer, selector, is_selector, is_digits}

module _ (py : Python) where
  -- `_value_matches`, with `_as_text` of a value that is no string.
  unfoldable pub value_matches : Value → Text → Bool
  value_matches (str s) expected = s == expected
  value_matches value expected = elim (py.loads expected) [
    | some other ↦ py.equal value other
    | none ↦ py.dumps value == expected
  ]

  abbrev field_matches : Option Value → Text → Bool
  field_matches none expected = false
  field_matches (some v) expected = value_matches v expected

  -- Does the element carry the field with that value?
  unfoldable pub element_matches : Text → Text → Value → Bool
  element_matches name expected (obj fs) = field_matches (get_field name fs) expected
  element_matches name expected _ = false

  -- `positions`, counted from `position`.
  unfoldable pub matching : ℕ → Text → Text → Items → List ℕ
  matching position name expected nil = []
  matching position name expected (cons v xs) =
      let rest = matching (suc position) name expected xs in
      if element_matches name expected v then position ∷ rest else rest

  abbrev the_one : List ℕ → Result ℕ
  the_one [] = raise (patch_error no_element)
  the_one (i ∷ []) = ok i
  the_one (i ∷ j ∷ is) = raise (patch_error (many_elements (length (i ∷ j ∷ is))))

  -- `_selected_index`
  unfoldable pub selected_index : Items → Text → Result ℕ
  unfolding matching
  selected_index xs token = elim (selector token) [
    | none ↦ raise (patch_error not_a_selector)
    | some (name, expected) ↦ the_one (matching zero name expected xs)
  ]

  abbrev leading_zero : Text → Bool
  leading_zero [] = false
  leading_zero (c ∷ []) = false
  leading_zero (c ∷ d ∷ cs) = c == b'0'

  -- `_existing_index`
  unfoldable pub existing_index : Items → Text → Result ℕ
  unfolding is_selector is_digits selected_index
  existing_index xs token =
      if is_selector token
      then selected_index xs token
      else if not (is_digits py token) || leading_zero token
      then raise (patch_error bad_index)
      else do
        position ← or_raise value_error (py.int_of token)
        if leb (size xs) position then raise (patch_error (out_of_range position)) else ok position

  abbrev key_fault : Fault → Fault
  key_fault (patch_error r) = key_error
  key_fault e = e

  -- `except JsonPatchError: raise KeyError`
  abbrev as_key_error : Result ℕ → Result ℕ
  as_key_error (ok i) = ok i
  as_key_error (raise e) = raise (key_fault e)

  unfoldable pub by_selector : Items → Text → Result Value
  unfolding selected_index is_selector
  by_selector xs token =
      if is_selector token
      then (do i ← as_key_error (selected_index xs token); or_raise key_error (get_item i xs))
      else raise key_error

  -- The body of the loop of `get_pointer`.
  unfoldable pub get_step : Value → Text → Result Value
  unfolding by_selector
  get_step (obj fs) token = or_raise key_error (get_field token fs)
  get_step (arr xs) token =
      if is_digits py token
      then (do
        position ← or_raise value_error (py.int_of token)
        if ltb position (size xs)
            then or_raise key_error (get_item position xs)
            else by_selector xs token)
      else by_selector xs token
  get_step _ token = raise key_error

  unfoldable pub get_tokens : Value → List Text → Result Value
  unfolding get_step
  get_tokens current [] = ok current
  get_tokens current (token ∷ tokens) = do next ← get_step current token; get_tokens next tokens

  unfoldable pub get_pointer : Value → Text → Result Value
  unfolding parse_pointer get_tokens
  get_pointer document pointer = do tokens ← parse_pointer pointer; get_tokens document tokens
