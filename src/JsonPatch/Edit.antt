-- ===== src/JsonPatch/Edit.antt =====
-- Editing: `validate_patches`, `apply_patches`, and `_set` and `_remove` over `_resolve_parent`.
-- A list or dict is edited in place in a private deep copy, which the model rebuilds on the way back.
use charles_mcp.Prelude.{
  ℕ, zero, suc, Bool, false, ◌||◌, Option, none, some, List, [], ◌∷◌, ◌==◌, nat_eq, if◌then◌else◌,
}
use charles_mcp.Prelude.Text.{Text, text_eq, codes}
use charles_mcp.Prelude.Number.{str_nat}
use charles_mcp.Json.{
  Value, Fields, obj, arr, str, get_field, set_field, del_field, get_item, set_item, append_item,
  del_item, size,
}
use charles_mcp.JsonPatch.Python.{
  Python, not_an_object, unsupported_op, missing_path, missing_value, whole_document,
  does_not_exist, not_a_container, patch_error, Result,
}
use charles_mcp.Prelude.Outcome.{ok, raise, ◌>>=◌, ◌>>◌, or_raise}
use charles_mcp.JsonPatch.Pointer.{parse_pointer}
use charles_mcp.JsonPatch.Lookup.{existing_index}

abbrev pub is_set : Option Value → Bool
is_set (some (str s)) = s == codes "set"
is_set _ = false

abbrev pub is_remove : Option Value → Bool
is_remove (some (str s)) = s == codes "remove"
is_remove _ = false

abbrev pub key_op : Text
key_op = codes "op"

abbrev pub key_path : Text
key_path = codes "path"

abbrev pub key_value : Text
key_value = codes "value"

module _ (py : Python) where
  -- `str(patch["path"])`
  abbrev pub text_of : Value → Text
  text_of (str s) = s
  text_of v = py.str_of v

  -- One round of the loop of `validate_patches`, on a patch that is a dict.
  validate_fields : ℕ → Fields → Result (Unit {0})
  unfolding get_field parse_pointer
  validate_fields index patch =
      let op = get_field key_op patch in
      if is_set op || is_remove op
      then (do
        path ← or_raise (patch_error (missing_path index)) (get_field key_path patch)
        tokens ← parse_pointer (text_of path)
        if is_set op
            then (do
              value ← or_raise (patch_error (missing_value index)) (get_field key_value patch)
              ok tt)
            else ok tt)
      else raise (patch_error (unsupported_op index))

  unfoldable pub validate_patch : ℕ → Value → Result (Unit {0})
  unfolding validate_fields
  validate_patch index (obj patch) = validate_fields index patch
  validate_patch index _ = raise (patch_error (not_an_object index))

  unfoldable pub validate_from : ℕ → List Value → Result (Unit {0})
  unfolding validate_patch
  validate_from index [] = ok tt
  validate_from index (patch ∷ patches) = do
    validate_patch index patch
    validate_from (suc index) patches

  unfoldable pub validate_patches : List Value → Result (Unit {0})
  unfolding validate_from
  validate_patches patches = validate_from zero patches

  -- One step of `_resolve_parent`: edit the child at `token`, and put it back.
  unfoldable pub descend : (Value → Result Value) → Value → Text → Result Value
  descend edit (obj fs) token = do
    child ← or_raise (patch_error does_not_exist) (get_field token fs)
    child' ← edit child
    ok (obj (set_field token child' fs))
  descend edit (arr xs) token = do
    i ← existing_index py xs token
    child ← or_raise (patch_error does_not_exist) (get_item i xs)
    child' ← edit child
    ok (arr (set_item i child' xs))
  descend edit _ token = raise (patch_error not_a_container)

  -- The last step of `_set`, on the parent.
  unfoldable pub set_last : Text → Value → Value → Result Value
  set_last token value (obj fs) = ok (obj (set_field token value fs))
  set_last token value (arr xs) =
      if token == codes "-" || token == str_nat (size xs)
      then ok (arr (append_item value xs))
      else do i ← existing_index py xs token; ok (arr (set_item i value xs))
  set_last token value _ = raise (patch_error not_a_container)

  -- The last step of `_remove`, on the parent.
  unfoldable pub remove_last : Text → Value → Result Value
  remove_last token (obj fs) = elim (get_field token fs) [
    | none ↦ raise (patch_error does_not_exist)
    | some v ↦ ok (obj (del_field token fs))
  ]
  remove_last token (arr xs) = do i ← existing_index py xs token; ok (arr (del_item i xs))
  remove_last token _ = raise (patch_error not_a_container)

  -- `_set` at the tokens `token ∷ tokens`.
  unfoldable pub set_tokens : Text → List Text → Value → Value → Result Value
  unfolding descend set_last
  set_tokens token [] value document = set_last token value document
  set_tokens token (next ∷ tokens) value document =
      descend (set_tokens next tokens value) document token

  -- `_remove` at the tokens `token ∷ tokens`.
  unfoldable pub remove_tokens : Text → List Text → Value → Result Value
  unfolding descend remove_last
  remove_tokens token [] document = remove_last token document
  remove_tokens token (next ∷ tokens) document = descend (remove_tokens next tokens) document token

  abbrev pub set_at : List Text → Value → Value → Result Value
  set_at [] value document = ok value
  set_at (token ∷ tokens) value document = set_tokens token tokens value document

  abbrev pub remove_at : ℕ → List Text → Value → Result Value
  remove_at index [] document = raise (patch_error (whole_document index))
  remove_at index (token ∷ tokens) document = remove_tokens token tokens document

  -- One round of the loop of `apply_patches`, on a patch that is a dict.
  apply_fields : ℕ → Fields → Value → Result Value
  unfolding get_field parse_pointer set_tokens remove_tokens
  apply_fields index patch document =
      let op = get_field key_op patch in
      if is_set op || is_remove op
      then (do
        path ← or_raise (patch_error (missing_path index)) (get_field key_path patch)
        tokens ← parse_pointer (text_of path)
        if is_set op
            then (do
              value ← or_raise (patch_error (missing_value index)) (get_field key_value patch)
              set_at tokens value document)
            else remove_at index tokens document)
      else raise (patch_error (unsupported_op index))

  unfoldable pub apply_patch : ℕ → Value → Value → Result Value
  unfolding apply_fields
  apply_patch index (obj patch) document = apply_fields index patch document
  apply_patch index _ document = raise (patch_error (not_an_object index))

  unfoldable pub apply_from : ℕ → List Value → Value → Result Value
  unfolding apply_patch
  apply_from index [] document = ok document
  apply_from index (patch ∷ patches) document = do
    next ← apply_patch index patch document
    apply_from (suc index) patches next

  unfoldable pub apply_patches : Value → List Value → Result Value
  unfolding apply_from
  apply_patches document patches = apply_from zero patches document
