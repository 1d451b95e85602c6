-- ===== src/JsonPatch/Checks.antt =====
-- `validate_patches` against `apply_patches`, and the errors that each function can raise.
use charles_mcp.Prelude.{
  ℕ, zero, suc, ◌≡◌, refl, Bool, true, false, ◌||◌, inl, inr, List, [], ◌∷◌, arith, Bool-cases,
}
use charles_mcp.Prelude.Text.{Text}
use charles_mcp.Json.{Value, Items, get_field, obj, arr}
use charles_mcp.JsonPatch.Python.{
  Python, bad_pointer, not_an_object, unsupported_op, missing_path, missing_value, Fault,
  patch_error, Result,
}
use charles_mcp.Prelude.Outcome.{ok, raise, or_raise, chain-parts}
use charles_mcp.JsonPatch.Raises.{Raises, Raises-ok, Raises-raise, Raises-bind, raises_rules}
use charles_mcp.JsonPatch.Pointer.{parse_pointer}
use charles_mcp.JsonPatch.Lookup.{existing_index, selected_index}
use charles_mcp.JsonPatch.Edit.{
  set_tokens, remove_tokens, set_at, remove_at, is_set, is_remove, key_op, key_path, key_value,
  text_of, validate_patch, validate_from, validate_patches, apply_patch, apply_from, apply_patches,
  descend, set_last, remove_last,
}

-- The faults that depend on the document: not the ones that validation looks for.
abbrev pub is_target : Fault → Bool
is_target (patch_error bad_pointer) = false
is_target (patch_error (not_an_object i)) = false
is_target (patch_error (unsupported_op i)) = false
is_target (patch_error (missing_path i)) = false
is_target (patch_error (missing_value i)) = false
is_target _ = true

module _ (py : Python) where
  selected_index-is_target :
      (xs : Items) (token : Text) (e : Fault)
      → selected_index py xs token ≡ raise e
      → is_target e ≡ true
  unfolding selected_index
  selected_index-is_target xs token e h = ground arith

  existing_index-is_target :
      (xs : Items) (token : Text) (e : Fault)
      → existing_index py xs token ≡ raise e
      → is_target e ≡ true
  unfolding existing_index
  existing_index-is_target xs token e h = ground (arith, selected_index-is_target xs token e)

  existing_index-Raises :
      (xs : Items) (token : Text) → Raises is_target (existing_index py xs token)
  existing_index-Raises xs token = record { at = existing_index-is_target xs token }

  descend-Raises :
      (edit : Value → Result Value) (doc : Value) (token : Text)
      → ((child : Value) → Raises is_target (edit child))
      → Raises is_target (descend py edit doc token)
  unfolding descend
  descend-Raises edit (obj fs) token ih = search (raises_rules, ih)
  descend-Raises edit (arr xs) token ih = search (raises_rules, ih, existing_index-Raises)
  descend-Raises edit _ token ih = Raises-raise _ refl

  set_last-Raises :
      (token : Text) (value doc : Value) → Raises is_target (set_last py token value doc)
  unfolding set_last
  set_last-Raises token value (obj fs) = Raises-ok _
  set_last-Raises token value (arr xs) = search (raises_rules, existing_index-Raises)
  set_last-Raises token value _ = Raises-raise _ refl

  remove_last-Raises : (token : Text) (doc : Value) → Raises is_target (remove_last py token doc)
  unfolding remove_last
  remove_last-Raises token (obj fs) = record { at = λ e h. ground arith }
  remove_last-Raises token (arr xs) = search (raises_rules, existing_index-Raises)
  remove_last-Raises token _ = Raises-raise _ refl

  set_tokens-Raises :
      (token : Text) (tokens : List Text) (value doc : Value)
      → Raises is_target (set_tokens py token tokens value doc)
  unfolding set_tokens
  set_tokens-Raises token [] value doc = set_last-Raises token value doc
  set_tokens-Raises token (next ∷ tokens) value doc =
      descend-Raises (set_tokens py next tokens value) doc token
        (set_tokens-Raises next tokens value)

  remove_tokens-Raises :
      (token : Text) (tokens : List Text) (doc : Value)
      → Raises is_target (remove_tokens py token tokens doc)
  unfolding remove_tokens
  remove_tokens-Raises token [] doc = remove_last-Raises token doc
  remove_tokens-Raises token (next ∷ tokens) doc =
      descend-Raises (remove_tokens py next tokens) doc token (remove_tokens-Raises next tokens)

  set_at-Raises :
      (tokens : List Text) (value doc : Value) → Raises is_target (set_at py tokens value doc)
  set_at-Raises [] value doc = Raises-ok value
  set_at-Raises (token ∷ tokens) value doc = set_tokens-Raises token tokens value doc

  remove_at-Raises :
      (index : ℕ) (tokens : List Text) (doc : Value)
      → Raises is_target (remove_at py index tokens doc)
  remove_at-Raises index [] doc = Raises-raise _ refl
  remove_at-Raises index (token ∷ tokens) doc = remove_tokens-Raises token tokens doc

  apply_patch-Raises :
      (index : ℕ) (patch doc : Value)
      → validate_patch py index patch ≡ ok tt
      → Raises is_target (apply_patch py index patch doc)
  unfolding validate_patch apply_patch
  apply_patch-Raises index (obj patch) doc valid =
      let op = get_field key_op patch in
      elim (Bool-cases (is_set op || is_remove op)) [
        | inr unsupported ↦ absurd (cc (rw unsupported at valid))
        | inl supported ↦
            let (path, has_path, rest) =
              chain-parts (or_raise (patch_error (missing_path index)) (get_field key_path patch)) _
                (rw supported at valid) in
            let (tokens, parsed, rest') = chain-parts (parse_pointer (text_of py path)) _ rest in
            rw (supported, has_path, parsed)
              (elim (Bool-cases (is_set op)) [
                | inl sets ↦
                    let (value, has_value, done) =
                      chain-parts
                        (or_raise (patch_error (missing_value index)) (get_field key_value patch)) _
                        (rw sets at rest') in
                    rw (sets, has_value) (set_at-Raises tokens value doc)
                | inr removes ↦ rw removes (remove_at-Raises index tokens doc)
              ])
      ]
  apply_patch-Raises index _ doc valid = cc

  apply_from-Raises :
      (index : ℕ) (patches : List Value) (doc : Value)
      → validate_from py index patches ≡ ok tt
      → Raises is_target (apply_from py index patches doc)
  unfolding apply_from validate_from
  apply_from-Raises index [] doc valid = Raises-ok doc
  apply_from-Raises index (patch ∷ patches) doc valid =
      let (u, first, rest) = chain-parts (validate_patch py index patch) _ valid in
      Raises-bind (apply_patch py index patch doc) _ (apply_patch-Raises index patch doc first)
        (λ next _. apply_from-Raises (suc index) patches next rest)

  -- Once a list of patches has passed validation, applying it to any document fails only because
  -- of what the document holds at the pointers.
  pub apply_patches-validated :
      (patches : List Value) (doc : Value) (e : Fault)
      → validate_patches py patches ≡ ok tt
      → apply_patches py doc patches ≡ raise e
      → is_target e ≡ true
  unfolding apply_patches validate_patches
  apply_patches-validated patches doc e valid h = (apply_from-Raises zero patches doc valid).at e h
