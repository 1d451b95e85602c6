-- ===== src/Tests/Patches.antt =====
-- charles_mcp/mocks/json_patch.py on small documents.
use charles_mcp.Prelude.{
  ℕ, zero, ◌==◌, ◌≡◌, refl, ◌≢◌, true, false, ◌||◌, Option, none, some, List, [], ◌∷◌, all, nat_beq,
  if◌then◌else◌,
}
use charles_mcp.Prelude.Text.{Text, codes, text_eq}
use charles_mcp.Prelude.Number.{AllDigits, is_ascii_digit, digits_value}
use charles_mcp.Prelude.Int.{pos}
use charles_mcp.Json.{
  Value, bool, int, str, arr, obj, cons, nil, field, end, get_field, set_field, get_item, set_item,
  size,
}
use charles_mcp.JsonPatch.Python.{Python, IsPython, patch_error, does_not_exist}
use charles_mcp.Prelude.Outcome.{ok}
use charles_mcp.JsonPatch.Pointer.{parse_pointer, pointers_may_alias, is_selector, addresses_array}
use charles_mcp.JsonPatch.Pointer.Roundtrip.{parse_pointer-render}
use charles_mcp.JsonPatch.Pointer.Alias.{pointers_may_alias-missed}
use charles_mcp.JsonPatch.Lookup.{get_tokens, existing_index}
use charles_mcp.JsonPatch.Edit.{set_tokens, apply_patches, validate_patches}
use charles_mcp.JsonPatch.SetGet.{get_tokens-set_tokens}
use charles_mcp.JsonPatch.Frame.{set_tokens-frame}
use charles_mcp.JsonPatch.Checks.{is_target, apply_patches-validated}

-- `int` of a run of ASCII digits.
abbrev ascii_int_of : Text → Option ℕ
ascii_int_of [] = none
ascii_int_of (c ∷ cs) =
    if all is_ascii_digit (c ∷ cs) then some (digits_value zero (c ∷ cs)) else none

-- A Python whose only other digit character is the superscript two.
abbrev small_python : Python
small_python = record {
  is_digit = λ c. is_ascii_digit c || nat_beq c 178;
  int_of = ascii_int_of;
  loads = λ t. if t == codes "true" then some (bool true) else none;
  dumps = λ v. codes "null";
  str_of = λ v. codes "None";
  equal = λ v w. false;
}

all_digits : (t : Text) → AllDigits t → all is_ascii_digit t ≡ true
all_digits [] h = refl
all_digits (c ∷ cs) (d, h) = rw d (all_digits cs h)

small_int : (t : Text) → t ≢ [] → AllDigits t → ascii_int_of t ≡ some (digits_value zero t)
small_int [] some_digit h = absurd (some_digit refl)
small_int (c ∷ cs) some_digit h = rw (all_digits (c ∷ cs) h)

small_python-IsPython : IsPython small_python
small_python-IsPython = record { ascii_digit = λ c h. rw h; ascii_int = small_int }

abbrev wallet : Value
wallet = obj (
    field (codes "list")
      (arr (cons (obj (field (codes "id") (int (pos 1)) end)) (cons (str (codes "x")) nil)))
      (field (codes "name") (str (codes "n")) end))

abbrev wallet_edited : Value
wallet_edited = obj (
    field (codes "list")
      (arr (cons (obj (field (codes "id") (bool true) end)) (cons (str (codes "x")) nil)))
      (field (codes "name") (str (codes "n")) end))

abbrev rest_path : List Text
rest_path = codes "0" ∷ codes "id" ∷ []

edited : set_tokens small_python (codes "list") rest_path (bool true) wallet ≡ ok wallet_edited
unfolding set_tokens existing_index get_field set_field get_item set_item size text_eq digits_value
    is_selector
edited = refl

get_tokens-set_tokens_example :
    get_tokens small_python wallet_edited (codes "list" ∷ codes "0" ∷ codes "id" ∷ [])
    ≡ ok (bool true)
unfolding is_selector text_eq
get_tokens-set_tokens_example =
    get_tokens-set_tokens small_python small_python-IsPython (codes "list") rest_path (bool true)
      wallet wallet_edited (refl, refl) ((refl, refl), ((refl, refl), tt)) edited

set_tokens-frame_example :
    get_tokens small_python wallet_edited (codes "list" ∷ codes "1" ∷ codes "tag" ∷ [])
    ≡ get_tokens small_python wallet (codes "list" ∷ codes "1" ∷ codes "tag" ∷ [])
unfolding parse_pointer pointers_may_alias text_eq is_selector addresses_array
set_tokens-frame_example =
    set_tokens-frame small_python small_python-IsPython (codes "/list/0/id") (codes "/list/1/tag")
      (codes "list") rest_path (codes "list" ∷ codes "1" ∷ codes "tag" ∷ []) (bool true) wallet
      wallet_edited refl refl refl (λ p. cc) refl (refl, (refl, (refl, tt))) edited

-- One patch on the wallet, and one that names a missing section.
abbrev set_patch : Text → Value → Value
set_patch path value = obj (
    field (codes "op") (str (codes "set"))
      (field (codes "path") (str path) (field (codes "value") value end)))

abbrev bad_patches : List Value
bad_patches = set_patch (codes "/lists/0/id") (bool true) ∷ []

apply_patches-validated_example : is_target (patch_error does_not_exist) ≡ true
unfolding apply_patches validate_patches edited parse_pointer
apply_patches-validated_example =
    apply_patches-validated small_python bad_patches wallet (patch_error does_not_exist) refl refl

parse_pointer-render_example : parse_pointer (codes "/a~1b/~0") ≡ ok (codes "a/b" ∷ codes "~" ∷ [])
parse_pointer-render_example = parse_pointer-render (codes "a/b" ∷ codes "~" ∷ [])

-- Both pointers address the key `~`.
pointers_may_alias-missed_example :
    pointers_may_alias small_python (codes "/~") (codes "/~0") ≡ ok false
unfolding parse_pointer
pointers_may_alias-missed_example =
    pointers_may_alias-missed small_python (codes "/~") (codes "/~0") (codes "~" ∷ []) (λ p. cc)
      refl refl
