-- ===== src/Traffic/Body/Values.antt =====
-- What charles_mcp/analyzers/body.py reads from a message and assigns to its result.
use charles_mcp.Prelude.{ℕ, Bool, Option, none, some, List, [], ◌∷◌, ◌++◌, ◌==◌, if◌then◌else◌}
use charles_mcp.Prelude.Text.{Text, text_eq, codes}
use charles_mcp.Prelude.Int.{ℤ, pos}
use charles_mcp.Prelude.Strings.{strip, join}
use charles_mcp.Prelude.Dict.{Dict, lookup}
use charles_mcp.Json.{Value, Fields, null, bool, int, str, obj, get_field}
use charles_mcp.LiveState.Entries.{Platform}
use charles_mcp.Traffic.Raw.{show}
use charles_mcp.Traffic.Schema.{BodyContent, binary}
use charles_mcp.Traffic.Headers.{HeaderMap}
use charles_mcp.Traffic.Body.Scan.{clip_text}

-- `base64.b64decode`, `gzip.decompress`, `str.encode("latin1")`, `bytes.decode(encoding,
-- errors="replace")`, `json.loads`, `json.dumps` with its compact separators, and `parse_qs`.
-- `none` is an exception.
pub record Codecs : Type 0 where
  pub b64decode : Text → Option (List ℕ)
  pub gunzip : List ℕ → Option (List ℕ)
  pub latin1 : Text → Option (List ℕ)
  pub decode : Text → List ℕ → Option Text
  pub decode_utf8 : List ℕ → Text
  pub loads : Text → Option Value
  pub dumps : Value → Text
  pub parse_qs : Text → Dict Text (List Text)

-- The arguments of `normalize_body` by name.
pub record Limits : Type 0 where
  pub include_full_body : Bool
  pub max_preview_chars : ℕ
  pub max_full_body_chars : ℕ

-- `_header_value`, of a name in lower case.
unfoldable pub header_value : HeaderMap → Text → Option Text
unfolding lookup
header_value header_map name = elim (lookup name header_map) [
  | none ↦ none
  | some values ↦ elim values [
    | [] ↦ none
    | value ∷ others ↦ if value == [] then none else some value
  ]
]

-- `_first_non_empty` of texts that may be missing.
unfoldable pub first_non_empty : List (Option Text) → Option Text
unfolding strip
first_non_empty [] = none
first_non_empty (none ∷ values) = first_non_empty values
first_non_empty (some value ∷ values) =
    let rest = first_non_empty values in
    let stripped = strip value in if stripped == [] then rest else some stripped

abbrev as_size : Option Value → Option ℤ
as_size (some (int n)) = some n
as_size (some (bool b)) = some (if b then pos 1 else pos 0)
as_size _ = none

-- `_read_size`
unfoldable pub read_size : Fields → Option ℤ
unfolding get_field
read_size message = elim (get_field (codes "sizes") message) [
  | none ↦ none
  | some v ↦ elim v [ obj sizes ↦ as_size (get_field (codes "body") sizes) | _ ↦ none ]
]

-- `raw_text in (None, "")`, as the text there is otherwise.
abbrev pub body_text : Platform → Option Value → Option Text
body_text pf none = none
body_text pf (some null) = none
body_text pf (some (str [])) = none
body_text pf (some v) = some (show pf v)

abbrev pub shown : Platform → Option Value → Option Text
shown pf none = none
shown pf (some null) = none
shown pf (some v) = some (show pf v)

unfoldable pub preview : Limits → Text → BodyContent → BodyContent
unfolding clip_text
preview limits rendered result =
    let (clipped, truncated) = clip_text rendered limits.max_preview_chars in
    record result { preview_text = some clipped; preview_truncated = truncated }

-- The assignments of `full_text` under `if include_full_body`.
unfoldable pub full : Limits → Text → BodyContent → BodyContent
unfolding clip_text
full limits rendered result =
    let (clipped, truncated) = clip_text rendered limits.max_full_body_chars in
    if limits.include_full_body
    then record result { full_text = some clipped; full_text_truncated = truncated }
    else result

unfoldable pub source : Limits → Text → BodyContent → BodyContent
unfolding clip_text
source limits original result =
    let (clipped, truncated) = clip_text original limits.max_full_body_chars in
    if limits.include_full_body
    then record result { source_text = if truncated then none else some clipped }
    else result

unfoldable pub warn : List Text → BodyContent → BodyContent
warn warnings result = record result { decode_warnings = result.decode_warnings ++ warnings }

abbrev pub or_else : Text → Option Text → Text
or_else original none = original
or_else original (some decompressed) = decompressed

unfoldable pub omitted : BodyContent → BodyContent
omitted result = record result {
  kind = binary;
  preview_text = some (codes "[binary body omitted]");
}

-- `f"{key}={','.join(values)}"` of each item.
abbrev pub form_items : List (Text × List Text) → List Text
form_items [] = []
form_items ((key, values) ∷ items) = (key ++ b'=' ∷ join b',' values) ∷ form_items items
