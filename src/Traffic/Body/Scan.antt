-- ===== src/Traffic/Body/Scan.antt =====
-- The helpers of charles_mcp/analyzers/body.py that read a text: `_clip_text`, `_looks_like_json`,
-- `_looks_like_text`, `_is_textual`, `_extract_boundary`, `_parse_part_headers` and
-- `_extract_disposition_value`. The regular expressions are written out as searches.
use charles_mcp.Prelude.{
  ℕ, suc, ◌+◌, ◌/◌, max, Bool, true, false, not, ◌&&◌, ◌||◌, Option, none, some, List, [], ◌∷◌,
  ◌++◌, any, length, take, drop, leb, ltb, contains, ◌==◌, nat_eq, if◌then◌else◌,
}
use charles_mcp.Prelude.Text.{Text, text_eq, codes}
use charles_mcp.Prelude.Strings.{CaseTables, strip, starts_with, occurs, before, after}
use charles_mcp.Prelude.Dict.{Dict, insert}
use charles_mcp.JsonPatch.Style.{split_lines}
use charles_mcp.Traffic.Schema.{or_empty}

-- `_clip_text`
unfoldable pub clip_text : Text → ℕ → Text × Bool
clip_text text max_chars =
    if leb (length text) max_chars then (text, false) else (take max_chars text, true)

-- `_looks_like_json`
unfoldable pub looks_like_json : Text → Bool
unfolding strip starts_with
looks_like_json text =
    let stripped = strip text in
    starts_with (codes "{") stripped || starts_with (codes "[") stripped

abbrev is_unprintable : ℕ → Bool
is_unprintable c = ltb c 32 && not (c == 13 || c == 10 || c == 9)

unfoldable count_unprintable : Text → ℕ
count_unprintable [] = 0
count_unprintable (c ∷ cs) =
    let rest = count_unprintable cs in if is_unprintable c then suc rest else rest

-- `_looks_like_text`
unfoldable pub looks_like_text : Text → Bool
unfolding count_unprintable
looks_like_text [] = false
looks_like_text (c ∷ cs) =
    let sample = take 128 (c ∷ cs) in ltb (count_unprintable sample) (max (length sample / 10) 1)

abbrev textual_mime_hints : List Text
textual_mime_hints =
    codes "json"
    ∷ codes "xml"
    ∷ codes "javascript"
    ∷ codes "text/"
    ∷ codes "application/graphql"
    ∷ codes "application/x-www-form-urlencoded"
    ∷ codes "multipart/form-data"
    ∷ []

-- One character under `re.IGNORECASE`, of a pattern in lower case without `k` and `s`.
abbrev same_letter : ℕ → ℕ → Bool
same_letter p c =
    p == c || (leb 97 p && leb p 122 && c + 32 == p) || (p == b'i' && (c == 0x130 || c == 0x131))

unfoldable starts_with_letters : Text → Text → Bool
starts_with_letters [] text = true
starts_with_letters (p ∷ ps) [] = false
starts_with_letters (p ∷ ps) (c ∷ cs) = same_letter p c && starts_with_letters ps cs

-- `([^"]+)"`
unfoldable quoted : Text → Option Text
unfolding before
quoted text = elim (before b'"' text) [
  | [] ↦ none
  | c ∷ cs ↦ if contains text b'"' then some (c ∷ cs) else none
]

-- `([^;]+)`
unfoldable unquoted : Text → Option Text
unfolding before
unquoted text = elim (before b';' text) [ [] ↦ none | c ∷ cs ↦ some (c ∷ cs) ]

-- `(?:"([^"]+)"|([^;]+))` after `boundary=`.
unfoldable boundary_value : Text → Option Text
unfolding quoted unquoted
boundary_value [] = none
boundary_value (c ∷ cs) =
    if c == b'"'
    then elim (quoted cs) [ none ↦ unquoted (c ∷ cs) | some value ↦ some value ]
    else unquoted (c ∷ cs)

-- `re.search` of a fixed text and what `value` reads after it: the leftmost place where both match.
unfoldable search : Text → (Text → Option Text) → Text → Option Text
search prefix value [] = none
search prefix value (c ∷ cs) =
    let here = value (drop (length prefix) (c ∷ cs)) in
    let later = search prefix value cs in
    if starts_with_letters prefix (c ∷ cs)
    then elim here [ none ↦ later | some v ↦ some v ]
    else later

abbrev strip_found : Option Text → Option Text
strip_found none = none
strip_found (some v) = some (strip v)

-- `_extract_boundary`
unfoldable pub extract_boundary : Option Text → Option Text
unfolding search boundary_value strip starts_with_letters
extract_boundary none = none
extract_boundary (some mime_type) =
    strip_found (search (codes "boundary=") boundary_value mime_type)

-- `_extract_disposition_value`
unfoldable pub extract_disposition_value : Text → Text → Option Text
unfolding search quoted starts_with_letters
extract_disposition_value disposition key = search (key ++ codes "=\"") quoted disposition

module _ (ct : CaseTables) where
  -- `_is_textual`
  unfoldable pub is_textual : Option Text → Bool
  unfolding occurs
  is_textual mime_type =
      let lower_mime = ct.lower (or_empty mime_type) in
      any (λ hint. occurs hint lower_mime) textual_mime_hints

  unfoldable add_headers : Dict Text Text → List Text → Dict Text Text
  unfolding strip before after insert
  add_headers headers [] = headers
  add_headers headers (line ∷ lines) =
      let next =
        if contains line b':'
        then insert (ct.lower (strip (before b':' line))) (strip (after b':' line)) headers
        else headers in
      add_headers next lines

  -- `_parse_part_headers`
  unfoldable pub parse_part_headers : Text → Dict Text Text
  unfolding add_headers split_lines
  parse_part_headers header_blob = add_headers [] (split_lines header_blob)
