-- ===== src/Traffic/Body/Multipart.antt =====
-- `_summarize_multipart` of charles_mcp/analyzers/body.py.
use charles_mcp.Prelude.{
  ℕ, zero, suc, ◌+◌, ◌-◌, Bool, ◌&&◌, ◌||◌, Option, none, some, List, [], ◌∷◌, ◌++◌, length, drop,
  leb, ltb, ◌==◌, nat_eq, if◌then◌else◌,
}
use charles_mcp.Prelude.Text.{Text, text_eq, codes}
use charles_mcp.Prelude.Strings.{CaseTables, lstrip, rstrip, starts_with, ends_with, drop_end}
use charles_mcp.Prelude.Dict.{lookup}
use charles_mcp.Traffic.Schema.{PartSummary, or_empty}
use charles_mcp.Traffic.Body.Scan.{
  clip_text, extract_boundary, extract_disposition_value, parse_part_headers,
}

abbrev prepend : ℕ → List Text → List Text
prepend c [] = (c ∷ []) ∷ []
prepend c (piece ∷ pieces) = (c ∷ piece) ∷ pieces

-- `text.split(sep)` by a text: `skip` characters of a separator are still to pass.
unfoldable pub split_on : Text → ℕ → Text → List Text
unfolding starts_with
split_on sep skip [] = [] ∷ []
split_on sep (suc skip) (c ∷ cs) = split_on sep skip cs
split_on sep zero (c ∷ cs) =
    let found = split_on sep (length sep - 1) cs in
    let rest = split_on sep zero cs in
    if starts_with sep (c ∷ cs) then [] ∷ found else prepend c rest

abbrev put_front : ℕ → Option (Text × Text) → Option (Text × Text)
put_front c none = none
put_front c (some (head, tail)) = some (c ∷ head, tail)

-- `text.partition(sep)`, `none` where there is no separator.
unfoldable pub partition : Text → Text → Option (Text × Text)
unfolding starts_with
partition sep [] = none
partition sep (c ∷ cs) =
    let rest = put_front c (partition sep cs) in
    if starts_with sep (c ∷ cs) then some ([], drop (length sep) (c ∷ cs)) else rest

abbrev is_break : ℕ → Bool
is_break c = c == 13 || c == 10

-- `len(text.encode("utf-8", errors="ignore"))`: surrogates are left out.
unfoldable pub utf8_size : Text → ℕ
utf8_size [] = 0
utf8_size (c ∷ cs) =
    let rest = utf8_size cs in
    if ltb c 0x80
    then 1 + rest
    else if ltb c 0x800
    then 2 + rest
    else if leb 0xd800 c && leb c 0xdfff
    then rest
    else if ltb c 0x10000
    then 3 + rest
    else 4 + rest

-- `preview if preview else None`
abbrev none_if_empty : Text → Option Text
none_if_empty [] = none
none_if_empty (c ∷ cs) = some (c ∷ cs)

-- The header and the body of a part, at the first blank line.
unfoldable part_halves : Text → Option (Text × Text)
unfolding partition
part_halves candidate = elim (partition (13 ∷ 10 ∷ 13 ∷ 10 ∷ []) candidate) [
  | some halves ↦ some halves
  | none ↦ partition (10 ∷ 10 ∷ []) candidate
]

unfoldable trimmed : Text → Text
unfolding lstrip rstrip ends_with
trimmed part =
    let candidate = rstrip is_break (lstrip is_break part) in
    if ends_with (codes "--") candidate then rstrip is_break (drop_end 2 candidate) else candidate

module _ (ct : CaseTables) where
  unfoldable part_summary : Text → Text → PartSummary
  unfolding parse_part_headers extract_disposition_value clip_text rstrip lookup utf8_size
  part_summary header_blob body_blob =
      let headers = parse_part_headers ct header_blob in
      let disposition = or_empty (lookup (codes "content-disposition") headers) in
      let body_text = rstrip is_break body_blob in
      let (preview, truncated) = clip_text body_text 80 in
      record {
        name = extract_disposition_value disposition (codes "name");
        filename = extract_disposition_value disposition (codes "filename");
        content_type = lookup (codes "content-type") headers;
        size_bytes = utf8_size body_text;
        preview_text = none_if_empty preview;
        preview_truncated = truncated;
      }

  -- The round of the loop for one part: its summary, or a warning, or nothing.
  unfoldable read_part : Text → List PartSummary × List Text
  unfolding trimmed part_halves part_summary lstrip rstrip
  read_part part =
      let stripped = rstrip is_break (lstrip is_break part) in
      if stripped == [] || stripped == codes "--"
      then ([], [])
      else elim (part_halves (trimmed part)) [
        | none ↦ ([], codes "multipart_part_separator_missing" ∷ [])
        | some (header_blob, body_blob) ↦ (part_summary header_blob body_blob ∷ [], [])
      ]

  -- The loop over the parts.
  unfoldable read_parts : List Text → List PartSummary × List Text
  unfolding read_part
  read_parts [] = ([], [])
  read_parts (part ∷ parts) =
      let (summary, warnings) = read_part part in
      let (others, more) = read_parts parts in (summary ++ others, warnings ++ more)

  abbrev unless_read : List PartSummary × List Text → List PartSummary × List Text
  unless_read ([], warnings) = ([], warnings ++ codes "multipart_body_not_parsed" ∷ [])
  unless_read (part ∷ parts, warnings) = (part ∷ parts, warnings)

  abbrev summarize_at : Text → Option Text → List PartSummary × List Text
  summarize_at text none = ([], codes "multipart_boundary_missing" ∷ [])
  summarize_at text (some []) = ([], codes "multipart_boundary_missing" ∷ [])
  summarize_at text (some boundary) =
      unless_read (read_parts (split_on (codes "--" ++ boundary) zero text))

  -- `_summarize_multipart`
  unfoldable pub summarize_multipart : Text → Option Text → List PartSummary × List Text
  unfolding read_parts split_on extract_boundary
  summarize_multipart text mime_type = summarize_at text (extract_boundary mime_type)
