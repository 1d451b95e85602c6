-- ===== src/Traffic/Headers.antt =====
-- charles_mcp/analyzers/headers.py.
pub mod Grouped
use charles_mcp.Prelude.{
  ℕ, Bool, true, false, Option, none, some, List, [], ◌∷◌, ◌++◌, length, leb, contains, nat_eq,
  if◌then◌else◌,
}
use charles_mcp.Prelude.Text.{Text, text_eq, codes}
use charles_mcp.Prelude.Strings.{CaseTables, strip}
use charles_mcp.Prelude.Dict.{Dict, lookup, insert, keys}
use charles_mcp.Prelude.Order.{compare_text}
use charles_mcp.Prelude.Sort.{sort}
use charles_mcp.Prelude.Outcome.{ok, raise, ◌>>=◌}
use charles_mcp.Json.{Value, Fields, null, str, arr, obj, get_field}
use charles_mcp.LiveState.Entries.{Platform, truthy}
use charles_mcp.Traffic.Raw.{Result, type_error, show, items_of}
use charles_mcp.Traffic.Schema.{HeaderKv, or_empty}

abbrev highlight_order : List Text
highlight_order =
    codes "content-type"
    ∷ codes "accept"
    ∷ codes "authorization"
    ∷ codes "cookie"
    ∷ codes "set-cookie"
    ∷ codes "x-requested-with"
    ∷ codes "sec-fetch-mode"
    ∷ codes "sec-fetch-dest"
    ∷ codes "origin"
    ∷ codes "referer"
    ∷ []

abbrev pub HeaderMap : Type 0
HeaderMap = Dict Text (List Text)

abbrev pub values_or_none : Option (List Text) → List Text
values_or_none none = []
values_or_none (some values) = values

-- `header_map.setdefault(name, []).append(value)`
abbrev pub add_value : Text → Text → HeaderMap → HeaderMap
add_value name value header_map =
    insert name (values_or_none (lookup name header_map) ++ value ∷ []) header_map

module _ (pf : Platform) (ct : CaseTables) where
  -- `str(raw.get("name", "")).strip()`
  abbrev header_name : Fields → Text
  header_name raw = elim (get_field (codes "name") raw) [ none ↦ [] | some v ↦ strip (show pf v) ]

  -- `None if value is None else str(value)`
  abbrev header_value : Fields → Option Text
  header_value raw = elim (get_field (codes "value") raw) [
    | none ↦ none
    | some v ↦ elim v [ null ↦ none | w ↦ some (show pf w) ]
  ]

  -- The header of one raw entry, `none` where the loop goes on to the next.
  unfoldable pub header_of : Value → Option HeaderKv
  unfolding get_field strip
  header_of (obj raw) = elim (header_name raw) [
    | [] ↦ none
    | c ∷ cs ↦
        some (record { name = c ∷ cs; value = header_value raw; lower_name = ct.lower (c ∷ cs) })
  ]
  header_of _ = none

  -- The loop of `normalize_headers`.
  unfoldable pub collect_headers :
      List HeaderKv → HeaderMap → List Value → List HeaderKv × HeaderMap
  unfolding header_of
  collect_headers headers header_map [] = (headers, header_map)
  collect_headers headers header_map (raw ∷ rest) = elim (header_of raw) [
    | none ↦ collect_headers headers header_map rest
    | some header ↦
        collect_headers (headers ++ header ∷ [])
          (add_value header.lower_name (or_empty header.value) header_map) rest
  ]

  -- `raw_headers or []`: a dict or a text that is iterated has no dicts in it.
  abbrev pub raw_items : Option Value → Result (List Value)
  raw_items none = ok []
  raw_items (some (arr xs)) = ok (items_of xs)
  raw_items (some (obj fs)) = ok []
  raw_items (some (str s)) = ok []
  raw_items (some v) = if truthy pf v then raise type_error else ok []

  unfoldable pub normalize_headers : Option Value → Result (List HeaderKv × HeaderMap)
  unfolding collect_headers truthy
  normalize_headers raw_headers = do items ← raw_items raw_headers; ok (collect_headers [] [] items)

-- `values[0]` of a header that has one, under its name.
abbrev highlight : HeaderMap → Text → Dict Text Text → Dict Text Text
highlight header_map key highlights = elim (lookup key header_map) [
  | none ↦ highlights
  | some values ↦ elim values [ [] ↦ highlights | value ∷ others ↦ insert key value highlights ]
]

-- The first loop of `build_header_highlights`, and whether it returned.
unfoldable pub highlight_known : HeaderMap → ℕ → List Text → Dict Text Text → Bool × Dict Text Text
unfolding lookup insert
highlight_known header_map max_items [] highlights = (false, highlights)
highlight_known header_map max_items (key ∷ order) highlights =
    let next = highlight header_map key highlights in
    let rest = highlight_known header_map max_items order next in
    if leb max_items (length next) then (true, next) else rest

-- The second loop, which breaks.
unfoldable pub highlight_others : HeaderMap → ℕ → List Text → Dict Text Text → Dict Text Text
unfolding lookup insert
highlight_others header_map max_items [] highlights = highlights
highlight_others header_map max_items (key ∷ order) highlights =
    let next = highlight header_map key highlights in
    let rest = highlight_others header_map max_items order next in
    let skipped = highlight_others header_map max_items order highlights in
    if contains (keys highlights) key
    then skipped
    else if leb max_items (length next)
    then next
    else rest

unfoldable pub build_header_highlights : HeaderMap → ℕ → Dict Text Text
unfolding highlight_known highlight_others sort
build_header_highlights header_map max_items =
    let (returned, highlights) = highlight_known header_map max_items highlight_order [] in
    if returned
    then highlights
    else highlight_others header_map max_items (sort compare_text (keys header_map)) highlights
