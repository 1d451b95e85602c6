-- ===== src/Traffic/Body.antt =====
-- charles_mcp/analyzers/body.py. The decoders of base64, gzip, character sets, JSON and forms are
-- Python's own.
pub mod Values
pub mod Scan
pub mod Multipart
pub mod Limited
pub mod Bounds
use charles_mcp.Prelude.{
  ℕ, ◌≤◌, Bool, true, false, not, ◌&&◌, ◌||◌, Option, none, some, List, [], ◌∷◌, ◌++◌, length, leb,
  contains, ◌==◌, if◌then◌else◌,
}
use charles_mcp.Prelude.Text.{Text, text_eq, codes}
use charles_mcp.Prelude.Number.{str_nat}
use charles_mcp.Prelude.Int.{ℤ, pos}
use charles_mcp.Prelude.Strings.{CaseTables, strip, occurs, starts_with, join}
use charles_mcp.Prelude.Dict.{Dict, lookup}
use charles_mcp.Prelude.Order.{compare_text}
use charles_mcp.Prelude.Sort.{sort}
use charles_mcp.Prelude.Outcome.{ok, ◌>>=◌}
use charles_mcp.Json.{Value, Fields, null, bool, int, str, obj, get_field}
use charles_mcp.LiveState.Entries.{Platform, truthy}
use charles_mcp.Traffic.Raw.{Result, Pydantic, part, show}
use charles_mcp.Traffic.Schema.{
  BodyKind, PartSummary, BodyContent, empty_body, or_empty, given, none_kind, json, form, multipart,
  text_kind, binary, base64,
}
use charles_mcp.Traffic.Headers.{HeaderMap}
use charles_mcp.Traffic.Body.Scan.{clip_text, looks_like_json, looks_like_text, is_textual}
use charles_mcp.Traffic.Body.Multipart.{summarize_multipart}
use charles_mcp.Traffic.Body.Values.{
  Codecs, Limits, body_text, first_non_empty, form_items, full, header_value, omitted, or_else,
  preview, read_size, shown, source, warn,
}

module _ (pf : Platform) (ct : CaseTables) (py : Codecs) (pyd : Pydantic) where
  -- `content_encoding and content_encoding.lower() == "gzip"`
  abbrev is_gzip : Option Text → Bool
  is_gzip content_encoding =
      given content_encoding && ct.lower (or_empty content_encoding) == codes "gzip"

  abbrev keep_whole : ℕ → Option (List ℕ) → Option (List ℕ)
  keep_whole max_bytes none = none
  keep_whole max_bytes (some payload) =
      if leb (length payload) max_bytes then some payload else none

  -- `_decoded_payload`
  unfoldable pub decoded_payload : Text → Option Text → ℕ → Option (List ℕ)
  decoded_payload content content_encoding max_bytes = elim (py.b64decode content) [
    | none ↦ none
    | some payload ↦
        keep_whole max_bytes (if is_gzip content_encoding then py.gunzip payload else some payload)
  ]

  -- `payload.decode(charset or "utf-8", errors="replace")`, with its fallback.
  abbrev decode_or_utf8 : Option Text → List ℕ → Text × List Text
  decode_or_utf8 charset payload =
      elim (py.decode (if given charset then or_empty charset else codes "utf-8") payload) [
        | some decoded ↦ (decoded, [])
        | none ↦ (py.decode_utf8 payload, codes "body_decode_fallback_utf8" ∷ [])
      ]

  abbrev gunzip_or_warn : Bool → List ℕ → List ℕ × List Text
  gunzip_or_warn false payload = (payload, [])
  gunzip_or_warn true payload = elim (py.gunzip payload) [
    | some plain ↦ (plain, [])
    | none ↦ (payload, codes "gzip_decompress_failed" ∷ [])
  ]

  -- `_decode_encoded_body`
  unfoldable pub decode_encoded_body :
      Text → Option Text → Option Text → Option Text → Option Text × List Text
  unfolding is_textual
  decode_encoded_body content mime_type charset content_encoding = elim (py.b64decode content) [
    | none ↦ (none, codes "base64_decode_failed" ∷ [])
    | some payload ↦
        let (plain, warnings) = gunzip_or_warn (is_gzip content_encoding) payload in
        let (decoded, more) = decode_or_utf8 charset plain in
        if is_textual ct mime_type then (some decoded, warnings ++ more) else (none, warnings)
  ]

  abbrev gunzip_latin1 : Option (List ℕ) → Option (List ℕ)
  gunzip_latin1 none = none
  gunzip_latin1 (some bytes) = py.gunzip bytes

  -- `_decode_gzip_text`
  unfoldable pub decode_gzip_text : Text → Option Text → Option Text × List Text
  decode_gzip_text content charset = elim (gunzip_latin1 (py.latin1 content)) [
    | none ↦ (none, codes "gzip_text_decode_failed" ∷ [])
    | some payload ↦
        let (decoded, warnings) = decode_or_utf8 charset payload in (some decoded, warnings)
  ]

  -- `"&".join(...)` of the items of a form in the order of their keys.
  unfoldable pub rendered_form : Dict Text (List Text) → Text
  unfolding sort join
  rendered_form parsed = join b'&' (form_items (sort (λ a b. compare_text a.0 b.0) parsed))

  -- The branches of `normalize_body` for forms, parts and text.
  abbrev pub form_body : Text → BodyContent → BodyContent
  form_body content result = record result { kind = form; parsed_form = some (py.parse_qs content) }

  unfoldable pub render_form : Limits → Text → BodyContent → BodyContent
  unfolding rendered_form full preview
  render_form limits content result =
      let rendered = rendered_form (py.parse_qs content) in
      full limits rendered (preview limits rendered (form_body content result))

  abbrev pub multipart_body : List PartSummary → BodyContent → BodyContent
  multipart_body summary result = record result {
    kind = multipart;
    multipart_summary = summary;
    preview_text =
        some (codes "[multipart/form-data with " ++ str_nat (length summary) ++ codes " part(s)]");
  }

  unfoldable pub render_multipart : Limits → Option Text → Text → BodyContent → BodyContent
  unfolding summarize_multipart full warn
  render_multipart limits mime_type content result =
      let (summary, warnings) = summarize_multipart ct content mime_type in
      full limits content (warn warnings (multipart_body summary result))

  unfoldable pub render_plain : Limits → Text → BodyContent → BodyContent
  unfolding full preview
  render_plain limits content result =
      full limits content (preview limits content (record result { kind = text_kind }))

  abbrev pub has_mime : Text → Option Text → Bool
  has_mime part' mime_type = occurs part' (ct.lower (or_empty mime_type))

  -- The end of `normalize_body`: no JSON, or JSON that did not parse.
  unfoldable pub render_other : Limits → Option Text → Text → BodyContent → BodyContent
  unfolding render_form render_multipart render_plain omitted occurs is_textual looks_like_text
  render_other limits mime_type content result =
      if has_mime (codes "application/x-www-form-urlencoded") mime_type
      then render_form limits content result
      else if has_mime (codes "multipart/form-data") mime_type
      then render_multipart limits mime_type content result
      else if is_textual ct mime_type || looks_like_text content
      then render_plain limits content result
      else omitted result

  -- The JSON branch of `normalize_body`, on the text and what it parses to.
  unfoldable pub render_json : Limits → Text → Value → BodyContent → BodyContent
  unfolding full preview source
  render_json limits content value result =
      let rendered = py.dumps value in
      source limits content (
        full limits rendered
          (preview limits rendered (record result { kind = json; parsed_json = some value })))

  abbrev pub render_parsed : Limits → Option Text → Text → Option Value → BodyContent → BodyContent
  render_parsed limits mime_type content none result =
      render_other limits mime_type content
        (warn (codes "json_parse_failed" ∷ []) (record result { kind = json }))
  render_parsed limits mime_type content (some value) result =
      render_json limits content value result

  -- `normalize_body` from the test for JSON on.
  unfoldable pub render_body : Limits → Option Text → Text → BodyContent → BodyContent
  unfolding render_other render_json looks_like_json occurs warn
  render_body limits mime_type content result =
      if has_mime (codes "application/json") mime_type || looks_like_json content
      then render_parsed limits mime_type content (py.loads content) result
      else render_other limits mime_type content result

  -- `normalize_body` from the decompression of text on.
  unfoldable pub render_text : Limits → List Text → Text → BodyContent → BodyContent
  unfolding render_body decode_gzip_text warn
  render_text limits warnings content result =
      let (decompressed, more) = decode_gzip_text content result.charset in
      let plain = or_else content decompressed in
      if is_gzip result.content_encoding
      then render_body limits result.mime_type plain (warn (warnings ++ more) result)
      else render_body limits result.mime_type content (warn warnings result)

  abbrev pub render_decoded : Limits → Text → List Text → Option Text → BodyContent → BodyContent
  render_decoded limits content warnings (some plain) result =
      render_text limits warnings plain (record result { kind = base64 })
  render_decoded limits content warnings none result =
      if contains warnings (codes "base64_decode_failed")
      then render_text limits warnings content result
      else warn warnings (omitted result)

  -- `normalize_body` of an encoded body, after `source_bytes` is set.
  unfoldable pub render_encoded : Limits → Text → BodyContent → BodyContent
  unfolding render_text decode_encoded_body warn omitted
  render_encoded limits content result =
      let (decoded, warnings) =
        decode_encoded_body content result.mime_type result.charset result.content_encoding in
      render_decoded limits content warnings decoded result

  -- `bool(body.get(key))`
  abbrev pub is_set : Option Value → Bool
  is_set none = false
  is_set (some v) = truthy pf v

  abbrev has_boundary : Option Text → Bool
  has_boundary value = given value && occurs (codes "boundary=") (ct.lower (or_empty value))

  -- The multipart type with its boundary, which may stand in the header only.
  abbrev with_boundary : Option Text → Option Text → Option Text
  with_boundary mime_type header_content_type =
      if given mime_type
        && starts_with (codes "multipart/form-data") (ct.lower (or_empty mime_type))
        && not (has_boundary mime_type)
        && has_boundary header_content_type
      then header_content_type
      else mime_type

  abbrev pub start_body : HeaderMap → Fields → Option Text → BodyContent
  start_body header_map message charset =
      let header_content_type = header_value header_map (codes "content-type") in
      let mime_type =
        first_non_empty
          (shown pf (get_field (codes "mimeType") message) ∷ header_content_type ∷ []) in
      record empty_body {
        mime_type = with_boundary mime_type header_content_type;
        charset = charset;
        content_encoding = first_non_empty (
            shown pf (get_field (codes "contentEncoding") message)
            ∷ header_value header_map (codes "content-encoding")
            ∷ []);
        size_bytes = read_size message;
      }

  unfoldable pub with_bytes : Limits → Text → BodyContent → BodyContent
  unfolding decoded_payload
  with_bytes limits content result =
      let bytes = decoded_payload content result.content_encoding limits.max_full_body_chars in
      if limits.include_full_body then record result { source_bytes = bytes } else result

  -- What `normalize_body` returns, once `charset` and the body are read.
  unfoldable pub body_of : Limits → BodyContent → Bool → Option Text → BodyContent
  unfolding render_encoded render_text with_bytes
  body_of limits result encoded none = if encoded then record result { kind = base64 } else result
  body_of limits result encoded (some content) =
      let decoded = render_encoded limits content (with_bytes limits content result) in
      let plain = render_text limits [] content result in if encoded then decoded else plain

  unfoldable pub normalize_body : Limits → Fields → HeaderMap → Result BodyContent
  unfolding part header_value first_non_empty read_size body_of truthy get_field
  normalize_body limits message header_map = do
    body ← part pf (codes "body") message
    charset ← pyd.text_field (get_field (codes "charset") message)
    let encoded = is_set (get_field (codes "encoded") body)
    ok (
        body_of limits (start_body header_map message charset) encoded
          (body_text pf (get_field (codes "text") body)))
