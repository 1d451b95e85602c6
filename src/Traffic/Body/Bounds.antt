-- ===== src/Traffic/Body/Bounds.antt =====
-- The limits of a body hold on every branch of `normalize_body`.
use charles_mcp.Prelude.{
  ℕ, ◌≡◌, Bool, true, false, ◌||◌, Option, none, some, List, [], ◌++◌, length, leb, contains,
  Bool-cases, Option-cases, inl, inr, leb→le,
}
use charles_mcp.Prelude.Text.{Text, text_eq, codes}
use charles_mcp.Prelude.Strings.{CaseTables}
use charles_mcp.Prelude.Outcome.{Always, chain-Always}
use charles_mcp.Json.{Value, Fields, get_field}
use charles_mcp.LiveState.Entries.{Platform}
use charles_mcp.Traffic.Raw.{Pydantic, part}
use charles_mcp.Traffic.Schema.{BodyContent, text_kind, json}
use charles_mcp.Traffic.Headers.{HeaderMap}
use charles_mcp.Traffic.Body.{
  form_body, multipart_body, rendered_form, render_form, render_multipart, render_plain,
  render_parsed, render_decoded, has_mime, is_gzip, is_set, decode_gzip_text, decoded_payload,
  keep_whole, render_json, render_other, render_body, render_text, render_encoded, body_of,
  normalize_body, with_bytes, start_body,
}
use charles_mcp.Traffic.Body.Values.{Codecs, Limits, body_text, or_else, warn, omitted}
use charles_mcp.Traffic.Body.Multipart.{summarize_multipart}
use charles_mcp.Traffic.Body.Scan.{is_textual, looks_like_text, looks_like_json}
use charles_mcp.Traffic.Body.Limited.{
  Fits, IsLimited, either, full-IsLimited, preview-IsLimited, warn-IsLimited, omitted-IsLimited,
  source-IsLimited,
}

module _ (limits : Limits) where
  module _ (pf : Platform) (ct : CaseTables) (py : Codecs) (pyd : Pydantic) where
    keep_whole-Fits :
        (bytes : Option (List ℕ))
        → limits.include_full_body ≡ true
        → Fits limits (keep_whole pf ct py pyd limits.max_full_body_chars bytes)
    keep_whole-Fits none asked = tt
    keep_whole-Fits (some bytes) asked =
        elim (Bool-cases (leb (length bytes) limits.max_full_body_chars)) [
          | inl fits ↦ rw fits (asked, leb→le (length bytes) limits.max_full_body_chars fits)
          | inr large ↦ rw large tt
        ]

    decoded_payload-Fits :
        (content : Text) (content_encoding : Option Text)
        → limits.include_full_body ≡ true
        → Fits limits
            (decoded_payload pf ct py pyd content content_encoding limits.max_full_body_chars)
    unfolding decoded_payload
    decoded_payload-Fits content content_encoding asked =
        elim (Option-cases (py.b64decode content)) [
          | inl failed ↦ rw (failed, decoded_payload) tt
          | inr (payload, decoded) ↦ rw (decoded, decoded_payload) (keep_whole-Fits _ asked)
        ]

    render_other-IsLimited :
        (mime_type : Option Text) (content : Text) (body : BodyContent)
        → IsLimited limits body
        → IsLimited limits (render_other pf ct py pyd limits mime_type content body)
    unfolding render_other render_form render_multipart render_plain
    render_other-IsLimited mime_type content body h =
        either limits (has_mime pf ct py pyd (codes "application/x-www-form-urlencoded") mime_type)
          (render_form pf ct py pyd limits content body) _
          (λ form. full-IsLimited limits (rendered_form pf ct py pyd (py.parse_qs content)) _ (
            preview-IsLimited limits (rendered_form pf ct py pyd (py.parse_qs content))
              (form_body pf ct py pyd content body)
              (record {
                full_text_fits = h.full_text_fits;
                source_text_fits = h.source_text_fits;
                source_bytes_fit = h.source_bytes_fit;
              })))
          (either limits (has_mime pf ct py pyd (codes "multipart/form-data") mime_type)
            (render_multipart pf ct py pyd limits mime_type content body) _
            (λ multipart. full-IsLimited limits content _ (
              warn-IsLimited limits (summarize_multipart ct content mime_type).1
                (multipart_body pf ct py pyd (summarize_multipart ct content mime_type).0 body)
                (record {
                  full_text_fits = h.full_text_fits;
                  source_text_fits = h.source_text_fits;
                  source_bytes_fit = h.source_bytes_fit;
                })))
            (either limits (is_textual ct mime_type || looks_like_text content)
              (render_plain pf ct py pyd limits content body) (omitted body)
              (λ textual. full-IsLimited limits content _ (
                preview-IsLimited limits content (record body { kind = text_kind })
                  (record {
                    full_text_fits = h.full_text_fits;
                    source_text_fits = h.source_text_fits;
                    source_bytes_fit = h.source_bytes_fit;
                  })))
              (omitted-IsLimited limits body h)))

    render_parsed-IsLimited :
        (mime_type : Option Text) (content : Text) (parsed : Option Value) (body : BodyContent)
        → IsLimited limits body
        → IsLimited limits (render_parsed pf ct py pyd limits mime_type content parsed body)
    unfolding render_json
    render_parsed-IsLimited mime_type content none body h =
        render_other-IsLimited mime_type content _ (
          warn-IsLimited limits _ _ (record {
            full_text_fits = h.full_text_fits;
            source_text_fits = h.source_text_fits;
            source_bytes_fit = h.source_bytes_fit;
          }))
    render_parsed-IsLimited mime_type content (some value) body h =
        source-IsLimited limits content _ (
          full-IsLimited limits (py.dumps value) _ (
            preview-IsLimited limits (py.dumps value)
              (record body { kind = json; parsed_json = some value })
              (record {
                full_text_fits = h.full_text_fits;
                source_text_fits = h.source_text_fits;
                source_bytes_fit = h.source_bytes_fit;
              })))

    render_body-IsLimited :
        (mime_type : Option Text) (content : Text) (body : BodyContent)
        → IsLimited limits body
        → IsLimited limits (render_body pf ct py pyd limits mime_type content body)
    unfolding render_body
    render_body-IsLimited mime_type content body h =
        either limits
          (has_mime pf ct py pyd (codes "application/json") mime_type || looks_like_json content) _
          (render_other pf ct py pyd limits mime_type content body)
          (λ is_json. render_parsed-IsLimited mime_type content (py.loads content) body h)
          (render_other-IsLimited mime_type content body h)

    render_text-IsLimited :
        (warnings : List Text) (content : Text) (body : BodyContent)
        → IsLimited limits body
        → IsLimited limits (render_text pf ct py pyd limits warnings content body)
    unfolding render_text
    render_text-IsLimited warnings content body h =
        let (decompressed, more) = decode_gzip_text pf ct py pyd content body.charset in
        either limits (is_gzip pf ct py pyd body.content_encoding) _ _
          (λ zipped.
            render_body-IsLimited body.mime_type (or_else content decompressed)
              (warn (warnings ++ more) body) (warn-IsLimited limits (warnings ++ more) body h))
          (render_body-IsLimited body.mime_type content (warn warnings body)
            (warn-IsLimited limits warnings body h))

    render_decoded-IsLimited :
        (content : Text) (warnings : List Text) (decoded : Option Text) (body : BodyContent)
        → IsLimited limits body
        → IsLimited limits (render_decoded pf ct py pyd limits content warnings decoded body)
    render_decoded-IsLimited content warnings (some plain) body h =
        render_text-IsLimited warnings plain _ (record {
          full_text_fits = h.full_text_fits;
          source_text_fits = h.source_text_fits;
          source_bytes_fit = h.source_bytes_fit;
        })
    render_decoded-IsLimited content warnings none body h =
        either limits (contains warnings (codes "base64_decode_failed"))
          (render_text pf ct py pyd limits warnings content body) (warn warnings (omitted body))
          (λ failed. render_text-IsLimited warnings content body h)
          (warn-IsLimited limits _ _ (omitted-IsLimited limits body h))

    with_bytes-IsLimited :
        (content : Text) (body : BodyContent)
        → IsLimited limits body
        → IsLimited limits (with_bytes pf ct py pyd limits content body)
    unfolding with_bytes
    with_bytes-IsLimited content body h =
        either limits limits.include_full_body _ body
          (λ asked. record {
            full_text_fits = h.full_text_fits;
            source_text_fits = h.source_text_fits;
            source_bytes_fit = decoded_payload-Fits content body.content_encoding asked;
          })
          h

    body_of-IsLimited :
        (body : BodyContent) (encoded : Bool) (content : Option Text)
        → IsLimited limits body
        → IsLimited limits (body_of pf ct py pyd limits body encoded content)
    unfolding body_of render_encoded
    body_of-IsLimited body true none h = record {
      full_text_fits = h.full_text_fits;
      source_text_fits = h.source_text_fits;
      source_bytes_fit = h.source_bytes_fit;
    }
    body_of-IsLimited body false none h = h
    body_of-IsLimited body true (some content) h =
        render_decoded-IsLimited content _ _ _ (with_bytes-IsLimited content body h)
    body_of-IsLimited body false (some content) h = render_text-IsLimited [] content body h

    pub normalize_body-Always :
        (message : Fields) (header_map : HeaderMap)
        → Always (IsLimited limits) (normalize_body pf ct py pyd limits message header_map)
    unfolding normalize_body
    normalize_body-Always message header_map =
        chain-Always (IsLimited limits) (part pf (codes "body") message) _ (λ body.
          chain-Always (IsLimited limits) (pyd.text_field (get_field (codes "charset") message)) _
            (λ charset.
              body_of-IsLimited (start_body pf ct py pyd header_map message charset)
                (is_set pf ct py pyd (get_field (codes "encoded") body))
                (body_text pf (get_field (codes "text") body))
                (record { full_text_fits = tt; source_text_fits = tt; source_bytes_fit = tt })))
