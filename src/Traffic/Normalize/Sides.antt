-- ===== src/Traffic/Normalize/Sides.antt =====
-- The two sides of a normalized entry keep the limits of the call.
use charles_mcp.Prelude.{◌≤◌, ◌≡◌, Option, List, length, arith, length-take}
use charles_mcp.Prelude.Text.{Text, codes}
use charles_mcp.Prelude.Strings.{CaseTables}
use charles_mcp.Prelude.Outcome.{ok, ◌>>=◌, Always, always_ok, chain-Always, chain-Always_of}
use charles_mcp.Json.{Fields, get_field}
use charles_mcp.LiveState.Entries.{Platform}
use charles_mcp.Traffic.Raw.{Pydantic, Result, part, value_or_dict}
use charles_mcp.Traffic.Schema.{
  ResourceClassification, HeaderKv, HttpMessage, BodyContent, TrafficEntry,
}
use charles_mcp.Traffic.Headers.{HeaderMap}
use charles_mcp.Traffic.Body.{normalize_body}
use charles_mcp.Traffic.Body.Values.{Codecs}
use charles_mcp.Traffic.Body.Limited.{IsLimited}
use charles_mcp.Traffic.Body.Bounds.{normalize_body-Always}
use charles_mcp.Traffic.Normalize.{
  Options, http_message, traffic_entry, side_headers, classification_or, build_entry_id,
  normalize_entry,
}

-- A side with at most so many headers, and a body within the limits.
pub record IsShort (options : Options) (message : HttpMessage) : Type 0 where
  pub few_headers : length message.headers ≤ options.max_headers_per_side
  pub short_body : IsLimited options.limits message.body

-- Both sides of an entry.
pub record AreShort (options : Options) (entry : TrafficEntry) : Type 0 where
  pub short_request : IsShort options entry.request
  pub short_response : IsShort options entry.response

module _ (pf : Platform) (ct : CaseTables) (py : Codecs) (pyd : Pydantic) (options : Options) where
  -- A call before the end of a chain.
  through :
      {A B : Type 0} (P : B → Type 0) (call : Result A) (next : A → Result B)
      → ((a : A) → Always P (next a))
      → Always P (call >>= next)
  through P call next rest = chain-Always P call next rest

  abbrev text_at : Text → Fields → Result (Option Text)
  text_at key fields = pyd.text_field (get_field key fields)

  http_message-IsShort :
      (message : Fields) (headers : List HeaderKv × HeaderMap) (body : BodyContent)
      → IsLimited options.limits body
      → Always (IsShort options) (http_message pf ct py pyd options message headers body)
  unfolding http_message
  http_message-IsShort message headers body h =
      through (IsShort options) (part pf (codes "header") message) _ (λ header.
        through (IsShort options) (text_at (codes "firstLine") header) _ (λ first_line.
          through (IsShort options) (text_at (codes "mimeType") message) _ (λ mime_type.
            through (IsShort options) (text_at (codes "charset") message) _ (λ charset.
              through (IsShort options) (text_at (codes "contentEncoding") message) _
                (λ content_encoding. record {
                  few_headers = omega (arith, length-take options.max_headers_per_side headers.0);
                  short_body = h;
                })))))

  traffic_entry-AreShort :
      (classification : ResourceClassification) (raw_entry response : Fields)
      (request_message response_message : HttpMessage)
      → IsShort options request_message
      → IsShort options response_message
      → Always (AreShort options) (
          traffic_entry pf ct py pyd options classification raw_entry response request_message
            response_message)
  unfolding traffic_entry
  traffic_entry-AreShort classification raw_entry response request_message response_message h k =
      through (AreShort options) (build_entry_id pf ct py pyd options raw_entry) _ (λ entry_id.
        through (AreShort options) (text_at (codes "method") raw_entry) _ (λ method.
          through (AreShort options) (text_at (codes "scheme") raw_entry) _ (λ scheme.
            through (AreShort options) (text_at (codes "host") raw_entry) _ (λ host.
              through (AreShort options) (text_at (codes "path") raw_entry) _ (λ path.
                through (AreShort options) (text_at (codes "query") raw_entry) _ (λ query.
                  through (AreShort options) (text_at (codes "status") raw_entry) _ (λ status.
                    through (AreShort options)
                      (pyd.int_field (get_field (codes "totalSize") raw_entry)) _
                      (λ size.
                        through (AreShort options) (text_at (codes "errorMessage") raw_entry) _
                          (λ error_message.
                            through (AreShort options) (text_at (codes "notes") raw_entry) _
                              (λ notes.
                                through (AreShort options)
                                  (pyd.dict_field (value_or_dict pf (codes "times") raw_entry)) _
                                  (λ times.
                                    through (AreShort options)
                                      (pyd.dict_field
                                        (value_or_dict pf (codes "durations") raw_entry))
                                      _
                                      (λ durations. record {
                                        short_request = h;
                                        short_response = k;
                                      }))))))))))))

  -- Whatever the entry holds, a normalized entry has at most `max_headers_per_side` headers on a
  -- side; and a full text, a source text or source bytes only when full bodies are asked for,
  -- none longer than the limit.
  pub normalize_entry-AreShort :
      (given_class : Option ResourceClassification) (raw_entry : Fields) (entry : TrafficEntry)
      → normalize_entry pf ct py pyd options given_class raw_entry ≡ ok entry
      → AreShort options entry
  unfolding normalize_entry
  normalize_entry-AreShort given_class raw_entry entry =
      always_ok (AreShort options) (normalize_entry pf ct py pyd options given_class raw_entry) (
        through (AreShort options) (classification_or pf ct py pyd given_class raw_entry) _
          (λ classification.
            through (AreShort options) (part pf (codes "request") raw_entry) _ (λ request.
              through (AreShort options) (side_headers pf ct py pyd request) _ (λ request_headers.
                through (AreShort options) (part pf (codes "response") raw_entry) _ (λ response.
                  through (AreShort options) (side_headers pf ct py pyd response) _
                    (λ response_headers.
                      chain-Always_of (AreShort options) (IsLimited options.limits)
                        (normalize_body pf ct py pyd options.limits request request_headers.1) _
                        (normalize_body-Always options.limits pf ct py pyd request
                          request_headers.1)
                        (λ request_body short_request.
                          chain-Always_of (AreShort options) (IsLimited options.limits)
                            (normalize_body pf ct py pyd options.limits response response_headers.1)
                            _
                            (normalize_body-Always options.limits pf ct py pyd response
                              response_headers.1)
                            (λ response_body short_response.
                              chain-Always_of (AreShort options) (IsShort options)
                                (http_message pf ct py pyd options request request_headers
                                  request_body)
                                _
                                (http_message-IsShort request request_headers request_body
                                  short_request)
                                (λ request_message h.
                                  chain-Always_of (AreShort options) (IsShort options)
                                    (http_message pf ct py pyd options response response_headers
                                      response_body)
                                    _
                                    (http_message-IsShort response response_headers response_body
                                      short_response)
                                    (λ response_message k.
                                      traffic_entry-AreShort classification raw_entry response
                                        request_message response_message h k))))))))))
