-- ===== src/Traffic/Normalize.antt =====
-- charles_mcp/services/traffic_normalizer.py.
pub mod Sides
use charles_mcp.Prelude.{
  ℕ, Bool, true, false, Option, none, some, List, [], ◌∷◌, take, if◌then◌else◌,
}
use charles_mcp.Prelude.Text.{Text, codes}
use charles_mcp.Prelude.Int.{ℤ, pos}
use charles_mcp.Prelude.Strings.{CaseTables, join}
use charles_mcp.Prelude.Outcome.{ok, ◌>>=◌}
use charles_mcp.Json.{Value, Fields, int, bool, get_field}
use charles_mcp.LiveState.Entries.{Platform, component}
use charles_mcp.Traffic.Raw.{Result, Pydantic, part, value_or_dict}
use charles_mcp.Traffic.Schema.{
  CaptureSource, live, history, ResourceClassification, HeaderKv, HttpMessage, BodyContent,
  TrafficEntry, or_empty,
}
use charles_mcp.Traffic.Classify.{classify_entry}
use charles_mcp.Traffic.Headers.{HeaderMap, normalize_headers}
use charles_mcp.Traffic.Body.{normalize_body}
use charles_mcp.Traffic.Body.Values.{Codecs, Limits}

-- The arguments of `normalize_entry` by name.
pub record Options : Type 0 where
  pub capture_source : CaptureSource
  pub capture_id : Option Text
  pub recording_path : Option Text
  pub limits : Limits
  pub max_headers_per_side : ℕ

abbrev pub source_text : CaptureSource → Text
source_text live = codes "live"
source_text history = codes "history"

abbrev as_status : Option Value → Option ℤ
as_status (some (int n)) = some n
as_status (some (bool b)) = some (if b then pos 1 else pos 0)
as_status _ = none

module _ (pf : Platform) (ct : CaseTables) (py : Codecs) (pyd : Pydantic) where
  -- `_build_entry_id`
  unfoldable pub build_entry_id : Options → Fields → Result Text
  unfolding part component join
  build_entry_id options raw_entry = do
    times ← part pf (codes "times") raw_entry
    response ← part pf (codes "response") raw_entry
    ok (
        pf.sha1_hex (
          join b'|' (
            source_text options.capture_source
            ∷ or_empty options.capture_id
            ∷ or_empty options.recording_path
            ∷ component pf (codes "host") raw_entry
            ∷ component pf (codes "method") raw_entry
            ∷ component pf (codes "path") raw_entry
            ∷ component pf (codes "query") raw_entry
            ∷ component pf (codes "status") raw_entry
            ∷ component pf (codes "status") response
            ∷ component pf (codes "start") times
            ∷ component pf (codes "end") times
            ∷ component pf (codes "totalSize") raw_entry
            ∷ [])))

  -- `HttpMessage(...)` of one side.
  unfoldable pub http_message :
      Options → Fields → List HeaderKv × HeaderMap → BodyContent → Result HttpMessage
  unfolding get_field part
  http_message options message (headers, header_map) body = do
    header ← part pf (codes "header") message
    first_line ← pyd.text_field (get_field (codes "firstLine") header)
    mime_type ← pyd.text_field (get_field (codes "mimeType") message)
    charset ← pyd.text_field (get_field (codes "charset") message)
    content_encoding ← pyd.text_field (get_field (codes "contentEncoding") message)
    ok (record {
      first_line = first_line;
      headers = take options.max_headers_per_side headers;
      header_map = header_map;
      mime_type = mime_type;
      charset = charset;
      content_encoding = content_encoding;
      body = body;
    })

  unfoldable pub side_headers : Fields → Result (List HeaderKv × HeaderMap)
  unfolding get_field part normalize_headers
  side_headers message = do
    header ← part pf (codes "header") message
    normalize_headers pf ct (get_field (codes "headers") header)

  -- `TrafficEntry(...)`
  unfoldable pub traffic_entry :
      Options
      → ResourceClassification
      → Fields
      → Fields
      → HttpMessage
      → HttpMessage
      → Result TrafficEntry
  unfolding get_field build_entry_id value_or_dict
  traffic_entry options classification raw_entry response request_message response_message = do
    entry_id ← build_entry_id options raw_entry
    method ← pyd.text_field (get_field (codes "method") raw_entry)
    scheme ← pyd.text_field (get_field (codes "scheme") raw_entry)
    host ← pyd.text_field (get_field (codes "host") raw_entry)
    path ← pyd.text_field (get_field (codes "path") raw_entry)
    query ← pyd.text_field (get_field (codes "query") raw_entry)
    status ← pyd.text_field (get_field (codes "status") raw_entry)
    total_size ← pyd.int_field (get_field (codes "totalSize") raw_entry)
    error_message ← pyd.text_field (get_field (codes "errorMessage") raw_entry)
    notes ← pyd.text_field (get_field (codes "notes") raw_entry)
    times ← pyd.dict_field (value_or_dict pf (codes "times") raw_entry)
    durations ← pyd.dict_field (value_or_dict pf (codes "durations") raw_entry)
    ok (record {
      entry_id = entry_id;
      capture_source = options.capture_source;
      capture_id = options.capture_id;
      recording_path = options.recording_path;
      resource_class = classification.resource_class;
      priority_score = classification.priority_score;
      priority_reasons = classification.priority_reasons;
      method = method;
      scheme = scheme;
      host = host;
      path = path;
      query = query;
      response_status = as_status (get_field (codes "status") response);
      status = status;
      total_size = total_size;
      error_message = error_message;
      notes = notes;
      times = times;
      durations = durations;
      request = request_message;
      response = response_message;
    })

  abbrev pub classification_or :
      Option ResourceClassification → Fields → Result ResourceClassification
  classification_or none raw_entry = classify_entry pf ct raw_entry
  classification_or (some classification) raw_entry = ok classification

  -- `normalize_entry`
  unfoldable pub normalize_entry :
      Options → Option ResourceClassification → Fields → Result TrafficEntry
  unfolding classify_entry part side_headers normalize_body http_message traffic_entry
  normalize_entry options given_class raw_entry = do
    classification ← classification_or given_class raw_entry
    request ← part pf (codes "request") raw_entry
    (request_headers, request_map) ← side_headers request
    response ← part pf (codes "response") raw_entry
    (response_headers, response_map) ← side_headers response
    request_body ← normalize_body pf ct py pyd options.limits request request_map
    response_body ← normalize_body pf ct py pyd options.limits response response_map
    request_message ← http_message options request (request_headers, request_map) request_body
    response_message ← http_message options response (response_headers, response_map) response_body
    traffic_entry options classification raw_entry response request_message response_message
