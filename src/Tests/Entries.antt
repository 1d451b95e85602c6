-- ===== src/Tests/Entries.antt =====
-- Small stand-ins for Python, and an empty entry.
use charles_mcp.Prelude.{true, none, some, Option, []}
use charles_mcp.Prelude.Text.{Text, codes}
use charles_mcp.Prelude.Int.{ℤ, pos}
use charles_mcp.Prelude.Outcome.{ok, raise}
use charles_mcp.Json.{Value, Fields, null, int, str, obj, end}
use charles_mcp.LiveState.Entries.{Platform}
use charles_mcp.Traffic.Raw.{Result, Pydantic, validation_error}
use charles_mcp.Traffic.Schema.{live, HttpMessage, TrafficEntry, empty_body, unknown}
use charles_mcp.Traffic.Body.Values.{Codecs}
use charles_mcp.Traffic.Prepare.State.{Runtime}
use charles_mcp.Tests.Samples.{ascii_tables}

-- A digest that keeps its text.
abbrev pub plain : Platform
plain = record { sha1_hex = λ t. t; str_of = λ v. codes "1"; nonzero = λ t. true }

abbrev text_field : Option Value → Result (Option Text)
text_field none = ok none
text_field (some null) = ok none
text_field (some (str t)) = ok (some t)
text_field (some v) = raise validation_error

abbrev int_field : Option Value → Result (Option ℤ)
int_field none = ok none
int_field (some null) = ok none
int_field (some (int n)) = ok (some n)
int_field (some v) = raise validation_error

abbrev dict_field : Value → Result Fields
dict_field (obj fs) = ok fs
dict_field v = raise validation_error

abbrev pub strict : Pydantic
strict = record { text_field = text_field; int_field = int_field; dict_field = dict_field }

abbrev pub codecs : Codecs
codecs = record {
  b64decode = λ t. some t;
  gunzip = λ b. none;
  latin1 = λ t. some t;
  decode = λ e b. some b;
  decode_utf8 = λ b. b;
  loads = λ t. none;
  dumps = λ v. [];
  parse_qs = λ t. [];
}

abbrev pub runtime : Runtime
runtime = record {
  platform = plain;
  tables = ascii_tables;
  codecs = codecs;
  pydantic = strict;
  search = λ e v. ok none;
  timestamp_of = λ t. none;
  detail_json = λ d. [];
}

abbrev blank_message : HttpMessage
blank_message = record {
  first_line = none;
  headers = [];
  header_map = [];
  mime_type = none;
  charset = none;
  content_encoding = none;
  body = empty_body;
}

abbrev pub blank_entry : TrafficEntry
blank_entry = record {
  entry_id = codes "e";
  capture_source = live;
  capture_id = some (codes "c");
  recording_path = none;
  resource_class = unknown;
  priority_score = 20;
  priority_reasons = [];
  method = some (codes "GET");
  scheme = none;
  host = some (codes "a.b");
  path = some (codes "/w");
  query = none;
  response_status = some (pos 404);
  status = none;
  total_size = some (pos 7);
  error_message = none;
  notes = none;
  times = end;
  durations = end;
  request = blank_message;
  response = blank_message;
}
