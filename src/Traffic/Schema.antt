-- ===== src/Traffic/Schema.antt =====
-- charles_mcp/schemas/traffic.py and traffic_query.py, and services/traffic_query_models.py.
-- A score is a natural number, as every score the classifier gives is.
pub mod Results
use charles_mcp.Prelude.{
  ℕ, zero, suc, get_elem?, ◌≡◌, refl, Bool, true, false, ◌&&◌, Option, none, some, List, [], ◌∷◌,
  Eq, nat_eq, leb, ◌==◌,
}
use charles_mcp.Prelude.{eq_by}
use charles_mcp.Prelude.Text.{Text}
use charles_mcp.Prelude.Int.{ℤ, pos, negsuc}
use charles_mcp.Prelude.Dict.{Dict}
use charles_mcp.Json.{Value, Fields, end}

pub data CaptureSource : Type 0 where
  live : CaptureSource
  history : CaptureSource

pub data ResourceClass : Type 0 where
  api_candidate : ResourceClass
  document : ResourceClass
  script : ResourceClass
  static_asset : ResourceClass
  media : ResourceClass
  font : ResourceClass
  connect_tunnel : ResourceClass
  control : ResourceClass
  unknown : ResourceClass

pub data BodyKind : Type 0 where
  none_kind : BodyKind
  json : BodyKind
  form : BodyKind
  multipart : BodyKind
  text_kind : BodyKind
  binary : BodyKind
  base64 : BodyKind
  unknown_kind : BodyKind

abbrev pub source_rank : CaptureSource → ℕ
source_rank live = 0
source_rank history = 1

pub source_of : ℕ → CaptureSource
source_of zero = live
source_of (suc n) = history

pub source_of-source_rank : (s : CaptureSource) → source_of (source_rank s) ≡ s
unfolding source_of
source_of-source_rank live = refl
source_of-source_rank history = refl

-- The members, in the order of the source.
abbrev pub classes : List ResourceClass
classes =
    api_candidate ∷ document ∷ script ∷ static_asset ∷ media ∷ font ∷ connect_tunnel ∷ control
    ∷ unknown ∷ []

abbrev pub class_rank : ResourceClass → ℕ
class_rank api_candidate = 0
class_rank document = 1
class_rank script = 2
class_rank static_asset = 3
class_rank media = 4
class_rank font = 5
class_rank connect_tunnel = 6
class_rank control = 7
class_rank unknown = 8

pub class_of : ℕ → ResourceClass
class_of n = elim (get_elem? classes n) [ none ↦ unknown | some c ↦ c ]

pub class_of-class_rank : (c : ResourceClass) → class_of (class_rank c) ≡ c
unfolding class_of
class_of-class_rank api_candidate = refl
class_of-class_rank document = refl
class_of-class_rank script = refl
class_of-class_rank static_asset = refl
class_of-class_rank media = refl
class_of-class_rank font = refl
class_of-class_rank connect_tunnel = refl
class_of-class_rank control = refl
class_of-class_rank unknown = refl

instance abbrev pub source_eq : Eq CaptureSource
source_eq = eq_by source_rank source_of source_of-source_rank

instance abbrev pub class_eq : Eq ResourceClass
class_eq = eq_by class_rank class_of class_of-class_rank

pub record ResourceClassification : Type 0 where
  pub resource_class : ResourceClass
  pub priority_score : ℕ
  pub priority_reasons : List Text

pub record HeaderKv : Type 0 where
  pub name : Text
  pub value : Option Text
  pub lower_name : Text

-- The summary of one part of a multipart body.
pub record PartSummary : Type 0 where
  pub name : Option Text
  pub filename : Option Text
  pub content_type : Option Text
  pub size_bytes : ℕ
  pub preview_text : Option Text
  pub preview_truncated : Bool

pub record BodyContent : Type 0 where
  pub kind : BodyKind
  pub mime_type : Option Text
  pub charset : Option Text
  pub content_encoding : Option Text
  pub size_bytes : Option ℤ
  pub preview_text : Option Text
  pub preview_truncated : Bool
  pub full_text : Option Text
  pub full_text_truncated : Bool
  pub source_text : Option Text
  pub source_bytes : Option (List ℕ)
  pub parsed_json : Option Value
  pub parsed_form : Option (Dict Text (List Text))
  pub multipart_summary : List PartSummary
  pub decode_warnings : List Text

-- `BodyContent()`
abbrev pub empty_body : BodyContent
empty_body = record {
  kind = none_kind;
  mime_type = none;
  charset = none;
  content_encoding = none;
  size_bytes = none;
  preview_text = none;
  preview_truncated = false;
  full_text = none;
  full_text_truncated = false;
  source_text = none;
  source_bytes = none;
  parsed_json = none;
  parsed_form = none;
  multipart_summary = [];
  decode_warnings = [];
}

pub record HttpMessage : Type 0 where
  pub first_line : Option Text
  pub headers : List HeaderKv
  pub header_map : Dict Text (List Text)
  pub mime_type : Option Text
  pub charset : Option Text
  pub content_encoding : Option Text
  pub body : BodyContent

pub record TrafficEntry : Type 0 where
  pub entry_id : Text
  pub capture_source : CaptureSource
  pub capture_id : Option Text
  pub recording_path : Option Text
  pub resource_class : ResourceClass
  pub priority_score : ℕ
  pub priority_reasons : List Text
  pub method : Option Text
  pub scheme : Option Text
  pub host : Option Text
  pub path : Option Text
  pub query : Option Text
  pub response_status : Option ℤ
  pub status : Option Text
  pub total_size : Option ℤ
  pub error_message : Option Text
  pub notes : Option Text
  pub times : Fields
  pub durations : Fields
  pub request : HttpMessage
  pub response : HttpMessage

pub record TrafficMatch : Type 0 where
  pub matched : Bool
  pub matched_fields : List Text
  pub match_reasons : List Text

pub data TrafficPreset : Type 0 where
  api_focus : TrafficPreset
  errors_only : TrafficPreset
  all_http : TrafficPreset
  page_bootstrap : TrafficPreset

pub record TrafficQuery : Type 0 where
  pub preset : TrafficPreset
  pub host_contains : Option Text
  pub path_contains : Option Text
  pub method_in : List Text
  pub status_in : List ℤ
  pub has_error : Option Bool
  pub resource_class_in : List ResourceClass
  pub min_priority_score : Option ℤ
  pub request_header_name : Option Text
  pub request_header_value_contains : Option Text
  pub response_header_name : Option Text
  pub response_header_value_contains : Option Text
  pub request_content_type : Option Text
  pub response_content_type : Option Text
  pub request_body_contains : Option Text
  pub response_body_contains : Option Text
  pub request_json_query : Option Text
  pub response_json_query : Option Text
  pub min_total_size : Option ℤ
  pub max_total_size : Option ℤ
  pub include_body_preview : Bool
  pub max_items : ℕ
  pub max_preview_chars : ℕ
  pub max_headers_per_side : ℕ
  pub scan_limit : ℕ
  pub since_seconds : Option ℕ

-- `TrafficQuery(preset=preset, max_items=max_items, scan_limit=scan_limit)`
abbrev pub plain_query : TrafficPreset → ℕ → ℕ → TrafficQuery
plain_query preset max_items scan_limit = record {
  preset = preset;
  host_contains = none;
  path_contains = none;
  method_in = [];
  status_in = [];
  has_error = none;
  resource_class_in = [];
  min_priority_score = none;
  request_header_name = none;
  request_header_value_contains = none;
  response_header_name = none;
  response_header_value_contains = none;
  request_content_type = none;
  response_content_type = none;
  request_body_contains = none;
  response_body_contains = none;
  request_json_query = none;
  response_json_query = none;
  min_total_size = none;
  max_total_size = none;
  include_body_preview = true;
  max_items = max_items;
  max_preview_chars = 256;
  max_headers_per_side = 8;
  scan_limit = scan_limit;
  since_seconds = none;
}

abbrev pub within : ℕ → ℕ → ℕ → Bool
within low high n = leb low n && leb n high

abbrev pub within_given : ℕ → ℕ → Option ℕ → Bool
within_given low high none = true
within_given low high (some n) = within low high n

-- The `ge` and `le` of the fields of `TrafficQuery`.
abbrev pub is_valid_query : TrafficQuery → Bool
is_valid_query q =
    within 1 200 q.max_items
    && within 32 4096 q.max_preview_chars
    && within 1 32 q.max_headers_per_side
    && within 1 5000 q.scan_limit
    && within_given 1 86400 q.since_seconds

-- `bool(value)` of a text that may be missing, and `value or ""`.
abbrev pub given : Option Text → Bool
given none = false
given (some []) = false
given (some (c ∷ cs)) = true

abbrev pub or_empty : Option Text → Text
or_empty none = []
or_empty (some t) = t

-- `(entry.response_status or 0) >= 400`
abbrev pub is_error_status : Option ℤ → Bool
is_error_status (some (pos n)) = leb 400 n
is_error_status _ = false

-- `n or 0`
abbrev pub or_zero : Option ℤ → ℤ
or_zero none = pos 0
or_zero (some n) = n
