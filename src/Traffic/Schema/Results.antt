-- ===== src/Traffic/Schema/Results.antt =====
-- What the traffic queries return: the other models of charles_mcp/schemas/traffic.py,
-- schemas/analysis.py and services/traffic_query_models.py.
use charles_mcp.Prelude.{ℕ, Bool, Option, List}
use charles_mcp.Prelude.Text.{Text}
use charles_mcp.Prelude.Int.{ℤ}
use charles_mcp.Prelude.Dict.{Dict}
use charles_mcp.Json.{Value, Items, Fields, null, arr, obj, nil, cons, end, field}
use charles_mcp.Traffic.Schema.{
  CaptureSource, ResourceClass, TrafficEntry, TrafficMatch, TrafficPreset,
}

pub record TrafficSummary : Type 0 where
  pub entry_id : Text
  pub capture_source : CaptureSource
  pub capture_id : Option Text
  pub recording_path : Option Text
  pub resource_class : ResourceClass
  pub priority_score : ℕ
  pub method : Option Text
  pub host : Option Text
  pub path : Option Text
  pub response_status : Option ℤ
  pub request_content_type : Option Text
  pub response_content_type : Option Text
  pub total_size : Option ℤ
  pub has_error : Bool
  pub error_message : Option Text
  pub request_header_highlights : Dict Text Text
  pub response_header_highlights : Dict Text Text
  pub request_body_preview : Option Text
  pub response_body_preview : Option Text
  pub preview_truncated : Bool
  pub matched_fields : List Text
  pub match_reasons : List Text
  pub detail_available : Bool

pub record TrafficDetail : Type 0 where
  pub entry : TrafficEntry
  pub raw_body_included : Bool
  pub body_truncated : Bool
  pub warnings : List Text

pub record PreparedTrafficEntries : Type 0 where
  pub source : CaptureSource
  pub identity : Option Text
  pub total_items : ℕ
  pub scanned_count : ℕ
  pub matched_count : ℕ
  pub filtered_out_count : ℕ
  pub filtered_out_by_class : Dict ResourceClass ℕ
  pub matched_entries : List (TrafficEntry × TrafficMatch)
  pub next_cursor : Option ℕ
  pub truncated : Bool
  pub warnings : List Text

pub record TrafficQueryResult : Type 0 where
  pub source : CaptureSource
  pub items : List TrafficSummary
  pub total_items : ℕ
  pub scanned_count : ℕ
  pub matched_count : ℕ
  pub filtered_out_count : ℕ
  pub filtered_out_by_class : Dict ResourceClass ℕ
  pub next_cursor : Option ℕ
  pub truncated : Bool
  pub warnings : List Text

pub record TrafficDetailResult : Type 0 where
  pub source : CaptureSource
  pub entry_id : Text
  pub detail : TrafficDetail
  pub warnings : List Text

pub record CaptureAnalysisStatsResult : Type 0 where
  pub source : CaptureSource
  pub total_items : ℕ
  pub scanned_count : ℕ
  pub classified_counts : Dict ResourceClass ℕ
  pub preset : TrafficPreset
  pub warnings : List Text

pub data TrafficGroupBy : Type 0 where
  host : TrafficGroupBy
  path : TrafficGroupBy
  response_status : TrafficGroupBy
  resource_class : TrafficGroupBy
  method : TrafficGroupBy
  host_path : TrafficGroupBy
  host_status : TrafficGroupBy

pub record TrafficGroupSummary : Type 0 where
  pub group_value : Text
  pub count : ℕ
  pub total_size : ℤ
  pub has_error_count : ℕ
  pub sample_paths : List Text
  pub sample_entry_ids : List Text
  pub resource_classes : List ResourceClass

pub record CaptureAnalysisGroupsResult : Type 0 where
  pub source : CaptureSource
  pub group_by : TrafficGroupBy
  pub groups : List TrafficGroupSummary
  pub total_items : ℕ
  pub scanned_count : ℕ
  pub matched_count : ℕ
  pub filtered_out_count : ℕ
  pub filtered_out_by_class : Dict ResourceClass ℕ
  pub truncated : Bool
  pub warnings : List Text

unfoldable mutual
  -- `_strip_none`
  pub strip_none : Value → Value
  strip_none (obj fs) = obj (strip_fields fs)
  strip_none (arr xs) = arr (strip_items xs)
  strip_none v = v

  pub strip_items : Items → Items
  strip_items nil = nil
  strip_items (cons v xs) = cons (strip_none v) (strip_items xs)

  pub strip_fields : Fields → Fields
  strip_fields end = end
  strip_fields (field k null fs) = strip_fields fs
  strip_fields (field k v fs) = field k (strip_none v) (strip_fields fs)
