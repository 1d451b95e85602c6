-- ===== src/Traffic/Match/Views.antt =====
-- The summary, the detail and the statistics of charles_mcp/services/traffic_analysis.py.
use charles_mcp.Prelude.{
  ℕ, Bool, true, false, ◌&&◌, ◌||◌, Option, none, some, List, [], if◌then◌else◌,
}
use charles_mcp.Prelude.Text.{Text}
use charles_mcp.Prelude.Dict.{Dict}
use charles_mcp.Traffic.Schema.{
  CaptureSource, ResourceClass, BodyContent, TrafficEntry, TrafficMatch, TrafficPreset, given,
  is_error_status,
}
use charles_mcp.Traffic.Schema.Results.{TrafficSummary, TrafficDetail, CaptureAnalysisStatsResult}
use charles_mcp.Traffic.Headers.{build_header_highlights}

-- `summarize_entry`
unfoldable pub summarize_entry : TrafficEntry → TrafficMatch → ℕ → Bool → TrafficSummary
unfolding build_header_highlights
summarize_entry entry m max_headers_per_side include_body_preview = record {
  entry_id = entry.entry_id;
  capture_source = entry.capture_source;
  capture_id = entry.capture_id;
  recording_path = entry.recording_path;
  resource_class = entry.resource_class;
  priority_score = entry.priority_score;
  method = entry.method;
  host = entry.host;
  path = entry.path;
  response_status = entry.response_status;
  request_content_type = entry.request.mime_type;
  response_content_type = entry.response.mime_type;
  total_size = entry.total_size;
  has_error = given entry.error_message || is_error_status entry.response_status;
  error_message = entry.error_message;
  request_header_highlights = build_header_highlights entry.request.header_map max_headers_per_side;
  response_header_highlights =
      build_header_highlights entry.response.header_map max_headers_per_side;
  request_body_preview = if include_body_preview then entry.request.body.preview_text else none;
  response_body_preview = if include_body_preview then entry.response.body.preview_text else none;
  preview_truncated = entry.request.body.preview_truncated || entry.response.body.preview_truncated;
  matched_fields = m.matched_fields;
  match_reasons = m.match_reasons;
  detail_available = true;
}

abbrev is_some : {A : Type 0} → Option A → Bool
is_some none = false
is_some (some a) = true

-- A side of `_compact_entry_for_detail`: a preview goes where there is the full text.
abbrev compact_body : BodyContent → BodyContent
compact_body body =
    if is_some body.full_text && is_some body.preview_text
    then record body { preview_text = none; preview_truncated = false }
    else body

-- `_compact_entry_for_detail`
unfoldable pub compact_entry_for_detail : TrafficEntry → TrafficEntry
compact_entry_for_detail entry = record entry {
  request = record (entry.request) { body = compact_body entry.request.body };
  response = record (entry.response) { body = compact_body entry.response.body };
}

-- `build_detail`
unfoldable pub build_detail : TrafficEntry → TrafficDetail
unfolding compact_entry_for_detail
build_detail original =
    let entry = compact_entry_for_detail original in
    record {
      entry = entry;
      raw_body_included =
          is_some entry.request.body.full_text || is_some entry.response.body.full_text;
      body_truncated =
          entry.request.body.full_text_truncated || entry.response.body.full_text_truncated
          || entry.request.body.preview_truncated || entry.response.body.preview_truncated;
      warnings = [];
    }

-- `build_stats`
abbrev pub build_stats :
    CaptureSource
    → TrafficPreset
    → ℕ
    → ℕ
    → Dict ResourceClass ℕ
    → List Text
    → CaptureAnalysisStatsResult
build_stats source preset total_items scanned_count classified_counts warnings = record {
  source = source;
  total_items = total_items;
  scanned_count = scanned_count;
  classified_counts = classified_counts;
  preset = preset;
  warnings = warnings;
}
