-- ===== src/Traffic/Query.antt =====
-- The calls of charles_mcp/services/traffic_query_orchestrator.py and of its facade
-- traffic_query_service.py, over the services that read live captures and recordings.
pub mod Detail
pub mod Pages
use charles_mcp.Prelude.{
  ℕ, ◌≡◌, Bool, true, false, not, ◌&&◌, ◌||◌, Option, none, some, List, [], ◌∷◌, map, length, take,
  ltb, if◌then◌else◌,
}
use Prim.Native.Nat.{compare, Ordering}
use charles_mcp.Prelude.Text.{Text, codes}
use charles_mcp.Prelude.Int.{ℤ, pos}
use charles_mcp.Prelude.Order.{then_by, compare_text, compare_bool}
use charles_mcp.Prelude.Sort.{sort}
use charles_mcp.Prelude.Dict.{Dict}
use charles_mcp.Prelude.Outcome.{ok, raise}
use charles_mcp.Json.{Value, end}
use charles_mcp.LiveState.Entries.{Platform, component}
use charles_mcp.Traffic.Raw.{Fault, Result, missing_capture_id, file_not_found}
use charles_mcp.Traffic.Schema.{
  CaptureSource, ResourceClass, live, history, TrafficEntry, TrafficMatch, TrafficQuery,
  TrafficPreset, plain_query, given, or_empty,
}
use charles_mcp.Traffic.Schema.Results.{
  PreparedTrafficEntries, TrafficQueryResult, TrafficSummary, CaptureAnalysisStatsResult,
}
use charles_mcp.Traffic.Match.{has_error_signal}
use charles_mcp.Traffic.Match.Views.{summarize_entry, build_stats}
use charles_mcp.Traffic.Cache.{get_classified_counts}
use charles_mcp.Traffic.Prepare.{Times, Load, prepare_entries}
use charles_mcp.Traffic.Prepare.State.{Runtime, Orchestrator}

-- `LiveCaptureReadResult` as far as the queries use it.
pub record LiveRead : Type 0 where
  pub items : List Value
  pub next_cursor : ℕ
  pub total_new_items : ℕ
  pub truncated : Bool
  pub warnings : List Text

-- The services that the orchestrator reads from: `read` with its cursor, limit and `advance`,
-- `get_snapshot`, and `load_latest_with_path`.
pub record Services : Type 0 where
  pub read : Text → ℤ → ℕ → Bool → Result LiveRead
  pub get_snapshot : Text → Result (List Value)
  pub load_latest_with_path : Result (Text × List Value)

-- A call that returns or raises, with the orchestrator it leaves.
abbrev pub Call : Type 0 → Type 0
Call A = Orchestrator × Result A

-- The rest of a call after another service returned.
abbrev pub after_service : {A B : Type 0} → Result A → Orchestrator → (A → Call B) → Call B
after_service (raise fault) o next = (o, raise fault)
after_service (ok a) o next = next a

abbrev pub after_call : {A B : Type 0} → Call A → (A → Orchestrator → Call B) → Call B
after_call (o, raise fault) next = (o, raise fault)
after_call (o, ok a) next = next a o

-- The arguments of `prepare_capture` by name.
pub record Capture : Type 0 where
  pub source : CaptureSource
  pub capture_id : Option Text
  pub recording_path : Option Text
  pub cursor : Option ℤ
  pub advance : Bool
  pub read_limit : Option ℕ

abbrev pub live_load : Text → LiveRead → Load
live_load capture_id result = record {
  source = live;
  raw_entries = result.items;
  capture_id = some capture_id;
  recording_path = none;
  next_cursor = some result.next_cursor;
  total_items = some result.total_new_items;
  already_truncated = result.truncated;
  initial_warnings = result.warnings;
}

abbrev pub history_load : Text → List Value → Load
history_load path raw_entries = record {
  source = history;
  raw_entries = raw_entries;
  capture_id = none;
  recording_path = some path;
  next_cursor = none;
  total_items = none;
  already_truncated = false;
  initial_warnings = [];
}

abbrev or_start : Option ℤ → ℤ
or_start none = pos 0
or_start (some cursor) = cursor

-- `read_limit or query.scan_limit`
abbrev limit_or : Option ℕ → ℕ → ℕ
limit_or none scan_limit = scan_limit
limit_or (some limit) scan_limit = if ltb 0 limit then limit else scan_limit

module _ (rt : Runtime) (sv : Services) where
  -- `_load_history_entries`
  unfoldable pub load_history_entries : Option Text → Result (Text × List Value)
  load_history_entries recording_path =
      if given recording_path
      then elim (sv.get_snapshot (or_empty recording_path)) [
        | raise fault ↦ raise fault
        | ok raw_entries ↦ ok (or_empty recording_path, raw_entries)
      ]
      else sv.load_latest_with_path

  prepare_live : Times → TrafficQuery → Capture → Orchestrator → Call PreparedTrafficEntries
  unfolding prepare_entries
  prepare_live times query capture o =
      if given capture.capture_id
      then (let capture_id = or_empty capture.capture_id in
          after_service
            (sv.read capture_id (or_start capture.cursor)
              (limit_or capture.read_limit query.scan_limit) capture.advance)
            o (λ result. prepare_entries rt times query (live_load capture_id result) o))
      else (o, raise missing_capture_id)

  -- `prepare_capture`
  unfoldable pub prepare_capture :
      Times → TrafficQuery → Capture → Orchestrator → Call PreparedTrafficEntries
  unfolding prepare_live load_history_entries prepare_entries
  prepare_capture times query capture o = elim capture.source [
    | live ↦ prepare_live times query capture o
    | history ↦
        after_service (load_history_entries capture.recording_path) o
          (λ loaded. prepare_entries rt times query (history_load loaded.0 loaded.1) o)
  ]

  -- `_summary_sort_key` under `reverse=True`: descending, and stable.
  abbrev pub summary_order : TrafficEntry × TrafficMatch → TrafficEntry × TrafficMatch → Ordering
  summary_order a b = then_by (compare b.0.priority_score a.0.priority_score) (
      then_by (compare_bool (has_error_signal b.0) (has_error_signal a.0)) (
        compare_text (component rt.platform (codes "start") b.0.times)
          (component rt.platform (codes "start") a.0.times)))

  abbrev pub summary_of : TrafficQuery → TrafficEntry × TrafficMatch → TrafficSummary
  summary_of query item =
      summarize_entry item.0 item.1 query.max_headers_per_side query.include_body_preview

  -- `build_query_result`
  unfoldable pub build_query_result :
      PreparedTrafficEntries → TrafficQuery → Bool → TrafficQueryResult
  unfolding sort component compare_text summarize_entry
  build_query_result prepared query include_items =
      let matched = sort summary_order prepared.matched_entries in
      record {
        source = prepared.source;
        items = if include_items then map (summary_of query) (take query.max_items matched) else [];
        total_items = prepared.total_items;
        scanned_count = prepared.scanned_count;
        matched_count = prepared.matched_count;
        filtered_out_count = prepared.filtered_out_count;
        filtered_out_by_class = prepared.filtered_out_by_class;
        next_cursor = prepared.next_cursor;
        truncated = prepared.truncated || (include_items && ltb query.max_items (length matched));
        warnings = prepared.warnings;
      }

  abbrev with_items : TrafficQuery → PreparedTrafficEntries → Orchestrator → Call TrafficQueryResult
  with_items query prepared o = (o, ok (build_query_result prepared query true))

  -- `analyze_live_capture`
  unfoldable pub analyze_live_capture :
      Times → Text → TrafficQuery → Option ℤ → Orchestrator → Call TrafficQueryResult
  unfolding prepare_capture build_query_result
  analyze_live_capture times capture_id query cursor o =
      after_call
        (prepare_capture times query
          (record {
            source = live;
            capture_id = some capture_id;
            recording_path = none;
            cursor = cursor;
            advance = false;
            read_limit = some query.scan_limit;
          })
          o)
        (with_items query)

  -- The result without a recording.
  abbrev pub no_recordings : TrafficQueryResult
  no_recordings = record {
    source = history;
    items = [];
    total_items = 0;
    scanned_count = 0;
    matched_count = 0;
    filtered_out_count = 0;
    filtered_out_by_class = [];
    next_cursor = none;
    truncated = false;
    warnings = codes "no_saved_recordings" ∷ [];
  }

  -- `except FileNotFoundError`
  abbrev pub unless_missing : TrafficQuery → Call PreparedTrafficEntries → Call TrafficQueryResult
  unless_missing query (o, raise file_not_found) = (o, ok no_recordings)
  unless_missing query (o, raise fault) = (o, raise fault)
  unless_missing query (o, ok prepared) = with_items query prepared o

  -- `analyze_recorded_traffic`
  unfoldable pub analyze_recorded_traffic :
      Times → Option Text → TrafficQuery → Orchestrator → Call TrafficQueryResult
  unfolding prepare_capture build_query_result
  analyze_recorded_traffic times recording_path query o = unless_missing query (
      prepare_capture times query
        (record {
          source = history;
          capture_id = none;
          recording_path = recording_path;
          cursor = none;
          advance = false;
          read_limit = none;
        })
        o)

  abbrev stats_of :
      CaptureSource
      → TrafficPreset
      → PreparedTrafficEntries
      → Dict ResourceClass ℕ
      → CaptureAnalysisStatsResult
  stats_of source preset prepared counts =
      build_stats source preset prepared.total_items prepared.scanned_count counts prepared.warnings

  -- `build_result` of charles_mcp/services/traffic_stats_service.py.
  unfoldable pub stats_result :
      ℕ
      → CaptureSource
      → TrafficPreset
      → PreparedTrafficEntries
      → Orchestrator
      → Call CaptureAnalysisStatsResult
  unfolding get_classified_counts
  stats_result now source preset prepared o =
      let (counts, cache) =
        get_classified_counts now source (or_empty prepared.identity) o.entry_cache in
      if given prepared.identity
      then (record o { entry_cache = cache }, ok (stats_of source preset prepared counts))
      else (o, ok (stats_of source preset prepared []))

  -- `get_stats`: `later` is the reading of the clock after the entries are prepared.
  unfoldable pub get_stats :
      Times → ℕ → Capture → TrafficPreset → ℕ → Orchestrator → Call CaptureAnalysisStatsResult
  unfolding prepare_capture stats_result
  get_stats times later capture preset scan_limit o =
      after_call (prepare_capture times (plain_query preset 1 scan_limit) capture o)
        (λ prepared next. stats_result later capture.source preset prepared next)
