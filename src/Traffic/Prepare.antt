-- ===== src/Traffic/Prepare.antt =====
-- `_prepare_entries` of charles_mcp/services/traffic_query_orchestrator.py with its helpers. The
-- caches that Python changes in place are the state, which stays changed where an entry raises.
pub mod State
pub mod Scan
pub mod Counted
pub mod Counts
pub mod Rounds
pub mod Transparent
use charles_mcp.Prelude.{
  ℕ, zero, suc, ◌+◌, ◌*◌, ◌≡◌, refl, Bool, true, false, not, ◌&&◌, ◌||◌, Option, none, some, List,
  [], ◌∷◌, ◌++◌, length, take, ltb, max, filter, contains, ◌==◌, nat_eq, pair_eq, if◌then◌else◌,
}
use charles_mcp.Prelude.Text.{Text, text_eq, codes}
use charles_mcp.Prelude.Int.{ℤ, pos, ◌+ℤ◌}
use charles_mcp.Prelude.Order.{at_most, compare_int}
use charles_mcp.Prelude.Dict.{Dict, lookup, insert, values}
use charles_mcp.Prelude.Outcome.{ok, raise, ◌>>=◌}
use charles_mcp.Json.{Value, Fields, obj, str, get_field}
use charles_mcp.Traffic.Raw.{Fault, Result}
use charles_mcp.Traffic.Schema.{
  CaptureSource, live, history, ResourceClass, source_eq, class_eq, TrafficEntry, TrafficMatch,
  TrafficQuery, errors_only, given, TrafficPreset,
}
use charles_mcp.Traffic.Schema.Results.{PreparedTrafficEntries}
use charles_mcp.Traffic.Cache.{put, summary_key}
use charles_mcp.Traffic.Prepare.Scan.{scan_entries}
use charles_mcp.Traffic.Prepare.State.{
  Runtime, Orchestrator, ScanPass, ScopeCache, ScopeKey, start_pass, bool_eq, total,
}

-- The readings of the clocks in one call: `monotonic()` at the eviction and at the stamp, and the
-- date, in microseconds.
pub record Times : Type 0 where
  pub now : ℕ
  pub stamp : ℕ
  pub moment : ℤ

-- The arguments of `_prepare_entries` by name.
pub record Load : Type 0 where
  pub source : CaptureSource
  pub raw_entries : List Value
  pub capture_id : Option Text
  pub recording_path : Option Text
  pub next_cursor : Option ℕ
  pub total_items : Option ℕ
  pub already_truncated : Bool
  pub initial_warnings : List Text

-- `value.replace("Z", "+00:00")`
abbrev utc_offset : Text → Text
utc_offset [] = []
utc_offset (c ∷ cs) = if c == b'Z' then codes "+00:00" ++ utc_offset cs else c ∷ utc_offset cs

-- `times.start` of an entry, where it is a text that is not empty.
abbrev start_text : Option Value → Option Text
start_text (some (str (c ∷ cs))) = some (c ∷ cs)
start_text _ = none

abbrev start_of : Fields → Option Text
start_of raw = elim (get_field (codes "times") raw) [
  | none ↦ none
  | some v ↦ elim v [ obj times ↦ start_text (get_field (codes "start") times) | _ ↦ none ]
]

abbrev is_recent : Option ℤ → ℤ → ℕ → Bool
is_recent none moment since_seconds = true
is_recent (some t) moment since_seconds =
    at_most (compare_int moment (t +ℤ pos (since_seconds * 1000000)))

module _ (rt : Runtime) where
  -- What `_filter_by_since_seconds` keeps.
  unfoldable pub is_kept : ℤ → ℕ → Value → Bool
  unfolding get_field
  is_kept moment since_seconds (obj raw) = elim (start_of raw) [
    | none ↦ true
    | some start ↦ is_recent (rt.timestamp_of (utc_offset start)) moment since_seconds
  ]
  is_kept moment since_seconds _ = false

  -- `_filter_by_since_seconds`
  abbrev pub filter_by_since_seconds : ℤ → ℕ → List Value → List Value
  filter_by_since_seconds moment since_seconds raw_entries =
      filter (is_kept moment since_seconds) raw_entries

  abbrev or_length : Option ℕ → List Value → ℕ
  or_length none raw_entries = length raw_entries
  or_length (some total) raw_entries = total

  -- The entries to scan, and whether there were more.
  unfoldable pub window : ℤ → TrafficQuery → Load → List Value × Bool
  unfolding is_kept
  window moment query load = elim query.since_seconds [
    | none ↦ (
      take query.scan_limit load.raw_entries,
      load.already_truncated || ltb query.scan_limit (or_length load.total_items load.raw_entries),
    )
    | some seconds ↦
        let recent = filter_by_since_seconds moment seconds load.raw_entries in
        (
          take query.scan_limit recent,
          load.already_truncated || ltb query.scan_limit (length recent),
        )
  ]

  abbrev is_errors_only : TrafficPreset → Bool
  is_errors_only errors_only = true
  is_errors_only _ = false

  abbrev unset : Option Bool → Bool
  unset none = true
  unset (some b) = false

  -- `effective_query`
  unfoldable pub effective : TrafficQuery → TrafficQuery
  effective query =
      if is_errors_only query.preset && unset query.has_error
      then record query { has_error = some true }
      else query

  abbrev pub identity_of : Load → Option Text
  identity_of load = elim load.source [ live ↦ load.capture_id | history ↦ load.recording_path ]

  -- `_normalize_scope_key`
  unfoldable pub normalize_scope_key : CaptureSource → Option Text → Bool → ℕ → ℕ → Option ScopeKey
  normalize_scope_key source none needs max_preview_chars max_headers = none
  normalize_scope_key source (some []) needs max_preview_chars max_headers = none
  normalize_scope_key source (some (c ∷ cs)) needs max_preview_chars max_headers =
      some (source, (c ∷ cs, (needs, (max_preview_chars, max_headers))))

  -- `scope_cache`: the scope that `setdefault` returns.
  abbrev pub scope_of : Option ScopeKey → Dict ScopeKey ScopeCache → Option ScopeCache
  scope_of none caches = none
  scope_of (some key) caches = elim (lookup key caches) [ none ↦ some [] | some scope ↦ some scope ]

  -- The scope is one object with the one in the cache, so it is stored back.
  abbrev pub store_back :
      Option ScopeKey → Option ScopeCache → Dict ScopeKey ScopeCache → Dict ScopeKey ScopeCache
  store_back (some key) (some scope) caches = insert key scope caches
  store_back _ _ caches = caches

  -- The removal of the stale hashes.
  abbrev pub keep_seen : List Text → ScopeCache → ScopeCache
  keep_seen seen scope = filter (λ item. contains seen item.0) scope

  abbrev pub keep_seen_in : List Text → Option ScopeCache → Option ScopeCache
  keep_seen_in seen none = none
  keep_seen_in seen (some scope) = some (keep_seen seen scope)

  -- `entry_cache.put` under `if identity`.
  abbrev pub put_summary : Times → Load → ScanPass → Orchestrator → Orchestrator
  put_summary times load pass o = elim (identity_of load) [
    | none ↦ o
    | some identity ↦
        if given (some identity)
        then record o {
          entry_cache =
              put times.now times.stamp (summary_key load.source identity) pass.detail_entries
                pass.classified_counts o.entry_cache;
        }
        else o
  ]

  -- `PreparedTrafficEntries(...)`
  abbrev pub prepared_of :
      TrafficQuery → Load → List Value × Bool → ScanPass → PreparedTrafficEntries
  prepared_of query load (scanned, truncated) pass = record {
    source = load.source;
    identity = identity_of load;
    total_items = or_length load.total_items load.raw_entries;
    scanned_count = length scanned;
    matched_count = length pass.matched_entries;
    filtered_out_count = total (values pass.filtered_out_by_class);
    filtered_out_by_class = pass.filtered_out_by_class;
    matched_entries = pass.matched_entries;
    next_cursor = load.next_cursor;
    truncated = truncated;
    warnings = load.initial_warnings ++ (if truncated then codes "scan_limit_reached" ∷ [] else []);
  }

  -- After the loop: with its fault the caches stay as the loop left them.
  abbrev pub finish :
      Times
      → TrafficQuery
      → Load
      → Option ScopeKey
      → List Value × Bool
      → Option Fault
      → ScanPass
      → Orchestrator
      → Orchestrator × Result PreparedTrafficEntries
  finish times query load key scanned (some fault) pass o = (
    record o {
      normalize_cache = store_back key pass.scope_cache o.normalize_cache;
      hits = o.hits + pass.hits;
      misses = o.misses + pass.misses;
    },
    raise fault,
  )
  finish times query load key scanned none pass o = (
    put_summary times load pass (record o {
      normalize_cache = store_back key (keep_seen_in pass.seen pass.scope_cache) o.normalize_cache;
      hits = o.hits + pass.hits;
      misses = o.misses + pass.misses;
    }),
    ok (prepared_of query load scanned pass),
  )

  unfoldable pub needs_body_search : TrafficQuery → Bool
  needs_body_search query = given query.request_body_contains || given query.response_body_contains

  -- `_prepare_entries`
  unfoldable pub prepare_entries :
      Times → TrafficQuery → Load → Orchestrator → Orchestrator × Result PreparedTrafficEntries
  unfolding window effective normalize_scope_key needs_body_search scan_entries lookup insert put
  prepare_entries times query load o =
      let scanned = window times.moment query load in
      let asked = effective query in
      let needs = needs_body_search asked in
      let key =
        normalize_scope_key load.source (identity_of load) needs asked.max_preview_chars
          asked.max_headers_per_side in
      let (fault, pass) =
        scan_entries rt load.source load.capture_id load.recording_path asked needs scanned.0
          (start_pass (scope_of key o.normalize_cache)) in
      finish times query load key scanned fault pass o
