-- ===== src/Traffic/Query/Detail.antt =====
-- `get_detail` of charles_mcp/services/traffic_query_orchestrator.py. The clocks are read before
-- each step: `clock i` are the readings of the i-th.
use charles_mcp.Prelude.{
  ℕ, Bool, true, false, Option, none, some, List, [], ◌∷◌, ◌++◌, length, ltb, min, ◌==◌,
  if◌then◌else◌,
}
use charles_mcp.Prelude.Text.{Text, text_eq, codes}
use charles_mcp.Prelude.Number.{str_nat}
use charles_mcp.Prelude.Int.{pos}
use charles_mcp.Prelude.Outcome.{ok, raise, ◌>>=◌}
use charles_mcp.Json.{Value, Fields, obj}
use charles_mcp.Traffic.Raw.{Result, missing_capture_id, missing_recording_path, entry_not_found}
use charles_mcp.Traffic.Schema.{
  CaptureSource, live, history, TrafficEntry, all_http, plain_query, given, or_empty,
}
use charles_mcp.Traffic.Schema.Results.{PreparedTrafficEntries, TrafficDetailResult}
use charles_mcp.Traffic.Classify.{classify_entry}
use charles_mcp.Traffic.Normalize.{normalize_entry}
use charles_mcp.Traffic.Match.Views.{build_detail}
use charles_mcp.Traffic.Cache.{TrafficCacheKey, summary_body_mode, get_entry, resolve_identity, put}
use charles_mcp.Traffic.Prepare.{Times, Load, prepare_entries}
use charles_mcp.Traffic.Prepare.State.{Runtime, Orchestrator}
use charles_mcp.Traffic.Query.{
  Services, LiveRead, Call, after_service, after_call, history_load, live_load,
}

-- The arguments of `get_detail` by name.
pub record Wanted : Type 0 where
  pub source : CaptureSource
  pub entry_id : Text
  pub capture_id : Option Text
  pub recording_path : Option Text
  pub include_full_body : Bool
  pub max_body_chars : ℕ

-- `_body_mode`
unfoldable pub body_mode : Bool → ℕ → Text
body_mode include_full_body max_body_chars =
    if include_full_body then codes "full:" ++ str_nat max_body_chars else summary_body_mode

abbrev or_missing : Option Text → Result Text
or_missing none = raise missing_recording_path
or_missing (some identity) = ok identity

-- `_resolve_identity`
unfoldable pub resolve : ℕ → Wanted → Orchestrator → Call Text
unfolding resolve_identity
resolve now wanted o =
    let (resolved, cache) = resolve_identity now wanted.source wanted.entry_id o.entry_cache in
    elim wanted.source [
      | live ↦ (
        o,
        if given wanted.capture_id
            then ok (or_empty wanted.capture_id)
            else raise missing_capture_id,
      )
      | history ↦
          if given wanted.recording_path
          then (o, ok (or_empty wanted.recording_path))
          else (record o { entry_cache = cache }, or_missing resolved)
    ]

abbrev key_in : Wanted → Text → Text → TrafficCacheKey
key_in wanted identity mode = record {
  source = wanted.source;
  identity = identity;
  body_mode = mode;
}

-- `self.entry_cache.get_entry(...)`
unfoldable pub look_up :
    ℕ → Wanted → Text → Text → Orchestrator → Option TrafficEntry × Orchestrator
unfolding get_entry
look_up now wanted identity mode o =
    let (entry, cache) =
      get_entry now (key_in wanted identity mode) wanted.entry_id o.entry_cache in
    (entry, record o { entry_cache = cache })

-- The warning of a large response.
unfoldable pub detail_warnings : ℕ → List Text
detail_warnings estimated_chars =
    if ltb 12000 estimated_chars
    then (codes "large_response:"
        ++ str_nat estimated_chars
        ++ codes "_chars. Consider using a smaller max_body_chars or include_full_body=false.")
      ∷ []
    else []

module _ (rt : Runtime) (sv : Services) where
  -- The summary scope of a live capture is loaded without its total.
  abbrev summary_load : Text → LiveRead → Load
  summary_load identity result = record (live_load identity result) {
    total_items = none;
    already_truncated = false;
  }

  abbrev raw_of : CaptureSource → Text → Result (List Value)
  raw_of history identity = sv.get_snapshot identity
  raw_of live identity = elim (sv.read identity (pos 0) 500 false) [
    | raise fault ↦ raise fault
    | ok result ↦ ok result.items
  ]

  -- `cache_summary_scope`
  unfoldable pub cache_summary_scope :
      Times → CaptureSource → Text → Orchestrator → Call PreparedTrafficEntries
  unfolding prepare_entries
  cache_summary_scope times history identity o =
      after_service (sv.get_snapshot identity) o (λ raw_entries.
        prepare_entries rt times (plain_query all_http 200 2000) (history_load identity raw_entries)
          o)
  cache_summary_scope times live identity o =
      after_service (sv.read identity (pos 0) 500 false) o (λ result.
        prepare_entries rt times (plain_query all_http 200 2000) (summary_load identity result) o)

  abbrev capture_of : CaptureSource → Text → Option Text
  capture_of live identity = some identity
  capture_of history identity = none

  abbrev recording_of : CaptureSource → Text → Option Text
  recording_of live identity = none
  recording_of history identity = some identity

  hydrate_one : Wanted → Text → Fields → Result TrafficEntry
  unfolding classify_entry normalize_entry
  hydrate_one wanted identity raw = do
    classification ← classify_entry rt.platform rt.tables raw
    normalize_entry rt.platform rt.tables rt.codecs rt.pydantic
        (record {
          capture_source = wanted.source;
          capture_id = capture_of wanted.source identity;
          recording_path = recording_of wanted.source identity;
          limits = record {
            include_full_body = true;
            max_preview_chars = min wanted.max_body_chars 1024;
            max_full_body_chars = wanted.max_body_chars;
          };
          max_headers_per_side = 16;
        })
        (some classification) raw

  abbrev if_wanted :
      Wanted → Result (Option TrafficEntry) → TrafficEntry → Result (Option TrafficEntry)
  if_wanted wanted rest entry = if entry.entry_id == wanted.entry_id then ok (some entry) else rest

  -- The loop of `_hydrate_and_cache_entry`, to the entry it stops at.
  unfoldable pub find_hydrated : Wanted → Text → List Value → Result (Option TrafficEntry)
  unfolding hydrate_one
  find_hydrated wanted identity [] = ok none
  find_hydrated wanted identity (obj raw ∷ raws) =
      let rest = find_hydrated wanted identity raws in
      (do entry ← hydrate_one wanted identity raw; if_wanted wanted rest entry)
  find_hydrated wanted identity (_ ∷ raws) = find_hydrated wanted identity raws

  abbrev store_hydrated :
      Times → Wanted → Text → Option TrafficEntry → Orchestrator → Call (Option TrafficEntry)
  store_hydrated times wanted identity none o = (o, ok none)
  store_hydrated times wanted identity (some entry) o = (
    record o {
      entry_cache =
          put times.now times.stamp (key_in wanted identity (body_mode true wanted.max_body_chars))
            ((wanted.entry_id, entry) ∷ []) [] o.entry_cache;
    },
    ok (some entry),
  )

  -- `_hydrate_and_cache_entry`
  unfoldable pub hydrate_and_cache_entry :
      Times → Wanted → Text → Orchestrator → Call (Option TrafficEntry)
  unfolding find_hydrated put body_mode
  hydrate_and_cache_entry times wanted identity o =
      after_service (raw_of wanted.source identity) o (λ raws.
        after_service (find_hydrated wanted identity raws) o
          (λ found. store_hydrated times wanted identity found o))

  -- The entry that the first steps of `get_detail` find, in the cache or hydrated.
  unfoldable pub first_entry :
      (ℕ → Times) → Wanted → Text → Orchestrator → Call (Option TrafficEntry)
  unfolding look_up hydrate_and_cache_entry body_mode
  first_entry clock wanted identity o =
      let mode = body_mode wanted.include_full_body wanted.max_body_chars in
      let (entry, next) = look_up (clock 1).now wanted identity mode o in
      elim entry [
        | some found ↦ (next, ok (some found))
        | none ↦
            if mode == summary_body_mode
            then (next, ok none)
            else hydrate_and_cache_entry (clock 2) wanted identity next
      ]

  abbrev summary_entry :
      (ℕ → Times) → Wanted → Text → Option TrafficEntry → Orchestrator → Call (Option TrafficEntry)
  summary_entry clock wanted identity (some entry) o = (o, ok (some entry))
  summary_entry clock wanted identity none o =
      after_call (cache_summary_scope (clock 3) wanted.source identity o) (λ prepared next.
        let (entry, last) = look_up (clock 4).now wanted identity summary_body_mode next in
        (last, ok entry))

  abbrev detail_result : Wanted → Text → Option TrafficEntry → Result TrafficDetailResult
  detail_result wanted identity none = raise (entry_not_found wanted.entry_id identity)
  detail_result wanted identity (some entry) =
      let detail = build_detail entry in
      ok (record {
        source = wanted.source;
        entry_id = wanted.entry_id;
        detail = detail;
        warnings = detail_warnings (length (rt.detail_json detail));
      })

  -- `get_detail`
  unfoldable pub get_detail : (ℕ → Times) → Wanted → Orchestrator → Call TrafficDetailResult
  unfolding resolve first_entry cache_summary_scope look_up build_detail detail_warnings
  get_detail clock wanted o = after_call (resolve (clock 0).now wanted o) (λ identity o1.
      after_call (first_entry clock wanted identity o1) (λ found o2.
        after_call (summary_entry clock wanted identity found o2)
          (λ entry o3. (o3, detail_result wanted identity entry))))
