-- ===== src/Traffic/Query/Pages.antt =====
-- What the lists of summaries say of the matched entries.
use charles_mcp.Prelude.{
  ℕ, ◌≤◌, ◌≡◌, ◌≢◌, ap, ◌∙◌, Bool, true, false, ◌||◌, ◌&&◌, Option, none, length, take, ltb, arith,
  take-all, length-map, length-take,
}
use charles_mcp.Prelude.Text.{Text}
use charles_mcp.Prelude.Sort.{sort, length-sort}
use charles_mcp.Prelude.Outcome.{ok, raise}
use charles_mcp.Traffic.Raw.{
  live_error, type_error, validation_error, query_error, file_not_found, missing_capture_id,
  missing_recording_path, entry_not_found,
}
use charles_mcp.Traffic.Schema.{TrafficQuery, history}
use charles_mcp.Traffic.Schema.Results.{PreparedTrafficEntries}
use charles_mcp.Traffic.Prepare.{Times}
use charles_mcp.Traffic.Prepare.State.{Runtime, Orchestrator}
use charles_mcp.Traffic.Query.{
  Services, Call, prepare_capture, summary_order, build_query_result, summary_of,
  analyze_recorded_traffic, unless_missing,
}

-- A page of results has at most `max_items` summaries; and when it is not marked as truncated it
-- has one for every matched entry.
pub build_query_result_complete :
    (rt : Runtime) (sv : Services) (prepared : PreparedTrafficEntries) (query : TrafficQuery)
    → (length (build_query_result rt sv prepared query true).items ≤ query.max_items)
      × ((build_query_result rt sv prepared query true).truncated ≡ false
          → length (build_query_result rt sv prepared query true).items
            ≡ length prepared.matched_entries)
unfolding build_query_result
build_query_result_complete rt sv prepared query =
    let ordered = sort (summary_order rt sv) prepared.matched_entries in
    (
      omega (
        arith,
        length-map (summary_of rt sv query) (take query.max_items ordered),
        length-take query.max_items ordered,
      ),
      λ whole.
          length-map (summary_of rt sv query) (take query.max_items ordered)
          ∙ ap length (
              take-all ordered query.max_items
                (fits prepared.truncated (length ordered) query.max_items whole))
          ∙ length-sort (summary_order rt sv) prepared.matched_entries,
    )
  where
    fits : (t : Bool) (n m : ℕ) → (t || (true && ltb m n)) ≡ false → n ≤ m
    fits t n m whole = ground arith

unless_missing-found :
    (rt : Runtime) (sv : Services) (query : TrafficQuery) (call : Call PreparedTrafficEntries)
    → (unless_missing rt sv query call).1 ≢ raise file_not_found
unless_missing-found rt sv query (o, ok prepared) e = cc
unless_missing-found rt sv query (o, raise file_not_found) e = cc
unless_missing-found rt sv query (o, raise (live_error f)) e = cc
unless_missing-found rt sv query (o, raise type_error) e = cc
unless_missing-found rt sv query (o, raise validation_error) e = cc
unless_missing-found rt sv query (o, raise query_error) e = cc
unless_missing-found rt sv query (o, raise missing_capture_id) e = cc
unless_missing-found rt sv query (o, raise missing_recording_path) e = cc
unless_missing-found rt sv query (o, raise (entry_not_found i j)) e = cc

-- The analysis of recordings never ends for a recording that is missing: it returns no items and
-- a warning instead.
pub analyze_recorded_traffic-found :
    (rt : Runtime) (sv : Services) (times : Times) (path : Option Text) (query : TrafficQuery)
    (o : Orchestrator)
    → (analyze_recorded_traffic rt sv times path query o).1 ≢ raise file_not_found
unfolding analyze_recorded_traffic
analyze_recorded_traffic-found rt sv times path query o = unless_missing-found rt sv query (
    prepare_capture rt sv times query
      (record {
        source = history;
        capture_id = none;
        recording_path = path;
        cursor = none;
        advance = false;
        read_limit = none;
      })
      o)
