-- ===== src/Traffic/Prepare/Counts.antt =====
-- The counts that a prepared result reports.
use charles_mcp.Prelude.{
  ◌+◌, ◌≤◌, ◌≡◌, refl, subst, Bool, Option, none, some, List, [], ◌∷◌, length, Option-cases, inl,
  inr, arith, length-take,
}
use charles_mcp.Prelude.Text.{text_eq}
use charles_mcp.Traffic.Schema.{TrafficQuery, class_eq}
use charles_mcp.Prelude.Outcome.{ok, same_value}
use charles_mcp.Json.{Value, obj, null, bool, int, float, str, arr}
use charles_mcp.Traffic.Raw.{Fault}
use charles_mcp.Prelude.Int.{ℤ}
use charles_mcp.Traffic.Schema.Results.{PreparedTrafficEntries}
use charles_mcp.Traffic.Prepare.{
  Times, Load, window, filter_by_since_seconds, finish, effective, normalize_scope_key, scope_of,
  identity_of, needs_body_search, prepare_entries,
}
use charles_mcp.Traffic.Prepare.Scan.{scan_entries}
use charles_mcp.Traffic.Prepare.State.{Runtime, Orchestrator, start_pass, ScopeKey, ScanPass}
use charles_mcp.Traffic.Prepare.Counted.{dicts, scan_entries-Counted}

dicts-length : (raws : List Value) → dicts raws ≤ length raws
dicts-length [] = omega arith
dicts-length (obj raw ∷ raws) = omega (arith, dicts-length raws)
dicts-length (null ∷ raws) = omega (arith, dicts-length raws)
dicts-length (bool b ∷ raws) = omega (arith, dicts-length raws)
dicts-length (int n ∷ raws) = omega (arith, dicts-length raws)
dicts-length (float t ∷ raws) = omega (arith, dicts-length raws)
dicts-length (str t ∷ raws) = omega (arith, dicts-length raws)
dicts-length (arr xs ∷ raws) = omega (arith, dicts-length raws)

scan_limit-window :
    (rt : Runtime) (moment : ℤ) (query : TrafficQuery) (load : Load)
    → length (window rt moment query load).0 ≤ query.scan_limit
unfolding window
scan_limit-window rt moment query load = elim (Option-cases query.since_seconds) [
  | inl always ↦ rw (always, window) (omega (arith, length-take query.scan_limit load.raw_entries))
  | inr (seconds, since) ↦
      rw (since, window)
        (omega (
          arith,
          length-take query.scan_limit (filter_by_since_seconds rt moment seconds load.raw_entries),
        ))
]

-- Entries that are prepared without a fault: no more are scanned than the limit says, and the
-- matched and the filtered ones together are at most as many as were scanned.
pub prepare_entries-counts :
    (rt : Runtime) (times : Times) (query : TrafficQuery) (load : Load) (o : Orchestrator)
    (prepared : PreparedTrafficEntries)
    → (prepare_entries rt times query load o).1 ≡ ok prepared
    → (prepared.scanned_count ≤ query.scan_limit)
      × (prepared.matched_count + prepared.filtered_out_count ≤ prepared.scanned_count)
      × (prepared.matched_count ≡ length prepared.matched_entries)
unfolding prepare_entries
prepare_entries-counts rt times query load o prepared e = by_scan (scan scanned.0 start) refl e
  where
    scanned : List Value × Bool
    scanned = window rt times.moment query load

    key : Option ScopeKey
    key =
        normalize_scope_key rt load.source (identity_of rt load)
          (needs_body_search rt (effective rt query)) (effective rt query).max_preview_chars
          (effective rt query).max_headers_per_side

    start : ScanPass
    start = start_pass (scope_of rt key o.normalize_cache)

    scan : List Value → ScanPass → Option Fault × ScanPass
    scan =
        scan_entries rt load.source load.capture_id load.recording_path (effective rt query)
          (needs_body_search rt (effective rt query))

    by_scan :
        (s : Option Fault × ScanPass)
        → scan scanned.0 start ≡ s
        → (finish rt times query load key scanned s.0 s.1 o).1 ≡ ok prepared
        → (prepared.scanned_count ≤ query.scan_limit)
          × (prepared.matched_count + prepared.filtered_out_count ≤ prepared.scanned_count)
          × (prepared.matched_count ≡ length prepared.matched_entries)
    by_scan (some f, pass) done e = cc
    by_scan (none, pass) done e =
        let counted =
          scan_entries-Counted rt load.source load.capture_id load.recording_path
            (effective rt query) (needs_body_search rt (effective rt query)) scanned.0 start pass
            done in
        subst
          (λ p.
            (p.scanned_count ≤ query.scan_limit)
            × (p.matched_count + p.filtered_out_count ≤ p.scanned_count)
            × (p.matched_count ≡ length p.matched_entries))
          (same_value e)
          (
            scan_limit-window rt times.moment query load,
            omega (arith, counted.at_most_matched, dicts-length scanned.0),
            refl,
          )
