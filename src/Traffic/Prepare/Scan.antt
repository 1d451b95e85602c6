-- ===== src/Traffic/Prepare/Scan.antt =====
-- The loop of `_prepare_entries`.
use charles_mcp.Prelude.{
  ℕ, suc, max, Bool, Option, none, some, List, [], ◌∷◌, ◌++◌, length, pair_eq, nat_eq,
  if◌then◌else◌,
}
use charles_mcp.Prelude.Text.{Text, text_eq, codes}
use charles_mcp.Prelude.Strings.{join}
use charles_mcp.Prelude.Dict.{lookup, insert}
use charles_mcp.Prelude.Outcome.{ok, raise, ◌>>=◌}
use charles_mcp.Json.{Value, Fields, null, obj, str, get_field, end}
use charles_mcp.LiveState.Entries.{component}
use charles_mcp.Traffic.Raw.{Fault, Result, part, show}
use charles_mcp.Traffic.Schema.{
  CaptureSource, source_eq, class_eq, ResourceClassification, TrafficEntry, TrafficMatch,
  TrafficQuery,
}
use charles_mcp.Traffic.Classify.{classify_entry}
use charles_mcp.Traffic.Normalize.{normalize_entry}
use charles_mcp.Traffic.Match.{match_entry}
use charles_mcp.Traffic.Prepare.State.{
  CacheValue, Runtime, ScanPass, ScopeCache, compact_entry_for_cache, count_class,
  excluded_by_preset,
}

-- `raw.get(key)` where it is a dict, `{}` otherwise.
abbrev dict_or_empty : Option Value → Fields
dict_or_empty (some (obj fs)) = fs
dict_or_empty _ = end

module _ (rt : Runtime) where
  -- `_stable_raw_entry_hash`
  unfoldable pub stable_raw_entry_hash : Fields → Text
  unfolding get_field component join
  stable_raw_entry_hash raw =
      let times = dict_or_empty (get_field (codes "times") raw) in
      let response = dict_or_empty (get_field (codes "response") raw) in
      rt.platform.sha1_hex (
        join b'|' (
          component rt.platform (codes "host") raw
          ∷ component rt.platform (codes "method") raw
          ∷ component rt.platform (codes "path") raw
          ∷ component rt.platform (codes "query") raw
          ∷ component rt.platform (codes "status") raw
          ∷ component rt.platform (codes "status") response
          ∷ component rt.platform (codes "start") times
          ∷ component rt.platform (codes "end") times
          ∷ component rt.platform (codes "totalSize") raw
          ∷ []))

  abbrev text_length : Option Value → Option ℕ
  text_length none = none
  text_length (some null) = none
  text_length (some (str [])) = none
  text_length (some v) = some (length (show rt.platform v))

  side_length : Text → Fields → Result (Option ℕ)
  unfolding part get_field
  side_length side raw = do
    message ← part rt.platform side raw
    body ← part rt.platform (codes "body") message
    ok (text_length (get_field (codes "text") body))

  abbrev longest : Option ℕ → Option ℕ → ℕ
  longest none none = 4096
  longest none (some n) = n
  longest (some m) none = m
  longest (some m) (some n) = max m n

  -- `_body_match_chars`
  unfoldable pub body_match_chars : Fields → Result ℕ
  unfolding side_length
  body_match_chars raw = do
    request ← side_length (codes "request") raw
    response ← side_length (codes "response") raw
    ok (longest request response)

  module _ (source : CaptureSource) (capture_id recording_path : Option Text) (query : TrafficQuery)
      (needs : Bool) where
    normalize_included : ResourceClassification → Fields → Result CacheValue
    unfolding body_match_chars normalize_entry
    normalize_included classification raw = do
      max_full ← (if needs then body_match_chars raw else ok 4096)
      entry ←
          normalize_entry rt.platform rt.tables rt.codecs rt.pydantic
            (record {
              capture_source = source;
              capture_id = capture_id;
              recording_path = recording_path;
              limits = record {
                include_full_body = needs;
                max_preview_chars = query.max_preview_chars;
                max_full_body_chars = max_full;
              };
              max_headers_per_side = query.max_headers_per_side;
            })
            (some classification) raw
      ok (classification, some entry)

    -- What an entry that is not in the cache is classified and normalized to.
    unfoldable pub fresh_value : Fields → Result CacheValue
    unfolding classify_entry excluded_by_preset normalize_included
    fresh_value raw = do
      classification ← classify_entry rt.platform rt.tables raw
      if excluded_by_preset query.preset classification.resource_class
          then ok (classification, none)
          else normalize_included classification raw

    abbrev pub cached_value : Text → Option ScopeCache → Option CacheValue
    cached_value hash none = none
    cached_value hash (some scope) = lookup hash scope

    abbrev pub remember : Text → CacheValue → Option ScopeCache → Option ScopeCache
    remember hash value none = none
    remember hash value (some scope) = some (insert hash value scope)

    abbrev pub with_seen : Text → Option ScopeCache → List Text → List Text
    with_seen hash none seen = seen
    with_seen hash (some scope) seen = seen ++ hash ∷ []

    -- `matched_entries.append(...)`
    abbrev pub add_match :
        TrafficEntry
        → TrafficMatch
        → List (TrafficEntry × TrafficMatch)
        → List (TrafficEntry × TrafficMatch)
    add_match entry m entries = if m.matched then entries ++ (entry, m) ∷ [] else entries

    -- An entry that was matched against the query is kept for the details, and in the results when
    -- the match is positive.
    abbrev pub add_entry :
        ResourceClassification → TrafficEntry → TrafficMatch → ScanPass → ScanPass
    add_entry classification entry m pass =
        let storage_entry = if needs then compact_entry_for_cache entry else entry in
        record pass {
          classified_counts = count_class classification.resource_class pass.classified_counts;
          matched_entries = add_match storage_entry m pass.matched_entries;
          detail_entries = insert storage_entry.entry_id storage_entry pass.detail_entries;
        }

    -- The end of a round: count the class, then filter out or match.
    unfoldable pub use_value : CacheValue → ScanPass → Result ScanPass
    unfolding match_entry compact_entry_for_cache lookup insert
    use_value (classification, none) pass = ok (record pass {
      classified_counts = count_class classification.resource_class pass.classified_counts;
      filtered_out_by_class = count_class classification.resource_class pass.filtered_out_by_class;
    })
    use_value (classification, some entry) pass = do
      m ← match_entry rt.tables rt.search entry query
      ok (add_entry classification entry m pass)

    -- A fresh value, which the cache remembers.
    abbrev pub fresh_from :
        Text
        → List Text
        → ScanPass
        → Result CacheValue
        → Option Fault × ScanPass × Option CacheValue
    fresh_from hash seen pass (raise fault) = (some fault, record pass { seen = seen }, none)
    fresh_from hash seen pass (ok value) = (
      none,
      record pass {
        seen = seen;
        scope_cache = remember hash value pass.scope_cache;
        misses = suc pass.misses;
      },
      some value,
    )

    abbrev pub value_from :
        Fields
        → Text
        → List Text
        → ScanPass
        → Option CacheValue
        → Option Fault × ScanPass × Option CacheValue
    value_from raw hash seen pass (some value) =
        (none, record pass { seen = seen; hits = suc pass.hits }, some value)
    value_from raw hash seen pass none = fresh_from hash seen pass (fresh_value raw)

    -- The value of an entry, from the cache or fresh, with the pass that counts it.
    unfoldable pub value_of : Fields → ScanPass → Option Fault × ScanPass × Option CacheValue
    unfolding stable_raw_entry_hash fresh_value lookup insert
    value_of raw pass =
        let hash = stable_raw_entry_hash raw in
        value_from raw hash (with_seen hash pass.scope_cache pass.seen) pass
          (cached_value hash pass.scope_cache)

    abbrev pub settle : Option Fault × ScanPass × Option CacheValue → Option Fault × ScanPass
    settle (fault, pass, none) = (fault, pass)
    settle (fault, pass, some value) = elim (use_value value pass) [
      | raise fault ↦ (some fault, pass)
      | ok next ↦ (none, next)
    ]

    -- One round of the loop, with the fault that ends it.
    unfoldable pub scan_entry : Value → ScanPass → Option Fault × ScanPass
    unfolding value_of use_value
    scan_entry (obj raw) pass = settle (value_of raw pass)
    scan_entry _ pass = (none, pass)

    unfoldable pub scan_entries : List Value → ScanPass → Option Fault × ScanPass
    unfolding scan_entry
    scan_entries [] pass = (none, pass)
    scan_entries (raw ∷ rest) pass =
        let (fault, next) = scan_entry raw pass in
        let later = scan_entries rest next in elim fault [ none ↦ later | some f ↦ (some f, next) ]
