-- ===== src/Traffic/Prepare/Rounds.antt =====
-- What a round of the scan finds for an entry, with a cache and without one.
use charles_mcp.Prelude.{ℕ, suc, ◌≡◌, refl, Bool, Option, none, some, List, [], ◌∷◌, ◌++◌}
use charles_mcp.Prelude.Text.{Text, text_eq}
use charles_mcp.Prelude.Dict.{Dict, lookup, insert}
use charles_mcp.Prelude.Outcome.{ok, raise}
use charles_mcp.Json.{Fields}
use charles_mcp.Traffic.Raw.{Fault, Result}
use charles_mcp.Traffic.Schema.{
  CaptureSource, TrafficEntry, TrafficMatch, TrafficQuery, ResourceClass, class_eq,
}
use charles_mcp.Traffic.Prepare.Scan.{stable_raw_entry_hash, fresh_value, value_of}
use charles_mcp.Traffic.Prepare.State.{Runtime, ScanPass, ScopeCache, CacheValue}

-- The results of a scan, without what it did to the cache.
pub record Outcomes : Type 0 where
  pub classified_counts : Dict ResourceClass ℕ
  pub filtered_out_by_class : Dict ResourceClass ℕ
  pub matched_entries : List (TrafficEntry × TrafficMatch)
  pub detail_entries : Dict Text TrafficEntry

abbrev pub outcomes : ScanPass → Outcomes
outcomes pass = record {
  classified_counts = pass.classified_counts;
  filtered_out_by_class = pass.filtered_out_by_class;
  matched_entries = pass.matched_entries;
  detail_entries = pass.detail_entries;
}

-- A pass with these outcomes and this cache.
abbrev pub pass_with : Option ScopeCache → List Text → ℕ → ℕ → Outcomes → ScanPass
pass_with scope_cache seen hits misses out = record {
  scope_cache = scope_cache;
  seen = seen;
  hits = hits;
  misses = misses;
  classified_counts = out.classified_counts;
  filtered_out_by_class = out.filtered_out_by_class;
  matched_entries = out.matched_entries;
  detail_entries = out.detail_entries;
}

module _ (rt : Runtime) (source : CaptureSource) (capture_id recording_path : Option Text)
    (query : TrafficQuery) (needs : Bool) where
  abbrev fresh : Fields → Result CacheValue
  fresh = fresh_value rt source capture_id recording_path query needs

  module _ (raw : Fields) (seen : List Text) (hits misses : ℕ) (out : Outcomes) where
    abbrev pub hash : Text
    hash = stable_raw_entry_hash rt raw

    abbrev pub value_in : Option ScopeCache → Option Fault × ScanPass × Option CacheValue
    value_in scope =
        value_of rt source capture_id recording_path query needs raw
          (pass_with scope seen hits misses out)

    pub value_of-hit :
        (scope : ScopeCache) (value : CacheValue)
        → lookup hash scope ≡ some value
        → value_in (some scope)
          ≡ (none, pass_with (some scope) (seen ++ hash ∷ []) (suc hits) misses out, some value)
    unfolding value_of
    value_of-hit scope value found = rw (found, value_of) refl

    pub value_of-miss :
        (scope : ScopeCache) (value : CacheValue)
        → lookup hash scope ≡ none
        → fresh raw ≡ ok value
        → value_in (some scope) ≡ (
          none,
          pass_with (some (insert hash value scope)) (seen ++ hash ∷ []) hits (suc misses) out,
          some value,
        )
    unfolding value_of
    value_of-miss scope value gone e = rw (gone, e, value_of) refl

    pub value_of-failed :
        (scope : ScopeCache) (f : Fault)
        → lookup hash scope ≡ none
        → fresh raw ≡ raise f
        → value_in (some scope)
          ≡ (some f, pass_with (some scope) (seen ++ hash ∷ []) hits misses out, none)
    unfolding value_of
    value_of-failed scope f gone e = rw (gone, e, value_of) refl

    pub value_of-plain :
        (value : CacheValue)
        → fresh raw ≡ ok value
        → value_in none ≡ (none, pass_with none seen hits (suc misses) out, some value)
    unfolding value_of
    value_of-plain value e = rw (e, value_of) refl

    pub value_of-plain_failed :
        (f : Fault)
        → fresh raw ≡ raise f
        → value_in none ≡ (some f, pass_with none seen hits misses out, none)
    unfolding value_of
    value_of-plain_failed f e = rw (e, value_of) refl
