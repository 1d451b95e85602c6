-- ===== src/Traffic/Prepare/Transparent.antt =====
-- The cache of normalized entries against a scan without it.
use charles_mcp.Prelude.{
  ℕ, ◌≡◌, refl, ap, ◌∙◌, Bool, Option, none, some, List, [], ◌∷◌, ◌==◌, Bool-cases, inl, inr,
  eq_iff, All,
}
use charles_mcp.Prelude.Text.{Text, text_eq}
use charles_mcp.Prelude.Dict.{lookup, insert, lookup-insert}
use charles_mcp.Prelude.Outcome.{ok, raise, ◌>>=◌}
use charles_mcp.Json.{Value, Fields, obj, null, bool, int, float, str, arr}
use charles_mcp.Traffic.Raw.{Fault, Result}
use charles_mcp.Traffic.Schema.{CaptureSource, TrafficMatch, TrafficQuery, class_eq}
use charles_mcp.Traffic.Match.{match_entry}
use charles_mcp.Traffic.Prepare.Scan.{
  stable_raw_entry_hash, fresh_value, use_value, add_entry, settle, scan_entry, scan_entries,
}
use charles_mcp.Traffic.Prepare.State.{Runtime, ScanPass, ScopeCache, CacheValue, start_pass}
use charles_mcp.Traffic.Prepare.Rounds.{
  Outcomes, outcomes, pass_with, hash, value_in, value_of-hit, value_of-miss, value_of-failed,
  value_of-plain, value_of-plain_failed,
}

some_same : {A : Type 0} {a b : A} → some a ≡ some b → a ≡ b
some_same p = cc

module _ (rt : Runtime) (source : CaptureSource) (capture_id recording_path : Option Text)
    (query : TrafficQuery) (needs : Bool) where
  abbrev fresh : Fields → Result CacheValue
  fresh = fresh_value rt source capture_id recording_path query needs

  abbrev scan : List Value → ScanPass → Option Fault × ScanPass
  scan = scan_entries rt source capture_id recording_path query needs

  module _ (truth : Text → Result CacheValue) where
    -- The hash of an entry says what the entry is normalized to.
    abbrev pub IsDetermined : Value → Type 0
    IsDetermined (obj raw) = fresh raw ≡ truth (stable_raw_entry_hash rt raw)
    IsDetermined _ = Unit

    -- The cache has only such values.
    abbrev pub IsSound : ScopeCache → Type 0
    IsSound scope =
        (hash : Text) (value : CacheValue) → lookup hash scope ≡ some value → truth hash ≡ ok value

    remember-IsSound :
        (hash : Text) (value : CacheValue) (scope : ScopeCache)
        → truth hash ≡ ok value
        → IsSound scope
        → IsSound (insert hash value scope)
    remember-IsSound hash value scope t sound j v found = elim (Bool-cases (hash == j)) [
      | inl hit ↦
          rw (← (eq_iff hash j).0 hit)
            (t ∙ ap ok (some_same (rw (lookup-insert hash j value scope, hit) at found)))
      | inr miss ↦ sound j v (rw (lookup-insert hash j value scope, miss) at found)
    ]

  -- The same fault, and the same results.
  abbrev pub SameScan : Option Fault × ScanPass → Option Fault × ScanPass → Type 0
  SameScan a b = (a.0 ≡ b.0) × (outcomes a.1 ≡ outcomes b.1)

  abbrev then_scan : List Value → Option Fault × ScanPass → Option Fault × ScanPass
  then_scan rest (fault, pass) = elim fault [ none ↦ scan rest pass | some f ↦ (some f, pass) ]

  abbrev settled : CacheValue → ScanPass → Option Fault × ScanPass
  settled value pass =
      settle rt source capture_id recording_path query needs (none, pass, some value)

  -- The round after the value is known does not look at the cache.
  after_value :
      (rest : List Value) (value : CacheValue) (scope : ScopeCache) (out : Outcomes)
      (seen : List Text) (h m : ℕ) (seen' : List Text) (h' m' : ℕ)
      → ((out' : Outcomes)
          → SameScan
              (scan rest (pass_with (some scope) seen h m out'))
              (scan rest (pass_with none seen' h' m' out')))
      → SameScan
          (then_scan rest (settled value (pass_with (some scope) seen h m out)))
          (then_scan rest (settled value (pass_with none seen' h' m' out)))
  unfolding use_value
  after_value rest (c, none) scope out seen h m seen' h' m' ih = ih _
  after_value rest (c, some entry) scope out seen h m seen' h' m' ih =
      by_match (match_entry rt.tables rt.search entry query)
    where
      matched : Result TrafficMatch → ScanPass → Option Fault × ScanPass
      matched r pass =
          elim (r >>= λ v.
          ok (add_entry rt source capture_id recording_path query needs c entry v pass)) [
            | raise f ↦ (some f, pass)
            | ok next ↦ (none, next)
          ]

      by_match :
          (r : Result TrafficMatch)
          → SameScan
              (then_scan rest (matched r (pass_with (some scope) seen h m out)))
              (then_scan rest (matched r (pass_with none seen' h' m' out)))
      by_match (raise f) = (refl, refl)
      by_match (ok v) = ih _

  abbrev step :
      List Value
      → Fields
      → List Text
      → ℕ
      → ℕ
      → Outcomes
      → Option ScopeCache
      → Option Fault × ScanPass
  step raws raw seen h m out cache = then_scan raws (
      settle rt source capture_id recording_path query needs
        (value_in rt source capture_id recording_path query needs raw seen h m out cache))

  module _ (truth : Text → Result CacheValue) where
    -- A round with a sound cache and one without it, where the rest of the scan agrees.
    one_entry :
        (raws : List Value) (raw : Fields) (scope : ScopeCache) (out : Outcomes) (seen : List Text)
        (h m : ℕ) (seen' : List Text) (h' m' : ℕ)
        → IsSound truth scope
        → IsDetermined truth (obj raw)
        → ((scope1 : ScopeCache) (out1 : Outcomes) (seen1 : List Text) (h1 m1 : ℕ)
              (seen2 : List Text) (h2 m2 : ℕ)
            → IsSound truth scope1
            → SameScan
                (scan raws (pass_with (some scope1) seen1 h1 m1 out1))
                (scan raws (pass_with none seen2 h2 m2 out1)))
        → SameScan (step raws raw seen h m out (some scope)) (step raws raw seen' h' m' out none)
    one_entry raws raw scope out seen h m seen' h' m' sound d ih =
        by_cache
          (lookup (hash rt source capture_id recording_path query needs raw seen h m out) scope)
          refl
      where
        key : Text
        key = hash rt source capture_id recording_path query needs raw seen h m out

        by_fresh :
            (r : Result CacheValue)
            → truth key ≡ r
            → lookup key scope ≡ none
            → SameScan
                (step raws raw seen h m out (some scope))
                (step raws raw seen' h' m' out none)
        by_fresh (raise f) t gone =
            rw
              (
                value_of-failed rt source capture_id recording_path query needs raw seen h m out
                    scope f gone (d ∙ t),
                value_of-plain_failed rt source capture_id recording_path query needs raw seen' h'
                    m' out f (d ∙ t),
              )
              (refl, refl)
        by_fresh (ok value) t gone =
            rw
              (
                value_of-miss rt source capture_id recording_path query needs raw seen h m out scope
                    value gone (d ∙ t),
                value_of-plain rt source capture_id recording_path query needs raw seen' h' m' out
                    value (d ∙ t),
              )
              (after_value raws value (insert key value scope) out _ _ _ _ _ _ (λ out1.
                ih (insert key value scope) out1 _ _ _ _ _ _
                  (remember-IsSound truth key value scope t sound)))

        by_cache :
            (o : Option CacheValue)
            → lookup key scope ≡ o
            → SameScan
                (step raws raw seen h m out (some scope))
                (step raws raw seen' h' m' out none)
        by_cache none gone = by_fresh (truth key) refl gone
        by_cache (some value) found =
            rw
              (
                value_of-hit rt source capture_id recording_path query needs raw seen h m out scope
                    value found,
                value_of-plain rt source capture_id recording_path query needs raw seen' h' m' out
                    value (d ∙ sound key value found),
              )
              (after_value raws value scope out _ _ _ _ _ _
                (λ out1. ih scope out1 _ _ _ _ _ _ sound))

    -- A scan with a sound cache and one without it, from the same results.
    scan-same :
        (raws : List Value) (scope : ScopeCache) (out : Outcomes) (seen : List Text) (h m : ℕ)
        (seen' : List Text) (h' m' : ℕ)
        → IsSound truth scope
        → All (IsDetermined truth) raws
        → SameScan
            (scan raws (pass_with (some scope) seen h m out))
            (scan raws (pass_with none seen' h' m' out))
    unfolding scan_entries scan_entry
    scan-same [] scope out seen h m seen' h' m' sound all = (refl, refl)
    scan-same (null ∷ raws) scope out seen h m seen' h' m' sound (d, all) =
        scan-same raws scope out seen h m seen' h' m' sound all
    scan-same (bool b ∷ raws) scope out seen h m seen' h' m' sound (d, all) =
        scan-same raws scope out seen h m seen' h' m' sound all
    scan-same (int n ∷ raws) scope out seen h m seen' h' m' sound (d, all) =
        scan-same raws scope out seen h m seen' h' m' sound all
    scan-same (float t ∷ raws) scope out seen h m seen' h' m' sound (d, all) =
        scan-same raws scope out seen h m seen' h' m' sound all
    scan-same (str t ∷ raws) scope out seen h m seen' h' m' sound (d, all) =
        scan-same raws scope out seen h m seen' h' m' sound all
    scan-same (arr xs ∷ raws) scope out seen h m seen' h' m' sound (d, all) =
        scan-same raws scope out seen h m seen' h' m' sound all
    scan-same (obj raw ∷ raws) scope out seen h m seen' h' m' sound (d, all) =
        one_entry raws raw scope out seen h m seen' h' m' sound d
          (λ scope1 out1 seen1 h1 m1 seen2 h2 m2 sound1.
            scan-same raws scope1 out1 seen1 h1 m1 seen2 h2 m2 sound1 all)

  -- When the hash of each scanned entry says what the entry is normalized to, a scan with a cache
  -- that holds only such values ends with the same fault, counts, matches and entries as a scan
  -- without a cache.
  pub scan_entries-transparent :
      (truth : Text → Result CacheValue) (raws : List Value) (scope : ScopeCache)
      → IsSound truth scope
      → All (IsDetermined truth) raws
      → SameScan (scan raws (start_pass (some scope))) (scan raws (start_pass none))
  scan_entries-transparent truth raws scope sound all =
      scan-same truth raws scope (outcomes (start_pass none)) [] 0 0 [] 0 0 sound all
