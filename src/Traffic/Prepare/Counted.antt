-- ===== src/Traffic/Prepare/Counted.antt =====
-- What the loop of `_prepare_entries` adds to its counters, round by round.
use charles_mcp.Prelude.{
  ◌≢◌, ℕ, suc, ◌+◌, ◌≤◌, ◌≡◌, refl, ap, subst, Bool, true, false, Option, none, some, List, [], ◌∷◌,
  ◌++◌, length, if◌then◌else◌, arith, length-append,
}
use charles_mcp.Prelude.Text.{Text, text_eq}
use charles_mcp.Prelude.Dict.{Dict, lookup, insert, values}
use charles_mcp.Traffic.Schema.{
  CaptureSource, TrafficEntry, TrafficQuery, TrafficMatch, ResourceClass, class_eq,
}
use charles_mcp.Prelude.Outcome.{ok, raise, chain-parts, same_value}
use charles_mcp.Json.{Value, Fields, obj, null, bool, int, float, str, arr}
use charles_mcp.Traffic.Raw.{Result, Fault}
use charles_mcp.Traffic.Match.{match_entry}
use charles_mcp.Traffic.Prepare.Scan.{
  value_of, value_from, fresh_from, fresh_value, use_value, cached_value, with_seen,
  stable_raw_entry_hash, scan_entry, scan_entries, settle,
}
use charles_mcp.Traffic.Prepare.State.{
  Runtime, total, ScanPass, CacheValue, count_class, compact_entry_for_cache,
}

total-insert :
    (c : ResourceClass) (d : Dict ResourceClass ℕ) (n : ℕ)
    → total (values (insert c n d)) + (elim (lookup c d) [ none ↦ 0 | some m ↦ m ])
      ≡ n + total (values d)
unfolding insert lookup
total-insert c [] n = omega arith
total-insert c ((j, m) ∷ d) n = ground (arith, total-insert c d n)

-- Counting a class adds one.
pub total-count_class :
    (c : ResourceClass) (d : Dict ResourceClass ℕ)
    → total (values (count_class c d)) ≡ suc (total (values d))
unfolding insert lookup
total-count_class c d = by_count (lookup c d) refl
  where
    by_count :
        (o : Option ℕ)
        → lookup c d ≡ o
        → total (values (elim o [ none ↦ insert c 1 d | some n ↦ insert c (suc n) d ]))
          ≡ suc (total (values d))
    by_count none new' = ground (arith, total-insert c d 1)
    by_count (some n) known = ground (arith, total-insert c d (suc n))

-- The entries that are dicts.
abbrev pub dicts : List Value → ℕ
dicts [] = 0
dicts (obj raw ∷ raws) = suc (dicts raws)
dicts (_ ∷ raws) = dicts raws

some-none : {A : Type 0} {a : A} → some a ≢ none
some-none p = cc

module _ (rt : Runtime) (source : CaptureSource) (capture_id recording_path : Option Text)
    (query : TrafficQuery) (needs : Bool) where
  -- What n entries add to the counts of a pass.
  pub record Counted (n : ℕ) (old new' : ScanPass) : Type 0 where
    pub looked_up : new'.hits + new'.misses ≡ n + (old.hits + old.misses)
    pub classified :
        total (values new'.classified_counts) ≡ n + total (values old.classified_counts)
    pub at_most_matched :
        length new'.matched_entries + total (values new'.filtered_out_by_class)
        ≤ n + (length old.matched_entries + total (values old.filtered_out_by_class))

  none-Counted : (pass : ScanPass) → Counted 0 pass pass
  none-Counted pass = record {
    looked_up = omega arith;
    classified = omega arith;
    at_most_matched = omega arith;
  }

  -- A value that was found or made is one lookup more.
  IsLookup : ScanPass → Option Fault × ScanPass × Option CacheValue → Type 0
  IsLookup pass (fault, next, none) = fault ≢ none
  IsLookup pass (fault, next, some value) =
      (next.hits + next.misses ≡ suc (pass.hits + pass.misses))
      × (next.classified_counts ≡ pass.classified_counts)
      × (next.filtered_out_by_class ≡ pass.filtered_out_by_class)
      × (next.matched_entries ≡ pass.matched_entries)

  value_of-IsLookup :
      (raw : Fields) (pass : ScanPass)
      → IsLookup pass (value_of rt source capture_id recording_path query needs raw pass)
  unfolding value_of IsLookup
  value_of-IsLookup raw pass = by_cache (
      cached_value rt source capture_id recording_path query needs (stable_raw_entry_hash rt raw)
        pass.scope_cache)
    where
      seen : List Text
      seen =
          with_seen rt source capture_id recording_path query needs (stable_raw_entry_hash rt raw)
            pass.scope_cache pass.seen

      by_fresh :
          (r : Result CacheValue)
          → IsLookup pass (
              fresh_from rt source capture_id recording_path query needs
                (stable_raw_entry_hash rt raw)
                seen
                pass
                r)
      by_fresh (raise f) = λ e. cc
      by_fresh (ok value) = (omega arith, refl, refl, refl)

      by_cache :
          (o : Option CacheValue)
          → IsLookup pass (
              value_from rt source capture_id recording_path query needs raw
                (stable_raw_entry_hash rt raw)
                seen
                pass
                o)
      by_cache (some value) = (omega arith, refl, refl, refl)
      by_cache none = by_fresh (fresh_value rt source capture_id recording_path query needs raw)

  -- A value that is used is one class more, and at most one match or one that is filtered out.
  IsUse : ScanPass → ScanPass → Type 0
  IsUse pass next =
      (next.hits + next.misses ≡ pass.hits + pass.misses)
      × (total (values next.classified_counts) ≡ suc (total (values pass.classified_counts)))
      × (length next.matched_entries + total (values next.filtered_out_by_class)
          ≤ suc (length pass.matched_entries + total (values pass.filtered_out_by_class)))

  length-add_match :
      (b : Bool) (item : TrafficEntry × TrafficMatch) (items : List (TrafficEntry × TrafficMatch))
      → length (if b then items ++ item ∷ [] else items) ≤ suc (length items)
  length-add_match true item items = omega (arith, length-append items (item ∷ []))
  length-add_match false item items = omega arith

  use_value-IsUse :
      (value : CacheValue) (pass next : ScanPass)
      → use_value rt source capture_id recording_path query needs value pass ≡ ok next
      → IsUse pass next
  unfolding use_value IsUse
  use_value-IsUse (c, none) pass next e = subst (IsUse pass) (same_value e) (
    refl,
    total-count_class c.resource_class pass.classified_counts,
    omega (arith, total-count_class c.resource_class pass.filtered_out_by_class),
  )
  use_value-IsUse (c, some entry) pass next e =
      let (m, matched, added) = chain-parts (match_entry rt.tables rt.search entry query) _ e in
      subst (IsUse pass) (same_value added) (
        refl,
        total-count_class c.resource_class pass.classified_counts,
        omega (
          arith,
          length-add_match m.matched (if needs then compact_entry_for_cache entry else entry, m)
              pass.matched_entries,
        ),
      )

  settle-Counted :
      (pass next : ScanPass) (looked : Option Fault × ScanPass × Option CacheValue)
      → IsLookup pass looked
      → settle rt source capture_id recording_path query needs looked ≡ (none, next)
      → Counted 1 pass next
  unfolding IsLookup IsUse
  settle-Counted pass next (fault, p, none) some' e = absurd (some' (ap (λ r. r.0) e))
  settle-Counted pass next (fault, p, some value) (a, b, c, d) e =
      by_use (use_value rt source capture_id recording_path query needs value p) refl e
    where
      ended : Result ScanPass → Option Fault × ScanPass
      ended r = elim r [ raise f ↦ (some f, p) | ok q ↦ (none, q) ]

      by_use :
          (r : Result ScanPass)
          → use_value rt source capture_id recording_path query needs value p ≡ r
          → ended r ≡ (none, next)
          → Counted 1 pass next
      by_use (raise f) used e = absurd (some-none (ap (λ r. r.0) e))
      by_use (ok q) used e =
          let (x, y, z) = use_value-IsUse value p q used in
          subst (Counted 1 pass) (ap (λ r. r.1) e) (record {
            looked_up = omega (arith, x, a);
            classified = omega (arith, y, ap (λ n. total (values n)) b);
            at_most_matched = omega (arith, z, ap (λ n. total (values n)) c, ap length d);
          })

  scan_entry-Counted :
      (raw : Fields) (pass next : ScanPass)
      → scan_entry rt source capture_id recording_path query needs (obj raw) pass ≡ (none, next)
      → Counted 1 pass next
  unfolding scan_entry
  scan_entry-Counted raw pass next =
      settle-Counted pass next (value_of rt source capture_id recording_path query needs raw pass)
        (value_of-IsLookup raw pass)

  add_Counted : (b : ℕ) (p q r : ScanPass) → Counted 1 p q → Counted b q r → Counted (suc b) p r
  add_Counted b p q r h k = record {
    looked_up = omega (arith, h.looked_up, k.looked_up);
    classified = omega (arith, h.classified, k.classified);
    at_most_matched = omega (arith, h.at_most_matched, k.at_most_matched);
  }

  -- A round, and the rest of the scan.
  then_rest :
      (raw : Fields) (raws : List Value) (pass next : ScanPass)
      → ((p : ScanPass)
          → scan_entries rt source capture_id recording_path query needs raws p ≡ (none, next)
          → Counted (dicts raws) p next)
      → scan_entries rt source capture_id recording_path query needs (obj raw ∷ raws) pass
        ≡ (none, next)
      → Counted (suc (dicts raws)) pass next
  unfolding scan_entries
  then_rest raw raws pass next rest =
      by_round (scan_entry rt source capture_id recording_path query needs (obj raw) pass) refl
    where
      continued : Option Fault × ScanPass → Option Fault × ScanPass
      continued s = elim s.0 [
        | none ↦ scan_entries rt source capture_id recording_path query needs raws s.1
        | some f ↦ (some f, s.1)
      ]

      by_round :
          (s : Option Fault × ScanPass)
          → scan_entry rt source capture_id recording_path query needs (obj raw) pass ≡ s
          → continued s ≡ (none, next)
          → Counted (suc (dicts raws)) pass next
      by_round (none, q) e c =
          add_Counted (dicts raws) pass q next (scan_entry-Counted raw pass q e) (rest q c)
      by_round (some f, q) e c = absurd (some-none (ap (λ r. r.0) c))

  pub scan_entries-Counted :
      (raws : List Value) (pass next : ScanPass)
      → scan_entries rt source capture_id recording_path query needs raws pass ≡ (none, next)
      → Counted (dicts raws) pass next
  unfolding scan_entries scan_entry
  scan_entries-Counted [] pass next e = subst (Counted 0 pass) (ap (λ r. r.1) e) (none-Counted pass)
  scan_entries-Counted (obj raw ∷ raws) pass next e =
      then_rest raw raws pass next (λ p. scan_entries-Counted raws p next) e
  scan_entries-Counted (null ∷ raws) pass next e = scan_entries-Counted raws pass next e
  scan_entries-Counted (bool b ∷ raws) pass next e = scan_entries-Counted raws pass next e
  scan_entries-Counted (int n ∷ raws) pass next e = scan_entries-Counted raws pass next e
  scan_entries-Counted (float t ∷ raws) pass next e = scan_entries-Counted raws pass next e
  scan_entries-Counted (str t ∷ raws) pass next e = scan_entries-Counted raws pass next e
  scan_entries-Counted (arr xs ∷ raws) pass next e = scan_entries-Counted raws pass next e
