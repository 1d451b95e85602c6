-- ===== src/Traffic/Grouping/Sums.antt =====
-- The groups account for every matched entry.
use charles_mcp.Prelude.{
  ℕ, ◌+◌, ◌≤◌, ◌≡◌, refl, ap, ◌∙◌, List, [], ◌∷◌, map, length, take, length-take, length-map, Bool,
  false, ◌||◌, ltb, take-all, sum_by, arith,
}
use charles_mcp.Prelude.Text.{Text, text_eq}
use charles_mcp.Prelude.Dict.{Dict, lookup, insert, values}
use charles_mcp.Prelude.Sort.{sort, sum-sort}
use charles_mcp.Traffic.Schema.{CaptureSource, TrafficEntry, TrafficMatch}
use charles_mcp.Traffic.Schema.Results.{PreparedTrafficEntries, TrafficGroupSummary, TrafficGroupBy}
use charles_mcp.Traffic.Grouping.{
  Bucket, group_value, add_to_bucket, bucket_of, collect_groups, sort_classes, group_order,
  build_groups,
}

abbrev pub counted : List TrafficGroupSummary → ℕ
counted groups = sum_by (λ g. g.count) groups

count_at : Text → Dict Text Bucket → ℕ
count_at value groups = (bucket_of value groups).count

counted-insert :
    (value : Text) (bucket : Bucket) (groups : Dict Text Bucket)
    → counted (values (insert value bucket groups)) + count_at value groups
      ≡ bucket.count + counted (values groups)
unfolding insert lookup count_at
counted-insert value bucket [] = omega arith
counted-insert value bucket ((j, b) ∷ groups) = ground (arith, counted-insert value bucket groups)

counted-collect_groups :
    (group_by : TrafficGroupBy) (entries : List (TrafficEntry × TrafficMatch))
    (groups : Dict Text Bucket)
    → counted (values (collect_groups group_by entries groups))
      ≡ length entries + counted (values groups)
unfolding collect_groups add_to_bucket count_at
counted-collect_groups group_by [] groups = omega arith
counted-collect_groups group_by ((entry, m) ∷ entries) groups =
    let value = group_value group_by entry in
    let bucket = add_to_bucket entry (bucket_of value groups) in
    omega (
      arith,
      counted-collect_groups group_by entries (insert value bucket groups),
      counted-insert value bucket groups,
    )

counted-map-sort_classes :
    (groups : List Bucket) → counted (map sort_classes groups) ≡ counted groups
counted-map-sort_classes [] = refl
counted-map-sort_classes (g ∷ groups) = ap (λ n. g.count + n) (counted-map-sort_classes groups)

-- When the list of groups is not marked as truncated, the counts of its groups add up to the number
-- of matched entries; the list never has more groups than asked for.
pub build_groups_complete :
    (source : CaptureSource) (group_by : TrafficGroupBy) (prepared : PreparedTrafficEntries)
    (max_groups : ℕ)
    → (length (build_groups source group_by prepared max_groups).groups ≤ max_groups)
      × ((build_groups source group_by prepared max_groups).truncated ≡ false
          → counted (build_groups source group_by prepared max_groups).groups
            ≡ length prepared.matched_entries)
unfolding build_groups
build_groups_complete source group_by prepared max_groups =
    let buckets = values (collect_groups group_by prepared.matched_entries []) in
    let ordered = sort group_order buckets in
    (
      omega (
        arith,
        length-map sort_classes (take max_groups ordered),
        length-take max_groups ordered,
      ),
      λ whole.
          counted-map-sort_classes (take max_groups ordered)
          ∙ ap counted (
              take-all ordered max_groups
                (fits prepared.truncated (length ordered) max_groups whole))
          ∙ sum-sort group_order (λ g. g.count) buckets
          ∙ omega (arith, counted-collect_groups group_by prepared.matched_entries []),
    )
  where
    fits : (t : Bool) (n m : ℕ) → (t || ltb m n) ≡ false → n ≤ m
    fits t n m whole = ground arith
