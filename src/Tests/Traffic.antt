-- ===== src/Tests/Traffic.antt =====
-- Traffic at concrete data.
use charles_mcp.Prelude.{
  ℕ, pair_eq, ◌≡◌, ◌≤◌, ◌+◌, refl, true, false, none, some, [], ◌∷◌, length, inr, arith,
}
use charles_mcp.Prelude.Text.{Text, codes, text_eq}
use charles_mcp.Prelude.Int.{pos}
use charles_mcp.Prelude.Dict.{Dict, lookup, NodupKeys, insert}
use charles_mcp.Prelude.Outcome.{ok, raise}
use charles_mcp.Json.{Value, Fields, null, str, arr, obj, nil, cons, end, field}
use charles_mcp.LiveState.Entries.{section}
use charles_mcp.Traffic.Raw.{Result, file_not_found}
use charles_mcp.Traffic.Schema.{
  live, ResourceClassification, static_asset, HeaderKv, TrafficEntry, TrafficQuery, plain_query,
  all_http, api_focus, source_eq,
}
use charles_mcp.Traffic.Schema.Results.{PreparedTrafficEntries, host}
use charles_mcp.Traffic.Cache.{
  TrafficCacheKey, TrafficEntryCache, put, get_entry, new_scope, drop_scope, key_eq,
}
use charles_mcp.Traffic.Cache.Reads.{
  IsStored, view, put-IsStored, put-IsCache, get_entry-put, drop_scope-unindexed,
}
use charles_mcp.Traffic.Headers.{normalize_headers}
use charles_mcp.Traffic.Headers.Grouped.{IsGrouped, normalize_headers-IsGrouped}
use charles_mcp.Traffic.Normalize.{Options, normalize_entry}
use charles_mcp.Traffic.Normalize.Sides.{AreShort, normalize_entry-AreShort}
use charles_mcp.Traffic.Prepare.{Times, Load, prepare_entries}
use charles_mcp.Traffic.Prepare.Scan.{scan_entries, fresh_value}
use charles_mcp.Traffic.Prepare.State.{Orchestrator, start_pass}
use charles_mcp.Traffic.Prepare.Counts.{prepare_entries-counts}
use charles_mcp.Traffic.Prepare.Transparent.{SameScan, scan_entries-transparent}
use charles_mcp.Traffic.Query.{Services, build_query_result}
use charles_mcp.Traffic.Query.Pages.{build_query_result_complete}
use charles_mcp.Traffic.Grouping.{build_groups}
use charles_mcp.Traffic.Grouping.Sums.{counted, build_groups_complete}
use charles_mcp.Tests.Samples.{ascii_tables}
use charles_mcp.Traffic.Classify.{classify_signals}
use charles_mcp.Tests.Entries.{blank_entry, codecs, plain, runtime, strict}

abbrev key_in : Text → TrafficCacheKey
key_in mode = record { source = live; identity = codes "c"; body_mode = mode }

abbrev entries : Dict Text TrafficEntry
entries = (codes "e", blank_entry) ∷ []

abbrev empty_cache : TrafficEntryCache
empty_cache = record { max_scopes = 1; ttl_seconds = 5; scopes = []; entry_index = [] }

-- One scope of summaries where there is room for one.
abbrev stored : TrafficEntryCache
stored = put 0 0 (key_in (codes "summary")) entries [] empty_cache

put-IsStored_example :
    IsStored (key_in (codes "summary")) (new_scope 0 entries []) empty_cache stored
put-IsStored_example =
    put-IsStored 0 0 (key_in (codes "summary")) entries [] empty_cache tt (omega arith)

put-IsCache_example : NodupKeys stored.scopes × (length stored.scopes ≤ 1)
put-IsCache_example = put-IsCache 0 0 (key_in (codes "summary")) entries [] empty_cache tt

get_entry-put_example :
    (get_entry 3 (key_in (codes "summary")) (codes "e") stored).0 ≡ some blank_entry
unfolding lookup text_eq
get_entry-put_example =
    get_entry-put 0 0 (key_in (codes "summary")) entries [] empty_cache tt 3 (codes "e")
      (omega arith) (inr (omega arith))

-- The same entry under two body modes.
abbrev two_modes : TrafficEntryCache
two_modes = record {
  max_scopes = 2;
  ttl_seconds = 5;
  scopes =
      (key_in (codes "full:9"), new_scope 0 entries [])
      ∷ (key_in (codes "summary"), new_scope 0 entries [])
      ∷ [];
  entry_index = ((live, codes "e"), codes "c") ∷ [];
}

drop_scope-unindexed_example :
    (lookup (live, codes "e") (drop_scope (key_in (codes "full:9")) two_modes).entry_index ≡ none)
    × (view (drop_scope (key_in (codes "full:9")) two_modes) (key_in (codes "summary"))
        ≡ some (new_scope 0 entries []))
unfolding lookup text_eq
drop_scope-unindexed_example =
    drop_scope-unindexed (key_in (codes "full:9")) (codes "summary") (codes "e")
      (new_scope 0 entries []) (new_scope 0 entries []) two_modes refl refl refl refl refl

-- An entry of Charles for a picture.
abbrev picture : Fields
picture =
    field (codes "host") (str (codes "a.b"))
      (field (codes "method") (str (codes "GET")) (field (codes "path") (str (codes "/p.png")) end))

scan_entries-transparent_example :
    SameScan runtime live
      (some (codes "c"))
      none
      (plain_query all_http 20 500)
      false
      (scan_entries runtime live
        (some (codes "c"))
        none
        (plain_query all_http 20 500)
        false
        (obj picture ∷ obj picture ∷ [])
        (start_pass (some [])))
      (scan_entries runtime live
        (some (codes "c"))
        none
        (plain_query all_http 20 500)
        false
        (obj picture ∷ obj picture ∷ [])
        (start_pass none))
unfolding fresh_value
scan_entries-transparent_example =
    scan_entries-transparent runtime live (some (codes "c")) none (plain_query all_http 20 500)
      false
      (λ hash.
        fresh_value runtime live (some (codes "c")) none (plain_query all_http 20 500) false
          picture)
      (obj picture ∷ obj picture ∷ []) [] (λ hash value found. cc) (refl, (refl, tt))

abbrev as_asset : ResourceClassification
as_asset = record { resource_class = static_asset; priority_score = 5; priority_reasons = [] }

abbrev options : Options
options = record {
  capture_source = live;
  capture_id = some (codes "c");
  recording_path = none;
  limits = record { include_full_body = false; max_preview_chars = 32; max_full_body_chars = 64 };
  max_headers_per_side = 8;
}

abbrev entry_or : TrafficEntry → Result TrafficEntry → TrafficEntry
entry_or other (raise f) = other
entry_or other (ok entry) = entry

abbrev picture_entry : TrafficEntry
picture_entry =
    entry_or blank_entry (normalize_entry plain ascii_tables codecs strict options none picture)

normalize_entry-AreShort_example : AreShort options picture_entry
unfolding normalize_entry section text_eq
normalize_entry-AreShort_example =
    normalize_entry-AreShort plain ascii_tables codecs strict options none picture picture_entry
      refl

abbrev by_host : TrafficQuery
by_host = record (plain_query api_focus 20 500) { host_contains = some (codes "A.") }

abbrev orchestrator : Orchestrator
orchestrator = record { normalize_cache = []; hits = 0; misses = 0; entry_cache = empty_cache }

abbrev times : Times
times = record { now = 0; stamp = 0; moment = pos 0 }

abbrev load : Load
load = record {
  source = live;
  raw_entries = obj picture ∷ null ∷ [];
  capture_id = some (codes "c");
  recording_path = none;
  next_cursor = none;
  total_items = none;
  already_truncated = false;
  initial_warnings = [];
}

abbrev blank_prepared : PreparedTrafficEntries
blank_prepared = record {
  source = live;
  identity = some (codes "c");
  total_items = 2;
  scanned_count = 2;
  matched_count = 0;
  filtered_out_count = 1;
  filtered_out_by_class = (static_asset, 1) ∷ [];
  matched_entries = [];
  next_cursor = none;
  truncated = false;
  warnings = [];
}

prepare_entries-counts_example : (2 ≤ 500) × (0 + 1 ≤ 2) × ◌≡◌ {A = ℕ} 0 0
unfolding prepare_entries section text_eq classify_signals
prepare_entries-counts_example =
    prepare_entries-counts runtime times (plain_query api_focus 20 500) load orchestrator
      blank_prepared refl

abbrev no_services : Services
no_services = record {
  read = λ c n l a. raise file_not_found;
  get_snapshot = λ p. raise file_not_found;
  load_latest_with_path = raise file_not_found;
}

abbrev one_matched : PreparedTrafficEntries
one_matched = record blank_prepared {
  matched_entries =
      (blank_entry, record { matched = true; matched_fields = []; match_reasons = [] }) ∷ [];
}

build_query_result_complete_example :
    (length (build_query_result runtime no_services one_matched by_host true).items ≤ 20)
    × ((build_query_result runtime no_services one_matched by_host true).truncated ≡ false
        → length (build_query_result runtime no_services one_matched by_host true).items ≡ 1)
build_query_result_complete_example =
    build_query_result_complete runtime no_services one_matched by_host

build_groups_complete_example :
    (length (build_groups live host one_matched 10).groups ≤ 10)
    × ((build_groups live host one_matched 10).truncated ≡ false
        → counted (build_groups live host one_matched 10).groups ≡ 1)
build_groups_complete_example = build_groups_complete live host one_matched 10

abbrev raw_header : Text → Value
raw_header value =
    obj (field (codes "name") (str (codes "Accept")) (field (codes "value") (str value) end))

abbrev accept : Text → HeaderKv
accept value = record { name = codes "Accept"; value = some value; lower_name = codes "accept" }

normalize_headers-IsGrouped_example :
    IsGrouped
      (accept (codes "a") ∷ accept (codes "b") ∷ [])
      ((codes "accept", codes "a" ∷ codes "b" ∷ []) ∷ [])
unfolding normalize_headers text_eq insert lookup
normalize_headers-IsGrouped_example =
    normalize_headers-IsGrouped plain ascii_tables
      (some (arr (cons (raw_header (codes "a")) (cons (raw_header (codes "b")) nil)))) _ _ refl
