-- ===== src/Traffic/Grouping.antt =====
-- charles_mcp/services/traffic_grouping_service.py, and `group_capture` of
-- traffic_query_service.py.
pub mod Sums
use charles_mcp.Prelude.{
  ℕ, zero, suc, ◌+◌, ◌≡◌, Bool, true, false, not, ◌&&◌, ◌||◌, Option, none, some, List, [], ◌∷◌,
  ◌++◌, length, take, map, ltb, contains, ◌==◌, if◌then◌else◌,
}
use Prim.Native.Nat.{compare, Ordering}
use charles_mcp.Prelude.Text.{Text, text_eq, codes}
use charles_mcp.Prelude.Int.{ℤ, pos, ◌+ℤ◌}
use charles_mcp.Prelude.Order.{then_by, compare_text, compare_int}
use charles_mcp.Prelude.Sort.{sort}
use charles_mcp.Prelude.Dict.{Dict, lookup, insert, values}
use charles_mcp.Prelude.Outcome.{ok}
use charles_mcp.Traffic.Schema.{
  CaptureSource, ResourceClass, class_eq, TrafficEntry, TrafficMatch, TrafficQuery, given, or_empty,
  or_zero, api_candidate, document, script, static_asset, media, font, connect_tunnel, control,
  unknown,
}
use charles_mcp.Traffic.Schema.Results.{
  PreparedTrafficEntries, TrafficGroupSummary, TrafficGroupBy, CaptureAnalysisGroupsResult, host,
  path, response_status, resource_class, method, host_path, host_status,
}
use charles_mcp.Traffic.Match.{has_error_signal, str_int}
use charles_mcp.Traffic.Prepare.{Times}
use charles_mcp.Traffic.Prepare.State.{Runtime, Orchestrator}
use charles_mcp.Traffic.Query.{Services, Call, Capture, after_call, prepare_capture}

abbrev pub class_text : ResourceClass → Text
class_text api_candidate = codes "api_candidate"
class_text document = codes "document"
class_text script = codes "script"
class_text static_asset = codes "static_asset"
class_text media = codes "media"
class_text font = codes "font"
class_text connect_tunnel = codes "connect_tunnel"
class_text control = codes "control"
class_text unknown = codes "unknown"

-- `value or "unknown"`
abbrev or_unknown : Option Text → Text
or_unknown value = if given value then or_empty value else codes "unknown"

-- `str(entry.response_status or "unknown")`
abbrev status_text : Option ℤ → Text
status_text none = codes "unknown"
status_text (some (pos zero)) = codes "unknown"
status_text (some n) = str_int n

-- `_group_value`
unfoldable pub group_value : TrafficGroupBy → TrafficEntry → Text
group_value host_path entry = or_unknown entry.host ++ b' ' ∷ or_unknown entry.path
group_value host_status entry = or_unknown entry.host ++ b' ' ∷ status_text entry.response_status
group_value response_status entry = status_text entry.response_status
group_value host entry = or_unknown entry.host
group_value path entry = or_unknown entry.path
group_value resource_class entry = class_text entry.resource_class
group_value method entry = or_unknown entry.method

-- A bucket; its classes are a set, kept in the order of insertion.
abbrev pub Bucket : Type 0
Bucket = TrafficGroupSummary

abbrev new_bucket : Text → Bucket
new_bucket value = record {
  group_value = value;
  count = 0;
  total_size = pos 0;
  has_error_count = 0;
  sample_paths = [];
  sample_entry_ids = [];
  resource_classes = [];
}

-- A sample that is new, while there are fewer than three.
unfoldable pub add_sample : Text → List Text → List Text
add_sample sample samples =
    if not (contains samples sample) && ltb (length samples) 3
    then samples ++ sample ∷ []
    else samples

abbrev add_class : ResourceClass → List ResourceClass → List ResourceClass
add_class c classes = if contains classes c then classes else classes ++ c ∷ []

-- The body of the loop over the matched entries.
unfoldable pub add_to_bucket : TrafficEntry → Bucket → Bucket
unfolding add_sample
add_to_bucket entry bucket = record {
  group_value = bucket.group_value;
  count = suc bucket.count;
  total_size = bucket.total_size +ℤ or_zero entry.total_size;
  has_error_count = bucket.has_error_count + (if has_error_signal entry then 1 else 0);
  sample_paths =
      if given entry.path
      then add_sample (or_empty entry.path) bucket.sample_paths
      else bucket.sample_paths;
  sample_entry_ids = add_sample entry.entry_id bucket.sample_entry_ids;
  resource_classes = add_class entry.resource_class bucket.resource_classes;
}

-- `groups.setdefault(value, {...})`
abbrev pub bucket_of : Text → Dict Text Bucket → Bucket
bucket_of value groups = elim (lookup value groups) [
  | none ↦ new_bucket value
  | some bucket ↦ bucket
]

-- The loop of `build_result`.
unfoldable pub collect_groups :
    TrafficGroupBy → List (TrafficEntry × TrafficMatch) → Dict Text Bucket → Dict Text Bucket
unfolding group_value lookup insert add_to_bucket
collect_groups group_by [] groups = groups
collect_groups group_by ((entry, m) ∷ entries) groups =
    let value = group_value group_by entry in
    collect_groups group_by entries
      (insert value (add_to_bucket entry (bucket_of value groups)) groups)

-- The key of the sort under `reverse=True`.
abbrev pub group_order : Bucket → Bucket → Ordering
group_order a b =
    then_by (compare b.count a.count)
      (then_by (compare_int b.total_size a.total_size) (compare_text b.group_value a.group_value))

abbrev class_order : ResourceClass → ResourceClass → Ordering
class_order a b = compare_text (class_text a) (class_text b)

abbrev pub sort_classes : Bucket → TrafficGroupSummary
sort_classes bucket = record bucket { resource_classes = sort class_order bucket.resource_classes }

-- `build_result`
unfoldable pub build_groups :
    CaptureSource → TrafficGroupBy → PreparedTrafficEntries → ℕ → CaptureAnalysisGroupsResult
unfolding collect_groups sort compare_text
build_groups source group_by prepared max_groups =
    let ordered = sort group_order (values (collect_groups group_by prepared.matched_entries [])) in
    record {
      source = source;
      group_by = group_by;
      groups = map sort_classes (take max_groups ordered);
      total_items = prepared.total_items;
      scanned_count = prepared.scanned_count;
      matched_count = prepared.matched_count;
      filtered_out_count = prepared.filtered_out_count;
      filtered_out_by_class = prepared.filtered_out_by_class;
      truncated = prepared.truncated || ltb max_groups (length ordered);
      warnings = prepared.warnings;
    }

-- `group_capture`
unfoldable pub group_capture :
    Runtime
    → Services
    → Times
    → Capture
    → TrafficGroupBy
    → TrafficQuery
    → ℕ
    → Orchestrator
    → Call CaptureAnalysisGroupsResult
unfolding prepare_capture build_groups
group_capture rt sv times capture group_by query max_groups o =
    after_call (prepare_capture rt sv times query capture o)
      (λ prepared next. (next, ok (build_groups capture.source group_by prepared max_groups)))
