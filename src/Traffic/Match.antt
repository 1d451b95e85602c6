-- ===== src/Traffic/Match.antt =====
-- `match_entry` of charles_mcp/services/traffic_analysis.py: the filters of a query are a list of
-- checks in the order of the source, and the first that fails ends the match.
pub mod Views
pub mod Verdict
use charles_mcp.Prelude.{
  ℕ, suc, ◌≡◌, Bool, true, false, not, ◌&&◌, ◌||◌, Option, none, some, List, [], ◌∷◌, ◌++◌, any,
  map, contains, ◌==◌, if◌then◌else◌, Eq,
}
use charles_mcp.Prelude.Text.{Text, text_eq, codes}
use charles_mcp.Prelude.Int.{ℤ, pos, negsuc}
use charles_mcp.Prelude.Number.{str_nat}
use charles_mcp.Prelude.Order.{at_most, compare_int}
use charles_mcp.Prelude.Strings.{CaseTables, occurs}
use charles_mcp.Prelude.Dict.{Dict, lookup, values}
use charles_mcp.Prelude.Outcome.{ok, ◌>>=◌}
use charles_mcp.Json.{Value, null, bool, int, float, str, arr, obj, nil, cons, end}
use charles_mcp.Traffic.Raw.{Result}
use charles_mcp.Traffic.Schema.{
  TrafficEntry, TrafficQuery, TrafficMatch, TrafficPreset, HttpMessage, api_focus, errors_only,
  all_http, page_bootstrap, or_empty, or_zero, given, is_error_status, class_eq,
}
use charles_mcp.Traffic.Headers.{HeaderMap}

-- `str(n)` of an integer.
abbrev pub str_int : ℤ → Text
str_int (pos n) = str_nat n
str_int (negsuc n) = b'-' ∷ str_nat (suc n)

abbrev pub preset_text : TrafficPreset → Text
preset_text api_focus = codes "api_focus"
preset_text errors_only = codes "errors_only"
preset_text all_http = codes "all_http"
preset_text page_bootstrap = codes "page_bootstrap"

-- `bool(entry.error_message) or (entry.response_status or 0) >= 400`
abbrev pub has_error_signal : TrafficEntry → Bool
has_error_signal entry = given entry.error_message || is_error_status entry.response_status

-- One filter of a query: whether it is asked for, whether it is noted when it passes, what it
-- tests, and the field and the reason it adds.
pub record Check : Type 0 where
  pub active : Bool
  pub noted : Bool
  pub passes : Result Bool
  pub field : Text
  pub reason : Text

abbrev pub unmatched : TrafficMatch
unmatched = record { matched = false; matched_fields = []; match_reasons = [] }

-- The checks in order, with the fields and reasons so far.
unfoldable pub run_checks : TrafficPreset → List Text → List Text → List Check → Result TrafficMatch
run_checks preset fields reasons [] = ok (record {
  matched = true;
  matched_fields = fields;
  match_reasons = elim fields [
    | [] ↦ reasons ++ (codes "matched preset `" ++ preset_text preset ++ codes "`") ∷ []
    | f ∷ fs ↦ reasons
  ];
})
run_checks preset fields reasons (check ∷ checks) =
    let noted =
      run_checks preset (fields ++ check.field ∷ []) (reasons ++ check.reason ∷ []) checks in
    let silent = run_checks preset fields reasons checks in
    let next = if check.noted then noted else silent in
    let asked = (do passed ← check.passes; if passed then next else ok unmatched) in
    if check.active then asked else next

-- `_match_json_query` after `search`.
unfoldable pub counts_as_match : Option Value → Bool
counts_as_match none = false
counts_as_match (some null) = false
counts_as_match (some (bool b)) = b
counts_as_match (some (str [])) = false
counts_as_match (some (arr nil)) = false
counts_as_match (some (obj end)) = false
counts_as_match (some v) = true

-- `_body_text`
abbrev body_text : HttpMessage → Option Text
body_text message =
    if given message.body.full_text then message.body.full_text else message.body.preview_text

abbrev is_given : {A : Type 0} → Option A → Bool
is_given none = false
is_given (some a) = true

-- `n >= low` for a bound that may be missing, and `n <= high`.
abbrev at_least : Option ℤ → ℤ → Bool
at_least none n = true
at_least (some low) n = at_most (compare_int low n)

abbrev at_most_given : Option ℤ → ℤ → Bool
at_most_given none n = true
at_most_given (some high) n = at_most (compare_int n high)

abbrev is_asked : Option Bool → Bool → Bool
is_asked none b = true
is_asked (some wanted) b = if wanted then b else not b

abbrev is_true : Option Bool → Bool
is_true (some true) = true
is_true _ = false

abbrev show_bound : Option ℤ → Text
show_bound none = []
show_bound (some n) = str_int n

abbrev contains_int : List ℤ → Option ℤ → Bool
contains_int items none = false
contains_int items (some n) =
    any (λ m. at_most (compare_int m n) && at_most (compare_int n m)) items

abbrev is_nonempty : {A : Type 0} → List A → Bool
is_nonempty [] = false
is_nonempty (x ∷ xs) = true

-- `jmespath.compile(expression).search(payload)`; `none` is None.
module _ (ct : CaseTables) (search : Text → Value → Result (Option Value)) where
  -- `needle.lower() in (value or "").lower()`
  abbrev pub has_text : Option Text → Text → Bool
  has_text value needle = occurs (ct.lower needle) (ct.lower (or_empty value))

  abbrev any_value : Option (List Text) → Option Text → Bool
  any_value none value_contains = false
  any_value (some []) value_contains = false
  any_value (some (v ∷ vs)) none = true
  any_value (some (v ∷ vs)) (some needle) = any (λ w. has_text (some w) needle) (v ∷ vs)

  -- `_match_header`
  unfoldable pub match_header : HeaderMap → Option Text → Option Text → Bool
  unfolding occurs lookup
  match_header header_map name value_contains =
      if given name
      then any_value (lookup (ct.lower (or_empty name)) header_map) value_contains
      else if given value_contains
      then any (λ vs. any (λ w. has_text (some w) (or_empty value_contains)) vs) (values header_map)
      else true

  -- `_match_json_query`
  unfoldable pub match_json_query : Option Value → Text → Result Bool
  unfolding counts_as_match
  match_json_query none expression = ok false
  match_json_query (some null) expression = ok false
  match_json_query (some payload) expression = do
    result ← search expression payload
    ok (counts_as_match result)

  -- A filter that is a text: asked for when it is not empty.
  abbrev text_check : Option Text → Result Bool → Text → Text → Check
  text_check filter passes field reason = record {
    active = given filter;
    noted = given filter;
    passes = passes;
    field = field;
    reason = reason;
  }

  abbrev flag_check : Bool → Bool → Bool → Text → Text → Check
  flag_check active noted passes field reason = record {
    active = active;
    noted = noted;
    passes = ok passes;
    field = field;
    reason = reason;
  }

  abbrev header_check : HttpMessage → Option Text → Option Text → Text → Text → Check
  header_check message name value_contains field reason =
      let asked = given name || given value_contains in
      flag_check asked asked (match_header message.header_map name value_contains) field reason

  -- The filters in the order of `match_entry`.
  unfoldable pub checks_of : TrafficEntry → TrafficQuery → List Check
  unfolding match_header match_json_query occurs
  checks_of entry q =
      text_check q.host_contains (ok (has_text entry.host (or_empty q.host_contains)))
        (codes "host") (codes "host contains `" ++ or_empty q.host_contains ++ codes "`")
      ∷ text_check q.path_contains (ok (has_text entry.path (or_empty q.path_contains)))
          (codes "path") (codes "path contains `" ++ or_empty q.path_contains ++ codes "`")
      ∷ flag_check (is_nonempty q.method_in) (is_nonempty q.method_in)
          (contains (map ct.upper q.method_in) (ct.upper (or_empty entry.method))) (codes "method")
          (codes "method matches selection")
      ∷ flag_check (is_nonempty q.status_in) (is_nonempty q.status_in)
          (contains_int q.status_in entry.response_status) (codes "response_status")
          (codes "response status matches selection")
      ∷ flag_check (is_given q.has_error) (is_true q.has_error)
          (is_asked q.has_error (has_error_signal entry)) (codes "error")
          (codes "entry has error signal")
      ∷ flag_check (is_nonempty q.resource_class_in) (is_nonempty q.resource_class_in)
          (contains q.resource_class_in entry.resource_class) (codes "resource_class")
          (codes "resource class matches selection")
      ∷ flag_check (is_given q.min_priority_score) (is_given q.min_priority_score)
          (at_least q.min_priority_score (pos entry.priority_score)) (codes "priority_score")
          (codes "priority score >= " ++ show_bound q.min_priority_score)
      ∷ header_check entry.request q.request_header_name q.request_header_value_contains
          (codes "request.headers") (codes "request header filter matched")
      ∷ header_check entry.response q.response_header_name q.response_header_value_contains
          (codes "response.headers") (codes "response header filter matched")
      ∷ text_check q.request_content_type
          (ok (has_text entry.request.mime_type (or_empty q.request_content_type)))
          (codes "request.content_type") (codes "request content-type matched")
      ∷ text_check q.response_content_type
          (ok (has_text entry.response.mime_type (or_empty q.response_content_type)))
          (codes "response.content_type") (codes "response content-type matched")
      ∷ text_check q.request_body_contains
          (ok (has_text (body_text entry.request) (or_empty q.request_body_contains)))
          (codes "request.body") (codes "request body matched")
      ∷ text_check q.response_body_contains
          (ok (has_text (body_text entry.response) (or_empty q.response_body_contains)))
          (codes "response.body") (codes "response body matched")
      ∷ text_check q.request_json_query
          (match_json_query entry.request.body.parsed_json (or_empty q.request_json_query))
          (codes "request.body.json") (codes "request JSON query matched")
      ∷ text_check q.response_json_query
          (match_json_query entry.response.body.parsed_json (or_empty q.response_json_query))
          (codes "response.body.json") (codes "response JSON query matched")
      ∷ flag_check (is_given q.min_total_size) (is_given q.min_total_size)
          (at_least q.min_total_size (or_zero entry.total_size)) (codes "total_size")
          (codes "total size >= " ++ show_bound q.min_total_size)
      ∷ flag_check (is_given q.max_total_size) (is_given q.max_total_size)
          (at_most_given q.max_total_size (or_zero entry.total_size)) (codes "total_size")
          (codes "total size <= " ++ show_bound q.max_total_size)
      ∷ []

  -- `match_entry`
  unfoldable pub match_entry : TrafficEntry → TrafficQuery → Result TrafficMatch
  unfolding run_checks checks_of
  match_entry entry query = run_checks query.preset [] [] (checks_of entry query)
