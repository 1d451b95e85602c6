-- ===== src/Rules/Path.antt =====
-- Paths: `split_request_path`, `normalize_path_pattern`, and the tests of a path against the
-- pattern of a route and of a rule.
pub mod Covers
pub mod Starred
use charles_mcp.Prelude.{
  ℕ, Bool, true, false, ◌&&◌, ◌||◌, not, Option, none, some, List, [], ◌∷◌, ◌++◌, any, length,
  contains, ltb, ◌==◌, nat_eq, if◌then◌else◌,
}
use charles_mcp.Prelude.Text.{Text, codes, text_eq}
use charles_mcp.Prelude.Strings.{
  split, join, strip, starts_with, ends_with, drop_end, before, after, occurs,
}
use charles_mcp.Prelude.Outcome.{ok, raise, ◌>>=◌, ◌>>◌}
use charles_mcp.Rules.Glob.{segment_matches}
use charles_mcp.Rules.Names.{
  Checked, no_leading_slash, trailing_slash, empty_segment, dot_segment, forbidden_character,
  query_in_path,
}

abbrev is_forbidden : Text → Bool
is_forbidden segment = segment == codes "." || segment == codes ".."

abbrev check_segment : Text → Checked (Unit {0})
check_segment segment =
    if segment == []
    then raise empty_segment
    else if is_forbidden segment
    then raise dot_segment
    else if contains segment 92 || any (λ c. ltb c 32) segment
    then raise forbidden_character
    else ok tt

unfoldable pub check_segments : List Text → Checked (Unit {0})
check_segments [] = ok tt
check_segments (segment ∷ segments) = do check_segment segment; check_segments segments

abbrev tail_of : Text → Text
tail_of [] = []
tail_of (c ∷ cs) = cs

abbrev query_of : Text → Option Text
query_of raw =
    if contains raw b'?'
    then (if after b'?' raw == [] then none else some (after b'?' raw))
    else none

-- `before` leaves a text without the separator as it is.
unfoldable pub split_request_path : Text → Checked (List Text × Option Text)
unfolding check_segments split strip before after starts_with ends_with
split_request_path path =
    let stripped = strip path in
    let raw = before b'#' (before b'?' stripped) in
    if not (starts_with (codes "/") raw)
    then raise no_leading_slash
    else if ends_with (codes "/") raw
    then raise trailing_slash
    else do
      check_segments (split b'/' (tail_of raw))
      ok (split b'/' (tail_of raw), query_of stripped)

abbrev without_query : List Text × Option Text → Checked Text
without_query (segments, some query) = raise query_in_path
without_query (segments, none) = ok (b'/' ∷ join b'/' segments)

-- `_validate_path`
unfoldable pub validate_path : Text → Checked Text
unfolding split_request_path join
validate_path value = do parts ← split_request_path value; without_query parts

-- A route path: `/*` for the whole host, `/api/*` for a prefix, or one path.
unfoldable pub normalize_path_pattern : Text → Checked Text
unfolding validate_path ends_with
normalize_path_pattern value =
    if value == codes "/*" || value == codes "*"
    then ok (codes "/*")
    else if ends_with (codes "/*") value
    then (do base ← validate_path (drop_end 2 value); ok (base ++ codes "/*"))
    else validate_path value

unfoldable pub path_matches : Text → Text → Bool
unfolding ends_with starts_with
path_matches pattern path =
    if pattern == codes "/*"
    then true
    else if ends_with (codes "/*") pattern
    then path == drop_end 2 pattern || starts_with (drop_end 1 pattern) path
    else path == pattern

-- `all(... for expected, actual in zip(...))`
unfoldable pub segments_match : List Text → List Text → Bool
unfolding segment_matches
segments_match [] actual = true
segments_match (e ∷ expected) [] = true
segments_match (e ∷ expected) (a ∷ actual) = segment_matches e a && segments_match expected actual

unfoldable pub rule_path_matches : Text → Text → Bool
unfolding split segments_match
rule_path_matches pattern path =
    if not (contains pattern b'*')
    then path == pattern
    else length (split b'/' pattern) == length (split b'/' path)
      && segments_match (split b'/' pattern) (split b'/' path)

unfoldable pub route_covers_rule_path : Text → Text → Bool
unfolding ends_with starts_with before
route_covers_rule_path route_pattern rule_path =
    if route_pattern == codes "/*"
    then true
    else if ends_with (codes "/*") route_pattern
    then rule_path == drop_end 2 route_pattern
      || starts_with (drop_end 2 route_pattern ++ codes "/") (before b'*' rule_path)
    else route_pattern == rule_path
