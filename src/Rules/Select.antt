-- ===== src/Rules/Select.antt =====
-- `select_rule`: the rules that match, sorted by their key; the first one is taken.
pub mod Best
use charles_mcp.Prelude.{
  ℕ, Bool, true, false, ◌&&◌, Option, none, some, List, [], ◌∷◌, contains, nat_eq, if◌then◌else◌,
}
use charles_mcp.Prelude.Strings.{CaseTables}
use charles_mcp.Prelude.Order.{
  Ordering, then_by, compare_int, compare_bool, compare_text, compare, IsOrder, compare-IsOrder,
  compare_int-IsOrder, compare_bool-IsOrder, compare_text-IsOrder, then_by-IsOrder, key-IsOrder,
  key_down-IsOrder,
}
use charles_mcp.Prelude.Sort.{sort, first}
use charles_mcp.Prelude.Outcome.{ok, raise, ◌>>=◌}
use charles_mcp.JsonPatch.Python.{Python, Result}
use charles_mcp.Rules.Names.{is_host_pattern}
use charles_mcp.Rules.Model.{MockRule, specificity}
use charles_mcp.Rules.Match.{Decoders, IncomingRequest, rule_matches}

-- `"*" in rule.match.path`
abbrev pub has_star_path : MockRule → Bool
has_star_path rule = contains rule.match.path b'*'

-- The comparison of the keys, tuples of five: a negated number compares the other way round.
unfoldable pub rule_order : MockRule → MockRule → Ordering
rule_order a b = then_by (compare_int b.priority a.priority) (
    then_by (compare_bool (is_host_pattern a.host) (is_host_pattern b.host)) (
      then_by (compare_bool (has_star_path a) (has_star_path b))
        (then_by (compare (specificity b.match) (specificity a.match)) (compare_text a.id b.id))))

pub rule_order-IsOrder : IsOrder rule_order
unfolding rule_order
rule_order-IsOrder =
    then_by-IsOrder _ _ (key_down-IsOrder compare_int (λ r. r.priority) compare_int-IsOrder) (
      then_by-IsOrder _ _
        (key-IsOrder compare_bool (λ r. is_host_pattern r.host) compare_bool-IsOrder)
        (then_by-IsOrder _ _ (key-IsOrder compare_bool has_star_path compare_bool-IsOrder) (
          then_by-IsOrder _ _ (key_down-IsOrder compare (λ r. specificity r.match) compare-IsOrder)
            (key-IsOrder compare_text (λ r. r.id) compare_text-IsOrder))))

module _ (py : Python) (tables : CaseTables) (dec : Decoders) where
  -- `rule.enabled and rule_matches(rule, request)`
  unfoldable pub applies : IncomingRequest → MockRule → Result Bool
  applies request rule = if rule.enabled then rule_matches py tables dec rule request else ok false

  unfoldable pub candidates : IncomingRequest → List MockRule → Result (List MockRule)
  unfolding applies
  candidates request [] = ok []
  candidates request (rule ∷ rules) =
      let others = candidates request rules in
      do hit ← applies request rule; rest ← others; ok (if hit then rule ∷ rest else rest)

  unfoldable pub select_rule : List MockRule → IncomingRequest → Result (Option MockRule)
  unfolding candidates sort rule_order
  select_rule rules request = do
    found ← candidates request rules
    ok (first rule_order (sort rule_order found))
