-- ===== src/Tests/Rules.antt =====
-- charles_mcp/mocks/rules.py: the matching of requests, on two rules and one route.
use charles_mcp.Prelude.{◌≡◌, refl, true, false, some, List, [], ◌∷◌, All, Among}
use charles_mcp.Prelude.Text.{codes, text_eq}
use charles_mcp.Prelude.Outcome.{ok}
use charles_mcp.Prelude.Strings.{ends_with}
use charles_mcp.Rules.Model.{MockRule}
use charles_mcp.Rules.Match.{rule_matches}
use charles_mcp.Rules.Select.{applies, select_rule}
use charles_mcp.Rules.Select.Best.{IsPreferred, select_rule-Among}
use charles_mcp.Rules.Path.{path_matches, rule_path_matches, route_covers_rule_path}
use charles_mcp.Rules.Path.Covers.{path_matches-route_covers}
use charles_mcp.Rules.Path.Starred.{route_covers-starred}
use charles_mcp.Tests.Samples.{
  plain_python, ascii_tables, plain_decoders, wallet_rule, any_rule, wallet_request,
}

abbrev two_rules : List MockRule
two_rules = any_rule ∷ wallet_rule ∷ []

-- Both rules match; the one of the exact host is taken.
selected :
    select_rule plain_python ascii_tables plain_decoders two_rules wallet_request
    ≡ ok (some wallet_rule)
unfolding select_rule text_eq rule_matches
selected = refl

select_rule-Among_example :
    Among wallet_rule two_rules
    × (wallet_rule.enabled ≡ true)
    × (rule_matches plain_python ascii_tables plain_decoders wallet_rule wallet_request ≡ ok true)
    × All
        (λ rule.
          applies plain_python ascii_tables plain_decoders wallet_request rule ≡ ok true
          → IsPreferred wallet_rule rule)
        two_rules
select_rule-Among_example =
    select_rule-Among plain_python ascii_tables plain_decoders wallet_request two_rules wallet_rule
      selected

path_matches-route_covers_example : path_matches (codes "/api/*") (codes "/api/v1/x") ≡ true
unfolding ends_with
path_matches-route_covers_example =
    path_matches-route_covers (codes "/api/*") (codes "/api/v*/x") (codes "/api/v1/x")
      (unfold text_eq in refl) (unfold route_covers_rule_path text_eq in refl)
      (unfold rule_path_matches text_eq in refl)

route_covers-starred_example :
    (route_covers_rule_path (codes "/api*") (codes "/api*") ≡ true)
    × (rule_path_matches (codes "/api*") (codes "/api") ≡ true)
    × (path_matches (codes "/api*") (codes "/api") ≡ false)
route_covers-starred_example = route_covers-starred (codes "api") refl refl (λ p. absurd (cc))
