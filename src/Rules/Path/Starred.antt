-- ===== src/Rules/Path/Starred.antt =====
-- What `route_covers_rule_path` says of a route path with a star of its own.
use charles_mcp.Prelude.{
  ℕ, ◌≡◌, refl, ◌≢◌, true, false, [], ◌∷◌, ◌++◌, contains, contains-append, ◌==◌, nat_eq, eq_refl,
  eq_of_ne, arith,
}
use charles_mcp.Prelude.Text.{Text, codes, text_eq}
use charles_mcp.Prelude.Strings.{split, ends_with}
use charles_mcp.Rules.Glob.{segment_matches, glob}
use charles_mcp.Rules.Path.{path_matches, rule_path_matches, route_covers_rule_path}

split-flat : (sep : ℕ) (text : Text) → contains text sep ≡ false → split sep text ≡ text ∷ []
unfolding split
split-flat sep [] h = refl
split-flat sep (c ∷ cs) h = ground (arith, split-flat sep cs)

ends_with-flat :
    (name : Text) → contains name b'/' ≡ false → ends_with (codes "/*") (name ++ codes "*") ≡ false
unfolding ends_with text_eq
ends_with-flat [] h = refl
ends_with-flat (c ∷ cs) h = ground (arith, ends_with-flat cs)

append_star-ne : (name : Text) → name ≢ name ++ codes "*"
append_star-ne [] p = cc
append_star-ne (c ∷ cs) p = append_star-ne cs (cc)

append_star-ne_star : (name : Text) → name ≢ [] → name ++ codes "*" ≢ codes "*"
append_star-ne_star [] h p = h refl
append_star-ne_star (c ∷ []) h p = cc
append_star-ne_star (c ∷ d ∷ cs) h p = cc

segment_matches-star :
    (name : Text) → contains name b'*' ≡ false → segment_matches (name ++ codes "*") name ≡ true
unfolding segment_matches glob
segment_matches-star [] h = refl
segment_matches-star (c ∷ cs) h = ground (arith, segment_matches-star cs, eq_refl c)

module _ (name : Text) (plain : contains name b'*' ≡ false) (flat : contains name b'/' ≡ false)
    (some_name : name ≢ []) where
  has_star : contains (name ++ codes "*") b'*' ≡ true
  has_star = rw (contains-append name (codes "*") b'*', plain)

  flat_star : contains (name ++ codes "*") b'/' ≡ false
  flat_star = rw (contains-append name (codes "*") b'/', flat)

  abbrev starred : Text
  starred = b'/' ∷ name ++ codes "*"

  not_whole : (starred == codes "/*") ≡ false
  not_whole = eq_of_ne starred (codes "/*") (λ p. append_star-ne_star name some_name (cc))

  covers_itself : route_covers_rule_path starred starred ≡ true
  unfolding route_covers_rule_path
  covers_itself = ground (arith, not_whole, ends_with-flat name flat, eq_refl starred)

  rule_matches_name : rule_path_matches starred (b'/' ∷ name) ≡ true
  unfolding rule_path_matches
  rule_matches_name = ground (
    arith,
    has_star,
    split-flat b'/' (name ++ codes "*") flat_star,
    split-flat b'/' name flat,
    segment_matches-star name plain,
  )

  route_misses_name : path_matches starred (b'/' ∷ name) ≡ false
  unfolding path_matches
  route_misses_name = ground (
    arith,
    not_whole,
    ends_with-flat name flat,
    eq_of_ne (b'/' ∷ name) starred (λ p. append_star-ne name (cc)),
  )

-- For a name without `*` and `/` that is not empty, the route path that is the name with a star
-- behind it is taken for covering the same rule path, which matches the path of the bare name,
-- which the route does not match.
pub route_covers-starred :
    (name : Text)
    → contains name b'*' ≡ false
    → contains name b'/' ≡ false
    → name ≢ []
    → (route_covers_rule_path (b'/' ∷ name ++ codes "*") (b'/' ∷ name ++ codes "*") ≡ true)
      × (rule_path_matches (b'/' ∷ name ++ codes "*") (b'/' ∷ name) ≡ true)
      × (path_matches (b'/' ∷ name ++ codes "*") (b'/' ∷ name) ≡ false)
route_covers-starred name plain flat some_name = (
  covers_itself name plain flat some_name,
  rule_matches_name name plain flat some_name,
  route_misses_name name plain flat some_name,
)
