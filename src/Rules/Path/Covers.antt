-- ===== src/Rules/Path/Covers.antt =====
-- `route_covers_rule_path` against the two tests that it speaks of.
use charles_mcp.Prelude.{
  ◌≡◌, refl, sym, ap, subst, true, false, [], ◌∷◌, ◌++◌, length, append_assoc, ◌∙◌, contains, ◌==◌,
  nat_eq, eq_iff, eq_sym, arith, inl, inr, Bool-cases, if◌then◌else◌,
}
use charles_mcp.Prelude.Text.{Text, codes, text_eq}
use charles_mcp.Prelude.Strings.{
  split, starts_with, ends_with, drop_end, before, starts_with_trans, starts_with_self, split-cons,
  ends_with-parts, drop_end-append, before-clean,
}
use charles_mcp.Rules.Glob.{segment_matches, glob}
use charles_mcp.Rules.Path.{path_matches, segments_match, rule_path_matches, route_covers_rule_path}

-- Segment by segment: the path begins with what stands before the first `*`.
segments-starts_with :
    (pattern path : Text)
    → length (split b'/' pattern) ≡ length (split b'/' path)
    → segments_match (split b'/' pattern) (split b'/' path) ≡ true
    → starts_with (before b'*' pattern) path ≡ true
unfolding split segments_match segment_matches glob starts_with before
segments-starts_with [] path same h = refl
segments-starts_with (p ∷ ps) [] same h =
    let (piece, pieces, e) = split-cons b'/' ps in ground (arith, e)
segments-starts_with (p ∷ ps) (c ∷ cs) same h =
    let (piece, pieces, e) = split-cons b'/' ps in
    let (piece', pieces', e') = split-cons b'/' cs in
    ground (arith, e, e', segments-starts_with ps cs)

-- What a route pattern spells out: the pattern without a final `/*`.
abbrev pub route_base : Text → Text
route_base pattern = if ends_with (codes "/*") pattern then drop_end 2 pattern else pattern

rule_path-starts_with :
    (rule path : Text)
    → rule_path_matches rule path ≡ true
    → starts_with (before b'*' rule) path ≡ true
unfolding rule_path_matches
rule_path-starts_with rule path h = elim (Bool-cases (contains rule b'*')) [
  | inl star ↦ ground (arith, segments-starts_with rule path)
  | inr plain ↦
      rw (before-clean b'*' rule plain)
        (subst (λ t. starts_with rule t ≡ true) (sym (exact plain)) (starts_with_self rule))
]
  where
    exact : contains rule b'*' ≡ false → path ≡ rule
    exact plain = (eq_iff path rule).0 (ground arith)

rule_path-exact :
    (rule path : Text)
    → contains rule b'*' ≡ false
    → rule_path_matches rule path ≡ true
    → path ≡ rule
unfolding rule_path_matches
rule_path-exact rule path plain h = (eq_iff path rule).0 (ground arith)

-- `pattern[:-2] + "/"` is `pattern[:-1]`.
drop_end-slash :
    (pattern : Text)
    → ends_with (codes "/*") pattern ≡ true
    → drop_end 2 pattern ++ codes "/" ≡ drop_end 1 pattern
unfolding ends_with
drop_end-slash pattern h =
    let (front, e) = ends_with-parts (codes "/*") pattern h in
    rw (e, drop_end-append front (codes "/*"))
      (sym (
        ap (drop_end 1) (sym (append_assoc front (codes "/") (codes "*")))
        ∙ drop_end-append (front ++ codes "/") (codes "*")))

-- A rule path that is the route's own, or lies below it.
under_base :
    (route rule path : Text)
    → ends_with (codes "/*") route ≡ true
    → starts_with (drop_end 2 route ++ codes "/") (before b'*' rule) ≡ true
    → rule_path_matches rule path ≡ true
    → starts_with (drop_end 1 route) path ≡ true
under_base route rule path prefix below matches =
    starts_with_trans (drop_end 1 route) (before b'*' rule) path
      (rw (drop_end-slash route prefix) at below) (rule_path-starts_with rule path matches)

at_base :
    (base rule path : Text)
    → contains base b'*' ≡ false
    → (rule == base) ≡ true
    → rule_path_matches rule path ≡ true
    → (path == base) ≡ true
at_base base rule path plain same matches =
    (eq_iff path base).1 (rule_path-exact rule path (rw e plain) matches ∙ e)
  where
    e : rule ≡ base
    e = (eq_iff rule base).0 same

-- When a route whose pattern has no star but a final `/*` covers a rule's path, every path that
-- the rule matches is one that the route's pattern matches.
pub path_matches-route_covers :
    (route rule path : Text)
    → contains (route_base route) b'*' ≡ false
    → route_covers_rule_path route rule ≡ true
    → rule_path_matches rule path ≡ true
    → path_matches route path ≡ true
unfolding route_covers_rule_path path_matches
path_matches-route_covers route rule path plain covers matches = ground (
  arith,
  plain,
  covers,
  under_base route rule path,
  at_base (drop_end 2 route) rule path,
  at_base route rule path,
  eq_sym rule route,
  matches,
)
