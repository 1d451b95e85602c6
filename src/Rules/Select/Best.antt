-- ===== src/Rules/Select/Best.antt =====
-- `select_rule` takes a rule that applies and that no other one precedes.
use charles_mcp.Prelude.{
  ltb, ◌≤◌, refl, All-map, ◌≡◌, sym, subst, Bool, true, false, some, List, [], ◌∷◌, All, Among,
  arith, inl, inr, if◌then◌else◌,
}
use charles_mcp.Prelude.Strings.{CaseTables}
use charles_mcp.Prelude.Order.{Ordering, then_by, compare_int, at_most}
use charles_mcp.Prelude.Sort.{first-sort-at_most, first-sort-Among}
use charles_mcp.Prelude.Outcome.{ok, chain-parts, same_value}
use charles_mcp.JsonPatch.Python.{Python}
use charles_mcp.Prelude.Int.{ℤ, pos, negsuc}
use charles_mcp.Rules.Names.{is_host_pattern}
use charles_mcp.Rules.Model.{MockRule, specificity}
use charles_mcp.Rules.Match.{Decoders, IncomingRequest, rule_matches}
use charles_mcp.Rules.Select.{
  has_star_path, applies, candidates, select_rule, rule_order, rule_order-IsOrder,
}

-- `m < n` of Python's integers.
abbrev pub below : ℤ → ℤ → Bool
below (pos m) (pos n) = ltb m n
below (pos m) (negsuc n) = false
below (negsuc m) (pos n) = true
below (negsuc m) (negsuc n) = ltb n m

-- What the documentation of `select_rule` promises of the rule that is taken, against another.
pub record IsPreferred (a b : MockRule) : Type 0 where
  pub priority_first : below a.priority b.priority ≡ false
  pub exact_host_first :
      a.priority ≡ b.priority → is_host_pattern a.host ≡ true → is_host_pattern b.host ≡ true
  pub exact_path_first :
      a.priority ≡ b.priority
      → is_host_pattern a.host ≡ is_host_pattern b.host
      → has_star_path a ≡ true
      → has_star_path b ≡ true
  pub specific_first :
      a.priority ≡ b.priority
      → is_host_pattern a.host ≡ is_host_pattern b.host
      → has_star_path a ≡ has_star_path b
      → specificity b.match ≤ specificity a.match

compare_int-same : (x y : ℤ) → x ≡ y → compare_int y x ≡ Ordering.eq
compare_int-same x y p = subst (λ z. compare_int z x ≡ Ordering.eq) p (self x)
  where
    self : (n : ℤ) → compare_int n n ≡ Ordering.eq
    self (pos n) = ground arith
    self (negsuc n) = ground arith

compare_int-below :
    (x y : ℤ) (o : Ordering) → at_most (then_by (compare_int y x) o) ≡ true → below x y ≡ false
compare_int-below (pos m) (pos n) o h = ground arith
compare_int-below (pos m) (negsuc n) o h = refl
compare_int-below (negsuc m) (pos n) o h = absurd (cc)
compare_int-below (negsuc m) (negsuc n) o h = ground arith

rule_order-IsPreferred : (a b : MockRule) → at_most (rule_order a b) ≡ true → IsPreferred a b
unfolding rule_order
rule_order-IsPreferred a b h = record {
  priority_first = compare_int-below a.priority b.priority _ h;
  exact_host_first = λ p q. ground (arith, h, p, q, compare_int-same a.priority b.priority p);
  exact_path_first = λ p q r. ground (arith, h, p, q, r, compare_int-same a.priority b.priority p);
  specific_first = λ p q r. ground (arith, h, p, q, r, compare_int-same a.priority b.priority p);
}

module _ (py : Python) (tables : CaseTables) (dec : Decoders) (request : IncomingRequest) where
  -- What the candidates tell of each rule.
  candidates-All :
      (P : MockRule → Type 0) (rules found : List MockRule)
      → candidates py tables dec request rules ≡ ok found
      → All P found
      → All (λ rule. applies py tables dec request rule ≡ ok true → P rule) rules
  unfolding candidates
  candidates-All P [] found h all = tt
  candidates-All P (rule ∷ rules) found h all =
      let (hit, e, h') = chain-parts (applies py tables dec request rule) _ h in
      let (rest, e', h'') = chain-parts (candidates py tables dec request rules) _ h' in
      by_hit hit e rest e' (same_value h'') (candidates-All P rules rest e')
    where
      by_hit :
          (hit : Bool)
          → applies py tables dec request rule ≡ ok hit
          → (rest : List MockRule) → candidates py tables dec request rules ≡ ok rest
          → (if hit then rule ∷ rest else rest) ≡ found
          → (All P rest → All (λ r. applies py tables dec request r ≡ ok true → P r) rules)
          → All (λ r. applies py tables dec request r ≡ ok true → P r) (rule ∷ rules)
      by_hit true e rest e' same ih =
          let whole : All P (rule ∷ rest) = subst (All P) (sym same) all in
          (λ _. whole.0, ih whole.1)
      by_hit false e rest e' same ih = (λ yes'. absurd (cc), ih (subst (All P) (sym same) all))

  candidates-Among :
      (rules found : List MockRule) (m : MockRule)
      → candidates py tables dec request rules ≡ ok found
      → Among m found
      → Among m rules × (applies py tables dec request m ≡ ok true)
  unfolding candidates
  candidates-Among [] found m h at = absurd (subst (Among m) (sym (same_value h)) at)
  candidates-Among (rule ∷ rules) found m h at =
      let (hit, e, h') = chain-parts (applies py tables dec request rule) _ h in
      let (rest, e', h'') = chain-parts (candidates py tables dec request rules) _ h' in
      by_hit hit e rest (same_value h'') (candidates-Among rules rest m e')
    where
      by_hit :
          (hit : Bool)
          → applies py tables dec request rule ≡ ok hit
          → (rest : List MockRule) → (if hit then rule ∷ rest else rest) ≡ found
          → (Among m rest → Among m rules × (applies py tables dec request m ≡ ok true))
          → Among m (rule ∷ rules) × (applies py tables dec request m ≡ ok true)
      by_hit true e rest same ih = elim (subst (Among m) (sym same) at) [
        | inl here ↦ (inl here, rw here e)
        | inr later ↦ (inr (ih later).0, (ih later).1)
      ]
      by_hit false e rest same ih =
          let later = ih (subst (Among m) (sym same) at) in (inr later.0, later.1)

  applies-parts :
      (rule : MockRule)
      → applies py tables dec request rule ≡ ok true
      → (rule.enabled ≡ true) × (rule_matches py tables dec rule request ≡ ok true)
  unfolding applies
  applies-parts rule h = ground arith

  -- The rule that is selected is one of the rules, is enabled and matches the request, and it is
  -- preferred to every rule that applies: by priority, then as one of an exact host, then as one of
  -- an exact path, then by the number of its conditions.
  pub select_rule-Among :
      (rules : List MockRule) (m : MockRule)
      → select_rule py tables dec rules request ≡ ok (some m)
      → Among m rules
        × (m.enabled ≡ true)
        × (rule_matches py tables dec m request ≡ ok true)
        × All (λ rule. applies py tables dec request rule ≡ ok true → IsPreferred m rule) rules
  unfolding select_rule
  select_rule-Among rules m h =
      let (found, e, h') = chain-parts (candidates py tables dec request rules) _ h in
      let taken = same_value h' in
      let (among, applied) =
        candidates-Among rules found m e (first-sort-Among rule_order found m taken) in
      let (on, matched) = applies-parts m applied in
      (
        among,
        on,
        matched,
        candidates-All (IsPreferred m) rules found e (
            All-map (λ other. at_most (rule_order m other) ≡ true) (IsPreferred m) found
              (rule_order-IsPreferred m)
              (first-sort-at_most rule_order rule_order-IsOrder found m taken)),
      )
