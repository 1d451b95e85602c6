-- ===== src/Traffic/Cache/Bounded.antt =====
-- What eviction leaves: the scopes in their order, without the oldest or the expired.
use charles_mcp.Prelude.{
  ℕ, zero, suc, ◌+◌, ◌-◌, ◌≤◌, ◌≡◌, refl, sym, ap, ◌∙◌, true, false, none, some, List, [], ◌∷◌,
  length, drop, ltb, leb, contains, ◌==◌, Bool-cases, Option-cases, if◌then◌else◌, eq_iff, ◌⊎◌, inl,
  inr, arith, ltb→lt, drop-all,
}
use charles_mcp.Prelude.Dict.{
  Dict, lookup, erase, keys, lookup-erase, NodupKeys, erase-fresh, lookup-head, erase-head,
  erase-NodupKeys, contains-keys-lookup,
}
use charles_mcp.Prelude.Text.{Text}
use charles_mcp.Traffic.Cache.{
  TrafficCacheKey, key_eq, TrafficCacheScope, TrafficEntryCache, drop_scope, drop_scopes,
  drop_entries, drop_first, EntryKey, expired_keys, evict_expired, evict_rounds, evict_overflow,
}

abbrev pub Scopes : Type 0
Scopes = Dict TrafficCacheKey TrafficCacheScope

pub drop_scope-erase :
    (key : TrafficCacheKey) (c : TrafficEntryCache) → (drop_scope key c).scopes ≡ erase key c.scopes
unfolding drop_scope
drop_scope-erase key c = elim (Option-cases (lookup key c.scopes)) [
  | inl gone ↦
      rw (gone, drop_scope)
        (sym (erase-fresh key c.scopes (contains-keys-lookup key c.scopes gone)))
  | inr (scope, found) ↦ rw (found, drop_scope) refl
]

abbrev pub limits : TrafficEntryCache → ℕ × ℕ
limits c = (c.max_scopes, c.ttl_seconds)

pub drop_scope-limits :
    (key : TrafficCacheKey) (c : TrafficEntryCache) → limits (drop_scope key c) ≡ limits c
unfolding drop_scope
drop_scope-limits key c = elim (Option-cases (lookup key c.scopes)) [
  | inl gone ↦ rw (gone, drop_scope) refl
  | inr (scope, found) ↦ rw (found, drop_scope) refl
]

abbrev cache_with : ℕ → ℕ → Scopes → Dict EntryKey Text → TrafficEntryCache
cache_with m t scopes index = record {
  max_scopes = m;
  ttl_seconds = t;
  scopes = scopes;
  entry_index = index;
}

drop_scope-head :
    (m t : ℕ) (key : TrafficCacheKey) (scope : TrafficCacheScope) (scopes : Scopes)
    (index : Dict EntryKey Text)
    → contains (keys scopes) key ≡ false
    → drop_scope key (cache_with m t ((key, scope) ∷ scopes) index)
      ≡ cache_with m t scopes (drop_entries key (keys scope.entries) index)
unfolding drop_scope
drop_scope-head m t key scope scopes index fresh =
    rw (drop_scope, lookup-head key scope scopes, erase-head key scope scopes fresh) refl

less_one : (n m : ℕ) → ltb m (suc n) ≡ true → suc (n - m) ≡ suc n - m
less_one n m over = omega (arith, ltb→lt m (suc n) over)

nothing_less : (n m : ℕ) → ltb m (suc n) ≡ false → 0 ≡ suc n - m
nothing_less n m fits = ground arith

-- With distinct keys, the rounds cut the excess off at the front.
evict_rounds-drop :
    (fuel m t : ℕ) (scopes : Scopes) (index : Dict EntryKey Text)
    → NodupKeys scopes
    → length scopes ≤ fuel + m
    → (evict_rounds fuel (cache_with m t scopes index)).scopes ≡ drop (length scopes - m) scopes
unfolding evict_rounds
evict_rounds-drop zero m t scopes index u enough =
    ap (λ n. drop n scopes) (let e : 0 ≡ length scopes - m = omega arith in e)
evict_rounds-drop (suc fuel) m t [] index u enough =
    rw (let e : ltb m 0 ≡ false = ground arith in e) (sym (drop-all [] (0 - m) (omega arith)))
evict_rounds-drop (suc fuel) m t ((key, scope) ∷ scopes) index (fresh, u) enough =
    elim (Bool-cases (ltb m (suc (length scopes)))) [
      | inl over ↦
          rw (over, drop_scope-head m t key scope scopes index fresh)
            (evict_rounds-drop fuel m t scopes (drop_entries key (keys scope.entries) index) u
                (omega arith)
              ∙ ap (λ n. drop n ((key, scope) ∷ scopes)) (less_one (length scopes) m over))
      | inr fits ↦
          rw fits (ap (λ n. drop n ((key, scope) ∷ scopes)) (nothing_less (length scopes) m fits))
    ]

pub evict_overflow-drop :
    (c : TrafficEntryCache)
    → NodupKeys c.scopes
    → (evict_overflow c).scopes ≡ drop (length c.scopes - c.max_scopes) c.scopes
unfolding evict_overflow
evict_overflow-drop c u =
    evict_rounds-drop (length c.scopes) c.max_scopes c.ttl_seconds c.scopes c.entry_index u
      (omega arith)

drop_scopes-NodupKeys :
    (ks : List TrafficCacheKey) (c : TrafficEntryCache)
    → NodupKeys c.scopes
    → NodupKeys (drop_scopes ks c).scopes
unfolding drop_scopes
drop_scopes-NodupKeys [] c u = u
drop_scopes-NodupKeys (k ∷ ks) c u =
    drop_scopes-NodupKeys ks (drop_scope k c)
      (rw (drop_scope-erase k c) (erase-NodupKeys k c.scopes u))

drop_scopes-limits :
    (ks : List TrafficCacheKey) (c : TrafficEntryCache) → limits (drop_scopes ks c) ≡ limits c
unfolding drop_scopes
drop_scopes-limits [] c = refl
drop_scopes-limits (k ∷ ks) c = drop_scopes-limits ks (drop_scope k c) ∙ drop_scope-limits k c

pub evict_expired-NodupKeys :
    (now : ℕ) (c : TrafficEntryCache) → NodupKeys c.scopes → NodupKeys (evict_expired now c).scopes
unfolding evict_expired
evict_expired-NodupKeys now c u = elim (Bool-cases (leb c.ttl_seconds 0)) [
  | inl never ↦ rw never u
  | inr some' ↦ rw some' (drop_scopes-NodupKeys (expired_keys c.ttl_seconds now c.scopes) c u)
]

pub evict_expired-limits :
    (now : ℕ) (c : TrafficEntryCache) → limits (evict_expired now c) ≡ limits c
unfolding evict_expired
evict_expired-limits now c = elim (Bool-cases (leb c.ttl_seconds 0)) [
  | inl never ↦ rw never refl
  | inr some' ↦ rw some' (drop_scopes-limits (expired_keys c.ttl_seconds now c.scopes) c)
]

-- A scope that is dropped is gone, and the others stay.
drop_scopes-lookup :
    (ks : List TrafficCacheKey) (c : TrafficEntryCache) (key : TrafficCacheKey)
    → lookup key (drop_scopes ks c).scopes ≡ (if contains ks key then none else lookup key c.scopes)
unfolding drop_scopes
drop_scopes-lookup [] c key = refl
drop_scopes-lookup (k ∷ ks) c key =
    drop_scopes-lookup ks (drop_scope k c) key
    ∙ rw (drop_scope-erase k c, lookup-erase k key c.scopes) (ground arith)

-- After the eviction a scope is gone or what it was.
pub evict_expired-lookup :
    (now : ℕ) (c : TrafficEntryCache) (key : TrafficCacheKey)
    → (lookup key (evict_expired now c).scopes ≡ none)
      ⊎ (lookup key (evict_expired now c).scopes ≡ lookup key c.scopes)
unfolding evict_expired
evict_expired-lookup now c key = elim (Bool-cases (leb c.ttl_seconds 0)) [
  | inl never ↦ rw never (inr refl)
  | inr some' ↦ rw some' (
      let ks = expired_keys c.ttl_seconds now c.scopes in
      rw (drop_scopes-lookup ks c key) (elim (Bool-cases (contains ks key)) [
        | inl old ↦ rw old (inl refl)
        | inr young ↦ rw young (inr refl)
      ]))
]

drop_first-limits :
    (scopes : Scopes) (c : TrafficEntryCache) → limits (drop_first scopes c) ≡ limits c
drop_first-limits [] c = refl
drop_first-limits ((key, scope) ∷ scopes) c = drop_scope-limits key c

evict_rounds-limits : (fuel : ℕ) (c : TrafficEntryCache) → limits (evict_rounds fuel c) ≡ limits c
unfolding evict_rounds
evict_rounds-limits zero c = refl
evict_rounds-limits (suc fuel) c = elim (Bool-cases (ltb c.max_scopes (length c.scopes))) [
  | inl over ↦
      rw over (evict_rounds-limits fuel (drop_first c.scopes c) ∙ drop_first-limits c.scopes c)
  | inr fits ↦ rw fits refl
]

pub evict_overflow-limits : (c : TrafficEntryCache) → limits (evict_overflow c) ≡ limits c
unfolding evict_overflow
evict_overflow-limits c = evict_rounds-limits (length c.scopes) c

expired_keys-fresh :
    (ttl now : ℕ) (d : Scopes) (key : TrafficCacheKey)
    → contains (keys d) key ≡ false
    → contains (expired_keys ttl now d) key ≡ false
unfolding expired_keys
expired_keys-fresh ttl now [] key h = refl
expired_keys-fresh ttl now ((k, s) ∷ d) key h = ground (arith, expired_keys-fresh ttl now d key)

same_scope :
    (k : TrafficCacheKey) (s : TrafficCacheScope) (d : Scopes) (key : TrafficCacheKey)
    (scope : TrafficCacheScope)
    → (k == key) ≡ true
    → lookup key ((k, s) ∷ d) ≡ some scope
    → s ≡ scope
unfolding lookup
same_scope k s d key scope hit h = let e : some s ≡ some scope = rw hit at h in cc

-- A scope expires by its own age.
expired_keys-lookup :
    (ttl now : ℕ) (d : Scopes) (key : TrafficCacheKey) (scope : TrafficCacheScope)
    → NodupKeys d
    → lookup key d ≡ some scope
    → contains (expired_keys ttl now d) key ≡ ltb ttl (now - scope.created_at)
unfolding expired_keys lookup
expired_keys-lookup ttl now [] key scope u h = cc
expired_keys-lookup ttl now ((k, s) ∷ d) key scope (fresh, u) h = elim (Bool-cases (k == key)) [
  | inl hit ↦ ground (arith, same_scope k s d key scope hit h, late ((eq_iff k key).0 hit))
  | inr miss ↦ ground (arith, expired_keys-lookup ttl now d key scope u (rw miss at h))
]
  where
    late : k ≡ key → contains (expired_keys ttl now d) key ≡ false
    late e = rw (← e) (expired_keys-fresh ttl now d k fresh)

-- A scope that is young enough is kept.
pub evict_expired-kept :
    (now : ℕ) (c : TrafficEntryCache) (key : TrafficCacheKey) (scope : TrafficCacheScope)
    → NodupKeys c.scopes
    → lookup key c.scopes ≡ some scope
    → (c.ttl_seconds ≡ 0) ⊎ (now - scope.created_at ≤ c.ttl_seconds)
    → lookup key (evict_expired now c).scopes ≡ some scope
unfolding evict_expired
evict_expired-kept now c key scope u h young = elim (Bool-cases (leb c.ttl_seconds 0)) [
  | inl never ↦ rw never h
  | inr some' ↦
      rw
        (
          some',
          drop_scopes-lookup (expired_keys c.ttl_seconds now c.scopes) c key,
          expired_keys-lookup c.ttl_seconds now c.scopes key scope u h,
          by_age c.ttl_seconds (now - scope.created_at) some' young,
        )
        h
]
  where
    by_age : (ttl age : ℕ) → leb ttl 0 ≡ false → (ttl ≡ 0) ⊎ (age ≤ ttl) → ltb ttl age ≡ false
    by_age ttl age some' (inl none') = absurd (ground arith)
    by_age ttl age some' (inr in_time) = ground arith
