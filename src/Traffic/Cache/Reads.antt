-- ===== src/Traffic/Cache/Reads.antt =====
-- The cache against its abstract view: a table that may forget scopes, but never changes one.
use charles_mcp.Prelude.{
  ℕ, ◌-◌, ◌≤◌, ◌<◌, ◌≡◌, refl, sym, ap, subst, ◌∙◌, true, false, none, some, Option, List, [], ◌∷◌,
  length, drop, contains, Bool-cases, Option-cases, pair_eq, eq_iff, if◌then◌else◌, eq_refl, ◌==◌,
  ◌⊎◌, inl, inr, arith, length-drop, length-append, drop-append,
}
use charles_mcp.Prelude.Text.{Text, text_eq}
use charles_mcp.Prelude.Dict.{
  Dict, lookup, erase, keys, NodupKeys, lookup-erase, lookup-append, lookup-drop, lookup-fresh,
  lookup-head, erase-NodupKeys, contains-keys-erase, contains-keys-drop, append-NodupKeys,
  drop-NodupKeys,
}
use charles_mcp.Traffic.Schema.{TrafficEntry, ResourceClass, source_eq}
use charles_mcp.Traffic.Cache.{
  TrafficCacheKey, key_eq, TrafficCacheScope, TrafficEntryCache, evict_expired, put_last,
  store_scope, put, new_scope, touch, get_entry, drop_entries, drop_entry, drop_scope, EntryKey,
}
use charles_mcp.Traffic.Cache.Bounded.{
  Scopes, drop_scope-erase, evict_overflow-drop, evict_expired-NodupKeys, evict_expired-limits,
  evict_expired-lookup, evict_expired-kept, evict_overflow-limits, limits,
}

-- What a cache promises, its order and its index left out.
abbrev pub View : Type 0
View = TrafficCacheKey → Option TrafficCacheScope

abbrev pub view : TrafficEntryCache → View
view c key = lookup key c.scopes

abbrev pub updated : View → TrafficCacheKey → TrafficCacheScope → View
updated v key scope j = if key == j then some scope else v j

abbrev pub Forgets : View → View → Type 0
Forgets old new' = (j : TrafficCacheKey) → (new' j ≡ none) ⊎ (new' j ≡ old j)

-- A scope is stored: it is there, and any other is as it was, or gone.
abbrev pub IsStored :
    TrafficCacheKey → TrafficCacheScope → TrafficEntryCache → TrafficEntryCache → Type 0
IsStored key scope old new' =
    (view new' key ≡ some scope) × Forgets (updated (view old) key scope) (view new')

module _ (key : TrafficCacheKey) (scope : TrafficCacheScope) (d : Scopes) where
  put_last-NodupKeys : NodupKeys d → NodupKeys (put_last key scope d)
  put_last-NodupKeys u =
      append-NodupKeys key scope (erase key d) (erase-NodupKeys key d u)
        (contains-keys-erase key key d ∙ rw (eq_refl key) refl)

  lookup-put_last :
      (j : TrafficCacheKey)
      → lookup j (put_last key scope d) ≡ updated (λ i. lookup i d) key scope j
  unfolding lookup
  lookup-put_last j =
      lookup-append j (erase key d) ((key, scope) ∷ []) ∙ rw (lookup-erase key j d) (ground arith)

  -- What is put last is not cut off.
  lookup-drop-put_last :
      (n : ℕ)
      → n < length (put_last key scope d)
      → lookup key (drop n (put_last key scope d)) ≡ some scope
  unfolding lookup
  lookup-drop-put_last n h =
      rw
        (
          drop-append n (erase key d) ((key, scope) ∷ [])
              (omega (arith, length-append (erase key d) ((key, scope) ∷ []))),
          lookup-append key (drop n (erase key d)) ((key, scope) ∷ []),
          lookup-fresh key (drop n (erase key d)) (
              contains-keys-drop n key (erase key d)
                (contains-keys-erase key key d ∙ rw (eq_refl key) refl)),
        )
        (lookup-head key scope [])

module _ (now stamp : ℕ) (key : TrafficCacheKey) (entries : Dict Text TrafficEntry)
    (counts : Dict ResourceClass ℕ) (c : TrafficEntryCache) (u : NodupKeys c.scopes) where
  abbrev kept : TrafficEntryCache
  kept = evict_expired now c

  abbrev after : TrafficEntryCache
  after = put now stamp key entries counts c

  abbrev scope : TrafficCacheScope
  scope = new_scope stamp entries counts

  abbrev stored : Scopes
  stored = put_last key scope kept.scopes

  stored-NodupKeys : NodupKeys stored
  stored-NodupKeys = put_last-NodupKeys key scope kept.scopes (evict_expired-NodupKeys now c u)

  put-drop : after.scopes ≡ drop (length stored - c.max_scopes) stored
  unfolding put store_scope
  put-drop =
      evict_overflow-drop (store_scope key scope kept) stored-NodupKeys
      ∙ ap (λ l. drop (length stored - l.0) stored) (evict_expired-limits now c)

  -- Storing entries keeps each key once, and at most as many scopes as the limit says.
  pub put-IsCache : NodupKeys after.scopes × (length after.scopes ≤ c.max_scopes)
  put-IsCache = rw put-drop (
    drop-NodupKeys (length stored - c.max_scopes) stored stored-NodupKeys,
    omega (arith, length-drop (length stored - c.max_scopes) stored),
  )

  old_or_gone :
      (j : TrafficCacheKey)
      → (lookup j kept.scopes ≡ none) ⊎ (lookup j kept.scopes ≡ view c j)
      → (updated (view kept) key scope j ≡ none)
        ⊎ (updated (view kept) key scope j ≡ updated (view c) key scope j)
  old_or_gone j (inl gone) = elim (Bool-cases (key == j)) [
    | inl hit ↦ inr (rw hit refl)
    | inr miss ↦ inl (rw (miss, gone) refl)
  ]
  old_or_gone j (inr same) = inr (rw same refl)

  put-Forgets : Forgets (updated (view c) key scope) (view after)
  put-Forgets j =
      rw put-drop (elim (lookup-drop (length stored - c.max_scopes) j stored stored-NodupKeys) [
        | inl gone ↦ inl gone
        | inr same ↦
            rw (same, lookup-put_last key scope kept.scopes j)
              (old_or_gone j (evict_expired-lookup now c j))
      ])

  -- When the limit allows a scope at all, what is stored is there afterwards, and every other scope
  -- is gone or what it was: the cache is a table that may forget.
  pub put-IsStored : 0 < c.max_scopes → IsStored key scope c after
  put-IsStored room = (
    rw put-drop (
        lookup-drop-put_last key scope kept.scopes (length stored - c.max_scopes)
          (omega (arith, length-append (erase key kept.scopes) ((key, scope) ∷ [])))),
    put-Forgets,
  )

  put-limits : limits after ≡ limits c
  unfolding put store_scope
  put-limits = evict_overflow-limits (store_scope key scope kept) ∙ evict_expired-limits now c

  -- An entry that was stored is read back within its time to live, and one that was not stored
  -- with the others under this key is not found there.
  pub get_entry-put :
      (later : ℕ) (entry_id : Text)
      → 0 < c.max_scopes
      → (c.ttl_seconds ≡ 0) ⊎ (later - stamp ≤ c.ttl_seconds)
      → (get_entry later key entry_id after).0 ≡ lookup entry_id entries
  unfolding get_entry touch
  get_entry-put later entry_id room young =
      rw
        (
          touch,
          evict_expired-kept later after key scope put-IsCache.0 (put-IsStored room).0
              (subst (λ l. (l.1 ≡ 0) ⊎ (later - stamp ≤ l.1)) (sym put-limits) young),
        )
        refl

lookup-drop_entry_same :
    (key : TrafficCacheKey) (entry_id : Text) (index : Dict EntryKey Text)
    → (lookup (key.source, entry_id) index ≡ none)
      ⊎ (lookup (key.source, entry_id) index ≡ some key.identity)
    → lookup (key.source, entry_id) (drop_entry key entry_id index) ≡ none
unfolding drop_entry
lookup-drop_entry_same key entry_id index (inl gone) = rw (gone, drop_entry) gone
lookup-drop_entry_same key entry_id index (inr found) =
    rw (found, drop_entry, eq_refl key.identity)
      (lookup-erase (key.source, entry_id) (key.source, entry_id) index
        ∙ rw (eq_refl key.source, eq_refl entry_id) refl)

lookup-drop_entry :
    (key : TrafficCacheKey) (other entry_id : Text) (index : Dict EntryKey Text)
    → (lookup (key.source, entry_id) index ≡ none)
      ⊎ (lookup (key.source, entry_id) index ≡ some key.identity)
    → lookup (key.source, entry_id) (drop_entry key other index)
      ≡ (if other == entry_id then none else lookup (key.source, entry_id) index)
unfolding drop_entry
lookup-drop_entry key other entry_id index h = elim (Bool-cases (other == entry_id)) [
  | inl hit ↦ rw hit (
      subst (λ o. lookup (key.source, entry_id) (drop_entry key o index) ≡ none)
        (sym ((eq_iff other entry_id).0 hit)) (lookup-drop_entry_same key entry_id index h))
  | inr miss ↦ rw miss (elim (Option-cases (lookup (key.source, other) index)) [
    | inl gone ↦ rw (gone, drop_entry) refl
    | inr (identity, found) ↦
        rw (found, drop_entry)
          (elim (Bool-cases (identity == key.identity)) [
            | inl mine ↦ rw mine (
                lookup-erase (key.source, other) (key.source, entry_id) index
                ∙ rw (eq_refl key.source, miss) refl)
            | inr others ↦ rw others refl
          ])
  ])
]

lookup-drop_entries :
    (key : TrafficCacheKey) (entry_id : Text) (ids : List Text) (index : Dict EntryKey Text)
    → (lookup (key.source, entry_id) index ≡ none)
      ⊎ (lookup (key.source, entry_id) index ≡ some key.identity)
    → lookup (key.source, entry_id) (drop_entries key ids index)
      ≡ (if contains ids entry_id then none else lookup (key.source, entry_id) index)
unfolding drop_entries
lookup-drop_entries key entry_id [] index h = refl
lookup-drop_entries key entry_id (other ∷ ids) index h =
    let step = lookup-drop_entry key other entry_id index h in
    elim (Bool-cases (other == entry_id)) [
      | inl hit ↦
          let gone : lookup (key.source, entry_id) (drop_entry key other index) ≡ none =
            step ∙ rw hit refl in
          lookup-drop_entries key entry_id ids (drop_entry key other index) (inl gone)
          ∙ rw (hit, gone) (ground arith)
      | inr miss ↦
          let same : lookup (key.source, entry_id) (drop_entry key other index)
              ≡ lookup (key.source, entry_id) index =
            step ∙ rw miss refl in
          lookup-drop_entries key entry_id ids (drop_entry key other index) (rw same h)
          ∙ rw (miss, same) refl
    ]

-- When the scope of one body mode is dropped, the entries it holds lose their place in the index,
-- although a scope of another body mode that holds the same entry of the same identity stays.
pub drop_scope-unindexed :
    (key : TrafficCacheKey) (body_mode entry_id : Text) (scope other : TrafficCacheScope)
    (c : TrafficEntryCache)
    → view c key ≡ some scope
    → contains (keys scope.entries) entry_id ≡ true
    → lookup (key.source, entry_id) c.entry_index ≡ some key.identity
    → (key.body_mode == body_mode) ≡ false
    → view c (record key { body_mode = body_mode }) ≡ some other
    → (lookup (key.source, entry_id) (drop_scope key c).entry_index ≡ none)
      × (view (drop_scope key c) (record key { body_mode = body_mode }) ≡ some other)
unfolding drop_scope
drop_scope-unindexed key body_mode entry_id scope other c there holds indexed apart stays = (
  rw (there, drop_scope)
      (lookup-drop_entries key entry_id (keys scope.entries) c.entry_index (inr indexed)
        ∙ rw holds refl),
  rw
      (
        drop_scope-erase key c,
        lookup-erase key (record key { body_mode = body_mode }) c.scopes,
        eq_refl key.source,
        eq_refl key.identity,
        apart,
      )
      stays,
)
