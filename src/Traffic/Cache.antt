-- ===== src/Traffic/Cache.antt =====
-- charles_mcp/services/traffic_cache.py. The clock counts in the unit of `ttl_seconds`, each
-- operation takes its readings, and the limits are no negative numbers.
pub mod Bounded
pub mod Reads
use charles_mcp.Prelude.{
  ℕ, zero, suc, ◌-◌, ◌≡◌, ◌↔◌, Bool, true, false, ◌&&◌, Option, none, some, List, [], ◌∷◌, ◌++◌,
  length, ltb, leb, ◌==◌, Eq, eq_by, pair_eq, refl, if◌then◌else◌, arith,
}
use charles_mcp.Prelude.Text.{Text, text_eq, codes}
use charles_mcp.Prelude.Dict.{Dict, lookup, insert, erase, keys}
use charles_mcp.Traffic.Schema.{CaptureSource, source_eq, ResourceClass, TrafficEntry}

-- `SUMMARY_BODY_MODE`
abbrev pub summary_body_mode : Text
summary_body_mode = codes "summary"

pub record TrafficCacheKey : Type 0 where
  pub source : CaptureSource
  pub identity : Text
  pub body_mode : Text

abbrev pub KeyParts : Type 0
KeyParts = CaptureSource × (Text × Text)

abbrev pub parts_of : TrafficCacheKey → KeyParts
parts_of key = (key.source, (key.identity, key.body_mode))

abbrev pub key_of : KeyParts → TrafficCacheKey
key_of parts = record { source = parts.0; identity = parts.1.0; body_mode = parts.1.1 }

instance abbrev pub key_eq : Eq TrafficCacheKey
key_eq = eq_by parts_of key_of (λ key. refl)

-- The key of the entry index.
abbrev pub EntryKey : Type 0
EntryKey = CaptureSource × Text

pub record TrafficCacheScope : Type 0 where
  pub entries : Dict Text TrafficEntry
  pub classified_counts : Dict ResourceClass ℕ
  pub created_at : ℕ

pub record TrafficEntryCache : Type 0 where
  pub max_scopes : ℕ
  pub ttl_seconds : ℕ
  pub scopes : Dict TrafficCacheKey TrafficCacheScope
  pub entry_index : Dict EntryKey Text

-- `d.move_to_end(key)` of a key that is there, with the value that it then has.
abbrev pub put_last :
    {V : Type 0} → TrafficCacheKey → V → Dict TrafficCacheKey V → Dict TrafficCacheKey V
put_last key value d = erase key d ++ (key, value) ∷ []

-- The round of the loop of `_drop_scope`.
unfoldable pub drop_entry : TrafficCacheKey → Text → Dict EntryKey Text → Dict EntryKey Text
unfolding lookup erase
drop_entry key entry_id index = elim (lookup (key.source, entry_id) index) [
  | none ↦ index
  | some identity ↦ if identity == key.identity then erase (key.source, entry_id) index else index
]

-- The loop of `_drop_scope` over the entries.
unfoldable pub drop_entries : TrafficCacheKey → List Text → Dict EntryKey Text → Dict EntryKey Text
unfolding drop_entry
drop_entries key [] index = index
drop_entries key (entry_id ∷ ids) index = drop_entries key ids (drop_entry key entry_id index)

-- `_drop_scope`
unfoldable pub drop_scope : TrafficCacheKey → TrafficEntryCache → TrafficEntryCache
unfolding drop_entries lookup erase
drop_scope key cache = elim (lookup key cache.scopes) [
  | none ↦ cache
  | some scope ↦ record cache {
    scopes = erase key cache.scopes;
    entry_index = drop_entries key (keys scope.entries) cache.entry_index;
  }
]

-- The keys whose scope is too old.
unfoldable pub expired_keys : ℕ → ℕ → Dict TrafficCacheKey TrafficCacheScope → List TrafficCacheKey
expired_keys ttl now [] = []
expired_keys ttl now ((key, scope) ∷ scopes) =
    let rest = expired_keys ttl now scopes in
    if ltb ttl (now - scope.created_at) then key ∷ rest else rest

unfoldable pub drop_scopes : List TrafficCacheKey → TrafficEntryCache → TrafficEntryCache
unfolding drop_scope
drop_scopes [] cache = cache
drop_scopes (key ∷ others) cache = drop_scopes others (drop_scope key cache)

-- `_evict_expired`
unfoldable pub evict_expired : ℕ → TrafficEntryCache → TrafficEntryCache
unfolding drop_scopes expired_keys
evict_expired now cache =
    if leb cache.ttl_seconds 0
    then cache
    else drop_scopes (expired_keys cache.ttl_seconds now cache.scopes) cache

abbrev drop_first : Dict TrafficCacheKey TrafficCacheScope → TrafficEntryCache → TrafficEntryCache
drop_first [] cache = cache
drop_first ((oldest, scope) ∷ scopes) cache = drop_scope oldest cache

-- The loop of `_evict_overflow`: a round drops a scope, so their number is fuel enough.
unfoldable pub evict_rounds : ℕ → TrafficEntryCache → TrafficEntryCache
unfolding drop_scope
evict_rounds zero cache = cache
evict_rounds (suc fuel) cache =
    let rest = evict_rounds fuel (drop_first cache.scopes cache) in
    if ltb cache.max_scopes (length cache.scopes) then rest else cache

-- `_evict_overflow`
unfoldable pub evict_overflow : TrafficEntryCache → TrafficEntryCache
unfolding evict_rounds
evict_overflow cache = evict_rounds (length cache.scopes) cache

unfoldable pub index_entries :
    CaptureSource → Text → List Text → Dict EntryKey Text → Dict EntryKey Text
unfolding insert
index_entries source identity [] index = index
index_entries source identity (entry_id ∷ ids) index =
    index_entries source identity ids (insert (source, entry_id) identity index)

-- `put` before `_evict_overflow`.
unfoldable pub store_scope :
    TrafficCacheKey → TrafficCacheScope → TrafficEntryCache → TrafficEntryCache
unfolding erase index_entries
store_scope key scope cache = record cache {
  scopes = put_last key scope cache.scopes;
  entry_index = index_entries key.source key.identity (keys scope.entries) cache.entry_index;
}

abbrev pub new_scope : ℕ → Dict Text TrafficEntry → Dict ResourceClass ℕ → TrafficCacheScope
new_scope stamp entries classified_counts = record {
  entries = entries;
  classified_counts = classified_counts;
  created_at = stamp;
}

-- `put`, with the reading of `_evict_expired` and the one that stamps the scope.
unfoldable pub put :
    ℕ
    → ℕ
    → TrafficCacheKey
    → Dict Text TrafficEntry
    → Dict ResourceClass ℕ
    → TrafficEntryCache
    → TrafficEntryCache
unfolding evict_expired store_scope evict_overflow
put now stamp key entries classified_counts cache =
    evict_overflow
      (store_scope key (new_scope stamp entries classified_counts) (evict_expired now cache))

-- The scope under a key, which moves to the end.
unfoldable pub touch :
    ℕ → TrafficCacheKey → TrafficEntryCache → Option TrafficCacheScope × TrafficEntryCache
unfolding evict_expired lookup erase
touch now key cache =
    let kept = evict_expired now cache in
    elim (lookup key kept.scopes) [
      | none ↦ (none, kept)
      | some scope ↦ (some scope, record kept { scopes = put_last key scope kept.scopes })
    ]

abbrev find_entry : Text → Option TrafficCacheScope → Option TrafficEntry
find_entry entry_id none = none
find_entry entry_id (some scope) = lookup entry_id scope.entries

-- `get_entry`
unfoldable pub get_entry :
    ℕ → TrafficCacheKey → Text → TrafficEntryCache → Option TrafficEntry × TrafficEntryCache
unfolding touch lookup
get_entry now key entry_id cache =
    let (scope, next) = touch now key cache in (find_entry entry_id scope, next)

-- `resolve_identity`
unfoldable pub resolve_identity :
    ℕ → CaptureSource → Text → TrafficEntryCache → Option Text × TrafficEntryCache
unfolding evict_expired lookup
resolve_identity now source entry_id cache =
    let kept = evict_expired now cache in (lookup (source, entry_id) kept.entry_index, kept)

abbrev pub summary_key : CaptureSource → Text → TrafficCacheKey
summary_key source identity = record {
  source = source;
  identity = identity;
  body_mode = summary_body_mode;
}

abbrev counts_of : Option TrafficCacheScope → Dict ResourceClass ℕ
counts_of none = []
counts_of (some scope) = scope.classified_counts

-- `get_classified_counts`
unfoldable pub get_classified_counts :
    ℕ → CaptureSource → Text → TrafficEntryCache → Dict ResourceClass ℕ × TrafficEntryCache
unfolding touch
get_classified_counts now source identity cache =
    let (scope, next) = touch now (summary_key source identity) cache in (counts_of scope, next)
