-- ===== src/Traffic/Prepare/State.antt =====
-- The state of the orchestrator, the variables of the loop of `_prepare_entries`, and what it keeps.
use charles_mcp.Prelude.{
  ℕ, zero, suc, ◌+◌, ◌≡◌, refl, Bool, true, false, Option, none, some, List, [], ◌∷◌, Eq, eq_by,
  pair_eq, nat_eq, if◌then◌else◌,
}
use charles_mcp.Prelude.Text.{Text, text_eq}
use charles_mcp.Prelude.Int.{ℤ}
use charles_mcp.Prelude.Strings.{CaseTables}
use charles_mcp.Prelude.Dict.{Dict, lookup, insert}
use charles_mcp.Json.{Value}
use charles_mcp.LiveState.Entries.{Platform}
use charles_mcp.Traffic.Raw.{Result, Pydantic}
use charles_mcp.Traffic.Schema.{
  CaptureSource, source_eq, ResourceClass, class_eq, ResourceClassification, BodyContent,
  TrafficEntry, TrafficMatch, TrafficPreset, all_http, control, static_asset, font, media,
  connect_tunnel,
}
use charles_mcp.Traffic.Schema.Results.{TrafficDetail}
use charles_mcp.Traffic.Body.Values.{Codecs}
use charles_mcp.Traffic.Cache.{TrafficEntryCache}

-- What belongs to Python and to the libraries: `search` is jmespath's, `timestamp_of` reads a date
-- (`none` is a ValueError), `detail_json` is `model_dump_json(exclude_none=True)`.
pub record Runtime : Type 0 where
  pub platform : Platform
  pub tables : CaseTables
  pub codecs : Codecs
  pub pydantic : Pydantic
  pub search : Text → Value → Result (Option Value)
  pub timestamp_of : Text → Option ℤ
  pub detail_json : TrafficDetail → Text

-- `_NormalizeCacheValue`
abbrev pub CacheValue : Type 0
CacheValue = ResourceClassification × Option TrafficEntry

abbrev pub ScopeCache : Type 0
ScopeCache = Dict Text CacheValue

abbrev pub ScopeKey : Type 0
ScopeKey = CaptureSource × (Text × (Bool × (ℕ × ℕ)))

abbrev pub bool_code : Bool → ℕ
bool_code true = 1
bool_code false = 0

abbrev pub bool_of : ℕ → Bool
bool_of zero = false
bool_of (suc n) = true

pub bool_back : (b : Bool) → bool_of (bool_code b) ≡ b
bool_back true = refl
bool_back false = refl

instance abbrev pub bool_eq : Eq Bool
bool_eq = eq_by bool_code bool_of bool_back

-- The caches of `TrafficQueryOrchestrator`.
pub record Orchestrator : Type 0 where
  pub normalize_cache : Dict ScopeKey ScopeCache
  pub hits : ℕ
  pub misses : ℕ
  pub entry_cache : TrafficEntryCache

-- `reset_normalize_cache`
abbrev pub reset_normalize_cache : Orchestrator → Orchestrator
reset_normalize_cache o = record o { normalize_cache = []; hits = 0; misses = 0 }

-- The variables of the loop.
pub record ScanPass : Type 0 where
  pub scope_cache : Option ScopeCache
  pub seen : List Text
  pub hits : ℕ
  pub misses : ℕ
  pub classified_counts : Dict ResourceClass ℕ
  pub filtered_out_by_class : Dict ResourceClass ℕ
  pub matched_entries : List (TrafficEntry × TrafficMatch)
  pub detail_entries : Dict Text TrafficEntry

abbrev pub start_pass : Option ScopeCache → ScanPass
start_pass scope_cache = record {
  scope_cache = scope_cache;
  seen = [];
  hits = 0;
  misses = 0;
  classified_counts = [];
  filtered_out_by_class = [];
  matched_entries = [];
  detail_entries = [];
}

-- `_excluded_by_preset`
abbrev is_noise : ResourceClass → Bool
is_noise control = true
is_noise static_asset = true
is_noise font = true
is_noise media = true
is_noise connect_tunnel = true
is_noise _ = false

abbrev is_control_class : ResourceClass → Bool
is_control_class control = true
is_control_class _ = false

unfoldable pub excluded_by_preset : TrafficPreset → ResourceClass → Bool
excluded_by_preset all_http c = is_control_class c
excluded_by_preset _ c = is_noise c

abbrev drop_full : BodyContent → BodyContent
drop_full body = elim body.full_text [
  | none ↦
      if body.full_text_truncated
      then record body { full_text = none; full_text_truncated = false }
      else body
  | some t ↦ record body { full_text = none; full_text_truncated = false }
]

-- `_compact_entry_for_cache`
unfoldable pub compact_entry_for_cache : TrafficEntry → TrafficEntry
compact_entry_for_cache entry = record entry {
  request = record (entry.request) { body = drop_full entry.request.body };
  response = record (entry.response) { body = drop_full entry.response.body };
}

-- `counter[c] += 1`
abbrev pub count_class : ResourceClass → Dict ResourceClass ℕ → Dict ResourceClass ℕ
count_class c counts = elim (lookup c counts) [
  | none ↦ insert c 1 counts
  | some n ↦ insert c (suc n) counts
]

-- `sum(counter.values())`
abbrev pub total : List ℕ → ℕ
total [] = 0
total (n ∷ ns) = n + total ns
