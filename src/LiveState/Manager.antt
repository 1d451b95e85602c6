-- ===== src/LiveState/Manager.antt =====
-- `LiveCaptureManager`: start, require, close and read. The capture that Python mutates in place is
-- the field `active` of the state.
pub mod Numbering
pub mod Synced
pub mod Paging
pub mod Lifecycle
use charles_mcp.Prelude.{
  ℕ, zero, ◌+◌, ◌-◌, ◌≡◌, Bool, true, false, not, Option, none, some, List, [], ◌∷◌, ◌++◌, length,
  take, drop, contains, ltb, ◌==◌, nat_eq, if◌then◌else◌,
}
use charles_mcp.Prelude.Text.{Text, text_eq}
use charles_mcp.Prelude.Int.{ℤ, is_positive, clamp_zero, pos}
use charles_mcp.Json.{Value, Fields}
use charles_mcp.LiveState.Entries.{Platform, own_exports, unique_entries}
use charles_mcp.LiveState.Errors.{conflict, not_found, bad_limit, Result}
use charles_mcp.Prelude.Outcome.{ok, raise, ◌>>=◌}

pub data Status : Type 0 where
  active : Status
  stopped : Status
  reset_detected : Status

-- The last two are of charles_mcp/services/live_capture.py.
pub data Warning : Type 0 where
  session_reset_detected : Warning
  records_own_exports : ℕ → ℤ → Warning
  stop_recording_retry_succeeded : Warning
  stop_recording_failed_after_retry : Warning

-- `seen_keys` is a set, kept in the order of insertion.
pub record Capture : Type 0 where
  pub capture_id : Text
  pub managed : Bool
  pub include_existing : Bool
  pub status : Status
  pub cursor : ℕ
  pub started_at : Text
  pub seen_keys : List Text
  pub items : List Fields
  pub last_export_count : ℕ
  pub warnings : List Warning

pub record ReadResult : Type 0 where
  pub capture_id : Text
  pub status : Status
  pub items : List Fields
  pub next_cursor : ℕ
  pub total_new_items : ℕ
  pub truncated : Bool
  pub warnings : List Warning

-- `self.active`
abbrev pub Manager : Type 0
Manager = Option Capture

abbrev pub first_keys : List (Text × Fields) → List Text
first_keys [] = []
first_keys ((k, e) ∷ ps) = k ∷ first_keys ps

abbrev pub entries_of : List (Text × Fields) → List Fields
entries_of [] = []
entries_of ((k, e) ∷ ps) = e ∷ entries_of ps

abbrev pub is_stopped : Status → Bool
is_stopped stopped = true
is_stopped _ = false

abbrev pub is_active : Status → Bool
is_active active = true
is_active _ = false

-- `require`
unfoldable pub require : Text → Manager → Result Capture
require capture_id none = raise not_found
require capture_id (some c) = if c.capture_id == capture_id then ok c else raise not_found

-- `close`: the stopped capture, and the manager without it.
unfoldable pub close : Text → Manager → Result (Capture × Manager)
unfolding require
close capture_id m = do c ← require capture_id m; ok (record c { status = stopped }, none)

-- The second loop of `read`: entries whose key is not yet known.
unfoldable pub merge : List Text → List Fields → List (Text × Fields) → List Text × List Fields
merge seen items [] = (seen, items)
merge seen items ((key, entry) ∷ prepared) =
    let known = merge seen items prepared in
    let fresh = merge (seen ++ key ∷ []) (items ++ entry ∷ []) prepared in
    if contains seen key then known else fresh

abbrev pub refuses : Manager → Bool
refuses none = false
refuses (some c) = is_active c.status

abbrev pub new_capture : Text → Text → Bool → Bool → Capture
new_capture capture_id started_at managed include_existing = record {
  capture_id = capture_id;
  managed = managed;
  include_existing = include_existing;
  status = active;
  cursor = zero;
  started_at = started_at;
  seen_keys = [];
  items = [];
  last_export_count = zero;
  warnings = [];
}

abbrev pub base_cursor : Option ℤ → Capture → ℕ
base_cursor none c = c.cursor
base_cursor (some n) c = clamp_zero n

-- What `read` computes once the export is prepared, before anything is stored.
pub record Working : Type 0 where
  pub status : Status
  pub warnings : List Warning
  pub seen_keys : List Text
  pub items : List Fields
  pub base : ℕ

unfoldable pub working : Capture → ℕ → List (Text × Fields) → List Warning → Working
working c base prepared own =
    if ltb (length prepared) c.last_export_count
    then (let (seen, items) = merge [] [] prepared in
        record {
          status = reset_detected;
          warnings = session_reset_detected ∷ own;
          seen_keys = seen;
          items = items;
          base = zero;
        })
    else (let (seen, items) = merge c.seen_keys c.items prepared in
        record { status = c.status; warnings = own; seen_keys = seen; items = items; base = base })

unfoldable pub page : Text → ℕ → Working → ReadResult
page capture_id limit w =
    let items = take limit (drop w.base w.items) in
    let total_new_items = length w.items - w.base in
    record {
      capture_id = capture_id;
      status = w.status;
      items = items;
      next_cursor = w.base + length items;
      total_new_items = total_new_items;
      truncated = ltb limit total_new_items;
      warnings = w.warnings;
    }

-- The assignments under `if advance`.
unfoldable pub advanced : Capture → ℕ → Working → ReadResult → Capture
advanced c export_count w r = record c {
  seen_keys = w.seen_keys;
  items = w.items;
  cursor = r.next_cursor;
  last_export_count = export_count;
  warnings = w.warnings;
  status = if is_stopped c.status then c.status else active;
}

module _ (pf : Platform) where
  -- `self_recording_warning`
  unfoldable pub recording_warning : List Value → Result (List Warning)
  recording_warning raw = do
    found ← own_exports pf raw zero (pos 0)
    ok (if found.0 == 0 then [] else records_own_exports found.0 found.1 ∷ [])

  abbrev pub baseline : List Value → Capture → Result Capture
  baseline [] c = ok c
  baseline (v ∷ vs) c = do
    prepared ← unique_entries pf (v ∷ vs)
    warnings ← recording_warning (v ∷ vs)
    ok (record c {
      last_export_count = length prepared;
      seen_keys = first_keys prepared;
      items = if c.include_existing then entries_of prepared else [];
      warnings = warnings;
    })

  -- `start`. `capture_id` is the new uuid and `started_at` the time; no baseline is an empty one.
  unfoldable pub start :
      Text → Text → Bool → Bool → List Value → Manager → Result (Capture × Manager)
  unfolding recording_warning
  start capture_id started_at managed include_existing baseline_items m =
      if refuses m then raise conflict else do
        c ← baseline baseline_items (new_capture capture_id started_at managed include_existing)
        ok (c, some c)

  -- `read`
  unfoldable pub read :
      Text → List Value → Option ℤ → ℤ → Bool → Manager → Result (ReadResult × Manager)
  unfolding require recording_warning working page advanced
  read capture_id raw cursor limit advance m = do
    c ← require capture_id m
    if is_positive limit
        then (do
          prepared ← unique_entries pf raw
          own ← recording_warning raw
          let w = working c (base_cursor cursor c) prepared own
          let r = page c.capture_id (clamp_zero limit) w
          ok (r, if advance then some (advanced c (length prepared) w r) else m))
        else raise bad_limit
