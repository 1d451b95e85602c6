-- ===== src/LiveState/Service.antt =====
-- charles_mcp/services/live_capture.py. The pause between two attempts is left out.
pub mod Sends
pub mod Steady
pub mod Settled
pub mod Stopping
pub mod Starting
pub mod Started
pub mod Final
use charles_mcp.Prelude.{
  ℕ, Bool, true, false, not, ◌&&◌, Option, none, some, List, [], ◌∷◌, ◌++◌, length, max,
  if◌then◌else◌,
}
use charles_mcp.Prelude.Text.{Text, text_eq, codes}
use charles_mcp.Prelude.Int.{ℤ, pos}
use charles_mcp.Prelude.Dict.{insert}
use charles_mcp.Prelude.Outcome.{Outcome, raise, ok}
use charles_mcp.Prelude.Action.{Action, pure, throw, gets, change, skip, rescue, ◌>>=◌, ◌>>◌}
use charles_mcp.Json.{Value, Fields}
use charles_mcp.LiveState.Entries.{Platform}
use charles_mcp.LiveState.Errors.{LiveError, Result}
use charles_mcp.LiveState.Manager.{
  Capture, Manager, ReadResult, Warning, session_reset_detected, records_own_exports,
  stop_recording_retry_succeeded, stop_recording_failed_after_retry, require, close, start, read,
}
use charles_mcp.LiveState.Client.{
  Charles, Live, Call, Fault, client_error, live_error, os_error, Endpoint, session_clear,
  recording_start, recording_stop, closed, is_open, on_client_error, set_client, perform, connect,
  succeeds, export_session_json,
}

-- `LiveCaptureStartResult`, whose status is always active.
pub record StartResult : Type 0 where
  pub capture_id : Text
  pub managed : Bool
  pub include_existing : Bool
  pub warnings : List Warning

pub data StopStatus : Type 0 where
  stopped : StopStatus
  stop_failed : StopStatus

-- `StopLiveCaptureResult`
pub record StopResult : Type 0 where
  pub capture_id : Text
  pub status : StopStatus
  pub persisted_path : Option Text
  pub total_items : ℕ
  pub recoverable : Bool
  pub active_capture_preserved : Bool
  pub error : Option Text
  pub warnings : List Warning

abbrev failed_to_clear : Text
failed_to_clear = codes "failed to clear current Charles session"

abbrev failed_to_start : Text
failed_to_start = codes "failed to start Charles recording"

abbrev pub failed_to_stop : Text
failed_to_stop = codes "failed to stop Charles recording"

-- Equality of the texts of two warnings, among which one names the own exports at most.
abbrev same_warning : Warning → Warning → Bool
same_warning session_reset_detected session_reset_detected = true
same_warning (records_own_exports n size) (records_own_exports m other) = true
same_warning stop_recording_retry_succeeded stop_recording_retry_succeeded = true
same_warning stop_recording_failed_after_retry stop_recording_failed_after_retry = true
same_warning _ _ = false

abbrev has_warning : List Warning → Warning → Bool
has_warning [] w = false
has_warning (v ∷ vs) w = if same_warning v w then true else has_warning vs w

-- `list(dict.fromkeys(warnings))`, after those that were seen.
abbrev pub from_keys : List Warning → List Warning → List Warning
from_keys seen [] = seen
from_keys seen (w ∷ ws) = from_keys (if has_warning seen w then seen else seen ++ w ∷ []) ws

-- The assignment of `capture.warnings` in `stop`, to the active capture.
abbrev pub add_warnings : List Warning → Capture → Capture
add_warnings warnings c = record c { warnings = from_keys [] (c.warnings ++ warnings) }

-- `message or fallback`
abbrev or_text : Text → Text → Text
or_text [] fallback = fallback
or_text (c ∷ cs) fallback = c ∷ cs

-- A call of the manager, which is unchanged when it raises.
abbrev pub with_manager {ℓ} : {A : Type ℓ} → Live → Result (A × Manager) → Live × Outcome Fault A
with_manager s (raise e) = (s, raise (live_error e))
with_manager s (ok (a, m)) = (record s { manager = m }, ok a)

unfoldable pub manage {ℓ} : {A : Type ℓ} → (Manager → Result (A × Manager)) → Call A
manage call s = with_manager s (call s.manager)

-- `require`, of which the manager stays as it is.
abbrev pub required : Text → Manager → Result (Capture × Manager)
required capture_id m = elim (require capture_id m) [ raise e ↦ raise e | ok c ↦ ok (c, m) ]

abbrev pub put_capture : Capture → Live → Live
put_capture c s = record s { manager = some c }

abbrev pub store_file : Text → List Fields → Live → Live
store_file path data' s = record s { files = insert path data' s.files }

module _ (pf : Platform) (ch : Charles) where
  abbrev pub shared : Option Bool → Call (Unit {0})
  shared (some b) = skip
  shared none = do change (set_client (some false)); connect ch

  -- `_get_shared_client`
  unfoldable pub get_shared_client : Call (Unit {0})
  unfolding connect
  get_shared_client = do client ← gets (λ s. s.client); shared client

  -- `_close_shared_client`, with `close` of the client, which does not raise.
  unfoldable pub close_shared_client : Call (Unit {0})
  unfolding perform
  close_shared_client = do
    client ← gets (λ s. s.client)
    (if is_open client
        then rescue (do answered ← perform ch closed; skip) (λ fault. skip)
        else skip)
    change (set_client none)

  -- `export_current_session`
  unfoldable pub export_current_session : Call (List Value)
  unfolding get_shared_client close_shared_client export_session_json
  export_current_session =
      rescue (do get_shared_client; export_session_json ch)
        (on_client_error
          (λ message. do close_shared_client; get_shared_client; export_session_json ch))

  unfoldable pub must : Endpoint → Text → Call (Unit {0})
  unfolding succeeds
  must endpoint message = do
    done ← succeeds ch endpoint
    if done then skip else throw (client_error message)

  -- The two branches of `start`.
  unfoldable pub adopt_session : Bool → Call (List Value)
  unfolding must export_session_json
  adopt_session start_recording_if_stopped = do
    baseline ← export_session_json ch
    (if start_recording_if_stopped then must recording_start failed_to_start else skip)
    pure baseline

  unfoldable pub own_session : Bool → Call (List Value)
  unfolding must export_session_json
  own_session reset_session = do
    baseline ← (if reset_session then pure [] else export_session_json ch)
    (if reset_session then must session_clear failed_to_clear else skip)
    must recording_start failed_to_start
    pure baseline

  abbrev pub start_result : Bool → Capture → StartResult
  start_result managed capture = record {
    capture_id = capture.capture_id;
    managed = managed;
    include_existing = true;
    warnings = capture.warnings;
  }

  -- `start`. `capture_id` is the new uuid and `started_at` the time.
  unfoldable pub start_live : Text → Text → Bool → Bool → Bool → Call StartResult
  unfolding get_shared_client adopt_session own_session manage start
  start_live capture_id started_at reset_session adopt_existing start_recording_if_stopped =
      let adopts = adopt_existing && not reset_session in
      do
        get_shared_client
        baseline ←
            (if adopts then adopt_session start_recording_if_stopped else own_session reset_session)
        capture ← manage (start pf capture_id started_at (not adopts) true baseline)
        pure (start_result (not adopts) capture)

  -- `read`
  unfoldable pub read_live : Text → Option ℤ → ℤ → Bool → Call ReadResult
  unfolding export_current_session manage read
  read_live capture_id cursor limit advance = do
    raw ← export_current_session
    manage (read pf capture_id raw cursor limit advance)

  -- One round of `_stop_recording_with_retry`: `none` for success, otherwise the last error.
  unfoldable pub stop_attempt : Call (Option Text)
  unfolding get_shared_client succeeds
  stop_attempt =
      rescue
        (do
          get_shared_client
          done ← succeeds ch recording_stop
          pure (if done then none else some failed_to_stop))
        (on_client_error (λ message. pure (some (or_text message failed_to_stop))))

  abbrev pub retried : Option Text → Bool × List Warning × Option Text
  retried none = (true, stop_recording_retry_succeeded ∷ [], none)
  retried (some error) = (false, stop_recording_failed_after_retry ∷ [], some error)

  abbrev pub after_attempt : Option Text → Call (Bool × List Warning × Option Text)
  after_attempt none = pure (true, [], none)
  after_attempt (some message) = do second ← stop_attempt; pure (retried second)

  -- `_stop_recording_with_retry`
  unfoldable pub stop_recording_with_retry : Call (Bool × List Warning × Option Text)
  unfolding stop_attempt
  stop_recording_with_retry = do first ← stop_attempt; after_attempt first

  -- `save_capture_items`
  unfoldable pub save_capture_items : Text → List Fields → Call (Unit {0})
  save_capture_items path items = do
    before ← gets (λ s. s.events)
    if ch.writable before path then change (store_file path items) else throw os_error

  unfoldable pub persisted : Text → Capture → Bool → Call (Option Text)
  unfolding get_shared_client save_capture_items
  persisted path capture persist =
      if persist
      then (do get_shared_client; save_capture_items path capture.items; pure (some path))
      else pure none

  -- `stop` once the recording is stopped. `path` is that of `get_full_save_path`.
  unfoldable pub finish_stop : Text → Text → Bool → Capture → Call StopResult
  unfolding persisted manage close close_shared_client
  finish_stop capture_id path persist capture = do
    persisted_path ← persisted path capture persist
    stopped' ← manage (close capture_id)
    close_shared_client
    pure (record {
      capture_id = stopped'.capture_id;
      status = stopped;
      persisted_path = persisted_path;
      total_items = length stopped'.items;
      recoverable = false;
      active_capture_preserved = false;
      error = none;
      warnings = stopped'.warnings;
    })

  abbrev pub stop_failure : Capture → Option Text → StopResult
  stop_failure capture error = record {
    capture_id = capture.capture_id;
    status = stop_failed;
    persisted_path = none;
    total_items = length capture.items;
    recoverable = true;
    active_capture_preserved = true;
    error = error;
    warnings = capture.warnings;
  }

  abbrev pub after_stopping :
      Text → Text → Bool → Capture → Bool × List Warning × Option Text → Call StopResult
  after_stopping capture_id path persist warned stopping =
      if stopping.0
      then finish_stop capture_id path persist warned
      else pure (stop_failure warned stopping.2)

  -- `stop` from `if capture.managed` on.
  unfoldable pub settle_stop : Text → Text → Bool → Capture → Call StopResult
  unfolding finish_stop stop_recording_with_retry
  settle_stop capture_id path persist capture =
      if capture.managed
      then (do
        stopping ← stop_recording_with_retry
        change (put_capture (add_warnings stopping.1 capture))
        after_stopping capture_id path persist (add_warnings stopping.1 capture) stopping)
      else finish_stop capture_id path persist capture

  -- `stop`. `capture` is the active capture throughout: the read changes it.
  unfoldable pub stop_live : Text → Text → Bool → Call StopResult
  unfolding settle_stop export_current_session manage require read
  stop_live capture_id path persist = do
    capture ← manage (required capture_id)
    raw ← export_current_session
    page ←
        manage (read pf capture_id raw (some (pos capture.cursor)) (pos (max (length raw) 1)) true)
    updated ← manage (required capture_id)
    settle_stop capture_id path persist updated
