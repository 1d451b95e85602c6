-- ===== src/LiveState/Client.antt =====
-- charles_mcp/client.py: the calls of Charles that the live service makes. What Charles and httpx
-- answer is a parameter.
use charles_mcp.Prelude.{Bool, true, false, Option, none, some, List, ◌∷◌, if◌then◌else◌}
use charles_mcp.Prelude.Text.{Text}
use charles_mcp.Prelude.Dict.{Dict}
use charles_mcp.Prelude.Outcome.{Outcome, raise, ok}
use charles_mcp.Prelude.Action.{Action, pure, throw, gets, lift, change, skip, rescue, ◌>>=◌, ◌>>◌}
use charles_mcp.Json.{Value, Fields}
use charles_mcp.LiveState.Errors.{LiveError}
use charles_mcp.LiveState.Manager.{Manager}

-- The paths under which Charles is called.
pub data Endpoint : Type 0 where
  session_clear : Endpoint
  session_export : Endpoint
  recording_start : Endpoint
  recording_stop : Endpoint

-- What reaches httpx: a new connection, the end of one, and a request.
pub data Event : Type 0 where
  opened : Event
  closed : Event
  requested : Endpoint → Event

-- `client_error` is CharlesClientError with its message; `os_error` is of a file.
pub data Fault : Type 0 where
  client_error : Text → Fault
  live_error : LiveError → Fault
  os_error : Fault

-- The world outside: the answer to an event after those before it, the latest first, or the message
-- of the error that `_request` or `connect` makes of it; `response.json()` of an export; and whether
-- a file can be written, in a directory that is made for it.
pub record Charles : Type 0 where
  pub answer : List Event → Event → Outcome Text Text
  pub session_json : Text → Outcome Text (List Value)
  pub writable : List Event → Text → Bool

-- The live service: its manager, its client (`some true` for one whose httpx client is open), what
-- reached httpx, the latest first, and the files it wrote.
pub record Live : Type 0 where
  pub manager : Manager
  pub client : Option Bool
  pub events : List Event
  pub files : Dict Text (List Fields)

abbrev pub Call {ℓ} : Type ℓ → Type ℓ
Call A = Action Live Fault A

abbrev pub from_client {ℓ} : {A : Type ℓ} → Outcome Text A → Outcome Fault A
from_client (raise message) = raise (client_error message)
from_client (ok a) = ok a

abbrev pub is_open : Option Bool → Bool
is_open none = false
is_open (some b) = b

-- `except CharlesClientError`
abbrev pub on_client_error {ℓ} : {A : Type ℓ} → (Text → Call A) → Fault → Call A
on_client_error handler (client_error message) = handler message
on_client_error handler (live_error e) = throw (live_error e)
on_client_error handler os_error = throw os_error

abbrev pub record_event : Event → Live → Live
record_event event s = record s { events = event ∷ s.events }

abbrev pub set_client : Option Bool → Live → Live
set_client client s = record s { client = client }

module _ (ch : Charles) where
  unfoldable pub perform : Event → Call Text
  unfolding gets change lift ◌>>=◌
  perform event = do
    before ← gets (λ s. s.events)
    change (record_event event)
    lift (from_client (ch.answer before event))

  -- `connect`
  unfoldable pub connect : Call (Unit {0})
  unfolding perform
  connect = do
    client ← gets (λ s. s.client)
    if is_open client then skip else do answered ← perform opened; change (set_client (some true))

  -- `_request` of a GET.
  unfoldable pub request : Endpoint → Call Text
  unfolding connect perform
  request endpoint = do connect; perform (requested endpoint)

  -- `clear_session`, `start_recording` and `stop_recording`.
  unfoldable pub succeeds : Endpoint → Call Bool
  unfolding request rescue
  succeeds endpoint =
      rescue (do answered ← request endpoint; pure true) (on_client_error (λ message. pure false))

  unfoldable pub export_session_json : Call (List Value)
  unfolding request
  export_session_json = do body ← request session_export; lift (from_client (ch.session_json body))
