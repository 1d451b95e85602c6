-- ===== src/LiveState/Service/Starting.antt =====
-- A start that is refused.
use charles_mcp.Prelude.{◌≡◌, Bool, true, false, some, List, [], ◌∷◌, refl, ap}
use charles_mcp.Prelude.Text.{Text}
use charles_mcp.Prelude.Dict.{Dict}
use charles_mcp.Json.{Value, Fields}
use charles_mcp.Prelude.Outcome.{Outcome, raise, ok}
use charles_mcp.Prelude.Action.{pure, gets, rescue}
use charles_mcp.LiveState.Entries.{Platform}
use charles_mcp.LiveState.Errors.{conflict}
use charles_mcp.LiveState.Manager.{Capture, Manager, refuses, start}
use charles_mcp.LiveState.Client.{
  Charles, Fault, Event, Endpoint, Live, live_error, session_clear, recording_start, requested,
  perform, connect, request, succeeds,
}
use charles_mcp.LiveState.Service.{start_live, get_shared_client, own_session, must, manage}

-- The service with an open client.
abbrev pub open_with : Manager → List Event → Dict Text (List Fields) → Live
open_with m events files = record {
  manager = m;
  client = some true;
  events = events;
  files = files;
}

succeeds-ok :
    (ch : Charles) (e : Endpoint) (body : Text) (m : Manager) (events : List Event)
    (files : Dict Text (List Fields))
    → ch.answer events (requested e) ≡ ok body
    → succeeds ch e (open_with m events files) ≡ (open_with m (requested e ∷ events) files, ok true)
unfolding succeeds request connect perform rescue pure gets
succeeds-ok ch e body m events files answered = rw answered refl

must-ok :
    (pf : Platform) (ch : Charles) (e : Endpoint) (message body : Text) (m : Manager)
    (events : List Event) (files : Dict Text (List Fields))
    → ch.answer events (requested e) ≡ ok body
    → must pf ch e message (open_with m events files)
      ≡ (open_with m (requested e ∷ events) files, ok tt)
unfolding must pure
must-ok pf ch e message body m events files answered =
    rw (succeeds-ok ch e body m events files answered, must) refl

own-ok :
    (pf : Platform) (ch : Charles) (cleared begun : Text) (m : Manager) (events : List Event)
    (files : Dict Text (List Fields))
    → ch.answer events (requested session_clear) ≡ ok cleared
    → ch.answer (requested session_clear ∷ events) (requested recording_start) ≡ ok begun
    → own_session pf ch true (open_with m events files)
      ≡ (open_with m (requested recording_start ∷ requested session_clear ∷ events) files, ok [])
unfolding own_session pure
own-ok pf ch cleared begun m events files first second =
    rw
      (
        must-ok pf ch session_clear _ cleared m events files first,
        must-ok pf ch recording_start _ begun m (requested session_clear ∷ events) files second,
      )
      refl

start-refused :
    (pf : Platform) (id at : Text) (managed : Bool) (raw : List Value) (t : Live)
    → refuses t.manager ≡ true
    → manage (start pf id at managed true raw) t ≡ (t, raise (live_error conflict))
unfolding manage start
start-refused pf id at managed raw t busy = rw (busy, start) refl

-- A start that is asked to reset the session while a capture is active is refused after Charles
-- has cleared the session and started to record, when the client is open and Charles answers both
-- requests.
pub start_live-conflict_cleared :
    (pf : Platform) (ch : Charles) (id at cleared begun : Text) (adopt begin : Bool) (m : Manager)
    (events : List Event) (files : Dict Text (List Fields))
    → refuses m ≡ true
    → ch.answer events (requested session_clear) ≡ ok cleared
    → ch.answer (requested session_clear ∷ events) (requested recording_start) ≡ ok begun
    → start_live pf ch id at true adopt begin (open_with m events files) ≡ (
      open_with m (requested recording_start ∷ requested session_clear ∷ events) files,
      raise (live_error conflict),
    )
unfolding start_live get_shared_client gets pure
start_live-conflict_cleared pf ch id at cleared begun true begin m events files busy first second =
    let refused =
      start-refused pf id at true []
        (open_with m (requested recording_start ∷ requested session_clear ∷ events) files) busy in
    rw (own-ok pf ch cleared begun m events files first second, refused)
      (ap (λ (o : Live × Outcome Fault Capture). (o.0, raise (live_error conflict))) refused)
start_live-conflict_cleared pf ch id at cleared begun false begin m events files busy first second =
    let refused =
      start-refused pf id at true []
        (open_with m (requested recording_start ∷ requested session_clear ∷ events) files) busy in
    rw (own-ok pf ch cleared begun m events files first second, refused)
      (ap (λ (o : Live × Outcome Fault Capture). (o.0, raise (live_error conflict))) refused)
