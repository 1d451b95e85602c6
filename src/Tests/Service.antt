-- ===== src/Tests/Service.antt =====
-- charles_mcp/services/live_capture.py with a Charles that answers every request.
use charles_mcp.Prelude.{◌≡◌, ◌≤◌, refl, true, false, Bool, none, some, [], ◌∷◌}
use charles_mcp.Prelude.Text.{codes, text_eq}
use charles_mcp.Prelude.Number.{str_nat}
use charles_mcp.Prelude.Int.{pos}
use charles_mcp.Prelude.Dict.{lookup, insert}
use charles_mcp.Prelude.Outcome.{raise, ok}
use charles_mcp.Prelude.Action.{pure, gets, lift, change, rescue, ◌>>=◌}
use charles_mcp.Json.{get_field}
use charles_mcp.LiveState.Errors.{conflict}
use charles_mcp.LiveState.Entries.{iter_entries, own_exports}
use charles_mcp.LiveState.Manager.{
  merge, read, require, close, working, page, advanced, recording_warning,
}
use charles_mcp.LiveState.Client.{
  Charles, Live, live_error, Endpoint, session_clear, session_export, recording_start,
  recording_stop, requested, opened, closed, perform, connect, request, succeeds,
  export_session_json,
}
use charles_mcp.LiveState.Service.{
  start_live, read_live, stop_live, get_shared_client, close_shared_client, export_current_session,
  stop_attempt, stop_recording_with_retry, manage, save_capture_items, persisted, finish_stop,
  settle_stop,
}
use charles_mcp.LiveState.Service.Sends.{sent, requests_bounded}
use charles_mcp.LiveState.Service.Starting.{open_with, start_live-conflict_cleared}
use charles_mcp.LiveState.Service.Final.{read_live-peek}
use charles_mcp.Tests.Captures.{plain, longer, capture}

abbrev charles : Charles
charles = record {
  answer = λ before event. ok [];
  session_json = λ body. ok longer;
  writable = λ before path. true;
}

abbrev idle_client : Live
idle_client = record { manager = some capture; client = none; events = []; files = [] }

-- The requests that the stop sent, and what it stored.
stop_sent :
    (stop_live plain charles (codes "c1") (codes "p") true idle_client).0.events
    ≡ closed ∷ requested recording_stop ∷ requested session_export ∷ opened ∷ []
unfolding stop_live iter_entries get_field insert lookup text_eq str_nat own_exports merge pure gets
    lift change rescue ◌>>=◌ perform connect request succeeds export_session_json get_shared_client
    close_shared_client export_current_session stop_attempt stop_recording_with_retry manage
    save_capture_items persisted finish_stop settle_stop read require close working page advanced
    recording_warning
stop_sent = refl

read_live-peek_example :
    ((read_live plain charles (codes "c1") none (pos 2) false idle_client).0.manager ≡ some capture)
    × ((read_live plain charles (codes "c1") none (pos 2) false idle_client).0.files ≡ [])
read_live-peek_example = read_live-peek plain charles (codes "c1") none (pos 2) idle_client

abbrev is_clear : Endpoint → Bool
is_clear session_clear = true
is_clear _ = false

requests_bounded_example :
    (sent is_clear (start_live plain charles (codes "c1") [] false true true idle_client).0.events
      ≤ 0)
    × (sent is_clear (read_live plain charles (codes "c1") none (pos 2) true idle_client).0.events
        ≤ 0)
    × (sent is_clear (stop_live plain charles (codes "c1") (codes "p") true idle_client).0.events
        ≤ 0)
requests_bounded_example =
    requests_bounded plain charles is_clear idle_client (codes "c1") [] (codes "p") false true true
      true true none (pos 2)

start_live-conflict_cleared_example :
    start_live plain charles (codes "c2") [] true true true (open_with (some capture) [] []) ≡ (
      open_with (some capture) (requested recording_start ∷ requested session_clear ∷ []) [],
      raise (live_error conflict),
    )
start_live-conflict_cleared_example =
    start_live-conflict_cleared plain charles (codes "c2") [] [] [] true true (some capture) [] []
      refl refl refl
