-- ===== src/LiveState/Service/Sends.antt =====
-- How many requests to Charles the live service sends.
use charles_mcp.Prelude.{
  ℕ, suc, ◌+◌, ◌*◌, ◌≤◌, ◌≡◌, refl, ap, not, ◌&&◌, length, max, Bool, true, false, Option, none,
  some, List, [], ◌∷◌, arith, if◌then◌else◌,
}
use charles_mcp.Prelude.Text.{Text}
use charles_mcp.Prelude.Int.{ℤ, pos}
use charles_mcp.Prelude.Outcome.{raise, ok}
use charles_mcp.Prelude.Action.{change}
use charles_mcp.Prelude.Action.Laws.{
  Adds, Adds-pure, Adds-throw, Adds-gets, Adds-lift, Adds-if, Adds-le, Adds-rescue, Adds-bind,
}
use charles_mcp.Json.{Fields}
use charles_mcp.LiveState.Entries.{Platform}
use charles_mcp.LiveState.Errors.{Result}
use charles_mcp.LiveState.Manager.{Capture, Warning, Manager, read, start, close}
use charles_mcp.LiveState.Client.{
  Charles, Live, Call, Fault, client_error, live_error, os_error, Endpoint, session_clear,
  session_export, recording_start, recording_stop, Event, opened, closed, requested,
  on_client_error, perform, connect, request, succeeds, export_session_json, is_open, set_client,
}
use charles_mcp.LiveState.Service.{
  get_shared_client, close_shared_client, export_current_session, start_live, read_live, stop_live,
  manage, with_manager, shared, must, adopt_session, own_session, stop_attempt, after_attempt,
  stop_recording_with_retry, save_capture_items, persisted, finish_stop, settle_stop, required,
  put_capture, add_warnings, after_stopping, store_file,
}

-- The requests to some of the endpoints.
abbrev pub sent : (Endpoint → Bool) → List Event → ℕ
sent p [] = 0
sent p (requested e ∷ events) = if p e then suc (sent p events) else sent p events
sent p (_ ∷ events) = sent p events

module _ (pf : Platform) (ch : Charles) (p : Endpoint → Bool) where
  abbrev cost : Endpoint → ℕ
  cost e = if p e then 1 else 0

  abbrev of_state : Live → ℕ
  of_state s = sent p s.events

  abbrev Sends {ℓ} : {A : Type ℓ} → ℕ → Call A → Type ℓ
  Sends n m = Adds of_state n m

  Sends-change : (f : Live → Live) → ((s : Live) → (f s).events ≡ s.events) → Sends 0 (change f)
  unfolding change
  Sends-change f same = record { adds = λ s. omega (arith, ap (sent p) (same s)) }

  Sends-opened : Sends 0 (perform ch opened)
  unfolding perform
  Sends-opened = record { adds = λ s. omega arith }

  Sends-closed : Sends 0 (perform ch closed)
  unfolding perform
  Sends-closed = record { adds = λ s. omega arith }

  Sends-requested : (e : Endpoint) → Sends (cost e) (perform ch (requested e))
  unfolding perform
  Sends-requested e = record { adds = λ s. ground arith }

  Sends-manage {ℓ} : {A : Type ℓ} (call : Manager → Result (A × Manager)) → Sends 0 (manage call)
  unfolding manage
  Sends-manage {A = A} call = record { adds = λ s. kept s (call s.manager) }
    where
      kept : (s : Live) (r : Result (A × Manager)) → of_state (with_manager s r).0 ≤ 0 + of_state s
      kept s (raise e) = omega arith
      kept s (ok (a, m)) = omega arith

  Sends-on_client_error {ℓ} :
      {A : Type ℓ} (n : ℕ) (handler : Text → Call A) (fault : Fault)
      → ((message : Text) → Sends n (handler message))
      → Sends n (on_client_error handler fault)
  Sends-on_client_error n handler (client_error message) h = h message
  Sends-on_client_error n handler (live_error e) h = Adds-le (omega arith) (Adds-throw _)
  Sends-on_client_error n handler os_error h = Adds-le (omega arith) (Adds-throw _)

  Sends-connect : Sends 0 (connect ch)
  unfolding connect
  Sends-connect = Adds-bind 0 0 _ _ (Adds-gets (λ s. s.client)) (λ client.
      Adds-if 0 (is_open client) _ _ (λ _. Adds-pure tt)
        (λ _.
          Adds-bind 0 0 _ _ Sends-opened (λ _. Sends-change (set_client (some true)) (λ s. refl))))

  Sends-request : (e : Endpoint) → Sends (cost e) (request ch e)
  unfolding request
  Sends-request e =
      Adds-le (omega arith) (Adds-bind 0 (cost e) _ _ Sends-connect (λ _. Sends-requested e))

  Sends-succeeds : (e : Endpoint) → Sends (cost e) (succeeds ch e)
  unfolding succeeds
  Sends-succeeds e = Adds-le (omega arith) (
      Adds-rescue (cost e + 0) 0 _ _
        (Adds-bind (cost e) 0 _ _ (Sends-request e) (λ _. Adds-pure true))
        (λ fault. Sends-on_client_error 0 _ fault (λ _. Adds-pure false)))

  Sends-export : Sends (cost session_export) (export_session_json ch)
  unfolding export_session_json
  Sends-export =
      Adds-le (omega arith)
        (Adds-bind (cost session_export) 0 _ _ (Sends-request session_export) (λ body. Adds-lift _))

  Sends-shared : (client : Option Bool) → Sends 0 (shared pf ch client)
  Sends-shared (some b) = Adds-pure tt
  Sends-shared none =
      Adds-bind 0 0 _ _ (Sends-change (set_client (some false)) (λ s. refl)) (λ _. Sends-connect)

  Sends-get_shared_client : Sends 0 (get_shared_client pf ch)
  unfolding get_shared_client
  Sends-get_shared_client = Adds-bind 0 0 _ _ (Adds-gets (λ s. s.client)) Sends-shared

  Sends-close_shared_client : Sends 0 (close_shared_client pf ch)
  unfolding close_shared_client
  Sends-close_shared_client = Adds-bind 0 0 _ _ (Adds-gets (λ s. s.client)) (λ client.
      Adds-bind 0 0 _ _
        (Adds-if 0 (is_open client) _ _
          (λ _.
            Adds-rescue 0 0 _ _ (Adds-bind 0 0 _ _ Sends-closed (λ _. Adds-pure tt))
              (λ fault. Adds-pure tt))
          (λ _. Adds-pure tt))
        (λ _. Sends-change (set_client none) (λ s. refl)))

  -- The session is exported twice at most.
  Sends-export_current : Sends (2 * cost session_export) (export_current_session pf ch)
  unfolding export_current_session
  Sends-export_current = Adds-le (omega arith) (
      Adds-rescue (0 + cost session_export) (0 + (0 + cost session_export)) _ _
        (Adds-bind 0 (cost session_export) _ _ Sends-get_shared_client (λ _. Sends-export))
        (λ fault. Sends-on_client_error (0 + (0 + cost session_export)) _ fault (λ _.
          Adds-bind 0 (0 + cost session_export) _ _ Sends-close_shared_client (λ _.
            Adds-bind 0 (cost session_export) _ _ Sends-get_shared_client (λ _. Sends-export)))))

  read_live-Sends :
      (id : Text) (cursor : Option ℤ) (limit : ℤ) (advance : Bool)
      → Sends (2 * cost session_export) (read_live pf ch id cursor limit advance)
  unfolding read_live
  read_live-Sends id cursor limit advance = Adds-le (omega arith) (
      Adds-bind (2 * cost session_export) 0 _ _ Sends-export_current
        (λ raw. Sends-manage (read pf id raw cursor limit advance)))

  Sends-must : (e : Endpoint) (message : Text) → Sends (cost e) (must pf ch e message)
  unfolding must
  Sends-must e message = Adds-le (omega arith) (
      Adds-bind (cost e) 0 _ _ (Sends-succeeds e)
        (λ done. Adds-if 0 done _ _ (λ _. Adds-pure tt) (λ _. Adds-throw (client_error message))))

  Sends-adopt_session :
      (b : Bool) → Sends (cost session_export + cost recording_start) (adopt_session pf ch b)
  unfolding adopt_session
  Sends-adopt_session b = Adds-le (omega arith) (
      Adds-bind (cost session_export) (cost recording_start + 0) _ _ Sends-export (λ baseline.
        Adds-bind (cost recording_start) 0 _ _
          (Adds-if (cost recording_start) b _ _ (λ _. Sends-must recording_start _)
            (λ _. Adds-le (omega arith) (Adds-pure tt)))
          (λ _. Adds-pure baseline)))

  -- What a start reads or clears before it starts the recording.
  abbrev pub prepares : Bool → ℕ
  prepares reset = if reset then cost session_clear else cost session_export

  Sends-own_session :
      (reset : Bool) → Sends (prepares reset + cost recording_start) (own_session pf ch reset)
  unfolding own_session
  Sends-own_session false = Adds-le (omega arith) (
      Adds-bind (cost session_export) (0 + (cost recording_start + 0)) _ _ Sends-export (λ baseline.
        Adds-bind 0 (cost recording_start + 0) _ _ (Adds-pure tt) (λ _.
          Adds-bind (cost recording_start) 0 _ _ (Sends-must recording_start _)
            (λ _. Adds-pure baseline))))
  Sends-own_session true = Adds-le (omega arith) (
      Adds-bind 0 (cost session_clear + (cost recording_start + 0)) _ _ (Adds-pure []) (λ baseline.
        Adds-bind (cost session_clear) (cost recording_start + 0) _ _ (Sends-must session_clear _)
          (λ _.
            Adds-bind (cost recording_start) 0 _ _ (Sends-must recording_start _)
              (λ _. Adds-pure baseline))))

  Sends-begun :
      (adopt reset begin : Bool)
      → Sends
          (prepares reset + cost recording_start)
          (if adopt && not reset then adopt_session pf ch begin else own_session pf ch reset)
  Sends-begun true true begin = Sends-own_session true
  Sends-begun false true begin = Sends-own_session true
  Sends-begun true false begin = Sends-adopt_session begin
  Sends-begun false false begin = Sends-own_session false

  start_live-Sends :
      (id at : Text) (reset adopt begin : Bool)
      → Sends (prepares reset + cost recording_start) (start_live pf ch id at reset adopt begin)
  unfolding start_live
  start_live-Sends id at reset adopt begin = Adds-le (omega arith) (
      Adds-bind 0 (prepares reset + cost recording_start + (0 + 0)) _ _ Sends-get_shared_client
        (λ _.
          Adds-bind (prepares reset + cost recording_start) (0 + 0) _ _
            (Sends-begun adopt reset begin)
            (λ baseline.
              Adds-bind 0 0 _ _
                (Sends-manage (start pf id at (not (adopt && not reset)) true baseline))
                (λ capture. Adds-pure _))))

  Sends-stop_attempt : Sends (cost recording_stop) (stop_attempt pf ch)
  unfolding stop_attempt
  Sends-stop_attempt = Adds-le (omega arith) (
      Adds-rescue (0 + (cost recording_stop + 0)) 0 _ _
        (Adds-bind 0 (cost recording_stop + 0) _ _ Sends-get_shared_client (λ _.
          Adds-bind (cost recording_stop) 0 _ _ (Sends-succeeds recording_stop)
            (λ done. Adds-pure _)))
        (λ fault. Sends-on_client_error 0 _ fault (λ message. Adds-pure _)))

  Sends-after_attempt :
      (first : Option Text) → Sends (cost recording_stop) (after_attempt pf ch first)
  Sends-after_attempt none = Adds-le (omega arith) (Adds-pure _)
  Sends-after_attempt (some message) =
      Adds-le (omega arith)
        (Adds-bind (cost recording_stop) 0 _ _ Sends-stop_attempt (λ second. Adds-pure _))

  Sends-retry : Sends (2 * cost recording_stop) (stop_recording_with_retry pf ch)
  unfolding stop_recording_with_retry
  Sends-retry = Adds-le (omega arith) (
      Adds-bind (cost recording_stop) (cost recording_stop) _ _ Sends-stop_attempt
        Sends-after_attempt)

  Sends-save : (path : Text) (items : List Fields) → Sends 0 (save_capture_items pf ch path items)
  unfolding save_capture_items
  Sends-save path items = Adds-bind 0 0 _ _ (Adds-gets (λ s. s.events)) (λ before.
      Adds-if 0 (ch.writable before path) _ _
        (λ _. Sends-change (store_file path items) (λ s. refl)) (λ _. Adds-throw os_error))

  Sends-persisted :
      (path : Text) (c : Capture) (persist : Bool) → Sends 0 (persisted pf ch path c persist)
  unfolding persisted
  Sends-persisted path c persist =
      Adds-if 0 persist _ _
        (λ _.
          Adds-bind 0 (0 + 0) _ _ Sends-get_shared_client
            (λ _. Adds-bind 0 0 _ _ (Sends-save path c.items) (λ _. Adds-pure (some path))))
        (λ _. Adds-pure none)

  Sends-finish_stop :
      (id path : Text) (persist : Bool) (c : Capture)
      → Sends 0 (finish_stop pf ch id path persist c)
  unfolding finish_stop
  Sends-finish_stop id path persist c =
      Adds-bind 0 (0 + (0 + 0)) _ _ (Sends-persisted path c persist) (λ saved.
        Adds-bind 0 (0 + 0) _ _ (Sends-manage (close id))
          (λ closed'. Adds-bind 0 0 _ _ Sends-close_shared_client (λ _. Adds-pure _)))

  Sends-after_stopping :
      (id path : Text) (persist : Bool) (c : Capture) (stopping : Bool × List Warning × Option Text)
      → Sends 0 (after_stopping pf ch id path persist c stopping)
  Sends-after_stopping id path persist c (true, ws, e) = Sends-finish_stop id path persist c
  Sends-after_stopping id path persist c (false, ws, e) = Adds-pure _

  Sends-settle_stop :
      (id path : Text) (persist : Bool) (c : Capture)
      → Sends (2 * cost recording_stop) (settle_stop pf ch id path persist c)
  unfolding settle_stop
  Sends-settle_stop id path persist c =
      Adds-if (2 * cost recording_stop) c.managed _ _
        (λ _. Adds-le (omega arith) (
          Adds-bind (2 * cost recording_stop) (0 + 0) _ _ Sends-retry (λ stopping.
            Adds-bind 0 0 _ _ (Sends-change (put_capture (add_warnings stopping.1 c)) (λ s. refl))
              (λ _. Sends-after_stopping id path persist (add_warnings stopping.1 c) stopping))))
        (λ _. Adds-le (omega arith) (Sends-finish_stop id path persist c))

  stop_live-Sends :
      (id path : Text) (persist : Bool)
      → Sends (2 * cost session_export + 2 * cost recording_stop) (stop_live pf ch id path persist)
  unfolding stop_live
  stop_live-Sends id path persist = Adds-le (omega arith) (
      Adds-bind 0 (2 * cost session_export + (0 + (0 + 2 * cost recording_stop))) _ _
        (Sends-manage (required id))
        (λ capture.
          Adds-bind (2 * cost session_export) (0 + (0 + 2 * cost recording_stop)) _ _
            Sends-export_current
            (λ raw.
              Adds-bind 0 (0 + 2 * cost recording_stop) _ _
                (Sends-manage
                  (read pf id raw (some (pos capture.cursor)) (pos (max (length raw) 1)) true))
                (λ page.
                  Adds-bind 0 (2 * cost recording_stop) _ _ (Sends-manage (required id))
                    (Sends-settle_stop id path persist)))))

  -- However Charles answers and whether the call returns or raises: a start asks to start the
  -- recording once at most, and clears the session only when that is asked for, once, instead of
  -- exporting it; a read exports the session twice at most, and sends nothing else; a stop exports
  -- it twice at most and asks to stop the recording twice at most.
  pub requests_bounded :
      (s : Live) (id at path : Text) (reset adopt begin persist advance : Bool) (cursor : Option ℤ)
      (limit : ℤ)
      → (sent p (start_live pf ch id at reset adopt begin s).0.events
          ≤ prepares reset + cost recording_start + sent p s.events)
        × (sent p (read_live pf ch id cursor limit advance s).0.events
            ≤ 2 * cost session_export + sent p s.events)
        × (sent p (stop_live pf ch id path persist s).0.events
            ≤ 2 * cost session_export + 2 * cost recording_stop + sent p s.events)
  requests_bounded s id at path reset adopt begin persist advance cursor limit = (
    (start_live-Sends id at reset adopt begin).adds s,
    (read_live-Sends id cursor limit advance).adds s,
    (stop_live-Sends id path persist).adds s,
  )
