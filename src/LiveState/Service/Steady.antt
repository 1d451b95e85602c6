-- ===== src/LiveState/Service/Steady.antt =====
-- What goes to Charles leaves the captures and the files alone.
use charles_mcp.Prelude.{Bool, true, false, Option, none, some, List, ◌∷◌, ◌≡◌, refl, if◌then◌else◌}
use charles_mcp.Prelude.Text.{Text}
use charles_mcp.Prelude.Dict.{Dict}
use charles_mcp.Prelude.Outcome.{Outcome, raise, ok}
use charles_mcp.Prelude.Action.{lift, change}
use charles_mcp.Prelude.Action.Laws.{
  Triple, Ends, Triple-pure, Triple-throw, Triple-gets, Triple-if, Triple-rescue, Triple-bind,
  Triple-from,
}
use charles_mcp.Json.{Value, Fields}
use charles_mcp.LiveState.Entries.{Platform}
use charles_mcp.LiveState.Manager.{Manager}
use charles_mcp.LiveState.Client.{
  Charles, Live, Call, Fault, client_error, live_error, os_error, Endpoint, session_export,
  recording_stop, Event, opened, closed, requested, on_client_error, perform, connect, request,
  succeeds, export_session_json, is_open, set_client, from_client,
}
use charles_mcp.LiveState.Service.{
  get_shared_client, close_shared_client, export_current_session, shared, stop_attempt,
  after_attempt, stop_recording_with_retry, failed_to_stop, retried,
}

-- Some answer of Charles is this export.
abbrev pub IsExport : Charles → List Value → Type 0
IsExport ch raw = (body : Text) × (ch.session_json body ≡ ok raw)

-- The requests of the live service: `V` holds of the captures and the files before, it holds after
-- them, and what is raised or answered with `false` has one of the two reasons for `Fails`.
module _ (pf : Platform) (ch : Charles) (V : Manager → Dict Text (List Fields) → Type 0)
    (Fails : Type 0)
    (unanswered : (before : List Event) (e : Event) (message : Text)
      → ch.answer before e ≡ raise message
      → Fails)
    (unreadable : (body message : Text) → ch.session_json body ≡ raise message → Fails) where
  abbrev pub Holds : Live → Type 0
  Holds s = V s.manager s.files

  abbrev Failed : Live → Type 0
  Failed s = Holds s × Fails

  abbrev Steady {ℓ} : {A : Type ℓ} → Call A → Type ℓ
  Steady m = Triple Holds m (λ _. Holds) Failed

  Steady-perform : (e : Event) → Steady (perform ch e)
  unfolding perform
  Steady-perform e = record { run = λ s h. by_answer s h (ch.answer s.events e) refl }
    where
      by_answer :
          (s : Live)
          → Holds s
          → (r : Outcome Text Text) → ch.answer s.events e ≡ r
          → Ends (λ _. Holds) Failed (record s { events = e ∷ s.events }, from_client r)
      by_answer s h (raise message) answered = (h, unanswered s.events e message answered)
      by_answer s h (ok body) answered = h

  Steady-set_client :
      {R : Live → Type 0} (client : Option Bool)
      → Triple {E = Fault} Holds (change (set_client client)) (λ _. Holds) R
  unfolding change
  Steady-set_client client = record { run = λ s h. h }

  Steady-on_client_error {ℓ} :
      {A : Type ℓ} {Q : A → Live → Type 0} (handler : Text → Call A) (fault : Fault)
      → ((message : Text) → Triple Failed (handler message) Q Failed)
      → Triple Failed (on_client_error handler fault) Q Failed
  Steady-on_client_error handler (client_error message) h = h message
  Steady-on_client_error handler (live_error e) h = Triple-throw _ (λ s h. h)
  Steady-on_client_error handler os_error h = Triple-throw _ (λ s h. h)

  Steady-connect : Steady (connect ch)
  unfolding connect
  Steady-connect = Triple-bind _ _ (Triple-gets (λ s. s.client) (λ s h. h)) (λ client.
      Triple-if (is_open client) _ _ (λ _. Triple-pure tt (λ s h. h))
        (λ _. Triple-bind _ _ (Steady-perform opened) (λ _. Steady-set_client (some true))))

  Steady-request : (e : Endpoint) → Steady (request ch e)
  unfolding request
  Steady-request e = Triple-bind _ _ Steady-connect (λ _. Steady-perform (requested e))

  -- A request is answered with `false` only where something fails.
  Steady-succeeds :
      (e : Endpoint)
      → Triple Holds (succeeds ch e) (λ done s. Holds s × (done ≡ false → Fails)) Failed
  unfolding succeeds
  Steady-succeeds e =
      Triple-rescue _ _
        (Triple-bind _ _ (Steady-request e) (λ _. Triple-pure true (λ s h. (h, λ no'. cc))))
        (λ fault.
          Steady-on_client_error _ fault (λ _. Triple-pure false (λ s h. (h.0, λ no'. h.1))))

  -- An export returns what some answer of Charles holds.
  pub Steady-export_session_json :
      Triple Holds (export_session_json ch) (λ raw s. Holds s × IsExport ch raw) Failed
  unfolding export_session_json lift
  Steady-export_session_json =
      Triple-bind _ (λ body. lift (from_client (ch.session_json body)))
        (Steady-request session_export)
        (λ body. record { run = λ s h. by_body s h body (ch.session_json body) refl })
    where
      by_body :
          (s : Live)
          → Holds s
          → (body : Text) (r : Outcome Text (List Value)) → ch.session_json body ≡ r
          → Ends (λ raw t. Holds t × IsExport ch raw) Failed (lift (from_client r) s)
      by_body s h body (raise message) e = (h, unreadable body message e)
      by_body s h body (ok raw) e = (h, (body, e))

  Steady-shared : (client : Option Bool) → Steady (shared pf ch client)
  Steady-shared (some b) = Triple-pure tt (λ s h. h)
  Steady-shared none = Triple-bind _ _ (Steady-set_client (some false)) (λ _. Steady-connect)

  pub Steady-get_shared_client : Steady (get_shared_client pf ch)
  unfolding get_shared_client
  Steady-get_shared_client = Triple-bind _ _ (Triple-gets (λ s. s.client) (λ s h. h)) Steady-shared

  -- Closing the client never raises.
  pub Steady-close_shared_client :
      {R : Live → Type 0} → Triple Holds (close_shared_client pf ch) (λ _. Holds) R
  unfolding close_shared_client
  Steady-close_shared_client = Triple-bind _ _ (Triple-gets (λ s. s.client) (λ s h. h)) (λ client.
      Triple-bind _ _
        (Triple-if (is_open client) _ _
          (λ _.
            Triple-rescue _ _
              (Triple-bind _ _ (Steady-perform closed) (λ _. Triple-pure tt (λ s h. h)))
              (λ fault. Triple-pure tt (λ s h. h.0)))
          (λ _. Triple-pure tt (λ s h. h)))
        (λ _. Steady-set_client none))

  pub Steady-export_current_session :
      Triple Holds (export_current_session pf ch) (λ raw s. Holds s × IsExport ch raw) Failed
  unfolding export_current_session
  Steady-export_current_session =
      Triple-rescue _ _ (Triple-bind _ _ Steady-get_shared_client (λ _. Steady-export_session_json))
        (λ fault. Steady-on_client_error _ fault (λ _.
          Triple-bind _ _ (Triple-from (λ s h. h.0) Steady-close_shared_client)
            (λ _. Triple-bind _ _ Steady-get_shared_client (λ _. Steady-export_session_json))))

  -- An attempt ends with an error only where something fails.
  abbrev Attempted : Option Text → Type 0
  Attempted none = Unit
  Attempted (some message) = Fails

  attempted :
      (done : Bool)
      → (done ≡ false → Fails)
      → Attempted (if done then none else some failed_to_stop)
  attempted true h = tt
  attempted false h = h refl

  Steady-stop_attempt :
      Triple Holds (stop_attempt pf ch) (λ first s. Holds s × Attempted first) Failed
  unfolding stop_attempt
  Steady-stop_attempt =
      Triple-rescue _ _
        (Triple-bind _ _ Steady-get_shared_client (λ _.
          Triple-bind _ _ (Steady-succeeds recording_stop)
            (λ done. Triple-pure _ (λ s h. (h.0, attempted done h.1)))))
        (λ fault. Steady-on_client_error _ fault (λ message. Triple-pure _ (λ s h. h)))

  retried-Fails :
      (second : Option Text) → Attempted second → (retried pf ch second).0 ≡ false → Fails
  retried-Fails none h no' = cc
  retried-Fails (some message) h no' = h

  Steady-after_attempt :
      (first : Option Text)
      → Triple
          (λ s. Holds s × Attempted first)
          (after_attempt pf ch first)
          (λ stopping s. Holds s × (stopping.0 ≡ false → Fails))
          Failed
  Steady-after_attempt none = Triple-pure _ (λ s h. (h.0, λ no'. cc))
  Steady-after_attempt (some message) =
      Triple-bind _ _ (Triple-from (λ s h. h.0) Steady-stop_attempt)
        (λ second. Triple-pure _ (λ s h. (h.0, retried-Fails second h.1)))

  -- The recording is not stopped only where something fails.
  pub Steady-retry :
      Triple Holds
        (stop_recording_with_retry pf ch)
        (λ stopping s. Holds s × (stopping.0 ≡ false → Fails))
        Failed
  unfolding stop_recording_with_retry
  Steady-retry = Triple-bind _ _ Steady-stop_attempt Steady-after_attempt
