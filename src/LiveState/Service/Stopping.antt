-- ===== src/LiveState/Service/Stopping.antt =====
-- A stop settles, step by step.
use charles_mcp.Prelude.{
  ◌≡◌, refl, ap, sym, subst, ◌∙◌, Bool, true, false, Option, none, some, List, length, inl, inr,
}
use charles_mcp.Prelude.Text.{Text, text_eq}
use charles_mcp.Prelude.Dict.{Dict, insert}
use charles_mcp.Prelude.Outcome.{raise, ok, same_value}
use charles_mcp.Prelude.Action.{change, ◌>>=◌}
use charles_mcp.Prelude.Action.Laws.{
  Triple, Ends, Triple-pure, Triple-throw, Triple-gets, Triple-if, Triple-bind, Triple-raise_le,
  Triple-given,
}
use charles_mcp.Json.{Value, Fields}
use charles_mcp.LiveState.Entries.{Platform}
use charles_mcp.LiveState.Errors.{LiveError}
use charles_mcp.LiveState.Manager.{Capture, Manager, ReadResult, Warning, close}
use charles_mcp.LiveState.Client.{Charles, Event, Live, Call, Fault, os_error}
use charles_mcp.LiveState.Service.{
  StopResult, export_current_session, save_capture_items, persisted, finish_stop, settle_stop,
  stop_live, after_stopping, manage, required, put_capture, add_warnings,
}
use charles_mcp.LiveState.Service.Steady.{
  IsExport, Steady-get_shared_client, Steady-close_shared_client, Steady-export_current_session,
  Steady-retry,
}
use charles_mcp.LiveState.Service.Settled.{
  Triple-manage, last_read, required-named, close-idle, Is, Active, IsHeld, held, IsPersisted,
  IsSettled,
}

module _ (pf : Platform) (ch : Charles) (id path : Text) (files : Dict Text (List Fields))
    (persist : Bool) (Final : Capture → Type 0) (Fails : Type 0)
    (unanswered : (before : List Event) (e : Event) (message : Text)
      → ch.answer before e ≡ raise message
      → Fails)
    (unreadable : (body message : Text) → ch.session_json body ≡ raise message → Fails)
    (unwritable : (before : List Event) → ch.writable before path ≡ false → Fails)
    (warned : (c : Capture) (ws : List Warning) → Final c → Final (add_warnings ws c)) where
  abbrev Settled : StopResult → Live → Type 0
  Settled = IsSettled id path files persist Final Fails

  abbrev Failed : Live → Type 0
  Failed s = IsHeld id path files s × Fails

  abbrev This : Capture → Live → Type 0
  This c s = Active id path files c s

  -- Requests to Charles while this capture is active.
  steady-Failed : (c : Capture) (s : Live) → c.capture_id ≡ id → This c s × Fails → Failed s
  steady-Failed c s named h = (held id path files c s named h.0, h.1)

  -- The manager's `require` finds the active capture.
  Active-required :
      (c : Capture)
      → c.capture_id ≡ id
      → Triple (This c) (manage (required id)) (λ d s. (d ≡ c) × This c s) Failed
  Active-required c named =
      Triple-manage (required id)
        (λ s e h found. absurd (cc (sym found ∙ required-named id c s.manager named h.0)))
        (λ s out h found.
          let same = same_value (sym found ∙ required-named id c s.manager named h.0) in
          (
            ap (λ (o : Capture × Manager). o.0) same,
            (ap (λ (o : Capture × Manager). o.1) same ∙ h.0, h.1),
          ))

  Active-save :
      (c : Capture)
      → c.capture_id ≡ id
      → Triple
          (This c)
          (save_capture_items pf ch path c.items)
          (λ _ s. (s.manager ≡ some c) × (s.files ≡ insert path c.items files))
          Failed
  unfolding save_capture_items change
  Active-save c named =
      Triple-bind {M = λ before. This c} _ _ (Triple-gets (λ s. s.events) (λ s h. h)) (λ before.
        Triple-if (ch.writable before path) _ _
          (λ _. record {
            run = λ s h. (h.0, ap (λ (f : Dict Text (List Fields)). insert path c.items f) h.1);
          })
          (λ denied.
            Triple-throw os_error
              (λ s h. (held id path files c s named h, unwritable before denied))))

  Active-persisted :
      (c : Capture) (b : Bool)
      → c.capture_id ≡ id
      → Triple
          (This c)
          (persisted pf ch path c b)
          (λ where' s. (s.manager ≡ some c) × IsPersisted id path files b c.items where' s.files)
          Failed
  unfolding persisted
  Active-persisted c false named = Triple-pure none (λ s h. (h.0, (refl, h.1)))
  Active-persisted c true named =
      Triple-bind _ _
        (Triple-raise_le (λ s. steady-Failed c s named)
          (Steady-get_shared_client pf ch (Is id path files c) Fails unanswered unreadable))
        (λ _.
          Triple-bind _ _ (Active-save c named)
            (λ _. Triple-pure (some path) (λ s h. (h.0, (refl, h.1)))))

  Active-put :
      (c d : Capture) → Triple {E = Fault} (This c) (change (put_capture d)) (λ _. This d) Failed
  unfolding change
  Active-put c d = record { run = λ s h. (refl, h.1) }

  -- After the capture is closed.
  abbrev Idle : Capture → Option Text → Manager → Dict Text (List Fields) → Type 0
  Idle c where' m f = (m ≡ none) × IsPersisted id path files persist c.items where' f

  Active-finish :
      (c : Capture)
      → c.capture_id ≡ id
      → Final c
      → Triple (This c) (finish_stop pf ch id path persist c) Settled Failed
  unfolding finish_stop
  Active-finish c named final = Triple-bind _ _ (Active-persisted c persist named) (λ where'.
      Triple-bind _ _
        (Triple-manage {Q = λ d s. (d.items ≡ c.items) × Idle c where' s.manager s.files} (close id)
          (λ s e h found. absurd (cc (sym found ∙ close-idle id c s.manager named h.0)))
          (λ s out h found.
            let same = same_value (sym found ∙ close-idle id c s.manager named h.0) in
            (
              ap (λ (o : Capture × Manager). o.0.items) same,
              (ap (λ (o : Capture × Manager). o.1) same, h.1),
            )))
        (λ d.
          Triple-bind _ _
            (Steady-close_shared_client pf ch (λ m f. (d.items ≡ c.items) × Idle c where' m f) Fails
              unanswered unreadable)
            (λ _. Triple-pure _ (λ s h. inl (record {
              capture = c;
              final = final;
              status = refl;
              total = ap length h.0;
              stored = h.1.1;
              idle = h.1.0;
            })))))

  Active-after_stopping :
      (c : Capture) (stopping : Bool × List Warning × Option Text)
      → c.capture_id ≡ id
      → Final c
      → (stopping.0 ≡ false → Fails)
      → Triple (This c) (after_stopping pf ch id path persist c stopping) Settled Failed
  Active-after_stopping c (true, ws, error) named final reason = Active-finish c named final
  Active-after_stopping c (false, ws, error) named final reason = Triple-pure _ (λ s h.
      inr (record {
        capture = c;
        final = final;
        status = refl;
        total = refl;
        unwritten = h.1;
        named = named;
        active = h.0;
        reason = reason refl;
      }))

  Active-settle :
      (c : Capture)
      → c.capture_id ≡ id
      → Final c
      → Triple (This c) (settle_stop pf ch id path persist c) Settled Failed
  unfolding settle_stop
  Active-settle c named final =
      Triple-if c.managed _ _
        (λ _.
          Triple-bind _ _
            (Triple-raise_le (λ s. steady-Failed c s named)
              (Steady-retry pf ch (Is id path files c) Fails unanswered unreadable))
            (λ stopping. Triple-given (λ reason.
              Triple-bind _ _ (Active-put c (add_warnings stopping.1 c)) (λ _.
                Active-after_stopping (add_warnings stopping.1 c) stopping named
                  (warned c stopping.1 final) reason))))
        (λ _. Active-finish c named final)

  -- After the last read.
  abbrev Read : Live → Type 0
  Read s = (c : Capture) × This c s × (c.capture_id ≡ id) × Final c

  After-Read :
      Triple Read (manage (required id) >>= settle_stop pf ch id path persist) Settled Failed
  After-Read = record {
    run = λ s (c, active, named, final).
        (Triple-bind {Q = Settled} _ (settle_stop pf ch id path persist) (Active-required c named)
            (λ d. record {
              run = λ t (same, there).
                  subst (λ k. Ends Settled Failed (settle_stop pf ch id path persist k t))
                    (sym same) ((Active-settle c named final).run t there);
            })).run
          s active;
  }

  module _ (c : Capture) (named : c.capture_id ≡ id)
      (malformed : (raw : List Value) (e : LiveError)
        → IsExport ch raw
        → last_read pf id raw c (some c) ≡ raise e
        → Fails)
      (finishes : (raw : List Value) (out : ReadResult × Manager)
        → IsExport ch raw
        → last_read pf id raw c (some c) ≡ ok out
        → (d : Capture) × (out.1 ≡ some d) × (d.capture_id ≡ id) × Final d) where
    Active-Read :
        (raw : List Value)
        → IsExport ch raw
        → Triple (This c) (manage (last_read pf id raw c)) (λ page. Read) Failed
    Active-Read raw exported =
        Triple-manage (last_read pf id raw c)
          (λ s e h raised. (
            held id path files c s named h,
            malformed raw e exported
                (subst (λ (m : Manager). last_read pf id raw c m ≡ raise e) h.0 raised),
          ))
          (λ s out h returned.
            let (d, stored, name, final) =
              finishes raw out exported
                (subst (λ (m : Manager). last_read pf id raw c m ≡ ok out) h.0 returned) in
            (d, (stored, h.1), name, final))

    -- `stop` from its export on.
    abbrev from_export : Capture → Call StopResult
    from_export d = export_current_session pf ch >>= λ raw.
        manage (last_read pf id raw d) >>= λ page.
        manage (required id) >>= settle_stop pf ch id path persist

    From_active : Triple (This c) (from_export c) Settled Failed
    From_active =
        Triple-bind _ _
          (Triple-raise_le (λ s. steady-Failed c s named)
            (Steady-export_current_session pf ch (Is id path files c) Fails unanswered unreadable))
          (λ raw. Triple-given (λ exported.
            Triple-bind {Q = Settled} _
              (λ page. manage (required id) >>= settle_stop pf ch id path persist)
              (Active-Read raw exported) (λ page. After-Read)))

    -- From a state with this active capture, a stop settles, or it raises for a reason and a
    -- capture of that name is still active.
    pub stop_live-Settles : Triple (This c) (stop_live pf ch id path persist) Settled Failed
    unfolding stop_live
    stop_live-Settles = Triple-bind {Q = Settled} _ _ (Active-required c named) (λ b. record {
      run = λ s (same, active).
          subst (λ (k : Capture). Ends Settled Failed (from_export k s)) (sym same)
            (From_active.run s active);
    })
