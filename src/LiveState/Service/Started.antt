-- ===== src/LiveState/Service/Started.antt =====
-- What a start leaves when it returns.
use charles_mcp.Prelude.{◌≡◌, refl, Bool, true, false, not, ◌&&◌, some, List, [], if◌then◌else◌}
use charles_mcp.Prelude.Text.{Text}
use charles_mcp.Prelude.Outcome.{Outcome, raise, ok}
use charles_mcp.Prelude.Action.{skip}
use charles_mcp.Prelude.Action.Laws.{Ends, Triple, Triple-pure, Triple-bind, Triple-raise_le}
use charles_mcp.Json.{Value}
use charles_mcp.LiveState.Entries.{Platform}
use charles_mcp.LiveState.Manager.{Capture}
use charles_mcp.LiveState.Manager.Synced.{Synced}
use charles_mcp.LiveState.Client.{
  Charles, Live, Call, Fault, session_clear, recording_start, export_session_json,
}
use charles_mcp.LiveState.Service.{
  StartResult, adopt_session, own_session, must, failed_to_start, failed_to_clear,
}
use charles_mcp.LiveState.Service.Steady.{IsExport, Steady-export_session_json}

-- No action changes what does not depend on the state.
constant {ℓ} : {A : Type ℓ} (X : Type 0) (m : Call A) → Triple (λ s. X) m (λ a s. X) (λ s. Unit {0})
constant {A = A} X m = record { run = λ s x. by_result x (m s) }
  where
    by_result : X → (r : Live × Outcome Fault A) → Ends (λ a s. X) (λ s. Unit {0}) r
    by_result x (s, raise e) = tt
    by_result x (s, ok a) = x

module _ (pf : Platform) (ch : Charles) where
  abbrev Any : Live → Type 0
  Any s = Unit

  -- The baseline of a start: nothing after a reset, an export of Charles otherwise.
  abbrev pub IsBaseline : Bool → List Value → Type 0
  IsBaseline true raw = raw ≡ []
  IsBaseline false raw = IsExport ch raw

  -- The baseline is known, whatever the state.
  abbrev Known : Bool → List Value → Live → Type 0
  Known reset raw s = Unit {0} × IsBaseline reset raw

  exported : Triple Any (export_session_json ch) (Known false) Any
  exported =
      Triple-raise_le (λ s h. tt)
        (Steady-export_session_json pf ch (λ m f. Unit {0}) (Unit {0}) (λ before e message bad. tt)
          (λ body message bad. tt))

  adopted : (begin : Bool) → Triple Any (adopt_session pf ch begin) (Known false) Any
  unfolding adopt_session
  adopted begin = Triple-bind _ _ exported (λ raw.
      Triple-bind _ _
        (constant (Unit {0} × IsBaseline false raw)
          (if begin then must pf ch recording_start failed_to_start else skip))
        (λ done. Triple-pure raw (λ s h. h)))

  owned : (reset : Bool) → Triple Any (own_session pf ch reset) (Known reset) Any
  unfolding own_session
  owned false = Triple-bind _ _ exported (λ raw.
      Triple-bind _ _
        (constant (Unit {0} × IsBaseline false raw)
          (if false then must pf ch session_clear failed_to_clear else skip))
        (λ cleared.
          Triple-bind _ _
            (constant (Unit {0} × IsBaseline false raw)
              (must pf ch recording_start failed_to_start))
            (λ begun. Triple-pure raw (λ s h. h))))
  owned true =
      Triple-bind {M = λ raw s. Unit {0} × IsBaseline true raw} _ _
        (Triple-pure [] (λ s h. (tt, refl)))
        (λ raw.
          Triple-bind _ _
            (constant (Unit {0} × IsBaseline true raw)
              (if true then must pf ch session_clear failed_to_clear else skip))
            (λ cleared.
              Triple-bind _ _
                (constant (Unit {0} × IsBaseline true raw)
                  (must pf ch recording_start failed_to_start))
                (λ begun. Triple-pure raw (λ s h. h))))

  begun :
      (adopt reset begin : Bool)
      → Triple Any
          (if adopt && not reset then adopt_session pf ch begin else own_session pf ch reset)
          (Known reset)
          Any
  begun true true begin = owned true
  begun false true begin = owned true
  begun true false begin = adopted begin
  begun false false begin = owned false

  -- The capture of that name is active and holds the baseline.
  pub record IsStarted (id : Text) (reset : Bool) (r : StartResult) (s : Live) : Type 0 where
    pub capture : Capture
    pub baseline : List Value
    pub active : s.manager ≡ some capture
    pub named : capture.capture_id ≡ id
    pub synced : Synced pf baseline capture
    pub source : IsBaseline reset baseline
    pub result : r.capture_id ≡ id
