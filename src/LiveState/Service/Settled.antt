-- ===== src/LiveState/Service/Settled.antt =====
-- The ways in which a stop ends, and the calls of the manager that it makes.
use charles_mcp.Prelude.{
  ◌≡◌, ◌⊎◌, refl, sym, subst, Bool, true, false, Option, none, some, List, length, max, eq_iff,
}
use charles_mcp.Prelude.Text.{Text, text_eq}
use charles_mcp.Prelude.Int.{pos}
use charles_mcp.Prelude.Dict.{Dict, insert}
use charles_mcp.Prelude.Outcome.{raise, ok}
use charles_mcp.Prelude.Action.Laws.{Triple, Ends}
use charles_mcp.Json.{Value, Fields}
use charles_mcp.LiveState.Entries.{Platform}
use charles_mcp.LiveState.Errors.{LiveError, Result}
use charles_mcp.LiveState.Manager.{Status, Capture, Manager, ReadResult, require, close, read}
use charles_mcp.LiveState.Client.{Live}
use charles_mcp.LiveState.Service.{StopResult, stopped, stop_failed, manage, with_manager, required}

-- A call of the manager that raises changes nothing.
pub Triple-manage {ℓ} :
    {A : Type ℓ} {P R : Live → Type 0} {Q : A → Live → Type 0}
    (call : Manager → Result (A × Manager))
    → ((s : Live) (e : LiveError) → P s → call s.manager ≡ raise e → R s)
    → ((s : Live) (out : A × Manager)
        → P s
        → call s.manager ≡ ok out
        → Q out.0 (record s { manager = out.1 }))
    → Triple P (manage call) Q R
unfolding manage
Triple-manage {A = A} {P = P} {R = R} {Q = Q} call raises returns = record {
  run = λ s h. by_call s h (call s.manager) refl;
}
  where
    by_call :
        (s : Live)
        → P s
        → (r : Result (A × Manager)) → call s.manager ≡ r
        → Ends Q R (with_manager s r)
    by_call s h (raise e) p = raises s e h p
    by_call s h (ok (a, m)) p = returns s (a, m) h p

-- The read of `stop`.
abbrev pub last_read :
    Platform → Text → List Value → Capture → Manager → Result (ReadResult × Manager)
last_read pf id raw c = read pf id raw (some (pos c.cursor)) (pos (max (length raw) 1)) true

pub required-named :
    (id : Text) (c : Capture) (m : Manager)
    → c.capture_id ≡ id
    → m ≡ some c
    → required id m ≡ ok (c, m)
unfolding require
required-named id c m named active =
    subst (λ n. required id n ≡ ok (c, n)) (sym active)
      (rw ((eq_iff c.capture_id id).1 named, required, require) refl)

pub close-idle :
    (id : Text) (c : Capture) (m : Manager)
    → c.capture_id ≡ id
    → m ≡ some c
    → close id m ≡ ok (record c { status = Status.stopped }, none)
unfolding close require
close-idle id c m named active = rw (active, (eq_iff c.capture_id id).1 named) refl

module _ (id path : Text) (files : Dict Text (List Fields)) where
  -- This capture is the active one, and no file was written.
  abbrev pub Is : Capture → Manager → Dict Text (List Fields) → Type 0
  Is c m f = (m ≡ some c) × (f ≡ files)

  abbrev pub Active : Capture → Live → Type 0
  Active c s = Is c s.manager s.files

  -- A capture of that name is still active, and no file was written.
  abbrev pub IsHeld : Live → Type 0
  IsHeld s = (c : Capture) × (s.manager ≡ some c) × (c.capture_id ≡ id) × (s.files ≡ files)

  pub held : (c : Capture) (s : Live) → c.capture_id ≡ id → Active c s → IsHeld s
  held c s named h = (c, h.0, named, h.1)

  -- What is stored when a capture is persisted.
  abbrev pub IsPersisted : Bool → List Fields → Option Text → Dict Text (List Fields) → Type 0
  IsPersisted true items where' f = (where' ≡ some path) × (f ≡ insert path items files)
  IsPersisted false items where' f = (where' ≡ none) × (f ≡ files)

  module _ (persist : Bool) (Final : Capture → Type 0) (Fails : Type 0) where
    -- A stop that succeeded: the items of the final capture are stored, and nothing is active.
    pub record IsStopped (r : StopResult) (s : Live) : Type 0 where
      pub capture : Capture
      pub final : Final capture
      pub status : r.status ≡ stopped
      pub total : r.total_items ≡ length capture.items
      pub stored : IsPersisted persist capture.items r.persisted_path s.files
      pub idle : s.manager ≡ none

    -- A stop that failed, for a reason: the capture stays active, and nothing is stored.
    pub record IsPreserved (r : StopResult) (s : Live) : Type 0 where
      pub capture : Capture
      pub final : Final capture
      pub status : r.status ≡ stop_failed
      pub total : r.total_items ≡ length capture.items
      pub unwritten : s.files ≡ files
      pub named : capture.capture_id ≡ id
      pub active : s.manager ≡ some capture
      pub reason : Fails

    abbrev pub IsSettled : StopResult → Live → Type 0
    IsSettled r s = IsStopped r s ⊎ IsPreserved r s
