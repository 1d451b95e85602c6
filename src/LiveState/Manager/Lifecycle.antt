-- ===== src/LiveState/Manager/Lifecycle.antt =====
-- One capture at a time: start, close, and what both leave.
use charles_mcp.Prelude.{
  ◌≡◌, refl, ap, sym, ◌∙◌, subst, Bool, true, false, none, some, List, [], ◌∷◌, arith, eq_refl,
  Bool-cases, inl, inr,
}
use charles_mcp.Prelude.Text.{Text, text_eq}
use charles_mcp.Json.{Value}
use charles_mcp.LiveState.Entries.{Platform, unique_entries, iter_entries}
use charles_mcp.LiveState.Errors.{conflict}
use charles_mcp.Prelude.Outcome.{ok, raise, chain-parts, same_value}
use charles_mcp.LiveState.Manager.{
  Capture, Manager, stopped, require, recording_warning, start, close, new_capture, baseline,
  refuses,
}
use charles_mcp.LiveState.Manager.Synced.{Synced}

module _ (pf : Platform) where
  start-parts :
      (id at : Text) (managed existing : Bool) (raw : List Value) (m : Manager) (c : Capture)
      (n : Manager)
      → start pf id at managed existing raw m ≡ ok (c, n)
      → (refuses m ≡ false)
        × (baseline pf raw (new_capture id at managed existing) ≡ ok c)
        × (n ≡ some c)
  unfolding start
  start-parts id at managed existing raw m c n h = elim (Bool-cases (refuses m)) [
    | inl busy ↦ absurd (cc (rw busy at h))
    | inr free ↦
        let (b, based, built) =
          chain-parts (baseline pf raw (new_capture id at managed existing)) _ (rw free at h) in
        let same = same_value built in
        (
          free,
          based ∙ ap (λ (o : Capture × Manager). ok o.0) same,
          ap (λ (o : Capture × Manager). o.1) (sym same)
              ∙ ap (λ (o : Capture × Manager). some o.0) same,
        )
  ]

  baseline-Synced :
      (id at : Text) (managed : Bool) (raw : List Value) (c : Capture)
      → baseline pf raw (new_capture id at managed true) ≡ ok c
      → Synced pf raw c
  unfolding iter_entries
  baseline-Synced id at managed [] c h =
      subst (Synced pf []) (same_value h)
        (record { prepared = []; exported = refl; keys = refl; entries = refl; count = refl })
  baseline-Synced id at managed (v ∷ vs) c h =
      let (prepared, exported, more) = chain-parts (unique_entries pf (v ∷ vs)) _ h in
      let (own, warned, built) = chain-parts (recording_warning pf (v ∷ vs)) _ more in
      subst (Synced pf (v ∷ vs)) (same_value built) (record {
        prepared = prepared;
        exported = exported;
        keys = refl;
        entries = refl;
        count = refl;
      })

  -- A capture that is started with the existing traffic holds exactly the entries of the export.
  pub start-Synced :
      (id at : Text) (managed : Bool) (raw : List Value) (m : Manager) (c : Capture) (n : Manager)
      → start pf id at managed true raw m ≡ ok (c, n)
      → Synced pf raw c × (n ≡ some c)
  start-Synced id at managed raw m c n h =
      let (free, based, stored) = start-parts id at managed true raw m c n h in
      (baseline-Synced id at managed raw c based, stored)

  baseline-capture_id :
      (raw : List Value) (b c : Capture)
      → baseline pf raw b ≡ ok c
      → (c.capture_id ≡ b.capture_id) × (c.status ≡ b.status)
  baseline-capture_id [] b c h = ground arith
  baseline-capture_id (v ∷ vs) b c h =
      let (prepared, exported, more) = chain-parts (unique_entries pf (v ∷ vs)) _ h in
      let (own, warned, built) = chain-parts (recording_warning pf (v ∷ vs)) _ more in
      let same = sym (same_value built) in
      (ap (λ (k : Capture). k.capture_id) same, ap (λ (k : Capture). k.status) same)

  -- After a start, a second start is refused, whatever its arguments; the new capture can be closed
  -- by its id, and then nothing is active and a start is not refused.
  pub start-close :
      (id at id' at' : Text) (managed existing managed' existing' : Bool) (raw raw' : List Value)
      (m : Manager) (c : Capture) (n : Manager)
      → start pf id at managed existing raw m ≡ ok (c, n)
      → (start pf id' at' managed' existing' raw' n ≡ raise conflict)
        × (close id n ≡ ok (record c { status = stopped }, none))
  unfolding start close require
  start-close id at id' at' managed existing managed' existing' raw raw' m c n h =
      let (free, based, stored) = start-parts id at managed existing raw m c n h in
      let (named, running) = baseline-capture_id raw (new_capture id at managed existing) c based in
      (rw stored (rw running refl), rw stored (rw named (rw (eq_refl id) refl)))

  -- A capture that is started has the id of the start.
  pub start-capture_id :
      (id at : Text) (managed existing : Bool) (raw : List Value) (m : Manager) (c : Capture)
      (n : Manager)
      → start pf id at managed existing raw m ≡ ok (c, n)
      → c.capture_id ≡ id
  start-capture_id id at managed existing raw m c n h =
      let (free, based, stored) = start-parts id at managed existing raw m c n h in
      (baseline-capture_id raw (new_capture id at managed existing) c based).0
