-- ===== src/LiveState/Service/Final.antt =====
-- What a stop stores, from the last read of the capture.
use charles_mcp.Prelude.{◌≡◌, refl, ap, sym, ◌∙◌, true, false, Option, List, ◌++◌, length, ◌⊎◌}
use charles_mcp.Prelude.Text.{Text, text_eq}
use charles_mcp.Prelude.Int.{ℤ}
use charles_mcp.Prelude.Dict.{Dict}
use charles_mcp.Prelude.Outcome.{Outcome, raise, ok, chain-parts, same_value}
use charles_mcp.Prelude.Action.Laws.{Ends, Triple, Triple-bind, Triple-raise_le}
use charles_mcp.Json.{Value, Fields}
use charles_mcp.LiveState.Entries.{Platform, unique_entries}
use charles_mcp.LiveState.Errors.{LiveError}
use charles_mcp.LiveState.Manager.{Capture, Manager, ReadResult, read, recording_warning}
use charles_mcp.LiveState.Manager.Synced.{Synced}
use charles_mcp.LiveState.Manager.Paging.{shown, kept, read_peek}
use charles_mcp.LiveState.Client.{Charles, Event, Live, Fault}
use charles_mcp.LiveState.Service.{read_live}
use charles_mcp.LiveState.Service.Steady.{IsExport, Steady-export_current_session}
use charles_mcp.LiveState.Service.Settled.{Triple-manage}

-- What can go wrong in a stop: a request that is not answered, an answer that is no JSON, a file
-- that cannot be written, and an export whose entries cannot be read.
pub data Trouble (pf : Platform) (ch : Charles) (path : Text) : Type 0 where
  unanswered :
      (before : List Event) (e : Event) (message : Text)
      → ch.answer before e ≡ raise message
      → Trouble pf ch path
  unreadable : (body message : Text) → ch.session_json body ≡ raise message → Trouble pf ch path
  unwritable : (before : List Event) → ch.writable before path ≡ false → Trouble pf ch path
  malformed :
      (raw : List Value) (e : LiveError)
      → IsExport ch raw
      → (unique_entries pf raw ≡ raise e) ⊎ (recording_warning pf raw ≡ raise e)
      → Trouble pf ch path

module _ (pf : Platform) (ch : Charles) where
  -- The last export was read into the capture.
  pub record IsRead (c : Capture) : Type 0 where
    pub raw : List Value
    pub prepared : List (Text × Fields)
    pub exported : IsExport ch raw
    pub entries : unique_entries pf raw ≡ ok prepared
    pub count : c.last_export_count ≡ length prepared

  -- The capture holds all of a session that begins with this export.
  abbrev pub HoldsSession : List Value → Capture → Type 0
  HoldsSession raw c = (more : List Value) × Synced pf (raw ++ more) c

  kept-parts :
      (id : Text) (raw : List Value) (cursor : Option ℤ) (limit : ℤ) (m : Manager)
      (out : ReadResult × Manager)
      → read pf id raw cursor limit false m ≡ ok out
      → out.1 ≡ m
  kept-parts id raw cursor limit m out returned =
      let (r, seen, built) =
        chain-parts (shown (read pf id raw cursor limit true m)) (kept m)
          (sym (read_peek pf id raw cursor limit m) ∙ returned) in
      ap (λ (o : ReadResult × Manager). o.1) (sym (same_value built))

  -- A peek leaves every capture and every file as it was, whether it returns or raises.
  pub read_live-peek :
      (id : Text) (cursor : Option ℤ) (limit : ℤ) (s : Live)
      → ((read_live pf ch id cursor limit false s).0.manager ≡ s.manager)
        × ((read_live pf ch id cursor limit false s).0.files ≡ s.files)
  unfolding read_live
  read_live-peek id cursor limit s =
      either (read_live pf ch id cursor limit false s) (peeks.run s (refl, refl))
    where
      Same : Manager → Dict Text (List Fields) → Type 0
      Same m f = (m ≡ s.manager) × (f ≡ s.files)

      peeks :
          Triple
            (λ t. Same t.manager t.files)
            (read_live pf ch id cursor limit false)
            (λ r t. Same t.manager t.files)
            (λ t. Same t.manager t.files)
      peeks =
          Triple-bind _ _
            (Triple-raise_le (λ t h. h.0)
              (Steady-export_current_session pf ch Same (Unit {0}) (λ before e message bad. tt)
                (λ body message bad. tt)))
            (λ raw.
              Triple-manage (read pf id raw cursor limit false) (λ t e h raised. h.0)
                (λ t out h returned.
                  (kept-parts id raw cursor limit t.manager out returned ∙ h.0.0, h.0.1)))

      either :
          (r : Live × Outcome Fault ReadResult)
          → Ends (λ r t. Same t.manager t.files) (λ t. Same t.manager t.files) r
          → Same r.0.manager r.0.files
      either (t, raise e) h = h
      either (t, ok a) h = h
