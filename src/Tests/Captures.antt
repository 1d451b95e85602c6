-- ===== src/Tests/Captures.antt =====
-- charles_mcp/live_state.py on small exports.
use charles_mcp.Prelude.{
  String, ◌≡◌, refl, true, false, not, none, some, List, [], ◌∷◌, ◌++◌, filter, nat_eq, arith,
  nat_beq,
}
use charles_mcp.Prelude.Text.{Text, codes, text_eq}
use charles_mcp.Prelude.Number.{str_nat}
use charles_mcp.Prelude.Int.{pos, ◌+ℤ◌}
use charles_mcp.Prelude.Dict.{lookup, insert}
use charles_mcp.Json.{Value, str, obj, field, end, Fields, get_field}
use charles_mcp.LiveState.Entries.{Platform, iter_entries, unique_entries, own_exports}
use charles_mcp.Prelude.Outcome.{ok}
use charles_mcp.LiveState.Manager.{
  Capture, Manager, ReadResult, reset_detected, start, read, merge, new_capture, Warning,
  records_own_exports, session_reset_detected,
}
use charles_mcp.LiveState.Manager.Numbering.{IsHex}
use charles_mcp.LiveState.Manager.Synced.{Synced, Keeps, read-grown, read-reset}
use charles_mcp.LiveState.Manager.Paging.{poll, poll-take}

-- A digest that only drops the colons.
abbrev plain_digest : Text → Text
plain_digest t = filter (λ c. not (nat_beq c 58)) t

abbrev pub plain : Platform
plain = record { sha1_hex = plain_digest; str_of = λ v. codes "0"; nonzero = λ f. true }

pub plain-IsHex : IsHex plain
plain-IsHex [] = refl
plain-IsHex (c ∷ cs) = ground (arith, plain-IsHex cs)

abbrev pub call : String → Value
call host = obj (field (codes "host") (str (codes host)) end)

-- Two equal requests, one to the server itself, and another.
abbrev pub export : List Value
export = call "a" ∷ call "control.charles" ∷ call "a" ∷ call "b" ∷ []

abbrev pub longer : List Value
longer = export ++ call "c" ∷ []

abbrev host_entry : String → Fields
host_entry host = field (codes "host") (str (codes host)) end

abbrev blank : Capture
blank = new_capture (codes "c1") [] true true

abbrev key : String → String → Text
key host n = codes host ++ codes "|||||||||||||||:" ++ codes n

abbrev own_warning : List Warning
own_warning = records_own_exports 1 (pos 0) ∷ []

abbrev pub capture : Capture
capture = record blank {
  seen_keys = key "a" "1" ∷ key "a" "2" ∷ key "b" "1" ∷ [];
  items = host_entry "a" ∷ host_entry "a" ∷ host_entry "b" ∷ [];
  last_export_count = 3;
  warnings = own_warning;
}

unfolded : unique_entries plain (call "a" ∷ []) ≡ ok ((key "a" "1", host_entry "a") ∷ [])
unfolding iter_entries get_field insert lookup text_eq str_nat
unfolded = refl

started : start plain (codes "c1") [] true true export none ≡ ok (capture, some capture)
unfolding unfolded start own_exports ◌+ℤ◌
started = refl

abbrev pub synced : Synced plain export capture
unfolding started
synced = record {
  prepared =
      (key "a" "1", host_entry "a")
      ∷ (key "a" "2", host_entry "a")
      ∷ (key "b" "1", host_entry "b")
      ∷ [];
  exported = refl;
  keys = refl;
  entries = refl;
  count = refl;
}

abbrev first_page : ReadResult
first_page = record {
  capture_id = codes "c1";
  status = capture.status;
  items = host_entry "a" ∷ host_entry "a" ∷ [];
  next_cursor = 2;
  total_new_items = 4;
  truncated = true;
  warnings = blank.warnings;
}

abbrev after_page : Capture
after_page = record capture {
  cursor = 2;
  seen_keys = key "a" "1" ∷ key "a" "2" ∷ key "b" "1" ∷ key "c" "1" ∷ [];
  items = host_entry "a" ∷ host_entry "a" ∷ host_entry "b" ∷ host_entry "c" ∷ [];
  last_export_count = 4;
  warnings = own_warning;
}

abbrev page_out : ReadResult × Manager
page_out = (record first_page { warnings = own_warning }, some after_page)

read_page : read plain (codes "c1") longer none (pos 2) true (some capture) ≡ ok page_out
unfolding started read merge
read_page = refl

read-grown_example : Keeps plain longer (codes "c1") 0 2 page_out
read-grown_example =
    read-grown plain plain-IsHex (codes "c1") export (call "c" ∷ []) none (pos 2) capture page_out
      synced read_page

abbrev fresh_page : ReadResult
fresh_page = record {
  capture_id = codes "c1";
  status = reset_detected;
  items = host_entry "c" ∷ [];
  next_cursor = 1;
  total_new_items = 1;
  truncated = false;
  warnings = session_reset_detected ∷ [];
}

abbrev fresh_capture : Capture
fresh_capture = record capture {
  cursor = 1;
  seen_keys = key "c" "1" ∷ [];
  items = host_entry "c" ∷ [];
  last_export_count = 1;
  warnings = session_reset_detected ∷ [];
}

abbrev fresh_out : ReadResult × Manager
fresh_out = (fresh_page, some fresh_capture)

read_fresh : read plain (codes "c1") (call "c" ∷ []) none (pos 2) true (some capture) ≡ ok fresh_out
unfolding started read merge
read_fresh = refl

read-reset_example :
    Keeps plain (call "c" ∷ []) (codes "c1") 0 2 fresh_out × (fresh_out.0.status ≡ reset_detected)
unfolding started
read-reset_example =
    read-reset plain plain-IsHex (codes "c1") (call "c" ∷ []) ((key "c" "1", host_entry "c") ∷ [])
      none (pos 2) capture fresh_out refl (omega arith) read_fresh

poll-take_example :
    (m : Manager) × (poll plain 2 (codes "c1") export (pos 2) (some capture)
      ≡ ok (host_entry "a" ∷ host_entry "a" ∷ host_entry "b" ∷ [], m))
unfolding started
poll-take_example =
    poll-take plain plain-IsHex 2 (codes "c1") export (pos 2) capture own_warning synced refl refl
      refl
