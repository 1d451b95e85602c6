-- ===== src/Dispatcher/Bodies.antt =====
-- `_patch_json`: the patches of a rule on a JSON or form body.
use charles_mcp.Prelude.{◌≡◌, Bool, true, false, Option, none, some, List}
use charles_mcp.Prelude.Text.{Text, codes}
use charles_mcp.Prelude.Strings.{occurs, CaseTables}
use charles_mcp.Prelude.Outcome.{Outcome, ok, raise}
use charles_mcp.Json.{Value, obj}
use charles_mcp.JsonPatch.Python.{Python, Fault, patch_error, Reason, Result}
use charles_mcp.JsonPatch.Edit.{apply_patches}
use charles_mcp.JsonPatch.Dump.{Writer, dump_like}
use charles_mcp.Rules.Match.{Decoders, form_fields}
use charles_mcp.Dispatcher.Framing.{Bytes}

-- The warnings of `_patch_json`; the second carries the error's message.
pub data Note : Type 0 where
  body_not_json : Note
  patch_failed : Reason → Note

-- What leaves `_patch_json` as an exception: the name `text` read before it is set, and what
-- `apply_patches` raises beside `JsonPatchError`.
pub data Crash : Type 0 where
  unbound_text : Crash
  uncaught : Fault → Crash

-- Python's codecs of a body.
pub record Codecs : Type 0 where
  -- `data.decode("utf-8")`; `none` is a `UnicodeDecodeError`.
  pub decode : Bytes → Option Text
  -- `urlencode(patched, doseq=True).encode("utf-8")`
  pub urlencode : Value → Bytes

module _ (py : Python) (tables : CaseTables) (dec : Decoders) (w : Writer) (codecs : Codecs) where
  abbrev pub is_form_type : Text → Bool
  is_form_type content_type =
      occurs (codes "application/x-www-form-urlencoded") (tables.lower content_type)

  abbrev pub patched_or_note :
      Bytes → (Value → Bytes) → Result Value → Outcome Crash (Bytes × Option Note)
  patched_or_note original finish (ok patched) = ok (finish patched, none)
  patched_or_note original finish (raise (patch_error r)) = ok (original, some (patch_failed r))
  patched_or_note original finish (raise e) = raise (uncaught e)

  abbrev pub patch_form : Bytes → List Value → Text → Outcome Crash (Bytes × Option Note)
  patch_form original patches text =
      patched_or_note original codecs.urlencode
        (apply_patches py (obj (form_fields (dec.parse_qs text))) patches)

  abbrev pub patch_text :
      Bool → Bytes → List Value → Text → Option Value → Outcome Crash (Bytes × Option Note)
  patch_text is_form original patches text (some document) =
      patched_or_note original (dump_like py w text) (apply_patches py document patches)
  patch_text true original patches text none = patch_form original patches text
  patch_text false original patches text none = ok (original, some body_not_json)

  abbrev pub patch_decoded :
      Bool → Bytes → List Value → Option Text → Outcome Crash (Bytes × Option Note)
  patch_decoded is_form original patches (some text) =
      patch_text is_form original patches text (py.loads text)
  patch_decoded true original patches none = raise unbound_text
  patch_decoded false original patches none = ok (original, some body_not_json)

  unfoldable pub patch_json : Bytes → List Value → Text → Outcome Crash (Bytes × Option Note)
  patch_json original patches content_type =
      patch_decoded (is_form_type content_type) original patches (codecs.decode original)

  patched_or_note-note :
      (original b : Bytes) (finish : Value → Bytes) (m : Result Value) (note : Note)
      → patched_or_note original finish m ≡ ok (b, some note)
      → b ≡ original
  patched_or_note-note original b finish (ok patched) note h = absurd (cc)
  patched_or_note-note original b finish (raise (patch_error r)) note h = cc
  patched_or_note-note original b finish (raise _) note h = absurd (cc)

  -- A body that comes back with a warning comes back as it was.
  pub patch_json-note :
      (original b : Bytes) (patches : List Value) (content_type : Text) (note : Note)
      → patch_json original patches content_type ≡ ok (b, some note)
      → b ≡ original
  unfolding patch_json
  patch_json-note original b patches content_type note h =
      by_text (is_form_type content_type) (codecs.decode original) h
    where
      by_document :
          (is_form : Bool) (text : Text) (document : Option Value)
          → patch_text is_form original patches text document ≡ ok (b, some note)
          → b ≡ original
      by_document is_form text (some document) k =
          patched_or_note-note original b (dump_like py w text) (apply_patches py document patches)
            note k
      by_document true text none k =
          patched_or_note-note original b codecs.urlencode
            (apply_patches py (obj (form_fields (dec.parse_qs text))) patches) note k
      by_document false text none k = cc

      by_text :
          (is_form : Bool) (text : Option Text)
          → patch_decoded is_form original patches text ≡ ok (b, some note)
          → b ≡ original
      by_text is_form (some text) k = by_document is_form text (py.loads text) k
      by_text true none k = absurd (cc)
      by_text false none k = cc
