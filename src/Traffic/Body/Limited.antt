-- ===== src/Traffic/Body/Limited.antt =====
-- The limits of a body hold of the texts that are assigned to it.
use charles_mcp.Prelude.{
  ℕ, ◌≤◌, ◌≡◌, refl, Bool, true, false, Option, none, some, List, length, leb, Bool-cases,
  if◌then◌else◌, inl, inr, arith, length-take, leb→le,
}
use charles_mcp.Prelude.Text.{Text, text_eq}
use charles_mcp.Traffic.Schema.{BodyContent}
use charles_mcp.Traffic.Body.Values.{Limits, full, source, preview, warn, omitted}
use charles_mcp.Traffic.Body.Scan.{clip_text}

-- What is kept whole is asked for, and fits.
abbrev pub Fits : Limits → Option (List ℕ) → Type 0
Fits limits none = Unit
Fits limits (some kept) =
    (limits.include_full_body ≡ true) × (length kept ≤ limits.max_full_body_chars)

pub record IsLimited (limits : Limits) (body : BodyContent) : Type 0 where
  pub full_text_fits : Fits limits body.full_text
  pub source_text_fits : Fits limits body.source_text
  pub source_bytes_fit : Fits limits body.source_bytes

clip-length : (text : Text) (n : ℕ) → length (clip_text text n).0 ≤ n
unfolding clip_text
clip-length text n = elim (Bool-cases (leb (length text) n)) [
  | inl short ↦ rw short (leb→le (length text) n short)
  | inr long ↦ rw long (omega (arith, length-take n text))
]

module _ (limits : Limits) where
  -- Both branches of a test, the first with what it tests.
  pub either :
      (b : Bool) (x y : BodyContent)
      → (b ≡ true → IsLimited limits x)
      → IsLimited limits y
      → IsLimited limits (if b then x else y)
  either true x y p q = p refl
  either false x y p q = q

  pub full-IsLimited :
      (rendered : Text) (body : BodyContent)
      → IsLimited limits body
      → IsLimited limits (full limits rendered body)
  unfolding full
  full-IsLimited rendered body h =
      either limits.include_full_body _ _
        (λ asked. record {
          full_text_fits = (asked, clip-length rendered limits.max_full_body_chars);
          source_text_fits = h.source_text_fits;
          source_bytes_fit = h.source_bytes_fit;
        })
        h

  pub preview-IsLimited :
      (rendered : Text) (body : BodyContent)
      → IsLimited limits body
      → IsLimited limits (preview limits rendered body)
  unfolding preview
  preview-IsLimited rendered body h = record {
    full_text_fits = h.full_text_fits;
    source_text_fits = h.source_text_fits;
    source_bytes_fit = h.source_bytes_fit;
  }

  pub warn-IsLimited :
      (warnings : List Text) (body : BodyContent)
      → IsLimited limits body
      → IsLimited limits (warn warnings body)
  unfolding warn
  warn-IsLimited warnings body h = record {
    full_text_fits = h.full_text_fits;
    source_text_fits = h.source_text_fits;
    source_bytes_fit = h.source_bytes_fit;
  }

  pub omitted-IsLimited :
      (body : BodyContent) → IsLimited limits body → IsLimited limits (omitted body)
  unfolding omitted
  omitted-IsLimited body h = record {
    full_text_fits = h.full_text_fits;
    source_text_fits = h.source_text_fits;
    source_bytes_fit = h.source_bytes_fit;
  }

  pub whole-Fits :
      (original : Text)
      → limits.include_full_body ≡ true
      → Fits limits (
          if (clip_text original limits.max_full_body_chars).1
          then none
          else some (clip_text original limits.max_full_body_chars).0)
  whole-Fits original asked = elim (Bool-cases (clip_text original limits.max_full_body_chars).1) [
    | inl cut ↦ rw cut tt
    | inr whole ↦ rw whole (asked, clip-length original limits.max_full_body_chars)
  ]

  pub source-IsLimited :
      (original : Text) (body : BodyContent)
      → IsLimited limits body
      → IsLimited limits (source limits original body)
  unfolding source
  source-IsLimited original body h =
      either limits.include_full_body _ _
        (λ asked. record {
          full_text_fits = h.full_text_fits;
          source_text_fits = whole-Fits original asked;
          source_bytes_fit = h.source_bytes_fit;
        })
        h
