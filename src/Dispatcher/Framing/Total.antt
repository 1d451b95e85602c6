-- ===== src/Dispatcher/Framing/Total.antt =====
-- The fuel of the chunk loop is enough: every stream is answered with a body or a refusal.
use charles_mcp.Prelude.{
  ℕ, zero, suc, ◌+◌, ◌≤◌, ◌<◌, ◌≡◌, refl, ◌≢◌, ◌⊎◌, inl, inr, none, some, [], ◌∷◌, ◌++◌, arith, ltb,
  length, length-drop, drop, nat_eq, Bool-cases, Option-cases,
}
use charles_mcp.Prelude.Text.{text_eq}
use charles_mcp.Dispatcher.Framing.{
  Bytes, Numerals, out_of_fuel, read_trailers, chunk_size, chunk_data, read_chunks,
  read_chunked_body, readline, before_crlf, full_line, max_line,
}

readline-length :
    (limit : ℕ) (stream : Bytes)
    → length (readline limit stream).0 + length (readline limit stream).1 ≡ length stream
unfolding readline
readline-length zero stream = omega arith
readline-length (suc limit) [] = refl
readline-length (suc limit) (c ∷ cs) = ground (arith, readline-length limit cs)

before_crlf-length :
    (line front : Bytes) → before_crlf line ≡ some front → length line ≡ length front + 2
unfolding before_crlf
before_crlf-length [] front h = cc
before_crlf-length (a ∷ []) front h = cc
before_crlf-length (a ∷ b ∷ []) front h = ground arith
before_crlf-length (a ∷ b ∷ c ∷ cs) front h =
    split (Option-cases (before_crlf (b ∷ c ∷ cs))) (λ f e. before_crlf-length (b ∷ c ∷ cs) f e)
  where
    split :
        (before_crlf (b ∷ c ∷ cs) ≡ none) ⊎ ((f : Bytes) × (before_crlf (b ∷ c ∷ cs) ≡ some f))
        → ((f : Bytes) → before_crlf (b ∷ c ∷ cs) ≡ some f → length (b ∷ c ∷ cs) ≡ length f + 2)
        → length (a ∷ b ∷ c ∷ cs) ≡ length front + 2
    split (inl bad) ih = absurd (cc (rw (bad, before_crlf) at h))
    split (inr (f, e)) ih = ground (arith, ih f e, e, h)

-- A line that is accepted shortens the stream.
full_line-length : (line front : Bytes) → full_line line ≡ some front → 2 ≤ length line
unfolding full_line
full_line-length line front h = ground (arith, before_crlf-length line front)

line_shortens :
    (stream front : Bytes)
    → full_line (readline (suc max_line) stream).0 ≡ some front
    → length (readline (suc max_line) stream).1 < length stream
line_shortens stream front h = omega (
  arith,
  full_line-length (readline (suc max_line) stream).0 front h,
  readline-length (suc max_line) stream,
)

read_trailers-ends :
    (fuel : ℕ) (stream done : Bytes)
    → length stream < fuel
    → read_trailers fuel stream done ≢ out_of_fuel
unfolding read_trailers
read_trailers-ends zero stream done h p = absurd (omega arith)
read_trailers-ends (suc fuel) stream done h p =
    let line = (readline (suc max_line) stream).0 in
    let left = (readline (suc max_line) stream).1 in
    elim (Option-cases (full_line line)) [
      | inl bad ↦ absurd (cc (rw (bad, read_trailers) at p))
      | inr ([], e) ↦ absurd (cc (rw (e, read_trailers) at p))
      | inr (c ∷ cs, e) ↦
          read_trailers-ends fuel left done (omega (arith, line_shortens stream (c ∷ cs) e))
            (rw (e, read_trailers) at p)
    ]

module _ (py : Numerals) (limit : ℕ) where
  chunk_size-full_line :
      (line : Bytes) (n : ℕ)
      → chunk_size py limit line ≡ some n
      → (front : Bytes) × (full_line line ≡ some front)
  unfolding chunk_size
  chunk_size-full_line line n h = split (Option-cases (full_line line))
    where
      split :
          (full_line line ≡ none) ⊎ ((f : Bytes) × (full_line line ≡ some f))
          → (front : Bytes) × (full_line line ≡ some front)
      split (inl bad) = absurd (cc (rw (bad, chunk_size) at h))
      split (inr found) = found

  chunk_data-shortens :
      (size : ℕ) (stream chunk after : Bytes)
      → chunk_data py limit size stream ≡ some (chunk, after)
      → length after ≤ length stream
  unfolding chunk_data
  chunk_data-shortens size stream chunk after h =
      ground (arith, length-drop size stream, length-drop 2 (drop size stream))

  read_chunks-ends :
      (fuel : ℕ) (stream done : Bytes)
      → length stream < fuel
      → read_chunks py limit fuel stream done ≢ out_of_fuel
  unfolding read_chunks
  read_chunks-ends zero stream done h p = absurd (omega arith)
  read_chunks-ends (suc fuel) stream done h p =
      let line = (readline (suc max_line) stream).0 in
      let left = (readline (suc max_line) stream).1 in
      elim (Option-cases (chunk_size py limit line)) [
        | inl bad ↦ absurd (cc (rw (bad, read_chunks) at p))
        | inr (zero, e) ↦
            let (front, accepted) = chunk_size-full_line line zero e in
            read_trailers-ends fuel left done (omega (arith, line_shortens stream front accepted))
              (rw (e, read_chunks) at p)
        | inr (suc n, e) ↦ elim (Bool-cases (ltb limit (length done + suc n))) [
          | inl big ↦ absurd (cc (rw (e, read_chunks, big) at p))
          | inr small ↦ elim (Option-cases (chunk_data py limit (suc n) left)) [
            | inl bad ↦ absurd (cc (rw (e, read_chunks, small, bad) at p))
            | inr ((chunk, after), d) ↦
                let (front, accepted) = chunk_size-full_line line (suc n) e in
                read_chunks-ends fuel after (done ++ chunk)
                  (omega (
                    arith,
                    line_shortens stream front accepted,
                    chunk_data-shortens (suc n) left chunk after d,
                  ))
                  (rw (e, read_chunks, small, d) at p)
          ]
        ]
      ]

  -- Reading a chunked body ends on every stream: the loop never needs more rounds than bytes.
  pub read_chunked_body-ends : (stream : Bytes) → read_chunked_body py limit stream ≢ out_of_fuel
  unfolding read_chunked_body
  read_chunked_body-ends stream = read_chunks-ends (suc (length stream)) stream [] (omega arith)
