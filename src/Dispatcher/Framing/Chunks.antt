-- ===== src/Dispatcher/Framing/Chunks.antt =====
-- A body sent in chunks is read back whole.
use charles_mcp.Prelude.{
  ℕ, zero, suc, ◌+◌, ◌≤◌, ◌<◌, ◌≡◌, refl, ap, ◌∙◌, false, some, List, [], ◌∷◌, ◌++◌, arith, ltb,
  length, length-append, take-length-append, drop-length-append, append_assoc, append-nil, contains,
  nat_eq, eq_refl,
}
use charles_mcp.Prelude.Text.{text_eq}
use charles_mcp.Prelude.Strings.{strip_bytes, before-clean}
use charles_mcp.Prelude.Int.{pos}
use charles_mcp.Dispatcher.Framing.{
  Bytes, Numerals, body, read_trailers, chunk_size, chunk_data, read_chunks, read_chunked_body,
  readline, before_crlf, full_line, max_line,
}

-- A way to write the sizes up to the limit that Python's `int(_, 16)` reads back, on lines of a
-- moderate length.
pub record WritesSizes (py : Numerals) (limit : ℕ) (hex : ℕ → Bytes) : Type 0 where
  pub reads_back : (n : ℕ) → n ≤ limit → py.hex_of (strip_bytes (hex n)) ≡ some (pos n)
  pub no_newline : (n : ℕ) → n ≤ limit → contains (hex n) 10 ≡ false
  pub no_semicolon : (n : ℕ) → n ≤ limit → contains (hex n) b';' ≡ false
  pub short : (n : ℕ) → n ≤ limit → length (hex n) + 2 ≤ max_line

abbrev crlf : Bytes → Bytes
crlf rest = 13 ∷ 10 ∷ rest

abbrev pub join : List Bytes → Bytes
join [] = []
join (chunk ∷ chunks) = chunk ++ join chunks

-- The chunks on the wire, the last of size 0, no trailers.
abbrev pub encode : (ℕ → Bytes) → List Bytes → Bytes → Bytes
encode hex [] rest = hex zero ++ crlf (crlf rest)
encode hex (chunk ∷ chunks) rest =
    hex (length chunk) ++ crlf (chunk ++ crlf (encode hex chunks rest))

encode_nonempty :
    (hex : ℕ → Bytes) (chunks : List Bytes) (rest : Bytes) → 0 < length (encode hex chunks rest)
encode_nonempty hex [] rest = ground (arith, length-append (hex zero) (crlf (crlf rest)))
encode_nonempty hex (chunk ∷ chunks) rest =
    ground
      (arith, length-append (hex (length chunk)) (crlf (chunk ++ crlf (encode hex chunks rest))))

abbrev pub NonEmpty : List Bytes → Type 0
NonEmpty [] = Unit
NonEmpty (chunk ∷ chunks) = (0 < length chunk) × NonEmpty chunks

readline-crlf :
    (limit : ℕ) (xs rest : Bytes)
    → contains xs 10 ≡ false
    → length xs + 2 ≤ limit
    → readline limit (xs ++ crlf rest) ≡ (xs ++ crlf [], rest)
unfolding readline
readline-crlf zero xs rest clean fits = absurd (omega arith)
readline-crlf (suc zero) xs rest clean fits = absurd (omega arith)
readline-crlf (suc (suc limit)) [] rest clean fits = refl
readline-crlf (suc (suc limit)) (x ∷ xs) rest clean fits =
    ground (arith, readline-crlf (suc limit) xs rest)

before_crlf-crlf : (xs : Bytes) → before_crlf (xs ++ crlf []) ≡ some xs
unfolding before_crlf
before_crlf-crlf [] = refl
before_crlf-crlf (x ∷ []) = refl
before_crlf-crlf (x ∷ y ∷ []) = refl
before_crlf-crlf (x ∷ y ∷ z ∷ xs) = rw (before_crlf-crlf (y ∷ z ∷ xs), before_crlf)

module _ (py : Numerals) (limit : ℕ) (hex : ℕ → Bytes) (w : WritesSizes py limit hex) where
  size_line :
      (n : ℕ) (rest : Bytes)
      → n ≤ limit
      → readline (suc max_line) (hex n ++ crlf rest) ≡ (hex n ++ crlf [], rest)
  size_line n rest le =
      readline-crlf (suc max_line) (hex n) rest (w.no_newline n le) (omega (arith, w.short n le))

  full_line-hex : (n : ℕ) → n ≤ limit → full_line (hex n ++ crlf []) ≡ some (hex n)
  unfolding full_line
  full_line-hex n le =
      ground (arith, before_crlf-crlf (hex n), length-append (hex n) (crlf []), w.short n le)

  chunk_size-hex : (n : ℕ) → n ≤ limit → chunk_size py limit (hex n ++ crlf []) ≡ some n
  unfolding chunk_size
  chunk_size-hex n le = rw (
    full_line-hex n le,
    chunk_size,
    before-clean b';' (hex n) (w.no_semicolon n le),
    w.reads_back n le,
  )

  chunk_data-crlf :
      (chunk rest : Bytes)
      → chunk_data py limit (length chunk) (chunk ++ crlf rest) ≡ some (chunk, rest)
  unfolding chunk_data text_eq
  chunk_data-crlf chunk rest = rw (
    take-length-append chunk (crlf rest),
    drop-length-append chunk (crlf rest),
    eq_refl (length chunk),
  )

  -- One chunk, and the rest of the stream.
  read_chunks-step :
      (fuel : ℕ) (c : ℕ) (cs done rest : Bytes)
      → length done + length (c ∷ cs) ≤ limit
      → read_chunks py limit (suc fuel) (hex (length (c ∷ cs)) ++ crlf ((c ∷ cs) ++ crlf rest)) done
        ≡ read_chunks py limit fuel rest (done ++ c ∷ cs)
  unfolding read_chunks
  read_chunks-step fuel c cs done rest fits = rw (
    line,
    read_chunks,
    chunk_size-hex (length (c ∷ cs)) le,
    fits_limit,
    line,
    read_chunks,
    chunk_data-crlf (c ∷ cs) rest,
  )
    where
      le : length (c ∷ cs) ≤ limit
      le = omega arith

      line :
          readline (suc max_line) (hex (length (c ∷ cs)) ++ crlf ((c ∷ cs) ++ crlf rest))
          ≡ (hex (length (c ∷ cs)) ++ crlf [], (c ∷ cs) ++ crlf rest)
      line = size_line (length (c ∷ cs)) ((c ∷ cs) ++ crlf rest) le

      fits_limit : ltb limit (length done + suc (length cs)) ≡ false
      fits_limit = ground arith

  read_trailers-end :
      (fuel : ℕ) (done rest : Bytes) → read_trailers (suc fuel) (crlf rest) done ≡ body done rest
  unfolding read_trailers
  read_trailers-end fuel done rest = rw (line, read_trailers, full_line_nil, line)
    where
      line : readline (suc max_line) (crlf rest) ≡ (crlf [], rest)
      line = readline-crlf (suc max_line) [] rest refl (omega arith)

      full_line_nil : full_line (crlf []) ≡ some []
      full_line_nil = unfold full_line before_crlf in refl

  read_chunks-last :
      (fuel : ℕ) (done rest : Bytes)
      → read_chunks py limit (suc (suc fuel)) (hex zero ++ crlf (crlf rest)) done ≡ body done rest
  unfolding read_chunks
  read_chunks-last fuel done rest =
      rw
        (
          size_line zero (crlf rest) (omega arith),
          read_chunks,
          chunk_size-hex zero (omega arith),
          size_line zero (crlf rest) (omega arith),
          read_chunks,
        )
        (read_trailers-end fuel done rest)

  read_chunks-encode :
      (fuel : ℕ) (chunks : List Bytes) (done rest : Bytes)
      → NonEmpty chunks
      → length done + length (join chunks) ≤ limit
      → length (encode hex chunks rest) < fuel
      → read_chunks py limit fuel (encode hex chunks rest) done ≡ body (done ++ join chunks) rest
  read_chunks-encode zero chunks done rest full fits enough = absurd (omega arith)
  read_chunks-encode (suc zero) chunks done rest full fits enough =
      absurd (omega (arith, encode_nonempty hex chunks rest))
  read_chunks-encode (suc (suc fuel)) [] done rest full fits enough =
      rw (append-nil done) (read_chunks-last fuel done rest)
  read_chunks-encode (suc (suc fuel)) ([] ∷ chunks) done rest full fits enough =
      absurd (omega arith)
  read_chunks-encode (suc (suc fuel)) ((c ∷ cs) ∷ chunks) done rest (f, full) fits enough =
      read_chunks-step (suc fuel) c cs done (encode hex chunks rest)
        (ground (arith, length-append (c ∷ cs) (join chunks)))
      ∙ read_chunks-encode (suc fuel) chunks (done ++ c ∷ cs) rest full
          (ground (arith, length-append done (c ∷ cs), length-append (c ∷ cs) (join chunks)))
          (ground (
            arith,
            length-append (hex (suc (length cs)))
                (crlf ((c ∷ cs) ++ crlf (encode hex chunks rest))),
            length-append cs (crlf (encode hex chunks rest)),
          ))
      ∙ ap (λ t. body t rest) (append_assoc done (c ∷ cs) (join chunks))

  -- Chunks that are not empty and fit the limit together come back as one body, and what follows
  -- them stays in the stream.
  pub read_chunked_body-encode :
      (chunks : List Bytes) (rest : Bytes)
      → NonEmpty chunks
      → length (join chunks) ≤ limit
      → read_chunked_body py limit (encode hex chunks rest) ≡ body (join chunks) rest
  unfolding read_chunked_body
  read_chunked_body-encode chunks rest full fits =
      read_chunks-encode (suc (length (encode hex chunks rest))) chunks [] rest full (omega arith)
        (omega arith)
