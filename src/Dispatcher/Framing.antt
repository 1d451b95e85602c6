-- ===== src/Dispatcher/Framing.antt =====
-- The request body off the wire: `_read_body` and `_read_chunked_body`. The connection is the list of
-- the bytes that the client sends before it closes.
pub mod Total
pub mod Limit
pub mod Chunks
use charles_mcp.Prelude.{
  ℕ, zero, suc, ◌+◌, Bool, true, false, not, ◌&&◌, ◌||◌, Option, none, some, List, [], ◌∷◌, ◌++◌,
  length, take, drop, any, ltb, ◌==◌, nat_eq, if◌then◌else◌,
}
use charles_mcp.Prelude.Text.{Text, codes, text_eq}
use charles_mcp.Prelude.Int.{ℤ, pos, negsuc}
use charles_mcp.Prelude.Strings.{split, strip, strip_bytes, before}

abbrev pub Bytes : Type 0
Bytes = List ℕ

-- What the framing takes from Python: `int(text)` and `int(bytes, 16)`, with `none` for a
-- `ValueError`, and `text.lower()`.
pub record Numerals : Type 0 where
  pub int_of : Text → Option ℤ
  pub hex_of : Bytes → Option ℤ
  pub lower : Text → Text

pub data Refusal : Type 0 where
  invalid_length : Refusal
  body_too_large : Refusal
  incomplete_body : Refusal
  malformed_size : Refusal
  malformed_data : Refusal
  malformed_trailer : Refusal

-- `_read_body` returns a body or a status with a message. `out_of_fuel` marks a loop that the fuel
-- cut off, which `Total` excludes.
pub data Framed : Type 0 where
  body : Bytes → Bytes → Framed
  refused : Refusal → Framed
  out_of_fuel : Framed

abbrev pub status_of : Refusal → ℕ
status_of body_too_large = 413
status_of _ = 400

-- `rfile.readline(limit)`: up to a newline, the limit or the end; the line and the rest.
unfoldable pub readline : ℕ → Bytes → Bytes × Bytes
readline zero stream = ([], stream)
readline (suc limit) [] = ([], [])
readline (suc limit) (c ∷ cs) =
    let (line, rest) = readline limit cs in if c == 10 then (c ∷ [], cs) else (c ∷ line, rest)

abbrev pub max_line : ℕ
max_line = 65536

-- `line.endswith(b"\r\n")` with `line[:-2]`.
unfoldable pub before_crlf : Bytes → Option Bytes
before_crlf [] = none
before_crlf (a ∷ []) = none
before_crlf (a ∷ b ∷ []) = if a == 13 && b == 10 then some [] else none
before_crlf (a ∷ b ∷ c ∷ cs) = elim (before_crlf (b ∷ c ∷ cs)) [
  | none ↦ none
  | some front ↦ some (a ∷ front)
]

-- A line that is not empty, not too long, and ends in CRLF, without its end.
unfoldable pub full_line : Bytes → Option Bytes
full_line line = if ltb max_line (length line) then none else before_crlf line

abbrev first_line : Bytes → Option Bytes × Bytes
first_line stream = let (line, rest) = readline (suc max_line) stream in (full_line line, rest)

-- The inner loop: trailer lines up to the empty one.
unfoldable pub read_trailers : ℕ → Bytes → Bytes → Framed
read_trailers zero stream done = out_of_fuel
read_trailers (suc fuel) stream done =
    let (line, rest) = readline (suc max_line) stream in
    let more = read_trailers fuel rest done in
    elim (full_line line) [
      | none ↦ refused malformed_trailer
      | some [] ↦ body done rest
      | some (c ∷ cs) ↦ more
    ]

module _ (py : Numerals) (limit : ℕ) where
  -- `int(size_line[:-2].split(b";", 1)[0].strip(), 16)`, negative sizes refused.
  unfoldable pub chunk_size : Bytes → Option ℕ
  chunk_size line = elim (full_line line) [
    | none ↦ none
    | some front ↦ elim (py.hex_of (strip_bytes (before b';' front))) [
      | none ↦ none
      | some (pos n) ↦ some n
      | some (negsuc n) ↦ none
    ]
  ]

  -- The chunk and its CRLF, then the rest of the stream.
  unfoldable pub chunk_data : ℕ → Bytes → Option (Bytes × Bytes)
  chunk_data size stream =
      let chunk = take size stream in
      let rest = drop size stream in
      if length chunk == size && take 2 rest == 13 ∷ 10 ∷ []
      then some (chunk, drop 2 rest)
      else none

  -- The loop of `_read_chunked_body`, with the chunks that are read so far joined in `done`.
  unfoldable pub read_chunks : ℕ → Bytes → Bytes → Framed
  unfolding chunk_size chunk_data read_trailers
  read_chunks zero stream done = out_of_fuel
  read_chunks (suc fuel) stream done =
      let (line, rest) = readline (suc max_line) stream in
      let next = λ (chunk after : Bytes). read_chunks fuel after (done ++ chunk) in
      elim (chunk_size line) [
        | none ↦ refused malformed_size
        | some zero ↦ read_trailers fuel rest done
        | some (suc n) ↦
            if ltb limit (length done + suc n)
            then refused body_too_large
            else elim (chunk_data (suc n) rest) [
              | none ↦ refused malformed_data
              | some (chunk, after) ↦ next chunk after
            ]
      ]

  unfoldable pub read_chunked_body : Bytes → Framed
  unfolding read_chunks
  read_chunked_body stream = read_chunks (suc (length stream)) stream []

  abbrev pub read_sized : ℤ → Bytes → Framed
  read_sized (negsuc n) stream = refused invalid_length
  read_sized (pos n) stream =
      if ltb limit n
      then refused body_too_large
      else if length (take n stream) == n
      then body (take n stream) (drop n stream)
      else refused incomplete_body

  -- `_read_body`, from the two headers: Transfer-Encoding, empty if absent, and Content-Length.
  unfoldable pub read_body : Text → Option Text → Bytes → Framed
  unfolding read_chunked_body
  read_body transfer_encoding content_length stream =
      if any (λ value. py.lower (strip value) == codes "chunked") (split b',' transfer_encoding)
      then read_chunked_body stream
      else elim content_length [
        | none ↦ body [] stream
        | some raw ↦ elim (py.int_of raw) [
          | none ↦ refused invalid_length
          | some n ↦ read_sized n stream
        ]
      ]
