-- ===== src/Dispatcher/Framing/Limit.antt =====
-- No body over the limit is accepted, whichever way it is framed.
use charles_mcp.Prelude.{
  ℕ, zero, suc, ◌+◌, ◌≤◌, ◌≡◌, sym, subst, inl, inr, Option, none, some, [], ◌++◌, arith, ltb,
  length, length-append, any, ◌==◌, nat_eq, Bool-cases, Option-cases,
}
use charles_mcp.Prelude.Text.{Text, codes, text_eq}
use charles_mcp.Prelude.Int.{ℤ, pos, negsuc}
use charles_mcp.Prelude.Strings.{split, strip}
use charles_mcp.Dispatcher.Framing.{
  Bytes, Numerals, body, refused, invalid_length, read_trailers, chunk_size, chunk_data,
  read_chunks, read_chunked_body, read_sized, read_body, readline, max_line,
}

read_trailers-body :
    (fuel : ℕ) (stream done b rest : Bytes)
    → read_trailers fuel stream done ≡ body b rest
    → b ≡ done
unfolding read_trailers
read_trailers-body zero stream done b rest h = cc
read_trailers-body (suc fuel) stream done b rest h =
    ground (arith, read_trailers-body fuel (readline (suc max_line) stream).1 done b rest)

module _ (py : Numerals) (limit : ℕ) where
  chunk_data-length :
      (size : ℕ) (stream chunk after : Bytes)
      → chunk_data py limit size stream ≡ some (chunk, after)
      → length chunk ≡ size
  unfolding chunk_data
  chunk_data-length size stream chunk after h = ground arith

  read_chunks-limit :
      (fuel : ℕ) (stream done b rest : Bytes)
      → length done ≤ limit
      → read_chunks py limit fuel stream done ≡ body b rest
      → length b ≤ limit
  unfolding read_chunks
  read_chunks-limit zero stream done b rest fits h = cc
  read_chunks-limit (suc fuel) stream done b rest fits h =
      let line = (readline (suc max_line) stream).0 in
      let left = (readline (suc max_line) stream).1 in
      elim (Option-cases (chunk_size py limit line)) [
        | inl bad ↦ absurd (cc (rw (bad, read_chunks) at h))
        | inr (zero, e) ↦
            subst (λ t. length t ≤ limit)
              (sym (read_trailers-body fuel left done b rest (rw (e, read_chunks) at h))) fits
        | inr (suc n, e) ↦ elim (Bool-cases (ltb limit (length done + suc n))) [
          | inl big ↦ absurd (cc (rw (e, read_chunks, big) at h))
          | inr small ↦ elim (Option-cases (chunk_data py limit (suc n) left)) [
            | inl bad ↦ absurd (cc (rw (e, read_chunks, small, bad) at h))
            | inr ((chunk, after), d) ↦
                read_chunks-limit fuel after (done ++ chunk) b rest
                  (ground (
                    arith,
                    length-append done chunk,
                    chunk_data-length (suc n) left chunk after d,
                    small,
                  ))
                  (rw (e, read_chunks, small, d) at h)
          ]
        ]
      ]

  read_sized-limit :
      (n : ℤ) (stream b rest : Bytes)
      → read_sized py limit n stream ≡ body b rest
      → length b ≤ limit
  read_sized-limit (negsuc n) stream b rest h = cc
  read_sized-limit (pos n) stream b rest h = ground arith

  -- Whatever the headers and the bytes, an accepted body is no longer than the limit.
  pub read_body-limit :
      (transfer_encoding : Text) (content_length : Option Text) (stream b rest : Bytes)
      → read_body py limit transfer_encoding content_length stream ≡ body b rest
      → length b ≤ limit
  unfolding read_body read_chunked_body
  read_body-limit te cl stream b rest h =
      elim (Bool-cases (any (λ value. py.lower (strip value) == codes "chunked") (split b',' te))) [
        | inl chunked ↦
            read_chunks-limit (suc (length stream)) stream [] b rest (omega arith) (rw chunked at h)
        | inr plain ↦ by_length cl (rw plain at h)
      ]
    where
      by_number :
          (o : Option ℤ)
          → (elim o [ none ↦ refused invalid_length | some n ↦ read_sized py limit n stream ])
            ≡ body b rest
          → length b ≤ limit
      by_number none k = cc
      by_number (some n) k = read_sized-limit n stream b rest k

      by_length :
          (o : Option Text)
          → (elim o [
            | none ↦ body [] stream
            | some raw ↦ elim (py.int_of raw) [
              | none ↦ refused invalid_length
              | some n ↦ read_sized py limit n stream
            ]
          ])
            ≡ body b rest
          → length b ≤ limit
      by_length none k = ground arith
      by_length (some raw) k = by_number (py.int_of raw) k
