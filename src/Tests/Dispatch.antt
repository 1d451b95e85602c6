-- ===== src/Tests/Dispatch.antt =====
-- charles_mcp/mocks/dispatcher.py on a small limit, with sizes of one digit.
use charles_mcp.Prelude.{
  ℕ, ◌+◌, ◌-◌, ◌≤◌, ◌≡◌, ◌≢◌, refl, Option, none, some, List, [], ◌∷◌, length, arith, nat_eq, ltb,
  if◌then◌else◌,
}
use charles_mcp.Prelude.Text.{Text, codes, text_eq}
use charles_mcp.Prelude.Strings.{split, strip, strip_bytes}
use charles_mcp.Prelude.Int.{ℤ, pos}
use charles_mcp.Dispatcher.Framing.{
  Bytes, Numerals, body, out_of_fuel, read_body, read_chunked_body,
}
use charles_mcp.Dispatcher.Framing.Chunks.{WritesSizes, encode, read_chunked_body-encode}
use charles_mcp.Dispatcher.Framing.Limit.{read_body-limit}
use charles_mcp.Dispatcher.Framing.Total.{read_chunked_body-ends}

abbrev digit_value : Text → Option ℤ
digit_value (c ∷ []) = if ltb c 48 then none else some (pos (c - 48))
digit_value _ = none

abbrev pub digits : Numerals
digits = record { int_of = digit_value; hex_of = digit_value; lower = λ t. t }

abbrev digit : ℕ → Bytes
digit n = (48 + n) ∷ []

reads : (n : ℕ) → n ≤ 9 → digit_value (strip_bytes (digit n)) ≡ some (pos n)
unfolding strip_bytes
reads n h = ground arith

digit-WritesSizes : WritesSizes digits 9 digit
digit-WritesSizes = record {
  reads_back = reads;
  no_newline = λ n h. ground arith;
  no_semicolon = λ n h. ground arith;
  short = λ n h. omega arith;
}

abbrev sent : List Bytes
sent = codes "abc" ∷ codes "de" ∷ []

abbrev wire : Bytes
wire = encode digit sent (codes "GET /")

read_chunked_body-encode_example :
    read_chunked_body digits 9 wire ≡ body (codes "abcde") (codes "GET /")
read_chunked_body-encode_example =
    read_chunked_body-encode digits 9 digit digit-WritesSizes sent (codes "GET /")
      (omega arith, (omega arith, tt)) (omega arith)

sized : read_body digits 9 [] (some (codes "3")) (codes "abcd") ≡ body (codes "abc") (codes "d")
unfolding read_body split strip text_eq
sized = refl

read_body-limit_example : length (codes "abc") ≤ 9
read_body-limit_example =
    read_body-limit digits 9 [] (some (codes "3")) (codes "abcd") (codes "abc") (codes "d") sized

read_chunked_body-ends_example : read_chunked_body digits 9 wire ≢ out_of_fuel
read_chunked_body-ends_example = read_chunked_body-ends digits 9 wire
