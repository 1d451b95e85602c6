-- ===== src/JsonPatch/Pointer/Roundtrip.antt =====
-- `parse_pointer` against the escaping of RFC 6901.
use charles_mcp.Prelude.{
  ℕ, ◌≡◌, refl, ap, false, List, [], ◌∷◌, ◌++◌, map, arith, ◌==◌, nat_eq, eq_iff, if◌then◌else◌,
}
use charles_mcp.Prelude.Text.{Text}
use charles_mcp.Prelude.Outcome.{ok}
use charles_mcp.Prelude.Strings.{split}
use charles_mcp.JsonPatch.Pointer.{replace_pair, unescape, parse_pointer}

-- RFC 6901: `~` is written `~0` and `/` is written `~1`.
abbrev pub escape : Text → Text
escape [] = []
escape (c ∷ cs) =
    let rest = escape cs in
    if c == b'~' then b'~' ∷ b'0' ∷ rest else if c == b'/' then b'~' ∷ b'1' ∷ rest else c ∷ rest

abbrev pub render : List Text → Text
render [] = []
render (token ∷ tokens) = b'/' ∷ escape token ++ render tokens

-- The escaped text after the first replacement.
abbrev half_escaped : Text → Text
half_escaped [] = []
half_escaped (c ∷ cs) =
    let rest = half_escaped cs in if c == b'~' then b'~' ∷ b'0' ∷ rest else c ∷ rest

replace_pair-cons_ne :
    (a b c x : ℕ) (cs : Text)
    → (x == a) ≡ false
    → replace_pair a b c (x ∷ cs) ≡ x ∷ replace_pair a b c cs
unfolding replace_pair
replace_pair-cons_ne a b c x [] h = refl
replace_pair-cons_ne a b c x (y ∷ cs) h = rw h

replace_slash-escape : (cs : Text) → replace_pair b'~' b'1' b'/' (escape cs) ≡ half_escaped cs
unfolding replace_pair
replace_slash-escape [] = refl
replace_slash-escape (c ∷ cs) = ground (
  arith,
  eq_iff c b'~',
  eq_iff c b'/',
  replace_slash-escape cs,
  replace_pair-cons_ne b'~' b'1' b'/' b'0' (escape cs) refl,
  replace_pair-cons_ne b'~' b'1' b'/' c (escape cs),
)

replace_tilde-half_escaped : (cs : Text) → replace_pair b'~' b'0' b'~' (half_escaped cs) ≡ cs
unfolding replace_pair
replace_tilde-half_escaped [] = refl
replace_tilde-half_escaped (c ∷ cs) = ground (
  arith,
  eq_iff c b'~',
  replace_tilde-half_escaped cs,
  replace_pair-cons_ne b'~' b'0' b'~' c (half_escaped cs),
)

unescape-escape : (token : Text) → unescape (escape token) ≡ token
unfolding unescape
unescape-escape token = rw (replace_slash-escape token) (replace_tilde-half_escaped token)

-- An escaped token holds no slash, so the split stops where the next token begins.
split-escape_end : (cs : Text) → split b'/' (escape cs) ≡ escape cs ∷ []
unfolding split
split-escape_end [] = refl
split-escape_end (c ∷ cs) = ground (arith, split-escape_end cs)

split-escape :
    (cs rest : Text) → split b'/' (escape cs ++ b'/' ∷ rest) ≡ escape cs ∷ split b'/' rest
unfolding split
split-escape [] rest = refl
split-escape (c ∷ cs) rest = ground (arith, split-escape cs rest)

pieces-render :
    (token : Text) (tokens : List Text)
    → map unescape (split b'/' (escape token ++ render tokens)) ≡ token ∷ tokens
pieces-render token [] =
    rw (append-nil_text (escape token), split-escape_end token) (rw (unescape-escape token))
  where
    append-nil_text : (cs : Text) → cs ++ [] ≡ cs
    append-nil_text [] = refl
    append-nil_text (c ∷ cs) = ap (λ r. c ∷ r) (append-nil_text cs)
pieces-render token (next ∷ tokens) =
    rw (split-escape token (escape next ++ render tokens))
      (rw (unescape-escape token, pieces-render next tokens))

-- Every list of tokens has a pointer, and parsing the pointer gives the tokens back.
pub parse_pointer-render : (tokens : List Text) → parse_pointer (render tokens) ≡ ok tokens
unfolding parse_pointer
parse_pointer-render [] = refl
parse_pointer-render (token ∷ tokens) = ap ok (pieces-render token tokens)
