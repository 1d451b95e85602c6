-- ===== src/JsonPatch/Style.antt =====
-- `_Style`: how a captured body is laid out.
use charles_mcp.Prelude.{
  ℕ, zero, suc, ◌-◌, Bool, false, ◌&&◌, ◌||◌, Option, none, some, List, [], ◌∷◌, all, length, ltb,
  leb, contains, ◌==◌, nat_eq, if◌then◌else◌,
}
use charles_mcp.Prelude.Text.{Text, codes, text_eq}
use charles_mcp.Prelude.Strings.{strip, lstrip, starts_with, ends_with, occurs}

pub record Style : Type 0 where
  pub indent : Option Text
  pub ensure_ascii : Bool
  pub escape_slash : Bool
  pub trailing_newline : Bool

-- The characters at which `splitlines` breaks.
abbrev is_break : ℕ → Bool
is_break c =
    (leb 10 c && leb c 13) || (leb 28 c && leb c 30) || c == 0x85 || c == 0x2028 || c == 0x2029

abbrev line_cons : ℕ → List Text → List Text
line_cons c [] = (c ∷ []) ∷ []
line_cons c (line ∷ lines) = (c ∷ line) ∷ lines

-- `text.splitlines()`: a break ends a line, and `\r\n` is one break.
unfoldable pub split_lines : Text → List Text
split_lines [] = []
split_lines (c ∷ []) = if is_break c then [] ∷ [] else (c ∷ []) ∷ []
split_lines (c ∷ d ∷ cs) =
    let rest = split_lines cs in
    let next = split_lines (d ∷ cs) in
    if c == 13 && d == 10 then [] ∷ rest else if is_break c then [] ∷ next else line_cons c next

unfoldable pub spaces : ℕ → Text
spaces zero = []
spaces (suc n) = b' ' ∷ spaces n

-- `len(line) - len(line.lstrip(" "))`
abbrev leading : Text → ℕ
leading line = length line - length (lstrip (λ c. c == b' ') line)

-- The loop over the lines after the first: the first tab or run of spaces at a line's start.
unfoldable pub indent_of : List Text → Text
indent_of [] = codes "  "
indent_of (line ∷ lines) =
    let rest = indent_of lines in
    if starts_with (9 ∷ []) line
    then 9 ∷ []
    else if ltb 0 (leading line)
    then spaces (leading line)
    else rest

abbrev tail_lines : List Text → List Text
tail_lines [] = []
tail_lines (line ∷ lines) = lines

abbrev is_hex : ℕ → Bool
is_hex c = (leb b'0' c && leb c b'9') || (leb b'a' c && leb c b'f') || (leb b'A' c && leb c b'F')

-- `\\u[0-9a-fA-F]{4}` here.
abbrev escape_here : Text → Bool
escape_here (s ∷ u ∷ a ∷ b ∷ c ∷ d ∷ cs) =
    s == 92 && u == b'u' && is_hex a && is_hex b && is_hex c && is_hex d
escape_here _ = false

unfoldable pub has_escape : Text → Bool
has_escape [] = false
has_escape (c ∷ cs) = escape_here (c ∷ cs) || has_escape cs

unfoldable pub style_of : Text → Style
unfolding strip lstrip split_lines indent_of spaces has_escape occurs ends_with starts_with
style_of original =
    let stripped = strip original in
    record {
      indent =
          if contains stripped 10
          then some (indent_of (tail_lines (split_lines stripped)))
          else none;
      ensure_ascii = has_escape original && all (λ c. ltb c 128) original;
      escape_slash = occurs (92 ∷ b'/' ∷ []) original;
      trailing_newline = ends_with (10 ∷ []) original;
    }
