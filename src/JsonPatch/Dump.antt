-- ===== src/JsonPatch/Dump.antt =====
-- `_write` and `dump_like`: a patched body in the layout of the captured one.
pub mod Spelling
use charles_mcp.Prelude.{
  ℕ, zero, suc, ◌+◌, Bool, true, false, ◌&&◌, ◌||◌, Option, none, some, List, [], ◌∷◌, ◌++◌, any,
  ◌==◌, nat_eq, if◌then◌else◌,
}
use charles_mcp.Prelude.Text.{Text, codes, text_eq}
use charles_mcp.Json.{
  Value, null, bool, int, float, str, arr, obj, Items, nil, cons, Fields, end, field, get_field,
}
use charles_mcp.JsonPatch.Python.{Python}
use charles_mcp.JsonPatch.Style.{Style, style_of}

-- Python's JSON of the writer.
pub record Writer : Type 0 where
  -- `json.loads(text, parse_float=_NumberLiteral, parse_int=_NumberLiteral)`: a number is a
  -- `float` of its spelling; `none` is a `ValueError`.
  pub loads_literal : Text → Option Value
  -- `json.dumps(text, ensure_ascii=...)`
  pub dumps_text : Bool → Text → Text
  -- `float(literal) == float(value)`, false for a `ValueError`.
  pub same_float : Text → Value → Bool
  -- `text.encode("utf-8")`
  pub encode : Text → List ℕ

-- `literal.is_float`
unfoldable pub is_float_literal : Text → Bool
is_float_literal literal = any (λ c. c == b'.' || c == b'e' || c == b'E') literal

abbrev is_float : Value → Bool
is_float (float f) = true
is_float _ = false

abbrev bool_eq : Bool → Bool → Bool
bool_eq true b = b
bool_eq false true = false
bool_eq false false = true

-- `text.replace("/", "\\/")`
unfoldable pub escape_slashes : Text → Text
escape_slashes [] = []
escape_slashes (c ∷ cs) =
    let rest = escape_slashes cs in if c == b'/' then 92 ∷ b'/' ∷ rest else c ∷ rest

-- `indent * level`
unfoldable pub repeat : ℕ → Text → Text
repeat zero text = []
repeat (suc n) text = text ++ repeat n text

abbrev shadow_fields : Value → Fields
shadow_fields (obj fs) = fs
shadow_fields _ = end

abbrev shadow_items : Value → Items
shadow_items (arr xs) = xs
shadow_items _ = nil

abbrev pub or_null : Option Value → Value
or_null none = null
or_null (some v) = v

-- `shadow[index]`, or `None` past the end.
abbrev head_item : Items → Value
head_item nil = null
head_item (cons v xs) = v

abbrev tail_items : Items → Items
tail_items nil = nil
tail_items (cons v xs) = xs

-- The items joined by a separator.
unfoldable pub join_texts : Text → List Text → Text
join_texts sep [] = []
join_texts sep (t ∷ []) = t
join_texts sep (t ∷ u ∷ ts) = t ++ sep ++ join_texts sep (u ∷ ts)

unfoldable pub wrap : Text → Text → List Text → Option Text → ℕ → Text
unfolding join_texts repeat
wrap opening closing items none level = opening ++ join_texts (codes ",") items ++ closing
wrap opening closing items (some indent) level =
    let inner = 10 ∷ repeat (level + 1) indent in
    opening ++ inner ++ join_texts (codes "," ++ inner) items ++ 10 ∷ repeat level indent ++ closing

module _ (py : Python) (w : Writer) (style : Style) where
  -- `style.string(value)`
  unfoldable pub style_string : Text → Text
  unfolding escape_slashes
  style_string value =
      let text = w.dumps_text style.ensure_ascii value in
      if style.escape_slash then escape_slashes text else text

  unfoldable pub same_number : Value → Text → Bool
  unfolding is_float_literal
  same_number value literal =
      bool_eq (is_float value) (is_float_literal literal) && w.same_float literal value

  -- A number, in the spelling of the capture if it still spells it.
  unfoldable pub write_number : Value → Value → Text
  write_number value (float literal) = if same_number value literal then literal else py.dumps value
  write_number value _ = py.dumps value

  abbrev pub key_separator : Option Text → Text
  key_separator none = codes ":"
  key_separator (some indent) = codes ": "

  abbrev pub wrapped : Text → Text → Text → List Text → ℕ → Text
  wrapped empty opening closing [] level = empty
  wrapped empty opening closing (t ∷ ts) level = wrap opening closing (t ∷ ts) style.indent level

  unfoldable mutual
    -- `shadow` is the value of the capture at the same place, `null` if there is none.
    pub write : Value → Value → ℕ → Text
    write null shadow level = codes "null"
    write (bool true) shadow level = codes "true"
    write (bool false) shadow level = codes "false"
    write (int n) shadow level = write_number (int n) shadow
    write (float f) shadow level = write_number (float f) shadow
    write (str s) shadow level = style_string s
    write (arr xs) shadow level =
        wrapped (codes "[]") (codes "[") (codes "]")
          (write_items xs (shadow_items shadow) (level + 1)) level
    write (obj fs) shadow level =
        wrapped (codes "{}") (codes "{") (codes "}")
          (write_fields fs (shadow_fields shadow) (level + 1)) level

    pub write_items : Items → Items → ℕ → List Text
    write_items nil shadow level = []
    write_items (cons v xs) shadow level =
        write v (head_item shadow) level ∷ write_items xs (tail_items shadow) level

    pub write_fields : Fields → Fields → ℕ → List Text
    write_fields end shadow level = []
    write_fields (field k v fs) shadow level =
        (style_string k
          ++ key_separator style.indent
          ++ write v (or_null (get_field k shadow)) level)
        ∷ write_fields fs shadow level

-- `dump_like`
unfoldable pub dump_like : Python → Writer → Text → Value → List ℕ
dump_like py w original document =
    let style = style_of original in
    let text = write py w style document (or_null (w.loads_literal original)) zero in
    w.encode (if style.trailing_newline then text ++ 10 ∷ [] else text)
