-- ===== src/JsonPatch/Dump/Spelling.antt =====
-- A body that no patch changed is written with the spelling of every number.
use charles_mcp.Prelude.{
  ℕ, ◌+◌, ◌≡◌, refl, Bool, true, false, some, List, [], ◌∷◌, ◌++◌, ◌==◌, eq_refl, eq_sym, nat_eq,
}
use charles_mcp.Prelude.Text.{Text, codes, text_eq}
use charles_mcp.Json.{Value, Items, Fields, get_field}
use charles_mcp.JsonPatch.Python.{Python}
use charles_mcp.JsonPatch.Style.{Style}
use charles_mcp.JsonPatch.Dump.{
  Writer, style_string, same_number, write_number, wrapped, key_separator, write, write_items,
  write_fields,
}

-- A JSON document as a text spells it: each number is its literal.
mutual
  pub data Spelled : Type 0 where
    null : Spelled
    bool : Bool → Spelled
    number : Text → Spelled
    str : Text → Spelled
    arr : SpelledItems → Spelled
    obj : SpelledFields → Spelled

  pub data SpelledItems : Type 0 where
    nil : SpelledItems
    cons : Spelled → SpelledItems → SpelledItems

  pub data SpelledFields : Type 0 where
    end : SpelledFields
    field : Text → Spelled → SpelledFields → SpelledFields

-- What `json.loads` makes of the document, given its reading of a number.
abbrev mutual
  pub value_of : (Text → Value) → Spelled → Value
  value_of read null = Value.null
  value_of read (bool b) = Value.bool b
  value_of read (number literal) = read literal
  value_of read (str s) = Value.str s
  value_of read (arr xs) = Value.arr (items_of read xs)
  value_of read (obj fs) = Value.obj (fields_of read fs)

  pub items_of : (Text → Value) → SpelledItems → Items
  items_of read nil = Items.nil
  items_of read (cons s xs) = Items.cons (value_of read s) (items_of read xs)

  pub fields_of : (Text → Value) → SpelledFields → Fields
  fields_of read end = Fields.end
  fields_of read (field k s fs) = Fields.field k (value_of read s) (fields_of read fs)

abbrev pub Absent : Text → SpelledFields → Type 0
Absent k end = Unit
Absent k (field j s fs) = ((j == k) ≡ false) × Absent k fs

-- No object has a key twice.
abbrev mutual
  pub KeysOnce : Spelled → Type 0
  KeysOnce null = Unit
  KeysOnce (bool b) = Unit
  KeysOnce (number literal) = Unit
  KeysOnce (str s) = Unit
  KeysOnce (arr xs) = KeysOnceItems xs
  KeysOnce (obj fs) = KeysOnceFields fs

  pub KeysOnceItems : SpelledItems → Type 0
  KeysOnceItems nil = Unit
  KeysOnceItems (cons s xs) = KeysOnce s × KeysOnceItems xs

  pub KeysOnceFields : SpelledFields → Type 0
  KeysOnceFields end = Unit
  KeysOnceFields (field k s fs) = Absent k fs × KeysOnce s × KeysOnceFields fs

module _ (py : Python) (w : Writer) (style : Style) where
  -- The text of a spelled document in a style.
  abbrev mutual
    pub render : Spelled → ℕ → Text
    render null level = codes "null"
    render (bool true) level = codes "true"
    render (bool false) level = codes "false"
    render (number literal) level = literal
    render (str s) level = style_string py w style s
    render (arr xs) level =
        wrapped py w style (codes "[]") (codes "[") (codes "]") (render_items xs (level + 1)) level
    render (obj fs) level =
        wrapped py w style (codes "{}") (codes "{") (codes "}") (render_fields fs (level + 1)) level

    pub render_items : SpelledItems → ℕ → List Text
    render_items nil level = []
    render_items (cons s xs) level = render s level ∷ render_items xs level

    pub render_fields : SpelledFields → ℕ → List Text
    render_fields end level = []
    render_fields (field k s fs) level =
        (style_string py w style k ++ key_separator py w style style.indent ++ render s level)
        ∷ render_fields fs level

  -- Every field of `fs` is found in `shadow` as the text spells it.
  abbrev Agrees : SpelledFields → Fields → Type 0
  Agrees end shadow = Unit
  Agrees (field k s fs) shadow =
      (get_field k shadow ≡ some (value_of Value.float s)) × Agrees fs shadow

  Agrees-field :
      (fs : SpelledFields) (j : Text) (v : Value) (shadow : Fields)
      → Absent j fs
      → Agrees fs shadow
      → Agrees fs (Fields.field j v shadow)
  unfolding get_field
  Agrees-field end j v shadow a h = tt
  Agrees-field (field k s fs) j v shadow (apart, a) (found, h) =
      (rw (get_field, eq_sym j k, apart) found, Agrees-field fs j v shadow a h)

  Agrees-fields_of : (fs : SpelledFields) → KeysOnceFields fs → Agrees fs (fields_of Value.float fs)
  Agrees-fields_of end h = tt
  Agrees-fields_of (field k s fs) (a, once, h) = (
    unfold get_field in rw (eq_refl k),
    Agrees-field fs k (value_of Value.float s) (fields_of Value.float fs) a (Agrees-fields_of fs h),
  )

  abbrev is_number : Value → Bool
  is_number (Value.int n) = true
  is_number (Value.float f) = true
  is_number _ = false

  -- Python reads every literal as a number that the literal spells.
  abbrev pub Reads : (Text → Value) → Type 0
  Reads read =
      (literal : Text)
      → (is_number (read literal) ≡ true) × (same_number py w style (read literal) literal ≡ true)

  write-literal :
      (v : Value) (literal : Text) (level : ℕ)
      → is_number v ≡ true
      → same_number py w style v literal ≡ true
      → write py w style v (Value.float literal) level ≡ literal
  unfolding write write_number
  write-literal (Value.int n) literal level num same = rw same
  write-literal (Value.float f) literal level num same = rw same
  write-literal _ literal level num same = absurd (cc)

  module _ (read : Text → Value) (reads : Reads read) where
    mutual
      unfolding write

      write-value_of :
          (s : Spelled) (level : ℕ)
          → KeysOnce s
          → write py w style (value_of read s) (value_of Value.float s) level ≡ render s level
      write-value_of null level h = refl
      write-value_of (bool true) level h = refl
      write-value_of (bool false) level h = refl
      write-value_of (number literal) level h =
          write-literal (read literal) literal level (reads literal).0 (reads literal).1
      write-value_of (str s) level h = refl
      write-value_of (arr xs) level h = rw (write-items_of xs (level + 1) h)
      write-value_of (obj fs) level h =
          rw (write-fields_of fs (fields_of Value.float fs) (level + 1) h (Agrees-fields_of fs h))

      write-items_of :
          (xs : SpelledItems) (level : ℕ)
          → KeysOnceItems xs
          → write_items py w style (items_of read xs) (items_of Value.float xs) level
            ≡ render_items xs level
      write-items_of nil level h = refl
      write-items_of (cons s xs) level (p, h) =
          rw (write-value_of s level p, write-items_of xs level h)

      write-fields_of :
          (fs : SpelledFields) (shadow : Fields) (level : ℕ)
          → KeysOnceFields fs
          → Agrees fs shadow
          → write_fields py w style (fields_of read fs) shadow level ≡ render_fields fs level
      write-fields_of end shadow level h g = refl
      write-fields_of (field k s fs) shadow level (a, p, h) (found, g) =
          rw (found, write-value_of s level p, write-fields_of fs shadow level h g)

    -- The document that a text spells, no object of it with a key twice, is written in the text's
    -- style with every number spelled as in the text.
    pub write-render :
        (s : Spelled) (level : ℕ)
        → KeysOnce s
        → write py w style (value_of read s) (value_of Value.float s) level ≡ render s level
    write-render s level once = write-value_of s level once
