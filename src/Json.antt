-- ===== src/Json.antt =====
-- The JSON documents that `json.loads` returns, and Python's operations on their dicts and lists.
-- A float is kept as its `repr`.
pub mod Laws
use charles_mcp.Prelude.{ℕ, zero, suc, ◌≡◌, Bool, Option, none, some, ◌==◌, if◌then◌else◌}
use charles_mcp.Prelude.Text.{Text, text_eq}
use charles_mcp.Prelude.Int.{ℤ}

mutual
  pub data Value : Type 0 where
    null : Value
    bool : Bool → Value
    int : ℤ → Value
    float : Text → Value
    str : Text → Value
    arr : Items → Value
    obj : Fields → Value

  pub data Items : Type 0 where
    nil : Items
    cons : Value → Items → Items

  pub data Fields : Type 0 where
    end : Fields
    field : Text → Value → Fields → Fields

-- `d.get(k)`, where `none` is a missing key.
unfoldable pub get_field : Text → Fields → Option Value
get_field k end = none
get_field k (field j v d) = if j == k then some v else get_field k d

-- `d[k] = v`
unfoldable pub set_field : Text → Value → Fields → Fields
set_field k v end = field k v end
set_field k v (field j w d) = if j == k then field j v d else field j w (set_field k v d)

-- `del d[k]` of a key that is there once.
unfoldable pub del_field : Text → Fields → Fields
del_field k end = end
del_field k (field j w d) = if j == k then d else field j w (del_field k d)

-- `len(xs)`
unfoldable pub size : Items → ℕ
size nil = 0
size (cons v xs) = suc (size xs)

-- `xs[i]`
unfoldable pub get_item : ℕ → Items → Option Value
get_item i nil = none
get_item zero (cons v xs) = some v
get_item (suc i) (cons v xs) = get_item i xs

-- `xs[i] = v` of an index in range.
unfoldable pub set_item : ℕ → Value → Items → Items
set_item i v nil = nil
set_item zero v (cons w xs) = cons v xs
set_item (suc i) v (cons w xs) = cons w (set_item i v xs)

-- `xs.append(v)`
unfoldable pub append_item : Value → Items → Items
append_item v nil = cons v nil
append_item v (cons w xs) = cons w (append_item v xs)

-- `del xs[i]` of an index in range.
unfoldable pub del_item : ℕ → Items → Items
del_item i nil = nil
del_item zero (cons v xs) = xs
del_item (suc i) (cons v xs) = cons v (del_item i xs)
