-- ===== src/Json/Laws.antt =====
-- Laws of the dict and list operations of `Json`.
use charles_mcp.Prelude.{
  ℕ, zero, suc, ◌<◌, ◌≤◌, ◌≡◌, refl, ◌≢◌, ap, none, some, arith, ◌==◌, eq_iff, if◌then◌else◌,
}
use charles_mcp.Prelude.Text.{Text, text_eq}
use charles_mcp.Json.{
  Value, Items, nil, cons, Fields, end, field, get_field, set_field, size, get_item, set_item,
  append_item,
}

pub get_field-set_field :
    (k j : Text) (v : Value) (d : Fields)
    → get_field j (set_field k v d) ≡ (if k == j then some v else get_field j d)
unfolding get_field set_field
get_field-set_field k j v end = refl
get_field-set_field k j v (field i w d) =
    ground (arith, eq_iff k j, eq_iff i k, eq_iff i j, get_field-set_field k j v d)

pub size-set_item : (i : ℕ) (v : Value) (xs : Items) → size (set_item i v xs) ≡ size xs
unfolding size set_item
size-set_item i v nil = refl
size-set_item zero v (cons w xs) = refl
size-set_item (suc i) v (cons w xs) = ap suc (size-set_item i v xs)

pub get_item-set_item_self :
    (i : ℕ) (v : Value) (xs : Items) → i < size xs → get_item i (set_item i v xs) ≡ some v
unfolding size set_item get_item
get_item-set_item_self i v nil h = elim h [ ]
get_item-set_item_self zero v (cons w xs) h = refl
get_item-set_item_self (suc i) v (cons w xs) h = get_item-set_item_self i v xs (omega arith)

pub get_item-set_item_ne :
    (i j : ℕ) (v : Value) (xs : Items) → i ≢ j → get_item j (set_item i v xs) ≡ get_item j xs
unfolding set_item get_item
get_item-set_item_ne i j v nil h = refl
get_item-set_item_ne zero zero v (cons w xs) h = absurd (h refl)
get_item-set_item_ne zero (suc j) v (cons w xs) h = refl
get_item-set_item_ne (suc i) zero v (cons w xs) h = refl
get_item-set_item_ne (suc i) (suc j) v (cons w xs) h =
    get_item-set_item_ne i j v xs (λ e. h (ap suc e))

pub size-append_item : (v : Value) (xs : Items) → size (append_item v xs) ≡ suc (size xs)
unfolding size append_item
size-append_item v nil = refl
size-append_item v (cons w xs) = ap suc (size-append_item v xs)

pub get_item-append_item : (v : Value) (xs : Items) → get_item (size xs) (append_item v xs) ≡ some v
unfolding size append_item get_item
get_item-append_item v nil = refl
get_item-append_item v (cons w xs) = get_item-append_item v xs

pub get_item_out_of_range : (i : ℕ) (xs : Items) → size xs ≤ i → get_item i xs ≡ none
unfolding size get_item
get_item_out_of_range i nil h = refl
get_item_out_of_range zero (cons w xs) h = absurd (omega arith)
get_item_out_of_range (suc i) (cons w xs) h = get_item_out_of_range i xs (omega arith)

pub get_item_bounds : (i : ℕ) (xs : Items) (v : Value) → get_item i xs ≡ some v → i < size xs
unfolding size get_item
get_item_bounds i nil v h = cc
get_item_bounds zero (cons w xs) v h = omega arith
get_item_bounds (suc i) (cons w xs) v h = omega (arith, get_item_bounds i xs v h)
