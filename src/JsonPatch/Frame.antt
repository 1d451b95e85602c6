-- ===== src/JsonPatch/Frame.antt =====
-- What `_set` leaves alone: pointers that `pointers_may_alias` tells apart.
use charles_mcp.Prelude.{
  List, [], ◌∷◌, length, ◌||◌, All, ℕ, ◌≡◌, refl, ◌≢◌, ◌⊎◌, inl, inr, ap, subst, Bool, true, false,
  ◌&&◌, Option, none, some, arith, ◌==◌, nat_eq, eq_iff, eq_of_ne, Bool-cases, Option-cases,
  if◌then◌else◌,
}
use charles_mcp.Prelude.Text.{codes, Text, text_eq}
use charles_mcp.Json.{
  size, append_item, Value, Items, Fields, obj, arr, get_field, set_field, get_item, set_item,
}
use charles_mcp.Json.Laws.{
  get_field-set_field, get_item-set_item_ne, get_item-set_item_self, get_item_out_of_range,
  get_item_bounds,
}
use charles_mcp.JsonPatch.Python.{
  Python, Result, key_error, value_error, patch_error, does_not_exist,
}
use charles_mcp.Prelude.Outcome.{ok, raise, or_raise, same_value, chain-parts, or_raise-parts}
use charles_mcp.JsonPatch.Pointer.{is_selector, is_digits, addresses_array}
use charles_mcp.JsonPatch.Pointer.{parse_pointer, tokens_may_alias, pointers_may_alias}
use charles_mcp.Prelude.Number.{str_nat, str_nat-AllDigits, str_nat-ne-nil}
use charles_mcp.JsonPatch.Python.{IsPython}
use charles_mcp.JsonPatch.Pointer.Alias.{Diverges, tokens_may_alias-Diverges}
use charles_mcp.JsonPatch.Lookup.{get_tokens, existing_index, get_step}
use charles_mcp.JsonPatch.Edit.{set_last, set_tokens, descend}
use charles_mcp.JsonPatch.SetGet.{is_digits-ascii, Descends}

abbrev pub NoSelector : Text → Type 0
NoSelector token = is_selector token ≡ false

module _ (py : Python) where
  abbrev Here : Text → Text → Type 0
  Here x y = (x ≢ y) × ((addresses_array py x && addresses_array py y) ≡ false)

  other_side : (x y : Text) → Here x y → addresses_array py x ≡ true → addresses_array py y ≡ false
  other_side x y here h = rw h at here.1

  as_effect :
      (edit : Value → Result Value) (doc doc' : Value) (y : Text) (child child' : Value)
      → edit child ≡ ok child'
      → (get_step py doc' y ≡ get_step py doc y)
        ⊎ ((get_step py doc' y ≡ ok child') × (get_step py doc y ≡ ok child))
      → (get_step py doc' y ≡ get_step py doc y) ⊎ Descends py edit doc doc' y
  as_effect edit doc doc' y child child' edited (inl same) = inl same
  as_effect edit doc doc' y child child' edited (inr (after, before)) =
      inr
        (record { child = child; child' = child'; edited = edited; before = before; after = after })

  -- A token that addresses no array reads nothing from one.
  get_step-arr_fails :
      (xs ys : Items) (y : Text)
      → addresses_array py y ≡ false
      → get_step py (arr xs) y ≡ get_step py (arr ys) y
  unfolding get_step addresses_array
  get_step-arr_fails xs ys y h = ground arith

  existing_index-addresses :
      (xs : Items) (x : Text) (i : ℕ) → existing_index py xs x ≡ ok i → addresses_array py x ≡ true
  unfolding existing_index addresses_array
  existing_index-addresses xs x i h = ground arith

  -- What a token that is no selector reads from a list.
  read_index : Bool → Option ℕ → Items → Result Value
  read_index false o xs = raise key_error
  read_index true none xs = raise value_error
  read_index true (some i) xs = or_raise key_error (get_item i xs)

  get_step-read_index :
      (xs : Items) (y : Text)
      → is_selector y ≡ false
      → get_step py (arr xs) y ≡ read_index (is_digits py y) (py.int_of y) xs
  unfolding get_step read_index
  get_step-read_index xs y plain = elim (Option-cases (py.int_of y)) [
    | inl bad ↦ rw (bad, plain) (ground arith)
    | inr (i, good) ↦ rw (good, plain) (ground (arith, get_item_out_of_range i xs))
  ]

  abbrev SameOr : Result Value → Result Value → Value → Value → Type 0
  SameOr after before v w = (after ≡ before) ⊎ ((after ≡ ok v) × (before ≡ ok w))

  read_index-set_item :
      (digits : Bool) (o : Option ℕ) (xs : Items) (i : ℕ) (v w : Value)
      → get_item i xs ≡ some w
      → SameOr (read_index digits o (set_item i v xs)) (read_index digits o xs) v w
  unfolding read_index
  read_index-set_item false o xs i v w there = inl refl
  read_index-set_item true none xs i v w there = inl refl
  read_index-set_item true (some j) xs i v w there = elim (Bool-cases (i == j)) [
    | inl same ↦
        inr (
          ground (arith, get_item-set_item_self i v xs (get_item_bounds i xs w there)),
          ground arith,
        )
    | inr other ↦ inl (ap (or_raise key_error) (get_item-set_item_ne i j v xs (λ p. ground arith)))
  ]

  get_step-set_item :
      (xs : Items) (y : Text) (i : ℕ) (v w : Value)
      → is_selector y ≡ false
      → get_item i xs ≡ some w
      → SameOr (get_step py (arr (set_item i v xs)) y) (get_step py (arr xs) y) v w
  get_step-set_item xs y i v w plain there =
      rw (get_step-read_index (set_item i v xs) y plain, get_step-read_index xs y plain)
        (read_index-set_item (is_digits py y) (py.int_of y) xs i v w there)

  get_step-set_field :
      (fs : Fields) (x y : Text) (v w : Value)
      → get_field x fs ≡ some w
      → SameOr (get_step py (obj (set_field x v fs)) y) (get_step py (obj fs) y) v w
  unfolding get_step
  get_step-set_field fs x y v w there =
      rw (get_field-set_field x y v fs) (split (Bool-cases (x == y)))
    where
      split :
          ((x == y) ≡ true) ⊎ ((x == y) ≡ false)
          → SameOr
              (or_raise key_error (if x == y then some v else get_field y fs))
              (or_raise key_error (get_field y fs))
              v
              w
      split (inl same) = inr (rw same, rw (← (eq_iff x y).0 same, there))
      split (inr other) = inl (rw other)

  -- One step of `_resolve_parent`, seen from any other token: that token reads what it read, or it
  -- reads the child that the step has edited.
  descend-effect :
      (edit : Value → Result Value) (doc doc' : Value) (x y : Text)
      → is_selector y ≡ false
      → descend py edit doc x ≡ ok doc'
      → (get_step py doc' y ≡ get_step py doc y) ⊎ Descends py edit doc doc' y
  unfolding descend
  descend-effect edit (obj fs) doc' x y plain h =
      let (child, found, rest) =
        chain-parts (or_raise (patch_error does_not_exist) (get_field x fs)) _ h in
      let (child', edited, built) = chain-parts (edit child) _ rest in
      subst (λ d. (get_step py d y ≡ get_step py (obj fs) y) ⊎ Descends py edit (obj fs) d y)
        (same_value built)
        (as_effect edit (obj fs) (obj (set_field x child' fs)) y child child' edited
          (get_step-set_field fs x y child' child (or_raise-parts _ _ found)))
  descend-effect edit (arr xs) doc' x y plain h =
      let (i, index, rest) = chain-parts (existing_index py xs x) _ h in
      let (child, found, rest') =
        chain-parts (or_raise (patch_error does_not_exist) (get_item i xs)) _ rest in
      let (child', edited, built) = chain-parts (edit child) _ rest' in
      subst (λ d. (get_step py d y ≡ get_step py (arr xs) y) ⊎ Descends py edit (arr xs) d y)
        (same_value built)
        (as_effect edit (arr xs) (arr (set_item i child' xs)) y child child' edited
          (get_step-set_item xs y i child' child plain (or_raise-parts _ _ found)))
  descend-effect edit _ doc' x y plain h = cc

  -- Where the two tokens diverge, the step is not seen at all.
  descend-Here :
      (edit : Value → Result Value) (doc doc' : Value) (x y : Text)
      → Here x y
      → descend py edit doc x ≡ ok doc'
      → get_step py doc' y ≡ get_step py doc y
  unfolding descend get_step
  descend-Here edit (obj fs) doc' x y here h =
      let (child, found, rest) =
        chain-parts (or_raise (patch_error does_not_exist) (get_field x fs)) _ h in
      let (child', edited, built) = chain-parts (edit child) _ rest in
      subst (λ d. get_step py d y ≡ get_step py (obj fs) y) (same_value built)
        (rw (get_field-set_field x y child' fs, eq_of_ne x y here.0))
  descend-Here edit (arr xs) doc' x y here h =
      let (i, index, rest) = chain-parts (existing_index py xs x) _ h in
      let (child, found, rest') =
        chain-parts (or_raise (patch_error does_not_exist) (get_item i xs)) _ rest in
      let (child', edited, built) = chain-parts (edit child) _ rest' in
      subst (λ d. get_step py d y ≡ get_step py (arr xs) y) (same_value built)
        (get_step-arr_fails (set_item i child' xs) xs y
          (other_side x y here (existing_index-addresses xs x i index)))
  descend-Here edit _ doc' x y here h = cc

module _ (py : Python) (lawful : IsPython py) where
  last_token-addresses :
      (xs : Items) (x : Text)
      → (x == codes "-" || x == str_nat (size xs)) ≡ true
      → addresses_array py x ≡ true
  unfolding addresses_array
  last_token-addresses xs x h = ground (
    arith,
    eq_iff x (codes "-"),
    eq_iff x (str_nat (size xs)),
    is_digits-ascii py lawful (str_nat (size xs)) (str_nat-ne-nil (size xs))
        (str_nat-AllDigits (size xs)),
  )

  last-addresses :
      (xs : Items) (x : Text) (value doc' : Value)
      → set_last py x value (arr xs) ≡ ok doc'
      → addresses_array py x ≡ true
  unfolding set_last
  last-addresses xs x value doc' h = elim (Bool-cases (x == codes "-" || x == str_nat (size xs))) [
    | inl appends ↦ last_token-addresses xs x appends
    | inr inside ↦
        let at = chain-parts (existing_index py xs x) _ (rw inside at h) in
        existing_index-addresses py xs x at.0 at.1
  ]

  set_last-arr :
      (xs : Items) (x : Text) (value doc' : Value)
      → set_last py x value (arr xs) ≡ ok doc'
      → (ys : Items) × (arr ys ≡ doc')
  unfolding set_last
  set_last-arr xs x value doc' h = elim (Bool-cases (x == codes "-" || x == str_nat (size xs))) [
    | inl appends ↦ (append_item value xs, same_value (rw appends at h))
    | inr inside ↦
        let built = chain-parts (existing_index py xs x) _ (rw inside at h) in
        (set_item built.0 value xs, same_value built.2)
  ]

  set_last-Here :
      (x y : Text) (value doc doc' : Value)
      → Here py x y
      → set_last py x value doc ≡ ok doc'
      → get_step py doc' y ≡ get_step py doc y
  set_last-Here x y value (obj fs) doc' here h =
      unfold set_last get_step in
      subst (λ d. get_step py d y ≡ get_step py (obj fs) y) (same_value h)
        (rw (get_field-set_field x y value fs, eq_of_ne x y here.0))
  set_last-Here x y value (arr xs) doc' here h =
      let (ys, same) = set_last-arr xs x value doc' h in
      subst (λ d. get_step py d y ≡ get_step py (arr xs) y) same
        (get_step-arr_fails py ys xs y (other_side py x y here (last-addresses xs x value doc' h)))
  set_last-Here x y value _ doc' here h = unfold set_last in cc

  set_tokens-Diverges :
      (token : Text) (tokens others : List Text) (value doc doc' : Value)
      → Diverges py (token ∷ tokens) others
      → All NoSelector others
      → set_tokens py token tokens value doc ≡ ok doc'
      → get_tokens py doc' others ≡ get_tokens py doc others
  unfolding set_tokens get_tokens
  set_tokens-Diverges token tokens [] value doc doc' d p h = absurd d
  set_tokens-Diverges token [] (y ∷ ys) value doc doc' (inl here) p h =
      rw (set_last-Here token y value doc doc' here h)
  set_tokens-Diverges token [] (y ∷ ys) value doc doc' (inr d) p h = absurd d
  set_tokens-Diverges token (next ∷ tokens) (y ∷ ys) value doc doc' (inl here) p h =
      rw (descend-Here py (set_tokens py next tokens value) doc doc' token y here h)
  set_tokens-Diverges token (next ∷ tokens) (y ∷ ys) value doc doc' (inr d) (plain, p) h =
      after_step (descend-effect py (set_tokens py next tokens value) doc doc' token y plain h)
        (λ c c' e. set_tokens-Diverges next tokens ys value c c' d p e)
    where
      after_step :
          (get_step py doc' y ≡ get_step py doc y)
            ⊎ Descends py (set_tokens py next tokens value) doc doc' y
          → ((c c' : Value)
              → set_tokens py next tokens value c ≡ ok c'
              → get_tokens py c' ys ≡ get_tokens py c ys)
          → get_tokens py doc' (y ∷ ys) ≡ get_tokens py doc (y ∷ ys)
      after_step (inl same) ih = rw same
      after_step (inr e) ih = rw (e.before, e.after) (ih e.child e.child' e.edited)

  no_alias :
      (a b : Text) (ta tb : List Text)
      → parse_pointer a ≡ ok ta
      → parse_pointer b ≡ ok tb
      → pointers_may_alias py a b ≡ ok false
      → tokens_may_alias py ta tb ≡ false
  unfolding pointers_may_alias
  no_alias a b ta tb pa pb h = elim (Bool-cases (a == b)) [
    | inl same ↦ absurd (cc (rw same at h))
    | inr other ↦ same_value (rw (other, pa, pb) at h)
  ]

  -- A successful `set` leaves every other path of the same length as it was, if
  -- `pointers_may_alias` says that the two pointers cannot alias, and the other path names its
  -- array elements by index.
  pub set_tokens-frame :
      (a b : Text) (token : Text) (tokens others : List Text) (value doc doc' : Value)
      → parse_pointer a ≡ ok (token ∷ tokens)
      → parse_pointer b ≡ ok others
      → length (token ∷ tokens) ≡ length others
      → ◌≢◌ {A = List Text} (token ∷ tokens) others
      → pointers_may_alias py a b ≡ ok false
      → All NoSelector others
      → set_tokens py token tokens value doc ≡ ok doc'
      → get_tokens py doc' others ≡ get_tokens py doc others
  set_tokens-frame a b token tokens others value doc doc' pa pb n d clear p h =
      set_tokens-Diverges token tokens others value doc doc'
        (tokens_may_alias-Diverges py (token ∷ tokens) others n d
          (no_alias a b (token ∷ tokens) others pa pb clear))
        p h
