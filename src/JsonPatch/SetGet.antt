-- ===== src/JsonPatch/SetGet.antt =====
-- Reading a pointer that `_set` has just written.
use charles_mcp.Prelude.{
  ℕ, ◌<◌, ◌≡◌, refl, ◌≢◌, ap, subst, true, false, some, List, [], ◌∷◌, arith, ◌==◌, eq_iff, eq_refl,
  All, all, ◌∙◌, inl, inr, Bool-cases,
}
use charles_mcp.Prelude.Text.{Text, text_eq, codes}
use charles_mcp.Prelude.Number.{
  str_nat, str_nat-AllDigits, str_nat-ne-nil, digits_value-str_nat, AllDigits,
}
use charles_mcp.Json.{
  Value, Items, Fields, obj, arr, get_field, set_field, get_item, set_item, append_item, size,
}
use charles_mcp.Json.Laws.{
  get_field-set_field, get_item-set_item_self, size-set_item, size-append_item,
  get_item-append_item,
}
use charles_mcp.JsonPatch.Python.{Python, IsPython, Result, patch_error, does_not_exist}
use charles_mcp.Prelude.Outcome.{ok, ◌>>=◌, or_raise, same_value, chain-parts, or_raise-parts}
use charles_mcp.JsonPatch.Pointer.{is_selector, is_digits}
use charles_mcp.JsonPatch.Lookup.{existing_index, get_step, get_tokens}
use charles_mcp.JsonPatch.Edit.{descend, set_last, set_tokens}

-- A token that names a key or counts to an index: no selector, and not the append mark.
abbrev pub IsPlain : Text → Type 0
IsPlain token = (is_selector token ≡ false) × ((token == codes "-") ≡ false)

module _ (py : Python) where
  pub record AtIndex (xs : Items) (token : Text) (i : ℕ) : Type 0 where
    pub digits : is_digits py token ≡ true
    pub value : py.int_of token ≡ some i
    pub in_range : i < size xs

  -- An index that `_existing_index` accepts, unless a selector gave it.
  pub existing_index-ok :
      (xs : Items) (token : Text) (i : ℕ)
      → is_selector token ≡ false
      → existing_index py xs token ≡ ok i
      → AtIndex xs token i
  unfolding existing_index
  existing_index-ok xs token i plain h = ground arith

  pub get_step-AtIndex :
      (xs ys : Items) (token : Text) (i : ℕ) (v : Value)
      → AtIndex xs token i
      → size ys ≡ size xs
      → get_item i ys ≡ some v
      → get_step py (arr ys) token ≡ ok v
  unfolding get_step
  get_step-AtIndex xs ys token i v at same found = ground arith

  -- One step of `_resolve_parent` on a plain token: it reads a child, and writes it back edited.
  pub record Descends (edit : Value → Result Value) (doc doc' : Value) (token : Text) : Type 0 where
    pub child : Value
    pub child' : Value
    pub edited : edit child ≡ ok child'
    pub before : get_step py doc token ≡ ok child
    pub after : get_step py doc' token ≡ ok child'

  pub Descends-obj :
      (edit : Value → Result Value) (fs : Fields) (token : Text) (child child' : Value)
      → get_field token fs ≡ some child
      → edit child ≡ ok child'
      → Descends edit (obj fs) (obj (set_field token child' fs)) token
  unfolding get_step
  Descends-obj edit fs token child child' there edited = record {
    child = child;
    child' = child';
    edited = edited;
    before = ground arith;
    after = ground (arith, get_field-set_field token token child' fs, eq_refl token);
  }

  Descends-arr :
      (edit : Value → Result Value) (xs : Items) (token : Text) (i : ℕ) (child child' : Value)
      → AtIndex xs token i
      → get_item i xs ≡ some child
      → edit child ≡ ok child'
      → Descends edit (arr xs) (arr (set_item i child' xs)) token
  Descends-arr edit xs token i child child' at there edited = record {
    child = child;
    child' = child';
    edited = edited;
    before = get_step-AtIndex xs xs token i child at refl there;
    after =
        get_step-AtIndex xs (set_item i child' xs) token i child' at (size-set_item i child' xs)
          (get_item-set_item_self i child' xs at.in_range);
  }

  pub descend-ok :
      (edit : Value → Result Value) (doc doc' : Value) (token : Text)
      → is_selector token ≡ false
      → descend py edit doc token ≡ ok doc'
      → Descends edit doc doc' token
  unfolding descend
  descend-ok edit (obj fs) doc' token plain h =
      let (child, found, rest) =
        chain-parts (or_raise (patch_error does_not_exist) (get_field token fs)) _ h in
      let (child', edited, built) = chain-parts (edit child) _ rest in
      subst (λ d. Descends edit (obj fs) d token) (same_value built)
        (Descends-obj edit fs token child child' (or_raise-parts _ _ found) edited)
  descend-ok edit (arr xs) doc' token plain h =
      let (i, index, rest) = chain-parts (existing_index py xs token) _ h in
      let (child, found, rest') =
        chain-parts (or_raise (patch_error does_not_exist) (get_item i xs)) _ rest in
      let (child', edited, built) = chain-parts (edit child) _ rest' in
      subst (λ d. Descends edit (arr xs) d token) (same_value built)
        (Descends-arr edit xs token i child child' (existing_index-ok xs token i plain index)
          (or_raise-parts _ _ found) edited)
  descend-ok edit _ doc' token plain h = cc

  module _ (lawful : IsPython py) where
    all-is_digit : (t : Text) → AllDigits t → all py.is_digit t ≡ true
    all-is_digit [] h = refl
    all-is_digit (c ∷ cs) (d, h) = rw (lawful.ascii_digit c d) (all-is_digit cs h)

    -- A printed number is a run of digits, and reads back as the number.
    pub is_digits-ascii : (t : Text) → t ≢ [] → AllDigits t → is_digits py t ≡ true
    unfolding is_digits
    is_digits-ascii [] some_digit h = absurd (some_digit refl)
    is_digits-ascii (c ∷ cs) some_digit h = all-is_digit (c ∷ cs) h

    str_nat-AtIndex : (xs : Items) (n : ℕ) → n < size xs → AtIndex xs (str_nat n) n
    str_nat-AtIndex xs n fits = record {
      digits = is_digits-ascii (str_nat n) (str_nat-ne-nil n) (str_nat-AllDigits n);
      value =
          lawful.ascii_int (str_nat n) (str_nat-ne-nil n) (str_nat-AllDigits n)
          ∙ ap some (digits_value-str_nat n);
      in_range = fits;
    }

    get_step-append :
        (xs : Items) (value : Value)
        → get_step py (arr (append_item value xs)) (str_nat (size xs)) ≡ ok value
    get_step-append xs value =
        let ys = append_item value xs in
        get_step-AtIndex ys ys (str_nat (size xs)) (size xs) value
          (str_nat-AtIndex ys (size xs) (omega (arith, size-append_item value xs))) refl
          (get_item-append_item value xs)

    set_item-get_step :
        (xs : Items) (token : Text) (value doc' : Value)
        → is_selector token ≡ false
        → (existing_index py xs token >>= λ i. ok (arr (set_item i value xs))) ≡ ok doc'
        → get_step py doc' token ≡ ok value
    set_item-get_step xs token value doc' plain h =
        let (i, index, built) = chain-parts (existing_index py xs token) _ h in
        let at = existing_index-ok xs token i plain index in
        subst (λ d. get_step py d token ≡ ok value) (same_value built)
          (get_step-AtIndex xs (set_item i value xs) token i value at (size-set_item i value xs)
            (get_item-set_item_self i value xs at.in_range))

    set_last-get_step :
        (token : Text) (value doc doc' : Value)
        → IsPlain token
        → set_last py token value doc ≡ ok doc'
        → get_step py doc' token ≡ ok value
    unfolding set_last get_step
    set_last-get_step token value (obj fs) doc' plain h =
        subst (λ d. get_step py d token ≡ ok value) (same_value h)
          (ground (arith, get_field-set_field token token value fs, eq_refl token))
    set_last-get_step token value (arr xs) doc' plain h =
        elim (Bool-cases (token == str_nat (size xs))) [
          | inl last ↦
              subst (λ d. get_step py d token ≡ ok value) (appended last)
                (rw ((eq_iff token (str_nat (size xs))).0 last) (get_step-append xs value))
          | inr inside ↦ set_item-get_step xs token value doc' plain.0 (replaced inside)
        ]
      where
        appended : (token == str_nat (size xs)) ≡ true → arr (append_item value xs) ≡ doc'
        appended last = ground (arith, h, plain, last)

        replaced :
            (token == str_nat (size xs)) ≡ false
            → (existing_index py xs token >>= λ i. ok (arr (set_item i value xs))) ≡ ok doc'
        replaced inside = rw (plain.1, inside) at h
    set_last-get_step token value _ doc' plain h = cc

    -- A successful `set` at plain tokens is what a read of the same tokens returns.
    pub get_tokens-set_tokens :
        (token : Text) (tokens : List Text) (value doc doc' : Value)
        → IsPlain token
        → All IsPlain tokens
        → set_tokens py token tokens value doc ≡ ok doc'
        → get_tokens py doc' (token ∷ tokens) ≡ ok value
    unfolding set_tokens get_tokens
    get_tokens-set_tokens token [] value doc doc' plain rest h =
        rw (set_last-get_step token value doc doc' plain h)
    get_tokens-set_tokens token (next ∷ tokens) value doc doc' plain (p, rest) h =
        let d = descend-ok (set_tokens py next tokens value) doc doc' token plain.0 h in
        rw d.after (get_tokens-set_tokens next tokens value d.child d.child' p rest d.edited)
