-- ===== src/LiveState/Manager/Numbering.antt =====
-- The keys that `_iter_unique_entries` gives to the entries of an export.
use charles_mcp.Prelude.{
  ℕ, suc, ◌≤◌, ◌≡◌, refl, ◌≢◌, ap, sym, ◌∙◌, subst, false, inl, inr, List, [], ◌∷◌, ◌++◌, arith,
  contains, ◌==◌, nat_eq, eq_iff, eq_refl, eq_of_ne, Bool-cases, if◌then◌else◌,
}
use charles_mcp.Prelude.Text.{Text, text_eq}
use charles_mcp.Prelude.Number.{str_nat, str_nat-injective}
use charles_mcp.Prelude.Dict.{Dict, insert, lookup-insert}
use charles_mcp.Json.{Value, Fields, obj, null}
use charles_mcp.LiveState.Entries.{
  Platform, is_control, count_of, key_of, iter_entries, unique_entries, fingerprint,
  fingerprint_components,
}
use charles_mcp.LiveState.Errors.{Result}
use charles_mcp.Prelude.Outcome.{
  ok, raise, ◌>>=◌, chain-parts, same_value, chain_assoc, chain-eq, chain-ok,
}
use charles_mcp.LiveState.Manager.{first_keys}

-- A hexadecimal digest holds no colon.
abbrev pub NoColon : Text → Type 0
NoColon t = contains t b':' ≡ false

abbrev pub IsHex : Platform → Type 0
IsHex pf = (t : Text) → NoColon (pf.sha1_hex t)

colon_split :
    (xs ys a b : Text)
    → NoColon xs
    → NoColon ys
    → xs ++ b':' ∷ a ≡ ys ++ b':' ∷ b
    → (xs ≡ ys) × (a ≡ b)
colon_split [] [] a b nx ny h = (refl, cc)
colon_split [] (y ∷ ys) a b nx ny h = absurd (let e : 58 ≡ y = cc in ground arith)
colon_split (x ∷ xs) [] a b nx ny h = absurd (let e : x ≡ 58 = cc in ground arith)
colon_split (x ∷ xs) (y ∷ ys) a b nx ny h =
    let (same, last) = colon_split xs ys a b (ground arith) (ground arith) (cc) in (cc, last)

key_of-injective :
    (p q : Text) (n m : ℕ) → NoColon p → NoColon q → key_of p n ≡ key_of q m → (p ≡ q) × (n ≡ m)
key_of-injective p q n m np nq h =
    let (same, last) = colon_split p q (str_nat n) (str_nat m) np nq h in
    (same, str_nat-injective n m last)

count_of-insert :
    (p q : Text) (n : ℕ) (counts : Dict Text ℕ)
    → count_of q (insert p n counts) ≡ (if p == q then n else count_of q counts)
count_of-insert p q n counts = rw (lookup-insert p q n counts, count_of) (ground arith)

-- The numbering alone, over entries that carry their fingerprints.
unfoldable pub number : Dict Text ℕ → List (Text × Fields) → List (Text × Fields)
number counts [] = []
number counts ((print, entry) ∷ ps) =
    let n = suc (count_of print counts) in
    (key_of print n, entry) ∷ number (insert print n counts) ps

abbrev pub DistinctKeys : List (Text × Fields) → Type 0
DistinctKeys [] = Unit
DistinctKeys ((k, e) ∷ ps) = (contains (first_keys ps) k ≡ false) × DistinctKeys ps

abbrev pub NoColons : List (Text × Fields) → Type 0
NoColons [] = Unit
NoColons ((print, e) ∷ ps) = NoColon print × NoColons ps

number-skips :
    (counts : Dict Text ℕ) (ps : List (Text × Fields)) (p : Text) (n : ℕ)
    → NoColon p
    → NoColons ps
    → n ≤ count_of p counts
    → contains (first_keys (number counts ps)) (key_of p n) ≡ false
unfolding number
number-skips counts [] p n np nps le = refl
number-skips counts ((q, e) ∷ ps) p n np (nq, nps) le =
    rw (eq_of_ne (key_of q (suc (count_of q counts))) (key_of p n) differs)
      (number-skips (insert q (suc (count_of q counts)) counts) ps p n np nps grown)
  where
    differs : key_of q (suc (count_of q counts)) ≢ key_of p n
    differs h =
        let (same, last) = key_of-injective q p (suc (count_of q counts)) n nq np h in
        absurd (omega (arith, last, ap (λ t. count_of t counts) same))

    grown : n ≤ count_of p (insert q (suc (count_of q counts)) counts)
    grown = ground (arith, count_of-insert q p (suc (count_of q counts)) counts, eq_iff q p)

number-DistinctKeys :
    (counts : Dict Text ℕ) (ps : List (Text × Fields))
    → NoColons ps
    → DistinctKeys (number counts ps)
unfolding number
number-DistinctKeys counts [] nps = tt
number-DistinctKeys counts ((q, e) ∷ ps) (nq, nps) =
    let n = suc (count_of q counts) in
    (
      number-skips (insert q n counts) ps q n nq nps
          (ground (arith, count_of-insert q q n counts, eq_refl q)),
      number-DistinctKeys (insert q n counts) ps nps,
    )

-- The keys of an export's first entries do not depend on what follows them.
pub number-append :
    (counts : Dict Text ℕ) (ps qs : List (Text × Fields))
    → (rest : List (Text × Fields)) × (number counts (ps ++ qs) ≡ number counts ps ++ rest)
unfolding number
number-append counts [] qs = (number counts qs, refl)
number-append counts ((p, e) ∷ ps) qs =
    let n = suc (count_of p counts) in
    let (rest, same) = number-append (insert p n counts) ps qs in
    (rest, ap (λ r. (key_of p n, e) ∷ r) same)

module _ (pf : Platform) where
  -- The entries that are kept, with their fingerprints.
  unfoldable pub printed : List Value → Result (List (Text × Fields))
  printed [] = ok []
  printed (obj entry ∷ raw) =
      let skipped = printed raw in
      let kept = (do
        print ← fingerprint pf entry
        rest ← printed raw
        ok ((print, entry) ∷ rest)) in
      if is_control entry then skipped else kept
  printed (_ ∷ raw) = printed raw

  numbered_step :
      (counts : Dict Text ℕ) (entry : Fields) (print : Text) (r : Result (List (Text × Fields)))
      → let n = suc (count_of print counts) in
        ((r >>= λ ps. ok (number (insert print n counts) ps)) >>= λ rest.
        ok ((key_of print n, entry) ∷ rest))
        ≡ ((r >>= λ rest. ok ((print, entry) ∷ rest)) >>= λ ps. ok (number counts ps))
  unfolding number
  numbered_step counts entry print (ok ps) = refl
  numbered_step counts entry print (raise e) = refl

  iter_entries-printed :
      (counts : Dict Text ℕ) (raw : List Value)
      → iter_entries pf counts raw ≡ (printed raw >>= λ ps. ok (number counts ps))
  unfolding iter_entries printed number
  iter_entries-printed counts [] = refl
  iter_entries-printed counts (obj entry ∷ raw) = elim (Bool-cases (is_control entry)) [
    | inl control ↦ rw control (iter_entries-printed counts raw)
    | inr other ↦ rw other (
        chain-eq (fingerprint pf entry) _ _ (λ print.
          let counts' = insert print (suc (count_of print counts)) counts in
          rw (iter_entries-printed counts' raw) (numbered_step counts entry print (printed raw)))
        ∙ sym (chain_assoc (fingerprint pf entry) _ _))
  ]
  iter_entries-printed counts (null ∷ raw) = iter_entries-printed counts raw
  iter_entries-printed counts (_ ∷ raw) = iter_entries-printed counts raw

  appended_step :
      (print : Text) (entry : Fields) (r s : Result (List (Text × Fields)))
      → ((r >>= λ ps. s >>= λ qs. ok (ps ++ qs)) >>= λ rest. ok ((print, entry) ∷ rest))
        ≡ ((r >>= λ rest. ok ((print, entry) ∷ rest)) >>= λ ps. s >>= λ qs. ok (ps ++ qs))
  appended_step print entry (ok ps) (ok qs) = refl
  appended_step print entry (ok ps) (raise e) = refl
  appended_step print entry (raise e) s = refl

  pub printed-append :
      (raw more : List Value)
      → printed (raw ++ more) ≡ (printed raw >>= λ ps. printed more >>= λ qs. ok (ps ++ qs))
  unfolding printed
  printed-append [] more = sym (chain-ok (printed more))
  printed-append (obj entry ∷ raw) more = elim (Bool-cases (is_control entry)) [
    | inl control ↦ rw control (printed-append raw more)
    | inr other ↦ rw other (
        chain-eq (fingerprint pf entry) _ _ (λ print.
          rw (printed-append raw more) (appended_step print entry (printed raw) (printed more)))
        ∙ sym (chain_assoc (fingerprint pf entry) _ _))
  ]
  printed-append (null ∷ raw) more = printed-append raw more
  printed-append (_ ∷ raw) more = printed-append raw more

  printed-NoColons :
      IsHex pf → (raw : List Value) (ps : List (Text × Fields)) → printed raw ≡ ok ps → NoColons ps
  unfolding printed fingerprint
  printed-NoColons hex [] ps h = subst NoColons (same_value h) tt
  printed-NoColons hex (obj entry ∷ raw) ps h = elim (Bool-cases (is_control entry)) [
    | inl control ↦ printed-NoColons hex raw ps (rw control at h)
    | inr other ↦
        let (print, made, more) = chain-parts (fingerprint pf entry) _ (rw other at h) in
        let (payload, joined, hashed) = chain-parts (fingerprint_components pf entry) _ made in
        let (rest, kept, built) = chain-parts (printed raw) _ more in
        subst NoColons (same_value built)
          (subst NoColon (same_value hashed) (hex payload), printed-NoColons hex raw rest kept)
  ]
  printed-NoColons hex (null ∷ raw) ps h = printed-NoColons hex raw ps h
  printed-NoColons hex (_ ∷ raw) ps h = printed-NoColons hex raw ps h

  -- The entries of an export have distinct keys, also where two entries have one fingerprint.
  pub unique_entries-DistinctKeys :
      IsHex pf
      → (raw : List Value) (prepared : List (Text × Fields)) → unique_entries pf raw ≡ ok prepared
      → DistinctKeys prepared
  unique_entries-DistinctKeys hex raw prepared h =
      let (ps, kept, built) = chain-parts (printed raw) _ (rw (iter_entries-printed [] raw) at h) in
      subst DistinctKeys (same_value built)
        (number-DistinctKeys [] ps (printed-NoColons hex raw ps kept))

  -- More traffic adds entries at the end: the keys of the earlier ones stay.
  pub unique_entries-append :
      (raw more : List Value) (before after : List (Text × Fields))
      → unique_entries pf raw ≡ ok before
      → unique_entries pf (raw ++ more) ≡ ok after
      → (added : List (Text × Fields)) × (after ≡ before ++ added)
  unique_entries-append raw more before after h k =
      let (ps, kept, built) = chain-parts (printed raw) _ (rw (iter_entries-printed [] raw) at h) in
      let (all, kept', built') =
        chain-parts (printed (raw ++ more)) _ (rw (iter_entries-printed [] (raw ++ more)) at k) in
      let (ps', first, second) =
        chain-parts (printed raw) _ (rw (printed-append raw more) at kept') in
      let (qs, last, joined) = chain-parts (printed more) _ second in
      let (added, split) = number-append [] ps qs in
      (
        added,
        sym (same_value built')
            ∙ ap (number [])
                (sym (same_value joined) ∙ ap (λ t. t ++ qs) (same_value (sym first ∙ kept)))
            ∙ split
            ∙ ap (λ t. t ++ added) (same_value built),
      )
