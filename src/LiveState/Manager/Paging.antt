-- ===== src/LiveState/Manager/Paging.antt =====
-- Reads of one export, page after page, and reads that only look.
use charles_mcp.Prelude.{
  ℕ, zero, suc, ◌+◌, ◌*◌, ◌≡◌, refl, ap, sym, ◌∙◌, true, false, Option, none, some, List, [], ◌∷◌,
  ◌++◌, length, append-nil, subst, take, drop, Bool-cases, inl, inr,
}
use native.Mathlib.Nat.{zero-add, suc-add, zero-mul, suc-mul, add_comm}
use charles_mcp.Prelude.Text.{Text, text_eq}
use charles_mcp.Prelude.Int.{ℤ, is_positive, clamp_zero}
use charles_mcp.Json.{Value, Fields}
use charles_mcp.LiveState.Entries.{Platform, unique_entries}
use charles_mcp.LiveState.Errors.{Result}
use charles_mcp.Prelude.Outcome.{ok, raise, ◌>>=◌, same_value, chain-eq}
use charles_mcp.LiveState.Manager.Numbering.{IsHex}
use charles_mcp.LiveState.Manager.Synced.{Synced, Keeps, read-grown, read-succeeds}
use charles_mcp.LiveState.Manager.{
  entries_of, Warning, Capture, ReadResult, Manager, require, recording_warning, read,
}

abbrev pub shown : Result (ReadResult × Manager) → Result ReadResult
shown (ok (r, m)) = ok r
shown (raise e) = raise e

-- The result beside an unchanged manager.
abbrev pub kept : Manager → ReadResult → Result (ReadResult × Manager)
kept m r = ok (r, m)

module _ {ℓ} {A : Type ℓ} where
  take-nil : (n : ℕ) → take {A = A} n [] ≡ []
  take-nil zero = refl
  take-nil (suc n) = refl

  drop-nil : (n : ℕ) → drop {A = A} n [] ≡ []
  drop-nil zero = refl
  drop-nil (suc n) = refl

  take-drop-join : (m n : ℕ) (xs : List A) → take m xs ++ take n (drop m xs) ≡ take (m + n) xs
  take-drop-join zero n xs = rw zero-add
  take-drop-join (suc m) n [] = rw (take-nil n, take-nil (suc m + n))
  take-drop-join (suc m) n (x ∷ xs) = rw (suc-add m n) (ap (λ t. x ∷ t) (take-drop-join m n xs))

  drop-drop : (m n : ℕ) (xs : List A) → drop (m + n) xs ≡ drop n (drop m xs)
  drop-drop zero n xs = rw zero-add
  drop-drop (suc m) n [] = rw (drop-nil n, drop-nil (suc m + n))
  drop-drop (suc m) n (x ∷ xs) = rw (suc-add m n) (drop-drop m n xs)

  -- Past a page that the list's end has cut short there is nothing, as past a full page's limit.
  drop-length-take : (n : ℕ) (xs : List A) → drop (length (take n xs)) xs ≡ drop n xs
  drop-length-take zero xs = refl
  drop-length-take (suc n) [] = refl
  drop-length-take (suc n) (x ∷ xs) = drop-length-take n xs

  paging_step :
      (xs : List A) (base limit n : ℕ) (next : ℕ)
      → next ≡ base + length (take limit (drop base xs))
      → take limit (drop base xs) ++ take (n * limit) (drop next xs)
        ≡ take (suc n * limit) (drop base xs)
  paging_step xs base limit n next at =
      rw
        (
          at,
          drop-drop base (length (take limit (drop base xs))) xs,
          drop-length-take limit (drop base xs),
        )
        (rw (take-drop-join limit (n * limit) (drop base xs), suc-mul n limit)
          (ap (λ t. take t (drop base xs)) (add_comm limit (n * limit))))

shown_bind {ℓ} :
    {A : Type ℓ} (m : Result A) (f : A → Result (ReadResult × Manager)) (k : Manager)
    → (shown (m >>= f) >>= kept k) ≡ (m >>= λ a. shown (f a) >>= kept k)
shown_bind (ok a) f k = refl
shown_bind (raise e) f k = refl

poll_step :
    (limit : ℤ) (n : ℕ) (c k : Capture) (first : ReadResult × Manager)
    → k.items ≡ c.items
    → first.0.items ≡ take (clamp_zero limit) (drop c.cursor k.items)
    → k.cursor ≡ c.cursor + length first.0.items
    → first.0.items ++ take (n * clamp_zero limit) (drop k.cursor k.items)
      ≡ take (suc n * clamp_zero limit) (drop c.cursor c.items)
poll_step limit n c k first items shows moved =
    ap (λ (a : List Fields). a ++ take (n * clamp_zero limit) (drop k.cursor k.items)) shows
    ∙ paging_step k.items c.cursor (clamp_zero limit) n k.cursor
        (moved ∙ ap (λ (t : List Fields). c.cursor + length t) shows)
    ∙ ap (λ (t : List Fields). take (suc n * clamp_zero limit) (drop c.cursor t)) items

module _ (pf : Platform) where
  -- A read that does not advance shows what an advancing read would show, and changes nothing.
  pub read_peek :
      (id : Text) (raw : List Value) (cursor : Option ℤ) (limit : ℤ) (m : Manager)
      → read pf id raw cursor limit false m
        ≡ (shown (read pf id raw cursor limit true m) >>= kept m)
  unfolding read
  read_peek id raw cursor limit m =
      chain-eq (require id m) _ _ (λ c. elim (Bool-cases (is_positive limit)) [
        | inr bad ↦ rw bad
        | inl good ↦ rw good (
            chain-eq (unique_entries pf raw) _ _ (λ prepared.
              chain-eq (recording_warning pf raw) _ _ (λ own. refl)
              ∙ sym (shown_bind (recording_warning pf raw) _ m))
            ∙ sym (shown_bind (unique_entries pf raw) _ m))
      ])
      ∙ sym (shown_bind (require id m) _ m)

  -- `n` reads in a row of one export, and all that they return.
  pub poll : ℕ → Text → List Value → ℤ → Manager → Result (List Fields × Manager)
  poll zero id raw limit m = ok ([], m)
  poll (suc n) id raw limit m = read pf id raw none limit true m >>= λ first.
      poll n id raw limit first.1 >>= λ rest. ok (first.0.items ++ rest.0, rest.1)

  same_items :
      (raw : List Value) (c d : Capture) → Synced pf raw c → Synced pf raw d → d.items ≡ c.items
  same_items raw c d s t =
      t.entries ∙ ap entries_of (same_value (sym t.exported ∙ s.exported)) ∙ sym s.entries

  poll-suc :
      (n : ℕ) (id : Text) (raw : List Value) (limit : ℤ) (c k : Capture)
      (first : ReadResult × Manager) (rest : List Fields) (m : Manager)
      → read pf id raw none limit true (some c) ≡ ok first
      → first.1 ≡ some k
      → poll n id raw limit (some k) ≡ ok (rest, m)
      → poll (suc n) id raw limit (some c) ≡ ok (first.0.items ++ rest, m)
  unfolding poll
  poll-suc n id raw limit c k first rest m got stored later = rw (got, stored, later)

  -- Reading one export again and again returns its items in order, page after page, without a
  -- gap or a repetition, from the cursor on: `n` reads return the first `n * limit` of them. The
  -- reads succeed if the limit is positive and the export is well formed.
  pub poll-take :
      IsHex pf
      → (n : ℕ) (id : Text) (raw : List Value) (limit : ℤ) (c : Capture) (own : List Warning)
      → Synced pf raw c
      → c.capture_id ≡ id
      → is_positive limit ≡ true
      → recording_warning pf raw ≡ ok own
      → (m : Manager) × (poll n id raw limit (some c)
          ≡ ok (take (n * clamp_zero limit) (drop c.cursor c.items), m))
  unfolding poll
  poll-take hex zero id raw limit c own s named positive warned = (some c, rw zero-mul)
  poll-take hex (suc n) id raw limit c own s named positive warned =
      let (first, got) =
        read-succeeds pf id raw none limit true c s.prepared own named positive s.exported warned in
      let k =
        subst (λ t. Keeps pf t c.capture_id c.cursor (clamp_zero limit) first) (append-nil raw)
          (read-grown pf hex id raw [] none limit c first s (
            subst (λ t. read pf id t none limit true (some c) ≡ ok first) (sym (append-nil raw))
              got)) in
      let (m, later) =
        poll-take hex n id raw limit k.capture own k.synced (k.named ∙ named) positive warned in
      (
        m,
        poll-suc n id raw limit c k.capture first _ m got k.stored later
            ∙ ap (λ (t : List Fields). ok (t, m))
                (poll_step limit n c k.capture first (same_items raw c k.capture s k.synced) k.shown
                  k.moved),
      )
