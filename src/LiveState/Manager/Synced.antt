-- ===== src/LiveState/Manager/Synced.antt =====
-- A capture that holds the session export it was last read from, and the reads that keep it so.
use charles_mcp.Prelude.{
  ℕ, zero, ◌+◌, ◌<◌, ltb, lt→ltb, take, drop, sym, subst, ◌≡◌, refl, ap, ◌∙◌, Bool, true, false,
  Option, some, List, [], ◌∷◌, ◌++◌, append-nil, append_assoc, arith, inl, inr, Bool-cases, ◌==◌,
  length, length-append, contains, contains-append, eq_iff, eq_refl, if◌then◌else◌,
}
use charles_mcp.Prelude.Text.{Text, text_eq}
use charles_mcp.Prelude.Int.{ℤ, is_positive, clamp_zero}
use charles_mcp.Json.{Value, Fields}
use charles_mcp.LiveState.Entries.{Platform, unique_entries}
use charles_mcp.Prelude.Outcome.{ok, chain-parts, same_value}
use charles_mcp.LiveState.Manager.{
  Capture, ReadResult, Manager, Warning, first_keys, entries_of, merge, base_cursor, working, page,
  advanced, require, recording_warning, read, reset_detected, session_reset_detected, Working,
}
use charles_mcp.LiveState.Manager.Numbering.{
  IsHex, DistinctKeys, unique_entries-DistinctKeys, unique_entries-append,
}

first_keys-append :
    (ps qs : List (Text × Fields)) → first_keys (ps ++ qs) ≡ first_keys ps ++ first_keys qs
first_keys-append [] qs = refl
first_keys-append ((k, e) ∷ ps) qs = ap (λ t. k ∷ t) (first_keys-append ps qs)

entries_of-append :
    (ps qs : List (Text × Fields)) → entries_of (ps ++ qs) ≡ entries_of ps ++ entries_of qs
entries_of-append [] qs = refl
entries_of-append ((k, e) ∷ ps) qs = ap (λ t. e ∷ t) (entries_of-append ps qs)

-- A key that comes later is not among the earlier ones.
later_key :
    (ps : List (Text × Fields)) (k : Text) (e : Fields) (qs : List (Text × Fields))
    → DistinctKeys (ps ++ (k, e) ∷ qs)
    → contains (first_keys ps) k ≡ false
later_key [] k e qs d = refl
later_key ((j, f) ∷ ps) k e qs (fresh, d) = ground (
  arith,
  later_key ps k e qs d,
  first_keys-append ps ((k, e) ∷ qs),
  contains-append (first_keys ps) (first_keys ((k, e) ∷ qs)) j,
  eq_iff k j,
  eq_iff j k,
  eq_refl k,
)

merge-fresh :
    (ps qs : List (Text × Fields))
    → DistinctKeys (ps ++ qs)
    → merge (first_keys ps) (entries_of ps) qs ≡ (first_keys (ps ++ qs), entries_of (ps ++ qs))
unfolding merge
merge-fresh ps [] d = rw append-nil refl
merge-fresh ps ((k, e) ∷ qs) d =
    rw
      (
        later_key ps k e qs d,
        ← first_keys-append ps ((k, e) ∷ []),
        ← entries_of-append ps ((k, e) ∷ []),
      )
      (rw (merge-fresh (ps ++ (k, e) ∷ []) qs (rw append_assoc d)) (rw append_assoc refl))

merge-known :
    (seen : List Text) (items : List Fields) (ps qs : List (Text × Fields))
    → ((k : Text) → contains (first_keys ps) k ≡ true → contains seen k ≡ true)
    → merge seen items (ps ++ qs) ≡ merge seen items qs
unfolding merge
merge-known seen items [] qs known = refl
merge-known seen items ((k, e) ∷ ps) qs known =
    rw (known k (ground (arith, eq_refl k)))
      (merge-known seen items ps qs (λ j h. known j (ground arith)))

-- Merging an export into a capture that holds its first part adds the rest, each entry once.
merge-append :
    (ps qs : List (Text × Fields))
    → DistinctKeys (ps ++ qs)
    → merge (first_keys ps) (entries_of ps) (ps ++ qs)
      ≡ (first_keys (ps ++ qs), entries_of (ps ++ qs))
merge-append ps qs d =
    merge-known (first_keys ps) (entries_of ps) ps qs (λ k h. h) ∙ merge-fresh ps qs d

-- The two outcomes of `working`, for a capture that holds the first part of the export.
working-grown :
    (c : Capture) (base : ℕ) (ps qs : List (Text × Fields)) (own : List Warning)
    → DistinctKeys (ps ++ qs)
    → c.seen_keys ≡ first_keys ps
    → c.items ≡ entries_of ps
    → c.last_export_count ≡ length ps
    → working c base (ps ++ qs) own ≡ record {
      status = c.status;
      warnings = own;
      seen_keys = first_keys (ps ++ qs);
      items = entries_of (ps ++ qs);
      base = base;
    }
unfolding working
working-grown c base ps qs own d keys entries count =
    rw (keys, entries, merge-append ps qs d, not_shorter)
  where
    not_shorter : ltb (length (ps ++ qs)) c.last_export_count ≡ false
    not_shorter = ground (arith, length-append ps qs)

working-reset :
    (c : Capture) (base : ℕ) (ps : List (Text × Fields)) (own : List Warning)
    → DistinctKeys ps
    → length ps < c.last_export_count
    → working c base ps own ≡ record {
      status = reset_detected;
      warnings = session_reset_detected ∷ own;
      seen_keys = first_keys ps;
      items = entries_of ps;
      base = zero;
    }
unfolding working
working-reset c base ps own d fewer =
    rw (lt→ltb (length ps) c.last_export_count fewer, merge-fresh [] ps d)

page_status :
    (id : Text) (limit : ℕ) (w v : Working) (m : Manager) (out : ReadResult × Manager)
    → (page id limit w, m) ≡ out
    → w ≡ v
    → out.0.status ≡ v.status
unfolding page
page_status id limit w v m out result same =
    ap (λ (o : ReadResult × Manager). o.0.status) (sym result) ∙ ap (λ (u : Working). u.status) same

module _ (pf : Platform) where
  pub record Synced (raw : List Value) (c : Capture) : Type 0 where
    pub prepared : List (Text × Fields)
    pub exported : unique_entries pf raw ≡ ok prepared
    pub keys : c.seen_keys ≡ first_keys prepared
    pub entries : c.items ≡ entries_of prepared
    pub count : c.last_export_count ≡ length prepared

  -- A successful read, taken apart.
  pub record Reads (raw : List Value) (cursor : Option ℤ) (limit : ℤ) (advance : Bool) (c : Capture)
      (m : Manager) (out : ReadResult × Manager) : Type 0 where
    pub prepared : List (Text × Fields)
    pub own : List Warning
    pub positive : is_positive limit ≡ true
    pub exported : unique_entries pf raw ≡ ok prepared
    pub result :
        let w = working c (base_cursor cursor c) prepared own in
        let r = page c.capture_id (clamp_zero limit) w in
        (r, if advance then some (advanced c (length prepared) w r) else m) ≡ out

  pub read-Reads :
      (id : Text) (raw : List Value) (cursor : Option ℤ) (limit : ℤ) (advance : Bool) (c : Capture)
      (out : ReadResult × Manager)
      → read pf id raw cursor limit advance (some c) ≡ ok out
      → Reads raw cursor limit advance c (some c) out
  unfolding read require
  read-Reads id raw cursor limit advance c out h = elim (Bool-cases (c.capture_id == id)) [
    | inr other ↦ absurd (cc (rw other at h))
    | inl same ↦ elim (Bool-cases (is_positive limit)) [
      | inr bad ↦ absurd (cc (rw (same, bad) at h))
      | inl good ↦
          let (prepared, exported, more) =
            chain-parts (unique_entries pf raw) _ (rw (same, good) at h) in
          let (own, warned, built) = chain-parts (recording_warning pf raw) _ more in
          record {
            prepared = prepared;
            own = own;
            positive = good;
            exported = exported;
            result = same_value built;
          }
    ]
  ]

  -- What an advancing read leaves: a capture that holds the export, and a page of its items.
  pub record Keeps (raw : List Value) (id : Text) (base limit : ℕ) (out : ReadResult × Manager)
      : Type 0 where
    pub capture : Capture
    pub stored : out.1 ≡ some capture
    pub synced : Synced raw capture
    pub shown : out.0.items ≡ take limit (drop base capture.items)
    pub named : capture.capture_id ≡ id
    pub moved : capture.cursor ≡ base + length out.0.items

  read-Keeps :
      (raw : List Value) (c : Capture) (prepared : List (Text × Fields)) (limit : ℕ) (w : Working)
      (out : ReadResult × Manager)
      → unique_entries pf raw ≡ ok prepared
      → w.seen_keys ≡ first_keys prepared
      → w.items ≡ entries_of prepared
      → (let r = page c.capture_id limit w in (r, some (advanced c (length prepared) w r))) ≡ out
      → Keeps raw c.capture_id w.base limit out
  unfolding page advanced
  read-Keeps raw c prepared limit w out exported keys entries result = record {
    capture = advanced c (length prepared) w (page c.capture_id limit w);
    stored = ap (λ (o : ReadResult × Manager). o.1) (sym result);
    synced = record {
      prepared = prepared;
      exported = exported;
      keys = keys;
      entries = entries;
      count = refl;
    };
    shown = ap (λ (o : ReadResult × Manager). o.0.items) (sym result);
    named = refl;
    moved = ap (λ (o : ReadResult × Manager). w.base + length o.0.items) result;
  }

  -- Reading an export that goes on from the last one neither loses nor repeats an entry.
  pub read-grown :
      IsHex pf
      → (id : Text) (raw more : List Value) (cursor : Option ℤ) (limit : ℤ) (c : Capture)
        (out : ReadResult × Manager)
      → Synced raw c
      → read pf id (raw ++ more) cursor limit true (some c) ≡ ok out
      → Keeps (raw ++ more) c.capture_id (base_cursor cursor c) (clamp_zero limit) out
  read-grown hex id raw more cursor limit c out s h =
      let r = read-Reads id (raw ++ more) cursor limit true c out h in
      let (added, grown) =
        unique_entries-append pf raw more s.prepared r.prepared s.exported r.exported in
      let w =
        working-grown c (base_cursor cursor c) s.prepared added r.own
          (subst DistinctKeys grown
            (unique_entries-DistinctKeys pf hex (raw ++ more) r.prepared r.exported))
          s.keys s.entries s.count in
      let base = base_cursor cursor c in
      let same = ap (λ t. working c base t r.own) grown ∙ w in
      subst (λ b. Keeps (raw ++ more) c.capture_id b (clamp_zero limit) out)
        (ap (λ (v : Working). v.base) same)
        (read-Keeps (raw ++ more) c r.prepared (clamp_zero limit) (working c base r.prepared r.own)
          out r.exported (ap (λ (v : Working). v.seen_keys) same ∙ ap first_keys (sym grown))
          (ap (λ (v : Working). v.items) same ∙ ap entries_of (sym grown)) r.result)

  -- An export with fewer entries than the last one is a new session: the capture starts again
  -- with it, from its first entry, and says so.
  pub read-reset :
      IsHex pf
      → (id : Text) (raw : List Value) (prepared : List (Text × Fields)) (cursor : Option ℤ)
        (limit : ℤ) (c : Capture) (out : ReadResult × Manager)
      → unique_entries pf raw ≡ ok prepared
      → length prepared < c.last_export_count
      → read pf id raw cursor limit true (some c) ≡ ok out
      → Keeps raw c.capture_id zero (clamp_zero limit) out × (out.0.status ≡ reset_detected)
  read-reset hex id raw prepared cursor limit c out exported fewer h =
      let r = read-Reads id raw cursor limit true c out h in
      let now = same_value (sym r.exported ∙ exported) in
      let base = base_cursor cursor c in
      let same =
        working-reset c base r.prepared r.own
          (unique_entries-DistinctKeys pf hex raw r.prepared r.exported)
          (subst (λ t. length t < c.last_export_count) (sym now) fewer) in
      (
        subst (λ b. Keeps raw c.capture_id b (clamp_zero limit) out)
            (ap (λ (v : Working). v.base) same)
            (read-Keeps raw c r.prepared (clamp_zero limit) (working c base r.prepared r.own) out
              r.exported (ap (λ (v : Working). v.seen_keys) same)
              (ap (λ (v : Working). v.items) same) r.result),
        page_status c.capture_id (clamp_zero limit) _ _ _ out r.result same,
      )

  -- The read succeeds on every capture that is asked for by its name with a positive limit.
  pub read-succeeds :
      (id : Text) (raw : List Value) (cursor : Option ℤ) (limit : ℤ) (advance : Bool) (c : Capture)
      (prepared : List (Text × Fields)) (own : List Warning)
      → c.capture_id ≡ id
      → is_positive limit ≡ true
      → unique_entries pf raw ≡ ok prepared
      → recording_warning pf raw ≡ ok own
      → (out : ReadResult × Manager) × (read pf id raw cursor limit advance (some c) ≡ ok out)
  read-succeeds id raw cursor limit advance c prepared own named positive exported warned =
      let w = working c (base_cursor cursor c) prepared own in
      let r = page c.capture_id (clamp_zero limit) w in
      (
        (r, if advance then some (advanced c (length prepared) w r) else some c),
        unfold read require in rw ((eq_iff c.capture_id id).1 named, positive, exported, warned),
      )
