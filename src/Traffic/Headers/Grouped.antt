-- ===== src/Traffic/Headers/Grouped.antt =====
-- The header map against the list of headers, and the size of the highlights.
use charles_mcp.Prelude.{
  ◌≡◌, refl, sym, ◌∙◌, Option, none, some, List, [], ◌∷◌, ◌++◌, ◌==◌, Bool-cases, if◌then◌else◌,
  inl, inr, eq_iff, arith, append-nil,
}
use charles_mcp.Prelude.Text.{Text, text_eq}
use charles_mcp.Prelude.Strings.{CaseTables}
use charles_mcp.Prelude.Dict.{lookup, lookup-insert}
use charles_mcp.Prelude.Outcome.{ok, always_ok, chain-Always}
use charles_mcp.Json.{Value}
use charles_mcp.LiveState.Entries.{Platform}
use charles_mcp.Traffic.Schema.{HeaderKv, or_empty}
use charles_mcp.Traffic.Headers.{
  HeaderMap, values_or_none, add_value, header_of, raw_items, collect_headers, normalize_headers,
}

-- The values of the headers of one name, in order.
abbrev pub values_named : Text → List HeaderKv → List Text
values_named k [] = []
values_named k (h ∷ hs) =
    let rest = values_named k hs in if h.lower_name == k then or_empty h.value ∷ rest else rest

abbrev pub none_if_empty : List Text → Option (List Text)
none_if_empty [] = none
none_if_empty (v ∷ vs) = some (v ∷ vs)

abbrev pub IsGrouped : List HeaderKv → HeaderMap → Type 0
IsGrouped hs header_map = (k : Text) → lookup k header_map ≡ none_if_empty (values_named k hs)

values_named-append :
    (k : Text) (hs : List HeaderKv) (h : HeaderKv)
    → values_named k (hs ++ h ∷ [])
      ≡ values_named k hs ++ (if h.lower_name == k then or_empty h.value ∷ [] else [])
values_named-append k [] h = refl
values_named-append k (g ∷ hs) h = ground (arith, values_named-append k hs h)

values_back : (vs : List Text) → values_or_none (none_if_empty vs) ≡ vs
values_back [] = refl
values_back (v ∷ vs) = refl

some_append : (vs : List Text) (v : Text) → none_if_empty (vs ++ v ∷ []) ≡ some (vs ++ v ∷ [])
some_append [] v = refl
some_append (w ∷ vs) v = refl

add_value-IsGrouped :
    (hs : List HeaderKv) (header_map : HeaderMap) (h : HeaderKv)
    → IsGrouped hs header_map
    → IsGrouped (hs ++ h ∷ []) (add_value h.lower_name (or_empty h.value) header_map)
add_value-IsGrouped hs header_map h g k =
    lookup-insert h.lower_name k
      (values_or_none (lookup h.lower_name header_map) ++ or_empty h.value ∷ []) header_map
    ∙ elim (Bool-cases (h.lower_name == k)) [
      | inl hit ↦
          rw
            (
              values_named-append k hs h,
              hit,
              (eq_iff h.lower_name k).0 hit,
              g k,
              values_back (values_named k hs),
            )
            (sym (some_append (values_named k hs) (or_empty h.value)))
      | inr miss ↦ rw (values_named-append k hs h, miss, append-nil (values_named k hs)) (g k)
    ]

collect_headers-IsGrouped :
    (pf : Platform) (ct : CaseTables) (hs : List HeaderKv) (header_map : HeaderMap)
    (raws : List Value)
    → IsGrouped hs header_map
    → IsGrouped
        (collect_headers pf ct hs header_map raws).0
        (collect_headers pf ct hs header_map raws).1
unfolding collect_headers
collect_headers-IsGrouped pf ct hs header_map [] g = g
collect_headers-IsGrouped pf ct hs header_map (raw ∷ raws) g =
    by_header (header_of pf ct raw) (collect_headers-IsGrouped pf ct hs header_map raws g) (λ h.
      collect_headers-IsGrouped pf ct (hs ++ h ∷ [])
        (add_value h.lower_name (or_empty h.value) header_map) raws
        (add_value-IsGrouped hs header_map h g))
  where
    next : Option HeaderKv → List HeaderKv × HeaderMap
    next o = elim o [
      | none ↦ collect_headers pf ct hs header_map raws
      | some h ↦
          collect_headers pf ct (hs ++ h ∷ [])
            (add_value h.lower_name (or_empty h.value) header_map) raws
    ]

    by_header :
        (o : Option HeaderKv)
        → IsGrouped (next none).0 (next none).1
        → ((h : HeaderKv) → IsGrouped (next (some h)).0 (next (some h)).1)
        → IsGrouped (next o).0 (next o).1
    by_header none skipped kept = skipped
    by_header (some h) skipped kept = kept h

-- The map of the normalized headers has, under each lower-case name, the values of the headers of
-- that name in their order, and no other name.
pub normalize_headers-IsGrouped :
    (pf : Platform) (ct : CaseTables) (raw : Option Value) (hs : List HeaderKv)
    (header_map : HeaderMap)
    → normalize_headers pf ct raw ≡ ok (hs, header_map)
    → IsGrouped hs header_map
unfolding normalize_headers lookup
normalize_headers-IsGrouped pf ct raw hs header_map =
    always_ok (λ r. IsGrouped r.0 r.1) (normalize_headers pf ct raw)
      (chain-Always (λ r. IsGrouped r.0 r.1) (raw_items pf ct raw) _
        (λ raws. collect_headers-IsGrouped pf ct [] [] raws (λ k. refl)))
