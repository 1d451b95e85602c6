-- ===== src/Dispatcher/Headers/Sent.antt =====
-- What the header lists hold, by name without regard to case.
use charles_mcp.Prelude.{
  ℕ, ◌+◌, ◌≡◌, refl, ◌∙◌, Bool, true, false, ◌&&◌, not, Option, none, some, List, [], ◌∷◌, ◌++◌,
  map, filter, contains, length, ltb, leb, All, ◌==◌, nat_eq, eq_iff, eq_refl, append-nil, arith,
  if◌then◌else◌,
}
use charles_mcp.Prelude.Text.{Text, codes, text_eq}
use charles_mcp.Prelude.Strings.{CaseTables}
use charles_mcp.Prelude.Dict.{Dict}
use charles_mcp.Prelude.Number.{str_nat}
use charles_mcp.Dispatcher.Headers.{
  Headers, drop_request, header_safe, lowered, without, override_headers, added,
  edit_request_headers, sent_headers, date_and_server,
}

abbrev pub ascii_lower : ℕ → ℕ
ascii_lower c = if leb b'A' c && leb c b'Z' then c + 32 else c

abbrev pub IsAscii : Text → Type 0
IsAscii = All (λ c. ltb c 128 ≡ true)

-- Python's `lower` on ASCII text.
pub record IsLower (tables : CaseTables) : Type 0 where
  pub on_ascii : (t : Text) → IsAscii t → tables.lower t ≡ map ascii_lower t

module _ (tables : CaseTables) where
  -- The values of the headers whose name, in lower case, is `name`.
  abbrev pub values_of : Text → Headers → List Text
  values_of name [] = []
  values_of name ((n, v) ∷ headers) =
      let rest = values_of name headers in if tables.lower n == name then v ∷ rest else rest

  pub values_of-append :
      (name : Text) (xs ys : Headers)
      → values_of name (xs ++ ys) ≡ values_of name xs ++ values_of name ys
  values_of-append name [] ys = refl
  values_of-append name ((n, v) ∷ xs) ys = ground (arith, values_of-append name xs ys)

  pub values_of-without :
      (name : Text) (names : List Text) (headers : Headers)
      → values_of name (without tables names headers)
        ≡ (if contains names name then [] else values_of name headers)
  unfolding without
  values_of-without name names [] = ground arith
  values_of-without name names ((n, v) ∷ headers) =
      ground (arith, values_of-without name names headers, eq_iff (tables.lower n) name)

  added-filter :
      (name : Text) (names : List Text) (edits : Dict Text (Option Text))
      → contains names name ≡ true
      → values_of name (added tables (filter (λ e. not (contains names (tables.lower e.0))) edits))
        ≡ []
  unfolding added
  added-filter name names [] managed = refl
  added-filter name names ((n, none) ∷ edits) managed =
      ground (arith, added-filter name names edits managed)
  added-filter name names ((n, some v) ∷ edits) managed =
      ground (arith, added-filter name names edits managed, eq_iff (tables.lower n) name)

  lowered-filter :
      (name : Text) (names : List Text) (edits : Dict Text (Option Text))
      → contains names name ≡ true
      → contains (lowered tables (filter (λ e. not (contains names (tables.lower e.0))) edits)) name
        ≡ false
  lowered-filter name names [] managed = refl
  lowered-filter name names ((n, v) ∷ edits) managed =
      ground (arith, lowered-filter name names edits managed, eq_iff (tables.lower n) name)

  values_of-edits :
      (name : Text) (names : List Text) (headers : Headers) (edits : Dict Text (Option Text))
      → contains names name ≡ true
      → values_of name (
          without tables
            (lowered tables (filter (λ e. not (contains names (tables.lower e.0))) edits))
            headers
          ++ added tables (filter (λ e. not (contains names (tables.lower e.0))) edits))
        ≡ values_of name headers
  values_of-edits name names headers edits managed =
      let others = filter (λ e. not (contains names (tables.lower e.0))) edits in
      values_of-append name (without tables (lowered tables others) headers) (added tables others)
      ∙ rw
          (
            values_of-without name (lowered tables others) headers,
            lowered-filter name names edits managed,
            added-filter name names edits managed,
          )
          (append-nil (values_of name headers))

  -- The edits of a rule leave the values of each header that the dispatcher manages as they were.
  pub values_of-edit_request_headers :
      (name : Text) (headers : Headers) (edits : Dict Text (Option Text))
      → contains drop_request name ≡ true
      → values_of name (edit_request_headers tables headers edits).0 ≡ values_of name headers
  unfolding edit_request_headers
  values_of-edit_request_headers name headers edits managed =
      values_of-edits name drop_request headers edits managed

  values_of-lowered :
      (name : Text) (overrides : Dict Text Text)
      → contains (lowered tables overrides) name ≡ false
      → values_of name overrides ≡ []
  values_of-lowered name [] h = refl
  values_of-lowered name ((n, v) ∷ overrides) h = ground (arith, values_of-lowered name overrides)

  -- Overrides that do not name a header leave its values as they were, and overrides that do leave
  -- only their own, names compared in lower case.
  pub values_of-override_headers :
      (name : Text) (headers : Headers) (overrides : Dict Text Text)
      → values_of name (override_headers tables headers overrides) ≡ (
          if contains (lowered tables overrides) name
          then values_of name overrides
          else values_of name headers)
  unfolding override_headers
  values_of-override_headers name headers [] = refl
  values_of-override_headers name headers (o ∷ overrides) = ground (
    arith,
    values_of-append name (without tables (lowered tables (o ∷ overrides)) headers) (o ∷ overrides),
    values_of-without name (lowered tables (o ∷ overrides)) headers,
    values_of-lowered name (o ∷ overrides),
    append-nil (values_of name headers),
  )

  values_of-safe :
      (name : Text) (headers : Headers)
      → values_of name headers ≡ []
      → values_of name (map (λ h. (h.0, header_safe h.1)) headers) ≡ []
  values_of-safe name [] h = refl
  values_of-safe name ((n, v) ∷ headers) h = ground (arith, values_of-safe name headers)

  values_of-other :
      (name other : Text) (values : List Text)
      → (tables.lower other == name) ≡ false
      → values_of name (map (λ v. (other, header_safe v)) values) ≡ []
  values_of-other name other [] h = refl
  values_of-other name other (v ∷ values) h = rw h (values_of-other name other values h)

  module _ (l : IsLower tables) where
    lower_length : (tables.lower (codes "Content-Length") == codes "content-length") ≡ true
    lower_length =
        rw (l.on_ascii (codes "Content-Length") (ground arith)) (eq_refl (codes "content-length"))

    abbrev content_length : Text
    content_length = codes "content-length"

    other_name :
        (t : Text)
        → IsAscii t
        → (map ascii_lower t == content_length) ≡ false
        → (tables.lower t == content_length) ≡ false
    other_name t ascii differs = rw (l.on_ascii t ascii) differs

    lower_date : (tables.lower (codes "Date") == content_length) ≡ false
    lower_date = other_name (codes "Date") (ground arith) (unfold text_eq in refl)

    lower_server : (tables.lower (codes "Server") == content_length) ≡ false
    lower_server = other_name (codes "Server") (ground arith) (unfold text_eq in refl)

    lower_rule : (tables.lower (codes "X-Charles-MCP-Rule") == content_length) ≡ false
    lower_rule = other_name (codes "X-Charles-MCP-Rule") (ground arith) (unfold text_eq in refl)

    lower_warning : (tables.lower (codes "X-Charles-MCP-Warning") == content_length) ≡ false
    lower_warning =
        other_name (codes "X-Charles-MCP-Warning") (ground arith) (unfold text_eq in refl)

    values_of-date_and_server :
        (date : Text) (headers : Headers)
        → values_of content_length (date_and_server tables date headers) ≡ []
    values_of-date_and_server date headers =
        by_tests (contains (map (λ h. tables.lower h.0) headers) (codes "date"))
          (contains (map (λ h. tables.lower h.0) headers) (codes "server"))
      where
        by_tests :
            (a b : Bool)
            → values_of content_length (
                (if a then [] else (codes "Date", date) ∷ [])
                ++ (if b then [] else (codes "Server", codes "charles-mcp-dispatcher") ∷ []))
              ≡ []
        by_tests true true = refl
        by_tests true false = rw lower_server
        by_tests false true = rw lower_date
        by_tests false false = rw (lower_date, lower_server)

    -- A response has one Content-Length, the number of bytes of its body.
    pub values_of-sent_headers :
        (date : Text) (headers : Headers) (body : List ℕ) (rule_label : Text) (warnings : List Text)
        → values_of (codes "content-length") headers ≡ []
        → values_of
            (codes "content-length")
            (sent_headers tables date headers body rule_label warnings)
          ≡ str_nat (length body) ∷ []
    unfolding sent_headers
    values_of-sent_headers date headers body rule_label warnings none_yet =
        let warned =
          map (λ warning. (codes "X-Charles-MCP-Warning", header_safe warning)) warnings in
        let tail : Headers =
          (codes "Content-Length", str_nat (length body))
          ∷ (codes "X-Charles-MCP-Rule", rule_label)
          ∷ warned in
        let safe = map (λ h. (h.0, header_safe h.1)) headers in
        let front : values_of content_length (date_and_server tables date headers ++ safe) ≡ [] =
          values_of-append content_length (date_and_server tables date headers) safe
          ∙ rw (values_of-date_and_server date headers)
              (values_of-safe content_length headers none_yet) in
        values_of-append content_length (date_and_server tables date headers ++ safe) tail
        ∙ rw (
          front,
          lower_length,
          lower_rule,
          values_of-other content_length (codes "X-Charles-MCP-Warning") warnings lower_warning,
        )
