-- ===== src/Dispatcher/Headers.antt =====
-- The header lists of the dispatcher: what is dropped, overridden, edited and sent.
pub mod Sent
use charles_mcp.Prelude.{
  ℕ, Bool, true, false, ◌&&◌, ◌||◌, not, Option, none, some, List, [], ◌∷◌, ◌++◌, map, filter,
  contains, ltb, ◌==◌, nat_eq, if◌then◌else◌,
}
use charles_mcp.Prelude.Text.{Text, codes, text_eq}
use charles_mcp.Prelude.Strings.{CaseTables}
use charles_mcp.Prelude.Dict.{Dict, keys}
use charles_mcp.Prelude.Number.{str_nat}
use charles_mcp.Prelude.Order.{compare_text}
use charles_mcp.Prelude.Sort.{sort}
use charles_mcp.Prelude.{length}

abbrev pub Headers : Type 0
Headers = List (Text × Text)

abbrev pub hop_by_hop : List Text
hop_by_hop =
    codes "connection"
    ∷ codes "keep-alive"
    ∷ codes "proxy-authenticate"
    ∷ codes "proxy-authorization"
    ∷ codes "proxy-connection"
    ∷ codes "te"
    ∷ codes "trailer"
    ∷ codes "trailers"
    ∷ codes "transfer-encoding"
    ∷ codes "upgrade"
    ∷ []

abbrev pub drop_request : List Text
drop_request = codes "host" ∷ codes "content-length" ∷ hop_by_hop

abbrev pub drop_response : List Text
drop_response = codes "content-length" ∷ codes "content-encoding" ∷ hop_by_hop

-- `value.encode("ascii", errors="replace")` with CR and LF made spaces.
abbrev safe_char : ℕ → ℕ
safe_char c = if c == 13 || c == 10 then 32 else if ltb c 128 then c else b'?'

unfoldable pub header_safe : Text → Text
header_safe value = map safe_char value

module _ (tables : CaseTables) where
  -- `name.lower() in names`
  abbrev pub named_in : List Text → Text × Text → Bool
  named_in names header = contains names (tables.lower header.0)

  -- `{name.lower() for name in overrides}`
  abbrev pub lowered {ℓ} : {V : Type ℓ} → Dict Text V → List Text
  lowered d = map tables.lower (keys d)

  -- `[(name, value) for ... if name.lower() not in names]`
  unfoldable pub without : List Text → Headers → Headers
  without names headers = filter (λ h. not (named_in names h)) headers

  -- `_override_headers`
  unfoldable pub override_headers : Headers → Dict Text Text → Headers
  override_headers headers [] = headers
  override_headers headers (o ∷ overrides) =
      without (lowered (o ∷ overrides)) headers ++ o ∷ overrides

  -- The edits that are applied: not to the headers that the dispatcher manages.
  unfoldable pub applied_edits : Dict Text (Option Text) → Dict Text (Option Text)
  applied_edits edits = filter (λ e. not (contains drop_request (tables.lower e.0))) edits

  unfoldable pub refused_edits : Dict Text (Option Text) → List Text
  unfolding sort compare_text
  refused_edits edits =
      sort compare_text (keys (filter (λ e. contains drop_request (tables.lower e.0)) edits))

  unfoldable pub added : Dict Text (Option Text) → Headers
  added [] = []
  added ((name, none) ∷ edits) = added edits
  added ((name, some value) ∷ edits) = (name, value) ∷ added edits

  -- `_edit_request_headers`, with the names that the warning lists.
  unfoldable pub edit_request_headers : Headers → Dict Text (Option Text) → Headers × List Text
  unfolding applied_edits refused_edits
  edit_request_headers headers edits = (
    without (lowered (applied_edits edits)) headers ++ added (applied_edits edits),
    refused_edits edits,
  )

  abbrev date_and_server : Text → Headers → Headers
  date_and_server date headers =
      (if contains (map (λ h. tables.lower h.0) headers) (codes "date")
        then []
        else (codes "Date", date) ∷ [])
      ++ (if contains (map (λ h. tables.lower h.0) headers) (codes "server")
          then []
          else (codes "Server", codes "charles-mcp-dispatcher") ∷ [])

  -- The headers that `_send` writes, in order.
  unfoldable pub sent_headers : Text → Headers → List ℕ → Text → List Text → Headers
  unfolding header_safe
  sent_headers date headers body rule_label warnings =
      date_and_server date headers
      ++ map (λ h. (h.0, header_safe h.1)) headers
      ++ (codes "Content-Length", str_nat (length body))
        ∷ (codes "X-Charles-MCP-Rule", rule_label)
        ∷ map (λ warning. (codes "X-Charles-MCP-Warning", header_safe warning)) warnings
