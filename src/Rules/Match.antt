-- ===== src/Rules/Match.antt =====
-- `IncomingRequest`, `parse_body_document` and `rule_matches`.
use charles_mcp.Prelude.{
  ℕ, Bool, true, false, ◌&&◌, ◌||◌, not, Option, none, some, List, [], ◌∷◌, contains, ◌==◌, nat_eq,
  if◌then◌else◌,
}
use charles_mcp.Prelude.Text.{Text, codes, text_eq}
use charles_mcp.Prelude.Strings.{lstrip, is_space, starts_with, occurs, CaseTables}
use charles_mcp.Prelude.Dict.{Dict, lookup}
use charles_mcp.Prelude.Outcome.{ok, raise, ◌>>=◌}
use charles_mcp.Json.{Value, null, str, arr, obj, Items, nil, cons, Fields, end, field}
use charles_mcp.JsonPatch.Python.{Python, Result, key_error}
use charles_mcp.JsonPatch.Lookup.{get_pointer}
use charles_mcp.JsonPatch.Edit.{text_of}
use charles_mcp.Rules.Names.{host_matches}
use charles_mcp.Rules.Path.{rule_path_matches}
use charles_mcp.Rules.Model.{MockRule}

-- Python's decoders of a request body.
pub record Decoders : Type 0 where
  -- `body.decode("utf-8", errors="replace")`
  pub decode : List ℕ → Text
  -- `parse_qs(text, keep_blank_values=True)`
  pub parse_qs : Text → Dict Text (List Text)

-- `headers` has lower-case names.
pub record IncomingRequest : Type 0 where
  pub method : Text
  pub path : Text
  pub query : Dict Text (List Text)
  pub headers : Dict Text Text
  pub body : List ℕ
  pub content_type : Text
  pub host : Text

abbrev text_items : List Text → Items
text_items [] = nil
text_items (t ∷ ts) = cons (str t) (text_items ts)

-- `values[0] if len(values) == 1 else values`
abbrev form_value : List Text → Value
form_value (t ∷ []) = str t
form_value ts = arr (text_items ts)

unfoldable pub form_fields : Dict Text (List Text) → Fields
form_fields [] = end
form_fields ((key, values) ∷ d) = field key (form_value values) (form_fields d)

-- `None` is `null`, as the caller cannot tell them apart.
abbrev form_document : Dict Text (List Text) → Value
form_document [] = null
form_document ((key, values) ∷ d) = obj (field key (form_value values) (form_fields d))

abbrev is_null : Value → Bool
is_null null = true
is_null _ = false

module _ (py : Python) (tables : CaseTables) (dec : Decoders) where
  abbrev looks_like_json : Text → Bool
  looks_like_json text =
      starts_with (codes "{") (lstrip is_space text)
      || starts_with (codes "[") (lstrip is_space text)

  abbrev is_form : Text → Text → Bool
  is_form content_type text =
      occurs (codes "application/x-www-form-urlencoded") (tables.lower content_type)
      || (contains text b'=' && not (looks_like_json text))

  unfoldable pub parse_body_document : List ℕ → Text → Value
  unfolding lstrip starts_with occurs form_fields
  parse_body_document [] content_type = null
  parse_body_document (b ∷ body) content_type =
      let text = dec.decode (b ∷ body) in
      elim (py.loads text) [
        | some document ↦ document
        | none ↦ if is_form content_type text then form_document (dec.parse_qs text) else null
      ]

  unfoldable pub query_matches : Dict Text Text → Dict Text (List Text) → Bool
  unfolding lookup
  query_matches [] query = true
  query_matches ((name, expected) ∷ wanted) query =
      elim (lookup name query) [ none ↦ false | some values ↦ contains values expected ]
      && query_matches wanted query

  unfoldable pub headers_match : Dict Text Text → Dict Text Text → Bool
  unfolding lookup
  headers_match [] headers = true
  headers_match ((name, expected) ∷ wanted) headers =
      elim (lookup name headers) [ none ↦ false | some value ↦ value == expected ]
      && headers_match wanted headers

  -- `actual != expected and str(actual) != str(expected)` is no match.
  abbrev pub same_value : Value → Value → Bool
  same_value actual expected = py.equal actual expected || text_of py actual == text_of py expected

  -- `except KeyError: return False`; every other error is the caller's.
  abbrev found : Value → Result Value → Result Bool
  found expected (ok actual) = ok (same_value actual expected)
  found expected (raise key_error) = ok false
  found expected (raise e) = raise e

  unfoldable pub body_matches : Dict Text Value → Value → Result Bool
  unfolding get_pointer
  body_matches [] document = ok true
  body_matches ((pointer, expected) ∷ wanted) document =
      let rest = body_matches wanted document in
      found expected (get_pointer py document pointer) >>= λ hit. if hit then rest else ok false

  abbrev match_body : Dict Text Value → IncomingRequest → Result Bool
  match_body [] request = ok true
  match_body (condition ∷ wanted) request =
      let document = parse_body_document request.body request.content_type in
      if is_null document then ok false else body_matches (condition ∷ wanted) document

  abbrev method_matches : Option Text → Text → Bool
  method_matches none method = true
  method_matches (some []) method = true
  method_matches (some (c ∷ cs)) method = (c ∷ cs) == tables.upper method

  unfoldable pub rule_matches : MockRule → IncomingRequest → Result Bool
  unfolding host_matches rule_path_matches query_matches headers_match body_matches
      parse_body_document
  rule_matches rule request =
      let m = rule.match in
      if not (request.host == []) && not (host_matches rule.host request.host)
      then ok false
      else if not (method_matches m.method request.method)
      then ok false
      else if not (rule_path_matches m.path request.path)
      then ok false
      else if not (query_matches m.query request.query)
      then ok false
      else if not (headers_match m.headers request.headers)
      then ok false
      else match_body m.body request
