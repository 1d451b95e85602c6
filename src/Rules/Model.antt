-- ===== src/Rules/Model.antt =====
-- The pydantic models `RuleMatch`, `RuleRequest`, `RuleResponse`, `MockRule` and `RouteConfig`. A
-- model is valid when its validators return; the `version` fields can only be 1 and are left out.
use charles_mcp.Prelude.{
  ℕ, ◌+◌, Bool, true, false, ◌&&◌, ◌||◌, not, Option, none, some, List, [], ◌∷◌, any, all, length,
  leb, contains, ◌==◌, nat_eq, if◌then◌else◌,
}
use charles_mcp.Prelude.Text.{Text, codes, text_eq}
use charles_mcp.Prelude.Strings.{starts_with, ends_with, occurs, drop_end, CaseTables}
use charles_mcp.Prelude.Int.{ℤ}
use charles_mcp.Prelude.Dict.{Dict, keys, insert}
use charles_mcp.Prelude.Outcome.{ok, raise, ◌>>=◌, ◌>>◌}
use charles_mcp.Json.{Value}
use charles_mcp.JsonPatch.Python.{Python, Result}
use charles_mcp.JsonPatch.Edit.{validate_patches}
use charles_mcp.Rules.Names.{
  Checked, is_alnum, double_star, bad_rule_id, bad_match_pointer, refused_header, bad_patch,
  bad_status, bad_delay, normalize_host_pattern,
}
use charles_mcp.Rules.Path.{validate_path}

pub record RuleMatch : Type 0 where
  pub method : Option Text
  pub path : Text
  pub query : Dict Text Text
  pub headers : Dict Text Text
  pub body : Dict Text Value

pub record RuleRequest : Type 0 where
  pub patches : List Value
  pub headers : Dict Text (Option Text)

pub data Mode : Type 0 where
  fixture : Mode
  patch : Mode

pub record RuleResponse : Type 0 where
  pub mode : Mode
  pub status : Option ℕ
  pub headers : Dict Text Text
  pub delay_ms : Option ℕ
  pub patches : List Value

pub record MockRule : Type 0 where
  pub id : Text
  pub host : Text
  pub enabled : Bool
  pub priority : ℤ
  pub description : Option Text
  pub match : RuleMatch
  pub request : RuleRequest
  pub response : RuleResponse
  pub source_entry_id : Option Text
  pub created_at : Text

abbrev pub is_id_char : ℕ → Bool
is_id_char c = is_alnum c || c == b'.' || c == b'_' || c == b'-'

-- `[a-z0-9][a-z0-9._-]{0,79}`
abbrev pub is_rule_id : Text → Bool
is_rule_id [] = false
is_rule_id (c ∷ cs) = is_alnum c && all is_id_char cs && leb (length cs) 79

-- `_RULE_ID_RE.match(value)`: the `$` also matches before a final newline.
unfoldable pub rule_id_re : Text → Bool
unfolding ends_with
rule_id_re value = is_rule_id value || (ends_with (10 ∷ []) value && is_rule_id (drop_end 1 value))

unfoldable pub check_rule_id : Text → Checked Text
unfolding rule_id_re
check_rule_id value = if rule_id_re value then ok value else raise bad_rule_id

-- `int(method is not None) + len(query) + len(headers) + len(body)`
unfoldable pub specificity : RuleMatch → ℕ
specificity m =
    (elim m.method [ none ↦ 0 | some _ ↦ 1 ]) + length m.query + length m.headers + length m.body

abbrev as_patch_problem : Result (Unit {0}) → Checked (Unit {0})
as_patch_problem (raise e) = raise bad_patch
as_patch_problem (ok u) = ok u

abbrev within : ℕ → ℕ → Option ℕ → Bool
within low high none = true
within low high (some n) = leb low n && leb n high

-- The headers about the transfer that a rule may not declare.
abbrev pub is_refused_header : Text → Bool
is_refused_header name =
    contains (codes "content-encoding" ∷ codes "content-length" ∷ codes "transfer-encoding" ∷ [])
      name

-- A dict comprehension: of two equal keys the first keeps its place and the last its value.
unfoldable pub rekey {ℓ} : {V : Type ℓ} → (Text → Text) → Dict Text V → Dict Text V → Dict Text V
unfolding insert
rekey f done [] = done
rekey f done ((k, v) ∷ d) = rekey f (insert (f k) v done) d

module _ (tables : CaseTables) where
  abbrev upper_method : Option Text → Option Text
  upper_method none = none
  upper_method (some []) = none
  upper_method (some (c ∷ cs)) = some (tables.upper (c ∷ cs))

  unfoldable pub check_path : Text → Checked Text
  unfolding validate_path occurs
  check_path value = if occurs (codes "**") value then raise double_star else validate_path value

  unfoldable pub check_pointers : Dict Text Value → Checked (Unit {0})
  unfolding starts_with
  check_pointers body =
      if all (λ pointer. starts_with (codes "/") pointer) (keys body)
      then ok tt
      else raise bad_match_pointer

  unfoldable pub check_match : RuleMatch → Checked RuleMatch
  unfolding check_path check_pointers rekey
  check_match m = do
    path ← check_path m.path
    check_pointers m.body
    ok (record m {
      method = upper_method m.method;
      path = path;
      headers = rekey tables.lower [] m.headers;
    })

  unfoldable pub check_headers : Dict Text Text → Checked (Unit {0})
  check_headers headers =
      if any (λ name. is_refused_header (tables.lower name)) (keys headers)
      then raise refused_header
      else ok tt

  module _ (py : Python) where
    unfoldable pub check_patches : List Value → Checked (Unit {0})
    unfolding validate_patches
    check_patches patches = as_patch_problem (validate_patches py patches)

    unfoldable pub check_response : RuleResponse → Checked (Unit {0})
    unfolding check_patches check_headers
    check_response r = if not (within 100 599 r.status) then raise bad_status else do
      check_headers r.headers
      if not (within 0 60000 r.delay_ms) then raise bad_delay else check_patches r.patches

    -- The validators of a rule, in the order of the fields. Of several problems pydantic reports
    -- all, the model the first.
    unfoldable pub check_rule : MockRule → Checked MockRule
    unfolding check_rule_id normalize_host_pattern check_match check_patches check_response
    check_rule rule = do
      id ← check_rule_id rule.id
      host ← normalize_host_pattern tables rule.host
      match ← check_match rule.match
      check_patches rule.request.patches
      check_response rule.response
      ok (record rule { host = host; match = match })
