-- ===== src/Rules/Store/Valid.antt =====
-- The rules that are loaded have passed the validators of their responses.
use charles_mcp.Prelude.{
  ◌≡◌, refl, ap, subst, Option, none, some, List, [], ◌∷◌, All, All-append, All-filter_of, inl, inr,
  Bool-cases, Option-cases, if◌then◌else◌,
}
use charles_mcp.Prelude.Text.{Text, text_eq}
use charles_mcp.Prelude.Strings.{CaseTables}
use charles_mcp.Prelude.Outcome.{ok, raise, chain-parts, same_value}
use charles_mcp.JsonPatch.Python.{Python}
use charles_mcp.Rules.Names.{Checked, normalize_host, normalize_host_pattern}
use charles_mcp.Rules.Model.{
  MockRule, check_rule, check_rule_id, check_match, check_patches, check_response,
}
use charles_mcp.Rules.Disk.{Bytes, Disk, read_file, files_of, named}
use charles_mcp.Rules.Store.{
  Codec, any_dir, parse_rule, validated, in_place, load_file, load_names, load_dir, json_names,
  rules_for_host,
}

module _ (py : Python) (tables : CaseTables) (codec : Codec MockRule) where
  abbrev pub HasValidResponse : MockRule → Type 0
  HasValidResponse rule = check_response tables py rule.response ≡ ok tt

  check_rule-HasValidResponse :
      (rule checked : MockRule) → check_rule tables py rule ≡ ok checked → HasValidResponse checked
  unfolding check_rule
  check_rule-HasValidResponse rule checked h =
      let (id, e₁, h₁) = chain-parts (check_rule_id rule.id) _ h in
      let (host, e₂, h₂) = chain-parts (normalize_host_pattern tables rule.host) _ h₁ in
      let (match, e₃, h₃) = chain-parts (check_match tables rule.match) _ h₂ in
      let (u, e₄, h₄) = chain-parts (check_patches tables py rule.request.patches) _ h₃ in
      let (v, e₅, h₅) = chain-parts (check_response tables py rule.response) _ h₄ in
      subst HasValidResponse (same_value h₅) e₅

  parse_rule-HasValidResponse :
      (content : Bytes) (rule : MockRule)
      → parse_rule py tables codec content ≡ some rule
      → HasValidResponse rule
  unfolding parse_rule
  parse_rule-HasValidResponse content rule h = by_decoded (codec.decode content) h
    where
      by_check :
          (source : MockRule) (checked : Checked MockRule)
          → check_rule tables py source ≡ checked
          → (elim checked [ ok r ↦ some r | raise p ↦ none ]) ≡ some rule
          → HasValidResponse rule
      by_check source (ok r) e k =
          subst HasValidResponse {x = r} {y = rule} (cc) (check_rule-HasValidResponse source r e)
      by_check source (raise p) e k = absurd (cc)

      by_decoded :
          (decoded : Option MockRule)
          → (elim decoded [ none ↦ none | some source ↦ validated py tables codec source ])
            ≡ some rule
          → HasValidResponse rule
      by_decoded none k = absurd (cc)
      by_decoded (some source) k = by_check source (check_rule tables py source) refl k

  load_file-HasValidResponse :
      (directory name : Text) (disk : Disk) (rule : MockRule)
      → load_file py tables codec directory disk name ≡ some rule
      → HasValidResponse rule
  unfolding load_file
  load_file-HasValidResponse directory name disk rule h = by_file (read_file directory name disk) h
    where
      by_rule :
          (content : Bytes) (parsed : Option MockRule)
          → parse_rule py tables codec content ≡ parsed
          → (elim parsed [
            | none ↦ none
            | some r ↦ if in_place py tables codec directory name r then some r else none
          ])
            ≡ some rule
          → HasValidResponse rule
      by_rule content none e k = absurd (cc)
      by_rule content (some r) e k = elim (Bool-cases (in_place py tables codec directory name r)) [
        | inl fits ↦
            subst HasValidResponse {x = r} {y = rule} (cc (rw fits at k))
              (parse_rule-HasValidResponse content r e)
        | inr out ↦ absurd (cc (rw out at k))
      ]

      by_file :
          (content : Option Bytes)
          → (elim content [
            | none ↦ none
            | some bytes ↦ elim (parse_rule py tables codec bytes) [
              | none ↦ none
              | some r ↦ if in_place py tables codec directory name r then some r else none
            ]
          ])
            ≡ some rule
          → HasValidResponse rule
      by_file none k = absurd (cc)
      by_file (some bytes) k = by_rule bytes (parse_rule py tables codec bytes) refl k

  load_names-HasValidResponse :
      (directory : Text) (disk : Disk) (names : List Text)
      → All HasValidResponse (load_names py tables codec directory disk names).0
  unfolding load_names
  load_names-HasValidResponse directory disk [] = tt
  load_names-HasValidResponse directory disk (name ∷ names) =
      elim (Option-cases (load_file py tables codec directory disk name)) [
        | inl bad ↦ rw (bad, load_names) (load_names-HasValidResponse directory disk names)
        | inr (rule, good) ↦
            rw (good, load_names)
              (
                load_file-HasValidResponse directory name disk rule good,
                load_names-HasValidResponse directory disk names,
              )
      ]

  load_dir-HasValidResponse :
      (directory : Text) (disk : Disk)
      → All HasValidResponse (load_dir py tables codec directory disk).0
  unfolding load_dir
  load_dir-HasValidResponse directory disk =
      load_names-HasValidResponse directory disk
        (json_names py tables codec (files_of directory disk))

  -- Every rule that is loaded for a host has a response that the validators accept, whatever the
  -- files hold.
  pub rules_for_host-HasValidResponse :
      (host : Text) (disk : Disk) (rules : List MockRule) (errors : List Text)
      → rules_for_host py tables codec host disk ≡ ok (rules, errors)
      → All HasValidResponse rules
  unfolding rules_for_host
  rules_for_host-HasValidResponse host disk rules errors h =
      let (normalized, e, k) = chain-parts (named (normalize_host tables host)) _ h in
      subst (All HasValidResponse) (ap (λ p. p.0) (same_value k)) (
        All-append HasValidResponse (load_dir py tables codec normalized disk).0 _
          (load_dir-HasValidResponse normalized disk)
          (All-filter_of HasValidResponse _ (load_dir py tables codec any_dir disk).0
            (load_dir-HasValidResponse any_dir disk)))
