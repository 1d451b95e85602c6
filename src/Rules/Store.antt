-- ===== src/Rules/Store.antt =====
-- `RuleStore`: rules and fixtures on disk.
pub mod Saving
pub mod Archive
pub mod Versions
pub mod Valid
use charles_mcp.Prelude.{
  ℕ, Bool, true, false, ◌&&◌, Option, none, some, List, [], ◌∷◌, ◌++◌, filter, ◌==◌, nat_eq,
  if◌then◌else◌,
}
use charles_mcp.Prelude.Text.{Text, codes, text_eq}
use charles_mcp.Prelude.Strings.{ends_with, CaseTables}
use charles_mcp.Prelude.Dict.{Dict, keys}
use charles_mcp.Prelude.Order.{compare_text}
use charles_mcp.Prelude.Sort.{sort}
use charles_mcp.Prelude.Outcome.{ok, raise, ◌>>=◌}
use charles_mcp.JsonPatch.Python.{Python}
use charles_mcp.Rules.Names.{is_host_pattern, host_matches, normalize_host, normalize_host_pattern}
use charles_mcp.Rules.Model.{MockRule, check_rule_id, check_rule}
use charles_mcp.Rules.Disk.{
  Bytes, Files, Node, file, dir, Disk, StoreFault, not_found, invalid_file, Stored, named, files_of,
  read_file, write_file, copy_to_archive, move_to_archive,
}

-- pydantic's JSON of a rule, up to the validators: `decode` has `none` for bytes that are no such
-- JSON document, and for a file that cannot be read.
pub record Codec (A : Type 0) : Type 0 where
  pub encode : A → Bytes
  pub decode : Bytes → Option A

abbrev pub any_dir : Text
any_dir = codes "_any"

abbrev pub json_name : Text → Text
json_name id = id ++ codes ".json"

-- `with_suffix(".body")`
abbrev pub body_name : Text → Text
body_name id = id ++ codes ".body"

abbrev dir_of_host : Text → Text
dir_of_host normalized = if is_host_pattern normalized then any_dir else normalized

-- `f"{directory.name}/{stamp}"`
abbrev pub place : Text → Text → Text
place directory stamp = directory ++ b'/' ∷ stamp

module _ (py : Python) (tables : CaseTables) (codec : Codec MockRule) where
  -- `rules_dir(host).name`
  unfoldable pub rules_dir : Text → Stored Text
  unfolding normalize_host_pattern is_host_pattern
  rules_dir host = do
    normalized ← named (normalize_host_pattern tables host)
    ok (dir_of_host normalized)

  -- `rule_path(host, rule_id)`, as the directory and the checked id.
  unfoldable pub rule_path : Text → Text → Stored (Text × Text)
  rule_path host rule_id = do
    directory ← rules_dir host
    id ← named (check_rule_id rule_id)
    ok (directory, id)

  -- `MockRule.model_validate_json`: the validators run on what was decoded.
  abbrev pub validated : MockRule → Option MockRule
  validated rule = elim (check_rule tables py rule) [ ok checked ↦ some checked | raise p ↦ none ]

  unfoldable pub parse_rule : Bytes → Option MockRule
  parse_rule content = elim (codec.decode content) [ none ↦ none | some rule ↦ validated rule ]

  -- `_archive`: never deletes.
  unfoldable pub archive : Text → Text → Bool → Text → Disk → Disk
  archive directory id keep_fixture stamp disk =
      let moved = move_to_archive (place directory stamp) directory (json_name id) disk in
      if keep_fixture
      then copy_to_archive (place directory stamp) directory (body_name id) moved
      else move_to_archive (place directory stamp) directory (body_name id) moved

  abbrev pub write_fixture : Text → Text → Option Bytes → Disk → Stored Disk
  write_fixture directory id none disk = ok disk
  write_fixture directory id (some content) disk = write_file directory (body_name id) content disk

  abbrev pub is_none : Option Bytes → Bool
  is_none none = true
  is_none (some _) = false

  abbrev pub exists : Option Bytes → Bool
  exists none = false
  exists (some _) = true

  -- `save_rule` with `archive_previous`; the result is the disk, and whether a version was archived.
  unfoldable pub save_rule : MockRule → Option Bytes → Bool → Text → Disk → Stored (Disk × Bool)
  save_rule rule fixture archive_previous stamp disk = do
    (directory, id) ← rule_path rule.host rule.id
    let previous = archive_previous && exists (read_file directory (json_name id) disk)
    let kept = if previous then archive directory id (is_none fixture) stamp disk else disk
    bodied ← write_fixture directory id fixture kept
    saved ← write_file directory (json_name id) (codec.encode rule) bodied
    ok (saved, previous)

  abbrev or_else {ℓ} : {A : Type ℓ} → StoreFault → Option A → Stored A
  or_else e none = raise e
  or_else e (some a) = ok a

  unfoldable pub get_rule : Text → Text → Disk → Stored MockRule
  get_rule host rule_id disk = do
    (directory, id) ← rule_path host rule_id
    content ← or_else not_found (read_file directory (json_name id) disk)
    or_else invalid_file (parse_rule content)

  unfoldable pub read_fixture : Text → Text → Disk → Stored Bytes
  read_fixture host rule_id disk = do
    (directory, id) ← rule_path host rule_id
    or_else not_found (read_file directory (body_name id) disk)

  unfoldable pub remove_rule : Text → Text → Text → Disk → Stored Disk
  remove_rule host rule_id stamp disk = do
    (directory, id) ← rule_path host rule_id
    content ← or_else not_found (read_file directory (json_name id) disk)
    ok (archive directory id false stamp disk)

  -- `sorted(directory.glob("*.json"))`
  unfoldable pub json_names : Files → List Text
  unfolding sort compare_text ends_with
  json_names files =
      sort compare_text (filter (λ name. ends_with (codes ".json") name) (keys files))

  abbrev pub in_place : Text → Text → MockRule → Bool
  in_place directory name rule =
      (if directory == any_dir then is_host_pattern rule.host else rule.host == directory)
      && json_name rule.id == name

  -- A rule that is read and stands where it belongs; all else is an error, counted by its name.
  unfoldable pub load_file : Text → Disk → Text → Option MockRule
  load_file directory disk name = elim (read_file directory name disk) [
    | none ↦ none
    | some content ↦ elim (parse_rule content) [
      | none ↦ none
      | some rule ↦ if in_place directory name rule then some rule else none
    ]
  ]

  abbrev collect : Text → Option MockRule → List MockRule × List Text → List MockRule × List Text
  collect name none (rules, errors) = (rules, name ∷ errors)
  collect name (some rule) (rules, errors) = (rule ∷ rules, errors)

  unfoldable pub load_names : Text → Disk → List Text → List MockRule × List Text
  unfolding load_file
  load_names directory disk [] = ([], [])
  load_names directory disk (name ∷ names) =
      collect name (load_file directory disk name) (load_names directory disk names)

  -- The rules of a directory, and the names of the files that hold none.
  unfoldable pub load_dir : Text → Disk → List MockRule × List Text
  load_dir directory disk = load_names directory disk (json_names (files_of directory disk))

  unfoldable pub rules_for_host : Text → Disk → Stored (List MockRule × List Text)
  rules_for_host host disk = do
    normalized ← named (normalize_host tables host)
    let (exact, errors) = load_dir normalized disk
    let (patterns, pattern_errors) = load_dir any_dir disk
    ok (exact ++ filter (λ rule. host_matches rule.host host) patterns, errors ++ pattern_errors)

  abbrev is_dir : Node → Bool
  is_dir (dir _) = true
  is_dir (file _) = false

  abbrev dir_names : Dict Text Node → List Text
  dir_names [] = []
  dir_names ((name, node) ∷ d) = let rest = dir_names d in if is_dir node then name ∷ rest else rest

  unfoldable pub rule_dirs : Disk → List Text
  unfolding sort compare_text
  rule_dirs disk = sort compare_text (dir_names disk.root)

  unfoldable pub load_dirs : List Text → Disk → List MockRule × List Text
  unfolding load_dir
  load_dirs [] disk = ([], [])
  load_dirs (name ∷ names) disk =
      let (found, problems) = load_dir name disk in
      let (rules, errors) = load_dirs names disk in (found ++ rules, problems ++ errors)

  unfoldable pub all_rules : Disk → List MockRule × List Text
  unfolding load_dirs rule_dirs
  all_rules disk = load_dirs (rule_dirs disk) disk
