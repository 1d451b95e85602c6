-- ===== src/Mocks/Scenarios.antt =====
-- charles_mcp/mocks/scenarios.py: named sets of rules, one file each below `_scenarios`.
use charles_mcp.Prelude.{
  Bool, true, false, ◌&&◌, ◌||◌, Option, none, some, List, [], ◌∷◌, all, filter, length, leb,
  nat_eq, if◌then◌else◌,
}
use charles_mcp.Prelude.Text.{Text, codes, text_eq}
use charles_mcp.Prelude.Strings.{ends_with, drop_end}
use charles_mcp.Prelude.Dict.{keys, lookup, insert, erase}
use charles_mcp.Prelude.Order.{compare_text}
use charles_mcp.Prelude.Sort.{sort}
use charles_mcp.Prelude.Outcome.{Outcome, ok, raise, ◌>>=◌, ◌>>◌, or_raise}
use charles_mcp.Rules.Names.{is_alnum}
use charles_mcp.Rules.Model.{is_id_char}
use charles_mcp.Rules.Disk.{Bytes, Files}
use charles_mcp.Rules.Store.{Codec, json_name}

pub record ScenarioRuleRef : Type 0 where
  pub host : Text
  pub id : Text

pub record Scenario : Type 0 where
  pub name : Text
  pub description : Option Text
  pub rules : List ScenarioRuleRef

-- `ValueError` of a name, the `ValidationError` of no rules, `FileNotFoundError`, a bad file.
pub data ScenarioFault : Type 0 where
  bad_scenario_name : ScenarioFault
  no_rules : ScenarioFault
  no_scenario : ScenarioFault
  bad_scenario_file : ScenarioFault

-- `[a-z0-9][a-z0-9._-]{0,63}`
abbrev is_scenario_name : Text → Bool
is_scenario_name [] = false
is_scenario_name (c ∷ cs) = is_alnum c && all is_id_char cs && leb (length cs) 63

-- `_NAME.match(name)`: the `$` also matches before a final newline.
unfoldable pub validate_scenario_name : Text → Outcome ScenarioFault Text
unfolding ends_with
validate_scenario_name name =
    if is_scenario_name name || (ends_with (10 ∷ []) name && is_scenario_name (drop_end 1 name))
    then ok name
    else raise bad_scenario_name

abbrev some_rules : List ScenarioRuleRef → Outcome ScenarioFault (Unit {0})
some_rules [] = raise no_rules
some_rules (rule ∷ rules) = ok tt

-- The validators of a `Scenario`.
unfoldable pub check_scenario : Scenario → Outcome ScenarioFault Scenario
unfolding validate_scenario_name
check_scenario scenario = do
  name ← validate_scenario_name scenario.name
  some_rules scenario.rules
  ok scenario

module _ (codec : Codec Scenario) where
  abbrev pub parse_scenario : Bytes → Option Scenario
  parse_scenario content = elim (codec.decode content) [
    | none ↦ none
    | some scenario ↦ elim (check_scenario scenario) [ ok checked ↦ some checked | raise e ↦ none ]
  ]

  -- The files below `_scenarios` afterwards; a directory that is not there has none.
  unfoldable pub save_scenario : Scenario → Files → Outcome ScenarioFault Files
  unfolding validate_scenario_name insert
  save_scenario scenario files = do
    name ← validate_scenario_name scenario.name
    ok (insert (json_name name) (codec.encode scenario) files)

  unfoldable pub get_scenario : Text → Files → Outcome ScenarioFault Scenario
  unfolding validate_scenario_name lookup check_scenario
  get_scenario name files = do
    checked ← validate_scenario_name name
    content ← or_raise no_scenario (lookup (json_name checked) files)
    or_raise bad_scenario_file (parse_scenario content)

  abbrev collect_scenario :
      Text → Option Scenario → List Scenario × List Text → List Scenario × List Text
  collect_scenario name none (scenarios, errors) = (scenarios, name ∷ errors)
  collect_scenario name (some scenario) (scenarios, errors) = (scenario ∷ scenarios, errors)

  abbrev file_scenario : Option Bytes → Option Scenario
  file_scenario none = none
  file_scenario (some content) = parse_scenario content

  unfoldable pub list_names : Files → List Text → List Scenario × List Text
  unfolding lookup check_scenario
  list_names files [] = ([], [])
  list_names files (name ∷ names) =
      collect_scenario name (file_scenario (lookup name files)) (list_names files names)

  -- The scenarios, and the names of the files that hold none.
  unfoldable pub list_scenarios : Files → List Scenario × List Text
  unfolding list_names sort compare_text ends_with
  list_scenarios files =
      list_names files
        (sort compare_text (filter (λ name. ends_with (codes ".json") name) (keys files)))

  abbrev pub unlinked : Text → Files → Option Bytes → Files × Bool
  unlinked name files none = (files, false)
  unlinked name files (some content) = (erase name files, true)

  -- The files afterwards, and whether there was one.
  unfoldable pub remove_scenario : Text → Files → Outcome ScenarioFault (Files × Bool)
  unfolding validate_scenario_name lookup erase
  remove_scenario name files = do
    checked ← validate_scenario_name name
    ok (unlinked (json_name checked) files (lookup (json_name checked) files))
