-- ===== src/Tests/Stored.antt =====
-- charles_mcp/mocks/rules.py: `RuleStore` on a disk of two rules and one route.
use charles_mcp.Prelude.{◌≡◌, refl, true, false, none, some, [], ◌∷◌, All, Among}
use charles_mcp.Prelude.Text.{Text, codes, text_eq}
use charles_mcp.Prelude.Outcome.{ok}
use charles_mcp.Rules.Names.{
  is_host_pattern, tidy_host, host_re, host_matches, normalize_host, normalize_host_pattern,
}
use charles_mcp.Rules.Model.{check_rule, check_rule_id}
use charles_mcp.Prelude.Strings.{starts_with}
use charles_mcp.Prelude.Dict.{Dict, erase, lookup}
use charles_mcp.Rules.Disk.{
  Bytes, Files, Disk, file, dir, read_file, write_file, erase_file, files_of, keep_copy,
  copy_to_archive, move_to_archive,
}
use charles_mcp.Rules.Store.{
  archive, rules_dir, json_name, body_name, place, rule_path, save_rule, get_rule, remove_rule,
  rules_for_host, json_names, load_dir, load_names, parse_rule,
}
use charles_mcp.Rules.Store.Archive.{kept}
use charles_mcp.Rules.Store.Versions.{save_rule-get_rule, save_rule-kept}
use charles_mcp.Rules.Routes.{
  serves, list_routes, find_route, check_route, check_routes, normalize_paths,
}
use charles_mcp.Rules.Routes.Find.{IsNarrower, find_route-Among}
use charles_mcp.Tests.Samples.{
  plain_python, ascii_tables, wallet_rule, any_rule, rule_codec, wallet_route, route_codec,
  wallet_disk,
}
use charles_mcp.Rules.Path.{normalize_path_pattern, path_matches}
use charles_mcp.Prelude.Sort.{sort}

abbrev stamp : Text
stamp = codes "1"

valid : check_rule ascii_tables plain_python wallet_rule ≡ ok wallet_rule
unfolding check_rule text_eq is_host_pattern tidy_host normalize_host host_re
valid = refl

placed :
    rule_path plain_python ascii_tables rule_codec (codes "a.b") (codes "r")
    ≡ ok (codes "a.b", codes "r")
unfolding rule_path rules_dir text_eq is_host_pattern tidy_host normalize_host host_re check_rule_id
    starts_with
placed = refl

-- The wallet's rule with a fixture, beside the rule for every host.
abbrev wallet_files : Disk
wallet_files = record wallet_disk {
  root =
      (codes "routes.json", file (codes "t"))
      ∷ (codes "_any", dir ((codes "s.json", codes "s") ∷ (codes "s.body", codes "x") ∷ []))
      ∷ (codes "a.b", dir ((codes "r.body", codes "f") ∷ (codes "r.json", codes "r") ∷ []))
      ∷ [];
}

saved :
    save_rule plain_python ascii_tables rule_codec wallet_rule
      (some (codes "f"))
      true
      stamp
      wallet_disk
    ≡ ok (wallet_files, false)
unfolding save_rule text_eq rule_path rules_dir is_host_pattern tidy_host normalize_host host_re
    check_rule_id write_file read_file starts_with
saved = refl

save_rule-get_rule_example :
    get_rule plain_python ascii_tables rule_codec (codes "a.b") (codes "r") wallet_files
    ≡ ok wallet_rule
save_rule-get_rule_example =
    save_rule-get_rule plain_python ascii_tables rule_codec wallet_rule (some (codes "f")) true
      stamp wallet_disk wallet_files false (unfold text_eq in refl) valid saved

abbrev kept_files : Dict Text Files
kept_files = (codes "a.b/1", (codes "r.json", codes "r") ∷ (codes "r.body", codes "f") ∷ []) ∷ []

-- The same disk after another save, whose version is the new one.
abbrev replaced_files : Disk
replaced_files = record wallet_files { archive = kept_files }

replaced :
    save_rule plain_python ascii_tables rule_codec wallet_rule none true stamp wallet_files
    ≡ ok (replaced_files, true)
unfolding save_rule text_eq rule_path rules_dir is_host_pattern tidy_host normalize_host host_re
    check_rule_id write_file read_file starts_with archive erase_file erase files_of keep_copy
    copy_to_archive move_to_archive
replaced = refl

there : read_file (codes "a.b") (codes "r.json") wallet_files ≡ some (codes "r")
unfolding read_file text_eq
there = refl

save_rule-kept_example :
    (true ≡ true)
    × (kept (place (codes "a.b") stamp) (json_name (codes "r")) replaced_files ≡ some (codes "r"))
    × ((body : Bytes)
        → read_file (codes "a.b") (body_name (codes "r")) wallet_files ≡ some body
        → kept (place (codes "a.b") stamp) (body_name (codes "r")) replaced_files ≡ some body)
save_rule-kept_example =
    save_rule-kept plain_python ascii_tables rule_codec wallet_rule none stamp (codes "a.b")
      (codes "r") (codes "r") wallet_files replaced_files true placed there replaced

abbrev removed_files : Disk
removed_files = record {
  root =
      (codes "routes.json", file (codes "t"))
      ∷ (codes "_any", dir ((codes "s.json", codes "s") ∷ (codes "s.body", codes "x") ∷ []))
      ∷ (codes "a.b", dir [])
      ∷ [];
  archive = kept_files;
}

removed :
    remove_rule plain_python ascii_tables rule_codec (codes "a.b") (codes "r") stamp wallet_files
    ≡ ok removed_files
unfolding remove_rule text_eq rule_path rules_dir is_host_pattern tidy_host normalize_host host_re
    check_rule_id write_file read_file starts_with archive erase_file erase files_of keep_copy
    copy_to_archive move_to_archive
removed = refl

loaded :
    rules_for_host plain_python ascii_tables rule_codec (codes "a.b") wallet_files
    ≡ ok (wallet_rule ∷ any_rule ∷ [], [])
unfolding rules_for_host text_eq normalize_host starts_with tidy_host host_re load_dir load_names
    json_names files_of read_file parse_rule check_rule is_host_pattern host_matches
loaded = refl

listed : list_routes ascii_tables route_codec wallet_disk ≡ ok (wallet_route ∷ [])
unfolding list_routes text_eq lookup check_routes check_route normalize_host_pattern is_host_pattern
    tidy_host normalize_host starts_with host_re normalize_paths normalize_path_pattern sort
listed = refl

found :
    find_route ascii_tables route_codec (codes "a.b") (some (codes "/w")) wallet_disk
    ≡ ok (some wallet_route)
unfolding find_route text_eq list_routes lookup check_routes check_route normalize_host_pattern
    is_host_pattern tidy_host normalize_host starts_with host_re normalize_paths
    normalize_path_pattern sort serves host_matches path_matches
found = refl

find_route-Among_example :
    Among wallet_route (wallet_route ∷ [])
    × (serves (codes "a.b") (some (codes "/w")) wallet_route ≡ true)
    × All
        (λ other.
          serves (codes "a.b") (some (codes "/w")) other ≡ true → IsNarrower wallet_route other)
        (wallet_route ∷ [])
find_route-Among_example =
    find_route-Among ascii_tables route_codec (codes "a.b") (some (codes "/w")) wallet_disk
      (wallet_route ∷ []) wallet_route listed found
