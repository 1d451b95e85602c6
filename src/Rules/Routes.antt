-- ===== src/Rules/Routes.antt =====
-- `RouteConfig` and the route table of `RuleStore`: which requests the dispatcher may forward.
pub mod Find
use charles_mcp.Prelude.{
  ℕ, Bool, true, false, ◌&&◌, ◌||◌, not, Option, none, some, List, [], ◌∷◌, ◌++◌, any, filter, find,
  length, leb, contains, ◌==◌, nat_eq, if◌then◌else◌,
}
use charles_mcp.Prelude.Text.{Text, codes, text_eq}
use charles_mcp.Prelude.Strings.{CaseTables}
use charles_mcp.Prelude.Dict.{lookup, insert}
use charles_mcp.Prelude.Order.{
  Ordering, then_by, compare, compare_bool, compare_text, IsOrder, compare-IsOrder,
  compare_bool-IsOrder, then_by-IsOrder, key-IsOrder, key_down-IsOrder,
}
use charles_mcp.Prelude.Sort.{sort, first}
use charles_mcp.Prelude.Outcome.{ok, raise, ◌>>=◌, ◌>>◌}
use charles_mcp.Rules.Names.{
  Checked, bad_port, is_host_pattern, host_matches, normalize_host_pattern,
}
use charles_mcp.Rules.Path.{normalize_path_pattern, path_matches}
use charles_mcp.Rules.Disk.{
  Bytes, Node, file, dir, Disk, StoreFault, invalid_file, os_error, Stored, named,
}
use charles_mcp.Rules.Store.{Codec}

pub data Scheme : Type 0 where
  https : Scheme
  http : Scheme

pub record RouteConfig : Type 0 where
  pub host : Text
  pub upstream_scheme : Scheme
  pub upstream_port : ℕ
  pub verify_tls : Bool
  pub paths : List Text

unfoldable pub normalize_paths : List Text → Checked (List Text)
normalize_paths [] = ok []
normalize_paths (path ∷ paths) = do
  pattern ← normalize_path_pattern path
  patterns ← normalize_paths paths
  ok (if contains patterns pattern then patterns else pattern ∷ patterns)

-- The validators: `sorted({...})` keeps each pattern once.
unfoldable pub check_route : CaseTables → RouteConfig → Checked RouteConfig
check_route tables route = do
  host ← normalize_host_pattern tables route.host
  patterns ← normalize_paths route.paths
  if leb 1 route.upstream_port && leb route.upstream_port 65535
      then ok (record route { host = host; paths = sort compare_text patterns })
      else raise bad_port

unfoldable pub check_routes : CaseTables → List RouteConfig → Checked (List RouteConfig)
check_routes tables [] = ok []
check_routes tables (route ∷ routes) = do
  checked ← check_route tables route
  rest ← check_routes tables routes
  ok (checked ∷ rest)

abbrev pub routes_file : Text
routes_file = codes "routes.json"

-- Exact hosts first, then the most characters beside the stars.
abbrev pub narrowness : RouteConfig → ℕ
narrowness route = length (filter (λ c. not (c == b'*')) route.host)

unfoldable pub route_order : RouteConfig → RouteConfig → Ordering
route_order a b =
    then_by (compare_bool (is_host_pattern a.host) (is_host_pattern b.host))
      (compare (narrowness b) (narrowness a))

pub route_order-IsOrder : IsOrder route_order
unfolding route_order
route_order-IsOrder =
    then_by-IsOrder _ _
      (key-IsOrder compare_bool (λ r. is_host_pattern r.host) compare_bool-IsOrder)
      (key_down-IsOrder compare narrowness compare-IsOrder)

-- `host_matches(...) and (path is None or any(path_matches(...)))`
unfoldable pub serves : Text → Option Text → RouteConfig → Bool
serves host none route = host_matches route.host host
serves host (some path) route =
    host_matches route.host host && any (λ pattern. path_matches pattern path) route.paths

module _ (tables : CaseTables) (codec : Codec (List RouteConfig)) where
  abbrev pub all_valid : List RouteConfig → Stored (List RouteConfig)
  all_valid routes = elim (check_routes tables routes) [
    | ok checked ↦ ok checked
    | raise p ↦ raise invalid_file
  ]

  abbrev pub parse_routes : Bytes → Stored (List RouteConfig)
  parse_routes content = elim (codec.decode content) [
    | none ↦ raise invalid_file
    | some routes ↦ all_valid routes
  ]

  abbrev pub node_routes : Option Node → Stored (List RouteConfig)
  node_routes (some (file content)) = parse_routes content
  node_routes _ = ok []

  unfoldable pub list_routes : Disk → Stored (List RouteConfig)
  list_routes disk = node_routes (lookup routes_file disk.root)

  abbrev pub with_route : RouteConfig → List RouteConfig → List RouteConfig
  with_route route routes =
      sort (λ a b. compare_text a.host b.host)
        (filter (λ item. not (item.host == route.host)) routes ++ route ∷ [])

  -- `_atomic_write` cannot replace a directory.
  abbrev pub write_routes : Bytes → Disk → Option Node → Stored Disk
  write_routes content disk (some (dir _)) = raise os_error
  write_routes content disk _ =
      ok (record disk { root = insert routes_file (file content) disk.root })

  unfoldable pub save_route : RouteConfig → Disk → Stored Disk
  save_route route disk = do
    routes ← list_routes disk
    write_routes (codec.encode (with_route route routes)) disk (lookup routes_file disk.root)

  unfoldable pub get_route : Text → Disk → Stored (Option RouteConfig)
  get_route host disk = do
    normalized ← named (normalize_host_pattern tables host)
    routes ← list_routes disk
    ok (find (λ route. route.host == normalized) routes)

  unfoldable pub find_route : Text → Option Text → Disk → Stored (Option RouteConfig)
  find_route host path disk = do
    routes ← list_routes disk
    ok (first route_order (sort route_order (filter (serves host path) routes)))
