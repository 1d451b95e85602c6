-- ===== src/Rules/Routes/Find.antt =====
-- `find_route` returns a route of the table that serves the request, an exact one before a pattern.
use charles_mcp.Prelude.{
  ◌≡◌, ◌≤◌, true, Option, some, List, filter, All, Among, Among-filter, All-of_filter, All-map,
  arith,
}
use charles_mcp.Prelude.Text.{Text}
use charles_mcp.Prelude.Strings.{CaseTables}
use charles_mcp.Prelude.Order.{at_most}
use charles_mcp.Prelude.Sort.{first-sort-at_most, first-sort-Among}
use charles_mcp.Prelude.Outcome.{ok, same_value}
use charles_mcp.Rules.Names.{is_host_pattern}
use charles_mcp.Rules.Disk.{Disk}
use charles_mcp.Rules.Store.{Codec}
use charles_mcp.Rules.Routes.{
  RouteConfig, route_order, route_order-IsOrder, narrowness, serves, list_routes, find_route,
}

-- The choice that the comment of `find_route` describes.
pub record IsNarrower (a b : RouteConfig) : Type 0 where
  pub exact_first : is_host_pattern a.host ≡ true → is_host_pattern b.host ≡ true
  pub narrow_first : is_host_pattern a.host ≡ is_host_pattern b.host → narrowness b ≤ narrowness a

route_order-IsNarrower : (a b : RouteConfig) → at_most (route_order a b) ≡ true → IsNarrower a b
unfolding route_order
route_order-IsNarrower a b h = record {
  exact_first = λ p. ground arith;
  narrow_first = λ p. ground arith;
}

module _ (tables : CaseTables) (codec : Codec (List RouteConfig)) (host : Text)
    (path : Option Text) where
  -- The route that is found is in the table and serves the host and path, and no route that does is
  -- narrower: an exact host goes before a pattern, then the host with more characters beside the
  -- stars.
  pub find_route-Among :
      (disk : Disk) (routes : List RouteConfig) (route : RouteConfig)
      → list_routes tables codec disk ≡ ok routes
      → find_route tables codec host path disk ≡ ok (some route)
      → Among route routes
        × (serves host path route ≡ true)
        × All (λ other. serves host path other ≡ true → IsNarrower route other) routes
  unfolding find_route
  find_route-Among disk routes route listed h =
      let taken = same_value (rw listed at h) in
      let found = filter (serves host path) routes in
      let (among, served) =
        Among-filter (serves host path) routes route
          (first-sort-Among route_order found route taken) in
      (
        among,
        served,
        All-of_filter (IsNarrower route) (serves host path) routes (
            All-map (λ other. at_most (route_order route other) ≡ true) (IsNarrower route) found
              (route_order-IsNarrower route)
              (first-sort-at_most route_order route_order-IsOrder found route taken)),
      )
