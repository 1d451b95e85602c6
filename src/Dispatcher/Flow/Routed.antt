-- ===== src/Dispatcher/Flow/Routed.antt =====
-- What the handler may send to the upstream.
use charles_mcp.Prelude.{ℕ, ◌≡◌, true, false, Option, some, List, Among}
use charles_mcp.Prelude.Text.{Text, codes, text_eq}
use charles_mcp.Prelude.Outcome.{Outcome, ok}
use charles_mcp.Rules.Model.{MockRule}
use charles_mcp.Rules.Disk.{Disk}
use charles_mcp.Rules.Routes.{RouteConfig, serves, list_routes}
use charles_mcp.Dispatcher.Framing.{Bytes, Framed, body, read_body}
use charles_mcp.Dispatcher.Wire.{Env, Call, Arrival, upstream_url, is_health_path, is_fixture}
use charles_mcp.Dispatcher.Flow.{chosen_rule, host_of, header_or_empty, get_header}

-- What `_read_body` makes of the request.
abbrev pub received_body : Env → ℕ → Arrival → Framed
received_body env max_body_bytes arrival =
    read_body env.numerals max_body_bytes
      (header_or_empty env (codes "transfer-encoding") arrival.headers)
      (get_header env (codes "content-length") arrival.headers) arrival.stream

-- A call that a route of the table allows, for a request that no fixture answers.
pub record IsRouted (env : Env) (max_body_bytes : ℕ) (arrival : Arrival) (disk : Disk) (call : Call)
    : Type 0 where
  pub host : Text
  pub routes : List RouteConfig
  pub route : RouteConfig
  pub content : Bytes
  pub rule : Option MockRule
  pub rest : Bytes
  pub received : received_body env max_body_bytes arrival ≡ body content rest
  pub not_health : is_health_path (env.urlsplit arrival.target).0 ≡ false
  pub hosted : host_of env arrival.headers ≡ ok host
  pub listed : list_routes env.tables env.routes disk ≡ ok routes
  pub among : Among route routes
  pub served : serves host (some (env.urlsplit arrival.target).0) route ≡ true
  pub chosen : chosen_rule env arrival host content disk ≡ ok rule
  pub unmocked : (r : MockRule) → rule ≡ some r → is_fixture r.response.mode ≡ false
  pub url : call.url ≡ upstream_url route host arrival.target
  pub verified : call.verify_tls ≡ route.verify_tls
