-- ===== src/Dispatcher/Flow/Replies.antt =====
-- The length that the handler announces for a request as a whole.
use charles_mcp.Prelude.{
  ℕ, ◌≡◌, refl, subst, false, Option, none, some, List, [], ◌∷◌, length, ◌==◌, Among-All,
  Bool-cases, inl, inr,
}
use charles_mcp.Prelude.Text.{Text, codes, text_eq}
use charles_mcp.Prelude.Number.{str_nat}
use charles_mcp.Prelude.Outcome.{Outcome, ok, raise, ◌>>=◌}
use charles_mcp.JsonPatch.Python.{Result}
use charles_mcp.Rules.Model.{MockRule}
use charles_mcp.Dispatcher.Headers.Sent.{IsLower, values_of}
use charles_mcp.Dispatcher.Framing.{Bytes, Framed, body, refused, out_of_fuel, read_body}
use charles_mcp.Rules.Names.{Checked}
use charles_mcp.Rules.Select.{select_rule}
use charles_mcp.Rules.Select.Best.{select_rule-Among}
use charles_mcp.Rules.Disk.{Disk, Stored}
use charles_mcp.Rules.Store.{rules_for_host}
use charles_mcp.Rules.Store.Valid.{HasValidResponse, rules_for_host-HasValidResponse}
use charles_mcp.Rules.Routes.{RouteConfig, list_routes, find_route}
use charles_mcp.Dispatcher.Framing.{status_of}
use charles_mcp.Dispatcher.Wire.{
  Env, Arrival, Reply, Failure, bad_body, bad_host_header, not_routed, json_type, is_fixture,
  is_health_path, from_store, from_match,
}
use charles_mcp.Dispatcher.Flow.{
  get_header, header_or_empty, incoming, chosen_rule, by_rule, by_route, by_host, send_health,
  host_of, by_body, dispatch,
}
use charles_mcp.Dispatcher.Flow.Length.{
  check_response-lowered, send-HasLength, json_type-length, send_error-HasLength, Announces,
  RuleFits, chain-Announces, serve_fixture-Announces, ChosenFits, forward-Announces,
}

from_match-parts {ℓ} : {A : Type ℓ} (m : Result A) (a : A) → from_match m ≡ ok a → m ≡ ok a
from_match-parts (ok b) a h = cc
from_match-parts (raise e) a h = absurd (cc)

module _ (env : Env) (l : IsLower env.tables) where
  chosen_rule-Fits :
      (arrival : Arrival) (host : Text) (content : Bytes) (disk : Disk) (rule : Option MockRule)
      → chosen_rule env arrival host content disk ≡ ok rule
      → ChosenFits env l rule
  chosen_rule-Fits arrival host content disk none h = tt
  chosen_rule-Fits arrival host content disk (some rule) h =
      by_rules (rules_for_host env.py env.tables env.rules host disk) refl (unfold chosen_rule in h)
    where
      by_rules :
          (loaded : Stored (List MockRule × List Text))
          → rules_for_host env.py env.tables env.rules host disk ≡ loaded
          → (from_store loaded >>= λ p.
              from_match
                (select_rule env.py env.tables env.dec p.0 (incoming env arrival host content)))
            ≡ ok (some rule)
          → RuleFits env l rule
      by_rules (raise e) k chosen = absurd (cc)
      by_rules (ok (rules, errors)) k chosen =
          let selected =
            from_match-parts
              (select_rule env.py env.tables env.dec rules (incoming env arrival host content))
              (some rule) chosen in
          let (among, enabled, matched, best) =
            select_rule-Among env.py env.tables env.dec (incoming env arrival host content) rules
              rule selected in
          check_response-lowered env.py env.tables rule.response (
            Among-All (HasValidResponse env.py env.tables env.rules) rule rules among (
              rules_for_host-HasValidResponse env.py env.tables env.rules host disk rules errors k))

  -- If `lower` is as documented on ASCII, every reply to a request that is no HEAD request has
  -- exactly one Content-Length, the length of its body, whatever the upstream and the rules
  -- declare.
  pub dispatch-HasLength :
      (max_body_bytes : ℕ) (arrival : Arrival) (disk : Disk) (reply : Reply)
      → (arrival.command == codes "HEAD") ≡ false
      → (dispatch env max_body_bytes arrival disk).outcome ≡ ok reply
      → values_of env.tables (codes "content-length") reply.sent
        ≡ str_nat (length reply.content) ∷ []
  dispatch-HasLength max_body_bytes arrival disk reply other h =
      subst (Announces env l arrival.command) h
        (unfold dispatch in
          framed (
            read_body env.numerals max_body_bytes
              (header_or_empty env (codes "transfer-encoding") arrival.headers)
              (get_header env (codes "content-length") arrival.headers) arrival.stream))
        other
    where
      path : Text
      path = (env.urlsplit arrival.target).0

      ruled :
          (host : Text) (content : Bytes) (route : RouteConfig)
          (chosen : Outcome Failure (Option MockRule))
          → chosen_rule env arrival host content disk ≡ chosen
          → Announces env l arrival.command
              (by_rule env route host arrival content disk chosen).outcome
      ruled host content route (raise e) k = tt
      ruled host content route (ok none) k =
          forward-Announces env l route host arrival content none tt
      ruled host content route (ok (some rule)) k =
          let fits = chosen_rule-Fits arrival host content disk (some rule) k in
          elim (Bool-cases (is_fixture rule.response.mode)) [
            | inl mocked ↦ rw mocked (serve_fixture-Announces env l arrival.command rule disk fits)
            | inr live ↦
                rw live (forward-Announces env l route host arrival content (some rule) fits)
          ]

      found :
          (host : Text) (content : Bytes) (answer : Stored (Option RouteConfig))
          → Announces env l arrival.command (by_route env host arrival content disk answer).outcome
      found host content (raise e) = tt
      found host content (ok none) =
          send_error-HasLength env l arrival.command 421 (not_routed host path) (codes "error")
      found host content (ok (some route)) =
          ruled host content route (chosen_rule env arrival host content disk) refl

      named_host :
          (content : Bytes) (checked : Checked Text)
          → Announces env l arrival.command (by_host env arrival content disk checked).outcome
      named_host content (raise p) =
          send_error-HasLength env l arrival.command 421 bad_host_header (codes "error")
      named_host content (ok host) =
          found host content (find_route env.tables env.routes host (some path) disk)

      probed : Announces env l arrival.command (send_health env arrival.command path disk)
      probed =
          unfold send_health in
          chain-Announces env l arrival.command
            (from_store (list_routes env.tables env.routes disk)) _
            (λ routes.
              send-HasLength env l arrival.command 200 json_type (env.health_body path routes)
                (codes "health") [] (json_type-length env l))

      framed :
          (read : Framed) → Announces env l arrival.command (by_body env arrival disk read).outcome
      framed out_of_fuel = tt
      framed (refused r) =
          send_error-HasLength env l arrival.command (status_of r) (bad_body r) (codes "error")
      framed (body content rest) = elim (Bool-cases (is_health_path path)) [
        | inl health ↦ rw health probed
        | inr live ↦ rw live (named_host content (host_of env arrival.headers))
      ]
