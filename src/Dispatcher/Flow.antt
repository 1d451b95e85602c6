-- ===== src/Dispatcher/Flow.antt =====
-- `_DispatcherHandler`: one request from the wire to the reply. Time, and the log, are left out.
pub mod Routed
pub mod Length
pub mod Replies
use charles_mcp.Prelude.{
  ℕ, true, false, Option, none, some, List, [], ◌∷◌, ◌++◌, ◌==◌, nat_eq, if◌then◌else◌,
}
use charles_mcp.Prelude.Text.{Text, codes, text_eq}
use charles_mcp.Prelude.Dict.{Dict}
use charles_mcp.Prelude.Outcome.{Outcome, ok, raise, ◌>>=◌}
use charles_mcp.Json.{Value}
use charles_mcp.Rules.Names.{Checked, normalize_host}
use charles_mcp.Rules.Model.{MockRule, rekey}
use charles_mcp.Rules.Match.{IncomingRequest}
use charles_mcp.Rules.Select.{select_rule}
use charles_mcp.Rules.Disk.{Disk, not_found, Stored}
use charles_mcp.Rules.Store.{rules_for_host, read_fixture}
use charles_mcp.Rules.Routes.{RouteConfig, list_routes, find_route}
use charles_mcp.Dispatcher.Framing.{Bytes, Framed, body, refused, out_of_fuel, status_of, read_body}
use charles_mcp.Dispatcher.Headers.{
  Headers, drop_request, drop_response, without, override_headers, edit_request_headers,
  sent_headers,
}
use charles_mcp.Dispatcher.Bodies.{Note, body_not_json, patch_failed, patch_json}
use charles_mcp.Dispatcher.Wire.{
  from_store, from_match, before_last, is_health_path, upstream_url, status_or, json_type,
  is_fixture, label_of, request_patches, response_patches, request_edits, refusal_warning, Call,
  Answer, Message, Env, Arrival, Reply, Failure, Handled, bad_body, bad_host_header, not_routed,
  no_fixture, upstream_failed, store_failed, patch_crashed, fuel_ended,
}

module _ (env : Env) where
  -- `self.headers.get(name)`: the first header of that name, in any case.
  unfoldable pub get_header : Text → Headers → Option Text
  get_header name [] = none
  get_header name ((key, value) ∷ headers) =
      let rest = get_header name headers in
      if env.tables.lower key == name then some value else rest

  abbrev pub header_or_empty : Text → Headers → Text
  header_or_empty name headers = elim (get_header name headers) [ none ↦ [] | some value ↦ value ]

  abbrev note_text : Note → Text
  note_text body_not_json = codes "body-not-json-patches-skipped"
  note_text (patch_failed reason) = codes "patch-failed: " ++ env.reason_text reason

  -- `_send`, with `close_connection` left as it was.
  unfoldable pub send : Text → ℕ → Headers → Bytes → Text → List Text → Reply
  unfolding sent_headers
  send command status headers content rule_label warnings = record {
    status = status;
    sent = sent_headers env.tables env.date headers content rule_label warnings;
    content = if command == codes "HEAD" then [] else content;
    close = false;
  }

  unfoldable pub send_error : Text → ℕ → Message → Text → Reply
  unfolding send
  send_error command status message rule_label =
      send command status json_type (env.error_body message) rule_label []

  -- `if patches: body, warning = _patch_json(...)`, with the warning behind a prefix.
  unfoldable pub patch_body : Text → List Value → Text → Bytes → Outcome Failure (Bytes × List Text)
  unfolding patch_json
  patch_body prefix [] content_type content = ok (content, [])
  patch_body prefix (p ∷ patches) content_type content =
      elim (patch_json env.py env.tables env.dec env.writer env.codecs content (p ∷ patches)
        content_type) [
          | raise e ↦ raise (patch_crashed e)
          | ok (patched, none) ↦ ok (patched, [])
          | ok (patched, some note) ↦ ok (patched, (prefix ++ note_text note) ∷ [])
        ]

  abbrev pub fixture_reply : Text → MockRule → Stored Bytes → Outcome Failure Reply
  fixture_reply command rule (raise not_found) = ok (send_error command 500 no_fixture rule.id)
  fixture_reply command rule (raise e) = raise (store_failed e)
  fixture_reply command rule (ok stored) = do
    (content, warnings) ← patch_body [] rule.response.patches [] stored
    ok (
        send command (status_or rule.response.status 200)
          (override_headers env.tables json_type rule.response.headers) content rule.id warnings)

  -- `_serve_fixture`
  unfoldable pub serve_fixture : Text → MockRule → Disk → Outcome Failure Reply
  unfolding read_fixture patch_body send send_error override_headers
  serve_fixture command rule disk =
      fixture_reply command rule (read_fixture env.py env.tables env.rules rule.host rule.id disk)

  abbrev pub edited_headers : Headers → Dict Text (Option Text) → Headers × List Text
  edited_headers headers [] = (headers, [])
  edited_headers headers (e ∷ edits) =
      let (changed, refused_names) = edit_request_headers env.tables headers (e ∷ edits) in
      (changed, refusal_warning refused_names)

  abbrev pub answer_status : Option MockRule → ℕ → ℕ
  answer_status none status = status
  answer_status (some rule) status = status_or rule.response.status status

  abbrev pub answer_headers : Option MockRule → Headers → Headers
  answer_headers none headers = headers
  answer_headers (some rule) headers = override_headers env.tables headers rule.response.headers

  -- What `_forward` does with the answer of the upstream.
  unfoldable pub relay :
      Text → Option MockRule → List Text → Outcome Text Answer → Outcome Failure Reply
  unfolding patch_body send send_error override_headers without
  relay command rule warnings (raise name) =
      ok (send_error command 502 (upstream_failed name) (label_of rule (codes "error")))
  relay command rule warnings (ok answer) = do
    (content, more) ← patch_body [] (response_patches rule) [] answer.content
    ok (
        send command (answer_status rule answer.status)
          (answer_headers rule (without env.tables drop_response answer.headers)) content
          (label_of rule (codes "passthrough")) (warnings ++ more))

  -- The upstream call of `_forward`, with the warnings so far.
  unfoldable pub upstream_call :
      RouteConfig → Text → Arrival → Bytes → Option MockRule → Outcome Failure (Call × List Text)
  unfolding patch_body edit_request_headers without upstream_url get_header
  upstream_call route host arrival content rule = do
    (patched, warnings) ←
        patch_body (codes "request-") (request_patches rule)
          (header_or_empty (codes "content-type") arrival.headers) content
    let (headers, more) =
        edited_headers (without env.tables drop_request arrival.headers) (request_edits rule)
    ok (
      record {
        verify_tls = route.verify_tls;
        method = arrival.command;
        url = upstream_url route host arrival.target;
        headers = headers;
        content = patched;
      },
      warnings ++ more,
    )

  abbrev pub calling : Text → Option MockRule → Outcome Failure (Call × List Text) → Handled
  calling command rule (raise e) = record { calls = []; outcome = raise e }
  calling command rule (ok (call, warnings)) = record {
    calls = call ∷ [];
    outcome = relay command rule warnings (env.upstream call);
  }

  -- `_forward`
  unfoldable pub forward : RouteConfig → Text → Arrival → Bytes → Option MockRule → Handled
  unfolding upstream_call relay
  forward route host arrival content rule =
      calling arrival.command rule (upstream_call route host arrival content rule)

  abbrev pub uncalled : Outcome Failure Reply → Handled
  uncalled outcome = record { calls = []; outcome = outcome }

  -- The `IncomingRequest` that is matched.
  unfoldable pub incoming : Arrival → Text → Bytes → IncomingRequest
  unfolding rekey get_header
  incoming arrival host content = record {
    method = arrival.command;
    path = (env.urlsplit arrival.target).0;
    query = env.dec.parse_qs (env.urlsplit arrival.target).1;
    headers = rekey env.tables.lower [] arrival.headers;
    body = content;
    content_type = header_or_empty (codes "content-type") arrival.headers;
    host = host;
  }

  -- The rule that is selected, if the route table and the rules can be read.
  unfoldable pub chosen_rule : Arrival → Text → Bytes → Disk → Outcome Failure (Option MockRule)
  unfolding rules_for_host select_rule incoming
  chosen_rule arrival host content disk = do
    (rules, errors) ← from_store (rules_for_host env.py env.tables env.rules host disk)
    from_match (select_rule env.py env.tables env.dec rules (incoming arrival host content))

  abbrev pub by_rule :
      RouteConfig → Text → Arrival → Bytes → Disk → Outcome Failure (Option MockRule) → Handled
  by_rule route host arrival content disk (raise e) = uncalled (raise e)
  by_rule route host arrival content disk (ok none) = forward route host arrival content none
  by_rule route host arrival content disk (ok (some rule)) =
      if is_fixture rule.response.mode
      then uncalled (serve_fixture arrival.command rule disk)
      else forward route host arrival content (some rule)

  abbrev pub by_route : Text → Arrival → Bytes → Disk → Stored (Option RouteConfig) → Handled
  by_route host arrival content disk (raise e) = uncalled (raise (store_failed e))
  by_route host arrival content disk (ok none) = uncalled (
      ok (
        send_error arrival.command 421 (not_routed host (env.urlsplit arrival.target).0)
          (codes "error")))
  by_route host arrival content disk (ok (some route)) =
      by_rule route host arrival content disk (chosen_rule arrival host content disk)

  abbrev pub by_host : Arrival → Bytes → Disk → Checked Text → Handled
  by_host arrival content disk (raise p) =
      uncalled (ok (send_error arrival.command 421 bad_host_header (codes "error")))
  by_host arrival content disk (ok host) =
      by_route host arrival content disk
        (find_route env.tables env.routes host (some (env.urlsplit arrival.target).0) disk)

  -- `_send_health`
  unfoldable pub send_health : Text → Text → Disk → Outcome Failure Reply
  unfolding list_routes send
  send_health command path disk = do
    routes ← from_store (list_routes env.tables env.routes disk)
    ok (send command 200 json_type (env.health_body path routes) (codes "health") [])

  -- `normalize_host(self.headers.get("Host", "").rsplit(":", 1)[0])`
  unfoldable pub host_of : Headers → Checked Text
  unfolding normalize_host before_last get_header
  host_of headers =
      normalize_host env.tables (before_last b':' (header_or_empty (codes "host") headers))

  abbrev pub by_body : Arrival → Disk → Framed → Handled
  by_body arrival disk out_of_fuel = uncalled (raise fuel_ended)
  by_body arrival disk (refused r) = uncalled (
      ok (record (send_error arrival.command (status_of r) (bad_body r) (codes "error")) {
        close = true;
      }))
  by_body arrival disk (body content rest) =
      if is_health_path (env.urlsplit arrival.target).0
      then uncalled (send_health arrival.command (env.urlsplit arrival.target).0 disk)
      else by_host arrival content disk (host_of arrival.headers)

  -- `_dispatch`, with `max_body_bytes`.
  unfoldable pub dispatch : ℕ → Arrival → Disk → Handled
  unfolding read_body get_header is_health_path send_health host_of find_route chosen_rule forward
      serve_fixture send_error
  dispatch max_body_bytes arrival disk = by_body arrival disk (
      read_body env.numerals max_body_bytes
        (header_or_empty (codes "transfer-encoding") arrival.headers)
        (get_header (codes "content-length") arrival.headers) arrival.stream)
