-- ===== src/Tests/Flow.antt =====
-- charles_mcp/mocks/dispatcher.py: requests to a route with a rule for every host.
use charles_mcp.Prelude.{ap, ◌≡◌, refl, true, false, [], ◌∷◌, if◌then◌else◌}
use charles_mcp.Prelude.Text.{Text, codes, text_eq}
use charles_mcp.Prelude.Number.{str_nat}
use charles_mcp.Prelude.Outcome.{ok}
use charles_mcp.Prelude.Int.{pos}
use charles_mcp.Json.{Value}
use charles_mcp.JsonPatch.Dump.{is_float_literal}
use charles_mcp.JsonPatch.Dump.Spelling.{Spelled, obj, field, number, end}
use charles_mcp.Dispatcher.Headers.Sent.{values_of}
use charles_mcp.Dispatcher.Wire.{Env, Call, Arrival, Reply}
use charles_mcp.Dispatcher.Flow.{dispatch}
use charles_mcp.Dispatcher.Flow.Replies.{dispatch-HasLength}
use charles_mcp.Tests.Samples.{
  plain_python, ascii_tables, ascii_tables-IsLower, plain_decoders, plain_writer, plain_codecs,
  rule_codec, route_codec, wallet_disk,
}
use charles_mcp.Tests.Dispatch.{digits}
use charles_mcp.Prelude.Strings.{split, starts_with, strip}
use charles_mcp.Rules.Names.{
  host_matches, host_re, is_host_pattern, normalize_host_pattern, tidy_host,
}
use charles_mcp.Prelude.Dict.{lookup}
use charles_mcp.Rules.Routes.{check_route, check_routes, normalize_paths, serves}
use charles_mcp.Rules.Path.{normalize_path_pattern, path_matches}
use charles_mcp.Rules.Store.{load_dir, load_names, json_names, parse_rule}
use charles_mcp.Rules.Disk.{files_of, read_file}
use charles_mcp.Rules.Model.{check_rule}
use charles_mcp.Rules.Match.{rule_matches}

abbrev wallet_env : Env
wallet_env = record {
  py = plain_python;
  tables = ascii_tables;
  dec = plain_decoders;
  writer = plain_writer;
  codecs = plain_codecs;
  numerals = digits;
  rules = rule_codec;
  routes = route_codec;
  urlsplit = λ target. (target, []);
  date = codes "D";
  error_body = λ message. codes "e";
  health_body = λ path routes. codes "h";
  reason_text = λ reason. [];
  upstream = λ call. ok (record { status = 200; headers = []; content = codes "ok" });
}

abbrev get_wallet : Arrival
get_wallet = record {
  command = codes "GET";
  target = codes "/w";
  headers = (codes "Host", codes "a.b:80") ∷ (codes "Accept", codes "x") ∷ [];
  stream = [];
}

abbrev wallet_call : Call
wallet_call = record {
  verify_tls = true;
  method = codes "GET";
  url = codes "https://a.b/w";
  headers = (codes "Accept", codes "x") ∷ [];
  content = [];
}

abbrev wallet_reply : Reply
wallet_reply = record {
  status = 200;
  sent =
      (codes "Date", codes "D")
      ∷ (codes "Server", codes "charles-mcp-dispatcher")
      ∷ (codes "Content-Length", codes "2")
      ∷ (codes "X-Charles-MCP-Rule", codes "s")
      ∷ [];
  content = codes "ok";
  close = false;
}

-- The request is sent to the upstream, without its Host.
dispatched :
    dispatch wallet_env 9 get_wallet wallet_disk
    ≡ record { calls = wallet_call ∷ []; outcome = ok wallet_reply }
unfolding dispatch text_eq split strip starts_with tidy_host host_re lookup check_routes check_route
    normalize_host_pattern is_host_pattern normalize_paths normalize_path_pattern serves
    host_matches path_matches load_dir load_names json_names files_of read_file parse_rule
    check_rule rule_matches str_nat
dispatched = refl

answered : (dispatch wallet_env 9 get_wallet wallet_disk).outcome ≡ ok wallet_reply
answered = ap (λ handled. handled.outcome) dispatched

dispatch-HasLength_example :
    values_of ascii_tables (codes "content-length") wallet_reply.sent ≡ str_nat 2 ∷ []
dispatch-HasLength_example =
    dispatch-HasLength wallet_env ascii_tables-IsLower 9 get_wallet wallet_disk wallet_reply
      (unfold text_eq in refl) answered

abbrev amount : Spelled
amount = obj (field (codes "a") (number (codes "1.0")) end)

abbrev read_number : Text → Value
read_number literal = if is_float_literal literal then Value.float literal else Value.int (pos 0)
