-- ===== src/Tests/Samples.antt =====
-- A small Python, a rule, a route table and a disk, for the tests of the rules and the dispatcher.
use charles_mcp.Prelude.{
  ◌-◌, refl, true, false, ◌&&◌, none, some, List, [], ◌∷◌, map, leb, ◌==◌, if◌then◌else◌,
}
use charles_mcp.Prelude.Text.{codes, text_eq}
use charles_mcp.Prelude.Int.{pos}
use charles_mcp.Prelude.Strings.{CaseTables}
use charles_mcp.Json.{Value, obj, field, end, bool}
use charles_mcp.JsonPatch.Python.{Python}
use charles_mcp.JsonPatch.Dump.{Writer}
use charles_mcp.Rules.Model.{MockRule, RuleMatch, patch}
use charles_mcp.Rules.Match.{Decoders, IncomingRequest}
use charles_mcp.Rules.Disk.{Disk, file, dir}
use charles_mcp.Rules.Store.{Codec}
use charles_mcp.Rules.Routes.{RouteConfig, https}
use charles_mcp.Dispatcher.Headers.Sent.{ascii_lower, IsLower}
use charles_mcp.Dispatcher.Bodies.{Codecs}

abbrev pub plain_python : Python
plain_python = record {
  is_digit = λ c. false;
  int_of = λ t. none;
  loads = λ t. if t == codes "true" then some (bool true) else none;
  dumps = λ v. codes "1";
  str_of = λ v. codes "1";
  equal = λ v w. false;
}

abbrev pub ascii_tables : CaseTables
ascii_tables = record {
  lower = map ascii_lower;
  upper = map (λ c. if leb b'a' c && leb c b'z' then c - 32 else c);
}

pub ascii_tables-IsLower : IsLower ascii_tables
ascii_tables-IsLower = record { on_ascii = λ t h. refl }

abbrev pub plain_decoders : Decoders
plain_decoders = record { decode = λ b. b; parse_qs = λ t. [] }

abbrev pub plain_writer : Writer
plain_writer = record {
  loads_literal = λ t.
      if t == codes "{a:1.0}"
      then some (obj (field (codes "a") (Value.float (codes "1.0")) end))
      else none;
  dumps_text = λ b t. t;
  same_float = λ t v. true;
  encode = λ t. t;
}

-- Every body with a byte 255 is no UTF-8.
abbrev pub plain_codecs : Codecs
plain_codecs = record {
  decode = λ b. if b == 255 ∷ [] then none else some b;
  urlencode = λ v. codes "k=v";
}

abbrev pub wallet_match : RuleMatch
wallet_match = record {
  method = some (codes "GET");
  path = codes "/w";
  query = [];
  headers = [];
  body = [];
}

abbrev pub wallet_rule : MockRule
wallet_rule = record {
  id = codes "r";
  host = codes "a.b";
  enabled = true;
  priority = pos 1;
  description = none;
  match = wallet_match;
  request = record { patches = []; headers = [] };
  response = record { mode = patch; status = none; headers = []; delay_ms = none; patches = [] };
  source_entry_id = none;
  created_at = [];
}

-- The same rule for every host.
abbrev pub any_rule : MockRule
any_rule = record wallet_rule { id = codes "s"; host = codes "*" }

abbrev pub wallet_request : IncomingRequest
wallet_request = record {
  method = codes "get";
  path = codes "/w";
  query = [];
  headers = [];
  body = [];
  content_type = [];
  host = codes "a.b";
}

-- A rule is encoded as its id; the ids of two rules are read back.
abbrev pub rule_codec : Codec MockRule
rule_codec = record {
  encode = λ rule. rule.id;
  decode = λ content.
      if content == codes "r"
      then some wallet_rule
      else if content == codes "s"
      then some any_rule
      else none;
}

abbrev pub wallet_route : RouteConfig
wallet_route = record {
  host = codes "a.b";
  upstream_scheme = https;
  upstream_port = 443;
  verify_tls = true;
  paths = codes "/*" ∷ [];
}

abbrev pub route_codec : Codec (List RouteConfig)
route_codec = record {
  encode = λ routes. codes "t";
  decode = λ content. if content == codes "t" then some (wallet_route ∷ []) else none;
}

-- The route table, and a rule for every host.
abbrev pub wallet_disk : Disk
wallet_disk = record {
  root =
      (codes "routes.json", file (codes "t"))
      ∷ (codes "_any", dir ((codes "s.json", codes "s") ∷ (codes "s.body", codes "x") ∷ []))
      ∷ [];
  archive = [];
}
