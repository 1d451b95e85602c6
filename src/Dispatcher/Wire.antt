-- ===== src/Dispatcher/Wire.antt =====
-- What the handler of a request takes, gives and calls, and its helpers.
use charles_mcp.Prelude.{
  ℕ, zero, suc, Bool, true, false, ◌&&◌, not, Option, none, some, List, [], ◌∷◌, ◌++◌, contains,
  ◌==◌, nat_eq, if◌then◌else◌,
}
use charles_mcp.Prelude.Text.{Text, codes, text_eq}
use charles_mcp.Prelude.Strings.{ends_with, rstrip, CaseTables}
use charles_mcp.Prelude.Dict.{Dict}
use charles_mcp.Prelude.Number.{str_nat}
use charles_mcp.Prelude.Outcome.{Outcome, ok, raise}
use charles_mcp.Json.{Value}
use charles_mcp.JsonPatch.Python.{Python, Fault, Reason, Result}
use charles_mcp.JsonPatch.Dump.{Writer}
use charles_mcp.Rules.Model.{MockRule, Mode, fixture}
use charles_mcp.Rules.Match.{Decoders}
use charles_mcp.Rules.Disk.{StoreFault, Stored}
use charles_mcp.Rules.Store.{Codec}
use charles_mcp.Rules.Routes.{RouteConfig, Scheme, https, http}
use charles_mcp.Dispatcher.Framing.{Bytes, Numerals, Refusal}
use charles_mcp.Dispatcher.Headers.{Headers}
use charles_mcp.Dispatcher.Bodies.{Crash, Codecs}

-- The arguments of `httpx.Client.request`, with the certificate check of the client that is taken.
pub record Call : Type 0 where
  pub verify_tls : Bool
  pub method : Text
  pub url : Text
  pub headers : Headers
  pub content : Bytes

pub record Answer : Type 0 where
  pub status : ℕ
  pub headers : Headers
  pub content : Bytes

-- The messages of `_send_error_json`.
pub data Message : Type 0 where
  bad_body : Refusal → Message
  bad_host_header : Message
  not_routed : Text → Text → Message
  no_fixture : Message
  upstream_failed : Text → Message

-- What the handler takes from Python, httpx and pydantic.
pub record Env : Type 0 where
  pub py : Python
  pub tables : CaseTables
  pub dec : Decoders
  pub writer : Writer
  pub codecs : Codecs
  pub numerals : Numerals
  pub rules : Codec MockRule
  pub routes : Codec (List RouteConfig)
  -- `urlsplit(target)`: the path and the query.
  pub urlsplit : Text → Text × Text
  -- `date_time_string()`
  pub date : Text
  -- `json.dumps({"error": message})` and the payload of the health probe.
  pub error_body : Message → Bytes
  pub health_body : Text → List RouteConfig → Bytes
  -- `str(exc)` of a `JsonPatchError`.
  pub reason_text : Reason → Text
  -- The upstream server; on the left the name of the `httpx.HTTPError`.
  pub upstream : Call → Outcome Text Answer

-- What arrives: the request line, the headers and the bytes that follow.
pub record Arrival : Type 0 where
  pub command : Text
  pub target : Text
  pub headers : Headers
  pub stream : Bytes

-- `sent` is the header list as it is written; a HEAD request gets no body.
pub record Reply : Type 0 where
  pub status : ℕ
  pub sent : Headers
  pub content : Bytes
  pub close : Bool

-- An exception that leaves the handler: the connection closes without a reply.
pub data Failure : Type 0 where
  store_failed : StoreFault → Failure
  match_failed : Fault → Failure
  patch_crashed : Crash → Failure
  fuel_ended : Failure

-- The calls to the upstream, and what came of the request.
pub record Handled : Type 0 where
  pub calls : List Call
  pub outcome : Outcome Failure Reply

abbrev pub from_store {ℓ} : {A : Type ℓ} → Stored A → Outcome Failure A
from_store (ok a) = ok a
from_store (raise e) = raise (store_failed e)

abbrev pub from_match {ℓ} : {A : Type ℓ} → Result A → Outcome Failure A
from_match (ok a) = ok a
from_match (raise e) = raise (match_failed e)

-- `rsplit(sep, 1)[0]`
unfoldable pub before_last : ℕ → Text → Text
before_last sep [] = []
before_last sep (c ∷ cs) =
    let rest = before_last sep cs in if c == sep && not (contains cs sep) then [] else c ∷ rest

unfoldable pub is_health_path : Text → Bool
unfolding rstrip ends_with
is_health_path path = ends_with (codes "/__charles-mcp/health") (rstrip (λ c. c == b'/') path)

abbrev pub scheme_text : Scheme → Text
scheme_text https = codes "https"
scheme_text http = codes "http"

abbrev pub default_port : Scheme → ℕ
default_port https = 443
default_port http = 80

-- The URL of the upstream call.
unfoldable pub upstream_url : RouteConfig → Text → Text → Text
upstream_url route host target =
    let scheme = route.upstream_scheme in
    let port : Text =
      if route.upstream_port == default_port scheme
      then []
      else b':' ∷ str_nat route.upstream_port in
    scheme_text scheme ++ codes "://" ++ host ++ port ++ target

-- `status or default`
abbrev pub status_or : Option ℕ → ℕ → ℕ
status_or none default = default
status_or (some zero) default = default
status_or (some (suc n)) default = suc n

abbrev pub json_type : Headers
json_type = (codes "Content-Type", codes "application/json; charset=utf-8") ∷ []

abbrev pub is_fixture : Mode → Bool
is_fixture fixture = true
is_fixture _ = false

abbrev pub label_of : Option MockRule → Text → Text
label_of none default = default
label_of (some rule) default = rule.id

abbrev pub request_patches : Option MockRule → List Value
request_patches none = []
request_patches (some rule) = rule.request.patches

abbrev pub response_patches : Option MockRule → List Value
response_patches none = []
response_patches (some rule) = rule.response.patches

abbrev pub request_edits : Option MockRule → Dict Text (Option Text)
request_edits none = []
request_edits (some rule) = rule.request.headers

-- `", ".join(names)`
abbrev pub comma_join : List Text → Text
comma_join [] = []
comma_join (name ∷ []) = name
comma_join (name ∷ next ∷ names) = name ++ codes ", " ++ comma_join (next ∷ names)

abbrev pub refusal_warning : List Text → List Text
refusal_warning [] = []
refusal_warning (name ∷ names) =
    (codes "request header edits ignored for "
      ++ comma_join (name ∷ names)
      ++ codes ": managed by the dispatcher")
    ∷ []
