-- ===== src/Dispatcher/Flow/Length.antt =====
-- The Content-Length of the replies.
use charles_mcp.Prelude.{
  ℕ, ◌≡◌, refl, ◌∙◌, false, Option, none, some, List, [], ◌∷◌, ◌++◌, any, contains, length, ◌==◌,
  eq_iff, eq_sym, arith,
}
use charles_mcp.Prelude.Text.{Text, codes, text_eq}
use charles_mcp.Prelude.Strings.{CaseTables}
use charles_mcp.Prelude.Dict.{Dict, keys}
use charles_mcp.Prelude.Number.{str_nat}
use charles_mcp.Prelude.Outcome.{Outcome, ok, raise, ◌>>=◌}
use charles_mcp.JsonPatch.Python.{Python}
use charles_mcp.Rules.Model.{
  MockRule, RuleResponse, check_response, check_headers, is_refused_header,
}
use charles_mcp.Dispatcher.Headers.{Headers, lowered, without, override_headers, drop_response}
use charles_mcp.Dispatcher.Headers.Sent.{
  IsLower, values_of, values_of-without, values_of-override_headers, values_of-sent_headers,
}
use charles_mcp.Dispatcher.Framing.{Bytes}
use charles_mcp.Rules.Disk.{Disk, Stored, not_found}
use charles_mcp.Rules.Store.{read_fixture}
use charles_mcp.Rules.Routes.{RouteConfig}
use charles_mcp.Dispatcher.Wire.{
  Env, Call, Answer, Arrival, Reply, Failure, Message, no_fixture, upstream_failed, json_type,
  status_or, label_of, response_patches,
}
use charles_mcp.Dispatcher.Flow.{
  send, send_error, patch_body, fixture_reply, serve_fixture, answer_status, answer_headers, relay,
  upstream_call, calling, forward,
}

abbrev pub length_name : Text
length_name = codes "content-length"

module _ (py : Python) (tables : CaseTables) where
  any_refused :
      (headers : Dict Text Text)
      → any (λ name. is_refused_header (tables.lower name)) (keys headers) ≡ false
      → contains (lowered tables headers) length_name ≡ false
  any_refused [] h = refl
  any_refused ((name, value) ∷ headers) h = ground (
    arith,
    any_refused headers,
    eq_sym (tables.lower name) length_name,
    eq_iff (tables.lower name) length_name,
  )

  -- A response that the validators accept declares no length.
  pub check_response-lowered :
      (r : RuleResponse)
      → check_response tables py r ≡ ok tt
      → contains (lowered tables r.headers) length_name ≡ false
  unfolding check_response check_headers
  check_response-lowered r h = any_refused r.headers (ground arith)

module _ (env : Env) (l : IsLower env.tables) where
  -- The length that a reply announces is that of its body; a HEAD request gets no body.
  abbrev pub HasLength : Text → Reply → Type 0
  HasLength command reply =
      (command == codes "HEAD") ≡ false
      → values_of env.tables length_name reply.sent ≡ str_nat (length reply.content) ∷ []

  pub send-HasLength :
      (command : Text) (status : ℕ) (headers : Headers) (content : Bytes) (label : Text)
      (warnings : List Text)
      → values_of env.tables length_name headers ≡ []
      → HasLength command (send env command status headers content label warnings)
  unfolding send
  send-HasLength command status headers content label warnings none_yet other =
      rw other
        (values_of-sent_headers env.tables l env.date headers content label warnings none_yet)

  pub json_type-length : values_of env.tables length_name json_type ≡ []
  json_type-length = rw (l.on_ascii (codes "Content-Type") (ground arith)) (unfold text_eq in refl)

  pub send_error-HasLength :
      (command : Text) (status : ℕ) (message : Message) (label : Text)
      → HasLength command (send_error env command status message label)
  unfolding send_error
  send_error-HasLength command status message label =
      send-HasLength command status json_type (env.error_body message) label [] json_type-length

  dropped :
      (headers : Headers)
      → values_of env.tables length_name (without env.tables drop_response headers) ≡ []
  dropped headers =
      values_of-without env.tables length_name drop_response headers ∙ unfold text_eq in refl

  -- Of a request that fails nothing is asked.
  abbrev pub Announces : Text → Outcome Failure Reply → Type 0
  Announces command (raise e) = Unit {0}
  Announces command (ok reply) = HasLength command reply

  abbrev pub RuleFits : MockRule → Type 0
  RuleFits rule = contains (lowered env.tables rule.response.headers) length_name ≡ false

  override-length :
      (rule : MockRule) (headers : Headers)
      → RuleFits rule
      → values_of env.tables length_name headers ≡ []
      → values_of env.tables length_name (override_headers env.tables headers rule.response.headers)
        ≡ []
  override-length rule headers fits none_yet =
      values_of-override_headers env.tables length_name headers rule.response.headers
      ∙ rw fits none_yet

  -- A chain that ends in a reply with its length.
  pub chain-Announces {ℓ} :
      {A : Type ℓ} (command : Text) (m : Outcome Failure A) (f : A → Outcome Failure Reply)
      → ((a : A) → Announces command (f a))
      → Announces command (m >>= f)
  chain-Announces command (raise e) f h = tt
  chain-Announces command (ok a) f h = h a

  pub serve_fixture-Announces :
      (command : Text) (rule : MockRule) (disk : Disk)
      → RuleFits rule
      → Announces command (serve_fixture env command rule disk)
  unfolding serve_fixture
  serve_fixture-Announces command rule disk fits =
      by_file (read_fixture env.py env.tables env.rules rule.host rule.id disk)
    where
      by_file : (stored : Stored Bytes) → Announces command (fixture_reply env command rule stored)
      by_file (raise not_found) = send_error-HasLength command 500 no_fixture rule.id
      by_file (raise _) = tt
      by_file (ok stored) =
          chain-Announces command (patch_body env [] rule.response.patches [] stored) _ (λ p.
            send-HasLength command (status_or rule.response.status 200)
              (override_headers env.tables json_type rule.response.headers) p.0 rule.id p.1
              (override-length rule json_type fits json_type-length))

  abbrev pub ChosenFits : Option MockRule → Type 0
  ChosenFits none = Unit {0}
  ChosenFits (some rule) = RuleFits rule

  answer_headers-length :
      (rule : Option MockRule) (headers : Headers)
      → ChosenFits rule
      → values_of env.tables length_name
          (answer_headers env rule (without env.tables drop_response headers))
        ≡ []
  answer_headers-length none headers fits = dropped headers
  answer_headers-length (some rule) headers fits =
      override-length rule (without env.tables drop_response headers) fits (dropped headers)

  relay-Announces :
      (command : Text) (rule : Option MockRule) (warnings : List Text)
      (result : Outcome Text Answer)
      → ChosenFits rule
      → Announces command (relay env command rule warnings result)
  unfolding relay
  relay-Announces command rule warnings (raise name) fits =
      send_error-HasLength command 502 (upstream_failed name) (label_of rule (codes "error"))
  relay-Announces command rule warnings (ok answer) fits =
      chain-Announces command (patch_body env [] (response_patches rule) [] answer.content) _ (λ p.
        send-HasLength command (answer_status env rule answer.status)
          (answer_headers env rule (without env.tables drop_response answer.headers)) p.0
          (label_of rule (codes "passthrough")) (warnings ++ p.1)
          (answer_headers-length rule answer.headers fits))

  pub forward-Announces :
      (route : RouteConfig) (host : Text) (arrival : Arrival) (content : Bytes)
      (rule : Option MockRule)
      → ChosenFits rule
      → Announces arrival.command (forward env route host arrival content rule).outcome
  unfolding forward
  forward-Announces route host arrival content rule fits =
      by_call (upstream_call env route host arrival content rule)
    where
      by_call :
          (made : Outcome Failure (Call × List Text))
          → Announces arrival.command (calling env arrival.command rule made).outcome
      by_call (raise e) = tt
      by_call (ok (call, warnings)) =
          relay-Announces arrival.command rule warnings (env.upstream call) fits
