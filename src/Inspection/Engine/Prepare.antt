-- ===== src/Inspection/Engine/Prepare.antt =====
-- inspection/engine.py: the checks of a request's head and target (`inspect_metadata`), the policy for
-- personal data (`_pii_policy`) and what stands in `inspect_request` before the attestation is verified.

use ai_security_gateway.Base.{
  text_before, String, Bool, true, false, ◌&&◌, not, Option, none, some, List, [], ◌∷◌, ◌++◌, ◌==◌,
  str_eq, contains, if◌then◌else◌,
}
use ai_security_gateway.Base.Dict
use ai_security_gateway.Base.Dict.{Dict}
use ai_security_gateway.Base.Exec.{pure, raise, lift, ◌>>=◌, ◌>>◌}
use ai_security_gateway.Broker.Evaluate.{is_given}
use ai_security_gateway.Inspection.Json.{Json, str, obj, end}
use ai_security_gateway.Inspection.Contracts.{
  inspection_error, Bytes, InspectionConfig, HttpMessage, RouteRule, ToolRule, PiiAction, PiiScope,
  global, route, mcp, http, Verdict, Effect,
}
use ai_security_gateway.Inspection.Identity.{Crypto, request_digest, application_headers}
use ai_security_gateway.Inspection.Session.{Parts, I, find, signatures, update, refuse_if, is_empty}
use ai_security_gateway.Inspection.Redact.{json_eq, redact_value}

abbrev pub bytes_eq : Bytes → Bytes → Bool
bytes_eq [] [] = true
bytes_eq (b ∷ bs) (c ∷ cs) = b == c && bytes_eq bs cs
bytes_eq [] (c ∷ cs) = false
bytes_eq (b ∷ bs) [] = false

abbrev pub or_empty : Option String → String
or_empty none = ""
or_empty (some t) = t

abbrev pub Semantics : Type 0
Semantics = String × String × String

abbrev pub same_semantics : Semantics → Semantics → Bool
same_semantics (a, b, c) (d, e, f) = str_eq a d && str_eq b e && str_eq c f

unfoldable pub rule_of : RouteRule → String → Option ToolRule
rule_of r tool = elim r.protocol [ mcp ↦ Dict.get tool r.tools | http ↦ r.rule ]

abbrev pub is_blocked : Option ToolRule → Bool
is_blocked none = false
is_blocked (some rule) = elim rule.effect [ Effect.block ↦ true | Effect.allow ↦ false ]

-- The policy of the tool, of the route, of the configuration.
abbrev pub tool_action : Option ToolRule → Option PiiAction
tool_action none = none
tool_action (some rule) = rule.pii_action

abbrev pub route_action : Option RouteRule → Option PiiAction
route_action none = none
route_action (some r) = r.pii_action

-- `_pii_policy`
unfoldable pub pii_policy :
    InspectionConfig → Option RouteRule → Option ToolRule → PiiAction × PiiScope
pii_policy config r rule = elim (tool_action rule) [
  | some a ↦ (a, PiiScope.tool)
  | none ↦ elim (route_action r) [ some a ↦ (a, route) | none ↦ (config.pii_action, global) ]
]

abbrev pub secret_headers : List String
secret_headers =
    "authorization" ∷ "proxy-authorization" ∷ "cookie" ∷ "x-api-key" ∷ "api-key" ∷ "x-goog-api-key"
    ∷ []

abbrev pub json_media : List String
json_media = "application/json" ∷ "application/json-rpc" ∷ []

-- The request as it goes on: its bytes, what it does and its digest.
pub record Prepared : Type 0 where
  pub body : Bytes
  pub semantics : Semantics
  pub digest : String

unfoldable pub media_type : Parts → HttpMessage → String
media_type parts m = parts.strip (text_before b';' (or_empty (Dict.get "content-type" m.headers)))

abbrev pub noted : Semantics → PiiAction × PiiScope → Verdict → Verdict
noted (tool, action, resource) (pii, scope) v = record v {
  tool = some tool;
  access_action = some action;
  pii_policy_action = some pii;
  pii_policy_scope = some scope;
}

module _ {File : Type 0} (parts : Parts) (config : InspectionConfig) where
  -- A text that may hold neither an instruction nor personal data.
  unfoldable pub check_text : String → String → I File (Unit {0})
  check_text text reason = do
    signatures parts config (str text)
    found ← find parts config text
    refuse_if (not (is_empty found)) reason

  unfoldable pub check_headers : Bool → Dict String → I File (Unit {0})
  check_headers response [] = pure tt
  check_headers response ((k, v) ∷ hs) =
      (if not response && contains (secret_headers ++ config.credential_headers) k
        then pure tt
        else check_text v "pii_in_http_header")
      >> check_headers response hs

  unfoldable pub check_candidates : List String → I File (Unit {0})
  check_candidates [] = pure tt
  check_candidates (t ∷ ts) = check_text t "pii_in_request_target" >> check_candidates ts

  unfoldable pub check_query : List String → Option (List String) → I File (Unit {0})
  check_query texts none = raise (inspection_error "request_query_limit_exceeded")
  check_query texts (some more) = check_candidates (texts ++ more)

  unfoldable pub check_target : HttpMessage → I File (Unit {0})
  check_target m = do
    texts ← lift (parts.path_texts m.path)
    check_query texts (parts.query_texts m.path)

  -- `inspect_metadata`
  unfoldable pub inspect_metadata : Bool → HttpMessage → I File (Unit {0})
  inspect_metadata response m = do
    check_headers response (application_headers m.headers)
    if response then pure tt else check_target m

  unfoldable pub read_body : HttpMessage → I File Json
  read_body m = if is_empty m.body then pure (obj end) else lift (parts.strict_json m.body)

  unfoldable pub encode_changed : Bytes → Json → Json → I File Bytes
  encode_changed original value modified =
      if json_eq modified value then pure original else lift (parts.encode_json modified)

  -- The value with its redactions, and its bytes.
  unfoldable pub redact_request :
      HttpMessage → RouteRule → Semantics → PiiAction → Json → I File Bytes
  redact_request m r original action value = do
    signatures parts config value
    lift (parts.check_egress value)
    modified ←
        redact_value parts config (is_given r.llm_provider) (some r.redact_fields) action value
    body ← encode_changed m.body value modified
    again ← lift (parts.semantics m r modified)
    refuse_if (not (same_semantics again original)) "redaction_changed_authorized_action"
    pure body

  unfoldable pub check_llm : Json → RouteRule → I File (Unit {0})
  check_llm value r =
      if is_given r.llm_provider then lift (parts.validate_llm value r false) else pure tt

  -- The redaction of a request whose route and meaning are known.
  unfoldable pub redact_mapped :
      Crypto → HttpMessage → RouteRule → Json → Semantics → I File Prepared
  redact_mapped crypto m r value original = do
    let rule = rule_of r original.0
    let policy = pii_policy config (some r) rule
    update (noted original policy)
    refuse_if (is_blocked rule) "local_policy_denied"
    body ← redact_request m r original policy.0 value
    let digest = request_digest crypto (record m { body = body })
    update (λ v. record v {
      request_digest = some digest;
      body = if bytes_eq body m.body then none else some body;
    })
    pure (record { body = body; semantics = original; digest = digest })

  -- What stands before the attestation is verified.
  unfoldable pub prepare : Crypto → HttpMessage → I File Prepared
  prepare crypto m = do
    lift (parts.validate_message m)
    r ← lift (parts.route_for m)
    inspect_metadata false m
    refuse_if (not (is_empty m.body) && not (contains json_media (media_type parts m)))
        "unsupported_request_media_type"
    value ← read_body m
    check_llm value r
    original ← lift (parts.semantics m r value)
    redact_mapped crypto m r value original
