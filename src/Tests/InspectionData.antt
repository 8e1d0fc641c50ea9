-- ===== src/Tests/InspectionData.antt =====
-- A small installation of the inspection: one HTTP route, one trusted source, one attested message.
use ai_security_gateway.Base.{
  String, true, false, none, some, [], ◌∷◌, if◌then◌else◌, str_eq, codes,
}
use ai_security_gateway.Base.Result.{ok}
use ai_security_gateway.Inspection.Json.{str, int, obj, pos, end, field, Fields}
use ai_security_gateway.Inspection.Contracts.{
  HttpMessage, RouteRule, ToolRule, InspectionConfig, Effect, PiiAction, http, verdict, allow,
  inline,
}
use ai_security_gateway.Inspection.Identity.{Crypto, AttestationVerifier}
use ai_security_gateway.Inspection.Session.{Parts, Session, Finding}
use ai_security_gateway.Broker.Store.Snapshot.{Snapshot}
use ai_security_gateway.Tests.BrokerData.{digest, world}

abbrev pub payload : Fields
payload = field "nonce" (str "n-1") (
    field "issued_at" (int (pos 1)) (
      field "expires_at" (int (pos 30))
        (field "request_digest" (str digest) (field "source_id" (str "hop-1") end))))

abbrev pub crypto : Crypto
crypto = record {
  sha256_hex = λ _. digest;
  text_sha256_hex = λ _. digest;
  sorted_json = λ m a p h d. d;
  hmac_hex = λ k e. digest;
  payload = λ _. some (obj payload);
}

abbrev pub verifier : AttestationVerifier
verifier = record { key = []; max_age = 60; required_fields = "source_id" ∷ [] }

abbrev pub signed_by : String → HttpMessage
signed_by a = record {
  method = "POST";
  authority = "api.example";
  path = "/";
  headers =
      ("content-type", "text/plain")
      ∷ ("x-td-attestation", "abc.0123456789abcdef0123456789abcdef0123456789abcdef0123456789abcdef")
      ∷ ("x-agent", a)
      ∷ [];
  body = 104 ∷ [];
  complete = true;
}

abbrev pub message : HttpMessage
message = signed_by "one"

-- The same attestation in another message.
abbrev pub replayed : HttpMessage
replayed = signed_by "two"

abbrev pub email : Finding
email = record { entity_type = "EMAIL"; start = 0; stop = 1; score = 9 }

abbrev pub rule : ToolRule
rule = record {
  action = "write";
  effect = Effect.allow;
  pii_action = none;
  resource = some "inbox";
  resource_pointer = none;
  header_parameters = [];
}

abbrev pub route_rule : RouteRule
route_rule = record {
  authority = "api.example";
  path = "/";
  method = "POST";
  required_headers = [];
  protocol = http;
  pii_action = none;
  mcp_versions = [];
  tool_name = "http.request";
  rule = some rule;
  tools = [];
  llm_provider = none;
  allowed_models = [];
  redact_fields = [];
}

-- Letters that stand for personal data are found; the rest is clean.
abbrev pub parts : Parts
parts = record {
  analyze = λ t. ok (if str_eq t "@" then email ∷ [] else []);
  contains_secret = λ _. ok false;
  is_suspicious = λ _. some false;
  deadline_passed = λ _. false;
  seconds = λ n. n;
  strict_json = λ b. ok (str "@");
  encode_json = λ _. ok [];
  encode_utf8 = λ t. ok (codes t);
  decode_utf8 = λ b. ok "h";
  number_text = λ _. "0";
  strip = λ t. t;
  path_texts = λ t. ok (t ∷ []);
  query_texts = λ _. some [];
  validate_message = λ _. ok tt;
  route_for = λ _. ok route_rule;
  validate_llm = λ _ _ _. ok tt;
  semantics = λ _ _ _. ok ("http.request", "write", "inbox");
  check_egress = λ _. ok tt;
}

abbrev pub config : InspectionConfig
config = record {
  access_broker_enabled = true;
  trusted_sources = "hop-1" ∷ [];
  routes = route_rule ∷ [];
  allowed_egress_origins = [];
  credential_headers = [];
  max_body_bytes = 1024;
  max_json_depth = 32;
  pii_action = PiiAction.block;
  pii_min_score = 5;
  attestation_max_age_seconds = 60;
}

abbrev pub session : Session Snapshot
session = record {
  verdict = verdict allow "policy_allowed" inline;
  nonces = [];
  world = world;
  readings = 2;
}
