-- ===== src/Inspection/Contracts.antt =====
-- inspection/contracts.py: the rules, the messages, the verdicts and the exceptions of the inspection.
pub mod Evidence
use ai_security_gateway.Base.{ℕ, String, Bool, true, false, Option, none, List, []}
use ai_security_gateway.Base.Dict.{Dict}

-- What an inspection raises: an `InspectionError` with its reason code, or any other exception.
pub data Raised : Type 0 where
  inspection_error : String → Raised
  unicode_error other_exception : Raised

abbrev pub Bytes : Type 0
Bytes = List ℕ

pub data Effect : Type 0 where
  allow block : Effect

pub data PiiAction : Type 0 where
  redact block : PiiAction

pub data PiiScope : Type 0 where
  global route tool : PiiScope

pub data Mode : Type 0 where
  inline mirror : Mode

pub data Protocol : Type 0 where
  http mcp : Protocol

pub record ToolRule : Type 0 where
  pub action : String
  pub effect : Effect
  pub pii_action : Option PiiAction
  pub resource : Option String
  pub resource_pointer : Option String
  pub header_parameters : Dict String

pub record RouteRule : Type 0 where
  pub authority : String
  pub path : String
  pub method : String
  pub required_headers : Dict String
  pub protocol : Protocol
  pub pii_action : Option PiiAction
  pub mcp_versions : List String
  pub tool_name : String
  pub rule : Option ToolRule
  pub tools : Dict ToolRule
  pub llm_provider : Option String
  pub allowed_models : List String
  pub redact_fields : List String

pub record InspectionConfig : Type 0 where
  pub access_broker_enabled : Bool
  pub trusted_sources : List String
  pub routes : List RouteRule
  pub allowed_egress_origins : List String
  pub credential_headers : List String
  pub max_body_bytes : ℕ
  pub max_json_depth : ℕ
  pub pii_action : PiiAction
  pub pii_min_score : ℕ
  pub attestation_max_age_seconds : ℕ

pub record HttpMessage : Type 0 where
  pub method : String
  pub authority : String
  pub path : String
  pub headers : Dict String
  pub body : Bytes
  pub complete : Bool

pub data Action : Type 0 where
  allow block redact approval_required unknown : Action

pub data Coverage : Type 0 where
  complete incomplete : Coverage

pub data AuthorizationScope : Type 0 where
  unauthorized local_policy access_broker : AuthorizationScope

pub record Verdict : Type 0 where
  pub action : Action
  pub reason : String
  pub mode : Mode
  pub body : Option Bytes
  pub entities : List String
  pub coverage : Coverage
  pub identity_verified : Bool
  pub request_digest : Option String
  pub approval_id : Option String
  pub tool : Option String
  pub access_action : Option String
  pub source_verified : Bool
  pub authorization_scope : AuthorizationScope
  pub pii_policy_action : Option PiiAction
  pub pii_policy_scope : Option PiiScope

-- `Verdict(action, reason, mode)`: the other fields have their defaults.
abbrev pub verdict : Action → String → Mode → Verdict
verdict a r m = record {
  action = a;
  reason = r;
  mode = m;
  body = none;
  entities = [];
  coverage = complete;
  identity_verified = false;
  request_digest = none;
  approval_id = none;
  tool = none;
  access_action = none;
  source_verified = false;
  authorization_scope = unauthorized;
  pii_policy_action = none;
  pii_policy_scope = none;
}

abbrev pub is_inline : Mode → Bool
is_inline inline = true
is_inline mirror = false

abbrev pub is_unknown : Action → Bool
is_unknown unknown = true
is_unknown _ = false
