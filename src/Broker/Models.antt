-- ===== src/Broker/Models.antt =====
-- access_broker/models.py: the records of the broker.
use ai_security_gateway.Base.{
  ℕ, ◌+◌, ◌*◌, String, ◌≡◌, refl, ◌⊎◌, inl, inr, Bool, true, false, ◌&&◌, not, Option, none, some,
  List, ltb, leb, is_set, opt_eq, str_eq, if◌then◌else◌,
}
use ai_security_gateway.Base.Dict
use ai_security_gateway.Base.Dict.{Dict}
use ai_security_gateway.Base.Result.{Result, ok, err, ◌>>=◌}

-- The exceptions that the code raises or lets through.
pub data Error : Type 0 where
  value_error type_error key_error os_error : Error

-- A `datetime`: microseconds since the epoch, and whether it has a time zone.
pub record Stamp : Type 0 where
  pub micros : ℕ
  pub aware : Bool

-- `now + timedelta(seconds=n)`
abbrev pub add_seconds : Stamp → ℕ → Stamp
add_seconds t n = record t { micros = t.micros + n * 1000000 }

abbrev same : Bool → Bool → Bool
same true b = b
same false b = not b

-- `a > b`: comparing a stamp that has a time zone with one that has none raises `TypeError`.
unfoldable pub is_after : Stamp → Stamp → Result Error Bool
is_after a b = if same a.aware b.aware then ok (ltb b.micros a.micros) else err type_error

-- `min(a, b)`
unfoldable pub earliest : Stamp → Stamp → Result Error Stamp
unfolding is_after
earliest a b = do later ← is_after a b; ok (if later then b else a)

-- A value of an untyped `dict`. The broker tells texts from the rest and looks into no other value.
pub data Value : Type 0 where
  null : Value
  text : String → Value
  other : ℕ → Value

abbrev pub Metadata : Type 0
Metadata = Dict Value

-- `metadata.get("request_digest")`, where it is a text.
unfoldable pub digest_text : Metadata → Option String
digest_text m = elim (Dict.get "request_digest" m) [ some (text d) ↦ some d | _ ↦ none ]

pub data RiskTier : Type 0 where
  low medium high : RiskTier

pub data DelegationStatus : Type 0 where
  active revoked expired : DelegationStatus

pub data ApprovalStatus : Type 0 where
  pending approved denied : ApprovalStatus

pub data AccessAction : Type 0 where
  allow block approval_required : AccessAction

pub AccessAction-cases : (a : AccessAction) → (a ≡ allow) ⊎ ((a ≡ block) ⊎ (a ≡ approval_required))
AccessAction-cases allow = inl refl
AccessAction-cases block = inr (inl refl)
AccessAction-cases approval_required = inr (inr refl)

pub data AuthorizationMode : Type 0 where
  delegated agent : AuthorizationMode

abbrev pub mode_eq : AuthorizationMode → AuthorizationMode → Bool
mode_eq delegated delegated = true
mode_eq agent agent = true
mode_eq _ _ = false

pub AuthorizationMode-cases : (m : AuthorizationMode) → (m ≡ delegated) ⊎ (m ≡ agent)
AuthorizationMode-cases delegated = inl refl
AuthorizationMode-cases agent = inr refl

pub record AgentRecord : Type 0 where
  pub agent_id : String
  pub tenant_id : Option String
  pub owner_id : String
  pub sponsor_id : Option String
  pub runtime : String
  pub model : Option String
  pub allow_autonomous : Bool
  pub allowed_actions : List String
  pub allowed_tools : List String
  pub allowed_resources : List String
  pub risk_tier : RiskTier
  pub enabled : Bool
  pub metadata : Metadata
  pub created_at : Stamp

pub record DelegationCreateRequest : Type 0 where
  pub delegation_id : String
  pub tenant_id : Option String
  pub user_id : String
  pub agent_id : String
  pub task_id : String
  pub purpose : String
  pub allowed_resources : List String
  pub allowed_actions : List String
  pub ttl_seconds : ℕ
  pub metadata : Metadata

-- The constraints that the declared fields carry.
abbrev pub is_valid_request : DelegationCreateRequest → Bool
is_valid_request p =
    is_set p.delegation_id
    && is_set p.user_id
    && is_set p.agent_id
    && is_set p.task_id
    && is_set p.purpose
    && leb 1 p.ttl_seconds
    && leb p.ttl_seconds 86400

pub record DelegationRecord : Type 0 where
  pub delegation_id : String
  pub tenant_id : Option String
  pub user_id : String
  pub agent_id : String
  pub task_id : String
  pub purpose : String
  pub allowed_resources : List String
  pub allowed_actions : List String
  pub status : DelegationStatus
  pub created_at : Stamp
  pub expires_at : Stamp
  pub metadata : Metadata

abbrev pub status_active : DelegationStatus → Bool
status_active active = true
status_active _ = false

-- `current` is the reading of the clock; the status is tested first, so that only an active
-- delegation is compared with it.
unfoldable pub is_active : DelegationRecord → Stamp → Result Error Bool
unfolding is_after
is_active d current = if status_active d.status then is_after d.expires_at current else ok false

pub record AccessRequest : Type 0 where
  pub authorization_mode : AuthorizationMode
  pub tenant_id : Option String
  pub user_id : String
  pub agent_id : String
  pub agent_instance_id : Option String
  pub delegation_id : String
  pub task_id : String
  pub tool_name : String
  pub resource_id : String
  pub requested_action : String
  pub approval_id : Option String
  pub risk_score : Option ℕ
  pub metadata : Metadata

pub record BrokerToken : Type 0 where
  pub token_id : String
  pub subject : String
  pub scopes : List String
  pub expires_at : Stamp
  pub tenant_id : Option String
  pub request_digest : Option String

pub record ApprovalRecord : Type 0 where
  pub authorization_mode : AuthorizationMode
  pub approval_id : String
  pub status : ApprovalStatus
  pub tenant_id : Option String
  pub user_id : String
  pub agent_id : String
  pub delegation_id : String
  pub task_id : String
  pub tool_name : String
  pub resource_id : String
  pub requested_action : String
  pub agent_instance_id : Option String
  pub request_digest : Option String
  pub expires_at : Option Stamp
  pub consumed_at : Option Stamp
  pub reason : String
  pub created_at : Stamp
  pub decided_at : Option Stamp
  pub approver_id : Option String
  pub comment : Option String
  pub metadata : Metadata

-- The fields that a bound approval and its request share.
unfoldable pub same_context : ApprovalRecord → AccessRequest → Bool
same_context a r =
    mode_eq a.authorization_mode r.authorization_mode
    && opt_eq a.tenant_id r.tenant_id
    && str_eq a.user_id r.user_id
    && str_eq a.agent_id r.agent_id
    && str_eq a.delegation_id r.delegation_id
    && str_eq a.task_id r.task_id
    && str_eq a.tool_name r.tool_name
    && str_eq a.resource_id r.resource_id
    && str_eq a.requested_action r.requested_action

-- A digest is compared with whatever value the metadata holds; only a text equals it.
unfoldable pub same_binding : ApprovalRecord → AccessRequest → Bool
same_binding a r = elim a.request_digest [
  | none ↦ true
  | some d ↦
      opt_eq (some d) (digest_text r.metadata) && opt_eq a.agent_instance_id r.agent_instance_id
]

unfoldable pub matches : ApprovalRecord → AccessRequest → Bool
unfolding same_context same_binding
matches a r = same_context a r && same_binding a r

pub record ApprovalDecisionRequest : Type 0 where
  pub approver_id : String
  pub comment : Option String

-- The two shapes of a decision's `metadata`.
pub data DecisionMetadata : Type 0 where
  strict_metadata : Option String → Option String → Bool → AuthorizationMode → DecisionMetadata
  legacy_metadata : Option String → Option ℕ → DecisionMetadata

pub data ReasonCode : Type 0 where
  tenant_required request_digest_required agent_not_registered agent_tenant_mismatch : ReasonCode
  agent_disabled tool_not_allowed_for_agent resource_not_allowed_for_agent : ReasonCode
  mixed_authorization_context autonomous_not_allowed action_not_allowed_for_agent : ReasonCode
  delegation_context_required delegation_not_found delegation_tenant_mismatch : ReasonCode
  delegation_not_active user_not_delegator agent_not_delegated task_not_delegated : ReasonCode
  resource_not_delegated action_not_delegated approval_not_found : ReasonCode
  approval_context_mismatch approval_consumed approval_expired approval_denied : ReasonCode
  high_risk_action_requires_approval approved_high_risk_action : ReasonCode
  agent_allowed delegation_allowed : ReasonCode

pub record AccessDecision : Type 0 where
  pub decision_id : String
  pub action : AccessAction
  pub reason_code : ReasonCode
  pub reason : String
  pub tenant_id : Option String
  pub user_id : String
  pub agent_id : String
  pub delegation_id : String
  pub task_id : String
  pub tool_name : String
  pub resource_id : String
  pub requested_action : String
  pub token : Option BrokerToken
  pub approval : Option ApprovalRecord
  pub metadata : DecisionMetadata
  pub created_at : Stamp

-- The payload of an audit event: the records whose dumps the code puts in, by the event's type.
pub data AuditPayload : Type 0 where
  agent_payload : AgentRecord → Option (Dict String) → AuditPayload
  delegation_payload : DelegationRecord → Option (Dict String) → AuditPayload
  approval_payload : ApprovalRecord → AuditPayload
  decision_payload : AccessDecision → AuditPayload
  legacy_decision_payload : AccessDecision → AccessRequest → AuditPayload

pub record AuditEvent : Type 0 where
  pub event_id : String
  pub event_type : String
  pub created_at : Stamp
  pub payload : AuditPayload
