-- ===== src/Broker/Evaluate/Permitted.antt =====
-- What it means that a request is permitted, in words of the records and not of the code's tests:
-- the tenant and digest, the agent's scope, the authority behind the request and the clearance of
-- the action.
use ai_security_gateway.Base.{
  ◌<◌, String, ◌≡◌, ◌≢◌, ◌⊎◌, true, false, Option, none, some, List, is_set, is_blank, is_hex_text,
  Listed,
}
use ai_security_gateway.Broker.Models.{
  Stamp, delegated, agent, active, approved, high, AgentRecord, DelegationRecord, AccessRequest,
  ApprovalRecord, digest_text,
}
use ai_security_gateway.Broker.Store.{Store, get_agent, get_delegation, get_approval}
use ai_security_gateway.Broker.Evaluate.{high_risk_actions}

-- A scope covers what it lists, and everything if it lists `*`.
abbrev pub Covers : List String → String → Type 0
Covers patterns value = Listed "*" patterns ⊎ Listed value patterns

pub record IsBinding (r : AccessRequest) (tenant digest : String) : Type 0 where
  pub tenant_given : r.tenant_id ≡ some tenant
  pub tenant_named : is_blank tenant ≡ false
  pub digest_given : digest_text r.metadata ≡ some digest
  pub digest_valid : is_hex_text 64 digest ≡ true

pub record IsAgent (s : Store) (r : AccessRequest) (a : AgentRecord) : Type 0 where
  pub registered : get_agent s r.agent_id ≡ some a
  pub tenant : a.tenant_id ≡ r.tenant_id
  pub enabled : a.enabled ≡ true
  pub tool : Covers a.allowed_tools r.tool_name
  pub resource : Covers a.allowed_resources r.resource_id

-- An autonomous request names no user, task or delegation.
pub record IsAutonomous (r : AccessRequest) (a : AgentRecord) : Type 0 where
  pub no_user : is_set r.user_id ≡ false
  pub no_delegation : is_set r.delegation_id ≡ false
  pub no_task : is_set r.task_id ≡ false
  pub autonomy : a.allow_autonomous ≡ true
  pub action : Covers a.allowed_actions r.requested_action

pub record IsDelegated (s : Store) (r : AccessRequest) (now : Stamp) (d : DelegationRecord)
    : Type 0 where
  pub user_named : is_set r.user_id ≡ true
  pub task_named : is_set r.task_id ≡ true
  pub delegation_named : is_set r.delegation_id ≡ true
  pub found : get_delegation s r.delegation_id ≡ some d
  pub tenant : d.tenant_id ≡ r.tenant_id
  pub status : d.status ≡ active
  pub zoned : d.expires_at.aware ≡ true
  pub unexpired : now.micros < d.expires_at.micros
  pub user : d.user_id ≡ r.user_id
  pub agent_named : d.agent_id ≡ r.agent_id
  pub task : d.task_id ≡ r.task_id
  pub resource : Covers d.allowed_resources r.resource_id
  pub action : Covers d.allowed_actions r.requested_action

-- The authority behind a request, with the delegation if there is one.
pub data HasAuthority (s : Store) (r : AccessRequest) (now : Stamp) (a : AgentRecord)
    (d : Option DelegationRecord) : Type 0 where
  autonomous : r.authorization_mode ≡ agent → d ≡ none → IsAutonomous r a → HasAuthority s r now a d
  delegated_by :
      (d' : DelegationRecord)
      → r.authorization_mode ≡ delegated
      → d ≡ some d'
      → IsDelegated s r now d'
      → HasAuthority s r now a d

-- An approval is for one request: every field of its context, the agent instance and the digest.
pub record IsFor (p : ApprovalRecord) (r : AccessRequest) : Type 0 where
  pub mode : p.authorization_mode ≡ r.authorization_mode
  pub tenant : p.tenant_id ≡ r.tenant_id
  pub user : p.user_id ≡ r.user_id
  pub agent_named : p.agent_id ≡ r.agent_id
  pub delegation : p.delegation_id ≡ r.delegation_id
  pub task : p.task_id ≡ r.task_id
  pub tool : p.tool_name ≡ r.tool_name
  pub resource : p.resource_id ≡ r.resource_id
  pub action : p.requested_action ≡ r.requested_action
  pub instance_named : p.agent_instance_id ≡ r.agent_instance_id
  pub bound : p.request_digest ≢ none
  pub digest : p.request_digest ≡ digest_text r.metadata

-- An approval in force: for this request, not used, not expired and approved.
pub record IsInForce (r : AccessRequest) (now : Stamp) (p : ApprovalRecord) : Type 0 where
  pub for_request : IsFor p r
  pub unused : p.consumed_at ≡ none
  pub expiry : (t : Stamp) × (p.expires_at ≡ some t) × (t.aware ≡ true) × (now.micros < t.micros)
  pub status : p.status ≡ approved

-- A request names no approval when the field is absent or empty.
abbrev pub NamesNone : Option String → Type 0
NamesNone none = Unit {0}
NamesNone (some k) = is_set k ≡ false

pub data IsCleared (s : Store) (r : AccessRequest) (now : Stamp) (a : AgentRecord) : Type 0 where
  low_risk :
      NamesNone r.approval_id
      → a.risk_tier ≢ high
      → ¬ Listed r.requested_action high_risk_actions
      → IsCleared s r now a
  by_approval :
      (k : String) (p : ApprovalRecord)
      → r.approval_id ≡ some k
      → is_set k ≡ true
      → get_approval s k ≡ some p
      → IsInForce r now p
      → IsCleared s r now a

pub record IsPermitted (s : Store) (r : AccessRequest) (now : Stamp) : Type 0 where
  pub tenant : String
  pub digest : String
  pub registered : AgentRecord
  pub delegation : Option DelegationRecord
  pub binding : IsBinding r tenant digest
  pub scope : IsAgent s r registered
  pub authority : HasAuthority s r now registered delegation
  pub clearance : IsCleared s r now registered
