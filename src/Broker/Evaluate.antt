-- ===== src/Broker/Evaluate.antt =====
-- access_broker/broker.py, `_evaluate_strict`: the strict evaluation of a request against a store
-- at a moment. The method's straight line of early returns is cut into four parts, each of which
-- returns what the next one needs or the evaluation that ends the method.
pub mod Permitted
pub mod Stages
pub mod Clearance
pub mod Soundness
pub mod Evidence
use ai_security_gateway.Base.{
  String, Bool, true, false, ◌&&◌, ◌||◌, not, Option, none, some, List, [], ◌∷◌, ltb, is_set,
  is_blank, is_hex_text, opt_eq, str_eq, contains, if◌then◌else◌,
}
use ai_security_gateway.Base.Result.{Result, ok, err, ◌>>=◌, ◌>>◌, require}
use ai_security_gateway.Broker.Models.{
  Stamp, AuthorizationMode, delegated, agent, AgentRecord, RiskTier, DelegationRecord,
  AccessRequest, ApprovalRecord, AccessAction, ReasonCode, allow, block, approval_required,
  digest_text, matches, status_active, pending, approved, denied, tenant_required,
  request_digest_required, agent_not_registered, agent_tenant_mismatch, agent_disabled,
  tool_not_allowed_for_agent, resource_not_allowed_for_agent, mixed_authorization_context,
  autonomous_not_allowed, action_not_allowed_for_agent, delegation_context_required,
  delegation_not_found, delegation_tenant_mismatch, delegation_not_active, user_not_delegator,
  agent_not_delegated, task_not_delegated, resource_not_delegated, action_not_delegated,
  approval_not_found, approval_context_mismatch, approval_consumed, approval_expired,
  approval_denied, high_risk_action_requires_approval, approved_high_risk_action, agent_allowed,
  delegation_allowed,
}
use ai_security_gateway.Broker.Store.{Store, get_agent, get_delegation, get_approval}

abbrev pub high_risk_actions : List String
high_risk_actions =
    "delete" ∷ "deploy" ∷ "external_send" ∷ "permission_change" ∷ "credential_issue" ∷ "prod_write"
    ∷ []

-- `_matches`: a `*` matches everything.
unfoldable pub in_scope : String → List String → Bool
in_scope value patterns = contains patterns "*" || contains patterns value

-- `_is_future`, at a moment that has a time zone.
unfoldable pub is_future : Option Stamp → Stamp → Bool
is_future none now = false
is_future (some t) now = t.aware && ltb now.micros t.micros

pub record Evaluation : Type 0 where
  pub action : AccessAction
  pub reason_code : ReasonCode
  pub reason : String
  pub delegation : Option DelegationRecord
  pub approval : Option ApprovalRecord

-- `_Evaluation("block", code, reason)`
abbrev pub blocked : ReasonCode → String → Evaluation
blocked code reason = record {
  action = block;
  reason_code = code;
  reason = reason;
  delegation = none;
  approval = none;
}

abbrev pub Step : Type 0 → Type 0
Step = Result Evaluation

-- `if not test: return _Evaluation("block", code, reason)`
abbrev check : Bool → ReasonCode → String → Step (Unit {0})
check test code reason = require test (blocked code reason)

-- `if value is None: return _Evaluation("block", code, reason)`
abbrev present : {A : Type 0} → Option A → ReasonCode → String → Step A
present none code reason = err (blocked code reason)
present (some a) code reason = ok a

abbrev pub has_text : Option String → Bool
has_text none = false
has_text (some s) = is_set s

abbrev names_tenant : Option String → Bool
names_tenant none = false
names_tenant (some t) = is_set t && not (is_blank t)

-- The digest of the metadata, where it is sixty-four lowercase hexadecimal digits.
unfoldable pub valid_digest : AccessRequest → Option String
valid_digest r = elim (digest_text r.metadata) [
  | none ↦ none
  | some d ↦ if is_hex_text 64 d then some d else none
]

abbrev pub is_given {ℓ} : {A : Type ℓ} → Option A → Bool
is_given none = false
is_given (some a) = true

unfoldable pub check_binding : AccessRequest → Step (Unit {0})
check_binding r = do
  check (names_tenant r.tenant_id) tenant_required "Strict authorization requires a tenant."
  check (is_given (valid_digest r)) request_digest_required
      "Strict authorization requires a lowercase SHA-256 request digest."

unfoldable pub check_agent : Store → AccessRequest → Step AgentRecord
check_agent s r = do
  a ← present (get_agent s r.agent_id) agent_not_registered "Agent is not registered."
  check (opt_eq a.tenant_id r.tenant_id) agent_tenant_mismatch "Agent belongs to another tenant."
  check a.enabled agent_disabled "Agent is disabled."
  check (in_scope r.tool_name a.allowed_tools) tool_not_allowed_for_agent
      "Tool is not allowed for agent."
  check (in_scope r.resource_id a.allowed_resources) resource_not_allowed_for_agent
      "Resource is not allowed for agent."
  ok a

-- A scope that is empty does not restrict here.
abbrev pub within : String → List String → Bool
within value [] = true
within value patterns = in_scope value patterns

-- `_delegation_mismatch`: a code with its text, or `none`.
unfoldable pub delegation_mismatch : AccessRequest → DelegationRecord → Option (ReasonCode × String)
delegation_mismatch r d =
    if not (str_eq d.user_id r.user_id)
    then some (user_not_delegator, "Delegation user does not match the request.")
    else if not (str_eq d.agent_id r.agent_id)
    then some (agent_not_delegated, "Delegation agent does not match the request.")
    else if not (str_eq d.task_id r.task_id)
    then some (task_not_delegated, "Delegation task does not match the request.")
    else if not (within r.resource_id d.allowed_resources)
    then some (resource_not_delegated, "Resource is outside the delegation scope.")
    else if not (within r.requested_action d.allowed_actions)
    then some (action_not_delegated, "Action is outside the delegation scope.")
    else none

abbrev check_mismatch : Option (ReasonCode × String) → Step (Unit {0})
check_mismatch none = ok tt
check_mismatch (some (code, reason)) = err (blocked code reason)

unfoldable pub check_autonomous : AccessRequest → AgentRecord → Step (Option DelegationRecord)
check_autonomous r a = do
  check (not (is_set r.user_id || is_set r.delegation_id || is_set r.task_id))
      mixed_authorization_context "Agent-only requests cannot claim user delegation."
  check a.allow_autonomous autonomous_not_allowed "Autonomous access is not enabled for this agent."
  check (in_scope r.requested_action a.allowed_actions) action_not_allowed_for_agent
      "Action is not allowed for this agent."
  ok none

unfoldable pub check_delegation : Store → AccessRequest → Stamp → Step (Option DelegationRecord)
check_delegation s r now = do
  check (is_set r.user_id && is_set r.task_id && is_set r.delegation_id) delegation_context_required
      "User, task and delegation are required."
  d ← present (get_delegation s r.delegation_id) delegation_not_found "Delegation was not found."
  check (opt_eq d.tenant_id r.tenant_id) delegation_tenant_mismatch
      "Delegation belongs to another tenant."
  check (status_active d.status && is_future (some d.expires_at) now) delegation_not_active
      "Delegation is expired or inactive."
  check_mismatch (delegation_mismatch r d)
  check (in_scope r.resource_id d.allowed_resources) resource_not_delegated
      "Resource was not delegated."
  check (in_scope r.requested_action d.allowed_actions) action_not_delegated
      "Action was not delegated."
  ok (some d)

unfoldable pub check_authority :
    Store → AccessRequest → Stamp → AgentRecord → Step (Option DelegationRecord)
check_authority s r now a = elim r.authorization_mode [
  | agent ↦ check_autonomous r a
  | delegated ↦ check_delegation s r now
]

-- `_requires_approval`
unfoldable pub requires_approval : AgentRecord → AccessRequest → Bool
requires_approval a r = elim a.risk_tier [
  | RiskTier.high ↦ true
  | _ ↦ contains high_risk_actions r.requested_action
]

abbrev pub is_bound : ApprovalRecord → AccessRequest → Bool
is_bound p r = is_given p.request_digest && matches p r

-- The branch of a request that names an approval.
unfoldable pub judge_approval :
    Option ApprovalRecord → AccessRequest → Stamp → Option DelegationRecord → Evaluation
judge_approval none r now d = blocked approval_not_found "Approval was not found."
judge_approval (some p) r now d =
    if not (is_bound p r)
    then blocked approval_context_mismatch "Approval does not match the bound request."
    else if is_given p.consumed_at
    then blocked approval_consumed "Approval was already consumed."
    else if not (is_future p.expires_at now)
    then blocked approval_expired "Approval has expired."
    else elim p.status [
      | denied ↦ blocked approval_denied "Approval was denied."
      | pending ↦ record {
        action = approval_required;
        reason_code = high_risk_action_requires_approval;
        reason = "Human approval is pending.";
        delegation = d;
        approval = some p;
      }
      | approved ↦ record {
        action = allow;
        reason_code = approved_high_risk_action;
        reason = "The bound action is approved.";
        delegation = d;
        approval = some p;
      }
    ]

-- The branch of a request that names none.
unfoldable pub judge_risk : AgentRecord → AccessRequest → Option DelegationRecord → Evaluation
judge_risk a r d =
    if requires_approval a r
    then record {
      action = approval_required;
      reason_code = high_risk_action_requires_approval;
      reason = "The high-risk action requires human approval.";
      delegation = d;
      approval = none;
    }
    else record {
      action = allow;
      reason_code = elim r.authorization_mode [
        | agent ↦ agent_allowed
        | delegated ↦ delegation_allowed
      ];
      reason = "The bound action is authorized.";
      delegation = d;
      approval = none;
    }

abbrev pub named_approval : Option String → Option String
named_approval none = none
named_approval (some k) = if is_set k then some k else none

unfoldable pub conclude :
    Store → AccessRequest → Stamp → AgentRecord → Option DelegationRecord → Evaluation
conclude s r now a d = elim (named_approval r.approval_id) [
  | none ↦ judge_risk a r d
  | some k ↦ judge_approval (get_approval s k) r now d
]

-- What the method returns, from any of its returns.
abbrev pub outcome : Step Evaluation → Evaluation
outcome (ok e) = e
outcome (err e) = e

unfoldable pub evaluate_strict : Store → AccessRequest → Stamp → Evaluation
evaluate_strict s r now = outcome (do
  check_binding r
  a ← check_agent s r
  d ← check_authority s r now a
  ok (conclude s r now a d))
