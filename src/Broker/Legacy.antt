-- ===== src/Broker/Legacy.antt =====
-- access_broker/broker.py: `decide`, which sends a bound request to `authorize` and judges any
-- other by the older rules. The older rules read the store outside a transaction.
pub mod Binding
use ai_security_gateway.Base.{
  String, Bool, true, false, not, ◌||◌, Option, none, some, [], if◌then◌else◌,
}
use ai_security_gateway.Base.Dict
use ai_security_gateway.Base.Exec.{◌>>=◌, ◌>>◌, pure, lift, gets}
use ai_security_gateway.Broker.Models.{
  Stamp, AccessAction, allow, block, approval_required, delegated, agent, pending, approved,
  AuthorizationMode, AgentRecord, DelegationRecord, AccessRequest, BrokerToken, ApprovalRecord,
  AccessDecision, legacy_metadata, ReasonCode, matches, is_active, legacy_decision_payload,
  agent_not_registered, agent_disabled, tool_not_allowed_for_agent, resource_not_allowed_for_agent,
  delegation_not_found, delegation_not_active, high_risk_action_requires_approval,
  approved_high_risk_action, delegation_allowed,
}
use ai_security_gateway.Broker.Store.{Store, get_agent, get_delegation, get_approval}
use ai_security_gateway.Broker.World.{Env, M, utc_now, read_transaction}
use ai_security_gateway.Broker.Evaluate.{
  is_given, within, named_approval, delegation_mismatch, requires_approval,
}
use ai_security_gateway.Broker.Registry.{new_id, audit, save_approval}
use ai_security_gateway.Broker.Issue.{Broker, issue_token}
use ai_security_gateway.Broker.Engine.{authorize}

abbrev pub is_agent_mode : AuthorizationMode → Bool
is_agent_mode agent = true
is_agent_mode delegated = false

abbrev pub is_strict : Option ApprovalRecord → Bool
is_strict none = false
is_strict (some p) = is_given p.request_digest

abbrev pub legacy_approval : AccessRequest → String → Stamp → ApprovalRecord
legacy_approval r id now = record {
  authorization_mode = delegated;
  approval_id = id;
  status = pending;
  tenant_id = r.tenant_id;
  user_id = r.user_id;
  agent_id = r.agent_id;
  delegation_id = r.delegation_id;
  task_id = r.task_id;
  tool_name = r.tool_name;
  resource_id = r.resource_id;
  requested_action = r.requested_action;
  agent_instance_id = none;
  request_digest = none;
  expires_at = none;
  consumed_at = none;
  reason = "high_risk_action_requires_approval";
  created_at = now;
  decided_at = none;
  approver_id = none;
  comment = none;
  metadata = [];
}

module _ {File : Type 0} (env : Env File) (broker : Broker) where
  -- `_decision`
  unfoldable pub decision :
      AccessRequest
      → AccessAction
      → ReasonCode
      → String
      → Option BrokerToken
      → Option ApprovalRecord
      → M File AccessDecision
  decision r action reason_code reason token approval = do
    id ← new_id env "dec"
    now ← utc_now env
    let d : AccessDecision = record {
      decision_id = id;
      action = action;
      reason_code = reason_code;
      reason = reason;
      tenant_id = r.tenant_id;
      user_id = r.user_id;
      agent_id = r.agent_id;
      delegation_id = r.delegation_id;
      task_id = r.task_id;
      tool_name = r.tool_name;
      resource_id = r.resource_id;
      requested_action = r.requested_action;
      token = token;
      approval = approval;
      metadata = legacy_metadata r.agent_instance_id r.risk_score;
      created_at = now;
    }
    audit env "access.decision" (legacy_decision_payload d r)
    pure d

  abbrev pub refuse : AccessRequest → ReasonCode → String → M File AccessDecision
  refuse r code reason = decision r block code reason none none

  -- `_create_approval`
  unfoldable pub create_approval : AccessRequest → M File ApprovalRecord
  create_approval r = do
    id ← new_id env "apv"
    now ← utc_now env
    save_approval env "access.approval_created" (legacy_approval r id now)

  -- `_approved_record`
  unfoldable pub approved_record : Store → AccessRequest → Option ApprovalRecord
  approved_record s r = elim (named_approval r.approval_id) [
    | none ↦ none
    | some k ↦ elim (get_approval s k) [
      | none ↦ none
      | some p ↦ elim p.status [ approved ↦ if matches p r then some p else none | _ ↦ none ]
    ]
  ]

  unfoldable pub settle_high_risk :
      AccessRequest → DelegationRecord → Option ApprovalRecord → M File AccessDecision
  settle_high_risk r d none = do
    p ← create_approval r
    decision r approval_required high_risk_action_requires_approval
        "The high-risk action requires human approval." none (some p)
  settle_high_risk r d (some p) = do
    t ← issue_token env broker r (some d)
    decision r allow approved_high_risk_action "The high-risk action is approved." (some t) (some p)

  unfoldable pub legacy_grant :
      AccessRequest → AgentRecord → DelegationRecord → M File AccessDecision
  legacy_grant r a d =
      if requires_approval a r
      then (do s ← gets (λ w. w.memory); settle_high_risk r d (approved_record s r))
      else (do
        t ← issue_token env broker r (some d)
        decision r allow delegation_allowed "Agent and delegation scopes allow the action." (some t)
            none)

  unfoldable pub settle_mismatch :
      AccessRequest
      → AgentRecord
      → DelegationRecord
      → Option (ReasonCode × String)
      → M File AccessDecision
  settle_mismatch r a d (some (code, reason)) = refuse r code reason
  settle_mismatch r a d none = legacy_grant r a d

  unfoldable pub legacy_delegation :
      AccessRequest → AgentRecord → Option DelegationRecord → M File AccessDecision
  legacy_delegation r a none = refuse r delegation_not_found "Delegation was not found."
  legacy_delegation r a (some d) = do
    now ← utc_now env
    live ← lift (is_active d now)
    if not live
        then refuse r delegation_not_active "Delegation is expired or inactive."
        else settle_mismatch r a d (delegation_mismatch r d)

  unfoldable pub legacy_agent : AccessRequest → Option AgentRecord → M File AccessDecision
  legacy_agent r none = refuse r agent_not_registered "Agent is not registered."
  legacy_agent r (some a) =
      if not a.enabled
      then refuse r agent_disabled "Agent is disabled."
      else if not (within r.tool_name a.allowed_tools)
      then refuse r tool_not_allowed_for_agent "Tool is not allowed for agent."
      else if not (within r.resource_id a.allowed_resources)
      then refuse r resource_not_allowed_for_agent "Resource is not allowed for agent."
      else (do s ← gets (λ w. w.memory); legacy_delegation r a (get_delegation s r.delegation_id))

  unfoldable pub decide_legacy : AccessRequest → M File AccessDecision
  decide_legacy r = do s ← gets (λ w. w.memory); legacy_agent r (get_agent s r.agent_id)

  -- A request that carries no digest: the approval that it names may be bound all the same.
  unfoldable pub decide_unbound : AccessRequest → Option String → M File AccessDecision
  decide_unbound r none = decide_legacy r
  decide_unbound r (some k) = do
    strict ← read_transaction env (gets (λ w. is_strict (get_approval w.memory k)))
    if strict then authorize env broker r else decide_legacy r

  unfoldable pub decide : AccessRequest → M File AccessDecision
  decide r =
      if is_agent_mode r.authorization_mode || is_given (Dict.get "request_digest" r.metadata)
      then authorize env broker r
      else decide_unbound r (named_approval r.approval_id)
