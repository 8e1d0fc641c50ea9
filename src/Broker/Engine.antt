-- ===== src/Broker/Engine.antt =====
-- access_broker/broker.py: `evaluate` and `authorize`. The steps of each stand in the order in which
-- the source evaluates them.
pub mod Held
pub mod Tokens
pub mod Answers
pub mod Steps
pub mod Authorize
pub mod Durable
pub mod Hypothetical
use Prim.Native.String.{◌++◌ as str_append}
use ai_security_gateway.Base.{
  ℕ, String, Bool, true, false, not, Option, none, some, List, [], ◌∷◌, leb, is_set, if◌then◌else◌,
}
use ai_security_gateway.Base.Dict
use ai_security_gateway.Base.Dict.{Dict}
use ai_security_gateway.Base.Result.{Result, ok, err}
use ai_security_gateway.Base.Exec.{◌>>=◌, ◌>>◌, pure, raise, lift, gets, continue_with}
use ai_security_gateway.Broker.Models.{
  Error, value_error, key_error, Stamp, add_seconds, earliest, Metadata, Value, null, text, other,
  AccessAction, allow, block, approval_required, AuthorizationMode, delegated, ApprovalStatus,
  pending, approved, denied, active, AgentRecord, DelegationCreateRequest, DelegationRecord,
  AccessRequest, BrokerToken, ApprovalRecord, ApprovalDecisionRequest, AccessDecision,
  strict_metadata, ReasonCode, AuditEvent, AuditPayload, agent_payload, delegation_payload,
  approval_payload, decision_payload,
}
use ai_security_gateway.Broker.Registry.{new_id, audit, save_approval}
use ai_security_gateway.Broker.Issue.{Broker, digest_item, with_ttl, issue_token, strict_decision}
use ai_security_gateway.Broker.Store.{get_approval}
use ai_security_gateway.Broker.World.{
  Env, World, M, utc_now, uuid, urlsafe_token, transaction, read_transaction, upsert_agent,
  create_delegation, upsert_approval, append_audit_event,
}
use ai_security_gateway.Broker.Evaluate.{
  Evaluation, evaluate_strict, valid_digest, is_future, is_given,
}

abbrev pub new_approval : AccessRequest → String → Option String → Stamp → Stamp → ApprovalRecord
new_approval r id digest expires_at now = record {
  authorization_mode = r.authorization_mode;
  approval_id = id;
  status = pending;
  tenant_id = r.tenant_id;
  user_id = r.user_id;
  agent_id = r.agent_id;
  delegation_id = r.delegation_id;
  task_id = r.task_id;
  tool_name = r.tool_name;
  resource_id = r.resource_id;
  requested_action = r.requested_action;
  agent_instance_id = r.agent_instance_id;
  request_digest = digest;
  expires_at = some expires_at;
  consumed_at = none;
  reason = "high_risk_action_requires_approval";
  created_at = now;
  decided_at = none;
  approver_id = none;
  comment = none;
  metadata = [];
}

module _ {File : Type 0} (env : Env File) (broker : Broker) where
  -- A hypothetical verdict.
  unfoldable pub evaluate : AccessRequest → M File AccessDecision
  evaluate r = read_transaction env (do
    now ← utc_now env
    s ← gets (λ w. w.memory)
    strict_decision env r (evaluate_strict s r now) true none none)

  -- The approval that a high-risk request opens.
  unfoldable pub open_approval :
      AccessRequest → Option DelegationRecord → Stamp → M File ApprovalRecord
  open_approval r d now = do
    id ← new_id env "apv"
    digest ← lift (digest_item r.metadata)
    expires_at ← lift (with_ttl now broker.approval_ttl_seconds d)
    save_approval env "access.approval_created" (new_approval r id digest expires_at now)

  -- An approval is marked as used at the moment of the evaluation.
  unfoldable pub consume_approval : ApprovalRecord → Stamp → M File ApprovalRecord
  consume_approval p now =
      save_approval env "access.approval_consumed" (record p { consumed_at = some now })

  -- What follows an evaluation: the approval to show and the token.
  unfoldable pub carry_out :
      AccessRequest
      → Stamp
      → Option DelegationRecord
      → AccessAction
      → Option ApprovalRecord
      → M File (Option ApprovalRecord × Option BrokerToken)
  carry_out r now d approval_required none = do p ← open_approval r d now; pure (some p, none)
  carry_out r now d approval_required (some p) = pure (some p, none)
  carry_out r now d allow none = do t ← issue_token env broker r d; pure (none, some t)
  carry_out r now d allow (some p) = do
    used ← consume_approval p now
    t ← issue_token env broker r d
    pure (some used, some t)
  carry_out r now d block p = pure (none, none)

  -- The decision is recorded and returned.
  unfoldable pub report :
      AccessRequest
      → Evaluation
      → Option BrokerToken
      → Option ApprovalRecord
      → M File AccessDecision
  report r e token approval = do
    decision ← strict_decision env r e false token approval
    audit env "access.decision" (decision_payload decision)
    pure decision

  unfoldable pub authorize_body : AccessRequest → M File AccessDecision
  authorize_body r = do
    now ← utc_now env
    s ← gets (λ w. w.memory)
    let e = evaluate_strict s r now
    done ← carry_out r now e.delegation e.action e.approval
    report r e done.1 done.0

  unfoldable pub authorize : AccessRequest → M File AccessDecision
  authorize r = transaction env (authorize_body r)
