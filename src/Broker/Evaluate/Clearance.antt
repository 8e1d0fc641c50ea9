-- ===== src/Broker/Evaluate/Clearance.antt =====
-- The last part of the strict evaluation: the risk of the action, and the approval that clears it.
use ai_security_gateway.Base.{
  ◌≡◌, refl, ◌≢◌, inl, inr, true, Option, none, some, arith, eq_iff, contains, contains→Listed,
  Listed→contains, opt_eq→eq, opt_eq_refl, Bool-cases, Option-cases, Listed,
}
use ai_security_gateway.Broker.Models.{
  Stamp, delegated, agent, allow, high, AgentRecord, DelegationRecord, AccessRequest,
  ApprovalRecord, AuthorizationMode, digest_text, matches, same_context, same_binding, mode_eq,
}
use ai_security_gateway.Broker.Evaluate.{
  is_future, is_bound, is_given, requires_approval, judge_approval, judge_risk, high_risk_actions,
}
use ai_security_gateway.Broker.Evaluate.Permitted.{IsFor, IsInForce}

mode_eq→eq : (a b : AuthorizationMode) → mode_eq a b ≡ true → a ≡ b
mode_eq→eq delegated delegated h = refl
mode_eq→eq agent agent h = refl
mode_eq→eq delegated agent h = cc
mode_eq→eq agent delegated h = cc

mode_eq_refl : (a : AuthorizationMode) → mode_eq a a ≡ true
mode_eq_refl delegated = refl
mode_eq_refl agent = refl

same_binding-eq :
    (p : ApprovalRecord) (r : AccessRequest)
    → is_given p.request_digest ≡ true
    → same_binding p r ≡ true
    → (p.request_digest ≡ digest_text r.metadata) × (p.agent_instance_id ≡ r.agent_instance_id)
unfolding same_binding
same_binding-eq p r g h = ground (
  arith,
  opt_eq→eq p.request_digest (digest_text r.metadata),
  opt_eq→eq p.agent_instance_id r.agent_instance_id,
)

-- A bound approval that matches is for the request.
is_bound-IsFor : (p : ApprovalRecord) (r : AccessRequest) → is_bound p r ≡ true → IsFor p r
unfolding matches same_context
is_bound-IsFor p r h = ground (
  arith,
  mode_eq→eq p.authorization_mode r.authorization_mode,
  opt_eq→eq p.tenant_id r.tenant_id,
  eq_iff p.user_id r.user_id,
  eq_iff p.agent_id r.agent_id,
  eq_iff p.delegation_id r.delegation_id,
  eq_iff p.task_id r.task_id,
  eq_iff p.tool_name r.tool_name,
  eq_iff p.resource_id r.resource_id,
  eq_iff p.requested_action r.requested_action,
  same_binding-eq p r,
)

IsFor-same_context : (p : ApprovalRecord) (r : AccessRequest) → IsFor p r → same_context p r ≡ true
unfolding same_context
IsFor-same_context p r h = ground (
  arith,
  mode_eq_refl p.authorization_mode,
  opt_eq_refl p.tenant_id,
  eq_iff p.user_id r.user_id,
  eq_iff p.agent_id r.agent_id,
  eq_iff p.delegation_id r.delegation_id,
  eq_iff p.task_id r.task_id,
  eq_iff p.tool_name r.tool_name,
  eq_iff p.resource_id r.resource_id,
  eq_iff p.requested_action r.requested_action,
)

IsFor-is_bound : (p : ApprovalRecord) (r : AccessRequest) → IsFor p r → is_bound p r ≡ true
unfolding matches same_binding
IsFor-is_bound p r h =
    ground (
      arith,
      IsFor-same_context p r h,
      opt_eq_refl p.request_digest,
      opt_eq_refl p.agent_instance_id,
    )

-- An approval that lets a request pass is in force, and is the one that the evaluation carries.
pub judge_approval-IsInForce :
    (o : Option ApprovalRecord) (r : AccessRequest) (now : Stamp) (d : Option DelegationRecord)
    → (judge_approval o r now d).action ≡ allow
    → (p : ApprovalRecord) × (o ≡ some p)
      × IsInForce r now p
      × ((judge_approval o r now d).approval ≡ some p)
unfolding judge_approval is_future
judge_approval-IsInForce none r now d h = absurd (ground arith)
judge_approval-IsInForce (some p) r now d h = elim (Option-cases p.expires_at) [
  | inl e ↦ absurd (ground arith)
  | inr (t, e) ↦ (
    p,
    refl,
    record {
      for_request = is_bound-IsFor p r (ground arith);
      unused = ground arith;
      expiry = (t, e, ground arith, ground arith);
      status = ground arith;
    },
    ground arith,
  )
]

pub IsInForce-judge_approval :
    (p : ApprovalRecord) (r : AccessRequest) (now : Stamp) (d : Option DelegationRecord)
    → IsInForce r now p
    → (judge_approval (some p) r now d).action ≡ allow
unfolding judge_approval is_future
IsInForce-judge_approval p r now d h = ground (arith, IsFor-is_bound p r h.for_request)

pub judge_risk-low :
    (a : AgentRecord) (r : AccessRequest) (d : Option DelegationRecord)
    → (judge_risk a r d).action ≡ allow
    → (a.risk_tier ≢ high) × (¬ Listed r.requested_action high_risk_actions)
unfolding judge_risk requires_approval
judge_risk-low a r d h =
    (λ e. ground arith, λ m. ground (arith, Listed→contains r.requested_action high_risk_actions m))

pub low-judge_risk :
    (a : AgentRecord) (r : AccessRequest) (d : Option DelegationRecord)
    → a.risk_tier ≢ high
    → ¬ Listed r.requested_action high_risk_actions
    → (judge_risk a r d).action ≡ allow
unfolding judge_risk requires_approval
low-judge_risk a r d n m = elim (Bool-cases (contains high_risk_actions r.requested_action)) [
  | inl e ↦ absurd (m (contains→Listed r.requested_action high_risk_actions e))
  | inr e ↦ ground arith
]
