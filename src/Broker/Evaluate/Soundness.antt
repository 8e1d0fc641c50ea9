-- ===== src/Broker/Evaluate/Soundness.antt =====
-- The strict evaluation allows exactly what is permitted.
use ai_security_gateway.Base.{
  ◌≡◌, ◌↔◌, inl, inr, Option, ◌≢◌, arith, Option-cases, is_set, Bool-cases, false,
}
use ai_security_gateway.Base.Result.{Result-cases, ok, err}
use ai_security_gateway.Broker.Models.{
  AuthorizationMode-cases, Stamp, allow, block, AgentRecord, AccessRequest, DelegationRecord,
}
use ai_security_gateway.Broker.Store.{Store, get_approval}
use ai_security_gateway.Broker.Evaluate.{
  Evaluation, check_binding, check_agent, check_authority, conclude, evaluate_strict,
}
use ai_security_gateway.Broker.Evaluate.Permitted.{HasAuthority, IsCleared, IsPermitted}
use ai_security_gateway.Broker.Evaluate.Stages.{
  check_binding_blocks, check_agent_blocks, check_autonomous_blocks, check_delegation_blocks,
  check_agent-IsAgent, IsAgent-check_agent, check_binding-IsBinding, IsBinding-check_binding,
  check_autonomous-IsAutonomous, IsAutonomous-check_autonomous, check_delegation-IsDelegated,
  IsDelegated-check_delegation,
}
use ai_security_gateway.Broker.Evaluate.Clearance.{
  judge_approval-IsInForce, IsInForce-judge_approval, judge_risk-low, low-judge_risk,
}

pub check_authority-HasAuthority :
    (s : Store) (r : AccessRequest) (now : Stamp) (a : AgentRecord) (d : Option DelegationRecord)
    → check_authority s r now a ≡ ok d
    → HasAuthority s r now a d
unfolding check_authority
check_authority-HasAuthority s r now a d h = elim (AuthorizationMode-cases r.authorization_mode) [
  | inl e ↦
      let (d', f, given) = check_delegation-IsDelegated s r now d (ground arith) in
      HasAuthority.delegated_by d' e f given
  | inr e ↦
      let (given, f) = check_autonomous-IsAutonomous r a d (ground arith) in
      HasAuthority.autonomous e f given
]

HasAuthority-check_authority :
    (s : Store) (r : AccessRequest) (now : Stamp) (a : AgentRecord) (d : Option DelegationRecord)
    → HasAuthority s r now a d
    → check_authority s r now a ≡ ok d
unfolding check_authority
HasAuthority-check_authority s r now a d (HasAuthority.autonomous e f given) =
    ground (arith, IsAutonomous-check_autonomous r a given)
HasAuthority-check_authority s r now a d (HasAuthority.delegated_by d' e f given) =
    ground (arith, IsDelegated-check_delegation s r now d' given)

check_authority_blocks :
    (s : Store) (r : AccessRequest) (now : Stamp) (a : AgentRecord) (e : Evaluation)
    → check_authority s r now a ≡ err e
    → e.action ≡ block
unfolding check_authority
check_authority_blocks s r now a e h =
    ground (arith, check_autonomous_blocks r a e, check_delegation_blocks s r now e)

conclude-IsCleared :
    (s : Store) (r : AccessRequest) (now : Stamp) (a : AgentRecord) (d : Option DelegationRecord)
    → (conclude s r now a d).action ≡ allow
    → IsCleared s r now a
unfolding conclude
conclude-IsCleared s r now a d h = elim (Option-cases r.approval_id) [
  | inl e ↦
      let low = judge_risk-low a r d (ground arith) in IsCleared.low_risk (rw e tt) low.0 low.1
  | inr (k, e) ↦ elim (Bool-cases (is_set k)) [
    | inl f ↦
        let (p, found, force, _) =
          judge_approval-IsInForce (get_approval s k) r now d (ground arith) in
        IsCleared.by_approval k p e f found force
    | inr f ↦
        let low = judge_risk-low a r d (ground arith) in IsCleared.low_risk (rw e f) low.0 low.1
  ]
]

IsCleared-conclude :
    (s : Store) (r : AccessRequest) (now : Stamp) (a : AgentRecord) (d : Option DelegationRecord)
    → IsCleared s r now a
    → (conclude s r now a d).action ≡ allow
unfolding conclude
IsCleared-conclude s r now a d (IsCleared.low_risk n l m) = elim (Option-cases r.approval_id) [
  | inl e ↦ ground (arith, low-judge_risk a r d l m)
  | inr (k, e) ↦
      let unset : is_set k ≡ false = rw e at n in ground (arith, low-judge_risk a r d l m)
]
IsCleared-conclude s r now a d (IsCleared.by_approval k p e f found force) =
    ground (arith, IsInForce-judge_approval p r now d force)

-- How an evaluation that does not block came about: every part went through.
pub evaluate_passes :
    (s : Store) (r : AccessRequest) (now : Stamp)
    → (evaluate_strict s r now).action ≢ block
    → (a : AgentRecord) × (d : Option DelegationRecord) × (check_binding r ≡ ok tt)
      × (check_agent s r ≡ ok a)
      × (check_authority s r now a ≡ ok d)
      × (evaluate_strict s r now ≡ conclude s r now a d)
unfolding evaluate_strict
evaluate_passes s r now h = elim (Result-cases (check_binding r)) [
  | inr (e, f) ↦ absurd (h (ground (arith, check_binding_blocks r e f)))
  | inl (_, f) ↦ elim (Result-cases (check_agent s r)) [
    | inr (e, g) ↦ absurd (h (ground (arith, check_agent_blocks s r e g)))
    | inl (a, g) ↦ elim (Result-cases (check_authority s r now a)) [
      | inr (e, k) ↦ absurd (h (ground (arith, check_authority_blocks s r now a e k)))
      | inl (d, k) ↦ (a, d, f, g, k, ground arith)
    ]
  ]
]

evaluate-IsPermitted :
    (s : Store) (r : AccessRequest) (now : Stamp)
    → (evaluate_strict s r now).action ≡ allow
    → IsPermitted s r now
evaluate-IsPermitted s r now h =
    let (a, d, f, g, k, e) = evaluate_passes s r now (λ b. ground arith) in
    let (t, x, binding) = check_binding-IsBinding r f in
    record {
      tenant = t;
      digest = x;
      registered = a;
      delegation = d;
      binding = binding;
      scope = check_agent-IsAgent s r a g;
      authority = check_authority-HasAuthority s r now a d k;
      clearance = conclude-IsCleared s r now a d (rw (← e) h);
    }

IsPermitted-evaluate :
    (s : Store) (r : AccessRequest) (now : Stamp)
    → IsPermitted s r now
    → (evaluate_strict s r now).action ≡ allow
unfolding evaluate_strict
IsPermitted-evaluate s r now p = ground (
  arith,
  IsBinding-check_binding r p.tenant p.digest p.binding,
  IsAgent-check_agent s r p.registered p.scope,
  HasAuthority-check_authority s r now p.registered p.delegation p.authority,
  IsCleared-conclude s r now p.registered p.delegation p.clearance,
)

-- The strict evaluation of a request allows it exactly when it is permitted: the request names a
-- tenant and a valid digest, its agent is registered, enabled, of that tenant and covers the tool
-- and the resource, it is autonomous or delegated within scope and time, and the action is of low
-- risk or cleared by an approval in force for this very request.
pub evaluate-allow_iff :
    (s : Store) (r : AccessRequest) (now : Stamp)
    → ((evaluate_strict s r now).action ≡ allow) ↔ IsPermitted s r now
evaluate-allow_iff s r now = (evaluate-IsPermitted s r now, IsPermitted-evaluate s r now)
