-- ===== src/Broker/Evaluate/Stages.antt =====
-- Each part of the strict evaluation decides its part of the permission.
use ai_security_gateway.Base.{
  String, ◌≡◌, inl, inr, true, Option, none, some, List, arith, eq_iff, contains→Listed,
  Listed→contains, opt_eq→eq, opt_eq_refl, is_blank→is_set, Option-cases,
}
use ai_security_gateway.Base.Result.{ok, err}
use ai_security_gateway.Broker.Models.{
  Stamp, block, AgentRecord, DelegationRecord, AccessRequest, digest_text,
}
use ai_security_gateway.Broker.Store.{Store, get_delegation}
use ai_security_gateway.Broker.Evaluate.{
  Evaluation, in_scope, is_future, check_binding, valid_digest, check_agent, check_autonomous,
  check_delegation, delegation_mismatch,
}
use ai_security_gateway.Broker.Evaluate.Permitted.{
  Covers, IsBinding, IsAgent, IsAutonomous, IsDelegated,
}

in_scope→Covers : (v : String) (xs : List String) → in_scope v xs ≡ true → Covers xs v
unfolding in_scope
in_scope→Covers v xs h = ground (arith, contains→Listed "*" xs, contains→Listed v xs)

Covers→in_scope : (v : String) (xs : List String) → Covers xs v → in_scope v xs ≡ true
unfolding in_scope
Covers→in_scope v xs (inl m) = ground (arith, Listed→contains "*" xs m)
Covers→in_scope v xs (inr m) = ground (arith, Listed→contains v xs m)

-- An evaluation that ends early blocks.
pub check_binding_blocks :
    (r : AccessRequest) (e : Evaluation) → check_binding r ≡ err e → e.action ≡ block
unfolding check_binding
check_binding_blocks r e h = ground arith

pub check_agent_blocks :
    (s : Store) (r : AccessRequest) (e : Evaluation) → check_agent s r ≡ err e → e.action ≡ block
unfolding check_agent
check_agent_blocks s r e h = ground arith

pub check_autonomous_blocks :
    (r : AccessRequest) (a : AgentRecord) (e : Evaluation)
    → check_autonomous r a ≡ err e
    → e.action ≡ block
unfolding check_autonomous
check_autonomous_blocks r a e h = ground arith

pub check_delegation_blocks :
    (s : Store) (r : AccessRequest) (now : Stamp) (e : Evaluation)
    → check_delegation s r now ≡ err e
    → e.action ≡ block
unfolding check_delegation
check_delegation_blocks s r now e h = ground arith

pub check_agent-IsAgent :
    (s : Store) (r : AccessRequest) (a : AgentRecord) → check_agent s r ≡ ok a → IsAgent s r a
unfolding check_agent
check_agent-IsAgent s r a h = ground (
  arith,
  opt_eq→eq a.tenant_id r.tenant_id,
  in_scope→Covers r.tool_name a.allowed_tools,
  in_scope→Covers r.resource_id a.allowed_resources,
)

pub IsAgent-check_agent :
    (s : Store) (r : AccessRequest) (a : AgentRecord) → IsAgent s r a → check_agent s r ≡ ok a
unfolding check_agent
IsAgent-check_agent s r a h = ground (
  arith,
  opt_eq_refl a.tenant_id,
  Covers→in_scope r.tool_name a.allowed_tools h.tool,
  Covers→in_scope r.resource_id a.allowed_resources h.resource,
)

pub check_binding-IsBinding :
    (r : AccessRequest) → check_binding r ≡ ok tt → (t : String) × (d : String) × IsBinding r t d
unfolding check_binding valid_digest
check_binding-IsBinding r h = elim (Option-cases r.tenant_id) [
  | inl e ↦ absurd (ground arith)
  | inr (t, e) ↦ elim (Option-cases (digest_text r.metadata)) [
    | inl f ↦ absurd (ground arith)
    | inr (d, f) ↦ (t, d, ground arith)
  ]
]

pub IsBinding-check_binding :
    (r : AccessRequest) (t d : String) → IsBinding r t d → check_binding r ≡ ok tt
unfolding check_binding valid_digest
IsBinding-check_binding r t d h = ground (arith, is_blank→is_set t)

pub check_autonomous-IsAutonomous :
    (r : AccessRequest) (a : AgentRecord) (d : Option DelegationRecord)
    → check_autonomous r a ≡ ok d
    → IsAutonomous r a × (d ≡ none)
unfolding check_autonomous
check_autonomous-IsAutonomous r a d h =
    ground (arith, in_scope→Covers r.requested_action a.allowed_actions)

pub IsAutonomous-check_autonomous :
    (r : AccessRequest) (a : AgentRecord) → IsAutonomous r a → check_autonomous r a ≡ ok none
unfolding check_autonomous
IsAutonomous-check_autonomous r a h =
    ground (arith, Covers→in_scope r.requested_action a.allowed_actions h.action)

-- The users, agents and tasks of a delegation that matches are the request's.
mismatch-none :
    (r : AccessRequest) (d : DelegationRecord)
    → delegation_mismatch r d ≡ none
    → (d.user_id ≡ r.user_id) × (d.agent_id ≡ r.agent_id) × (d.task_id ≡ r.task_id)
unfolding delegation_mismatch
mismatch-none r d h =
    ground
      (arith, eq_iff d.user_id r.user_id, eq_iff d.agent_id r.agent_id, eq_iff d.task_id r.task_id)

none-mismatch :
    (s : Store) (r : AccessRequest) (now : Stamp) (d : DelegationRecord)
    → IsDelegated s r now d
    → delegation_mismatch r d ≡ none
unfolding delegation_mismatch
none-mismatch s r now d h = ground (
  arith,
  eq_iff d.user_id r.user_id,
  eq_iff d.agent_id r.agent_id,
  eq_iff d.task_id r.task_id,
  Covers→in_scope r.resource_id d.allowed_resources h.resource,
  Covers→in_scope r.requested_action d.allowed_actions h.action,
)

pub check_delegation-IsDelegated :
    (s : Store) (r : AccessRequest) (now : Stamp) (d : Option DelegationRecord)
    → check_delegation s r now ≡ ok d
    → (d' : DelegationRecord) × (d ≡ some d') × IsDelegated s r now d'
unfolding check_delegation is_future
check_delegation-IsDelegated s r now d h = elim (Option-cases (get_delegation s r.delegation_id)) [
  | inl e ↦ absurd (ground arith)
  | inr (d', e) ↦ (
    d',
    ground arith,
    ground (
      arith,
      opt_eq→eq d'.tenant_id r.tenant_id,
      mismatch-none r d',
      in_scope→Covers r.resource_id d'.allowed_resources,
      in_scope→Covers r.requested_action d'.allowed_actions,
    ),
  )
]

pub IsDelegated-check_delegation :
    (s : Store) (r : AccessRequest) (now : Stamp) (d : DelegationRecord)
    → IsDelegated s r now d
    → check_delegation s r now ≡ ok (some d)
unfolding check_delegation is_future
IsDelegated-check_delegation s r now d h = ground (
  arith,
  opt_eq_refl d.tenant_id,
  none-mismatch s r now d h,
  Covers→in_scope r.resource_id d.allowed_resources h.resource,
  Covers→in_scope r.requested_action d.allowed_actions h.action,
)
