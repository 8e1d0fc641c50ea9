-- ===== src/Broker/Evaluate/Evidence.antt =====
-- What an evaluation that does not block carries: the digest of the request, the delegation behind
-- it and the approval that it names.
use ai_security_gateway.Base.{
  String, ◌≡◌, ◌≢◌, inl, inr, true, Option, none, some, arith, Option-cases, Bool-cases, is_set,
}
use ai_security_gateway.Broker.Models.{
  Stamp, block, AccessRequest, ApprovalRecord, DelegationRecord, AgentRecord, digest_text,
}
use ai_security_gateway.Broker.Store.{Store, get_approval}
use ai_security_gateway.Broker.Evaluate.{
  conclude, evaluate_strict, judge_approval, judge_risk, is_given,
}
use ai_security_gateway.Broker.Evaluate.Permitted.{HasAuthority}
use ai_security_gateway.Broker.Evaluate.Stages.{check_binding-IsBinding}
use ai_security_gateway.Broker.Evaluate.Soundness.{evaluate_passes, check_authority-HasAuthority}

-- A delegation that is there has an expiry with a time zone.
abbrev pub IsZoned : Option DelegationRecord → Type 0
IsZoned none = Unit {0}
IsZoned (some d) = d.expires_at.aware ≡ true

HasAuthority-IsZoned :
    (s : Store) (r : AccessRequest) (now : Stamp) (a : AgentRecord) (d : Option DelegationRecord)
    → HasAuthority s r now a d
    → IsZoned d
HasAuthority-IsZoned s r now a d (HasAuthority.autonomous m e h) = rw e tt
HasAuthority-IsZoned s r now a d (HasAuthority.delegated_by d' m e h) = rw e h.zoned

conclude-delegation :
    (s : Store) (r : AccessRequest) (now : Stamp) (a : AgentRecord) (d : Option DelegationRecord)
    → (conclude s r now a d).action ≢ block
    → (conclude s r now a d).delegation ≡ d
unfolding conclude judge_approval judge_risk
conclude-delegation s r now a d h = ground arith

-- An evaluation that does not block has a valid digest and a zoned delegation.
pub evaluate_ready :
    (s : Store) (r : AccessRequest) (now : Stamp)
    → (evaluate_strict s r now).action ≢ block
    → (x : String) × (digest_text r.metadata ≡ some x)
      × IsZoned (evaluate_strict s r now).delegation
evaluate_ready s r now h =
    let (a, d, f, g, k, e) = evaluate_passes s r now h in
    let (t, x, binding) = check_binding-IsBinding r f in
    (
      x,
      binding.digest_given,
      rw (e, conclude-delegation s r now a d (rw (← e) h))
          (HasAuthority-IsZoned s r now a d (check_authority-HasAuthority s r now a d k)),
    )

-- The approval of an evaluation is the stored one that the request names; it is not used yet.
pub record IsNamed (s : Store) (r : AccessRequest) (p : ApprovalRecord) : Type 0 where
  pub key : String
  pub named : r.approval_id ≡ some key
  pub given : is_set key ≡ true
  pub found : get_approval s key ≡ some p
  pub bound : is_given p.request_digest ≡ true
  pub unused : p.consumed_at ≡ none

judge_approval-approval :
    (o : Option ApprovalRecord) (r : AccessRequest) (now : Stamp) (d : Option DelegationRecord)
    (p : ApprovalRecord)
    → (judge_approval o r now d).approval ≡ some p
    → (o ≡ some p) × (is_given p.request_digest ≡ true) × (p.consumed_at ≡ none)
unfolding judge_approval
judge_approval-approval none r now d p h = ground arith
judge_approval-approval (some q) r now d p h = ground arith

conclude-IsNamed :
    (s : Store) (r : AccessRequest) (now : Stamp) (a : AgentRecord) (d : Option DelegationRecord)
    (p : ApprovalRecord)
    → (conclude s r now a d).approval ≡ some p
    → IsNamed s r p
unfolding conclude judge_risk
conclude-IsNamed s r now a d p h = elim (Option-cases r.approval_id) [
  | inl e ↦ absurd (ground arith)
  | inr (k, e) ↦ elim (Bool-cases (is_set k)) [
    | inr f ↦ absurd (ground arith)
    | inl f ↦
        let (found, bound, unused) =
          judge_approval-approval (get_approval s k) r now d p (ground arith) in
        record { key = k; named = e; given = f; found = found; bound = bound; unused = unused }
  ]
]

pub evaluate-IsNamed :
    (s : Store) (r : AccessRequest) (now : Stamp) (p : ApprovalRecord)
    → (evaluate_strict s r now).action ≢ block
    → (evaluate_strict s r now).approval ≡ some p
    → IsNamed s r p
evaluate-IsNamed s r now p h f =
    let (a, d, _, _, _, e) = evaluate_passes s r now h in conclude-IsNamed s r now a d p (rw e at f)
