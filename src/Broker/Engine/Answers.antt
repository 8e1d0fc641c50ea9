-- ===== src/Broker/Engine/Answers.antt =====
-- What an authorization answers: the decision with its token, what becomes of the approvals, and
-- what else of the world it leaves alone.
use ai_security_gateway.Base.{ℕ, ◌≤◌, ◌≡◌, ◌≢◌, true, Option, none, some, List, [], ◌∷◌, ◌++◌}
use ai_security_gateway.Base.Dict
use ai_security_gateway.Broker.Models.{
  Stamp, add_seconds, allow, block, approval_required, pending, AccessRequest, AccessDecision,
  DelegationRecord, ApprovalRecord, BrokerToken, AuditEvent, AuditPayload, digest_text,
  decision_payload,
}
use ai_security_gateway.Broker.World.{Env, World}
use ai_security_gateway.Broker.Evaluate.{Evaluation, evaluate_strict}
use ai_security_gateway.Broker.Issue.{Broker}
use ai_security_gateway.Broker.Engine.Held.{moment, id_at}
use ai_security_gateway.Broker.Engine.Tokens.{EndsWith, IsTokenFor, expiry_from}

-- Nothing but the approvals, the trail and the clock differs.
pub record IsSameElse {File : Type 0} (w w' : World File) : Type 0 where
  pub backend : w'.backend ≡ w.backend
  pub nested : w'.nested ≡ w.nested
  pub disk : w'.disk ≡ w.disk
  pub agents : w'.memory.agents ≡ w.memory.agents
  pub delegations : w'.memory.delegations ≡ w.memory.delegations
  pub later : w.readings ≤ w'.readings

-- The trail of `w'` is that of `w` with more events, the last of them with this payload.
abbrev pub Extends : {File : Type 0} → World File → World File → AuditPayload → Type 0
Extends w w' payload =
    (vs : List AuditEvent) × (v : AuditEvent) × (w'.memory.audit_events
      ≡ w.memory.audit_events ++ vs ++ v ∷ [])
    × (v.payload ≡ payload)

module _ {File : Type 0} (env : Env File) (broker : Broker) where
  -- A new approval: pending, unused, for this request, and ending with the delegation at the latest.
  pub record IsOpened (r : AccessRequest) (now : Stamp) (d : Option DelegationRecord)
      (p : ApprovalRecord) : Type 0 where
    pub status : p.status ≡ pending
    pub unused : p.consumed_at ≡ none
    pub mode : p.authorization_mode ≡ r.authorization_mode
    pub tenant : p.tenant_id ≡ r.tenant_id
    pub user : p.user_id ≡ r.user_id
    pub agent_named : p.agent_id ≡ r.agent_id
    pub delegation : p.delegation_id ≡ r.delegation_id
    pub task : p.task_id ≡ r.task_id
    pub tool : p.tool_name ≡ r.tool_name
    pub resource : p.resource_id ≡ r.resource_id
    pub action : p.requested_action ≡ r.requested_action
    pub instance_named : p.agent_instance_id ≡ r.agent_instance_id
    pub bound : p.request_digest ≢ none
    pub digest : p.request_digest ≡ digest_text r.metadata
    pub expiry :
        (t : Stamp) × (p.expires_at ≡ some t)
        × (t.aware ≡ true)
        × (t.micros ≤ (add_seconds now broker.approval_ttl_seconds).micros)
        × EndsWith d t

  -- What becomes of the approvals, by the outcome of the evaluation.
  pub data Approvals (r : AccessRequest) (e : Evaluation) (now : Stamp) (w w' : World File)
      (dec : AccessDecision) : Type 0 where
    refused :
        e.action ≡ block
        → dec.approval ≡ none
        → w'.memory.approvals ≡ w.memory.approvals
        → Approvals r e now w w' dec
    waiting :
        (p : ApprovalRecord)
        → e.action ≡ approval_required
        → e.approval ≡ some p
        → dec.approval ≡ some p
        → w'.memory.approvals ≡ w.memory.approvals
        → Approvals r e now w w' dec
    opened :
        (p : ApprovalRecord)
        → e.action ≡ approval_required
        → e.approval ≡ none
        → dec.approval ≡ some p
        → (n : ℕ) → w.readings ≤ n
        → p.approval_id ≡ id_at env "apv" n
        → IsOpened r now e.delegation p
        → w'.memory.approvals ≡ Dict.put p.approval_id p w.memory.approvals
        → Approvals r e now w w' dec
    allowed :
        e.action ≡ allow
        → e.approval ≡ none
        → dec.approval ≡ none
        → w'.memory.approvals ≡ w.memory.approvals
        → Approvals r e now w w' dec
    used :
        (p : ApprovalRecord)
        → e.action ≡ allow
        → e.approval ≡ some p
        → dec.approval ≡ some (record p { consumed_at = some now })
        → w'.memory.approvals
          ≡ Dict.put p.approval_id (record p { consumed_at = some now }) w.memory.approvals
        → Approvals r e now w w' dec

  -- A token stands in the decision exactly when the action is allowed, and is for this request.
  pub record IsTokened (r : AccessRequest) (e : Evaluation) (w : World File) (dec : AccessDecision)
      : Type 0 where
    pub absent : dec.action ≢ allow → dec.token ≡ none
    pub present :
        dec.action ≡ allow
        → (t : BrokerToken) × (n : ℕ) × (dec.token ≡ some t)
          × (w.readings ≤ n)
          × IsTokenFor r e.delegation (expiry_from env broker n) t

  pub record IsAnswer (r : AccessRequest) (w w' : World File) (dec : AccessDecision) : Type 0 where
    pub action : dec.action ≡ (evaluate_strict w.memory r (moment env w.readings)).action
    pub code : dec.reason_code ≡ (evaluate_strict w.memory r (moment env w.readings)).reason_code
    pub token : IsTokened r (evaluate_strict w.memory r (moment env w.readings)) w dec
    pub approvals :
        Approvals r
          (evaluate_strict w.memory r (moment env w.readings))
          (moment env w.readings)
          w
          w'
          dec
    pub same : IsSameElse w w'
    pub trail : Extends w w' (decision_payload dec)
