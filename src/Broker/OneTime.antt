-- ===== src/Broker/OneTime.antt =====
-- Every operation of the broker leaves a used approval used, and no later request passes on it.
pub mod Answers
pub mod Runs
use ai_security_gateway.Base.{
  ℕ, suc, ◌≤◌, String, ◌≡◌, refl, sym, ◌∙◌, ◌≢◌, ◌⊎◌, inl, inr, Bool, true, false, Option, none,
  some, arith, str_eq, eq_iff, is_set, Bool-cases, Option-cases, subst,
}
use ai_security_gateway.Base.Dict
use ai_security_gateway.Base.Dict.{Dict, get-put}
use ai_security_gateway.Base.Result.{ok, err}
use ai_security_gateway.Base.Exec.{Exec, pure, lift, gets, ◌>>=◌, ◌>>◌}
use ai_security_gateway.Base.Exec.Preserves.{
  Preserves, pure-Preserves, raise-Preserves, lift-Preserves, gets-Preserves, if-Preserves,
  bind-Preserves,
}
use ai_security_gateway.Broker.Models.{
  Error, Stamp, AgentRecord, DelegationRecord, DelegationCreateRequest, AccessRequest,
  ApprovalRecord, ApprovalDecisionRequest, ApprovalStatus, AccessDecision, allow, block,
}
use ai_security_gateway.Broker.Store.{
  Store, get_approval, with_approval, with_agent, with_delegation, with_event,
}
use ai_security_gateway.Broker.World.{
  Env, World, M, utc_now, uuid, write_store, transaction, read_transaction, upsert_agent,
  create_delegation, upsert_approval,
}
use ai_security_gateway.Broker.Evaluate.{
  is_given, evaluate_strict, named_approval, delegation_mismatch,
}
use ai_security_gateway.Broker.Evaluate.Evidence.{IsNamed, evaluate-IsNamed}
use ai_security_gateway.Broker.Registry.{
  new_id, audit, save_approval, register_agent, create_delegation_for,
}
use ai_security_gateway.Broker.Issue.{Broker, issue_token, token_expiry, strict_decision}
use ai_security_gateway.Broker.Engine.{evaluate, authorize}
use ai_security_gateway.Broker.Engine.Held.{held, id_at, moment, transaction-held}
use ai_security_gateway.Broker.Engine.Answers.{Approvals, IsAnswer}
use ai_security_gateway.Broker.Engine.Authorize.{authorize-IsAnswer}
use ai_security_gateway.Broker.Approve.{
  decided_text, may_decide, decided, decide_on, set_approval_status,
}
use ai_security_gateway.Broker.Legacy.{
  legacy_approval, settle_mismatch, decision, create_approval, settle_high_risk, legacy_grant,
  legacy_delegation, legacy_agent, decide_legacy, decide,
}
use ai_security_gateway.Broker.Spent.{
  ticked-IsSpent, IsUsed, IsKeyed, IsSpent, Keeps, rules, with_approval-IsKeyed,
  with_approval-IsUsed, transaction-Keeps, write_store-Keeps, new_id-Keeps, audit-Keeps,
}

module _ {File : Type 0} (env : Env File) (k : String) (start : ℕ) where
  upsert_approval-Keeps :
      (p : ApprovalRecord) → p.approval_id ≢ k → Keeps env k start (upsert_approval env p)
  unfolding upsert_approval
  upsert_approval-Keeps p n = transaction-Keeps env k start _ (
      bind-Preserves
        (write_store-Keeps env k start (with_approval p)
          (λ s a b. (with_approval-IsKeyed p s a, with_approval-IsUsed k p s n b)))
        (λ _. pure-Preserves p))

  upsert_agent-Keeps : (a : AgentRecord) → Keeps env k start (upsert_agent env a)
  unfolding upsert_agent with_agent get_approval
  upsert_agent-Keeps a = transaction-Keeps env k start _ (
      bind-Preserves (write_store-Keeps env k start (with_agent a) (λ s x y. (x, y)))
        (λ _. pure-Preserves a))

  create_delegation-Keeps : (d : DelegationRecord) → Keeps env k start (create_delegation env d)
  unfolding create_delegation with_delegation get_approval
  create_delegation-Keeps d = transaction-Keeps env k start _ (
      bind-Preserves (write_store-Keeps env k start (with_delegation d) (λ s x y. (x, y)))
        (λ _. pure-Preserves d))

  save_approval-Keeps :
      (t : String) (p : ApprovalRecord)
      → p.approval_id ≢ k
      → Keeps env k start (save_approval env t p)
  unfolding save_approval
  save_approval-Keeps t p n =
      bind-Preserves (upsert_approval-Keeps p n)
        (λ q. bind-Preserves (audit-Keeps env k start t _) (λ _. pure-Preserves q))

  pub register_agent-Keeps : (a : AgentRecord) (x : _) → Keeps env k start (register_agent env a x)
  unfolding register_agent
  register_agent-Keeps a x = search (rules, audit-Keeps, upsert_agent-Keeps)

  pub create_delegation_for-Keeps :
      (p : DelegationCreateRequest) (x : _) → Keeps env k start (create_delegation_for env p x)
  unfolding create_delegation_for
  create_delegation_for-Keeps p x = search (rules, audit-Keeps, create_delegation-Keeps)

  strict_decision-Keeps :
      (r : AccessRequest) (e : _) (b : Bool) (t : _) (o : _)
      → Keeps env k start (strict_decision env r e b t o)
  unfolding strict_decision
  strict_decision-Keeps r e b t o = search (rules, new_id-Keeps)

  pub read_transaction-Keeps :
      {A : Type 0} (m : M File A) → Keeps env k start m → Keeps env k start (read_transaction env m)
  unfolding read_transaction
  read_transaction-Keeps m p = record { after = λ w h. ground (arith, h.held_by, p.after w h) }

  pub evaluate-Keeps :
      (broker : Broker) (r : AccessRequest) → Keeps env k start (evaluate env broker r)
  unfolding evaluate
  evaluate-Keeps broker r = search (rules, read_transaction-Keeps, strict_decision-Keeps)

  -- An approval that is used is not decided again.
  used-may_decide :
      (p : ApprovalRecord) (now : Stamp)
      → is_given p.request_digest ≡ true
      → is_given p.consumed_at ≡ true
      → may_decide p now ≡ false
  unfolding may_decide
  used-may_decide p now h u = ground arith

  decide_on-Keeps :
      (p : ApprovalRecord) (payload : ApprovalDecisionRequest) (status : ApprovalStatus)
      → ((now : Stamp) → may_decide p now ≡ true → p.approval_id ≢ k)
      → Keeps env k start (decide_on env (some p) payload status)
  unfolding decide_on utc_now
  decide_on-Keeps p payload status other = record {
    after = λ w h.
        let next = ticked-IsSpent (suc w.readings) w h (omega arith) in
        let now = moment env w.readings in
        elim (Bool-cases (may_decide p now)) [
          | inl e ↦ rw e (
              (save_approval-Keeps (decided_text status) (decided p status now payload)
                  (other now e)).after
                _ next)
          | inr e ↦ rw e next
        ];
  }

  none-decide_on-Keeps :
      (payload : ApprovalDecisionRequest) (status : ApprovalStatus)
      → Keeps env k start (decide_on env none payload status)
  unfolding decide_on
  none-decide_on-Keeps payload status = raise-Preserves _

  -- The stored approval that is decided is not the used one.
  decided-ne :
      (s : Store) (j : String) (p : ApprovalRecord) (now : Stamp)
      → IsKeyed s
      → IsUsed k s
      → get_approval s j ≡ some p
      → may_decide p now ≡ true
      → p.approval_id ≢ k
  decided-ne s j p now keyed (q, e, d, u) f m same = ground (
    arith,
    keyed j p f,
    subst (λ (x : String). get_approval s x ≡ some q) (sym same ∙ keyed j p f) e,
    used-may_decide p now,
  )

  pub set_approval_status-Keeps :
      (j : String) (payload : ApprovalDecisionRequest) (status : ApprovalStatus)
      → Keeps env k start (set_approval_status env j payload status)
  unfolding set_approval_status
  set_approval_status-Keeps j payload status = transaction-Keeps env k start _ (record {
    after = λ w h. elim (Option-cases (get_approval w.memory j)) [
      | inl e ↦ rw e ((none-decide_on-Keeps payload status).after w h)
      | inr (p, e) ↦ rw e (
          (decide_on-Keeps p payload status
              (λ now m. decided-ne w.memory j p now h.keyed h.spent e m)).after
            w h)
    ];
  })

  module _ (never : (n : ℕ) → start ≤ n → id_at env "apv" n ≢ k) (broker : Broker) where
    issue_token-Keeps : (r : AccessRequest) (d : _) → Keeps env k start (issue_token env broker r d)
    unfolding issue_token token_expiry
    issue_token-Keeps r none = search rules
    issue_token-Keeps r (some d) = search rules

    decision-Keeps :
        (r : AccessRequest) (a : _) (c : _) (t : String) (o : _) (p : _)
        → Keeps env k start (decision env broker r a c t o p)
    unfolding decision
    decision-Keeps r a c t o p = search (rules, new_id-Keeps, audit-Keeps)

    create_approval-Keeps : (r : AccessRequest) → Keeps env k start (create_approval env broker r)
    unfolding create_approval new_id uuid utc_now
    create_approval-Keeps r = record {
      after = λ w h.
          (save_approval-Keeps _ (legacy_approval r (id_at env "apv" w.readings) _)
              (never w.readings h.later)).after
            _ (ticked-IsSpent (suc (suc w.readings)) w h (omega arith));
    }

    settle_high_risk-Keeps :
        (r : AccessRequest) (d : DelegationRecord) (o : _)
        → Keeps env k start (settle_high_risk env broker r d o)
    unfolding settle_high_risk
    settle_high_risk-Keeps r d none = search (rules, create_approval-Keeps, decision-Keeps)
    settle_high_risk-Keeps r d (some p) = search (rules, issue_token-Keeps, decision-Keeps)

    legacy_grant-Keeps :
        (r : AccessRequest) (a : AgentRecord) (d : DelegationRecord)
        → Keeps env k start (legacy_grant env broker r a d)
    unfolding legacy_grant
    legacy_grant-Keeps r a d =
        search (rules, settle_high_risk-Keeps, issue_token-Keeps, decision-Keeps)

    mismatch-Keeps :
        (r : AccessRequest) (a : AgentRecord) (d : DelegationRecord) (o : _)
        → Keeps env k start (settle_mismatch env broker r a d o)
    unfolding settle_mismatch
    mismatch-Keeps r a d none = legacy_grant-Keeps r a d
    mismatch-Keeps r a d (some (c, t)) = decision-Keeps r _ c t _ _

    legacy_delegation-Keeps :
        (r : AccessRequest) (a : AgentRecord) (o : _)
        → Keeps env k start (legacy_delegation env broker r a o)
    unfolding legacy_delegation
    legacy_delegation-Keeps r a none = decision-Keeps r _ _ _ _ _
    legacy_delegation-Keeps r a (some d) = search (rules, decision-Keeps, mismatch-Keeps)

    legacy_agent-Keeps :
        (r : AccessRequest) (o : _) → Keeps env k start (legacy_agent env broker r o)
    unfolding legacy_agent
    legacy_agent-Keeps r none = decision-Keeps r _ _ _ _ _
    legacy_agent-Keeps r (some a) = search (rules, decision-Keeps, legacy_delegation-Keeps)

    pub decide_legacy-Keeps : (r : AccessRequest) → Keeps env k start (decide_legacy env broker r)
    unfolding decide_legacy
    decide_legacy-Keeps r = search (rules, legacy_agent-Keeps)
