-- ===== src/Broker/OneTime/Answers.antt =====
-- What the decisions of `authorize` and `decide` leave of a used approval.
use ai_security_gateway.Base.{
  ℕ, ◌≤◌, String, ◌≡◌, sym, ◌∙◌, ap, ◌≢◌, inl, inr, true, ◌||◌, Option, none, some, arith, is_set,
  subst,
}
use ai_security_gateway.Base.Dict
use ai_security_gateway.Base.Dict.{Dict, get-put}
use ai_security_gateway.Base.Result.{Result, ok}
use ai_security_gateway.Base.Exec.Preserves.{gets-Preserves, if-Preserves, bind-Preserves}
use ai_security_gateway.Broker.Models.{
  Error, AccessAction-cases, Stamp, AgentRecord, AccessRequest, ApprovalRecord, AccessDecision,
  allow, block,
}
use ai_security_gateway.Broker.Store.{Store, get_approval, with_approval}
use ai_security_gateway.Broker.World.{Env, World}
use ai_security_gateway.Broker.Evaluate.{
  is_given, evaluate_strict, named_approval, conclude, judge_approval,
}
use ai_security_gateway.Broker.Evaluate.Evidence.{evaluate-IsNamed}
use ai_security_gateway.Broker.Evaluate.Clearance.{judge_approval-IsInForce}
use ai_security_gateway.Broker.Evaluate.Soundness.{evaluate_passes}
use ai_security_gateway.Broker.Issue.{Broker}
use ai_security_gateway.Broker.Engine.{authorize}
use ai_security_gateway.Broker.Engine.Held.{held, id_at, moment}
use ai_security_gateway.Broker.Engine.Answers.{Approvals, IsAnswer}
use ai_security_gateway.Broker.Engine.Authorize.{authorize-IsAnswer}
use ai_security_gateway.Broker.Legacy.{is_agent_mode, decide_unbound, decide}
use ai_security_gateway.Broker.Spent.{
  IsUsed, IsKeyed, IsSpent, Keeps, with_approval-IsKeyed, with_approval-IsUsed,
}
use ai_security_gateway.Broker.OneTime.{decide_legacy-Keeps, read_transaction-Keeps}

-- A used approval blocks the request that names it.
conclude-used :
    (k : String) (s : Store) (r : AccessRequest) (now : Stamp) (a : AgentRecord) (d : _)
    → IsUsed k s
    → r.approval_id ≡ some k
    → is_set k ≡ true
    → (conclude s r now a d).action ≡ block
unfolding conclude judge_approval
conclude-used k s r now a d (p, e, g, u) f n = ground arith

pub evaluate-used :
    (k : String) (s : Store) (r : AccessRequest) (now : Stamp)
    → IsUsed k s
    → r.approval_id ≡ some k
    → is_set k ≡ true
    → (evaluate_strict s r now).action ≡ block
evaluate-used k s r now u f n = elim (AccessAction-cases (evaluate_strict s r now).action) [
  | inl e ↦ absurd (passing (λ b. ground arith))
  | inr (inl e) ↦ e
  | inr (inr e) ↦ absurd (passing (λ b. ground arith))
]
  where
    passing : (evaluate_strict s r now).action ≢ block → ⊥
    passing h =
        let (a, d, _, _, _, e) = evaluate_passes s r now h in
        h (ap (λ v. v.action) e ∙ conclude-used k s r now a d u f n)

pub key_eq : {o : Option String} {j k : String} → o ≡ some j → o ≡ some k → j ≡ k
key_eq e f = ground arith

-- A request that names an approval is allowed on that approval.
pub evaluate-approval :
    (k : String) (s : Store) (r : AccessRequest) (now : Stamp)
    → (evaluate_strict s r now).action ≡ allow
    → r.approval_id ≡ some k
    → is_set k ≡ true
    → (p : ApprovalRecord) × ((evaluate_strict s r now).approval ≡ some p)
unfolding conclude
evaluate-approval k s r now e f n =
    let (a, d, _, _, _, g) = evaluate_passes s r now (λ b. ground arith) in
    let (p, _, _, q) = judge_approval-IsInForce (get_approval s k) r now d (ground arith) in
    (p, ground arith)

-- Both predicates look at the approvals alone.
pub same_approvals :
    (k : String) (s s' : Store)
    → s'.approvals ≡ s.approvals
    → IsKeyed s × IsUsed k s
    → IsKeyed s' × IsUsed k s'
unfolding get_approval
same_approvals k s s' e (a, b) = (
  λ j p f. a j p (ap (λ (d : Dict ApprovalRecord). Dict.get j d) (sym e) ∙ f),
  (b.0, ap (λ (d : Dict ApprovalRecord). Dict.get k d) e ∙ b.1, b.2, b.3),
)

pub answers_eq :
    {File : Type 0} {d d' : AccessDecision} {w w' : World File}
    → ◌≡◌ {A = Result Error AccessDecision × World File} (ok d, w) (ok d', w')
    → (d ≡ d') × (w ≡ w')
answers_eq h = ground arith

pub same_held :
    {File : Type 0} (w w' : World File)
    → w'.backend ≡ w.backend
    → w'.nested ≡ w.nested
    → held w' ≡ held w
same_held w w' e f = ground arith

module _ {File : Type 0} (env : Env File) (broker : Broker) (k : String) (start : ℕ)
    (never : (n : ℕ) → start ≤ n → id_at env "apv" n ≢ k) where
  -- A verdict that allows or waits has an approval that is not the used one.
  named-ne :
      (r : AccessRequest) (s : Store) (now : Stamp) (p : ApprovalRecord)
      → IsKeyed s
      → IsUsed k s
      → (evaluate_strict s r now).action ≡ allow
      → (evaluate_strict s r now).approval ≡ some p
      → p.approval_id ≢ k
  named-ne r s now p keyed (q, e, g, u) f h same =
      let named = evaluate-IsNamed s r now p (λ b. ground arith) h in
      ground (
        arith,
        subst (λ (x : String). get_approval s x ≡ some q) (sym same ∙ keyed named.key p named.found)
            e,
        named.found,
        named.unused,
      )

  -- The approvals of an answer keep what was used.
  approvals-Keep :
      (r : AccessRequest) (w w' : World File) (dec : AccessDecision)
      → IsSpent k start w
      → Approvals env broker r
          (evaluate_strict w.memory r (moment env w.readings))
          (moment env w.readings)
          w
          w'
          dec
      → IsKeyed w'.memory × IsUsed k w'.memory
  unfolding with_approval
  approvals-Keep r w w' dec h (Approvals.refused e f g) =
      same_approvals k w.memory w'.memory g (h.keyed, h.spent)
  approvals-Keep r w w' dec h (Approvals.waiting p e f g i) =
      same_approvals k w.memory w'.memory i (h.keyed, h.spent)
  approvals-Keep r w w' dec h (Approvals.opened p e f g n l i o j) =
      same_approvals k (with_approval p w.memory) w'.memory j (
        with_approval-IsKeyed p w.memory h.keyed,
        with_approval-IsUsed k p w.memory (λ same. never n (omega (arith, h.later)) (sym i ∙ same))
            h.spent,
      )
  approvals-Keep r w w' dec h (Approvals.allowed e f g i) =
      same_approvals k w.memory w'.memory i (h.keyed, h.spent)
  approvals-Keep r w w' dec h (Approvals.used p e f g i) =
      let q : ApprovalRecord = record p { consumed_at = some (moment env w.readings) } in
      same_approvals k (with_approval q w.memory) w'.memory i (
        with_approval-IsKeyed q w.memory h.keyed,
        with_approval-IsUsed k q w.memory
            (named-ne r w.memory (moment env w.readings) p h.keyed h.spent e f) h.spent,
      )

  IsAnswer-IsSpent :
      (r : AccessRequest) (w w' : World File) (dec : AccessDecision)
      → IsSpent k start w
      → IsAnswer env broker r w w' dec
      → IsSpent k start w'
  IsAnswer-IsSpent r w w' dec h a = record {
    held_by = same_held w w' a.same.backend a.same.nested ∙ h.held_by;
    later = omega (arith, h.later, a.same.later);
    keyed = (approvals-Keep r w w' dec h a.approvals).0;
    spent = (approvals-Keep r w w' dec h a.approvals).1;
  }

  pub authorize-Keeps : (r : AccessRequest) → Keeps env k start (authorize env broker r)
  authorize-Keeps r = record {
    after = λ w h.
        let (dec, w', e, a) = authorize-IsAnswer env broker r w h.held_by in
        rw e (IsAnswer-IsSpent r w w' dec h a);
  }

  decide_unbound-Keeps :
      (r : AccessRequest) (o : Option String) → Keeps env k start (decide_unbound env broker r o)
  unfolding decide_unbound
  decide_unbound-Keeps r none = decide_legacy-Keeps env k start never broker r
  decide_unbound-Keeps r (some j) =
      bind-Preserves (read_transaction-Keeps env k start _ (gets-Preserves _))
        (λ b. if-Preserves b (authorize-Keeps r) (decide_legacy-Keeps env k start never broker r))

  pub decide-Keeps : (r : AccessRequest) → Keeps env k start (decide env broker r)
  unfolding decide
  decide-Keeps r =
      if-Preserves
        (is_agent_mode r.authorization_mode || is_given (Dict.get "request_digest" r.metadata))
        (authorize-Keeps r) (decide_unbound-Keeps r (named_approval r.approval_id))
