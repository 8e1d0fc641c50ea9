-- ===== src/Broker/OneTime/Runs.antt =====
-- Runs of operations by any callers, and the one use of a bound approval.
use ai_security_gateway.Base.{
  ℕ, ◌≤◌, String, ◌≡◌, refl, sym, ◌∙◌, ◌≢◌, true, Option, some, List, [], ◌∷◌, arith, eq_iff,
  is_set,
}
use ai_security_gateway.Base.Dict.{Dict, get-put}
use ai_security_gateway.Base.Result.{ok}
use ai_security_gateway.Broker.Models.{
  Stamp, AgentRecord, DelegationCreateRequest, AccessRequest, ApprovalRecord,
  ApprovalDecisionRequest, AccessDecision, allow, block,
}
use ai_security_gateway.Broker.Store.{Store, get_approval, with_approval}
use ai_security_gateway.Broker.World.{Env, World}
use ai_security_gateway.Broker.Evaluate.{evaluate_strict}
use ai_security_gateway.Broker.Evaluate.Evidence.{evaluate-IsNamed}
use ai_security_gateway.Broker.Registry.{register_agent, create_delegation_for}
use ai_security_gateway.Broker.Issue.{Broker}
use ai_security_gateway.Broker.Engine.{evaluate, authorize}
use ai_security_gateway.Broker.Engine.Held.{held, id_at, moment}
use ai_security_gateway.Broker.Engine.Answers.{Approvals, IsAnswer}
use ai_security_gateway.Broker.Engine.Authorize.{authorize-IsAnswer}
use ai_security_gateway.Broker.Approve.{approve, deny}
use ai_security_gateway.Broker.Legacy.{decide}
use ai_security_gateway.Broker.Spent.{IsUsed, IsKeyed, IsSpent, with_approval-IsKeyed}
use ai_security_gateway.Broker.OneTime.{
  evaluate-Keeps, register_agent-Keeps, create_delegation_for-Keeps, set_approval_status-Keeps,
}
use ai_security_gateway.Broker.OneTime.Answers.{
  evaluate-used, evaluate-approval, key_eq, same_approvals, answers_eq, same_held, authorize-Keeps,
  decide-Keeps,
}

-- The calls that a broker serves.
pub data Operation : Type 0 where
  authorizes decides evaluates : AccessRequest → Operation
  approves denies : String → ApprovalDecisionRequest → Operation
  registers : AgentRecord → Option (Dict String) → Operation
  delegates : DelegationCreateRequest → Option (Dict String) → Operation

module _ {File : Type 0} (env : Env File) (broker : Broker) where
  -- A call leaves the world that its method leaves, whether it returns or raises.
  unfoldable pub perform : Operation → World File → World File
  perform (authorizes r) w = (authorize env broker r w).1
  perform (decides r) w = (decide env broker r w).1
  perform (evaluates r) w = (evaluate env broker r w).1
  perform (approves k p) w = (approve env k p w).1
  perform (denies k p) w = (deny env k p w).1
  perform (registers a x) w = (register_agent env a x w).1
  perform (delegates p x) w = (create_delegation_for env p x w).1

  unfoldable pub run : List Operation → World File → World File
  run [] w = w
  run (o ∷ os) w = run os (perform o w)

  module _ (k : String) (start : ℕ) (never : (n : ℕ) → start ≤ n → id_at env "apv" n ≢ k) where
    perform-IsSpent :
        (o : Operation) (w : World File) → IsSpent k start w → IsSpent k start (perform o w)
    unfolding perform approve deny
    perform-IsSpent (authorizes r) w h = (authorize-Keeps env broker k start never r).after w h
    perform-IsSpent (decides r) w h = (decide-Keeps env broker k start never r).after w h
    perform-IsSpent (evaluates r) w h = (evaluate-Keeps env k start broker r).after w h
    perform-IsSpent (approves j p) w h = (set_approval_status-Keeps env k start j p _).after w h
    perform-IsSpent (denies j p) w h = (set_approval_status-Keeps env k start j p _).after w h
    perform-IsSpent (registers a x) w h = (register_agent-Keeps env k start a x).after w h
    perform-IsSpent (delegates p x) w h = (create_delegation_for-Keeps env k start p x).after w h

    run-IsSpent :
        (os : List Operation) (w : World File) → IsSpent k start w → IsSpent k start (run os w)
    unfolding run
    run-IsSpent [] w h = h
    run-IsSpent (o ∷ os) w h = run-IsSpent os (perform o w) (perform-IsSpent o w h)

    -- Storing the approval as used makes it used under the key that the request names.
    use_up :
        (r : AccessRequest) (s : Store) (now : Stamp) (p : ApprovalRecord)
        → IsKeyed s
        → (evaluate_strict s r now).action ≡ allow
        → (evaluate_strict s r now).approval ≡ some p
        → r.approval_id ≡ some k
        → IsKeyed (with_approval (record p { consumed_at = some now }) s)
          × IsUsed k (with_approval (record p { consumed_at = some now }) s)
    unfolding with_approval get_approval
    use_up r s now p keyed e f g =
        let named = evaluate-IsNamed s r now p (λ b. ground arith) f in
        let q : ApprovalRecord = record p { consumed_at = some now } in
        let same : p.approval_id ≡ k = keyed named.key p named.found ∙ key_eq named.named g in
        (
          with_approval-IsKeyed q s keyed,
          (
            q,
            get-put q.approval_id k q s.approvals ∙ rw ((eq_iff q.approval_id k).1 same),
            named.bound,
            refl,
          ),
        )

    blocked_after :
        (r : AccessRequest) (w : World File)
        → IsSpent k start w
        → r.approval_id ≡ some k
        → is_set k ≡ true
        → (dec : AccessDecision) × (w' : World File) × (authorize env broker r w ≡ (ok dec, w'))
          × (dec.action ≡ block)
    blocked_after r w h e n =
        let (dec, w', f, a) = authorize-IsAnswer env broker r w h.held_by in
        (dec, w', f, a.action ∙ evaluate-used k w.memory r (moment env w.readings) h.spent e n)

    -- A request that is allowed on an approval leaves that approval used.
    allowed-IsSpent :
        (r : AccessRequest) (w w' : World File) (dec : AccessDecision)
        → held w ≡ true
        → start ≤ w.readings
        → IsKeyed w.memory
        → IsAnswer env broker r w w' dec
        → dec.action ≡ allow
        → r.approval_id ≡ some k
        → is_set k ≡ true
        → IsSpent k start w'
    unfolding with_approval
    allowed-IsSpent r w w' dec h l keyed a e f n = used a.approvals
      where
        used :
            Approvals env broker r
              (evaluate_strict w.memory r (moment env w.readings))
              (moment env w.readings)
              w
              w'
              dec
            → IsSpent k start w'
        used (Approvals.refused g _ _) = absurd (ground (arith, a.action))
        used (Approvals.waiting p g _ _ _) = absurd (ground (arith, a.action))
        used (Approvals.opened p g _ _ _ _ _ _ _) = absurd (ground (arith, a.action))
        used (Approvals.allowed g i _ _) =
            let (p, q) = evaluate-approval k w.memory r (moment env w.readings) g f n in
            absurd (ground arith)
        used (Approvals.used p g i _ j) =
            let q : ApprovalRecord = record p { consumed_at = some (moment env w.readings) } in
            let (keyed', used') =
              same_approvals k (with_approval q w.memory) w'.memory j
                (use_up r w.memory (moment env w.readings) p keyed g i f) in
            record {
              held_by = same_held w w' a.same.backend a.same.nested ∙ h;
              later = omega (arith, a.same.later);
              keyed = keyed';
              spent = used';
            }

    -- A bound approval clears one request. When `authorize` allows a request that names an approval,
    -- then after any further operations by any callers, whether they return or raise, `authorize`
    -- returns a decision that blocks each request naming that approval. The calls are made in one
    -- transaction, or on a store in memory, whose approvals are stored under their own identifiers,
    -- and from the start on no new identifier equals this one.
    pub approval_one_time :
        (r r' : AccessRequest) (os : List Operation) (w w' : World File) (dec : AccessDecision)
        → held w ≡ true
        → start ≤ w.readings
        → IsKeyed w.memory
        → is_set k ≡ true
        → r.approval_id ≡ some k
        → r'.approval_id ≡ some k
        → authorize env broker r w ≡ (ok dec, w')
        → dec.action ≡ allow
        → (dec' : AccessDecision) × (w'' : World File) × (authorize env broker r' (run os w')
            ≡ (ok dec', w''))
          × (dec'.action ≡ block)
    approval_one_time r r' os w w' dec h l keyed n e e' f allows =
        let (dec1, w1, g, a) = authorize-IsAnswer env broker r w h in
        let same : (dec1 ≡ dec) × (w1 ≡ w') = answers_eq (sym g ∙ f) in
        let answer : IsAnswer env broker r w w' dec = rw (← same.0, ← same.1) a in
        blocked_after r' (run os w')
          (run-IsSpent os w' (allowed-IsSpent r w w' dec h l keyed answer allows e n)) e' n
