-- ===== src/Broker/Engine/Authorize.antt =====
-- What `authorize` does to a held world, on every branch of the evaluation.
use ai_security_gateway.Base.{
  ℕ, suc, ◌≤◌, ◌≡◌, refl, sym, ◌∙◌, inl, inr, true, Option, none, some, List, [], ◌∷◌, ◌++◌, arith,
  Option-cases,
}
use mathlib.Core.List.{append-nil}
use ai_security_gateway.Base.Result.{Result, ok}
use ai_security_gateway.Base.Exec.{◌>>=◌}
use ai_security_gateway.Broker.Models.{
  AccessAction-cases, Error, Stamp, allow, block, approval_required, AccessRequest, AccessDecision,
  ApprovalRecord, BrokerToken, AuditEvent, approval_payload, decision_payload,
}
use ai_security_gateway.Broker.Store.{with_approval, with_event}
use ai_security_gateway.Broker.World.{Env, World, utc_now}
use ai_security_gateway.Broker.Evaluate.{Evaluation, evaluate_strict}
use ai_security_gateway.Broker.Evaluate.Evidence.{evaluate_ready}
use ai_security_gateway.Broker.Issue.{Broker}
use ai_security_gateway.Broker.Engine.{carry_out, authorize_body, authorize}
use ai_security_gateway.Broker.Engine.Held.{
  approval_written, held, moment, event_at, recorded, transaction-held,
}
use ai_security_gateway.Broker.Engine.Tokens.{issue_token-returns}
use ai_security_gateway.Broker.Engine.Answers.{IsSameElse, Approvals, IsTokened, IsAnswer}
use ai_security_gateway.Broker.Engine.Steps.{
  open_approval-returns, consume_approval-returns, decision_of, report-returns,
}

module _ {File : Type 0} (env : Env File) (broker : Broker) where
  module _ (r : AccessRequest) (w : World File) (h : held w ≡ true) where
    -- The evaluation that the operation makes, and the world in which it carries it out.
    abbrev now : Stamp
    now = moment env w.readings

    abbrev verdict : Evaluation
    verdict = evaluate_strict w.memory r now

    abbrev begun : World File
    begun = record w { readings = suc w.readings }

    Returns : Result Error AccessDecision × World File → Type 0
    Returns out =
        (dec : AccessDecision) × (w' : World File) × (out ≡ (ok dec, w'))
        × IsAnswer env broker r w w' dec

    -- From what the verdict is carried out to, the answer.
    answer :
        (o : Option ApprovalRecord) (t : Option BrokerToken) (w1 : World File)
        → carry_out env broker r now verdict.delegation verdict.action verdict.approval begun
          ≡ (ok (o, t), w1)
        → held w1 ≡ true
        → authorize_body env broker r w ≡ (
            let dec = decision_of env broker r verdict t o w1.readings in
            (
              ok dec,
              recorded env "access.decision"
                  (decision_payload dec)
                  (record w1 { readings = suc (suc w1.readings) }),
            ))
    unfolding authorize_body utc_now
    answer o t w1 run k = rw (run, ◌>>=◌) (report-returns env broker r verdict t o w1 k)

    abbrev dec_of : Option ApprovalRecord → Option BrokerToken → ℕ → AccessDecision
    dec_of o t n = decision_of env broker r verdict t o n

    abbrev final : Option ApprovalRecord → Option BrokerToken → World File → World File
    final o t w1 =
        recorded env "access.decision" (decision_payload (dec_of o t w1.readings))
          (record w1 { readings = suc (suc w1.readings) })

    finish :
        (o : Option ApprovalRecord) (t : Option BrokerToken) (w1 : World File)
        (vs : List AuditEvent)
        → carry_out env broker r now verdict.delegation verdict.action verdict.approval begun
          ≡ (ok (o, t), w1)
        → held w1 ≡ true
        → IsTokened env broker r verdict w (dec_of o t w1.readings)
        → Approvals env broker r verdict now w (final o t w1) (dec_of o t w1.readings)
        → IsSameElse w w1
        → w1.memory.audit_events ≡ w.memory.audit_events ++ vs
        → Returns (authorize_body env broker r w)
    unfolding Returns with_event
    finish o t w1 vs run k tok apv same trail = (
      dec_of o t w1.readings,
      final o t w1,
      answer o t w1 run k,
      record {
        action = refl;
        code = refl;
        token = tok;
        approvals = apv;
        same = record {
          backend = same.backend;
          nested = same.nested;
          disk = same.disk;
          agents = same.agents;
          delegations = same.delegations;
          later = omega (arith, same.later);
        };
        trail = (
          vs,
          event_at env "access.decision" (decision_payload (dec_of o t w1.readings))
              (suc (suc w1.readings)),
          rw trail,
          refl,
        );
      },
    )

    -- A world in which only the clock went on.
    abbrev ticked : ℕ → World File
    ticked n = record w { readings = n }

    ticked-IsSameElse : (n : ℕ) → w.readings ≤ n → IsSameElse w (ticked n)
    ticked-IsSameElse n k = record {
      backend = refl;
      nested = refl;
      disk = refl;
      agents = refl;
      delegations = refl;
      later = k;
    }

    authorize_block : verdict.action ≡ block → Returns (authorize_body env broker r w)
    unfolding carry_out with_event
    authorize_block e =
        finish none none begun [] (rw (e, carry_out)) h
          (record { absent = λ _. refl; present = λ f. ground arith })
          (Approvals.refused e refl refl) (ticked-IsSameElse (suc w.readings) (omega arith))
          (sym (append-nil _))

    authorize_waiting :
        (p : ApprovalRecord)
        → verdict.action ≡ approval_required
        → verdict.approval ≡ some p
        → Returns (authorize_body env broker r w)
    unfolding carry_out with_event
    authorize_waiting p e f =
        finish (some p) none begun [] (rw (e, f, carry_out)) h
          (record { absent = λ _. refl; present = λ g. ground arith })
          (Approvals.waiting p e f refl refl) (ticked-IsSameElse (suc w.readings) (omega arith))
          (sym (append-nil _))

    authorize_allowed :
        verdict.action ≡ allow → verdict.approval ≡ none → Returns (authorize_body env broker r w)
    unfolding carry_out with_event
    authorize_allowed e f =
        let (x, digest, zoned) = evaluate_ready w.memory r now (λ b. ground arith) in
        let (t, n, run, later, for) =
          issue_token-returns env broker r verdict.delegation x begun digest zoned in
        finish none (some t) (ticked n) [] (rw (e, f, carry_out, run)) h
          (record {
            absent = λ g. absurd (g e);
            present = λ _. (t, suc w.readings, refl, omega arith, for);
          })
          (Approvals.allowed e f refl refl) (ticked-IsSameElse n (omega arith)) (sym (append-nil _))

    authorize_opened :
        verdict.action ≡ approval_required
        → verdict.approval ≡ none
        → Returns (authorize_body env broker r w)
    unfolding carry_out with_event with_approval
    authorize_opened e f =
        let (x, digest, zoned) = evaluate_ready w.memory r now (λ b. ground arith) in
        let (p, run, id, new) =
          open_approval-returns env broker r verdict.delegation now x begun h digest refl zoned in
        finish (some p) none
          (approval_written env "access.approval_created" p (ticked (suc (suc w.readings))))
          (event_at env "access.approval_created" (approval_payload p) (suc (suc w.readings)) ∷ [])
          (rw (e, f, carry_out, run)) h (record { absent = λ _. refl; present = λ g. ground arith })
          (Approvals.opened p e f refl (suc w.readings) (omega arith) id new refl)
          (record {
            backend = refl;
            nested = refl;
            disk = refl;
            agents = refl;
            delegations = refl;
            later = omega arith;
          })
          refl

    authorize_used :
        (p : ApprovalRecord)
        → verdict.action ≡ allow
        → verdict.approval ≡ some p
        → Returns (authorize_body env broker r w)
    unfolding carry_out with_event with_approval
    authorize_used p e f =
        let (x, digest, zoned) = evaluate_ready w.memory r now (λ b. ground arith) in
        let q : ApprovalRecord = record p { consumed_at = some now } in
        let written : World File = approval_written env "access.approval_consumed" q begun in
        let (t, n, run, later, for) =
          issue_token-returns env broker r verdict.delegation x written digest zoned in
        finish (some q) (some t) (record written { readings = n })
          (event_at env "access.approval_consumed" (approval_payload q) (suc w.readings) ∷ [])
          (rw (e, f, carry_out, consume_approval-returns env broker p now begun h, run)) h
          (record {
            absent = λ g. absurd (g e);
            present = λ _. (t, suc (suc (suc w.readings)), refl, omega arith, for);
          })
          (Approvals.used p e f refl refl)
          (record {
            backend = refl;
            nested = refl;
            disk = refl;
            agents = refl;
            delegations = refl;
            later = omega arith;
          })
          refl

    authorize_body-Returns : Returns (authorize_body env broker r w)
    authorize_body-Returns = elim (AccessAction-cases verdict.action) [
      | inl e ↦ elim (Option-cases verdict.approval) [
        | inl f ↦ authorize_allowed e f
        | inr (p, f) ↦ authorize_used p e f
      ]
      | inr (inl e) ↦ authorize_block e
      | inr (inr e) ↦ elim (Option-cases verdict.approval) [
        | inl f ↦ authorize_opened e f
        | inr (p, f) ↦ authorize_waiting p e f
      ]
    ]

  -- In a transaction, or on a store in memory, `authorize` always returns a decision and never
  -- raises. The decision has the action and the code of the strict evaluation at that moment, and
  -- a token just when the action is allowed; a used approval is stored as used, a new one as
  -- pending; agents and delegations stay; the trail grows and ends with the decision.
  pub authorize-IsAnswer :
      (r : AccessRequest) (w : World File)
      → held w ≡ true
      → (dec : AccessDecision) × (w' : World File) × (authorize env broker r w ≡ (ok dec, w'))
        × IsAnswer env broker r w w' dec
  unfolding authorize Returns
  authorize-IsAnswer r w h =
      let (dec, w', run, a) = authorize_body-Returns r w h in
      (dec, w', transaction-held env (authorize_body env broker r) w h ∙ run, a)
