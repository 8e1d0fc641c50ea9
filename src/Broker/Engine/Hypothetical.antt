-- ===== src/Broker/Engine/Hypothetical.antt =====
-- The hypothetical verdict of `evaluate` beside the verdict of `authorize`.
use ai_security_gateway.Base.{ℕ, suc, ◌≡◌, refl, sym, ◌∙◌, true, none, arith}
use ai_security_gateway.Base.Result.{ok}
use ai_security_gateway.Broker.Models.{strict_metadata, AccessRequest, AccessDecision}
use ai_security_gateway.Broker.World.{Env, World, utc_now, uuid, read_transaction}
use ai_security_gateway.Broker.Evaluate.{valid_digest, evaluate_strict}
use ai_security_gateway.Broker.Registry.{new_id}
use ai_security_gateway.Broker.Issue.{Broker, strict_decision}
use ai_security_gateway.Broker.Engine.{evaluate, authorize}
use ai_security_gateway.Broker.Engine.Held.{held, moment}
use ai_security_gateway.Broker.Engine.Steps.{decision_of}
use ai_security_gateway.Broker.Engine.Authorize.{authorize-IsAnswer}

module _ {File : Type 0} (env : Env File) (broker : Broker) where
  evaluate-returns :
      (r : AccessRequest) (w : World File)
      → held w ≡ true
      → (dec : AccessDecision) × (n : ℕ) × (evaluate env broker r w
          ≡ (ok dec, record w { readings = n }))
        × (dec.action ≡ (evaluate_strict w.memory r (moment env w.readings)).action)
        × (dec.reason_code ≡ (evaluate_strict w.memory r (moment env w.readings)).reason_code)
        × (dec.token ≡ none)
        × (dec.approval ≡ none)
  unfolding evaluate read_transaction strict_decision new_id uuid utc_now
  evaluate-returns r w h =
      let e = evaluate_strict w.memory r (moment env w.readings) in
      (
        record (decision_of env broker r e none none (suc w.readings)) {
          metadata = strict_metadata r.agent_instance_id (valid_digest r) true r.authorization_mode;
        },
        suc (suc (suc w.readings)),
        ground arith,
        refl,
        refl,
        refl,
        refl,
      )

  -- In a transaction, or on a store in memory, `evaluate` and `authorize` return the same action for the same reason. The
  -- hypothetical one issues no token, shows no approval and changes nothing but the clock.
  pub evaluate-agrees :
      (r : AccessRequest) (w : World File)
      → held w ≡ true
      → (dec dec' : AccessDecision) × (n : ℕ) × (w' : World File) × (evaluate env broker r w
          ≡ (ok dec, record w { readings = n }))
        × (authorize env broker r w ≡ (ok dec', w'))
        × (dec.action ≡ dec'.action)
        × (dec.reason_code ≡ dec'.reason_code)
        × (dec.token ≡ none)
        × (dec.approval ≡ none)
  evaluate-agrees r w h =
      let (dec, n, e, a, c, t, p) = evaluate-returns r w h in
      let (dec', w', f, answer) = authorize-IsAnswer env broker r w h in
      (dec, dec', n, w', e, f, a ∙ sym answer.action, c ∙ sym answer.code, t, p)
