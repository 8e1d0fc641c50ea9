-- ===== src/Broker/Legacy/Binding.antt =====
-- `decide` and bound requests: what carries a digest, or names a bound approval, is authorized
-- strictly, so that the older rules never let a bound approval pass.
use ai_security_gateway.Base.{String, ◌≡◌, ◌≢◌, ◌∙◌, refl, true, Option, none, some, arith, is_set}
use ai_security_gateway.Base.Dict
use ai_security_gateway.Broker.Models.{agent, AccessRequest, AccessDecision, ApprovalRecord}
use ai_security_gateway.Broker.Store.{get_approval}
use ai_security_gateway.Broker.World.{Env, World, read_transaction}
use ai_security_gateway.Broker.Evaluate.{is_given}
use ai_security_gateway.Broker.Issue.{Broker}
use ai_security_gateway.Broker.Engine.{authorize}
use ai_security_gateway.Broker.Engine.Held.{held}
use ai_security_gateway.Broker.Engine.Answers.{IsAnswer}
use ai_security_gateway.Broker.Engine.Authorize.{authorize-IsAnswer}
use ai_security_gateway.Base.Result.{ok}
use ai_security_gateway.Broker.Legacy.{decide_unbound, decide}

-- A request that must be authorized strictly: of an autonomous agent, with a digest of any kind in
-- its metadata, or naming a stored approval that is bound.
pub data IsStrict {File : Type 0} (r : AccessRequest) (w : World File) : Type 0 where
  by_mode : r.authorization_mode ≡ agent → IsStrict r w
  by_digest : Dict.get "request_digest" r.metadata ≢ none → IsStrict r w
  by_approval :
      (k : String) (p : ApprovalRecord)
      → r.approval_id ≡ some k
      → is_set k ≡ true
      → get_approval w.memory k ≡ some p
      → p.request_digest ≢ none
      → IsStrict r w

module _ {File : Type 0} (env : Env File) (broker : Broker) where
  unbound-strict :
      (r : AccessRequest) (k : String) (p : ApprovalRecord) (w : World File)
      → held w ≡ true
      → get_approval w.memory k ≡ some p
      → is_given p.request_digest ≡ true
      → decide_unbound env broker r (some k) w ≡ authorize env broker r w
  unfolding decide_unbound read_transaction
  unbound-strict r k p w h e b = ground arith

  given_of_ne {ℓ} : {A : Type ℓ} (o : Option A) → o ≢ none → is_given o ≡ true
  given_of_ne none n = absurd (n refl)
  given_of_ne (some a) n = refl

  decide-strict :
      (r : AccessRequest) (w : World File)
      → held w ≡ true
      → IsStrict r w
      → decide env broker r w ≡ authorize env broker r w
  unfolding decide
  decide-strict r w h (by_mode e) = ground arith
  decide-strict r w h (by_digest n) =
      ground (arith, given_of_ne (Dict.get "request_digest" r.metadata) n)
  decide-strict r w h (by_approval k p e n f b) =
      ground (arith, unbound-strict r k p w h f (given_of_ne p.request_digest b))

  -- In a transaction, or on a store in memory, `decide` always answers a request of an autonomous
  -- agent, with a digest, or naming a stored bound approval, and answers it by the strict evaluation:
  -- with its action and code, a token just when the action is allowed, a used approval stored as
  -- used, a new one as pending, and the trail with the decision as its last event.
  pub decide-IsAnswer :
      (r : AccessRequest) (w : World File)
      → held w ≡ true
      → IsStrict r w
      → (dec : AccessDecision) × (w' : World File) × (decide env broker r w ≡ (ok dec, w'))
        × IsAnswer env broker r w w' dec
  decide-IsAnswer r w h strict =
      let (dec, w', e, a) = authorize-IsAnswer env broker r w h in
      (dec, w', decide-strict r w h strict ∙ e, a)
