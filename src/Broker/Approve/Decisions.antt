-- ===== src/Broker/Approve/Decisions.antt =====
-- What a human decision on an approval does, on every branch.
use ai_security_gateway.Base.{
  suc, ◌<◌, String, ◌≡◌, refl, inl, inr, ◌≢◌, true, Option, none, some, arith, Bool-cases,
  Option-cases,
}
use ai_security_gateway.Base.Result.{Result, ok, err}
use ai_security_gateway.Broker.Models.{
  Error, value_error, Stamp, ApprovalRecord, ApprovalDecisionRequest, ApprovalStatus, pending,
}
use ai_security_gateway.Broker.Store.{get_approval}
use ai_security_gateway.Broker.World.{Env, World, utc_now}
use ai_security_gateway.Broker.Evaluate.{is_future}
use ai_security_gateway.Broker.Approve.{
  decided_text, may_decide, decided, decide_on, set_approval_status,
}
use ai_security_gateway.Broker.Engine.Held.{
  held, moment, approval_written, transaction-held, save_approval-held,
}

-- An approval that binds no request may always be decided; a bound one while it is pending, unused
-- and before its expiry.
pub data IsOpen (p : ApprovalRecord) (now : Stamp) : Type 0 where
  unbound : p.request_digest ≡ none → IsOpen p now
  bound :
      (t : Stamp)
      → p.request_digest ≢ none
      → p.consumed_at ≡ none
      → p.status ≡ pending
      → p.expires_at ≡ some t
      → t.aware ≡ true
      → now.micros < t.micros
      → IsOpen p now

IsOpen-may_decide : (p : ApprovalRecord) (now : Stamp) → IsOpen p now → may_decide p now ≡ true
unfolding may_decide is_future
IsOpen-may_decide p now (unbound e) = ground arith
IsOpen-may_decide p now (bound t b u s e z l) = ground arith

may_decide-IsOpen : (p : ApprovalRecord) (now : Stamp) → may_decide p now ≡ true → IsOpen p now
unfolding may_decide is_future
may_decide-IsOpen p now h = elim (Option-cases p.request_digest) [
  | inl e ↦ unbound e
  | inr (d, e) ↦ elim (Option-cases p.expires_at) [
    | inl f ↦ absurd (ground arith)
    | inr (t, f) ↦
        bound t (λ n. ground arith) (ground arith) (ground arith) f (ground arith) (ground arith)
  ]
]

module _ {File : Type 0} (env : Env File) where
  -- The three ways in which a decision can end: no such approval, one that may not be decided, and
  -- one that is decided, stored and recorded.
  pub data Decides (payload : ApprovalDecisionRequest) (status : ApprovalStatus) (w : World File)
      (o : Option ApprovalRecord) (out : Result Error ApprovalRecord × World File) : Type 0 where
    unknown : o ≡ none → out ≡ (err value_error, w) → Decides payload status w o out
    closed :
        (p : ApprovalRecord)
        → o ≡ some p
        → ¬ IsOpen p (moment env w.readings)
        → out ≡ (err value_error, record w { readings = suc w.readings })
        → Decides payload status w o out
    accepted :
        (p : ApprovalRecord)
        → o ≡ some p
        → IsOpen p (moment env w.readings)
        → out ≡ (
          ok (decided p status (moment env w.readings) payload),
          approval_written env
              (decided_text status)
              (decided p status (moment env w.readings) payload)
              (record w { readings = suc w.readings }),
        )
        → Decides payload status w o out

  decide_on-Decides :
      (o : Option ApprovalRecord) (payload : ApprovalDecisionRequest) (status : ApprovalStatus)
      (w : World File)
      → held w ≡ true
      → Decides payload status w o (decide_on env o payload status w)
  unfolding decide_on utc_now
  decide_on-Decides none payload status w h = unknown refl refl
  decide_on-Decides (some p) payload status w h =
      let now = moment env w.readings in
      elim (Bool-cases (may_decide p now)) [
        | inl e ↦
            accepted p refl (may_decide-IsOpen p now e) (rw e (save_approval-held env _ _ _ h))
        | inr e ↦ closed p refl (λ i. ground (arith, IsOpen-may_decide p now i)) (rw e refl)
      ]

  -- In a transaction, or on a store in memory, a decision on an approval raises and stores nothing when there is no such
  -- approval or it may not be decided, and otherwise stores, records and returns it with its new
  -- status. A bound approval may be decided only while pending, unused and unexpired.
  pub set_approval_status-Decides :
      (k : String) (payload : ApprovalDecisionRequest) (status : ApprovalStatus) (w : World File)
      → held w ≡ true
      → Decides payload status w
          (get_approval w.memory k)
          (set_approval_status env k payload status w)
  unfolding set_approval_status
  set_approval_status-Decides k payload status w h =
      rw (transaction-held env _ w h)
        (decide_on-Decides (get_approval w.memory k) payload status w h)
