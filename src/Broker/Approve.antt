-- ===== src/Broker/Approve.antt =====
-- access_broker/broker.py: `approve` and `deny`.

pub mod Decisions
use ai_security_gateway.Base.{String, Bool, true, false, Option, none, some, if◌then◌else◌}
use ai_security_gateway.Base.Exec.{◌>>=◌, raise, gets}
use ai_security_gateway.Broker.Models.{
  value_error, Stamp, ApprovalStatus, pending, approved, denied, ApprovalRecord,
  ApprovalDecisionRequest,
}
use ai_security_gateway.Broker.Registry.{save_approval}
use ai_security_gateway.Broker.Store.{get_approval}
use ai_security_gateway.Broker.World.{Env, M, utc_now, transaction}
use ai_security_gateway.Broker.Evaluate.{is_future, is_given}

pub decided_text : ApprovalStatus → String
decided_text pending = "access.approval_pending"
decided_text approved = "access.approval_approved"
decided_text denied = "access.approval_denied"

-- Whether an approval may still be decided: a bound one only while it is pending, unused and
-- not expired.
unfoldable pub may_decide : ApprovalRecord → Stamp → Bool
may_decide p now = elim p.request_digest [
  | none ↦ true
  | some _ ↦
      if is_given p.consumed_at
      then false
      else elim p.status [ pending ↦ is_future p.expires_at now | _ ↦ false ]
]

abbrev pub decided :
    ApprovalRecord → ApprovalStatus → Stamp → ApprovalDecisionRequest → ApprovalRecord
decided p status now payload = record p {
  status = status;
  decided_at = some now;
  approver_id = some payload.approver_id;
  comment = payload.comment;
}

module _ {File : Type 0} (env : Env File) where
  unfoldable pub decide_on :
      Option ApprovalRecord → ApprovalDecisionRequest → ApprovalStatus → M File ApprovalRecord
  decide_on none payload status = raise value_error
  decide_on (some p) payload status = do
    now ← utc_now env
    if may_decide p now
        then save_approval env (decided_text status) (decided p status now payload)
        else raise value_error

  -- `_set_approval_status`
  unfoldable pub set_approval_status :
      String → ApprovalDecisionRequest → ApprovalStatus → M File ApprovalRecord
  set_approval_status k payload status =
      transaction env (do s ← gets (λ w. w.memory); decide_on (get_approval s k) payload status)

  unfoldable pub approve : String → ApprovalDecisionRequest → M File ApprovalRecord
  approve k payload = set_approval_status k payload approved

  unfoldable pub deny : String → ApprovalDecisionRequest → M File ApprovalRecord
  deny k payload = set_approval_status k payload denied
