-- ===== src/Tests/Broker.antt =====
-- The broker's theorems at concrete inputs.
use ai_security_gateway.Base.{
  ℕ, ◌+◌, ◌∙◌, ◌≤◌, ◌≡◌, refl, ◌≢◌, ◌↔◌, true, false, none, some, List, [], ◌∷◌, arith, eq_iff,
  is_blank, is_hex_text, contains,
}
use ai_security_gateway.Base.Dict
use ai_security_gateway.Base.Result.{ok}
use ai_security_gateway.Broker.Models.{
  DelegationRecord, active, AccessDecision, allow, block, approved, digest_text, matches,
}
use ai_security_gateway.Broker.Store.{Store, get_agent, get_delegation, get_approval, empty}
use ai_security_gateway.Broker.Store.Snapshot.{Snapshot, IsWellKeyed}
use ai_security_gateway.Broker.World.{World, M, transaction, persist, load}
use ai_security_gateway.Broker.World.Transactions.{
  Ends, Holds, opened, transaction-Ends, persist-load,
}
use ai_security_gateway.Broker.Evaluate.{
  evaluate_strict, check_binding, valid_digest, check_agent, check_authority, check_delegation,
  delegation_mismatch, conclude, judge_approval, in_scope, is_future,
}
use ai_security_gateway.Broker.Evaluate.Permitted.{IsPermitted}
use ai_security_gateway.Broker.Evaluate.Soundness.{evaluate-allow_iff}
use ai_security_gateway.Broker.Registry.{create_delegation_for}
use ai_security_gateway.Broker.Registry.Lifetimes.{create_delegation_for-lives}
use ai_security_gateway.Broker.Engine.{authorize, evaluate}
use ai_security_gateway.Broker.Engine.Held.{id_at}
use ai_security_gateway.Broker.Engine.Answers.{IsAnswer}
use ai_security_gateway.Broker.Engine.Authorize.{authorize-IsAnswer}
use ai_security_gateway.Broker.Engine.Hypothetical.{evaluate-agrees}
use ai_security_gateway.Broker.Approve.{set_approval_status}
use ai_security_gateway.Broker.Approve.Decisions.{Decides, set_approval_status-Decides}
use ai_security_gateway.Broker.Legacy.{decide}
use ai_security_gateway.Broker.Legacy.Binding.{IsStrict, decide-IsAnswer}
use ai_security_gateway.Broker.Spent.{IsKeyed}
use ai_security_gateway.Broker.OneTime.Runs.{Operation, run, approval_one_time}
use ai_security_gateway.Tests.BrokerData.{
  env, broker, store, request, world, file_world, at, by_operator, creation, delegation_record,
}

evaluate-allow_iff_example :
    ((evaluate_strict store request (at 1)).action ≡ allow) ↔ IsPermitted store request (at 1)
evaluate-allow_iff_example = evaluate-allow_iff store request (at 1)

authorize-IsAnswer_example :
    (dec : AccessDecision) × (w' : World _) × (authorize env broker request world ≡ (ok dec, w'))
    × IsAnswer env broker request world w' dec
authorize-IsAnswer_example = authorize-IsAnswer env broker request world refl

store-IsKeyed : IsKeyed store
unfolding get_approval Dict.get
store-IsKeyed k p e = ground (arith, eq_iff "apv-1" k)

abbrev later : List Operation
later = Operation.approves "apv-1" by_operator ∷ Operation.decides request ∷ []

request_allowed : (evaluate_strict store request (at 1)).action ≡ allow
unfolding evaluate_strict check_binding valid_digest check_agent check_authority check_delegation
    delegation_mismatch conclude judge_approval in_scope is_future matches digest_text is_hex_text
    is_blank contains get_agent get_delegation get_approval Dict.get
request_allowed = refl

answer :
    (dec : AccessDecision) × (w' : World _) × (authorize env broker request world ≡ (ok dec, w'))
    × IsAnswer env broker request world w' dec
answer = authorize-IsAnswer env broker request world refl

-- No identifier that is drawn is this one.
never_drawn : id_at env "apv" 0 ≢ "apv-1"
never_drawn e = ground (arith, (eq_iff (id_at env "apv" 0) "apv-1").1 e)

approval_one_time_example :
    (dec' : AccessDecision) × (w'' : World _) × (authorize env broker request
        (run env broker later answer.1)
      ≡ (ok dec', w''))
    × (dec'.action ≡ block)
approval_one_time_example =
    approval_one_time env broker "apv-1" 1 (λ n h. never_drawn) request request later world answer.1
      answer.0 refl (omega arith) store-IsKeyed refl refl refl answer.2
      (answer.3.action ∙ request_allowed)

evaluate-agrees_example :
    (dec dec' : AccessDecision) × (n : ℕ) × (w' : World _) × (evaluate env broker request world
      ≡ (ok dec, record world { readings = n }))
    × (authorize env broker request world ≡ (ok dec', w'))
    × (dec.action ≡ dec'.action)
    × (dec.reason_code ≡ dec'.reason_code)
    × (dec.token ≡ none)
    × (dec.approval ≡ none)
evaluate-agrees_example = evaluate-agrees env broker request world refl

set_approval_status-Decides_example :
    Decides env by_operator approved world
      (get_approval store "apv-1")
      (set_approval_status env "apv-1" by_operator approved world)
set_approval_status-Decides_example =
    set_approval_status-Decides env "apv-1" by_operator approved world refl

decide-IsAnswer_example :
    (dec : AccessDecision) × (w' : World Snapshot) × (decide env broker request world
      ≡ (ok dec, w'))
    × IsAnswer env broker request world w' dec
decide-IsAnswer_example =
    decide-IsAnswer env broker request world refl
      (IsStrict.by_digest (unfold Dict.get in λ e. ground arith))

create_delegation_for-lives_example :
    (d : DelegationRecord) × (w' : World _) × (create_delegation_for env creation none world
      ≡ (ok d, w'))
    × (get_delegation w'.memory "del-2" ≡ some d)
    × (d.status ≡ active)
    × (d.created_at ≡ at 1)
    × (d.created_at.micros + 1000000 ≤ d.expires_at.micros)
    × (d.expires_at.micros ≤ d.created_at.micros + 86400000000)
    × (d.expires_at.aware ≡ true)
create_delegation_for-lives_example = create_delegation_for-lives env creation none world refl refl

abbrev saved : Store
saved = record empty { delegations = ("del-1", delegation_record) ∷ [] }

saved-IsWellKeyed : IsWellKeyed saved
saved-IsWellKeyed = record { agents = tt; delegations = (refl, refl, tt); approvals = tt }

-- A file store with no file yet, and a method that stores a delegation.
abbrev store_one : M Snapshot DelegationRecord
store_one w = (ok delegation_record, record w { memory = saved; dirty = true })

transaction-Ends_example :
    Ends env none empty
      (store_one (opened env empty file_world))
      (transaction env store_one file_world)
    × ((transaction env store_one file_world).1.nested ≡ false)
    × ((transaction env store_one file_world).1.dirty ≡ false)
transaction-Ends_example =
    transaction-Ends env store_one empty file_world (λ s. refl) refl refl (Holds.absent refl refl)
      refl saved-IsWellKeyed

abbrev file_saved : World Snapshot
file_saved = record file_world { memory = saved }

persist-load_example :
    load env (record (persist env file_saved).1 { memory = empty })
    ≡ (ok tt, (persist env file_saved).1)
unfolding persist
persist-load_example = persist-load env file_saved empty (λ s. refl) saved-IsWellKeyed refl
