-- ===== src/Tests/Inspection.antt =====
-- The inspection's theorems at concrete inputs.
use ai_security_gateway.Base.{split, ◌≤◌, ◌≡◌, refl, ◌⊎◌, true, false, none, some, [], ◌∷◌, arith}
use ai_security_gateway.Base.Dict
use ai_security_gateway.Base.Result.{ok, err}
use ai_security_gateway.Broker.Store.Snapshot.{Snapshot}
use ai_security_gateway.Inspection.Json.{
  Json, str, obj, arr, nil, cons, end, field, pos, lebℤ, ◌+ℤ◌, member,
}
use ai_security_gateway.Inspection.Protocol.{enter, check, check_items, check_fields}
use ai_security_gateway.Inspection.Protocol.Limits.{size, depth, check-limits}
use ai_security_gateway.Inspection.Contracts.{Raised, PiiAction, redact, inline}
use ai_security_gateway.Inspection.Identity.{
  Nonces, all_short, is_short_text, in_time, timely, text_is, nonce_of, check_payload,
  check_decoded, check_signed, check_parts, check_header, attestation, delete_expired, is_used,
  use_nonce, settle_nonce, verify, request_digest,
}
use ai_security_gateway.Inspection.Identity.Replay.{Verifications, finished, verified, verify-once}
use ai_security_gateway.Inspection.Session.{
  Session, find, scored, check_deadline, update, extend, refuse_if,
}
use ai_security_gateway.Inspection.Redact.{
  redact_value, redact_leaf, redact_text, redact_found, walk, walk_fields, check_key,
}
use ai_security_gateway.Inspection.Redact.Blocking.{redact_value-block}
use ai_security_gateway.Inspection.Redact.Clean.{Everywhere, CleanLeaf, IsClean}
use ai_security_gateway.Inspection.Engine.{inspect_request}
use ai_security_gateway.Inspection.Engine.Release.{
  passes, started, Released, inspect_request-Released,
}
use ai_security_gateway.Inspection.Engine.Response.{inspect_response, known_route, response_policy}
use ai_security_gateway.Inspection.Engine.Response.Closed.{Checked, inspect_response-Checked}
use ai_security_gateway.Tests.BrokerData.{env, broker}
use ai_security_gateway.Tests.InspectionData.{
  payload, crypto, verifier, message, replayed, parts, config, session, route_rule,
}

abbrev used : Nonces
used = ("n-1", pos 30) ∷ []

accepted : verify crypto verifier true 2 message [] ≡ (ok payload, used)
unfolding verify attestation check_header check_parts check_signed check_decoded check_payload
    settle_nonce use_nonce is_used delete_expired nonce_of text_is timely in_time all_short
    is_short_text split lebℤ ◌+ℤ◌ member request_digest Dict.get
accepted = refl

between : Verifications crypto verifier 2 used 9 (verify crypto verifier true 9 replayed used).1
between = verified 9 true replayed (omega arith) finished

verify-once_example :
    (r : Raised) × (verify crypto verifier true 12 replayed
        (verify crypto verifier true 9 replayed used).1
      ≡ (err r, (verify crypto verifier true 9 replayed used).1))
unfolding Dict.get
verify-once_example =
    verify-once crypto verifier 2 9 [] used (verify crypto verifier true 9 replayed used).1 payload
      message replayed accepted between 12 (omega arith) refl

inspect_request-Released_example :
    (t : Session Snapshot) × (inspect_request env parts config crypto verifier
        (some broker)
        inline
        message
        session
      ≡ (ok tt, t))
    × ((passes t.verdict.action ≡ false)
        ⊎ Released env parts config crypto verifier (some broker) message (started session) t)
inspect_request-Released_example =
    inspect_request-Released env parts config crypto verifier (some broker) message session

clean :
    redact_value {File = Snapshot} parts config false none PiiAction.block
      (obj (field "to" (str "h") end))
      session
    ≡ (ok (obj (field "to" (str "h") end)), record session { readings = 4 })
unfolding redact_value redact_leaf redact_text redact_found walk walk_fields check_key find scored
    check_deadline update extend refuse_if
clean = refl

redact_value-block_example :
    (obj (field "to" (str "h") end) ≡ obj (field "to" (str "h") end))
    × Everywhere parts.number_text
        (CleanLeaf parts config false)
        (IsClean parts config)
        []
        (obj (field "to" (str "h") end))
redact_value-block_example =
    redact_value-block parts config false none (obj (field "to" (str "h") end))
      (obj (field "to" (str "h") end)) session (record session { readings = 4 }) clean

route_known : known_route (parts.route_for message) ≡ ok (some route_rule)
unfolding known_route
route_known = refl

inspect_response-Checked_example :
    (t : Session Snapshot) × (inspect_response parts config
        (λ b _ _ s. (ok b, s))
        (λ _ _ _ _. false)
        inline
        (some redact)
        none
        message
        session
      ≡ (ok tt, t))
    × Checked parts config
        (λ b _ _ s. (ok b, s))
        (λ _ _ _ _. false)
        (some route_rule)
        redact
        message
        t
unfolding response_policy
inspect_response-Checked_example =
    inspect_response-Checked parts config (λ b _ _ s. (ok b, s)) (λ _ _ _ _. false) (some redact)
      none message session (some route_rule) route_known

abbrev nested : Json
nested = obj (field "to" (arr (cons (str "h") nil)) end)

nested_checked : check (λ _. true) 2 3 nested 0 0 ≡ ok 3
unfolding check check_items check_fields enter
nested_checked = refl

check-limits_example : (3 ≡ size nested) × (size nested ≤ 3) × (depth nested ≤ 2)
check-limits_example = check-limits (λ _. true) 2 3 nested 3 nested_checked
