-- ===== src/Inspection/Engine/Response/Closed.antt =====
-- inspection/engine.py: what stands behind a response that goes on.
use ai_security_gateway.Base.{◌≡◌, refl, ◌⊎◌, inl, inr, Bool, Option, none, some, String, arith}
use ai_security_gateway.Base.Result.{Result, ok, err}
use ai_security_gateway.Inspection.Json.{Json}
use ai_security_gateway.Inspection.Contracts.{
  Raised, Bytes, InspectionConfig, HttpMessage, RouteRule, inline, Verdict, verdict, allow, block,
  PiiAction, PiiScope,
}
use ai_security_gateway.Inspection.Session.{Parts, Session, I, update}
use ai_security_gateway.Inspection.Engine.Response.{
  known_route, response_policy, response_failed, response_refused, response_unavailable,
  response_steps, conclude_response, inspect_known, inspect_response,
}

-- A failed inspection blocks.
response_failed-blocks :
    (e : Raised) (v : Verdict)
    → ((response_failed inline e v).action ≡ block) × ((response_failed inline e v).body ≡ none)
unfolding response_failed response_refused response_unavailable
response_failed-blocks e v = ground arith

module _ {File : Type 0} (parts : Parts) (config : InspectionConfig)
    (redact_sse : Bytes → PiiAction → Option String → I File Bytes)
    (is_timestamp : Json → Json → String → Option String → Bool) where
  -- The inspection of an inline response: every step returned, or the response is blocked without a
  -- body, whatever was raised.
  abbrev pub Checked : Option RouteRule → PiiAction → HttpMessage → Session File → Type 0
  Checked r action m t =
      ((s : Session File) × (response_steps parts config redact_sse is_timestamp action r m s
          ≡ (ok tt, t)))
      ⊎ ((t.verdict.action ≡ block) × (t.verdict.body ≡ none))

  conclude-Checked :
      (r : Option RouteRule) (action : PiiAction) (m : HttpMessage) (s u : Session File)
      (done : Result Raised (Unit {0}))
      → response_steps parts config redact_sse is_timestamp action r m s ≡ (done, u)
      → (t : Session File) × (conclude_response parts config redact_sse is_timestamp inline done u
          ≡ (ok tt, t))
        × Checked r action m t
  unfolding conclude_response update
  conclude-Checked r action m s u (ok x) h = (u, refl, inl (s, h))
  conclude-Checked r action m s u (err e) h = (
    record u { verdict = response_failed inline e u.verdict },
    refl,
    inr (response_failed-blocks e u.verdict),
  )

  known-Checked :
      (r : Option RouteRule) (policy : PiiAction × Option PiiScope) (m : HttpMessage)
      (s : Session File)
      → (t : Session File) × (inspect_known parts config redact_sse is_timestamp inline r policy m s
          ≡ (ok tt, t))
        × Checked r policy.0 m t
  unfolding inspect_known
  known-Checked r (action, scope) m s =
      let start = record (verdict allow "response_clean" inline) {
        pii_policy_action = some action;
        pii_policy_scope = scope;
      } in
      let s0 = record s { verdict = start } in
      let done = response_steps parts config redact_sse is_timestamp action r m s0 in
      conclude-Checked r action m s0 done.1 done.0 refl

  -- Where the look-up of the route gives a route or an `InspectionError`, the inline inspection of a
  -- response ends with a verdict, and either every step of it returned under the policy of the caller
  -- or of the route, or the response is blocked without a body.
  pub inspect_response-Checked :
      (action : Option PiiAction) (scope : Option PiiScope) (m : HttpMessage) (s : Session File)
      (r : Option RouteRule)
      → known_route (parts.route_for m) ≡ ok r
      → (t : Session File) × (inspect_response parts config redact_sse is_timestamp inline action
            scope m s
          ≡ (ok tt, t))
        × Checked r (response_policy config r action scope).0 m t
  unfolding inspect_response
  inspect_response-Checked action scope m s r h =
      let (t, e, c) = known-Checked r (response_policy config r action scope) m s in
      (t, ground arith, c)
