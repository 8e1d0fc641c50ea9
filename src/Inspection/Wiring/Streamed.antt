-- ===== src/Inspection/Wiring/Streamed.antt =====
-- inspection/engine.py: the inspection of a response that is a stream of events, over the redaction of
-- `_redact_sse`.
use ai_security_gateway.Base.{
  String, ◌≡◌, refl, sym, ◌∙◌, ap, ◌⊎◌, inl, inr, Bool, true, false, ◌&&◌, ◌||◌, not, Option, none,
  contains, arith,
}
use ai_security_gateway.Base.Result.{ok}
use ai_security_gateway.Base.Exec.{lift}
use ai_security_gateway.Base.Exec.Runs.{bind-returns}
use ai_security_gateway.Inspection.Json.{Json}
use ai_security_gateway.Inspection.Contracts.{
  Bytes, InspectionConfig, HttpMessage, RouteRule, inline, block, PiiAction, PiiScope,
}
use ai_security_gateway.Inspection.Session.{Parts, Session, I, update, is_empty}
use ai_security_gateway.Inspection.Engine.Prepare.{bytes_eq, media_type, inspect_metadata}
use ai_security_gateway.Inspection.Engine.Response.{
  provider_of, known_route, response_policy, redact_response, replaced_if, response_steps,
  inspect_response,
}
use ai_security_gateway.Inspection.Engine.Response.Closed.{inspect_response-Checked}
use ai_security_gateway.Inspection.Sse.{StreamState}
use ai_security_gateway.Inspection.Sse.Anthropic.{has_open}
use ai_security_gateway.Inspection.Sse.Stream.{needs_terminal}
use ai_security_gateway.Inspection.Sse.Complete.{with_data, ends_final, is_anthropic}
use ai_security_gateway.Inspection.Sse.Reader.{Turns, events_of, read_stream}
use ai_security_gateway.Inspection.Sse.Passes.{read_stream-ends_final}
use ai_security_gateway.Inspection.Sse.Redacted.{redact_sse}

-- Where the protocol has a terminal event, it is the last event with data and no other is; no content
-- block is open.
abbrev pub IsComplete : Turns → StreamState → Type 0
IsComplete turns t =
    ((not (needs_terminal t.family) || ends_final (with_data (events_of turns))) ≡ true)
    × ((is_anthropic t.family && has_open t.anthropic_open) ≡ false)

-- A body that was read as a complete stream.
abbrev pub IsRead :
    (File : Type 0)
    → Parts
    → InspectionConfig
    → (String → Bool)
    → (Json → String)
    → Option String
    → Bytes
    → Type 0
IsRead File parts config is_zero str_of provider body =
    (turns : Turns) × (t : StreamState) × (x : Session File) × (y : Session File) × (read_stream
        parts config is_zero str_of provider body x
      ≡ (ok (turns, t), y))
    × IsComplete turns t

module _ {File : Type 0} (parts : Parts) (config : InspectionConfig) (is_zero : String → Bool)
    (str_of : Json → String) (is_timestamp : Json → Json → String → Option String → Bool) where
  abbrev redaction : Bytes → PiiAction → Option String → I File Bytes
  redaction = redact_sse parts config is_zero str_of

  redact_sse-IsRead :
      (action : PiiAction) (provider : Option String) (body out : Bytes) (x y : Session File)
      → redaction body action provider x ≡ (ok out, y)
      → IsRead File parts config is_zero str_of provider body
  unfolding redact_sse
  redact_sse-IsRead action provider body out x y h =
      let ((turns, t), x1, h1, k1) =
        bind-returns (read_stream parts config is_zero str_of provider body) _ x out y h in
      let final =
        read_stream-ends_final parts config is_zero str_of provider body turns t x x1 h1 in
      (turns, t, x, x1, h1, ground (arith, final))

  redact_response-sse :
      (action : PiiAction) (r : Option RouteRule) (m : HttpMessage)
      → media_type parts m ≡ "text/event-stream"
      → redact_response parts config redaction is_timestamp action r m
        ≡ redaction m.body action (provider_of r)
  unfolding redact_response contains
  redact_response-sse action r m media = rw media refl

  redact_response-IsRead :
      (action : PiiAction) (r : Option RouteRule) (m : HttpMessage) (out : Bytes)
      (x y : Session File)
      → media_type parts m ≡ "text/event-stream"
      → redact_response parts config redaction is_timestamp action r m x ≡ (ok out, y)
      → IsRead File parts config is_zero str_of (provider_of r) m.body
  redact_response-IsRead action r m out x y media h =
      redact_sse-IsRead action (provider_of r) m.body out x y
        (ap (λ f. f x) (sym (redact_response-sse action r m media)) ∙ h)

  response_steps-IsRead :
      (action : PiiAction) (r : Option RouteRule) (m : HttpMessage) (s t : Session File)
      → media_type parts m ≡ "text/event-stream"
      → is_empty m.body ≡ false
      → response_steps parts config redaction is_timestamp action r m s ≡ (ok tt, t)
      → IsRead File parts config is_zero str_of (provider_of r) m.body
  unfolding response_steps
  response_steps-IsRead action r m s t media given h =
      let (u1, s1, h1, k1) = bind-returns (lift (parts.validate_message m)) _ s tt t h in
      let (u2, s2, h2, k2) = bind-returns (inspect_metadata parts config true m) _ s1 tt t k1 in
      let (body, s3, h3, k3) =
        bind-returns (redact_response parts config redaction is_timestamp action r m)
          (λ body.
            update
              (replaced_if parts config redaction is_timestamp (not (bytes_eq body m.body)) body))
          s2 tt t (ground (arith, given, k2)) in
      redact_response-IsRead action r m body s2 s3 media h3

  -- The inline inspection of a response that is a stream of events with a body, where the look-up of the
  -- route gives a route or an `InspectionError`, ends with a verdict: the body was read as a complete
  -- stream of one protocol, or the response is blocked without a body.
  pub inspect_response-IsRead :
      (action : Option PiiAction) (scope : Option PiiScope) (m : HttpMessage) (s : Session File)
      (r : Option RouteRule)
      → known_route (parts.route_for m) ≡ ok r
      → media_type parts m ≡ "text/event-stream"
      → is_empty m.body ≡ false
      → (t : Session File) × (inspect_response parts config redaction is_timestamp inline action
            scope m s
          ≡ (ok tt, t))
        × (IsRead File parts config is_zero str_of (provider_of r) m.body
            ⊎ ((t.verdict.action ≡ block) × (t.verdict.body ≡ none)))
  inspect_response-IsRead action scope m s r known media given =
      let (t, e, c) =
        inspect_response-Checked parts config redaction is_timestamp action scope m s r known in
      (
        t,
        e,
        elim c [
          | inr blocked ↦ inr blocked
          | inl (s', steps) ↦ inl (
              response_steps-IsRead (response_policy config r action scope).0 r m s' t media given
                steps)
        ],
      )
