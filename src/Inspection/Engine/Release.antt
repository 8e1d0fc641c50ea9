-- ===== src/Inspection/Engine/Release.antt =====
-- inspection/engine.py: what stands behind an inline request that goes on.
use ai_security_gateway.Base.{
  ◌≡◌, refl, sym, ap, ◌∙◌, Bool, true, false, Option, none, some, arith, Bool-cases, ◌⊎◌, inl, inr,
}
use ai_security_gateway.Base.Result.{Result, ok, err}
use ai_security_gateway.Base.Exec.{lift, ◌>>=◌}
use ai_security_gateway.Base.Exec.Runs.{bind-returns}
use ai_security_gateway.Broker.Models.{AccessAction, AccessRequest, AccessDecision}
use ai_security_gateway.Broker.World.{Env}
use ai_security_gateway.Broker.Issue.{Broker}
use ai_security_gateway.Broker.Engine.{authorize}
use ai_security_gateway.Inspection.Json.{Fields}
use ai_security_gateway.Inspection.Contracts.{
  Raised, InspectionConfig, HttpMessage, access_broker, inline, Verdict, Action, allow, redact,
  verdict,
}
use ai_security_gateway.Inspection.Identity.{Crypto, AttestationVerifier}
use ai_security_gateway.Inspection.Session.{Parts, Session, update, refuse_if, check_deadline}
use ai_security_gateway.Inspection.Engine.Request.{access_request, in_world}
use ai_security_gateway.Inspection.Engine.Prepare.{Prepared, prepare}
use ai_security_gateway.Inspection.Engine.Verdicts.{is_trusted, with_decision, refused, unavailable}
use ai_security_gateway.Inspection.Engine.{
  verified, admit_locally, ask, ask_broker, record_decision, admit_by_broker, admit_with, admit,
  inspect_mapped, recover, inspect_request, handle, handled,
}

-- The request goes on, as it is or redacted.
abbrev pub passes : Action → Bool
passes allow = true
passes redact = true
passes _ = false

-- The session in which the inspection of a request starts its checks.
abbrev pub started : {File : Type 0} → Session File → Session File
started s = record s { verdict = verdict Action.allow "policy_allowed" inline }

module _ {File : Type 0} (env : Env File) (parts : Parts) (config : InspectionConfig)
    (crypto : Crypto) (verifier : AttestationVerifier) where
  -- The broker's decision for a request: it was asked in the world that stood before, and what it
  -- left is the world that stands after. The nonces are those that stood before.
  pub record Allowed (b : Broker) (p : Fields) (prepared : Prepared) (s t : Session File)
      : Type 0 where
    pub request : AccessRequest
    pub decision : AccessDecision
    pub is_request :
        access_request p prepared.semantics.0 prepared.semantics.1 prepared.semantics.2
          prepared.digest
        ≡ ok request
    pub is_decision : authorize env b request s.world ≡ (ok decision, t.world)
    pub is_allowed : decision.action ≡ AccessAction.allow
    pub same_nonces : t.nonces ≡ s.nonces

  -- The authorization of a request that goes on, from the session that the attestation left to the
  -- last one: the trusted source, with the world and the nonces as they were, or the broker's
  -- decision.
  abbrev pub Cleared : Option Broker → Fields → Prepared → Session File → Session File → Type 0
  Cleared none p prepared s t =
      (is_trusted config p ≡ true) × ((t.nonces ≡ s.nonces) × (t.world ≡ s.world))
  Cleared (some b) p prepared s t = Allowed b p prepared s t

  recover-refuses :
      (broker : Option Broker) (m : HttpMessage) (e : Raised) (s : Session File)
      → passes (recover env parts config crypto verifier broker inline m e s).1.verdict.action
        ≡ false
  unfolding recover update refused unavailable
  recover-refuses broker m e s = ground arith

  admit_locally-Cleared :
      (broker : Option Broker) (p : Fields) (s t : Session File)
      → admit_locally env parts config crypto verifier broker p s ≡ (ok tt, t)
      → (is_trusted config p ≡ true) × ((t.nonces ≡ s.nonces) × (t.world ≡ s.world))
  unfolding admit_locally refuse_if update
  admit_locally-Cleared broker p s t h = ground arith

  with_decision-allow :
      (d : AccessDecision) (v : Verdict)
      → passes (with_decision inline d v).action ≡ true
      → d.action ≡ AccessAction.allow
  unfolding with_decision
  with_decision-allow d v h = ground arith

  -- What the steps of the broker's call do to the world and the nonces.
  check_deadline-same :
      (s t : Session File)
      → check_deadline parts config s ≡ (ok tt, t)
      → (t.world ≡ s.world) × (t.nonces ≡ s.nonces)
  unfolding check_deadline
  check_deadline-same s t h = ground arith

  in_world-returns :
      (b : Broker) (r : AccessRequest) (s t : Session File) (d : AccessDecision)
      → in_world (authorize env b r) s ≡ (ok d, t)
      → (authorize env b r s.world ≡ (ok d, t.world)) × (t.nonces ≡ s.nonces)
  unfolding in_world
  in_world-returns b r s t d h = ground arith

  record_decision-same :
      (broker : Option Broker) (d : AccessDecision) (s t : Session File)
      → record_decision env parts config crypto verifier broker inline d s ≡ (ok tt, t)
      → (t.verdict
          ≡ with_decision inline d (record s.verdict { authorization_scope = access_broker }))
        × ((t.world ≡ s.world) × (t.nonces ≡ s.nonces))
  unfolding record_decision update
  record_decision-same broker d s t h = ground arith

  ask_broker-Allowed :
      (broker : Option Broker) (b : Broker) (p : Fields) (prepared : Prepared) (r : AccessRequest)
      (s t : Session File)
      → access_request p prepared.semantics.0 prepared.semantics.1 prepared.semantics.2
          prepared.digest
        ≡ ok r
      → ask_broker env parts config crypto verifier broker inline b r s ≡ (ok tt, t)
      → passes t.verdict.action ≡ true
      → Allowed b p prepared s t
  unfolding ask_broker ask
  ask_broker-Allowed broker b p prepared r s t e h g =
      let (_, s', e1, h') =
        bind-returns (check_deadline parts config)
          (λ _.
            in_world (authorize env b r)
            >>= record_decision env parts config crypto verifier broker inline)
          s tt t h in
      let (d, t', e2, k) =
        bind-returns (in_world (authorize env b r))
          (record_decision env parts config crypto verifier broker inline) s' tt t h' in
      let (w1, n1) = check_deadline-same s s' e1 in
      let (a, n2) = in_world-returns b r s' t' d e2 in
      let (v, (w3, n3)) = record_decision-same broker d t' t k in
      record {
        request = r;
        decision = d;
        is_request = e;
        is_decision = rw (← w1, w3) a;
        is_allowed =
            with_decision-allow d (record t'.verdict { authorization_scope = access_broker })
              (ground (arith, v, g));
        same_nonces = n3 ∙ (n2 ∙ n1);
      }

  admit_by_broker-Cleared :
      (broker : Option Broker) (b : Broker) (p : Fields) (prepared : Prepared) (s t : Session File)
      → admit_by_broker env parts config crypto verifier broker inline b p prepared s ≡ (ok tt, t)
      → passes t.verdict.action ≡ true
      → Allowed b p prepared s t
  unfolding admit_by_broker update
  admit_by_broker-Cleared broker b p prepared s t h g =
      let s0 = record s {
        verdict = record s.verdict { source_verified = true; identity_verified = true };
      } in
      let (r, s', e, k) =
        bind-returns
          (lift (
            access_request p prepared.semantics.0 prepared.semantics.1 prepared.semantics.2
              prepared.digest))
          (ask_broker env parts config crypto verifier broker inline b) s0 tt t h in
      let same : s' ≡ s0 = ground arith in
      let allowed = ask_broker-Allowed broker b p prepared r s' t (ground arith) k g in
      record {
        request = allowed.request;
        decision = allowed.decision;
        is_request = allowed.is_request;
        is_decision = rw (ap (λ x. x.world) (sym same)) allowed.is_decision;
        is_allowed = allowed.is_allowed;
        same_nonces = allowed.same_nonces ∙ ap (λ x. x.nonces) same;
      }

  admit_with-Cleared :
      (broker o : Option Broker) (p : Fields) (prepared : Prepared) (s t : Session File)
      → admit_with env parts config crypto verifier broker inline o p prepared s ≡ (ok tt, t)
      → passes t.verdict.action ≡ true
      → Cleared o p prepared s t
  unfolding admit_with
  admit_with-Cleared broker none p prepared s t h g = admit_locally-Cleared broker p s t h
  admit_with-Cleared broker (some b) p prepared s t h g =
      admit_by_broker-Cleared broker b p prepared s t h g

  -- What stands behind a request that goes on, from the session that its inspection started in to
  -- the one that it left: its preparation without an error, then its attestation, verified and
  -- consumed, then the authorization.
  pub record Released (broker : Option Broker) (m : HttpMessage) (start last : Session File)
      : Type 0 where
    pub checked : Session File
    pub attested : Session File
    pub prepared : Prepared
    pub identity : Fields
    pub is_prepared : prepare parts config crypto m start ≡ (ok prepared, checked)
    pub is_attested :
        verified env parts config crypto verifier broker true m checked ≡ (ok identity, attested)
    pub is_cleared : Cleared broker identity prepared attested last

  inspect_mapped-Released :
      (broker : Option Broker) (m : HttpMessage) (s t : Session File)
      → inspect_mapped env parts config crypto verifier broker inline m s ≡ (ok tt, t)
      → passes t.verdict.action ≡ true
      → Released broker m s t
  unfolding inspect_mapped admit
  inspect_mapped-Released broker m s t h g =
      let (prepared, s', e, k) =
        bind-returns (prepare parts config crypto m)
          (admit env parts config crypto verifier broker inline m) s tt t h in
      let (p, u, f, l) =
        bind-returns (verified env parts config crypto verifier broker true m)
          (λ p. admit_with env parts config crypto verifier broker inline broker p prepared) s' tt t
          k in
      record {
        checked = s';
        attested = u;
        prepared = prepared;
        identity = p;
        is_prepared = e;
        is_attested = f;
        is_cleared = admit_with-Cleared broker broker p prepared u t l g;
      }

  recover-returns :
      (broker : Option Broker) (m : HttpMessage) (e : Raised) (s : Session File)
      → recover env parts config crypto verifier broker inline m e s
        ≡ (ok tt, (recover env parts config crypto verifier broker inline m e s).1)
  unfolding recover update
  recover-returns broker m e s = ground arith

  handled-Released :
      (broker : Option Broker) (m : HttpMessage) (r : Result Raised (Unit {0})) (s u : Session File)
      → inspect_mapped env parts config crypto verifier broker inline m s ≡ (r, u)
      → (t : Session File) × (handled r (recover env parts config crypto verifier broker inline m) u
          ≡ (ok tt, t))
        × ((passes t.verdict.action ≡ false) ⊎ Released broker m s t)
  handled-Released broker m (ok x) s u h = elim (Bool-cases (passes u.verdict.action)) [
    | inl g ↦ (u, refl, inr (inspect_mapped-Released broker m s u h g))
    | inr g ↦ (u, refl, inl g)
  ]
  handled-Released broker m (err e) s u h = (
    (recover env parts config crypto verifier broker inline m e u).1,
    recover-returns broker m e u,
    inl (recover-refuses broker m e u),
  )

  -- The inline inspection of a request always ends with a verdict. It lets the request go on, as it
  -- is or redacted, only if, one after the other from the session that it started in, every check
  -- before the attestation passed, the attestation was verified and consumed, and the source is
  -- trusted, where there is no broker, or the broker's `authorize` allowed the attested identity,
  -- tool, action, resource and digest. The nonces that it leaves are those after the consumption, and
  -- the world is the one that the broker's decision left.
  pub inspect_request-Released :
      (broker : Option Broker) (m : HttpMessage) (s : Session File)
      → (t : Session File) × (inspect_request env parts config crypto verifier broker inline m s
          ≡ (ok tt, t))
        × ((passes t.verdict.action ≡ false) ⊎ Released broker m (started s) t)
  unfolding inspect_request handle update
  inspect_request-Released broker m s =
      let run = inspect_mapped env parts config crypto verifier broker inline m (started s) in
      handled-Released broker m run.0 (started s) run.1 refl
