-- ===== src/Inspection/Wiring/Released.antt =====
-- inspection/engine.py with inspection/protocol.py: the meaning of a request that goes on.
use ai_security_gateway.Base.{
  ◌≤◌, String, ◌≡◌, refl, ◌⊎◌, inl, inr, Bool, true, false, not, Option, some, [], ◌∷◌, arith,
  length, ltb, sym, ap, ◌∙◌, subst, contains, ◌&&◌,
}
use ai_security_gateway.Base.Result.{Result, ok, require, bind-ok, require-ok}
use ai_security_gateway.Base.Exec.{lift}
use ai_security_gateway.Base.Exec.Runs.{bind-returns}
use ai_security_gateway.Broker.World.{Env}
use ai_security_gateway.Inspection.Json.{Json, obj, end}
use ai_security_gateway.Inspection.Contracts.{
  Raised, inspection_error, Bytes, InspectionConfig, HttpMessage, RouteRule, inline,
}
use ai_security_gateway.Inspection.Identity.{Crypto, AttestationVerifier}
use ai_security_gateway.Inspection.Session.{Parts, Session, update, refuse_if, is_empty}
use ai_security_gateway.Inspection.Engine.Prepare.{
  Prepared, rule_of, is_blocked, pii_policy, noted, redact_request, redact_mapped, prepare,
  inspect_metadata, json_media, media_type, read_body, check_llm,
}
use ai_security_gateway.Inspection.Engine.{inspect_request}
use ai_security_gateway.Inspection.Engine.Release.{
  passes, Released, started, inspect_request-Released,
}
use ai_security_gateway.Inspection.Protocol.{validate_message, matching, only_route, route_for}
use ai_security_gateway.Inspection.Protocol.Semantics.{semantics}
use ai_security_gateway.Inspection.Wiring.{Externals, route_of, parts}
use ai_security_gateway.Broker.Issue.{Broker}

-- The value of a body: the empty dict, or what its JSON is.
abbrev pub IsBody : Parts → Bytes → Json → Type 0
IsBody parts [] value = value ≡ obj end
IsBody parts (b ∷ bs) value = parts.strict_json (b ∷ bs) ≡ ok value

-- What the preparation of a request knows: its message is valid, a route maps it, and it does what
-- the value of its body says on the route, which no rule blocks.
pub record Meaning (parts : Parts) (m : HttpMessage) (p : Prepared) : Type 0 where
  pub route : RouteRule
  pub value : Json
  pub is_valid : parts.validate_message m ≡ ok tt
  pub is_routed : parts.route_for m ≡ ok route
  pub is_body : IsBody parts m.body value
  pub is_meant : parts.semantics m route value ≡ ok p.semantics
  pub is_open : is_blocked (rule_of route p.semantics.0) ≡ false

module _ {File : Type 0} (parts : Parts) (config : InspectionConfig) (crypto : Crypto) where
  refuse_if-ok :
      (b : Bool) (reason : String) (s t : Session File) {u : Unit {0}}
      → refuse_if b reason s ≡ (ok u, t)
      → b ≡ false
  unfolding refuse_if
  refuse_if-ok b reason s t h = ground arith

  redact_mapped-semantics :
      (m : HttpMessage) (r : RouteRule) (value : Json) (original : String × String × String)
      (s t : Session File) (p : Prepared)
      → redact_mapped parts config crypto m r value original s ≡ (ok p, t)
      → (p.semantics ≡ original) × (is_blocked (rule_of r original.0) ≡ false)
  unfolding redact_mapped
  redact_mapped-semantics m r value original s t p h =
      let rule = rule_of r original.0 in
      let policy = pii_policy config (some r) rule in
      let (_, s1, _, h1) = bind-returns (update {File = File} (noted original policy)) _ s p t h in
      let (_, s2, e, h2) =
        bind-returns (refuse_if (is_blocked rule) "local_policy_denied") _ s1 p t h1 in
      let (body, s3, _, h3) =
        bind-returns (redact_request parts config m r original policy.0 value) _ s2 p t h2 in
      (ground arith, refuse_if-ok (is_blocked rule) "local_policy_denied" s1 s2 e)

  lift-ok :
      {A : Type 0} (r : Result Raised A) (s t : Session File) {a : A}
      → lift r s ≡ (ok a, t)
      → r ≡ ok a
  lift-ok r s t h = ground arith

  read_body-IsBody :
      (m : HttpMessage) (bs : Bytes) (value : Json) (s t : Session File)
      → m.body ≡ bs
      → read_body parts config m s ≡ (ok value, t)
      → IsBody parts bs value
  unfolding read_body
  read_body-IsBody m [] value s t e h = ground arith
  read_body-IsBody m (b ∷ bs) value s t e h = ground arith

  pub prepare-Meaning :
      (m : HttpMessage) (s t : Session File) (p : Prepared)
      → prepare parts config crypto m s ≡ (ok p, t)
      → Meaning parts m p
  unfolding prepare
  prepare-Meaning m s t p h =
      let (_, s1, e1, h1) = bind-returns (lift (parts.validate_message m)) _ s p t h in
      let (r, s2, e2, h2) = bind-returns (lift (parts.route_for m)) _ s1 p t h1 in
      let (_, s3, _, h3) = bind-returns (inspect_metadata parts config false m) _ s2 p t h2 in
      let (_, s4, _, h4) =
        bind-returns
          (refuse_if (not (is_empty m.body) && not (contains json_media (media_type parts m)))
            "unsupported_request_media_type")
          _ s3 p t h3 in
      let (value, s5, e5, h5) = bind-returns (read_body parts config m) _ s4 p t h4 in
      let (_, s6, _, h6) = bind-returns (check_llm parts config value r) _ s5 p t h5 in
      let (o, s7, e7, h7) = bind-returns (lift (parts.semantics m r value)) _ s6 p t h6 in
      let (same, open_rule) = redact_mapped-semantics m r value o s7 t p h7 in
      record {
        route = r;
        value = value;
        is_valid = lift-ok (parts.validate_message m) s s1 e1;
        is_routed = lift-ok (parts.route_for m) s1 s2 e2;
        is_body = read_body-IsBody m m.body value s4 s5 refl e5;
        is_meant = lift-ok (parts.semantics m r value) s6 s7 e7 ∙ ap ok (sym same);
        is_open = subst (λ x. is_blocked (rule_of r x.0) ≡ false) (sym same) open_rule;
      }

validate_message-limits :
    (lower : String → String) (config : InspectionConfig) (m : HttpMessage) {u : Unit {0}}
    → validate_message lower config m ≡ ok u
    → (m.complete ≡ true) × (length m.body ≤ config.max_body_bytes)
unfolding validate_message
validate_message-limits lower config m h =
    let (_, e, k) = bind-ok (require m.complete (inspection_error "incomplete_capture")) _ h in
    let small = not (ltb config.max_body_bytes (length m.body)) in
    let (_, f, _) = bind-ok (require small (inspection_error "body_limit_exceeded")) _ k in
    let fits = require-ok small (inspection_error "body_limit_exceeded") f in
    (require-ok m.complete (inspection_error "incomplete_capture") e, ground arith)

route_for-matching :
    (lower : String → String) (config : InspectionConfig) (m : HttpMessage) (path decoded : String)
    {r : RouteRule}
    → route_for lower config m path decoded ≡ ok r
    → matching lower m path config.routes ≡ r ∷ []
unfolding route_for only_route
route_for-matching lower config m path decoded h = ground arith

route_of-ok :
    (x : Externals) (config : InspectionConfig) (m : HttpMessage) {r : RouteRule}
    → route_of x config m ≡ ok r
    → (path : String) × (x.target_path m.path ≡ ok path)
      × (matching x.urls.lower m path config.routes ≡ r ∷ [])
unfolding route_of
route_of-ok x config m h =
    let (path, e, k) = bind-ok (x.target_path m.path) _ h in
    (path, e, route_for-matching x.urls.lower config m path (x.urls.unquote path) k)

module _ {File : Type 0} (env : Env File) (x : Externals) (config : InspectionConfig)
    (crypto : Crypto) (verifier : AttestationVerifier) (broker : Option Broker) where
  -- A request that goes on is complete and within the limit, exactly one route matches it, and the
  -- tool, action and resource that it was authorized for are those of its body on that route.
  pub record Meant (m : HttpMessage) (start last : Session File) : Type 0 where
    pub released : Released env (parts x config) config crypto verifier broker m start last
    pub is_complete : m.complete ≡ true
    pub is_small : length m.body ≤ config.max_body_bytes
    pub route : RouteRule
    pub path : String
    pub value : Json
    pub is_path : x.target_path m.path ≡ ok path
    pub is_routed : matching x.urls.lower m path config.routes ≡ route ∷ []
    pub is_body : IsBody (parts x config) m.body value
    pub is_meant : semantics x.readings x.int_of m route value ≡ ok released.prepared.semantics
    pub is_open : is_blocked (rule_of route released.prepared.semantics.0) ≡ false

  Released-Meant :
      (m : HttpMessage) (start last : Session File)
      → Released env (parts x config) config crypto verifier broker m start last
      → Meant m start last
  unfolding parts
  Released-Meant m start last rel =
      let known =
        prepare-Meaning (parts x config) config crypto m start rel.checked rel.prepared
          rel.is_prepared in
      let (whole, small) = validate_message-limits x.urls.lower config m known.is_valid in
      let (path, e, matched) = route_of-ok x config m known.is_routed in
      record {
        released = rel;
        is_complete = whole;
        is_small = small;
        route = known.route;
        path = path;
        value = known.value;
        is_path = e;
        is_routed = matched;
        is_body = known.is_body;
        is_meant = known.is_meant;
        is_open = known.is_open;
      }

  -- The inline inspection over the gateway's own protocol ends with a verdict. A request goes on only
  -- if it is complete and within the limit, exactly one route matches it, no rule blocks it, and, one
  -- after the other from the session that the inspection started in, its attestation was verified and
  -- consumed and it was authorized for the tool, action and resource that the value of its body means
  -- on that route.
  pub inspect_request-Meant :
      (m : HttpMessage) (s : Session File)
      → (t : Session File) × (inspect_request env
            (parts x config)
            config
            crypto
            verifier
            broker
            inline
            m
            s
          ≡ (ok tt, t))
        × ((passes t.verdict.action ≡ false) ⊎ Meant m (started s) t)
  inspect_request-Meant m s =
      let (t, e, done) =
        inspect_request-Released env (parts x config) config crypto verifier broker m s in
      (t, e, elim done [ inl f ↦ inl f | inr rel ↦ inr (Released-Meant m (started s) t rel) ])
