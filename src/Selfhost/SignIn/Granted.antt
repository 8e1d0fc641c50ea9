-- ===== src/Selfhost/SignIn/Granted.antt =====
-- selfhost/auth.py: what is so of a caller that `authenticate` lets in.
use ai_security_gateway.Base.{
  drop_text, starts_with, String, ◌≡◌, subst, inl, inr, Option-cases, true, Option, none, some,
  eq_iff, is_set, arith,
}
use ai_security_gateway.Base.Dict
use ai_security_gateway.Base.Dict.{Dict}
use ai_security_gateway.Base.Result.{ok, require, bind-ok, require-ok}
use ai_security_gateway.Inspection.Json.{Json, str, Fields, member}
use ai_security_gateway.Selfhost.AgentCredentials.{Principal}
use ai_security_gateway.Selfhost.SignIn.{
  GatewayAuth, client_key, agent_key, jwt, JwtGatewayAuth, GatewayAuthResult, GatewayAuthenticator,
  invalid_token, header, or_invalid,
}
use ai_security_gateway.Selfhost.SignIn.Claims.{
  scope_claim, scopes_in, party, is_authorized, is_subset, subject_in, identity_of, by_claims,
}
use ai_security_gateway.Selfhost.SignIn.Authenticate.{
  with_approval_id, agent_of, by_agent_key, bearer_token, by_token, sign_in, authenticate,
}
use ai_security_gateway.Selfhost.SignIn.Mapped.{IsIdentity, identity_of-IsIdentity}

-- What the verified claims of a token say of the caller.
abbrev pub IsGranted : JwtGatewayAuth → Fields → GatewayAuthResult → Type 0
IsGranted c claims r =
    (member "sub" claims ≡ some (str r.subject))
    × (is_set r.subject ≡ true)
    × (scopes_in (scope_claim claims) ≡ some r.scopes)
    × (is_subset c.required_scopes r.scopes ≡ true)
    × (is_authorized c.authorized_parties (party claims) ≡ true)
    × IsIdentity c.identity_claims c.identity_mode claims r.identity

abbrev pub IsSignedIn :
    GatewayAuth → GatewayAuthenticator → Dict String → GatewayAuthResult → Type 0
IsSignedIn client_key g hs r = header "x-td-client-key" hs ≡ g.client_key
IsSignedIn agent_key g hs r =
    (p : Principal) × (starts_with "Bearer " (header "authorization" hs) ≡ true)
    × (agent_of g.agent_credentials (drop_text 7 (header "authorization" hs)) ≡ some p)
    × (r.subject ≡ p.agent_id)
    × (Dict.get "tenant_id" r.identity ≡ some p.tenant_id)
    × (Dict.get "agent_id" r.identity ≡ some p.agent_id)
IsSignedIn (jwt c) g hs r =
    (token : String) × (claims : Fields) × (bearer_token (header "authorization" hs) ≡ some token)
    × (g.decode c token ≡ some claims)
    × IsGranted c claims r

or_invalid-ok : {A : Type 0} (o : Option A) {a : A} → or_invalid o ≡ ok a → o ≡ some a
or_invalid-ok none h = ground arith
or_invalid-ok (some a) h = ground arith

subject_in-ok :
    (j : Option Json) (s : String) → subject_in j ≡ some s → (j ≡ some (str s)) × (is_set s ≡ true)
unfolding subject_in
subject_in-ok j s h = ground arith

by_claims-IsGranted :
    (c : JwtGatewayAuth) (claims : Fields) (r : GatewayAuthResult)
    → by_claims c claims ≡ ok r
    → IsGranted c claims r
unfolding by_claims
by_claims-IsGranted c claims r h =
    let (subject, e1, h1) = bind-ok (or_invalid (subject_in (member "sub" claims))) _ h in
    let (scopes, e2, h2) = bind-ok (or_invalid (scopes_in (scope_claim claims))) _ h1 in
    let (u3, e3, h3) =
      bind-ok (require (is_authorized c.authorized_parties (party claims)) invalid_token) _ h2 in
    let (u4, e4, h4) = bind-ok (require (is_subset c.required_scopes scopes) _) _ h3 in
    let (identity, e5, h5) = bind-ok (identity_of c.identity_claims c.identity_mode claims) _ h4 in
    let meant = identity_of-IsIdentity c.identity_claims c.identity_mode claims identity e5 in
    let (s, t) = subject_in-ok (member "sub" claims) subject (or_invalid-ok _ e1) in
    let result : record { subject = subject; scopes = scopes; identity = identity } ≡ r =
      ground arith in
    subst (IsGranted c claims) result
      (s, t, or_invalid-ok _ e2, require-ok _ _ e4, require-ok _ _ e3, meant)

with_approval_id-names :
    (approval : Option String) (p : Principal) (r : GatewayAuthResult)
    → with_approval_id approval p ≡ ok r
    → (r.subject ≡ p.agent_id)
      × (Dict.get "tenant_id" r.identity ≡ some p.tenant_id)
      × (Dict.get "agent_id" r.identity ≡ some p.agent_id)
unfolding with_approval_id Dict.get Dict.put
with_approval_id-names none p r h = ground arith
with_approval_id-names (some a) p r h = ground arith

by_agent_key-IsSignedIn :
    (g : GatewayAuthenticator) (hs : Dict String) (r : GatewayAuthResult)
    → by_agent_key g.agent_credentials hs ≡ ok r
    → IsSignedIn agent_key g hs r
unfolding by_agent_key
by_agent_key-IsSignedIn g hs r h =
    let (u, e, k) = bind-ok (require (starts_with "Bearer " (header "authorization" hs)) _) _ h in
    let supplied = drop_text 7 (header "authorization" hs) in
    elim (Option-cases (agent_of g.agent_credentials supplied)) [
      | inl none_found ↦ ground (arith, k, none_found)
      | inr (p, found) ↦
          let (s, t, a) =
            with_approval_id-names (Dict.get "x-td-approval-id" hs) p r
              (ground (arith, k, found)) in
          (p, require-ok _ _ e, found, s, t, a)
    ]

by_token-IsSignedIn :
    (g : GatewayAuthenticator) (c : JwtGatewayAuth) (hs : Dict String) (r : GatewayAuthResult)
    → by_token g c hs ≡ ok r
    → IsSignedIn (jwt c) g hs r
unfolding by_token
by_token-IsSignedIn g c hs r h =
    let (token, e1, h1) = bind-ok (or_invalid (bearer_token (header "authorization" hs))) _ h in
    let (claims, e2, h2) = bind-ok (or_invalid (g.decode c token)) _ h1 in
    (token, claims, or_invalid-ok _ e1, or_invalid-ok _ e2, by_claims-IsGranted c claims r h2)

sign_in-IsSignedIn :
    (c : GatewayAuth) (g : GatewayAuthenticator) (hs : Dict String) (r : GatewayAuthResult)
    → sign_in c g hs ≡ ok r
    → IsSignedIn c g hs r
unfolding sign_in
sign_in-IsSignedIn client_key g hs r h =
    ground (arith, eq_iff (header "x-td-client-key" hs) g.client_key)
sign_in-IsSignedIn agent_key g hs r h = by_agent_key-IsSignedIn g hs r h
sign_in-IsSignedIn (jwt c) g hs r h = by_token-IsSignedIn g c hs r h

-- Whom `authenticate` lets in: with a client key, who supplies it; with agents' keys, the agent whose
-- credential is the bearer token, with the tenant and the agent of that credential; with a provider's
-- tokens, the subject of a token that verifies, whose scopes include the required ones, whose client is
-- an authorized party, and whose identity has mapped claims only and all that the mode requires.
pub authenticate-IsSignedIn :
    (g : GatewayAuthenticator) (hs : Dict String) (r : GatewayAuthResult)
    → authenticate g hs ≡ ok r
    → IsSignedIn g.config g hs r
unfolding authenticate
authenticate-IsSignedIn g hs r h = sign_in-IsSignedIn g.config g hs r h
