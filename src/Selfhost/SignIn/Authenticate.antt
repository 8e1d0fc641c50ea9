-- ===== src/Selfhost/SignIn/Authenticate.antt =====
-- selfhost/auth.py: `authenticate` with each of the configurations, `metadata` and `challenge`.
use Prim.Native.String.{◌++◌ as str_append}
use ai_security_gateway.Base.{
  drop_text, starts_with, ℕ, String, Bool, false, ◌&&◌, ◌||◌, not, Option, none, some, List, [],
  ◌∷◌, ◌==◌, codes, str_eq, is_set, is_hex_text, if◌then◌else◌,
}
use ai_security_gateway.Base.Dict
use ai_security_gateway.Base.Dict.{Dict}
use ai_security_gateway.Base.Result.{ok, err, ◌>>=◌, ◌>>◌, require}
use ai_security_gateway.Selfhost.AgentCredentials.{AgentCredentials, Table, Principal}
use ai_security_gateway.Selfhost.AgentCredentials
use ai_security_gateway.Selfhost.SignIn.{
  JwtGatewayAuth, GatewayAuth, client_key, agent_key, jwt, AuthError, GatewayAuthResult, Agents,
  GatewayAuthenticator, Signed, auth_error, header, or_invalid,
}
use ai_security_gateway.Selfhost.SignIn.Claims.{by_claims}

-- The agent's identity, with the approval that the request names.
unfoldable pub with_approval_id : Option String → Principal → Signed GatewayAuthResult
with_approval_id approval p =
    let identity : Dict String =
      ("tenant_id", p.tenant_id)
      ∷ ("agent_id", p.agent_id)
      ∷ ("authorization_mode", "agent")
      ∷ [] in
    elim approval [
      | none ↦ ok (record { subject = p.agent_id; scopes = []; identity = identity })
      | some a ↦
          if not (is_set a)
          then ok (record { subject = p.agent_id; scopes = []; identity = identity })
          else if starts_with "apv_" a && is_hex_text 12 (drop_text 4 a)
          then ok (record {
            subject = p.agent_id;
            scopes = [];
            identity = Dict.put "approval_id" a identity;
          })
          else err (auth_error "invalid_approval_id" 400)
    ]

unfoldable pub agent_of : Option Agents → String → Option Principal
agent_of none token = none
agent_of (some a) token = AgentCredentials.authenticate a.credentials token a.now a.rows

unfoldable pub by_agent_key : Option Agents → Dict String → Signed GatewayAuthResult
by_agent_key agents hs = do
  require (starts_with "Bearer " (header "authorization" hs)) (auth_error "invalid_agent_key" 401)
  elim (agent_of agents (drop_text 7 (header "authorization" hs))) [
    | none ↦ err (auth_error "invalid_agent_key" 401)
    | some p ↦ with_approval_id (Dict.get "x-td-approval-id" hs) p
  ]

abbrev has_space : List ℕ → Bool
has_space [] = false
has_space (c ∷ cs) = c == 32 || has_space cs

-- The token after "Bearer ": not empty, and without another space.
unfoldable pub bearer_token : String → Option String
bearer_token value =
    let token = drop_text 7 value in
    if starts_with "Bearer " value && is_set token && not (has_space (codes token))
    then some token
    else none

unfoldable pub by_token :
    GatewayAuthenticator → JwtGatewayAuth → Dict String → Signed GatewayAuthResult
by_token g c hs = do
  token ← or_invalid (bearer_token (header "authorization" hs))
  claims ← or_invalid (g.decode c token)
  by_claims c claims

unfoldable pub sign_in : GatewayAuth → GatewayAuthenticator → Dict String → Signed GatewayAuthResult
sign_in client_key g hs =
    if str_eq (header "x-td-client-key" hs) g.client_key
    then ok (record { subject = "client-key"; scopes = []; identity = [] })
    else err (auth_error "invalid_client_key" 401)
sign_in agent_key g hs = by_agent_key g.agent_credentials hs
sign_in (jwt c) g hs = by_token g c hs

-- `authenticate`
unfoldable pub authenticate : GatewayAuthenticator → Dict String → Signed GatewayAuthResult
authenticate g hs = sign_in g.config g hs

-- `metadata`: what the gateway publishes about its authorization.
pub record Metadata : Type 0 where
  pub resource : String
  pub authorization_servers : List String
  pub scopes_supported : List String

unfoldable pub metadata : GatewayAuth → Option Metadata
metadata (jwt c) = some (record {
  resource = c.resource;
  authorization_servers = c.authorization_servers;
  scopes_supported = c.required_scopes;
})
metadata _ = none

-- `" ".join(texts)`
unfoldable pub joined : List String → String
joined [] = ""
joined (t ∷ []) = t
joined (t ∷ u ∷ ts) = str_append t (str_append " " (joined (u ∷ ts)))

-- `challenge`
unfoldable pub challenge : GatewayAuth → Option AuthError → Option String
challenge (jwt c) e =
    let value = str_append "Bearer resource_metadata=\"" (str_append c.metadata_url "\"") in
    elim e [
      | none ↦ some value
      | some x ↦
          let named = str_append value (str_append ", error=\"" (str_append x.code "\"")) in
          if str_eq x.code "insufficient_scope"
          then some (
              str_append named
                (str_append ", scope=\"" (str_append (joined c.required_scopes) "\"")))
          else some named
    ]
challenge _ e = none
