-- ===== src/Tests/SignIn.antt =====
-- The theorems of the sign-in and of the target's credentials at concrete inputs.
use ai_security_gateway.Base.{
  drop_text, starts_with, String, ◌≡◌, refl, false, none, some, [], ◌∷◌, contains,
}
use ai_security_gateway.Base.Dict.{Dict, get, put, pop}
use ai_security_gateway.Inspection.Json.{str, Fields, end, field, member}
use ai_security_gateway.Selfhost.SignIn.{
  JwtGatewayAuth, agent, jwt, GatewayAuthResult, GatewayAuthenticator,
}
use ai_security_gateway.Selfhost.SignIn.Authenticate.{authenticate, sign_in, by_token, bearer_token}
use ai_security_gateway.Selfhost.SignIn.Claims.{
  by_claims, subject_in, scopes_in, is_authorized, is_subset, words, words_from, identity_of,
  mapped_fields, field_value, claim_value,
}
use ai_security_gateway.Selfhost.SignIn.Granted.{IsSignedIn, authenticate-IsSignedIn}
use ai_security_gateway.Selfhost.Credentials.{
  TargetCredentialProvider, static_bearer, apply, with_mode, with_secret, apply-sent,
}

abbrev provider : JwtGatewayAuth
provider = record {
  identity_mode = agent;
  issuer = "https://idp";
  audience = "gateway";
  resource = "https://gw";
  metadata_url = "https://gw/.well-known/oauth-protected-resource";
  authorization_servers = "https://idp" ∷ [];
  required_scopes = "mcp.call" ∷ [];
  authorized_parties = "app-1" ∷ [];
  identity_claims = some (record {
    tenant_id = "tid";
    user_id = "sub";
    agent_id = "agent_id";
    delegation_id = "delegation_id";
    task_id = "task_id";
    agent_instance_id = none;
    approval_id = some "approval_id";
  });
}

abbrev claims : Fields
claims = field "sub" (str "s-1") (
    field "scope" (str "openid mcp.call")
      (field "azp" (str "app-1") (field "tid" (str "t-1") (field "agent_id" (str "a-1") end))))

abbrev gateway : GatewayAuthenticator
gateway = record {
  config = jwt provider;
  client_key = "";
  agent_credentials = none;
  decode = λ c token. some claims;
}

abbrev caller : Dict String
caller = ("authorization", "Bearer abc.def.ghi") ∷ []

abbrev signed_in : GatewayAuthResult
signed_in = record {
  subject = "s-1";
  scopes = "openid" ∷ "mcp.call" ∷ [];
  identity = ("tenant_id", "t-1") ∷ ("agent_id", "a-1") ∷ ("authorization_mode", "agent") ∷ [];
}

authenticate-IsSignedIn_example : IsSignedIn gateway.config gateway caller signed_in
unfolding authenticate sign_in by_token bearer_token starts_with get drop_text by_claims subject_in
    member scopes_in is_authorized contains is_subset words words_from identity_of mapped_fields
    field_value claim_value put
authenticate-IsSignedIn_example = authenticate-IsSignedIn gateway caller signed_in refl

abbrev target : TargetCredentialProvider
target = record {
  config = record { mode = static_bearer; header = ""; prefix = "" };
  gateway_has_client_key = false;
  secret = "s3cret";
}

abbrev sent_headers : Dict String
sent_headers = ("accept", "*/*") ∷ ("authorization", "Bearer s3cret") ∷ []

apply-sent_example : (get "authorization" sent_headers ≡ some "Bearer s3cret") × Unit {0}
unfolding apply with_mode with_secret put pop
apply-sent_example =
    apply-sent target (("authorization", "Bearer abc") ∷ ("accept", "*/*") ∷ []) (some "Bearer abc")
      sent_headers refl refl
