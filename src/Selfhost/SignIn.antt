-- ===== src/Selfhost/SignIn.antt =====
-- selfhost/auth.py: how the gateway signs its callers in. The decoding of a token of the identity
-- provider (the signing key's look-up and `jwt.decode` with the audience, the issuer and the required
-- claims) is a parameter.
pub mod Claims
pub mod Authenticate
pub mod Mapped
pub mod Granted
use Prim.Native.String.{◌++◌ as str_append}
use Prim.Native.Char.{code}
use ai_security_gateway.Base.{
  ℕ, String, Bool, true, false, ◌&&◌, ◌||◌, not, Option, none, some, List, [], ◌∷◌, leb, ◌==◌,
  length, codes, str_eq, is_set, is_space, is_hex_text, contains, if◌then◌else◌,
}
use ai_security_gateway.Base.Dict
use ai_security_gateway.Base.Dict.{Dict}
use ai_security_gateway.Base.Result.{Result, ok, err, ◌>>=◌, ◌>>◌, require}
use ai_security_gateway.Inspection.Json.{Json, null, str, arr, Items, nil, cons, Fields, member}
use ai_security_gateway.Selfhost.AgentCredentials.{AgentCredentials, Table, Principal}
use ai_security_gateway.Selfhost.AgentCredentials

-- `AgentIdentityClaims`
pub record AgentIdentityClaims : Type 0 where
  pub tenant_id : String
  pub user_id : String
  pub agent_id : String
  pub delegation_id : String
  pub task_id : String
  pub agent_instance_id : Option String
  pub approval_id : Option String

-- `model_dump().items()`
abbrev pub dumped : AgentIdentityClaims → Dict (Option String)
dumped m =
    ("tenant_id", some m.tenant_id)
    ∷ ("user_id", some m.user_id)
    ∷ ("agent_id", some m.agent_id)
    ∷ ("delegation_id", some m.delegation_id)
    ∷ ("task_id", some m.task_id)
    ∷ ("agent_instance_id", m.agent_instance_id)
    ∷ ("approval_id", m.approval_id)
    ∷ []

pub data IdentityMode : Type 0 where
  delegated agent : IdentityMode

-- `JwtGatewayAuth`, with its property `metadata_url`.
pub record JwtGatewayAuth : Type 0 where
  pub identity_mode : IdentityMode
  pub issuer : String
  pub audience : String
  pub resource : String
  pub metadata_url : String
  pub authorization_servers : List String
  pub required_scopes : List String
  pub authorized_parties : List String
  pub identity_claims : Option AgentIdentityClaims

pub data GatewayAuth : Type 0 where
  client_key agent_key : GatewayAuth
  jwt : JwtGatewayAuth → GatewayAuth

pub record AuthError : Type 0 where
  pub code : String
  pub status_code : ℕ

pub record GatewayAuthResult : Type 0 where
  pub subject : String
  pub scopes : List String
  pub identity : Dict String

-- The agents' credentials with the time and the table that a call of theirs reads.
pub record Agents : Type 0 where
  pub credentials : AgentCredentials
  pub now : ℕ
  pub rows : Table

-- `GatewayAuthenticator`; `decode` gives the claims of a token that the provider's key verifies.
pub record GatewayAuthenticator : Type 0 where
  pub config : GatewayAuth
  pub client_key : String
  pub agent_credentials : Option Agents
  pub decode : JwtGatewayAuth → String → Option Fields

abbrev pub Signed : Type 0 → Type 0
Signed = Result AuthError

abbrev pub auth_error : String → ℕ → AuthError
auth_error code status = record { code = code; status_code = status }

abbrev pub invalid_token : AuthError
invalid_token = auth_error "invalid_token" 401

-- `headers.get(name, "")`
abbrev pub header : String → Dict String → String
header name hs = elim (Dict.get name hs) [ none ↦ "" | some v ↦ v ]

abbrev pub or_invalid : {A : Type 0} → Option A → Signed A
or_invalid none = err invalid_token
or_invalid (some a) = ok a
