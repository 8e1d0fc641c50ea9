-- ===== src/Selfhost/Credentials.antt =====
-- selfhost/credentials.py: the credential that the gateway puts on a request to the target, and what
-- becomes of the caller's own.
use Prim.Native.String.{◌++◌ as str_append}
use ai_security_gateway.Base.{
  starts_with, ℕ, suc, String, ◌≡◌, Bool, false, ◌&&◌, not, Option, none, some, List, [], ◌∷◌, ◌==◌,
  codes, str_eq, is_set, arith, if◌then◌else◌,
}
use text.Mathlib.TextPositions.{eq_refl}
use ai_security_gateway.Base.Dict
use ai_security_gateway.Base.Dict.{Dict, get-put, get-pop}
use ai_security_gateway.Base.Result.{Result, ok, err}

pub data TargetMode : Type 0 where
  unauthenticated passthrough_bearer static_bearer static_api_key : TargetMode

-- `TargetAuth`: its contract gives the modes with a secret a secret file, and an API key a header that
-- is not "authorization".
pub record TargetAuth : Type 0 where
  pub mode : TargetMode
  pub header : String
  pub prefix : String

-- `CredentialError`, by its reason
pub data CredentialError : Type 0 where
  unsupported_destination_auth destination_auth_conflict : CredentialError

-- `TargetCredentialProvider`
pub record TargetCredentialProvider : Type 0 where
  pub config : TargetAuth
  pub gateway_has_client_key : Bool
  pub secret : String

-- `bool(inbound_authorization)`
abbrev pub is_given : Option String → Bool
is_given none = false
is_given (some t) = is_set t

abbrev pub spaces : List ℕ → ℕ
spaces [] = 0
spaces (c ∷ cs) = let n = spaces cs in if c == 32 then suc n else n

-- `inbound.startswith("Bearer ") and len(inbound.split(" ")) == 2`
unfoldable pub is_bearer : String → Bool
is_bearer t = starts_with "Bearer " t && spaces (codes t) == 1

unfoldable pub passed_through : Option String → Dict String → Result CredentialError (Dict String)
passed_through none hs = ok hs
passed_through (some t) hs =
    if not (is_set t)
    then ok hs
    else if is_bearer t
    then ok (Dict.put "authorization" t hs)
    else err unsupported_destination_auth

-- The modes of the target's own credential.
unfoldable pub with_secret :
    TargetMode → TargetCredentialProvider → Dict String → Result CredentialError (Dict String)
with_secret unauthenticated p hs = ok hs
with_secret passthrough_bearer p hs = ok hs
with_secret static_bearer p hs = ok (Dict.put "authorization" (str_append "Bearer " p.secret) hs)
with_secret static_api_key p hs = elim (Dict.get p.config.header hs) [
  | some v ↦ err destination_auth_conflict
  | none ↦ ok (Dict.put p.config.header (str_append p.config.prefix p.secret) hs)
]

unfoldable pub with_mode :
    TargetMode
    → TargetCredentialProvider
    → Option String
    → Dict String
    → Result CredentialError (Dict String)
with_mode passthrough_bearer p inbound hs = passed_through inbound hs
with_mode mode p inbound hs =
    if p.gateway_has_client_key && is_given inbound
    then err destination_auth_conflict
    else with_secret mode p hs

-- `apply`
unfoldable pub apply :
    TargetCredentialProvider → Dict String → Option String → Result CredentialError (Dict String)
apply p headers inbound = with_mode p.config.mode p inbound (Dict.pop "authorization" headers)

-- The authorization that each mode sends: the caller's bearer token where it is passed through and
-- given, the target's secret, or none.
abbrev pub sent : TargetMode → TargetCredentialProvider → Option String → Option String
sent unauthenticated p inbound = none
sent passthrough_bearer p inbound = if is_given inbound then inbound else none
sent static_bearer p inbound = some (str_append "Bearer " p.secret)
sent static_api_key p inbound = none

-- Under an API key, whose header is not "authorization", the key is sent in its header.
abbrev pub KeySent : TargetMode → TargetCredentialProvider → Dict String → Type 0
KeySent static_api_key p hs =
    Dict.get p.config.header hs ≡ some (str_append p.config.prefix p.secret)
KeySent _ p hs = Unit {0}

with_mode-sent :
    (mode : TargetMode) (p : TargetCredentialProvider) (headers : Dict String)
    (inbound : Option String) (hs : Dict String)
    → str_eq p.config.header "authorization" ≡ false
    → with_mode mode p inbound (Dict.pop "authorization" headers) ≡ ok hs
    → (Dict.get "authorization" hs ≡ sent mode p inbound) × KeySent mode p hs
unfolding with_mode with_secret passed_through
with_mode-sent unauthenticated p headers inbound hs apart h =
    ground (arith, get-pop "authorization" "authorization" headers)
with_mode-sent passthrough_bearer p headers none hs apart h =
    ground (arith, get-pop "authorization" "authorization" headers)
with_mode-sent passthrough_bearer p headers (some t) hs apart h = ground (
  arith,
  get-pop "authorization" "authorization" headers,
  get-put "authorization" "authorization" t (Dict.pop "authorization" headers),
)
with_mode-sent static_bearer p headers inbound hs apart h = ground (
  arith,
  get-put "authorization" "authorization" (str_append "Bearer " p.secret)
      (Dict.pop "authorization" headers),
)
with_mode-sent static_api_key p headers inbound hs apart h = ground (
  arith,
  eq_refl p.config.header,
  get-pop "authorization" "authorization" headers,
  get-put p.config.header "authorization" (str_append p.config.prefix p.secret)
      (Dict.pop "authorization" headers),
  get-put p.config.header p.config.header (str_append p.config.prefix p.secret)
      (Dict.pop "authorization" headers),
)

-- Where apply returns, whatever authorization the request had is replaced: the target gets the caller's
-- only where it is passed through, the target's own secret under a static credential, and none
-- otherwise; an API key, whose header is not "authorization", is in its header.
pub apply-sent :
    (p : TargetCredentialProvider) (headers : Dict String) (inbound : Option String)
    (hs : Dict String)
    → str_eq p.config.header "authorization" ≡ false
    → apply p headers inbound ≡ ok hs
    → (Dict.get "authorization" hs ≡ sent p.config.mode p inbound) × KeySent p.config.mode p hs
unfolding apply
apply-sent p headers inbound hs apart h = with_mode-sent p.config.mode p headers inbound hs apart h
