-- ===== src/Selfhost/SignIn/Claims.antt =====
-- selfhost/auth.py: the claims of a token, the scopes and the identity that `authenticate` takes from
-- them.
use Prim.Native.String.{◌++◌ as str_append}
use Prim.Native.Char.{code}
use ai_security_gateway.Base.{
  String, Bool, true, false, ◌&&◌, ◌||◌, not, Option, none, some, List, [], ◌∷◌, leb, length, codes,
  is_set, is_space, contains, if◌then◌else◌,
}
use ai_security_gateway.Base.Dict
use ai_security_gateway.Base.Dict.{Dict}
use ai_security_gateway.Base.Result.{ok, err, ◌>>=◌, ◌>>◌, require}
use ai_security_gateway.Inspection.Json.{Json, null, str, arr, Items, nil, cons, Fields, member}
use ai_security_gateway.Selfhost.SignIn.{
  AgentIdentityClaims, dumped, IdentityMode, delegated, agent, JwtGatewayAuth, GatewayAuthResult,
  Signed, auth_error, invalid_token, or_invalid,
}

-- `text.split()`: the words between white space. The first argument is the word that goes on.
abbrev add_word : String → List String → List String
add_word w ws = if is_set w then w ∷ ws else ws

unfoldable pub words_from : String → String → List String
words_from w String.[] = add_word w []
words_from w (String.◌∷◌ c s) =
    let apart = words_from "" s in
    let inside = words_from (str_append w (String.◌∷◌ c String.[])) s in
    if is_space (code c) then add_word w apart else inside

unfoldable pub words : String → List String
words text = words_from "" text

-- The elements of a list of texts.
unfoldable pub texts_of : Items → Option (List String)
texts_of nil = some []
texts_of (cons (str t) js) = elim (texts_of js) [ none ↦ none | some ts ↦ some (t ∷ ts) ]
texts_of (cons _ js) = none

-- `claims.get("scope", claims.get("scp", ""))`, as a set of scopes.
abbrev pub scope_claim : Fields → Json
scope_claim claims = elim (member "scope" claims) [
  | some v ↦ v
  | none ↦ elim (member "scp" claims) [ some v ↦ v | none ↦ str "" ]
]

unfoldable pub scopes_in : Json → Option (List String)
scopes_in (str t) = some (words t)
scopes_in (arr js) = texts_of js
scopes_in _ = none

-- The first of the claims that name the client.
abbrev pub party : Fields → Option Json
party claims = elim (member "azp" claims) [
  | some v ↦ some v
  | none ↦ elim (member "appid" claims) [ some v ↦ some v | none ↦ member "cid" claims ]
]

abbrev has_any : List String → Bool
has_any [] = false
has_any (p ∷ ps) = true

unfoldable pub is_authorized : List String → Option Json → Bool
is_authorized parties (some (str p)) = not (has_any parties) || contains parties p
is_authorized parties _ = not (has_any parties)

-- `set(required).issubset(scopes)`
unfoldable pub is_subset : List String → List String → Bool
is_subset [] scopes = true
is_subset (r ∷ rs) scopes = contains scopes r && is_subset rs scopes

-- The subject of the claims: a text that is not empty.
unfoldable pub subject_in : Option Json → Option String
subject_in (some (str t)) = if is_set t then some t else none
subject_in _ = none

abbrev pub required_fields : IdentityMode → List String
required_fields agent = "tenant_id" ∷ "agent_id" ∷ []
required_fields delegated = "tenant_id" ∷ "user_id" ∷ "agent_id" ∷ "delegation_id" ∷ "task_id" ∷ []

abbrev pub skipped_fields : IdentityMode → List String
skipped_fields agent = "user_id" ∷ "task_id" ∷ "delegation_id" ∷ []
skipped_fields delegated = []

-- What a mapped claim gives a field: nothing, a text, or an error.
unfoldable pub claim_value : IdentityMode → String → Option Json → Signed (Option String)
claim_value mode name (some (str t)) =
    if is_set t && leb (length (codes t)) 256
    then ok (some t)
    else err (auth_error "invalid_agent_identity" 401)
claim_value mode name none =
    if contains (required_fields mode) name
    then err (auth_error "invalid_agent_identity" 401)
    else ok none
claim_value mode name (some null) =
    if contains (required_fields mode) name
    then err (auth_error "invalid_agent_identity" 401)
    else ok none
claim_value mode name _ = err (auth_error "invalid_agent_identity" 401)

-- A field's value: none where the mode skips the field or no claim is mapped to it.
unfoldable pub field_value : IdentityMode → Fields → String → Option String → Signed (Option String)
field_value mode claims name none = ok none
field_value mode claims name (some claim) =
    if contains (skipped_fields mode) name
    then ok none
    else claim_value mode name (member claim claims)

abbrev pub set_field : String → Option String → Dict String → Dict String
set_field name none identity = identity
set_field name (some v) identity = Dict.put name v identity

-- The loop over the mapping.
unfoldable pub mapped_fields :
    IdentityMode → Fields → Dict (Option String) → Dict String → Signed (Dict String)
mapped_fields mode claims [] identity = ok identity
mapped_fields mode claims ((name, claim) ∷ ms) identity = do
  v ← field_value mode claims name claim
  mapped_fields mode claims ms (set_field name v identity)

abbrev pub with_mode : IdentityMode → Dict String → Dict String
with_mode agent identity = Dict.put "authorization_mode" "agent" identity
with_mode delegated identity = identity

unfoldable pub identity_of :
    Option AgentIdentityClaims → IdentityMode → Fields → Signed (Dict String)
identity_of none mode claims = ok []
identity_of (some m) mode claims = do
  identity ← mapped_fields mode claims (dumped m) []
  ok (with_mode mode identity)

-- The checks of the decoded claims.
unfoldable pub by_claims : JwtGatewayAuth → Fields → Signed GatewayAuthResult
by_claims c claims = do
  subject ← or_invalid (subject_in (member "sub" claims))
  scopes ← or_invalid (scopes_in (scope_claim claims))
  require (is_authorized c.authorized_parties (party claims)) invalid_token
  require (is_subset c.required_scopes scopes) (auth_error "insufficient_scope" 403)
  identity ← identity_of c.identity_claims c.identity_mode claims
  ok (record { subject = subject; scopes = scopes; identity = identity })
