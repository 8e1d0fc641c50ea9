-- ===== src/Inspection/Identity.antt =====
-- inspection/identity.py: which headers are the application's, the digest of a request, and the
-- attestation of its identity with the table of used nonces. The hashes, the JSON text and the
-- decoding of base64 are parameters.
pub mod Shown
pub mod Replay
pub mod Sign
pub mod Accepted
use Prim.Native.String.{◌++◌ as str_append}
use ai_security_gateway.Base.{
  split, starts_with, ℕ, ◌+◌, String, Bool, true, false, ◌&&◌, ◌||◌, not, Option, none, some, List,
  [], ◌∷◌, leb, ltb, ◌==◌, is_set, str_eq, codes, length, contains, if◌then◌else◌,
}
use ai_security_gateway.Base.Dict
use ai_security_gateway.Base.Dict.{Dict}
use ai_security_gateway.Base.Result.{Result, ok, err}
use ai_security_gateway.Inspection.Json.{
  Json, null, bool, int, float, str, arr, obj, Fields, member, ℤ, ◌+ℤ◌, pos, negsuc, lebℤ,
}
use ai_security_gateway.Inspection.Contracts.{Raised, inspection_error, Bytes, HttpMessage}

-- What the module takes from hashlib, hmac, base64 and json. `sorted_json` writes the value that the
-- digest is taken of, from the method, the authority, the path, the headers and the body's digest;
-- `payload` decodes the first part of an attestation, where it decodes.
pub record Crypto : Type 0 where
  pub sha256_hex : Bytes → String
  pub text_sha256_hex : String → String
  pub sorted_json : String → String → String → Dict String → String → String
  pub hmac_hex : Bytes → String → String
  pub payload : String → Option Json

abbrev pub transport_headers : List String
transport_headers =
    "host" ∷ "content-length" ∷ "transfer-encoding" ∷ "connection" ∷ "te" ∷ "trailer" ∷ "keep-alive"
    ∷ "upgrade" ∷ []

abbrev pub identity_fields : List String
identity_fields = "tenant_id" ∷ "user_id" ∷ "agent_id" ∷ "delegation_id" ∷ "task_id" ∷ []

unfoldable pub reserved_header : String → Bool
reserved_header name =
    (starts_with "x-td-" name
      || starts_with "x-asr-" name
      || starts_with "x-forwarded-" name
      || starts_with "x-envoy-" name)
    || contains ("forwarded" ∷ "x-request-id" ∷ []) name

abbrev pub is_application : String → Bool
is_application key =
    not (contains transport_headers key) && not (starts_with ":" key) && not (reserved_header key)

unfoldable pub application_headers : Dict String → Dict String
application_headers [] = []
application_headers ((k, v) ∷ hs) =
    if is_application k then (k, v) ∷ application_headers hs else application_headers hs

module _ (crypto : Crypto) where
  unfoldable pub request_digest : HttpMessage → String
  request_digest m = crypto.text_sha256_hex (
      crypto.sorted_json m.method m.authority m.path (application_headers m.headers)
        (crypto.sha256_hex m.body))

pub record AttestationVerifier : Type 0 where
  pub key : Bytes
  pub max_age : ℕ
  pub required_fields : List String

-- `isinstance(value, str) and 0 < len(value) <= 256`
unfoldable pub is_short_text : Option Json → Bool
is_short_text (some (str t)) = ltb 0 (length (codes t)) && leb (length (codes t)) 256
is_short_text _ = false

unfoldable pub all_short : Fields → List String → Bool
all_short p [] = true
all_short p (k ∷ ks) = is_short_text (member k p) && all_short p ks

-- `issued <= now + 5`, `now < expires`, `issued < expires`, `now - issued <= max_age` and
-- `expires - issued <= max_age`.
unfoldable pub in_time : ℕ → ℕ → ℤ → ℤ → Bool
in_time max_age now issued expires =
    lebℤ issued (pos (now + 5))
    && not (lebℤ expires (pos now))
    && not (lebℤ expires issued)
    && lebℤ (pos now) (issued +ℤ max_age)
    && lebℤ expires (issued +ℤ max_age)

-- `payload["issued_at"]` and `payload["expires_at"]`, both integers, in their bounds.
unfoldable pub timely : ℕ → ℕ → Option Json → Option Json → Option ℤ
timely max_age now (some (int issued)) (some (int expires)) =
    if in_time max_age now issued expires then some expires else none
timely max_age now _ _ = none

unfoldable pub text_is : Option Json → String → Bool
text_is (some (str d)) e = str_eq d e
text_is _ e = false

unfoldable pub nonce_of : Fields → Option String
nonce_of p = elim (member "nonce" p) [ some (str n) ↦ some n | _ ↦ none ]

-- An attestation that holds: what it says, its nonce and when it expires.
pub record Attested : Type 0 where
  pub payload : Fields
  pub nonce : String
  pub expires : ℤ

module _ (crypto : Crypto) (verifier : AttestationVerifier) where
  -- The checks of the decoded payload.
  unfoldable pub check_payload : ℕ → HttpMessage → Fields → Option Attested
  check_payload now m p = elim (nonce_of p) [
    | none ↦ none
    | some n ↦ elim (timely verifier.max_age now (member "issued_at" p) (member "expires_at" p)) [
      | none ↦ none
      | some e ↦
          if all_short p verifier.required_fields
            && is_short_text (member "nonce" p)
            && text_is (member "request_digest" p) (request_digest crypto m)
          then some (record { payload = p; nonce = n; expires = e })
          else none
    ]
  ]

  -- A payload that is not an object raises `TypeError`.
  unfoldable pub check_decoded : ℕ → HttpMessage → Option Json → Option Attested
  check_decoded now m (some (obj p)) = check_payload now m p
  check_decoded now m _ = none

  unfoldable pub check_signed : ℕ → HttpMessage → String → String → Option Attested
  check_signed now m encoded signature =
      if ltb 8192 (length (codes encoded)) || not (length (codes signature) == 64)
      then none
      else if str_eq (crypto.hmac_hex verifier.key encoded) signature
      then check_decoded now m (crypto.payload encoded)
      else none

  -- The header has two parts.
  unfoldable pub check_parts : ℕ → HttpMessage → List String → Option Attested
  check_parts now m (encoded ∷ signature ∷ []) = check_signed now m encoded signature
  check_parts now m _ = none

  unfoldable pub check_header : ℕ → HttpMessage → Option String → Option Attested
  check_header now m none = none
  check_header now m (some header) = check_parts now m (split b'.' header)

  -- The body of the `try`: an attestation that holds, or one of the exceptions that become
  -- "untrusted_or_mismatched_identity".
  unfoldable pub attestation : ℕ → HttpMessage → Option Attested
  attestation now m = check_header now m (Dict.get "x-td-attestation" m.headers)

-- The rows of the table: a nonce and when it expires.
abbrev pub Nonces : Type 0
Nonces = List (String × ℤ)

-- `DELETE FROM nonces WHERE expires < now - 5`
unfoldable pub delete_expired : ℕ → Nonces → Nonces
delete_expired now [] = []
delete_expired now ((n, e) ∷ rows) =
    let rest = delete_expired now rows in if lebℤ (pos now) (e +ℤ 5) then (n, e) ∷ rest else rest

unfoldable pub is_used : String → Nonces → Bool
is_used n [] = false
is_used n ((k, e) ∷ rows) = str_eq k n || is_used n rows

-- `INSERT INTO nonces`, where the nonce is the primary key: a used one rolls the transaction back.
unfoldable pub use_nonce : ℕ → Attested → Nonces → Result Raised Fields × Nonces
use_nonce now a rows =
    if is_used a.nonce (delete_expired now rows)
    then (err (inspection_error "attestation_replay"), rows)
    else (ok a.payload, (a.nonce, a.expires) ∷ delete_expired now rows)

unfoldable pub settle_nonce : Bool → ℕ → Option Attested → Nonces → Result Raised Fields × Nonces
settle_nonce consume now none rows =
    (err (inspection_error "untrusted_or_mismatched_identity"), rows)
settle_nonce consume now (some a) rows =
    if consume then use_nonce now a rows else (ok a.payload, rows)

module _ (crypto : Crypto) (verifier : AttestationVerifier) where
  -- `verify`; `now` is the reading of the clock, in whole seconds, and the first argument tells
  -- whether the nonce is consumed.
  unfoldable pub verify : Bool → ℕ → HttpMessage → Nonces → Result Raised Fields × Nonces
  verify consume now m rows = settle_nonce consume now (attestation crypto verifier now m) rows
