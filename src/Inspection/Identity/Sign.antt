-- ===== src/Inspection/Identity/Sign.antt =====
-- inspection/identity.py: the trusted hop's `sign_attestation`, and the texts that it is made of. The text
-- that urlsafe base64 gives of the payload's JSON is a parameter.
use Prim.Native.String.{◌++◌ as str_append}
use Prim.Native.String.append
use ai_security_gateway.Base.{
  has_char, split, starts_with, ℕ, ◌+◌, String, ◌≡◌, refl, sym, ap, ◌∙◌, false, some, List, [], ◌∷◌,
  str_eq, eq_iff, contains, arith, if◌then◌else◌, Bool-cases, inl, inr,
}
use ai_security_gateway.Base.Dict
use ai_security_gateway.Base.Dict.{Dict, get-put}
use ai_security_gateway.Inspection.Json.{Json, int, str, Fields, end, field, member, pos}
use ai_security_gateway.Inspection.Contracts.{HttpMessage}
use ai_security_gateway.Inspection.Identity.{
  Crypto, application_headers, is_application, reserved_header, request_digest,
}

-- `{**fields, key: value}`
unfoldable pub put_member : String → Json → Fields → Fields
put_member k v end = field k v end
put_member k v (field j w fs) = if str_eq j k then field j v fs else field j w (put_member k v fs)

pub member-put_member :
    (k j : String) (v : Json) (fs : Fields)
    → member j (put_member k v fs) ≡ (if str_eq k j then some v else member j fs)
unfolding member put_member
member-put_member k j v end = refl
member-put_member k j v (field i w fs) =
    ground (arith, eq_iff k j, eq_iff i k, eq_iff i j, member-put_member k j v fs)

module _ (crypto : Crypto) (encode : Fields → String) where
  unfoldable pub signed_payload : HttpMessage → Fields → String → ℕ → ℕ → Fields
  signed_payload m identity nonce now ttl = put_member "expires_at" (int (pos (now + ttl))) (
      put_member "issued_at" (int (pos now)) (
        put_member "nonce" (str nonce)
          (put_member "request_digest" (str (request_digest crypto m)) identity)))

  -- `sign_attestation`
  unfoldable pub sign_attestation : HttpMessage → Fields → List ℕ → String → ℕ → ℕ → String
  sign_attestation m identity key nonce now ttl =
      let encoded = encode (signed_payload m identity nonce now ttl) in
      str_append encoded (str_append "." (crypto.hmac_hex key encoded))

-- The message with an attestation among its headers.
abbrev pub with_attestation : String → HttpMessage → HttpMessage
with_attestation a m = record m { headers = Dict.put "x-td-attestation" a m.headers }

-- The attestation's header is not the application's.
attestation-Reserved : is_application "x-td-attestation" ≡ false
unfolding reserved_header starts_with contains
attestation-Reserved = refl

application_headers-cons :
    (k v : String) (hs : Dict String)
    → is_application k ≡ false
    → application_headers ((k, v) ∷ hs) ≡ application_headers hs
unfolding application_headers
application_headers-cons k v hs h = rw h refl

same_tail :
    (k v : String) (hs js : Dict String)
    → application_headers hs ≡ application_headers js
    → application_headers ((k, v) ∷ hs) ≡ application_headers ((k, v) ∷ js)
unfolding application_headers
same_tail k v hs js h = elim (Bool-cases (is_application k)) [
  | inl kept ↦ rw kept (ap (λ xs. (k, v) ∷ xs) h)
  | inr dropped ↦ rw dropped h
]

pub application_headers-put :
    (a : String) (hs : Dict String)
    → application_headers (Dict.put "x-td-attestation" a hs) ≡ application_headers hs
unfolding Dict.put
application_headers-put a [] = application_headers-cons "x-td-attestation" a [] attestation-Reserved
application_headers-put a ((k, v) ∷ hs) = elim (Bool-cases (str_eq k "x-td-attestation")) [
  | inl same ↦
      let p : k ≡ "x-td-attestation" = (eq_iff k "x-td-attestation").0 same in
      let e = ap is_application p ∙ attestation-Reserved in
      rw same (application_headers-cons k a hs e ∙ sym (application_headers-cons k v hs e))
  | inr other ↦ rw other (same_tail k v _ hs (application_headers-put a hs))
]

split-no_dot : (s : String) → has_char b'.' s ≡ false → split b'.' s ≡ s ∷ []
unfolding split has_char
split-no_dot String.[] h = refl
split-no_dot (String.◌∷◌ c s) h = ground (arith, h, split-no_dot s)

pub split-append :
    (a b : String)
    → has_char b'.' a ≡ false
    → has_char b'.' b ≡ false
    → split b'.' (str_append a (str_append "." b)) ≡ a ∷ b ∷ []
unfolding split has_char
split-append String.[] b h k =
    ground
      (arith, append.nil (str_append "." b), append.cons "." "" b, append.nil b, split-no_dot b k)
split-append (String.◌∷◌ c a) b h k =
    ground (arith, h, append.cons c a (str_append "." b), split-append a b (ground (arith, h)) k)
