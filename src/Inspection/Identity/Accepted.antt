-- ===== src/Inspection/Identity/Accepted.antt =====
-- inspection/identity.py: what `verify` makes of an attestation that `sign_attestation` has made.

use ai_security_gateway.Base.{
  has_char, ℕ, ◌+◌, ◌≤◌, ◌<◌, String, ◌≡◌, ap, ◌∙◌, Bool, true, false, some, List, codes, length,
  arith,
}
use text.Mathlib.TextPositions.{eq_refl}
use ai_security_gateway.Base.Dict.{get-put}
use ai_security_gateway.Base.Result.{ok}
use ai_security_gateway.Inspection.Json.{int, str, obj, Fields, member, pos, lebℤ, ◌+ℤ◌}
use ai_security_gateway.Inspection.Contracts.{HttpMessage}
use ai_security_gateway.Inspection.Identity.{
  Crypto, AttestationVerifier, request_digest, is_short_text, all_short, in_time, timely, text_is,
  nonce_of, Attested, check_payload, check_decoded, check_signed, check_parts, check_header,
  attestation, Nonces, delete_expired, is_used, use_nonce, settle_nonce, verify,
}
use ai_security_gateway.Inspection.Identity.Sign.{
  put_member, member-put_member, signed_payload, sign_attestation, with_attestation,
  application_headers-put, split-append,
}

in_time-between :
    (max_age now ttl later : ℕ)
    → ttl ≤ max_age
    → now ≤ later
    → later < now + ttl
    → in_time max_age later (pos now) (pos (now + ttl)) ≡ true
unfolding in_time lebℤ ◌+ℤ◌
in_time-between max_age now ttl later short after before = ground (arith, short, after, before)

request_digest-with_attestation :
    (crypto : Crypto) (a : String) (m : HttpMessage)
    → request_digest crypto (with_attestation a m) ≡ request_digest crypto m
unfolding request_digest
request_digest-with_attestation crypto a m =
    ap
      (λ hs.
        crypto.text_sha256_hex
          (crypto.sorted_json m.method m.authority m.path hs (crypto.sha256_hex m.body)))
      (application_headers-put a m.headers)

-- What the code that is called gives for a payload: the attestation's first part decodes to a dict with
-- the payload's members, and neither part has a dot or is too long.
pub record Encodes (crypto : Crypto) (encode : Fields → String) (key : List ℕ)
    (payload decoded : Fields) : Type 0 where
  pub decodes : crypto.payload (encode payload) ≡ some (obj decoded)
  pub same_members : (k : String) → member k decoded ≡ member k payload
  pub encoded_no_dot : has_char b'.' (encode payload) ≡ false
  pub encoded_short : length (codes (encode payload)) ≤ 8192
  pub signature_no_dot : has_char b'.' (crypto.hmac_hex key (encode payload)) ≡ false
  pub signature_length : length (codes (crypto.hmac_hex key (encode payload))) ≡ 64

module _ (crypto : Crypto) (verifier : AttestationVerifier) (encode : Fields → String)
    (m : HttpMessage) (identity decoded : Fields) (nonce : String) (now ttl later : ℕ)
    (encodes : Encodes crypto encode verifier.key
      (signed_payload crypto encode m identity nonce now ttl)
      decoded) where
  abbrev signed : String
  signed = sign_attestation crypto encode m identity verifier.key nonce now ttl

  abbrev sent : HttpMessage
  sent = with_attestation signed m

  abbrev pub attested : Attested
  attested = record { payload = decoded; nonce = nonce; expires = pos (now + ttl) }

  signed_payload-members :
      (member "request_digest" decoded ≡ some (str (request_digest crypto m)))
      × (member "nonce" decoded ≡ some (str nonce))
      × (member "issued_at" decoded ≡ some (int (pos now)))
      × (member "expires_at" decoded ≡ some (int (pos (now + ttl))))
  unfolding signed_payload
  signed_payload-members =
      let d = put_member "request_digest" (str (request_digest crypto m)) identity in
      let n = put_member "nonce" (str nonce) d in
      let i = put_member "issued_at" (int (pos now)) n in
      let at = λ (k : String).
        encodes.same_members k ∙ member-put_member "expires_at" k (int (pos (now + ttl))) i in
      (
        at "request_digest"
            ∙ member-put_member "issued_at" "request_digest" (int (pos now)) n
            ∙ member-put_member "nonce" "request_digest" (str nonce) d
            ∙ member-put_member "request_digest" "request_digest" _ identity,
        at "nonce"
            ∙ member-put_member "issued_at" "nonce" (int (pos now)) n
            ∙ member-put_member "nonce" "nonce" (str nonce) d,
        at "issued_at" ∙ member-put_member "issued_at" "issued_at" (int (pos now)) n,
        at "expires_at",
      )

  check_payload-signed :
      all_short decoded verifier.required_fields ≡ true
      → is_short_text (some (str nonce)) ≡ true
      → ttl ≤ verifier.max_age
      → now ≤ later
      → later < now + ttl
      → check_payload crypto verifier later sent decoded ≡ some attested
  unfolding check_payload timely text_is nonce_of
  check_payload-signed fields short age after before =
      let (d, n, i, e) = signed_payload-members in
      ground (
        arith,
        fields,
        short,
        d,
        n,
        i,
        e,
        in_time-between verifier.max_age now ttl later age after before,
        request_digest-with_attestation crypto signed m,
        eq_refl (request_digest crypto m),
      )

  attestation-signed :
      all_short decoded verifier.required_fields ≡ true
      → is_short_text (some (str nonce)) ≡ true
      → ttl ≤ verifier.max_age
      → now ≤ later
      → later < now + ttl
      → attestation crypto verifier later sent ≡ some attested
  unfolding attestation check_header check_parts check_signed check_decoded sign_attestation
  attestation-signed fields short age after before =
      let encoded = encode (signed_payload crypto encode m identity nonce now ttl) in
      let signature = crypto.hmac_hex verifier.key encoded in
      ground (
        arith,
        get-put "x-td-attestation" "x-td-attestation" signed m.headers,
        split-append encoded signature encodes.encoded_no_dot encodes.signature_no_dot,
        encodes.encoded_short,
        encodes.signature_length,
        eq_refl signature,
        encodes.decodes,
        check_payload-signed fields short age after before,
      )

  -- An attestation that `sign_attestation` makes for a message is accepted with that message, in its
  -- header, from its issue until it expires, where its time to live is at most the verifier's maximum, the
  -- required fields and the nonce are texts of 1 to 256 characters and the nonce was not used: `verify`
  -- returns the signed payload.
  pub sign_attestation-verify :
      (consume : Bool) (rows : Nonces)
      → all_short decoded verifier.required_fields ≡ true
      → is_short_text (some (str nonce)) ≡ true
      → ttl ≤ verifier.max_age
      → now ≤ later
      → later < now + ttl
      → is_used nonce (delete_expired later rows) ≡ false
      → (verify crypto verifier consume later sent rows).0 ≡ ok decoded
  unfolding verify settle_nonce use_nonce
  sign_attestation-verify consume rows fields short age after before fresh =
      ground (arith, attestation-signed fields short age after before, fresh)
