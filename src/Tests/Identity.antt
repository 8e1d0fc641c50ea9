-- ===== src/Tests/Identity.antt =====
-- The round trip of an attestation at a concrete message.
use ai_security_gateway.Base.{has_char, ◌≡◌, refl, true, [], arith}
use ai_security_gateway.Base.Result.{ok}
use ai_security_gateway.Inspection.Identity.{
  verify, all_short, is_short_text, request_digest, delete_expired, is_used,
}
use ai_security_gateway.Inspection.Identity.Sign.{
  signed_payload, put_member, sign_attestation, with_attestation,
}
use ai_security_gateway.Inspection.Identity.Accepted.{Encodes, sign_attestation-verify}
use ai_security_gateway.Inspection.Json.{Fields, member}
use Prim.Native.String.{String}
use ai_security_gateway.Tests.InspectionData.{payload, crypto, verifier, message}

abbrev encode : Fields → String
encode p = "eyJ9"

encodes :
    Encodes crypto encode verifier.key
      (signed_payload crypto encode message payload "n-1" 1 29)
      payload
unfolding signed_payload put_member request_digest has_char
encodes = record {
  decodes = refl;
  same_members = λ k. refl;
  encoded_no_dot = refl;
  encoded_short = omega arith;
  signature_no_dot = refl;
  signature_length = refl;
}

sign_attestation-verify_example :
    (verify crypto verifier true 20
      (with_attestation
        (sign_attestation crypto encode message payload verifier.key "n-1" 1 29)
        message)
      []).0
    ≡ ok payload
unfolding all_short is_short_text member delete_expired is_used
sign_attestation-verify_example =
    sign_attestation-verify crypto verifier encode message payload payload "n-1" 1 29 20 encodes
      true [] refl refl (omega arith) (omega arith) (omega arith) refl
