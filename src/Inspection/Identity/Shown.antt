-- ===== src/Inspection/Identity/Shown.antt =====
-- inspection/identity.py: what the header of an accepted attestation shows.
use ai_security_gateway.Base.{
  split, ℕ, String, ◌≡◌, false, Option, none, some, List, [], ◌∷◌, arith, ap, subst,
}
use ai_security_gateway.Base.Dict
use ai_security_gateway.Base.Dict.{Dict}
use ai_security_gateway.Inspection.Json.{
  Json, null, bool, float, arr, str, int, obj, Fields, member, ℤ, pos, lebℤ,
}
use ai_security_gateway.Inspection.Contracts.{HttpMessage}
use ai_security_gateway.Inspection.Identity.{
  Crypto, AttestationVerifier, Attested, in_time, timely, nonce_of, check_payload, check_signed,
  attestation, check_decoded, check_parts, check_header,
}

-- The payload that an attestation header carries, its signature unchecked.
unfoldable pub object : Option Json → Option Fields
object (some (obj p)) = some p
object _ = none

unfoldable pub parts_fields : Crypto → List String → Option Fields
parts_fields c (encoded ∷ signature ∷ []) = object (c.payload encoded)
parts_fields c _ = none

unfoldable pub signed_fields : Crypto → Option String → Option Fields
signed_fields c none = none
signed_fields c (some h) = parts_fields c (split b'.' h)

pub record Shows (now : ℕ) (p : Fields) (a : Attested) : Type 0 where
  pub payload : p ≡ a.payload
  pub nonce : nonce_of p ≡ some a.nonce
  pub expires : member "expires_at" p ≡ some (int a.expires)
  pub alive : lebℤ a.expires (pos now) ≡ false

timely-some :
    (max_age now : ℕ) (i x : Option Json) (e : ℤ)
    → timely max_age now i x ≡ some e
    → (x ≡ some (int e)) × (lebℤ e (pos now) ≡ false)
unfolding timely in_time
timely-some max_age now i x e h = ground arith

module _ (crypto : Crypto) (verifier : AttestationVerifier) where
  check_payload-Shows :
      (now : ℕ) (m : HttpMessage) (p : Fields) (a : Attested)
      → check_payload crypto verifier now m p ≡ some a
      → Shows now p a
  unfolding check_payload
  check_payload-Shows now m p a h = ground (
    arith,
    timely-some verifier.max_age now (member "issued_at" p) (member "expires_at" p) a.expires,
  )

  check_decoded-Shows :
      (now : ℕ) (m : HttpMessage) (j : Option Json) (a : Attested)
      → check_decoded crypto verifier now m j ≡ some a
      → (object j ≡ some a.payload) × Shows now a.payload a
  unfolding check_decoded object
  check_decoded-Shows now m (some (obj p)) a h =
      let shows = check_payload-Shows now m p a h in
      (ap some shows.payload, subst (λ q. Shows now q a) shows.payload shows)
  check_decoded-Shows now m none a h = cc
  check_decoded-Shows now m (some null) a h = cc
  check_decoded-Shows now m (some (bool b)) a h = cc
  check_decoded-Shows now m (some (int i)) a h = cc
  check_decoded-Shows now m (some (float f)) a h = cc
  check_decoded-Shows now m (some (str t)) a h = cc
  check_decoded-Shows now m (some (arr xs)) a h = cc

  check_parts-Shows :
      (now : ℕ) (m : HttpMessage) (ts : List String) (a : Attested)
      → check_parts crypto verifier now m ts ≡ some a
      → (parts_fields crypto ts ≡ some a.payload) × Shows now a.payload a
  unfolding check_parts check_signed parts_fields
  check_parts-Shows now m [] a h = cc
  check_parts-Shows now m (t ∷ []) a h = cc
  check_parts-Shows now m (t ∷ s ∷ []) a h =
      check_decoded-Shows now m (crypto.payload t) a (ground arith)
  check_parts-Shows now m (t ∷ s ∷ u ∷ us) a h = cc

  pub attestation-Shows :
      (now : ℕ) (m : HttpMessage) (a : Attested)
      → attestation crypto verifier now m ≡ some a
      → (signed_fields crypto (Dict.get "x-td-attestation" m.headers) ≡ some a.payload)
        × Shows now a.payload a
  unfolding attestation check_header signed_fields
  attestation-Shows now m a h = header-Shows (Dict.get "x-td-attestation" m.headers) h
    where
      header-Shows :
          (o : Option String)
          → check_header crypto verifier now m o ≡ some a
          → (signed_fields crypto o ≡ some a.payload) × Shows now a.payload a
      header-Shows none g = cc
      header-Shows (some t) g = check_parts-Shows now m (split b'.' t) a g
