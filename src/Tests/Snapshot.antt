-- ===== src/Tests/Snapshot.antt =====
-- The theorems of the policy snapshots at concrete inputs: the files hold the values themselves, and the
-- signature is a fixed text.
use ai_security_gateway.Base.{String, ◌≡◌, refl, false, Option, none, some, [], ◌∷◌, str_eq}
use ai_security_gateway.Inspection.Json.{Json, str}
use ai_security_gateway.Selfhost.Snapshot.{Tools, PrivateKey, PublicKey, Directory}
use ai_security_gateway.Selfhost.Snapshot.Publish.{
  both_written, current_failed, publish, new_payload, new_envelope,
}
use ai_security_gateway.Selfhost.Snapshot.RoundTrip.{Laws, Outcome, publish-Outcome}
use ai_security_gateway.Selfhost.Snapshot.Revisions.{
  Publication, publish_all, file_at, publish_all-file_at,
}

abbrev text_in : Json → Option String
text_in (str t) = some t
text_in _ = none

abbrev text_or_empty : Json → String
text_or_empty (str t) = t
text_or_empty _ = ""

abbrev tools : Tools Json String String
tools = record {
  loads = λ j. some j;
  canonical = λ j. j;
  size = λ j. 100;
  encode_base64 = text_or_empty;
  decode_base64 = λ t. some (str t);
  same = λ a b. str_eq (text_or_empty a) (text_or_empty b);
  float_is = λ t n. false;
  str_of = text_or_empty;
  connection_digest = λ d. d;
  dump_deployment = str;
  deployment_of = text_in;
  dump_policy = str;
  policy_of = text_in;
}

abbrev signing_key : PrivateKey Json
signing_key = record { sign = λ j. str "signed"; key_id = "key-1" }

abbrev trusted_key : PublicKey Json
trusted_key = record { verify = λ s j. str_eq (text_or_empty s) "signed"; key_id = "key-1" }

abbrev laws : Laws tools signing_key trusted_key
laws = record {
  sorted = λ fs. fs;
  value = λ j. j;
  value_str = λ t. refl;
  value_int = λ z. refl;
  value_obj = λ fs. refl;
  member_sorted = λ k fs j e. e;
  loads_canonical = λ fs. refl;
  canonical_sorted = λ fs. refl;
  deployment_dump = λ d. refl;
  policy_dump = λ p. refl;
  base64 = λ r. refl;
  verify_sign = λ r. refl;
}

abbrev first_envelope : Json
first_envelope =
    new_envelope tools signing_key
      (new_payload tools signing_key "notes" (str "open") "2026-01-01" 1)

abbrev after_first : Directory Json
after_first = record { current = some first_envelope; history = (1, first_envelope) ∷ [] }

publish-Outcome_example :
    Outcome tools signing_key trusted_key laws "notes"
      (str "closed")
      "2026-01-02"
      after_first
      (publish tools signing_key both_written "2026-01-02" "notes" (str "closed") after_first)
publish-Outcome_example =
    publish-Outcome tools signing_key trusted_key laws both_written "2026-01-02" "notes"
      (str "closed") after_first

abbrev interrupted : Publication String
interrupted = record {
  writes = current_failed;
  created_at = "2026-01-02";
  deployment = "notes";
  policy = str "closed";
}

publish_all-file_at_example :
    file_at 1
      (publish_all tools signing_key
        (interrupted ∷ record interrupted { writes = both_written } ∷ [])
        after_first).history
    ≡ some first_envelope
unfolding file_at
publish_all-file_at_example =
    publish_all-file_at tools signing_key
      (interrupted ∷ record interrupted { writes = both_written } ∷ []) after_first 1 first_envelope
      refl
