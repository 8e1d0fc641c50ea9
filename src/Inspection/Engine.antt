-- ===== src/Inspection/Engine.antt =====
-- inspection/engine.py: the inspection of requests (`inspect_request`), of requests that no route maps
-- in mirror mode (`_inspect_unmapped_mirror`) and of responses (`inspect_response`).
pub mod Request
pub mod Prepare
pub mod Verdicts
pub mod Response
pub mod Release
use ai_security_gateway.Base.{
  ℕ, suc, String, Bool, true, false, ◌&&◌, ◌||◌, not, Option, none, some, List, [], ◌∷◌, ◌++◌,
  contains, is_set, if◌then◌else◌,
}
use ai_security_gateway.Base.Result.{Result, ok, err}
use ai_security_gateway.Base.Exec.{Exec, pure, raise, lift, gets, ◌>>=◌, ◌>>◌}
use ai_security_gateway.Broker.Models.{AccessAction, AccessRequest, AccessDecision, ApprovalRecord}
use ai_security_gateway.Broker.World.{Env}
use ai_security_gateway.Broker.Issue.{Broker}
use ai_security_gateway.Broker.Engine.{evaluate, authorize}
use ai_security_gateway.Broker.Evaluate.{is_given}
use ai_security_gateway.Inspection.Json.{Json, str, Fields, member}
use ai_security_gateway.Inspection.Contracts.{
  Raised, inspection_error, unicode_error, other_exception, Bytes, InspectionConfig, HttpMessage,
  Mode, inline, mirror, Verdict, verdict, is_inline, Action, allow, block, redact,
  approval_required, unknown, incomplete, complete, local_policy, access_broker, PiiAction,
  PiiScope, global,
}
use ai_security_gateway.Inspection.Identity.{Crypto, AttestationVerifier, verify}
use ai_security_gateway.Inspection.Session.{
  Parts, Session, I, find, check_deadline, signatures, update, extend, refuse_if, is_empty,
}
use ai_security_gateway.Inspection.Redact.{redact_value}
use ai_security_gateway.Inspection.Engine.Request.{access_request, in_world, reason_text}
use ai_security_gateway.Inspection.Engine.Verdicts.{
  is_trusted, redacted_if, with_decision, refused, unavailable, unmapped_reasons,
}
use ai_security_gateway.Inspection.Engine.Prepare.{
  Prepared, prepare, inspect_metadata, media_type, json_media,
}

unfoldable pub detected_unmapped : Verdict → Verdict
detected_unmapped v =
    if is_empty v.entities
    then v
    else record v { action = redact; reason = "pii_detected_unmapped_context" }

unfoldable pub unmapped_verdict : InspectionConfig → String → Verdict
unmapped_verdict config reason = record (verdict unknown reason mirror) {
  coverage = incomplete;
  pii_policy_action = some config.pii_action;
  pii_policy_scope = some global;
}

module _ {File : Type 0} where
  abbrev pub handled : Result Raised (Unit {0}) → (Raised → I File (Unit {0})) → I File (Unit {0})
  handled (ok _) f s = (ok tt, s)
  handled (err e) f s = f e s

  -- `try: m` and `except`.
  unfoldable pub handle : I File (Unit {0}) → (Raised → I File (Unit {0})) → I File (Unit {0})
  handle m f s = let (r, s') = m s in handled r f s'

  unfoldable pub unmapped_failed : Raised → I File (Unit {0})
  unmapped_failed (inspection_error reason) =
      update (λ v. record v { action = block; reason = reason })
  unmapped_failed unicode_error =
      update (λ v. record v { action = unknown; reason = "inspection_unavailable" })
  unmapped_failed other_exception =
      update (λ v. record v { action = unknown; reason = "inspection_unavailable" })

module _ {File : Type 0} (env : Env File) (parts : Parts) (config : InspectionConfig)
    (crypto : Crypto) (verifier : AttestationVerifier) (broker : Option Broker) where
  -- `self.verifier.verify`, at the seconds that the clock shows.
  unfoldable pub verified : Bool → HttpMessage → I File Fields
  verified consume m s =
      let (r, rows) = verify crypto verifier consume (parts.seconds s.readings) m s.nonces in
      (r, record s { nonces = rows; readings = suc s.readings })

  unfoldable pub admit_locally : Fields → I File (Unit {0})
  admit_locally p = do
    refuse_if (not (is_trusted config p)) "untrusted_source"
    update (λ v.
        redacted_if (is_given v.body)
          (record v { source_verified = true; authorization_scope = local_policy }))

  unfoldable pub ask : Mode → Broker → AccessRequest → I File AccessDecision
  ask inline b r = in_world (authorize env b r)
  ask mirror b r = in_world (evaluate env b r)

  unfoldable pub record_decision : Mode → AccessDecision → I File (Unit {0})
  record_decision mode d =
      update (λ v. with_decision mode d (record v { authorization_scope = access_broker }))

  unfoldable pub ask_broker : Mode → Broker → AccessRequest → I File (Unit {0})
  ask_broker mode b request = do
    check_deadline parts config
    decision ← ask mode b request
    record_decision mode decision

  unfoldable pub admit_by_broker : Mode → Broker → Fields → Prepared → I File (Unit {0})
  admit_by_broker mode b p prepared = do
    update (λ v. record v { source_verified = true; identity_verified = true })
    request ← lift (
        access_request p prepared.semantics.0 prepared.semantics.1 prepared.semantics.2
          prepared.digest)
    ask_broker mode b request

  unfoldable pub admit_with : Mode → Option Broker → Fields → Prepared → I File (Unit {0})
  admit_with mode none p prepared = admit_locally p
  admit_with mode (some b) p prepared = admit_by_broker mode b p prepared

  unfoldable pub admit : Mode → HttpMessage → Prepared → I File (Unit {0})
  admit mode m prepared = do
    identity ← verified (is_inline mode) m
    admit_with mode broker identity prepared

  -- The body of the `try`.
  unfoldable pub inspect_mapped : Mode → HttpMessage → I File (Unit {0})
  inspect_mapped mode m = do prepared ← prepare parts config crypto m; admit mode m prepared

  -- The readable part of a body that no route maps, where its media type tells how to read it.
  unfoldable pub scan_unmapped : Json → I File (Unit {0})
  scan_unmapped value = do
    signatures parts config value
    lift (parts.check_egress value)
    modified ← redact_value parts config false none config.pii_action value
    update detected_unmapped

  unfoldable pub note_source : Result Raised Fields → I File (Unit {0})
  note_source (ok p) = update (λ v. record v {
    source_verified = is_given broker || is_trusted config p;
    identity_verified = is_given broker;
  })
  note_source (err (inspection_error reason)) = pure tt
  note_source (err e) = raise e

  -- The inner `try`: an identity that does not verify leaves the verdict as it is.
  unfoldable pub observe_source : HttpMessage → I File (Unit {0})
  observe_source m s = let (r, s') = verified false m s in note_source r s'

  unfoldable pub read_unmapped : HttpMessage → I File (Unit {0})
  read_unmapped m =
      if contains json_media (media_type parts m)
      then (do value ← lift (parts.strict_json m.body); scan_unmapped value; observe_source m)
      else if contains ("text/plain" ∷ []) (media_type parts m)
      then (do text ← lift (parts.decode_utf8 m.body); scan_unmapped (str text); observe_source m)
      else pure tt

  unfoldable pub unmapped_steps : HttpMessage → I File (Unit {0})
  unmapped_steps m = do
    lift (parts.validate_message m)
    inspect_metadata parts config false m
    read_unmapped m

  -- `_inspect_unmapped_mirror`
  unfoldable pub inspect_unmapped : String → HttpMessage → I File (Unit {0})
  inspect_unmapped reason m =
      update (λ _. unmapped_verdict config reason) >> handle (unmapped_steps m) unmapped_failed

  unfoldable pub recover : Mode → HttpMessage → Raised → I File (Unit {0})
  recover mode m (inspection_error reason) =
      if not (is_inline mode) && contains unmapped_reasons reason
      then inspect_unmapped reason m
      else update (refused mode reason)
  recover mode m unicode_error = update (λ _. unavailable mode)
  recover mode m other_exception = update (λ _. unavailable mode)

  -- `inspect_request`: the verdict stands in the session that is left.
  unfoldable pub inspect_request : Mode → HttpMessage → I File (Unit {0})
  inspect_request mode m =
      update (λ _. verdict allow "policy_allowed" mode)
      >> handle (inspect_mapped mode m) (recover mode m)
