-- ===== src/Inspection/Engine/Verdicts.antt =====
-- inspection/engine.py: how the verdict on a request is concluded, on a decision and on a failure.
use ai_security_gateway.Base.{
  String, Bool, true, false, ◌&&◌, not, Option, none, some, List, [], ◌∷◌, contains, if◌then◌else◌,
}
use ai_security_gateway.Broker.Models.{AccessAction, AccessDecision, ApprovalRecord}
use ai_security_gateway.Broker.Evaluate.{is_given}
use ai_security_gateway.Inspection.Json.{str, Fields, member}
use ai_security_gateway.Inspection.Contracts.{
  InspectionConfig, Mode, inline, mirror, Verdict, verdict, is_inline, Action, allow, block, redact,
  approval_required, unknown, incomplete, complete,
}
use ai_security_gateway.Inspection.Session.{is_empty}
use ai_security_gateway.Inspection.Engine.Request.{reason_text}

-- `identity.get("source_id") in self.config.trusted_sources`
unfoldable pub is_trusted : InspectionConfig → Fields → Bool
is_trusted config p = elim (member "source_id" p) [
  | some (str t) ↦ contains config.trusted_sources t
  | _ ↦ false
]

abbrev pub redacted_if : Bool → Verdict → Verdict
redacted_if true v = record v { action = redact; reason = "pii_redacted" }
redacted_if false v = v

abbrev pub denied_action : AccessAction → Action
denied_action AccessAction.allow = allow
denied_action AccessAction.block = block
denied_action AccessAction.approval_required = approval_required

abbrev pub shown_approval : Mode → Option ApprovalRecord → Option String → Option String
shown_approval inline (some p) old = some p.approval_id
shown_approval inline none old = old
shown_approval mirror p old = old

-- The broker's decision in the verdict.
unfoldable pub with_decision : Mode → AccessDecision → Verdict → Verdict
with_decision mode d v = elim d.action [
  | AccessAction.allow ↦ redacted_if (is_given v.body) v
  | a ↦ record v {
    action = denied_action a;
    reason = reason_text d.reason_code;
    body = none;
    approval_id = shown_approval mode d.approval v.approval_id;
  }
]

-- The reasons that leave a request's inspection incomplete.
abbrev pub uncertain_reasons : List String
uncertain_reasons =
    "incomplete_capture" ∷ "body_limit_exceeded" ∷ "invalid_json" ∷ "unsupported_content_encoding"
    ∷ "unsupported_request_media_type" ∷ "untrusted_or_mismatched_identity" ∷ "unmapped_route"
    ∷ "unmapped_tool" ∷ "inspection_deadline" ∷ "signature_timeout" ∷ []

abbrev pub unmapped_reasons : List String
unmapped_reasons = "unmapped_route" ∷ "unmapped_tool" ∷ "unmapped_http_action" ∷ []

abbrev pub refused_action : Mode → Bool → Action
refused_action inline uncertain = block
refused_action mirror uncertain = if uncertain then unknown else block

-- What a mirror shows where data were found and the identity was not verified.
abbrev pub detected_if : Bool → Verdict → Verdict
detected_if true v = record v { action = redact; reason = "pii_detected_identity_unverified" }
detected_if false v = v

unfoldable pub refused : Mode → String → Verdict → Verdict
refused mode reason v =
    let uncertain = contains uncertain_reasons reason in
    record (detected_if
      (not (is_inline mode)
        && not (is_empty v.entities)
        && contains ("untrusted_or_mismatched_identity" ∷ []) reason)
      (record v {
        action = refused_action mode uncertain;
        reason = reason;
        coverage = if uncertain then incomplete else complete;
      })) { body = none }

-- The verdict where the scanner, the broker or anything else fails.
unfoldable pub unavailable : Mode → Verdict
unavailable mode =
    record (verdict (if is_inline mode then block else unknown) "inspection_unavailable" mode) {
      coverage = incomplete;
    }
