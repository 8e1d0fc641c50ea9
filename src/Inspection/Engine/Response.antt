-- ===== src/Inspection/Engine/Response.antt =====
-- inspection/engine.py: the inspection of responses (`inspect_response`). The redaction of event streams
-- (`_redact_sse`) and the test for a provider's timestamps (llm.py) are parameters here: the modules
-- Sse.Redacted and Llm have them.
pub mod Closed
use ai_security_gateway.Base.{
  String, Bool, true, false, ◌&&◌, ◌||◌, not, Option, none, some, List, [], ◌∷◌, contains,
  if◌then◌else◌,
}
use ai_security_gateway.Base.Result.{Result, ok, err}
use ai_security_gateway.Base.Exec.{Exec, pure, raise, lift, gets, ◌>>=◌, ◌>>◌}
use ai_security_gateway.Broker.Evaluate.{is_given}
use ai_security_gateway.Inspection.Json.{Json, str, obj, Fields, end, field}
use ai_security_gateway.Inspection.Contracts.{
  Raised, inspection_error, unicode_error, other_exception, Bytes, InspectionConfig, HttpMessage,
  RouteRule, Mode, inline, mirror, Verdict, verdict, is_inline, Action, allow, block, redact,
  unknown, incomplete, complete, PiiAction, PiiScope,
}
use ai_security_gateway.Inspection.Session.{
  Parts, Session, Finding, I, find, signatures, types, update, extend, refuse_if, is_empty,
}
use ai_security_gateway.Inspection.Redact.{json_eq, mask, is_block, redact_value}
use ai_security_gateway.Inspection.Engine.Prepare.{
  bytes_eq, pii_policy, inspect_metadata, media_type, json_media, encode_changed,
}

abbrev pub provider_of : Option RouteRule → Option String
provider_of none = none
provider_of (some r) = r.llm_provider

unfoldable pub append_fields : Fields → Fields → Fields
append_fields end gs = gs
append_fields (field k v fs) gs = field k v (append_fields fs gs)

-- `modified.update(timestamps)`, where no timestamp is a key of the other.
unfoldable pub restore : Json → Fields → Json
restore (obj fs) ts = obj (append_fields fs ts)
restore v ts = v

-- The reasons that complete a response's inspection.
abbrev pub complete_reasons : List String
complete_reasons =
    "pii_block_policy" ∷ "secret_detected" ∷ "suspicious_instruction" ∷ "pii_in_http_header"
    ∷ "pii_in_structural_field" ∷ "pii_in_numeric_field" ∷ "pii_in_sse_metadata"
    ∷ "pii_in_sse_structural_field" ∷ "pii_in_nonredactable_field" ∷ []

unfoldable pub response_refused : Mode → String → Verdict → Verdict
response_refused mode reason v =
    let detected = contains complete_reasons reason in
    record (verdict (if is_inline mode || detected then block else unknown) reason mode) {
      entities = v.entities;
      coverage = if detected then complete else incomplete;
      pii_policy_action = v.pii_policy_action;
      pii_policy_scope = v.pii_policy_scope;
    }

unfoldable pub response_unavailable : Mode → Verdict → Verdict
response_unavailable mode v =
    record (verdict (if is_inline mode then block else unknown) "inspection_unavailable" mode) {
      coverage = incomplete;
      pii_policy_action = v.pii_policy_action;
      pii_policy_scope = v.pii_policy_scope;
    }

unfoldable pub response_failed : Mode → Raised → Verdict → Verdict
response_failed mode (inspection_error reason) v = response_refused mode reason v
response_failed mode unicode_error v = response_refused mode "invalid_utf8" v
response_failed mode other_exception v = response_unavailable mode v

-- The route, where it is known; an exception other than `InspectionError` is let through.
unfoldable pub known_route : Result Raised RouteRule → Result Raised (Option RouteRule)
known_route (ok r) = ok (some r)
known_route (err (inspection_error reason)) = ok none
known_route (err e) = err e

-- The policy that the caller gives, or the configured one.
unfoldable pub response_policy :
    InspectionConfig
    → Option RouteRule
    → Option PiiAction
    → Option PiiScope
    → PiiAction × Option PiiScope
response_policy config r (some action) scope = (action, scope)
response_policy config r none scope =
    let (action, configured) = pii_policy config r none in (action, some configured)

module _ {File : Type 0} (parts : Parts) (config : InspectionConfig)
    (redact_sse : Bytes → PiiAction → Option String → I File Bytes)
    (is_timestamp : Json → Json → String → Option String → Bool) where
  -- The fields that are timestamps, or the others.
  unfoldable pub select : Bool → Json → Option String → Fields → Fields
  select wanted whole provider end = end
  select wanted whole provider (field k v fs) =
      let rest = select wanted whole provider fs in
      if is_timestamp v whole k provider
      then (if wanted then field k v rest else rest)
      else if wanted
      then rest
      else field k v rest

  unfoldable pub timestamps : Json → Option String → Fields
  timestamps (obj fs) provider = select true (obj fs) provider fs
  timestamps _ provider = end

  unfoldable pub scan_value : Json → Option String → Json
  scan_value (obj fs) provider = obj (select false (obj fs) provider fs)
  scan_value v provider = v

  unfoldable pub check_llm_response : Json → Option RouteRule → I File (Unit {0})
  check_llm_response value none = pure tt
  check_llm_response value (some r) =
      if is_given r.llm_provider then lift (parts.validate_llm value r true) else pure tt

  unfoldable pub redact_json_response : PiiAction → Option RouteRule → Bytes → Json → I File Bytes
  redact_json_response action r original value = do
    signatures parts config value
    check_llm_response value r
    let provider = provider_of r
    let scanned = scan_value value provider
    modified ← redact_value parts config (is_given provider) none action scanned
    if json_eq modified scanned
        then pure original
        else lift (parts.encode_json (restore modified (timestamps value provider)))

  unfoldable pub mask_response : PiiAction → String → List Finding → I File Bytes
  mask_response action text found =
      if not (is_empty found) && is_block action
      then raise (inspection_error "pii_block_policy")
      else lift (parts.encode_utf8 (mask text found))

  unfoldable pub redact_text_response : PiiAction → String → I File Bytes
  redact_text_response action text = do
    signatures parts config (str text)
    found ← find parts config text
    extend (types found)
    mask_response action text found

  -- The new body, by the media type.
  unfoldable pub redact_response : PiiAction → Option RouteRule → HttpMessage → I File Bytes
  redact_response action r m =
      if contains json_media (media_type parts m)
      then (do value ← lift (parts.strict_json m.body); redact_json_response action r m.body value)
      else if contains ("text/event-stream" ∷ []) (media_type parts m)
      then redact_sse m.body action (provider_of r)
      else if contains ("text/plain" ∷ []) (media_type parts m)
      then (do text ← lift (parts.decode_utf8 m.body); redact_text_response action text)
      else raise (inspection_error "unsupported_response_media_type")

  abbrev pub replaced_if : Bool → Bytes → Verdict → Verdict
  replaced_if true body v = record v {
    action = redact;
    reason = "response_pii_redacted";
    body = some body;
  }
  replaced_if false body v = v

  -- The body of the `try`.
  unfoldable pub response_steps : PiiAction → Option RouteRule → HttpMessage → I File (Unit {0})
  response_steps action r m = do
    lift (parts.validate_message m)
    inspect_metadata parts config true m
    if is_empty m.body then pure tt else (do
      body ← redact_response action r m
      update (replaced_if (not (bytes_eq body m.body)) body))

  unfoldable pub conclude_response : Mode → Result Raised (Unit {0}) → I File (Unit {0})
  conclude_response mode (ok u) = pure u
  conclude_response mode (err e) = update (response_failed mode e)

  unfoldable pub inspect_known :
      Mode → Option RouteRule → PiiAction × Option PiiScope → HttpMessage → I File (Unit {0})
  inspect_known mode r (action, scope) m s =
      let start = record (verdict allow "response_clean" mode) {
        pii_policy_action = some action;
        pii_policy_scope = scope;
      } in
      let (done, s') = response_steps action r m (record s { verdict = start }) in
      conclude_response mode done s'

  -- `inspect_response`: the verdict stands in the session that is left.
  unfoldable pub inspect_response :
      Mode → Option PiiAction → Option PiiScope → HttpMessage → I File (Unit {0})
  inspect_response mode action scope m = do
    r ← lift (known_route (parts.route_for m))
    inspect_known mode r (response_policy config r action scope) m
