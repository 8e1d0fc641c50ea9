-- ===== src/Inspection/Engine/Request.antt =====
-- inspection/engine.py: the request that the engine puts to the broker, and the broker's answer.
use ai_security_gateway.Base.{
  String, ◌&&◌, Option, none, some, [], ◌∷◌, is_set, str_eq, if◌then◌else◌,
}
use ai_security_gateway.Base.Result.{Result, ok, err, ◌>>=◌, ◌>>◌, require}
use ai_security_gateway.Broker.Models.{
  Error, AuthorizationMode, delegated, agent, AccessRequest, ReasonCode, text, tenant_required,
  request_digest_required, agent_not_registered, agent_tenant_mismatch, agent_disabled,
  tool_not_allowed_for_agent, resource_not_allowed_for_agent, mixed_authorization_context,
  autonomous_not_allowed, action_not_allowed_for_agent, delegation_context_required,
  delegation_not_found, delegation_tenant_mismatch, delegation_not_active, user_not_delegator,
  agent_not_delegated, task_not_delegated, resource_not_delegated, action_not_delegated,
  approval_not_found, approval_context_mismatch, approval_consumed, approval_expired,
  approval_denied, high_risk_action_requires_approval, approved_high_risk_action, agent_allowed,
  delegation_allowed,
}
use ai_security_gateway.Broker.World.{M}
use ai_security_gateway.Inspection.Json.{Json, null, str, Fields, member}
use ai_security_gateway.Inspection.Contracts.{Raised, other_exception}
use ai_security_gateway.Inspection.Session.{I}

-- The text of a reason code.
abbrev pub reason_text : ReasonCode → String
reason_text tenant_required = "tenant_required"
reason_text request_digest_required = "request_digest_required"
reason_text agent_not_registered = "agent_not_registered"
reason_text agent_tenant_mismatch = "agent_tenant_mismatch"
reason_text agent_disabled = "agent_disabled"
reason_text tool_not_allowed_for_agent = "tool_not_allowed_for_agent"
reason_text resource_not_allowed_for_agent = "resource_not_allowed_for_agent"
reason_text mixed_authorization_context = "mixed_authorization_context"
reason_text autonomous_not_allowed = "autonomous_not_allowed"
reason_text action_not_allowed_for_agent = "action_not_allowed_for_agent"
reason_text delegation_context_required = "delegation_context_required"
reason_text delegation_not_found = "delegation_not_found"
reason_text delegation_tenant_mismatch = "delegation_tenant_mismatch"
reason_text delegation_not_active = "delegation_not_active"
reason_text user_not_delegator = "user_not_delegator"
reason_text agent_not_delegated = "agent_not_delegated"
reason_text task_not_delegated = "task_not_delegated"
reason_text resource_not_delegated = "resource_not_delegated"
reason_text action_not_delegated = "action_not_delegated"
reason_text approval_not_found = "approval_not_found"
reason_text approval_context_mismatch = "approval_context_mismatch"
reason_text approval_consumed = "approval_consumed"
reason_text approval_expired = "approval_expired"
reason_text approval_denied = "approval_denied"
reason_text high_risk_action_requires_approval = "high_risk_action_requires_approval"
reason_text approved_high_risk_action = "approved_high_risk_action"
reason_text agent_allowed = "agent_allowed"
reason_text delegation_allowed = "delegation_allowed"

-- A field of `AccessRequest`: a value of another type does not validate.
unfoldable pub text_field : Option Json → Result Raised String
text_field none = ok ""
text_field (some (str t)) = ok t
text_field (some _) = err other_exception

unfoldable pub optional_field : Option Json → Result Raised (Option String)
optional_field none = ok none
optional_field (some null) = ok none
optional_field (some (str t)) = ok (some t)
optional_field (some _) = err other_exception

-- `identity.get("tenant_id", "")`
unfoldable pub tenant_field : Option Json → Result Raised (Option String)
tenant_field none = ok (some "")
tenant_field (some v) = optional_field (some v)

unfoldable pub mode_field : Option Json → Result Raised AuthorizationMode
mode_field none = ok delegated
mode_field (some (str t)) =
    if str_eq t "delegated"
    then ok delegated
    else if str_eq t "agent"
    then ok agent
    else err other_exception
mode_field (some _) = err other_exception

-- `AuthorizationRequest(...)` of the identity, the tool, the action, the resource and the digest.
unfoldable pub access_request :
    Fields → String → String → String → String → Result Raised AccessRequest
access_request p tool action resource digest = do
  mode ← mode_field (member "authorization_mode" p)
  tenant ← tenant_field (member "tenant_id" p)
  user ← text_field (member "user_id" p)
  agent_id ← text_field (member "agent_id" p)
  delegation ← text_field (member "delegation_id" p)
  task ← text_field (member "task_id" p)
  approval ← optional_field (member "approval_id" p)
  instance_id ← optional_field (member "agent_instance_id" p)
  require (is_set agent_id && is_set tool && is_set resource && is_set action) other_exception
  ok (record {
    authorization_mode = mode;
    tenant_id = tenant;
    user_id = user;
    agent_id = agent_id;
    agent_instance_id = instance_id;
    delegation_id = delegation;
    task_id = task;
    tool_name = tool;
    resource_id = resource;
    requested_action = action;
    approval_id = approval;
    risk_score = none;
    metadata = ("request_digest", text digest) ∷ [];
  })

abbrev pub hide : {A : Type 0} → Result Error A → Result Raised A
hide (ok a) = ok a
hide (err e) = err other_exception

-- A call of the broker. What it raises is no `InspectionError`.
unfoldable pub in_world : {File A : Type 0} → M File A → I File A
in_world m s = let (r, w) = m s.world in (hide r, record s { world = w })
