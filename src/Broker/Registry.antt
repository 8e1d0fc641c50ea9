-- ===== src/Broker/Registry.antt =====
-- access_broker/broker.py: identifiers, the audit trail, and the registration of agents and
-- delegations.
pub mod Lifetimes
use Prim.Native.String.{◌++◌ as str_append}
use ai_security_gateway.Base.{String, Option}
use ai_security_gateway.Base.Dict.{Dict}
use ai_security_gateway.Base.Exec.{◌>>=◌, ◌>>◌, pure}
use ai_security_gateway.Broker.Models.{
  add_seconds, active, AgentRecord, DelegationCreateRequest, DelegationRecord, AuditEvent,
  AuditPayload, ApprovalRecord, approval_payload, agent_payload, delegation_payload,
}
use ai_security_gateway.Broker.World.{
  Env, M, utc_now, uuid, upsert_agent, create_delegation, append_audit_event, upsert_approval,
}

module _ {File : Type 0} (env : Env File) where
  -- `_id`
  unfoldable pub new_id : String → M File String
  new_id prefix = do h ← uuid env; pure (str_append prefix (str_append "_" h))

  unfoldable pub audit : String → AuditPayload → M File AuditEvent
  audit event_type payload = do
    id ← new_id "evt"
    now ← utc_now env
    append_audit_event env
        (record { event_id = id; event_type = event_type; created_at = now; payload = payload })

  unfoldable pub register_agent : AgentRecord → Option (Dict String) → M File AgentRecord
  register_agent a actor = do
    saved ← upsert_agent env a
    audit "access.agent_registered" (agent_payload saved actor)
    pure saved

  unfoldable pub create_delegation_for :
      DelegationCreateRequest → Option (Dict String) → M File DelegationRecord
  create_delegation_for p actor = do
    now ← utc_now env
    saved ← create_delegation env (record {
      delegation_id = p.delegation_id;
      tenant_id = p.tenant_id;
      user_id = p.user_id;
      agent_id = p.agent_id;
      task_id = p.task_id;
      purpose = p.purpose;
      allowed_resources = p.allowed_resources;
      allowed_actions = p.allowed_actions;
      status = active;
      created_at = now;
      expires_at = add_seconds now p.ttl_seconds;
      metadata = p.metadata;
    })
    audit "access.delegation_created" (delegation_payload saved actor)
    pure saved

  -- An approval is written and the event of that type recorded.
  unfoldable pub save_approval : String → ApprovalRecord → M File ApprovalRecord
  save_approval event_type p = do
    saved ← upsert_approval env p
    audit event_type (approval_payload saved)
    pure saved
