-- ===== src/Tests/BrokerData.antt =====
-- A small installation of the broker: one agent, one delegation, one approved approval.
use ai_security_gateway.Base.{ℕ, ◌*◌, String, true, false, none, some, [], ◌∷◌}
use ai_security_gateway.Broker.Models.{
  Stamp, text, medium, delegated, active, approved, AgentRecord, DelegationRecord,
  DelegationCreateRequest, AccessRequest, ApprovalRecord, ApprovalDecisionRequest,
}
use ai_security_gateway.Broker.Store.{Store}
use ai_security_gateway.Broker.Store.Snapshot.{Snapshot, sections}
use ai_security_gateway.Broker.World.{Env, World, written, in_memory, file}
use ai_security_gateway.Broker.Issue.{Broker}

abbrev pub env : Env Snapshot
env = record {
  clock = λ n. n * 1000000;
  uuid_hex = λ _. "feed";
  token_text = λ _. "secret";
  writing = λ _. written;
  write = λ s. s;
  read = λ s. some (sections s);
}

abbrev pub broker : Broker
broker = record { token_ttl_seconds = 300; approval_ttl_seconds = 300 }

abbrev pub digest : String
digest = "0123456789abcdef0123456789abcdef0123456789abcdef0123456789abcdef"

abbrev pub at : ℕ → Stamp
at n = record { micros = n * 1000000; aware = true }

abbrev pub agent_record : AgentRecord
agent_record = record {
  agent_id = "agent-1";
  tenant_id = some "tenant-a";
  owner_id = "owner";
  sponsor_id = none;
  runtime = "unknown";
  model = none;
  allow_autonomous = false;
  allowed_actions = [];
  allowed_tools = "mail" ∷ [];
  allowed_resources = "*" ∷ [];
  risk_tier = medium;
  enabled = true;
  metadata = [];
  created_at = at 0;
}

abbrev pub delegation_record : DelegationRecord
delegation_record = record {
  delegation_id = "del-1";
  tenant_id = some "tenant-a";
  user_id = "user-1";
  agent_id = "agent-1";
  task_id = "task-1";
  purpose = "demo";
  allowed_resources = "*" ∷ [];
  allowed_actions = "deploy" ∷ [];
  status = active;
  created_at = at 0;
  expires_at = at 900;
  metadata = [];
}

abbrev pub approval_record : ApprovalRecord
approval_record = record {
  authorization_mode = delegated;
  approval_id = "apv-1";
  status = approved;
  tenant_id = some "tenant-a";
  user_id = "user-1";
  agent_id = "agent-1";
  delegation_id = "del-1";
  task_id = "task-1";
  tool_name = "mail";
  resource_id = "inbox";
  requested_action = "deploy";
  agent_instance_id = none;
  request_digest = some digest;
  expires_at = some (at 300);
  consumed_at = none;
  reason = "high_risk_action_requires_approval";
  created_at = at 0;
  decided_at = none;
  approver_id = none;
  comment = none;
  metadata = [];
}

-- A deployment on the approval.
abbrev pub request : AccessRequest
request = record {
  authorization_mode = delegated;
  tenant_id = some "tenant-a";
  user_id = "user-1";
  agent_id = "agent-1";
  agent_instance_id = none;
  delegation_id = "del-1";
  task_id = "task-1";
  tool_name = "mail";
  resource_id = "inbox";
  requested_action = "deploy";
  approval_id = some "apv-1";
  risk_score = none;
  metadata = ("request_digest", text digest) ∷ [];
}

abbrev pub creation : DelegationCreateRequest
creation = record {
  delegation_id = "del-2";
  tenant_id = some "tenant-a";
  user_id = "user-1";
  agent_id = "agent-1";
  task_id = "task-2";
  purpose = "demo";
  allowed_resources = [];
  allowed_actions = [];
  ttl_seconds = 900;
  metadata = [];
}

abbrev pub by_operator : ApprovalDecisionRequest
by_operator = record { approver_id = "operator"; comment = none }

abbrev pub store : Store
store = record {
  agents = ("agent-1", agent_record) ∷ [];
  delegations = ("del-1", delegation_record) ∷ [];
  approvals = ("apv-1", approval_record) ∷ [];
  audit_events = [];
}

abbrev pub world : World Snapshot
world = record {
  backend = in_memory;
  memory = store;
  disk = none;
  nested = false;
  dirty = false;
  readings = 1;
}

abbrev pub file_world : World Snapshot
file_world = record world { backend = file }
