-- ===== src/Broker/Store.antt =====
-- access_broker/store.py, the part that every store shares: `InMemoryAccessBrokerStore`'s
-- dictionaries, and the snapshot that a file store writes and reads.
pub mod Snapshot
use ai_security_gateway.Base.{
  ℕ, zero, suc, ◌-◌, String, Option, List, [], ◌∷◌, ◌++◌, length, drop, leb, if◌then◌else◌,
}
use ai_security_gateway.Base.Dict
use ai_security_gateway.Base.Dict.{Dict}
use ai_security_gateway.Broker.Models.{
  AgentRecord, DelegationRecord, ApprovalRecord, AuditEvent, Stamp,
}

pub record Store : Type 0 where
  pub agents : Dict AgentRecord
  pub delegations : Dict DelegationRecord
  pub approvals : Dict ApprovalRecord
  pub audit_events : List AuditEvent

abbrev pub empty : Store
empty = record { agents = []; delegations = []; approvals = []; audit_events = [] }

unfoldable pub get_agent : Store → String → Option AgentRecord
get_agent s k = Dict.get k s.agents

unfoldable pub get_delegation : Store → String → Option DelegationRecord
get_delegation s k = Dict.get k s.delegations

unfoldable pub get_approval : Store → String → Option ApprovalRecord
get_approval s k = Dict.get k s.approvals

unfoldable pub with_agent : AgentRecord → Store → Store
with_agent a s = record s { agents = Dict.put a.agent_id a s.agents }

unfoldable pub with_delegation : DelegationRecord → Store → Store
with_delegation d s = record s { delegations = Dict.put d.delegation_id d s.delegations }

unfoldable pub with_approval : ApprovalRecord → Store → Store
with_approval a s = record s { approvals = Dict.put a.approval_id a s.approvals }

unfoldable pub with_event : AuditEvent → Store → Store
with_event e s = record s { audit_events = s.audit_events ++ e ∷ [] }

-- `sorted(values, key=lambda v: v.created_at, reverse=True)`: newest first, and stable, so that
-- records of one moment keep their order.
insert_newest {ℓ} : {V : Type ℓ} → (V → ℕ) → V → List V → List V
insert_newest at v [] = v ∷ []
insert_newest at v (w ∷ ws) = if leb (at w) (at v) then v ∷ w ∷ ws else w ∷ insert_newest at v ws

newest_first {ℓ} : {V : Type ℓ} → (V → ℕ) → List V → List V
unfolding insert_newest
newest_first at [] = []
newest_first at (v ∷ vs) = insert_newest at v (newest_first at vs)

pub list_agents : Store → List AgentRecord
list_agents s = newest_first (λ a. a.created_at.micros) (Dict.values s.agents)

pub list_delegations : Store → List DelegationRecord
list_delegations s = newest_first (λ d. d.created_at.micros) (Dict.values s.delegations)

pub list_approvals : Store → List ApprovalRecord
list_approvals s = newest_first (λ a. a.created_at.micros) (Dict.values s.approvals)

-- `audit_events[-limit:]` at a limit that is not negative; the slice from `-0` is the whole list.
pub list_audit_events : Store → ℕ → List AuditEvent
list_audit_events s zero = s.audit_events
list_audit_events s (suc n) = drop (length s.audit_events - suc n) s.audit_events
