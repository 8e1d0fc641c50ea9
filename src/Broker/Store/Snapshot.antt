-- ===== src/Broker/Store/Snapshot.antt =====
-- What `FileAccessBrokerStore._persist` dumps and `_load` rebuilds: the records without their keys.
use ai_security_gateway.Base.{
  String, Option, some, ◌≡◌, refl, sym, ◌∙◌, ap, Bool, true, false, ◌&&◌, List, [], ◌∷◌, ◌++◌,
  arith, str_eq, eq_iff, not,
}
use mathlib.Core.List.{append-nil, append_assoc}
use ai_security_gateway.Base.Dict
use ai_security_gateway.Base.Dict.{Dict}
use ai_security_gateway.Broker.Models.{AgentRecord, DelegationRecord, ApprovalRecord, AuditEvent}
use ai_security_gateway.Broker.Store.{Store}

pub record Snapshot : Type 0 where
  pub agents : List AgentRecord
  pub delegations : List DelegationRecord
  pub approvals : List ApprovalRecord
  pub audit_events : List AuditEvent

-- `{item[key]: item for item in items}`
unfoldable pub index_by {ℓ} : {V : Type ℓ} → (V → String) → Dict V → List V → Dict V
index_by key d [] = d
index_by key d (v ∷ vs) = index_by key (Dict.put (key v) v d) vs

unfoldable pub dump : Store → Snapshot
dump s = record {
  agents = Dict.values s.agents;
  delegations = Dict.values s.delegations;
  approvals = Dict.values s.approvals;
  audit_events = s.audit_events;
}

-- What a read of the file gives: its four lists, `none` where an item of the list does not validate.
pub record Sections : Type 0 where
  pub agents : Option (List AgentRecord)
  pub delegations : Option (List DelegationRecord)
  pub approvals : Option (List ApprovalRecord)
  pub audit_events : Option (List AuditEvent)

-- The sections of a file that holds just what was dumped.
abbrev pub sections : Snapshot → Sections
sections s = record {
  agents = some s.agents;
  delegations = some s.delegations;
  approvals = some s.approvals;
  audit_events = some s.audit_events;
}

unfoldable pub set_agents : List AgentRecord → Store → Store
set_agents xs s = record s { agents = index_by (λ a. a.agent_id) [] xs }

unfoldable pub set_delegations : List DelegationRecord → Store → Store
set_delegations xs s = record s { delegations = index_by (λ d. d.delegation_id) [] xs }

unfoldable pub set_approvals : List ApprovalRecord → Store → Store
set_approvals xs s = record s { approvals = index_by (λ a. a.approval_id) [] xs }

unfoldable pub set_events : List AuditEvent → Store → Store
set_events xs s = record s { audit_events = xs }

-- The store that the four lists make.
unfoldable pub rebuild : Snapshot → Store
unfolding index_by
rebuild s = record {
  agents = index_by (λ a. a.agent_id) [] s.agents;
  delegations = index_by (λ d. d.delegation_id) [] s.delegations;
  approvals = index_by (λ a. a.approval_id) [] s.approvals;
  audit_events = s.audit_events;
}

-- Whether a key is absent.
abbrev pub lacks {ℓ} : {V : Type ℓ} → String → Dict V → Bool
lacks k [] = true
lacks k ((j, v) ∷ d) = not (str_eq j k) && lacks k d

-- Every key is its record's own, and no key stands twice.
abbrev pub IsKeyed {ℓ} : {V : Type ℓ} → (V → String) → Dict V → Type 0
IsKeyed key [] = Unit {0}
IsKeyed key ((j, v) ∷ d) = (j ≡ key v) × (lacks j d ≡ true) × IsKeyed key d

module _ {ℓ} {V : Type ℓ} where
  put-lacks :
      (k : String) (v : V) (d : Dict V) → lacks k d ≡ true → Dict.put k v d ≡ d ++ (k, v) ∷ []
  unfolding Dict.put
  put-lacks k v [] h = refl
  put-lacks k v ((j, w) ∷ d) h = ground (arith, put-lacks k v d)

  -- No key of the second dictionary is in the first.
  abbrev Apart : Dict V → Dict V → Type 0
  Apart d [] = Unit {0}
  Apart d ((k, v) ∷ e) = (lacks k d ≡ true) × Apart d e

  lacks-append :
      (k j : String) (v : V) (d : Dict V)
      → lacks k d ≡ true
      → str_eq j k ≡ false
      → lacks k (d ++ (j, v) ∷ []) ≡ true
  lacks-append k j v [] h e = ground arith
  lacks-append k j v ((i, w) ∷ d) h e = ground (arith, lacks-append k j v d)

  Apart-append :
      (j : String) (v : V) (d e : Dict V)
      → Apart d e
      → lacks j e ≡ true
      → Apart (d ++ (j, v) ∷ []) e
  Apart-append j v d [] a h = tt
  Apart-append j v d ((k, w) ∷ e) a h = (
    lacks-append k j v d a.0 (ground (arith, eq_iff k j, eq_iff j k)),
    Apart-append j v d e a.1 (ground arith),
  )

  index_by-values :
      (key : V → String) (d e : Dict V)
      → Apart d e
      → IsKeyed key e
      → index_by key d (Dict.values e) ≡ d ++ e
  unfolding index_by Dict.values
  index_by-values key d [] a h = rw append-nil
  index_by-values key d ((k, v) ∷ e) a h =
      ap (λ (j : String). index_by key (Dict.put j v d) (Dict.values e)) (sym h.0)
      ∙ ap (λ (t : Dict V). index_by key t (Dict.values e)) (put-lacks k v d a.0)
      ∙ index_by-values key (d ++ (k, v) ∷ []) e (Apart-append k v d e a.1 h.1) h.2
      ∙ append_assoc d ((k, v) ∷ []) e

  Apart-nil : (e : Dict V) → Apart [] e
  Apart-nil [] = tt
  Apart-nil ((k, v) ∷ e) = (refl, Apart-nil e)

-- A store whose dictionaries are keyed as the code keys them.
pub record IsWellKeyed (s : Store) : Type 0 where
  pub agents : IsKeyed (λ (a : AgentRecord). a.agent_id) s.agents
  pub delegations : IsKeyed (λ (d : DelegationRecord). d.delegation_id) s.delegations
  pub approvals : IsKeyed (λ (a : ApprovalRecord). a.approval_id) s.approvals

-- Rebuilding from a dump gives back a store whose keys are its records' own and stand once, with
-- the order of its entries.
pub rebuild-dump : (s : Store) → IsWellKeyed s → rebuild (dump s) ≡ s
unfolding rebuild dump
rebuild-dump s h = λ i. record {
  agents = index_by-values (λ (a : AgentRecord). a.agent_id) [] s.agents (Apart-nil _) h.agents i;
  delegations =
      index_by-values (λ (d : DelegationRecord). d.delegation_id) [] s.delegations (Apart-nil _)
        h.delegations i;
  approvals =
      index_by-values (λ (a : ApprovalRecord). a.approval_id) [] s.approvals (Apart-nil _)
        h.approvals i;
  audit_events = s.audit_events;
}
