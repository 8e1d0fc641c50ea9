-- ===== src/Broker/World.antt =====
-- What a broker runs in (access_broker/store.py): its store in memory, the snapshot file of a
-- file store, and what it takes from outside, which is the clock, fresh identifiers, the file
-- format and whether a write succeeds. `InMemoryAccessBrokerStore` and `FileAccessBrokerStore`
-- are the two backends. The locks serialise the calls: a call is one step of the model.
pub mod Transactions
use ai_security_gateway.Base.{
  ℕ, suc, ◌+◌, String, Bool, true, false, Option, none, some, if◌then◌else◌,
}
use ai_security_gateway.Base.Result.{Result, ok, err}
use ai_security_gateway.Base.Exec.{Exec, pure, raise, ◌>>=◌, ◌>>◌, gets, continue_with}
use ai_security_gateway.Broker.Models.{
  Error, value_error, os_error, Stamp, AgentRecord, DelegationRecord, ApprovalRecord, AuditEvent,
}
use ai_security_gateway.Broker.Store.{
  Store, with_agent, with_delegation, with_approval, with_event, empty,
}
use ai_security_gateway.Broker.Store.Snapshot.{
  Snapshot, Sections, dump, set_agents, set_delegations, set_approvals, set_events,
}

-- How a write of the snapshot file ends: the temporary file replaces the old one or it does not,
-- and the directory's `fsync` may fail after that.
pub data Writing : Type 0 where
  written failed_before_replace failed_after_replace : Writing

-- What the code calls and does not define. Each reading has a number of its own.
pub record Env (File : Type 0) : Type 0 where
  pub clock : ℕ → ℕ
  pub uuid_hex : ℕ → String
  pub token_text : ℕ → String
  pub writing : ℕ → Writing
  pub write : Snapshot → File
  pub read : File → Option Sections

pub data Backend : Type 0 where
  in_memory file : Backend

pub record World (File : Type 0) : Type 0 where
  pub backend : Backend
  pub memory : Store
  pub disk : Option File
  pub nested : Bool
  pub dirty : Bool
  pub readings : ℕ

abbrev pub M : Type 0 → Type 0 → Type 0
M File A = Exec Error (World File) A

module _ {File : Type 0} (env : Env File) where
  -- utc_now()
  unfoldable pub utc_now : M File Stamp
  utc_now w = (
    ok (record { micros = env.clock w.readings; aware = true }),
    record w { readings = suc w.readings },
  )

  -- `uuid4().hex[:12]`
  unfoldable pub uuid : M File String
  uuid w = (ok (env.uuid_hex w.readings), record w { readings = suc w.readings })

  -- `token_urlsafe(12)`
  unfoldable pub urlsafe_token : M File String
  urlsafe_token w = (ok (env.token_text w.readings), record w { readings = suc w.readings })

  -- One section of the file is put in memory; one that does not validate raises.
  unfoldable pub assign : {A : Type 0} → (A → Store → Store) → Option A → M File (Unit {0})
  assign f none w = (err value_error, w)
  assign f (some xs) w = (ok tt, record w { memory = f xs w.memory })

  unfoldable pub fill : Sections → M File (Unit {0})
  unfolding assign
  fill raw = do
    assign set_agents raw.agents
    assign set_delegations raw.delegations
    assign set_approvals raw.approvals
    assign set_events raw.audit_events

  -- FileAccessBrokerStore._load
  unfoldable pub load : M File (Unit {0})
  unfolding fill
  load w = elim w.disk [
    | none ↦ (ok tt, record w { memory = empty })
    | some f ↦ elim (env.read f) [ none ↦ (err value_error, w) | some raw ↦ fill raw w ]
  ]

  -- FileAccessBrokerStore._persist
  unfoldable pub persist : M File (Unit {0})
  persist w =
      let next = record w { readings = suc w.readings } in
      let stored = record next { disk = some (env.write (dump w.memory)) } in
      elim (env.writing w.readings) [
        | written ↦ (ok tt, stored)
        | failed_before_replace ↦ (err os_error, next)
        | failed_after_replace ↦ (err os_error, stored)
      ]

  abbrev close : {A : Type 0} → Result Error A × World File → Result Error A × World File
  close (r, w) = (r, record w { nested = false; dirty = false })

  -- `except BaseException: self._load(); raise`
  roll_back : {A : Type 0} → Error → M File A
  roll_back e = do load; raise e

  -- The end of the block: `if self._dirty: self._persist()`, with its `except` and its `finally`.
  settle : {A : Type 0} → Result Error A × World File → Result Error A × World File
  unfolding roll_back
  settle (ok a, w) =
      if w.dirty
      then elim (persist w).0 [
        | ok _ ↦ close (ok a, (persist w).1)
        | err e ↦ close (roll_back e (persist w).1)
      ]
      else close (ok a, w)
  settle (err e, w) = close (roll_back e w)

  outermost : {A : Type 0} → M File A → M File A
  unfolding settle
  outermost m w = elim (load w).0 [
    | ok _ ↦ settle (m (record (load w).1 { nested = true; dirty = false }))
    | err e ↦ (err e, (load w).1)
  ]

  -- `with self.store.transaction():`
  unfoldable pub transaction : {A : Type 0} → M File A → M File A
  unfolding outermost
  transaction m w = elim w.backend [
    | in_memory ↦ m w
    | file ↦ if w.nested then m w else outermost m w
  ]

  -- `with self.store.read_transaction():`
  unfoldable pub read_transaction : {A : Type 0} → M File A → M File A
  read_transaction m w = elim w.backend [
    | in_memory ↦ m w
    | file ↦ if w.nested then m w else (do load; m) w
  ]

  -- A write of the store. Only a file store reads the mark that it leaves.
  abbrev pub write_store : (Store → Store) → M File (Unit {0})
  write_store f w = (ok tt, record w { memory = f w.memory; dirty = true })

  unfoldable pub upsert_agent : AgentRecord → M File AgentRecord
  unfolding transaction
  upsert_agent a = transaction (do write_store (with_agent a); pure a)

  unfoldable pub create_delegation : DelegationRecord → M File DelegationRecord
  unfolding transaction
  create_delegation d = transaction (do write_store (with_delegation d); pure d)

  unfoldable pub upsert_approval : ApprovalRecord → M File ApprovalRecord
  unfolding transaction
  upsert_approval a = transaction (do write_store (with_approval a); pure a)

  unfoldable pub append_audit_event : AuditEvent → M File AuditEvent
  unfolding transaction
  append_audit_event e = transaction (do write_store (with_event e); pure e)
