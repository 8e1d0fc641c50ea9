-- ===== src/Broker/Engine/Held.antt =====
-- Operations inside a transaction, or on a store in memory: the world is held by the caller, so that
-- the inner transactions add nothing, and each step computes.
use ai_security_gateway.Base.{ℕ, suc, String, ◌≡◌, Bool, true, arith}
use ai_security_gateway.Base.Result.{ok}
use ai_security_gateway.Broker.Models.{
  Stamp, AuditEvent, AuditPayload, ApprovalRecord, approval_payload,
}
use ai_security_gateway.Broker.Store.{with_event, with_approval}
use ai_security_gateway.Broker.World.{
  Env, World, M, in_memory, file, utc_now, uuid, transaction, append_audit_event, upsert_approval,
}
use ai_security_gateway.Broker.Registry.{new_id, audit, save_approval}
use Prim.Native.String.{◌++◌ as str_append}

-- The store is in memory, or a transaction of the file store is open.
abbrev pub held : {File : Type 0} → World File → Bool
held w = elim w.backend [ in_memory ↦ true | file ↦ w.nested ]

module _ {File : Type 0} (env : Env File) where
  abbrev pub moment : ℕ → Stamp
  moment n = record { micros = env.clock n; aware = true }

  abbrev pub id_at : String → ℕ → String
  id_at prefix n = str_append prefix (str_append "_" (env.uuid_hex n))

  abbrev pub event_at : String → AuditPayload → ℕ → AuditEvent
  event_at event_type payload n = record {
    event_id = id_at "evt" n;
    event_type = event_type;
    created_at = moment (suc n);
    payload = payload;
  }

  -- The world after an event is appended to the trail.
  abbrev pub recorded : String → AuditPayload → World File → World File
  recorded event_type payload w = record w {
    memory = with_event (event_at event_type payload w.readings) w.memory;
    dirty = true;
    readings = suc (suc w.readings);
  }

  pub transaction-held :
      {A : Type 0} (m : M File A) (w : World File) → held w ≡ true → transaction env m w ≡ m w
  unfolding transaction
  transaction-held m w h = ground arith

  pub audit-held :
      (event_type : String) (payload : AuditPayload) (w : World File)
      → held w ≡ true
      → audit env event_type payload w
        ≡ (ok (event_at event_type payload w.readings), recorded event_type payload w)
  unfolding audit new_id uuid utc_now append_audit_event
  audit-held event_type payload w h = ground arith

  pub upsert_approval-held :
      (p : ApprovalRecord) (w : World File)
      → held w ≡ true
      → upsert_approval env p w
        ≡ (ok p, record w { memory = with_approval p w.memory; dirty = true })
  unfolding upsert_approval
  upsert_approval-held p w h = ground arith

  -- The world after an approval is written and recorded.
  abbrev pub approval_written : String → ApprovalRecord → World File → World File
  approval_written event_type p w =
      recorded event_type (approval_payload p)
        (record w { memory = with_approval p w.memory; dirty = true })

  pub save_approval-held :
      (event_type : String) (p : ApprovalRecord) (w : World File)
      → held w ≡ true
      → save_approval env event_type p w ≡ (ok p, approval_written event_type p w)
  unfolding save_approval
  save_approval-held event_type p w h = ground (
    arith,
    upsert_approval-held p w h,
    audit-held event_type (approval_payload p)
        (record w { memory = with_approval p w.memory; dirty = true }),
  )
