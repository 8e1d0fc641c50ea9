-- ===== src/Broker/Spent.antt =====
-- A bound approval clears one request: once it is used it is stored as used, whatever is done later.
use ai_security_gateway.Base.{ℕ, suc, ◌≤◌, String, ◌≡◌, ◌≢◌, true, some, arith, eq_iff}
use ai_security_gateway.Base.Dict.{get-put}
use ai_security_gateway.Base.Exec.Preserves.{
  Preserves, pure-Preserves, raise-Preserves, lift-Preserves, gets-Preserves, if-Preserves,
  bind-Preserves,
}
use ai_security_gateway.Broker.Models.{ApprovalRecord}
use ai_security_gateway.Broker.Store.{Store, get_approval, with_approval, with_event}
use ai_security_gateway.Broker.World.{
  Env, World, M, utc_now, uuid, urlsafe_token, write_store, transaction, append_audit_event,
}
use ai_security_gateway.Broker.Evaluate.{is_given}
use ai_security_gateway.Broker.Registry.{new_id, audit}
use ai_security_gateway.Broker.Engine.Held.{held, transaction-held}

-- The approval stored under this key was bound to a request and used.
abbrev pub IsUsed : String → Store → Type 0
IsUsed k s =
    (p : ApprovalRecord) × (get_approval s k ≡ some p)
    × (is_given p.request_digest ≡ true)
    × (is_given p.consumed_at ≡ true)

-- Every approval is stored under its own identifier.
abbrev pub IsKeyed : Store → Type 0
IsKeyed s = (k : String) (p : ApprovalRecord) → get_approval s k ≡ some p → p.approval_id ≡ k

-- The approval under the key is used, for good: the world is held, the approvals are keyed, and the
-- readings are past the start.
pub record IsSpent {File : Type 0} (k : String) (start : ℕ) (w : World File) : Type 0 where
  pub held_by : held w ≡ true
  pub later : start ≤ w.readings
  pub keyed : IsKeyed w.memory
  pub spent : IsUsed k w.memory

module _ {File : Type 0} {k : String} {start : ℕ} where
  -- The clock goes on.
  pub ticked-IsSpent :
      (n : ℕ) (w : World File)
      → IsSpent k start w
      → w.readings ≤ n
      → IsSpent k start (record w { readings = n })
  ticked-IsSpent n w h l = record {
    held_by = h.held_by;
    later = omega (arith, h.later);
    keyed = h.keyed;
    spent = h.spent;
  }

  -- A write that keeps the approvals keyed and this one used.
  written-IsSpent :
      (s : Store) (w : World File)
      → IsSpent k start w
      → IsKeyed s
      → IsUsed k s
      → IsSpent k start (record w { memory = s; dirty = true })
  written-IsSpent s w h keyed used = record {
    held_by = h.held_by;
    later = h.later;
    keyed = keyed;
    spent = used;
  }

pub with_approval-IsKeyed :
    (p : ApprovalRecord) (s : Store) → IsKeyed s → IsKeyed (with_approval p s)
unfolding get_approval with_approval
with_approval-IsKeyed p s h k q e =
    ground (arith, get-put p.approval_id k p s.approvals, h k q, eq_iff p.approval_id k)

pub with_approval-IsUsed :
    (k : String) (p : ApprovalRecord) (s : Store)
    → p.approval_id ≢ k
    → IsUsed k s
    → IsUsed k (with_approval p s)
unfolding get_approval with_approval
with_approval-IsUsed k p s n (q, e, d, u) =
    (q, ground (arith, get-put p.approval_id k p s.approvals, eq_iff p.approval_id k), d, u)

module _ {File : Type 0} (env : Env File) (k : String) (start : ℕ) where
  abbrev pub Keeps : {A : Type 0} → M File A → Type 0
  Keeps m = Preserves (IsSpent k start) m

  pub utc_now-Keeps : Keeps (utc_now env)
  unfolding utc_now
  utc_now-Keeps = record { after = λ w h. ticked-IsSpent (suc w.readings) w h (omega arith) }

  pub uuid-Keeps : Keeps (uuid env)
  unfolding uuid
  uuid-Keeps = record { after = λ w h. ticked-IsSpent (suc w.readings) w h (omega arith) }

  pub urlsafe_token-Keeps : Keeps (urlsafe_token env)
  unfolding urlsafe_token
  urlsafe_token-Keeps = record { after = λ w h. ticked-IsSpent (suc w.readings) w h (omega arith) }

  pub transaction-Keeps : {A : Type 0} (m : M File A) → Keeps m → Keeps (transaction env m)
  transaction-Keeps m p = record {
    after = λ w h. rw (transaction-held env m w h.held_by) (p.after w h);
  }

  pub write_store-Keeps :
      (f : Store → Store)
      → ((s : Store) → IsKeyed s → IsUsed k s → IsKeyed (f s) × IsUsed k (f s))
      → Keeps (write_store env f)
  write_store-Keeps f keep = record {
    after =
        λ w h. let (a, b) = keep w.memory h.keyed h.spent in written-IsSpent (f w.memory) w h a b;
  }

  pub ruleset rules = (
    bind-Preserves, pure-Preserves, raise-Preserves, lift-Preserves, gets-Preserves, if-Preserves,
    transaction-Keeps, utc_now-Keeps, uuid-Keeps, urlsafe_token-Keeps,
  )

  append_audit_event-Keeps : (v : _) → Keeps (append_audit_event env v)
  unfolding append_audit_event with_event get_approval
  append_audit_event-Keeps v =
      transaction-Keeps _ (
        bind-Preserves (write_store-Keeps (with_event v) (λ s a b. (a, b))) (λ _. pure-Preserves v))

  pub new_id-Keeps : (prefix : String) → Keeps (new_id env prefix)
  unfolding new_id
  new_id-Keeps prefix = search rules

  pub audit-Keeps : (t : String) (p : _) → Keeps (audit env t p)
  unfolding audit
  audit-Keeps t p = search (rules, new_id-Keeps, append_audit_event-Keeps)
