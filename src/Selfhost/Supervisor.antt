-- ===== src/Selfhost/Supervisor.antt =====
-- selfhost/supervisor.py: the control plane and the data plane as two processes. Times are numbers of
-- one unit, with the units of a second given. A tick is one turn of the loop: what it finds and the
-- readings of the clock in it.
pub mod Exits
use ai_security_gateway.Base.{
  ℕ, zero, suc, ◌+◌, ◌-◌, ◌*◌, ◌^◌, Bool, true, false, ◌&&◌, Option, none, some, List, [], ◌∷◌, leb,
  if◌then◌else◌,
}
use ai_security_gateway.Inspection.Json.{ℤ, pos, negsuc}

pub record Supervisor : Type 0 where
  pub second : ℕ
  pub max_backoff : ℕ
  pub stable_after : ℕ

-- What the loop keeps: the restarts in a row, when the control plane is due, and when it started.
pub record Planes : Type 0 where
  pub control_restarts : ℕ
  pub restart_at : Option ℕ
  pub control_started : ℕ
  pub starts : ℕ

pub record Tick : Type 0 where
  pub is_stopping : Bool
  pub dataplane_code : Option ℤ
  pub control_exited : Bool
  pub at_exit : ℕ
  pub at_schedule : ℕ
  pub at_restart : ℕ
  pub at_start : ℕ

-- `code or 1`
unfoldable pub exit_code : ℤ → ℤ
exit_code (pos zero) = pos 1
exit_code (pos (suc n)) = pos (suc n)
exit_code (negsuc n) = negsuc n

-- `min(self.max_backoff, 2 ** self.control_restarts)`
unfoldable pub backoff : Supervisor → ℕ → ℕ
backoff v k =
    let delay = 2 ^ k * v.second in if leb v.max_backoff delay then v.max_backoff else delay

-- The restarts in a row are forgotten after a stable time.
unfoldable pub restarts_at : Supervisor → Tick → Planes → ℕ
restarts_at v t s =
    if leb v.stable_after (t.at_exit - s.control_started) then 0 else s.control_restarts

abbrev pub is_none : Option ℕ → Bool
is_none none = true
is_none (some n) = false

unfoldable pub schedule : Supervisor → Tick → Planes → Planes
schedule v t s =
    if is_none s.restart_at && t.control_exited
    then record s {
      control_restarts = suc (restarts_at v t s);
      restart_at = some (t.at_schedule + backoff v (restarts_at v t s));
    }
    else s

abbrev is_due : Tick → Option ℕ → Bool
is_due t none = false
is_due t (some at) = leb at t.at_restart

unfoldable pub start_control : Tick → Planes → Planes
start_control t s =
    if is_due t s.restart_at
    then record s { restart_at = none; control_started = t.at_start; starts = suc s.starts }
    else s

unfoldable pub watch_control : Supervisor → Tick → Planes → Planes
watch_control v t s = start_control t (schedule v t s)

-- `run`, after both planes were started: the code that it returns, or `none` while it goes on.
unfoldable pub run : Supervisor → List Tick → Planes → Option ℤ × Planes
run v [] s = (none, s)
run v (t ∷ ts) s =
    let rest = run v ts (watch_control v t s) in
    if t.is_stopping
    then (some (pos 0), s)
    else elim t.dataplane_code [ some code ↦ (some (exit_code code), s) | none ↦ rest ]
