-- ===== src/Tests/Selfhost.antt =====
-- The self-hosted gateway's theorems at concrete inputs.
use ai_security_gateway.Base.{
  String, ◌≡◌, refl, true, false, none, some, List, [], ◌∷◌, arith, ℕ, ◌+◌, Bool,
}
use ai_security_gateway.Base.Result.{ok}
use ai_security_gateway.Selfhost.AgentCredentials.{
  AgentCredentials, Credential, authenticate, revoke, has_row, is_row, revoke_row,
}
use ai_security_gateway.Selfhost.AgentCredentials.Revoked.{
  issues, revokes, run, is_only_of, has_digest, revoke-forever,
}
use ai_security_gateway.Selfhost.InspectorPool.{Worker, Probe, Pool, monitor}
use ai_security_gateway.Selfhost.InspectorPool.Bounds.{
  Misses, Restarts, monitor-fails, monitor-Restarts,
}
use ai_security_gateway.Inspection.Json.{pos}
use ai_security_gateway.Selfhost.Supervisor.{Supervisor, Planes, Tick, run as run_planes}
use ai_security_gateway.Selfhost.Supervisor.Exits.{Ended, Within, run-Ended, run-Within}
use ai_security_gateway.Tests.BrokerData.{store}

abbrev credentials : AgentCredentials
credentials = record { tenant_id = "tenant-a"; broker_store = some store; sha256_hex = λ t. t }

abbrev token : String
token = "td_agent_0123456789abcdef0123456789abcdef0123456789abc"

abbrev first : Credential
first = record {
  id = "key-1";
  tenant = "tenant-a";
  agent = "agent-1";
  digest = token;
  created = 0;
  expires = 1000;
  revoked = false;
}

revoked_first :
    revoke credentials "agent-1" "key-1" (first ∷ [])
    ≡ (ok tt, record first { revoked = true } ∷ [])
unfolding revoke has_row is_row revoke_row
revoked_first = refl

revoke-forever_example :
    authenticate credentials token 5 (
      run credentials
        (issues "agent-1" 60 none 3 token "key-2" ∷ revokes "agent-1" "key-2" ∷ [])
        (record first { revoked = true } ∷ []))
    ≡ none
unfolding is_only_of has_digest is_row
revoke-forever_example =
    revoke-forever credentials "agent-1" "key-1" token (first ∷ [])
      (record first { revoked = true } ∷ []) revoked_first refl refl
      (issues "agent-1" 60 none 3 token "key-2" ∷ revokes "agent-1" "key-2" ∷ []) 5

abbrev probes : List (List Probe)
probes =
    let dead = record { healthy = false; ready = true } ∷ [] in
    dead ∷ dead ∷ dead ∷ dead ∷ dead ∷ dead ∷ dead ∷ dead ∷ dead ∷ dead ∷ dead ∷ dead ∷ []

abbrev started : Worker
started = record { process = some 0; restarts = 0; misses = 0 }

abbrev pool : Pool
pool = record {
  workers = started ∷ [];
  failed = false;
  stopping = false;
  started = 1;
  reports = true ∷ [];
}

missed : Misses probes
missed = ground arith

monitor-fails_example : (monitor probes pool).failed ≡ true
monitor-fails_example =
    monitor-fails probes pool started [] refl missed refl (omega arith) (omega arith)

monitor-Restarts_example : Restarts (monitor probes pool).workers
monitor-Restarts_example = monitor-Restarts probes pool (omega arith, tt)

abbrev planner : Supervisor
planner = record { second = 1000; max_backoff = 30000; stable_after = 60000 }

abbrev planes : Planes
planes = record { control_restarts = 0; restart_at = none; control_started = 0; starts = 1 }

abbrev turn : Bool → Bool → ℕ → Tick
turn is_stopping exited now = record {
  is_stopping = is_stopping;
  dataplane_code = none;
  control_exited = exited;
  at_exit = now;
  at_schedule = now;
  at_restart = now;
  at_start = now;
}

abbrev turns : List Tick
turns = turn false true 500 ∷ turn false false 2000 ∷ turn true false 2500 ∷ []

stopped : (run_planes planner turns planes).0 ≡ some (pos 0)
unfolding run_planes
stopped = refl

run-Ended_example : Ended (run_planes planner turns planes).0 turns
run-Ended_example = run-Ended planner turns planes

run-Within_example : Within (3000 + 30000) (run_planes planner turns planes).1.restart_at
run-Within_example =
    run-Within planner turns planes 0 3000 tt
      (omega arith, (omega arith, (omega arith, omega arith)))
