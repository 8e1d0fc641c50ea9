-- ===== src/Selfhost/InspectorPool.antt =====
-- selfhost/inspector_pool.py: the supervision of the inspection processes. What the probes find is an
-- argument: whether a worker is healthy, whether a new one becomes ready, and whether its process has
-- ended. A process is kept by the number of its start.
pub mod Bounds
use ai_security_gateway.Base.{
  ℕ, suc, ◌+◌, Bool, true, false, ◌&&◌, not, Option, none, some, List, [], ◌∷◌, ◌++◌, ltb, leb,
  ◌==◌, if◌then◌else◌,
}

-- One worker: its process, its restarts and the misses of the monitor.
pub record Worker : Type 0 where
  pub process : Option ℕ
  pub restarts : ℕ
  pub misses : ℕ

-- What a probe of a worker finds, and whether a worker started after it becomes ready.
pub record Probe : Type 0 where
  pub healthy : Bool
  pub ready : Bool

-- `SelfhostInspectorPool`, with the reports to `on_health` in order, the last one first.
pub record Pool : Type 0 where
  pub workers : List Worker
  pub failed : Bool
  pub stopping : Bool
  pub started : ℕ
  pub reports : List Bool

-- `__init__`
unfoldable pub idle : ℕ → List Worker
idle ℕ.zero = []
idle (suc n) = record { process = none; restarts = 0; misses = 0 } ∷ idle n

unfoldable pub new_pool : ℕ → Pool
new_pool replicas = record {
  workers = idle replicas;
  failed = false;
  stopping = false;
  started = 0;
  reports = [];
}

-- `terminate`: a process that does not end in time is killed; the place is empty either way.
unfoldable pub terminate : Worker → Worker
terminate w = record w { process = none }

-- `spawn`
unfoldable pub spawn : ℕ → Worker → Worker
spawn n w = record w { process = some n }

-- How the visit of a worker ends: the monitor goes on, or the pool has failed. `spawned` tells that a
-- process was started.
pub record Visit : Type 0 where
  pub worker : Worker
  pub spawned : Bool
  pub is_failed : Bool

abbrev pub stays : Worker → Visit
stays w = record { worker = w; spawned = false; is_failed = false }

-- A worker that missed three times is restarted, three times at most.
unfoldable pub restart : ℕ → Bool → Worker → Visit
restart n ready w =
    if leb 3 w.restarts
    then record { worker = terminate w; spawned = false; is_failed = true }
    else (let again = spawn n (record (terminate w) { restarts = suc w.restarts }) in
        if ready
        then record { worker = record again { misses = 0 }; spawned = true; is_failed = false }
        else record { worker = terminate again; spawned = true; is_failed = true })

-- The body of the monitor's loop over the workers.
unfoldable pub visit : ℕ → Probe → Worker → Visit
visit n p w =
    if p.healthy
    then stays (record w { misses = 0 })
    else if ltb (suc w.misses) 3
    then stays (record w { misses = suc w.misses })
    else restart n p.ready (record w { misses = suc w.misses })

-- `not any(misses)`
unfoldable pub no_misses : List Worker → Bool
no_misses [] = true
no_misses (w ∷ ws) = w.misses == 0 && no_misses ws

-- What a round leaves: the workers, the number of the starts, whether the pool failed, and the
-- reports.
pub record Round : Type 0 where
  pub workers : List Worker
  pub started : ℕ
  pub is_failed : Bool
  pub reports : List Bool

abbrev pub started_by : Visit → ℕ → ℕ
started_by v n = if v.spawned then suc n else n

abbrev pub reported : Probe → List Bool → List Bool
reported p rs = if p.healthy then rs else false ∷ rs

-- The visits of one round, which stop where the pool fails.
unfoldable pub visits : List Worker → List Probe → ℕ → List Bool → Round
visits [] ps n rs = record { workers = []; started = n; is_failed = false; reports = rs }
visits (w ∷ ws) [] n rs = record { workers = w ∷ ws; started = n; is_failed = false; reports = rs }
visits (w ∷ ws) (p ∷ ps) n rs =
    let v = visit n p w in
    let rest = visits ws ps (started_by v n) (reported p rs) in
    if v.is_failed
    then record {
      workers = v.worker ∷ ws;
      started = started_by v n;
      is_failed = true;
      reports = reported p rs;
    }
    else record rest { workers = v.worker ∷ rest.workers }

-- One round of `monitor`, with a probe of each worker. A pool that failed or stops has none.
unfoldable pub monitor_round : List Probe → Pool → Pool
monitor_round ps pool =
    if pool.stopping
    then pool
    else if pool.failed
    then pool
    else (let r = visits pool.workers ps pool.started pool.reports in
        record pool {
          workers = r.workers;
          failed = r.is_failed;
          started = r.started;
          reports = if not r.is_failed && no_misses r.workers then true ∷ r.reports else r.reports;
        })

-- `monitor`, over the rounds that the probes of each second make.
unfoldable pub monitor : List (List Probe) → Pool → Pool
monitor [] pool = pool
monitor (ps ∷ pss) pool = monitor pss (monitor_round ps pool)

unfoldable pub terminate_all : List Worker → List Worker
terminate_all [] = []
terminate_all (w ∷ ws) = terminate w ∷ terminate_all ws

-- `stop`
unfoldable pub stop : Pool → Pool
stop pool = record pool {
  stopping = true;
  reports = false ∷ pool.reports;
  workers = terminate_all pool.workers;
}

-- `start`: the workers start one after the other, each when the one before is ready.
pub record Startup : Type 0 where
  pub workers : List Worker
  pub started : ℕ
  pub all_ready : Bool

unfoldable pub start_workers : List Worker → List Bool → ℕ → Startup
start_workers [] rs n = record { workers = []; started = n; all_ready = true }
start_workers (w ∷ ws) [] n = record { workers = w ∷ ws; started = n; all_ready = true }
start_workers (w ∷ ws) (r ∷ rs) n =
    let rest = start_workers ws rs (suc n) in
    if r
    then record rest { workers = spawn n w ∷ rest.workers }
    else record { workers = spawn n w ∷ ws; started = suc n; all_ready = false }

unfoldable pub start : List Bool → Pool → Pool
start ready pool =
    let s = start_workers pool.workers ready pool.started in
    let begun = record pool { workers = s.workers; started = s.started } in
    if s.all_ready then record begun { reports = true ∷ begun.reports } else stop begun
