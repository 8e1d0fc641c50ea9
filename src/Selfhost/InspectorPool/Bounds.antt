-- ===== src/Selfhost/InspectorPool/Bounds.antt =====
-- selfhost/inspector_pool.py: the bounds on the restarts, and a worker that stays unhealthy.
use ai_security_gateway.Base.{
  ℕ, suc, ◌+◌, ◌-◌, ◌*◌, ◌≤◌, ◌<◌, ◌≡◌, ◌⊎◌, inl, inr, Bool, true, false, List, [], ◌∷◌, length,
  arith, Bool-cases, ap, ◌∙◌,
}
use ai_security_gateway.Selfhost.InspectorPool.{
  Worker, Probe, Pool, terminate, spawn, restart, visit, started_by, reported, visits,
  monitor_round, monitor,
}

-- The rounds that a worker may still miss before the pool fails.
abbrev pub patience : Worker → ℕ
patience w = 3 * (3 - w.restarts) + (3 - w.misses)

visit-patience :
    (n : ℕ) (p : Probe) (w : Worker)
    → p.healthy ≡ false
    → w.misses ≤ 2
    → ((visit n p w).is_failed ≡ true)
      ⊎ ((patience (visit n p w).worker < patience w) × ((visit n p w).worker.misses ≤ 2))
unfolding visit restart terminate spawn
visit-patience n p w h m = ground arith

-- The first probe of each round finds its worker unhealthy.
abbrev pub Misses : List (List Probe) → Type 0
Misses [] = Unit
Misses ([] ∷ pss) = ⊥
Misses ((p ∷ ps) ∷ pss) = (p.healthy ≡ false) × Misses pss

-- The pool has failed, or its first worker's patience is at most this.
abbrev Failing : ℕ → Pool → Type 0
Failing k pool =
    (pool.failed ≡ true)
    ⊎ ((w : Worker) × (ws : List Worker) × (pool.workers ≡ w ∷ ws)
        × (patience w ≤ k)
        × (w.misses ≤ 2))

visits-first :
    (w : Worker) (ws : List Worker) (p : Probe) (ps : List Probe) (n : ℕ) (rs : List Bool)
    → p.healthy ≡ false
    → w.misses ≤ 2
    → ((visits (w ∷ ws) (p ∷ ps) n rs).is_failed ≡ true)
      ⊎ ((v : Worker) × (vs : List Worker) × ((visits (w ∷ ws) (p ∷ ps) n rs).workers ≡ v ∷ vs)
          × (patience v < patience w)
          × (v.misses ≤ 2))
unfolding visits
visits-first w ws p ps n rs h m = elim (visit-patience n p w h m) [
  | inl f ↦ inl (ground arith)
  | inr (l, k) ↦ elim (Bool-cases (visit n p w).is_failed) [
    | inl f ↦ inl (ground arith)
    | inr f ↦ inr (
      (visit n p w).worker,
      (visits ws ps (started_by (visit n p w) n) (reported p rs)).workers,
      ground arith,
      l,
      k,
    )
  ]
]

round-running :
    (p : Probe) (ps : List Probe) (pool : Pool)
    → pool.stopping ≡ false
    → pool.failed ≡ false
    → let r = visits pool.workers (p ∷ ps) pool.started pool.reports in
      ((monitor_round (p ∷ ps) pool).failed ≡ r.is_failed)
      × ((monitor_round (p ∷ ps) pool).workers ≡ r.workers)
unfolding monitor_round
round-running p ps pool s f = (ground arith, ground arith)

round-stopping : (ps : List Probe) (pool : Pool) → (monitor_round ps pool).stopping ≡ pool.stopping
unfolding monitor_round
round-stopping ps pool = ground arith

round-failed :
    (ps : List Probe) (pool : Pool) → pool.failed ≡ true → (monitor_round ps pool).failed ≡ true
unfolding monitor_round
round-failed ps pool h = ground arith

round-Failing :
    (k : ℕ) (p : Probe) (ps : List Probe) (pool : Pool)
    → pool.stopping ≡ false
    → p.healthy ≡ false
    → Failing (suc k) pool
    → Failing k (monitor_round (p ∷ ps) pool)
round-Failing k p ps pool s h (inl f) = inl (round-failed (p ∷ ps) pool f)
round-Failing k p ps pool s h (inr (w, ws, e, l, m)) = elim (Bool-cases pool.failed) [
  | inl f ↦ inl (round-failed (p ∷ ps) pool f)
  | inr f ↦
      let (fails, workers) = round-running p ps pool s f in
      elim (visits-first w ws p ps pool.started pool.reports h m) [
        | inl g ↦
            inl (fails ∙ ap (λ v. (visits v (p ∷ ps) pool.started pool.reports).is_failed) e ∙ g)
        | inr (v, vs, g, less, few) ↦ inr (
          v,
          vs,
          workers ∙ ap (λ v. (visits v (p ∷ ps) pool.started pool.reports).workers) e ∙ g,
          omega (arith, less, l),
          few,
        )
      ]
]

rounds_fail :
    (pss : List (List Probe)) (pool : Pool)
    → pool.stopping ≡ false
    → Misses pss
    → Failing (length pss) pool
    → (monitor pss pool).failed ≡ true
unfolding monitor
rounds_fail [] pool s ms (inl f) = f
rounds_fail [] pool s ms (inr (w, ws, e, l, m)) = absurd (omega (arith, l, m))
rounds_fail ([] ∷ pss) pool s ms f = elim ms [ ]
rounds_fail ((p ∷ ps) ∷ pss) pool s ms f =
    rounds_fail pss (monitor_round (p ∷ ps) pool) (round-stopping (p ∷ ps) pool ∙ s) ms.1
      (round-Failing (length pss) p ps pool s ms.0 f)

-- A pool whose first worker misses every probe of the monitor fails within as many rounds as the
-- worker has patience: twelve for one that was just started, whatever the others do and whether its
-- restarts become ready.
pub monitor-fails :
    (pss : List (List Probe)) (pool : Pool) (w : Worker) (ws : List Worker)
    → pool.stopping ≡ false
    → Misses pss
    → pool.workers ≡ w ∷ ws
    → w.misses ≤ 2
    → patience w ≤ length pss
    → (monitor pss pool).failed ≡ true
monitor-fails pss pool w ws s ms e m l = rounds_fail pss pool s ms (inr (w, ws, e, l, m))

-- The restarts of every worker, three at most.
abbrev pub Restarts : List Worker → Type 0
Restarts [] = Unit
Restarts (w ∷ ws) = (w.restarts ≤ 3) × Restarts ws

visit-restarts :
    (n : ℕ) (p : Probe) (w : Worker) → w.restarts ≤ 3 → (visit n p w).worker.restarts ≤ 3
unfolding visit restart terminate spawn
visit-restarts n p w h = ground arith

visits-Restarts :
    (ws : List Worker) (ps : List Probe) (n : ℕ) (rs : List Bool)
    → Restarts ws
    → Restarts (visits ws ps n rs).workers
unfolding visits
visits-Restarts [] ps n rs h = h
visits-Restarts (w ∷ ws) [] n rs h = h
visits-Restarts (w ∷ ws) (p ∷ ps) n rs h = ground (
  arith,
  visit-restarts n p w h.0,
  visits-Restarts ws ps (started_by (visit n p w) n) (reported p rs) h.1,
)

-- The monitor keeps the restarts of every worker at three or fewer, over any rounds.
pub monitor-Restarts :
    (pss : List (List Probe)) (pool : Pool)
    → Restarts pool.workers
    → Restarts (monitor pss pool).workers
unfolding monitor monitor_round
monitor-Restarts [] pool h = h
monitor-Restarts (ps ∷ pss) pool h =
    monitor-Restarts pss (monitor_round ps pool)
      (ground (arith, visits-Restarts pool.workers ps pool.started pool.reports h))
