-- ===== src/Selfhost/Supervisor/Exits.antt =====
-- selfhost/supervisor.py: how a run ends, and the delays before restarts.
use ai_security_gateway.Base.{
  ℕ, zero, suc, ◌+◌, ◌≤◌, ◌≡◌, ◌≢◌, refl, sym, subst, ◌⊎◌, inl, inr, Bool-cases, Option-cases, Bool,
  true, false, ◌||◌, Option, none, some, List, [], ◌∷◌, arith,
}
use ai_security_gateway.Inspection.Json.{ℤ, pos, negsuc}
use ai_security_gateway.Selfhost.Supervisor.{
  Supervisor, Planes, Tick, exit_code, backoff, schedule, start_control, watch_control, restarts_at,
  run,
}

-- A stop was asked for before one of the ticks.
unfoldable pub any_stopping : List Tick → Bool
any_stopping [] = false
any_stopping (t ∷ ts) = t.is_stopping || any_stopping ts

-- The data plane exits in one of the ticks; and it exits so that its code gives this one.
abbrev pub is_given : Option ℤ → Bool
is_given none = false
is_given (some c) = true

unfoldable pub any_exit : List Tick → Bool
any_exit [] = false
any_exit (t ∷ ts) = is_given t.dataplane_code || any_exit ts

abbrev pub ExitsWith : ℤ → List Tick → Type 0
ExitsWith c [] = ⊥
ExitsWith c (t ∷ ts) =
    ((code : ℤ) × ((t.dataplane_code ≡ some code) × (c ≡ exit_code code))) ⊎ ExitsWith c ts

-- What the end of a run says of its ticks.
abbrev pub Ended : Option ℤ → List Tick → Type 0
Ended none ts = (any_stopping ts ≡ false) × (any_exit ts ≡ false)
Ended (some c) ts = ((c ≡ pos 0) × (any_stopping ts ≡ true)) ⊎ ((c ≢ pos 0) × ExitsWith c ts)

exit_code-ne : (code : ℤ) → exit_code code ≢ pos 0
unfolding exit_code
exit_code-ne (pos zero) h = ground arith
exit_code-ne (pos (suc n)) h = ground arith
exit_code-ne (negsuc n) h = cc

Ended-later :
    (t : Tick) (ts : List Tick) (r : Option ℤ)
    → t.is_stopping ≡ false
    → t.dataplane_code ≡ none
    → Ended r ts
    → Ended r (t ∷ ts)
unfolding any_stopping any_exit
Ended-later t ts none s d (a, b) = ground arith
Ended-later t ts (some c) s d (inl (z, a)) = inl (z, ground arith)
Ended-later t ts (some c) s d (inr (n, e)) = inr (n, inr e)

run-stops :
    (v : Supervisor) (t : Tick) (ts : List Tick) (s : Planes)
    → t.is_stopping ≡ true
    → (run v (t ∷ ts) s).0 ≡ some (pos 0)
unfolding run
run-stops v t ts s h = ground arith

run-exits :
    (v : Supervisor) (t : Tick) (ts : List Tick) (s : Planes) (code : ℤ)
    → t.is_stopping ≡ false
    → t.dataplane_code ≡ some code
    → (run v (t ∷ ts) s).0 ≡ some (exit_code code)
unfolding run
run-exits v t ts s code h e = ground arith

run-goes_on :
    (v : Supervisor) (t : Tick) (ts : List Tick) (s : Planes)
    → t.is_stopping ≡ false
    → t.dataplane_code ≡ none
    → (run v (t ∷ ts) s).0 ≡ (run v ts (watch_control v t s)).0
unfolding run
run-goes_on v t ts s h e = ground arith

-- A run that returns zero was asked to stop, one that returns another code had an exit of the data
-- plane with that code, or with zero where it returns one, and a run goes on only while there is no
-- stop and no exit of the data plane. So no exit of the control plane ends it.
pub run-Ended : (v : Supervisor) (ts : List Tick) (s : Planes) → Ended (run v ts s).0 ts
unfolding run any_stopping any_exit
run-Ended v [] s = (refl, refl)
run-Ended v (t ∷ ts) s = elim (Bool-cases t.is_stopping) [
  | inl stop ↦
      subst (λ r. Ended r (t ∷ ts)) (sym (run-stops v t ts s stop)) (inl (refl, ground arith))
  | inr going ↦ elim (Option-cases t.dataplane_code) [
    | inl up ↦
        subst (λ r. Ended r (t ∷ ts)) (sym (run-goes_on v t ts s going up))
          (Ended-later t ts (run v ts (watch_control v t s)).0 going up
            (run-Ended v ts (watch_control v t s)))
    | inr (code, down) ↦
        subst (λ r. Ended r (t ∷ ts)) (sym (run-exits v t ts s code going down))
          (inr (exit_code-ne code, inl (code, (down, refl))))
  ]
]

-- The schedule of the control plane, where there is one, is this close.
abbrev pub Within : ℕ → Option ℕ → Type 0
Within n none = Unit
Within n (some at) = at ≤ n

-- The readings of the clock for the schedule do not go back, from the first time to the last.
abbrev pub InOrder : ℕ → List Tick → ℕ → Type 0
InOrder n [] m = n ≤ m
InOrder n (t ∷ ts) m = (n ≤ t.at_schedule) × InOrder t.at_schedule ts m

InOrder-le : (n : ℕ) (ts : List Tick) (m : ℕ) → InOrder n ts m → n ≤ m
InOrder-le n [] m h = h
InOrder-le n (t ∷ ts) m (l, h) = omega (arith, l, InOrder-le t.at_schedule ts m h)

backoff-bound : (v : Supervisor) (k : ℕ) → backoff v k ≤ v.max_backoff
unfolding backoff
backoff-bound v k = ground arith

Within-later : (n m : ℕ) (o : Option ℕ) → n ≤ m → Within n o → Within m o
Within-later n m none l h = tt
Within-later n m (some at) l h = omega (arith, l, h)

watch_control-Within :
    (v : Supervisor) (t : Tick) (s : Planes)
    → Within (t.at_schedule + v.max_backoff) s.restart_at
    → Within (t.at_schedule + v.max_backoff) (watch_control v t s).restart_at
unfolding watch_control schedule start_control
watch_control-Within v t s h = ground (arith, backoff-bound v (restarts_at v t s))

-- At times that do not go back, the control plane is never due later than the longest delay after the
-- last turn of the loop.
pub run-Within :
    (v : Supervisor) (ts : List Tick) (s : Planes) (n m : ℕ)
    → Within (n + v.max_backoff) s.restart_at
    → InOrder n ts m
    → Within (m + v.max_backoff) (run v ts s).1.restart_at
unfolding run
run-Within v [] s n m h l =
    Within-later (n + v.max_backoff) (m + v.max_backoff) s.restart_at (omega (arith, l)) h
run-Within v (t ∷ ts) s n m h (l, ls) =
    let le = InOrder-le t.at_schedule ts m ls in
    let stays =
      Within-later (n + v.max_backoff) (m + v.max_backoff) s.restart_at (omega (arith, l, le)) h in
    let now =
      Within-later (n + v.max_backoff) (t.at_schedule + v.max_backoff) s.restart_at
        (omega (arith, l)) h in
    let goes =
      run-Within v ts (watch_control v t s) t.at_schedule m (watch_control-Within v t s now) ls in
    ground (arith, stays, goes)
