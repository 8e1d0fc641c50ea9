-- ===== src/Selfhost/Latency/Bounded.antt =====
-- selfhost/latency.py: the bounds on what is kept.
use ai_security_gateway.Base.{
  ℕ, ◌≤◌, String, ◌≡◌, refl, Option, none, some, List, [], ◌∷◌, ◌++◌, arith, length, drop, contains,
  is_hex_text, Bool-cases, inl, inr,
}
use ai_security_gateway.Base.Dict
use ai_security_gateway.Base.Dict.{Dict}
use ai_security_gateway.Selfhost.Latency.{
  Measure, series, stages, Pending, LatencyMetrics, begin, change_found, change, sample_found,
  finish_found, mark, with_check, inspection, stream_wait, record_sample, finish,
}
use ai_security_gateway.Selfhost.Latency.Sizes.{
  Short, FewChecks, length-last_of, last_of-FewChecks, pop-FewChecks, length-first_of, put-Short,
  put-FewChecks, get-FewChecks, append-FewChecks, length-put, length-pop,
}

-- The bounds of the module: 256 samples of a series, 256 pending requests with eight checks of a phase
-- each, and 64 completed requests.
abbrev pub Bounded : LatencyMetrics → Type 0
Bounded m =
    Short 256 m.samples × (length m.pending ≤ 256) × FewChecks m.pending × (length m.requests ≤ 64)

-- A call of one of the methods that change the state.
pub data Call : Type 0 where
  begins : String → ℕ → Call
  marks : String → String → ℕ → Call
  inspects : String → String → Measure → Measure → Call
  waits : String → Measure → Call
  records : String → Measure → Call
  finishes : String → Option ℕ → ℕ → Call

unfoldable pub called : (ℕ → ℕ) → Call → LatencyMetrics → LatencyMetrics
called round (begins run_id at) m = begin run_id at m
called round (marks run_id stage at) m = mark run_id stage at m
called round (inspects run_id phase queue work) m = inspection run_id phase queue work m
called round (waits run_id ms) m = stream_wait run_id ms m
called round (records name ms) m = record_sample name ms m
called round (finishes run_id status at) m = finish round run_id status at m

unfoldable pub calls : (ℕ → ℕ) → List Call → LatencyMetrics → LatencyMetrics
calls round [] m = m
calls round (c ∷ cs) m = calls round cs (called round c m)

begin-Bounded : (k : String) (at : ℕ) (m : LatencyMetrics) → Bounded m → Bounded (begin k at m)
unfolding begin
begin-Bounded k at m (s, p, f, r) = elim (Bool-cases (is_hex_text 32 k)) [
  | inr other ↦ rw other (s, p, f, r)
  | inl named ↦
      let item : Pending = record {
        started = at;
        stages = [];
        checks = [];
        stream_wait_ms = none;
      } in
      let all = Dict.pop k m.pending ++ (k, item) ∷ [] in
      rw named (
        s,
        length-last_of 256 all,
        last_of-FewChecks 256 all
            (append-FewChecks k item (Dict.pop k m.pending) tt (pop-FewChecks k m.pending f)),
        r,
      )
]

change_found-Bounded :
    (o : Option Pending) (k : String) (f : Pending → Pending) (m : LatencyMetrics)
    → ((p : Pending) → Short 8 p.checks → Short 8 (f p).checks)
    → Bounded m
    → Dict.get k m.pending ≡ o
    → Bounded (change_found o k f m)
unfolding change_found
change_found-Bounded none k f m keeps b found = b
change_found-Bounded (some item) k f m keeps (s, p, few, r) found = (
  s,
  ground (arith, p, length-put k (f item) item m.pending found),
  put-FewChecks k (f item) m.pending (keeps item (get-FewChecks k m.pending item few found)) few,
  r,
)

change-Bounded :
    (k : String) (f : Pending → Pending) (m : LatencyMetrics)
    → ((p : Pending) → Short 8 p.checks → Short 8 (f p).checks)
    → Bounded m
    → Bounded (change k f m)
unfolding change
change-Bounded k f m keeps b = change_found-Bounded _ k f m keeps b refl

with_check-Short :
    (phase : String) (queue work : ℕ) (p : Pending)
    → Short 8 p.checks
    → Short 8 (with_check phase queue work p).checks
unfolding with_check
with_check-Short phase queue work p h = put-Short 8 phase _ p.checks (length-last_of 8 _) h

sample_found-Bounded :
    (o : Option (List ℕ)) (name : String) (ms : ℕ) (m : LatencyMetrics)
    → Bounded m
    → Bounded (sample_found o name ms m)
unfolding sample_found
sample_found-Bounded none name ms m b = b
sample_found-Bounded (some xs) name ms m (s, p, f, r) =
    (put-Short 256 name _ m.samples (length-last_of 256 (xs ++ ms ∷ [])) s, p, f, r)

record_sample-Bounded :
    (name : String) (ms : Measure) (m : LatencyMetrics)
    → Bounded m
    → Bounded (record_sample name ms m)
unfolding record_sample
record_sample-Bounded name none m b = b
record_sample-Bounded name (some ms) m b = sample_found-Bounded _ name ms m b

finish_found-Bounded :
    (round : ℕ → ℕ) (o : Option Pending) (k : String) (status : Option ℕ) (at : ℕ)
    (m : LatencyMetrics)
    → Bounded m
    → Bounded (finish_found round o k status at m)
unfolding finish_found
finish_found-Bounded round none k status at m b = b
finish_found-Bounded round (some item) k status at m (s, p, f, r) =
    (s, omega (arith, p, length-pop k m.pending), pop-FewChecks k m.pending f, length-first_of 64 _)

finish-Bounded :
    (round : ℕ → ℕ) (k : String) (status : Option ℕ) (at : ℕ) (m : LatencyMetrics)
    → Bounded m
    → Bounded (finish round k status at m)
unfolding finish
finish-Bounded round k status at m b = finish_found-Bounded round _ k status at m b

called-Bounded :
    (round : ℕ → ℕ) (c : Call) (m : LatencyMetrics) → Bounded m → Bounded (called round c m)
unfolding called mark inspection stream_wait
called-Bounded round (begins k at) m b = begin-Bounded k at m b
called-Bounded round (finishes k status at) m b = finish-Bounded round k status at m b
called-Bounded round (records name ms) m b = record_sample-Bounded name ms m b
called-Bounded round (waits k none) m b = b
called-Bounded round (waits k (some ms)) m b = change-Bounded k _ m (λ p h. h) b
called-Bounded round (marks k stage at) m b = elim (Bool-cases (contains stages stage)) [
  | inl known ↦ rw known (change-Bounded k _ m (λ p h. h) b)
  | inr unknown ↦ rw unknown b
]
called-Bounded round (inspects k phase none work) m b = b
called-Bounded round (inspects k phase (some queue) none) m b = b
called-Bounded round (inspects k phase (some queue) (some work)) m b =
    elim (Bool-cases (contains (drop 2 series) phase)) [
      | inl known ↦ rw known (change-Bounded k _ m (with_check-Short phase queue work) b)
      | inr unknown ↦ rw unknown b
    ]

-- Whatever is called, the metrics stay bounded: 256 samples of a series, 256 pending requests with eight
-- checks of a phase each, and 64 completed requests.
pub calls-Bounded :
    (round : ℕ → ℕ) (cs : List Call) (m : LatencyMetrics) → Bounded m → Bounded (calls round cs m)
unfolding calls
calls-Bounded round [] m b = b
calls-Bounded round (c ∷ cs) m b =
    calls-Bounded round cs (called round c m) (called-Bounded round c m b)
