-- ===== src/Selfhost/Latency.antt =====
-- selfhost/latency.py: the timings of the gateway's requests. A time is a whole number of units; how a
-- difference is rounded to milliseconds is a parameter.
pub mod Sizes
pub mod Bounded
use ai_security_gateway.Base.{
  ℕ, zero, suc, ◌+◌, ◌-◌, String, Bool, true, false, ◌&&◌, not, Option, none, some, List, [], ◌∷◌,
  ◌++◌, leb, length, drop, contains, is_hex_text, if◌then◌else◌,
}
use ai_security_gateway.Base.Dict
use ai_security_gateway.Base.Dict.{Dict}

-- A measured value: `none` where it is no finite number from zero on.
abbrev pub Measure : Type 0
Measure = Option ℕ

abbrev pub series : List String
series =
    "gateway_total" ∷ "envoy_exchange" ∷ "request_inspection" ∷ "response_metadata_inspection"
    ∷ "response_inspection" ∷ []

abbrev pub stages : List String
stages =
    "envoy_sent" ∷ "request_checked" ∷ "response_headers_received" ∷ "response_headers_checked"
    ∷ "response_body_received" ∷ "response_checked" ∷ []

-- A request that goes on: its checks are the times in the queue and at work, by the phase.
pub record Pending : Type 0 where
  pub started : ℕ
  pub stages : Dict ℕ
  pub checks : Dict (List (ℕ × ℕ))
  pub stream_wait_ms : Measure

-- A request that is over.
pub record Completed : Type 0 where
  pub http_status : Option ℕ
  pub gateway_total_ms : Measure
  pub before_envoy_ms : Measure
  pub upstream_headers_wait_ms : Measure
  pub response_body_wait_ms : Measure
  pub after_response_check_ms : Measure
  pub inspection_queue_ms : Measure
  pub inspection_work_ms : Measure
  pub inspector_stream_wait_ms : Measure
  pub inspection_calls : ℕ
  pub complete : Bool

-- `LatencyMetrics`
pub record LatencyMetrics : Type 0 where
  pub samples : Dict (List ℕ)
  pub pending : Dict Pending
  pub requests : List Completed

-- A list without what is too much for a bound at its front, as a `deque` with a `maxlen` keeps it.
unfoldable pub last_of : {A : Type 0} → ℕ → List A → List A
last_of n xs = drop (length xs - n) xs

unfoldable pub first_of : {A : Type 0} → ℕ → List A → List A
first_of n [] = []
first_of zero (x ∷ xs) = []
first_of (suc n) (x ∷ xs) = x ∷ first_of n xs

-- `begin`
unfoldable pub begin : String → ℕ → LatencyMetrics → LatencyMetrics
begin run_id at m =
    if is_hex_text 32 run_id
    then (let item : Pending = record {
      started = at;
      stages = [];
      checks = [];
      stream_wait_ms = none;
    } in
        record m { pending = last_of 256 (Dict.pop run_id m.pending ++ (run_id, item) ∷ []) })
    else m

-- A change of a pending request, where there is one.
unfoldable pub change_found :
    Option Pending → String → (Pending → Pending) → LatencyMetrics → LatencyMetrics
change_found none run_id f m = m
change_found (some item) run_id f m = record m { pending = Dict.put run_id (f item) m.pending }

unfoldable pub change : String → (Pending → Pending) → LatencyMetrics → LatencyMetrics
change run_id f m = change_found (Dict.get run_id m.pending) run_id f m

-- `mark`
unfoldable pub mark : String → String → ℕ → LatencyMetrics → LatencyMetrics
mark run_id stage at m =
    if contains stages stage
    then change run_id (λ p. record p { stages = Dict.put stage at p.stages }) m
    else m

abbrev checks_of : String → Dict (List (ℕ × ℕ)) → List (ℕ × ℕ)
checks_of phase d = elim (Dict.get phase d) [ none ↦ [] | some cs ↦ cs ]

-- One more check of a phase, of which the last eight are kept.
unfoldable pub with_check : String → ℕ → ℕ → Pending → Pending
with_check phase queue work p = record p {
  checks = Dict.put phase (last_of 8 (checks_of phase p.checks ++ (queue, work) ∷ [])) p.checks;
}

-- `inspection`
unfoldable pub inspection : String → String → Measure → Measure → LatencyMetrics → LatencyMetrics
inspection run_id phase (some queue) (some work) m =
    if contains (drop 2 series) phase then change run_id (with_check phase queue work) m else m
inspection run_id phase _ _ m = m

-- `stream_wait`
unfoldable pub stream_wait : String → Measure → LatencyMetrics → LatencyMetrics
stream_wait run_id none m = m
stream_wait run_id (some ms) m = change run_id (λ p. record p { stream_wait_ms = some ms }) m

unfoldable pub sample_found : Option (List ℕ) → String → ℕ → LatencyMetrics → LatencyMetrics
sample_found none name ms m = m
sample_found (some xs) name ms m = record m {
  samples = Dict.put name (last_of 256 (xs ++ ms ∷ [])) m.samples;
}

-- `record`
unfoldable pub record_sample : String → Measure → LatencyMetrics → LatencyMetrics
record_sample name none m = m
record_sample name (some ms) m = sample_found (Dict.get name m.samples) name ms m

unfoldable pub all_checks : List (List (ℕ × ℕ)) → List (ℕ × ℕ)
all_checks [] = []
all_checks (cs ∷ more) = cs ++ all_checks more

unfoldable pub sum_queue : List (ℕ × ℕ) → ℕ
sum_queue [] = 0
sum_queue ((queue, work) ∷ cs) = queue + sum_queue cs

unfoldable pub sum_work : List (ℕ × ℕ) → ℕ
sum_work [] = 0
sum_work ((queue, work) ∷ cs) = work + sum_work cs

abbrev has_stage : String → Dict ℕ → Bool
has_stage name d = elim (Dict.get name d) [ none ↦ false | some t ↦ true ]

module _ (round : ℕ → ℕ) where
  -- `elapsed` from a time to another, where both are known and in order.
  unfoldable pub elapsed : Option ℕ → Option ℕ → Measure
  elapsed (some left) (some right) = if leb left right then some (round (right - left)) else none
  elapsed _ _ = none

  abbrev sum_of : List (ℕ × ℕ) → ℕ → Measure
  sum_of [] total = none
  sum_of (c ∷ cs) total = some (round total)

  abbrev rounded : Measure → Measure
  rounded none = none
  rounded (some ms) = some (round ms)

  unfoldable pub completed : Option ℕ → ℕ → Pending → Completed
  completed status at p =
      let checks = all_checks (Dict.values p.checks) in
      record {
        http_status = elim status [
          | none ↦ none
          | some s ↦ if leb 100 s && leb s 599 then some s else none
        ];
        gateway_total_ms = elapsed (some p.started) (some at);
        before_envoy_ms = elapsed (some p.started) (Dict.get "envoy_sent" p.stages);
        upstream_headers_wait_ms =
            elapsed (Dict.get "request_checked" p.stages)
              (Dict.get "response_headers_received" p.stages);
        response_body_wait_ms =
            elapsed (Dict.get "response_headers_checked" p.stages)
              (Dict.get "response_body_received" p.stages);
        after_response_check_ms = elapsed (Dict.get "response_checked" p.stages) (some at);
        inspection_queue_ms = sum_of checks (sum_queue checks);
        inspection_work_ms = sum_of checks (sum_work checks);
        inspector_stream_wait_ms = rounded p.stream_wait_ms;
        inspection_calls = length checks;
        complete =
            has_stage "request_checked" p.stages
            && has_stage "response_headers_checked" p.stages
            && has_stage "response_checked" p.stages;
      }

  unfoldable pub finish_found :
      Option Pending → String → Option ℕ → ℕ → LatencyMetrics → LatencyMetrics
  finish_found none run_id status at m = m
  finish_found (some p) run_id status at m = record m {
    pending = Dict.pop run_id m.pending;
    requests = first_of 64 (completed status at p ∷ m.requests);
  }

  -- `finish`
  unfoldable pub finish : String → Option ℕ → ℕ → LatencyMetrics → LatencyMetrics
  finish run_id status at m = finish_found (Dict.get run_id m.pending) run_id status at m
