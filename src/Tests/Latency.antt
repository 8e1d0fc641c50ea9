-- ===== src/Tests/Latency.antt =====
-- The bounds of the timings at a run of calls.
use ai_security_gateway.Base.{some, List, [], ◌∷◌, arith}
use ai_security_gateway.Selfhost.Latency.{LatencyMetrics}
use ai_security_gateway.Selfhost.Latency.Bounded.{
  Call, begins, marks, inspects, records, finishes, calls, Bounded, calls-Bounded,
}

abbrev fresh : LatencyMetrics
fresh = record {
  samples =
      ("gateway_total", [])
      ∷ ("envoy_exchange", [])
      ∷ ("request_inspection", [])
      ∷ ("response_metadata_inspection", [])
      ∷ ("response_inspection", [])
      ∷ [];
  pending = [];
  requests = [];
}

abbrev a_request : List Call
a_request =
    begins "0123456789abcdef0123456789abcdef" 10
    ∷ marks "0123456789abcdef0123456789abcdef" "envoy_sent" 12
    ∷ inspects "0123456789abcdef0123456789abcdef" "request_inspection" (some 1) (some 2)
    ∷ records "gateway_total" (some 9)
    ∷ finishes "0123456789abcdef0123456789abcdef" (some 200) 19
    ∷ []

calls-Bounded_example : Bounded (calls (λ n. n) a_request fresh)
calls-Bounded_example =
    calls-Bounded (λ n. n) a_request fresh
      (
        (omega arith, (omega arith, (omega arith, (omega arith, (omega arith, tt))))),
        omega arith,
        tt,
        omega arith,
      )
