-- ===== src/Breaker/Invariant.antt =====
-- Interleavings of the steps of the circuit breaker in internal/resilience/circuit_breaker.go.
use frontend_router_mcp.Base.{ℕ, ◌≤◌, ◌<◌, ◌≡◌, refl, ◌≢◌, arith, List, [], ◌∷◌}
use frontend_router_mcp.Errors.{Error}
use frontend_router_mcp.Breaker.{
  State, state_closed, state_open, state_half_open, CircuitBreaker, Config, new_circuit_breaker,
  allow_call, record_result, reset,
}

-- The atomic steps of any number of goroutines: `call` is `allowCall` at a time, `result` is
-- `recordResult` at a time with the error of some call, `resets` is `Reset`.
pub data Event : Type 0 where
  call : ℕ → Event
  result : ℕ → Error → Event
  resets : Event

pub step : CircuitBreaker → Event → CircuitBreaker
step cb (call now) = (allow_call cb now).0
step cb (result now err) = record_result cb now err
step cb resets = reset cb

pub run : CircuitBreaker → List Event → CircuitBreaker
run cb [] = cb
run cb (e ∷ es) = run (step cb e) es

pub record IsConsistent (cb : CircuitBreaker) : Type 0 where
  pub closed_below :
      cb.state ≡ state_closed → 0 < cb.max_failures → cb.failure_count < cb.max_failures
  pub tripped : cb.state ≢ state_closed → cb.max_failures ≤ cb.failure_count
  pub probes_bounded : cb.state ≡ state_half_open → cb.half_open_calls ≤ cb.half_open_max_calls

new-IsConsistent : (c : Config) → IsConsistent (new_circuit_breaker c)
unfolding new_circuit_breaker
new-IsConsistent c = ground arith

pub step-IsConsistent :
    (cb : CircuitBreaker) (e : Event) → IsConsistent cb → IsConsistent (step cb e)
unfolding step allow_call record_result reset
step-IsConsistent cb (call now) v = ground arith
step-IsConsistent cb (result now err) v = ground arith
step-IsConsistent cb resets v = ground arith

run-IsConsistent :
    (cb : CircuitBreaker) (es : List Event) → IsConsistent cb → IsConsistent (run cb es)
unfolding run
run-IsConsistent cb [] v = v
run-IsConsistent cb (e ∷ es) v = run-IsConsistent (step cb e) es (step-IsConsistent cb e v)

-- After any interleaving of calls, results and resets on a new breaker: while it is closed its
-- failure count is below a positive limit, while it is open or half-open the count has reached the
-- limit, and while it is half-open the calls counted as probes are within their limit.
pub run-new-IsConsistent :
    (c : Config) (es : List Event) → IsConsistent (run (new_circuit_breaker c) es)
run-new-IsConsistent c es = run-IsConsistent _ es (new-IsConsistent c)

-- The state machine of the breaker; `manual` is `Reset`.
pub data Edge : State → State → Type 0 where
  stay : {s : State} → Edge s s
  trip : Edge state_closed state_open
  probe : Edge state_open state_half_open
  fail_again : Edge state_half_open state_open
  recover : Edge state_half_open state_closed

-- Every step but `Reset`, that is every call and every result, moves the state along an edge of the
-- diagram: an open breaker never closes but through half-open, and a closed one never becomes
-- half-open but through open.
pub step-Edge : (cb : CircuitBreaker) (e : Event) → e ≢ resets → Edge cb.state (step cb e).state
unfolding step allow_call record_result
step-Edge cb (call now) h = grind (arith, stay, trip, probe, fail_again, recover)
step-Edge cb (result now err) h = grind (arith, stay, trip, probe, fail_again, recover)
step-Edge cb resets h = absurd (h refl)
