-- ===== src/Examples/Breaker.antt =====
-- The circuit breaker at concrete inputs.
use Prim.Native.Nat.{min}
use frontend_router_mcp.Base.{ℕ, zero, suc, refl, List, [], ◌∷◌, pos}
use frontend_router_mcp.Errors.{Error, nil, plain}
use frontend_router_mcp.Breaker.{Config, CircuitBreaker, state_open, new_circuit_breaker}
use frontend_router_mcp.Breaker.Invariant.{
  Event, call, result, run, step, IsConsistent, Edge, run-new-IsConsistent, step-Edge,
}
use frontend_router_mcp.Breaker.Retry.{Attempt, rounds, retry}
use frontend_router_mcp.Breaker.Retry.Schedule.{attempts, scripted, Agrees, retry-attempts}

abbrev small : Config
small = record { name = "db"; max_failures = 2; reset_timeout = 10; half_open_max_calls = 2 }

abbrev tripped : CircuitBreaker
tripped = record {
  config = small;
  state = state_open;
  failure_count = 2;
  last_failure_time = 100;
  half_open_calls = 0;
}

abbrev refused : Error
refused = plain "connection refused"

abbrev events : List Event
events = call 1 ∷ result 2 refused ∷ call 3 ∷ result 4 refused ∷ call 50 ∷ call 51 ∷ []

run-new-IsConsistent_example : IsConsistent (run (new_circuit_breaker small) events)
run-new-IsConsistent_example = run-new-IsConsistent small events

step-Edge_example : Edge state_open (step tripped (call 200)).state
step-Edge_example = step-Edge tripped (call 200) (λ e. absurd (cc))

abbrev calm : ℕ → Attempt
calm i = record { now = i; later = i; cancelled = nil }

-- The third call succeeds.
abbrev third : ℕ → Error
third zero = refused
third (suc zero) = refused
third (suc (suc n)) = nil

retry-attempts_example :
    Agrees
      (retry "mail" (pos 3) 100 (scripted third) calm 0)
      (attempts third (min (rounds (pos 3)) 5) 0 100 nil)
retry-attempts_example = retry-attempts "mail" (pos 3) 100 third calm (λ i. refl)
