-- ===== src/Breaker.antt =====
-- internal/resilience/circuit_breaker.go: the circuit breaker, its manager and `Retry`.
-- A time is a number of nanoseconds; the clock is read by the caller and passed in. The logger is
-- left out, and the mutex makes each method one atomic step. Counters do not wrap: 2 ^ 63 calls are
-- out of reach. A negative limit in a configuration behaves as 0 does, and is not modelled.
pub mod Transitions
pub mod Invariant
pub mod Probes
pub mod Retry
pub mod Manager
use frontend_router_mcp.Base.{ℕ, ◌+◌, ◌*◌, String, Bool, true, false, if◌then◌else◌, ltb, leb}
use frontend_router_mcp.Errors.{Error, nil, network, text, new as new_error, with_context, is_nil}

pub data State : Type 0 where
  state_closed state_open state_half_open : State

unfoldable pub state_string : State → String
state_string state_closed = "closed"
state_string state_open = "open"
state_string state_half_open = "half-open"

pub record Config : Type 0 where
  pub name : String
  pub max_failures : ℕ
  pub reset_timeout : ℕ
  pub half_open_max_calls : ℕ

pub record CircuitBreaker : Type 0 where
  pub config : Config
  pub open config use *
  pub state : State
  pub failure_count : ℕ
  pub last_failure_time : ℕ
  pub half_open_calls : ℕ

abbrev second : ℕ
second = 1000000000

unfoldable pub default_config : String → Config
default_config name = record {
  name = name;
  max_failures = 5;
  reset_timeout = 30 * second;
  half_open_max_calls = 3;
}

unfoldable pub new_circuit_breaker : Config → CircuitBreaker
new_circuit_breaker config = record {
  config = config;
  state = state_closed;
  failure_count = 0;
  last_failure_time = 0;
  half_open_calls = 0;
}

-- `time.Since(cb.lastFailureTime) > cb.resetTimeout`
abbrev pub is_reset_due : CircuitBreaker → ℕ → Bool
is_reset_due cb now = ltb (cb.last_failure_time + cb.reset_timeout) now

allow_in : State → CircuitBreaker → ℕ → CircuitBreaker × Bool
allow_in state_closed cb now = (cb, true)
allow_in state_open cb now =
    if is_reset_due cb now
    then (record cb { state = state_half_open; half_open_calls = 0 }, true)
    else (cb, false)
allow_in state_half_open cb now =
    if ltb cb.half_open_calls cb.half_open_max_calls
    then (record cb { half_open_calls = cb.half_open_calls + 1 }, true)
    else (cb, false)

unfoldable pub allow_call : CircuitBreaker → ℕ → CircuitBreaker × Bool
unfolding allow_in
allow_call cb now = allow_in cb.state cb now

failure_in : State → CircuitBreaker → CircuitBreaker
failure_in state_closed cb =
    if leb cb.max_failures cb.failure_count then record cb { state = state_open } else cb
failure_in state_open cb = cb
failure_in state_half_open cb = record cb { state = state_open }

unfoldable pub record_failure : CircuitBreaker → ℕ → CircuitBreaker
unfolding failure_in
record_failure cb now =
    failure_in cb.state
      (record cb { failure_count = cb.failure_count + 1; last_failure_time = now })

success_in : State → CircuitBreaker → CircuitBreaker
success_in state_closed cb = record cb { failure_count = 0 }
success_in state_open cb = cb
success_in state_half_open cb =
    if leb cb.half_open_max_calls cb.half_open_calls
    then record cb { state = state_closed; failure_count = 0 }
    else cb

unfoldable pub record_success : CircuitBreaker → CircuitBreaker
unfolding success_in
record_success cb = success_in cb.state cb

unfoldable pub record_result : CircuitBreaker → ℕ → Error → CircuitBreaker
unfolding record_failure record_success
record_result cb now err = if is_nil err then record_success cb else record_failure cb now

rejection : CircuitBreaker → Error
rejection cb =
    with_context "state" (text (state_string cb.state))
      (with_context "circuit_breaker" (text cb.name) (new_error network "circuit breaker is open"))

-- `Execute` with no other goroutine between its two steps. `fn` acts on a world `W`, which shows
-- whether it was called; `now` and `later` are the clock at the two steps.
unfoldable pub execute :
    {W : Type 0} → CircuitBreaker → ℕ → ℕ → (W → W × Error) → W → CircuitBreaker × W × Error
unfolding allow_call record_result rejection
execute cb now later fn w =
    let (allowed, ok) = allow_call cb now in
    let (w', err) = fn w in
    if ok then (record_result allowed later err, w', err) else (allowed, w, rejection allowed)

unfoldable pub get_state : CircuitBreaker → State
get_state cb = cb.state

abbrev pub is_state_open : State → Bool
is_state_open state_open = true
is_state_open state_closed = false
is_state_open state_half_open = false

unfoldable pub is_open : CircuitBreaker → Bool
is_open cb = is_state_open cb.state

unfoldable pub reset : CircuitBreaker → CircuitBreaker
reset cb = record cb { state = state_closed; failure_count = 0; half_open_calls = 0 }
