-- ===== src/Breaker/Transitions.antt =====
-- Single calls of the circuit breaker in internal/resilience/circuit_breaker.go, and rows of failures.
use frontend_router_mcp.Base.{
  ℕ, ◌+◌, ◌≤◌, ◌<◌, ◌≡◌, refl, ◌∙◌, arith, true, false, leb, List, [], ◌∷◌, ◌++◌, length,
  if◌then◌else◌,
}
use frontend_router_mcp.Errors.{Error, network, get_type, as_app, with_context, new}
use frontend_router_mcp.Breaker.{
  state_closed, state_open, CircuitBreaker, Config, new_circuit_breaker, allow_call, record_failure,
  record_result, execute, rejection,
}

get_type-rejection : (cb : CircuitBreaker) → get_type (rejection cb) ≡ network
unfolding rejection get_type as_app with_context new
get_type-rejection cb = refl

pub allow_call-open :
    (cb : CircuitBreaker) (now : ℕ)
    → cb.state ≡ state_open
    → now ≤ cb.last_failure_time + cb.reset_timeout
    → allow_call cb now ≡ (cb, false)
unfolding allow_call
allow_call-open cb now s h = ground arith

-- While the breaker is open and no more than the reset timeout has passed since the last failure,
-- `execute` does not call the function (the world is unchanged), leaves the breaker as it was, and
-- returns an error of type network.
pub execute_open :
    {W : Type 0} (cb : CircuitBreaker) (now later : ℕ) (fn : W → W × Error) (w : W)
    → cb.state ≡ state_open
    → now ≤ cb.last_failure_time + cb.reset_timeout
    → ((execute cb now later fn w).0 ≡ cb)
      × ((execute cb now later fn w).1 ≡ w)
      × (get_type (execute cb now later fn w).2 ≡ network)
unfolding execute
execute_open cb now later fn w s h =
    rw (allow_call-open cb now s h, execute) (refl, refl, get_type-rejection cb)

-- A call that is allowed runs the function once and hands its error back unchanged.
pub execute_allowed :
    {W : Type 0} (cb : CircuitBreaker) (now later : ℕ) (fn : W → W × Error) (w : W)
    → (allow_call cb now).1 ≡ true
    → execute cb now later fn w
      ≡ (record_result (allow_call cb now).0 later (fn w).1, (fn w).0, (fn w).1)
unfolding execute
execute_allowed cb now later fn w h = rw (h, execute)

-- A failure while the breaker is closed: the count rises by one, the time is noted, and the breaker
-- opens exactly when the count reaches the limit.
pub record_failure-closed :
    (cb : CircuitBreaker) (now : ℕ)
    → cb.state ≡ state_closed
    → ((record_failure cb now).failure_count ≡ cb.failure_count + 1)
      × ((record_failure cb now).last_failure_time ≡ now)
      × ((record_failure cb now).state
          ≡ (if leb cb.max_failures (cb.failure_count + 1) then state_open else state_closed))
unfolding record_failure
record_failure-closed cb now s = ground arith

pub config-record_failure :
    (cb : CircuitBreaker) (now : ℕ) → (record_failure cb now).config ≡ cb.config
unfolding record_failure
config-record_failure cb now = ground arith

trip_once :
    (cb : CircuitBreaker) (t now : ℕ)
    → cb.state ≡ state_closed
    → cb.failure_count + 1 ≡ cb.max_failures
    → now ≤ t + cb.reset_timeout
    → ((record_failure cb t).state ≡ state_open)
      × (allow_call (record_failure cb t) now ≡ (record_failure cb t, false))
unfolding record_failure allow_call
trip_once cb t now s e h = ground arith

-- The failures of a list of times, one after the other.
pub failures : CircuitBreaker → List ℕ → CircuitBreaker
failures cb [] = cb
failures cb (t ∷ ts) = failures (record_failure cb t) ts

failures_closed :
    (cb : CircuitBreaker) (ts : List ℕ)
    → cb.state ≡ state_closed
    → cb.failure_count + length ts < cb.max_failures
    → ((failures cb ts).state ≡ state_closed)
      × ((failures cb ts).failure_count ≡ cb.failure_count + length ts)
      × ((failures cb ts).max_failures ≡ cb.max_failures)
unfolding failures
failures_closed cb [] s h = (s, omega arith, refl)
failures_closed cb (t ∷ ts) s h = ground (
  arith,
  record_failure-closed cb t s,
  config-record_failure cb t,
  failures_closed (record_failure cb t) ts,
)

config-failures : (cb : CircuitBreaker) (ts : List ℕ) → (failures cb ts).config ≡ cb.config
unfolding failures
config-failures cb [] = refl
config-failures cb (t ∷ ts) = config-failures (record_failure cb t) ts ∙ config-record_failure cb t

failures-append :
    (cb : CircuitBreaker) (ts us : List ℕ) → failures cb (ts ++ us) ≡ failures (failures cb ts) us
unfolding failures
failures-append cb [] us = refl
failures-append cb (t ∷ ts) us = failures-append (record_failure cb t) ts us

-- A new breaker with a positive limit trips after exactly that many failures in a row: it is still
-- closed before the last of them, and open when that one, at time `t`, has been
-- recorded; it then refuses calls until the reset timeout after `t` has passed.
pub failures_trip :
    (c : Config) (ts : List ℕ) (t now : ℕ)
    → length ts + 1 ≡ c.max_failures
    → now ≤ t + c.reset_timeout
    → let cb = failures (new_circuit_breaker c) ts in
      let tripped = failures (new_circuit_breaker c) (ts ++ t ∷ []) in
      (cb.state ≡ state_closed)
      × (tripped.state ≡ state_open)
      × (allow_call tripped now ≡ (tripped, false))
failures_trip c ts t now e h =
    let fresh = new_circuit_breaker c in
    let (closed, counted, limit) =
      failures_closed fresh ts (unfold new_circuit_breaker in refl)
        (unfold new_circuit_breaker in omega arith) in
    rw (failures-append fresh ts (t ∷ [])) (
      unfold failures in
      let (tripped, refused) =
        trip_once (failures fresh ts) t now closed
          (rw limit (rw counted (unfold new_circuit_breaker in omega arith)))
          (rw (config-failures fresh ts) (unfold new_circuit_breaker in h)) in
      (closed, tripped, refused))
