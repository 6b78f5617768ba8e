-- ===== src/Breaker/Probes.antt =====
-- The half-open circuit breaker of internal/resilience/circuit_breaker.go.
use Prim.Native.Nat.{min}
use frontend_router_mcp.Base.{
  ℕ, suc, ◌+◌, ◌≤◌, ◌<◌, ◌≡◌, arith, List, [], ◌∷◌, length, if◌then◌else◌,
}
use frontend_router_mcp.Errors.{nil}
use frontend_router_mcp.Breaker.{
  state_closed, state_open, state_half_open, CircuitBreaker, allow_call, record_result,
}

-- How many of the calls at the given times are let through while none of them has returned.
pub admitted : CircuitBreaker → List ℕ → ℕ
admitted cb [] = 0
admitted cb (t ∷ ts) =
    let rest = admitted (allow_call cb t).0 ts in if (allow_call cb t).1 then suc rest else rest

admitted-half_open :
    (cb : CircuitBreaker) (ts : List ℕ)
    → cb.state ≡ state_half_open
    → cb.half_open_calls ≤ cb.half_open_max_calls
    → admitted cb ts + cb.half_open_calls
      ≡ min (length ts + cb.half_open_calls) cb.half_open_max_calls
unfolding admitted allow_call
admitted-half_open cb [] s h = omega arith
admitted-half_open cb (t ∷ ts) s h = ground (arith, admitted-half_open (allow_call cb t).0 ts)

-- Once the reset timeout has passed, an open breaker lets through one call more than its limit of
-- half-open calls, if as many arrive before any of them returns: the call that makes it half-open
-- is not counted.
pub admitted_one_more :
    (cb : CircuitBreaker) (t : ℕ) (ts : List ℕ)
    → cb.state ≡ state_open
    → cb.last_failure_time + cb.reset_timeout < t
    → admitted cb (t ∷ ts) ≡ min (length (t ∷ ts)) (cb.half_open_max_calls + 1)
unfolding admitted allow_call
admitted_one_more cb t ts s h = ground (arith, admitted-half_open (allow_call cb t).0 ts)

-- Calls that are made one after the other and that all succeed, at the given times.
pub succeed : CircuitBreaker → List ℕ → CircuitBreaker
succeed cb [] = cb
succeed cb (t ∷ ts) = succeed (record_result (allow_call cb t).0 t nil) ts

succeed-half_open :
    (cb : CircuitBreaker) (t : ℕ) (ts : List ℕ)
    → cb.state ≡ state_half_open
    → cb.half_open_calls + length (t ∷ ts) ≡ cb.half_open_max_calls
    → ((succeed cb (t ∷ ts)).state ≡ state_closed) × ((succeed cb (t ∷ ts)).failure_count ≡ 0)
unfolding succeed allow_call record_result
succeed-half_open cb t [] s h = ground arith
succeed-half_open cb t (u ∷ us) s h =
    ground (arith, succeed-half_open (record_result (allow_call cb t).0 t nil) u us)

-- An open breaker with a positive limit of half-open calls, once its reset timeout has passed, is
-- closed again with a failure count of 0 by that many successful calls in sequence and one more.
pub succeed_closes :
    (cb : CircuitBreaker) (t u : ℕ) (us : List ℕ)
    → cb.state ≡ state_open
    → cb.last_failure_time + cb.reset_timeout < t
    → length (u ∷ us) ≡ cb.half_open_max_calls
    → ((succeed cb (t ∷ u ∷ us)).state ≡ state_closed)
      × ((succeed cb (t ∷ u ∷ us)).failure_count ≡ 0)
unfolding succeed allow_call record_result
succeed_closes cb t u us s h e =
    ground (arith, succeed-half_open (record_result (allow_call cb t).0 t nil) u us)
