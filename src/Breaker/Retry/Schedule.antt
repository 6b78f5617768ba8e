-- ===== src/Breaker/Retry/Schedule.antt =====
-- `Retry` of internal/resilience/circuit_breaker.go, described without a circuit breaker.
use Prim.Native.Nat.{min}
use frontend_router_mcp.Base.{
  ℕ, zero, suc, ◌+◌, ◌*◌, ◌%◌, ◌^◌, ◌≡◌, refl, arith, String, true, false, if◌then◌else◌, ◌==◌, ℤ,
  Bool-cases, inl, inr, lookup, suc-not-zero, List, [], ◌∷◌, ap,
}
use frontend_router_mcp.Errors.{Error, nil, is_nil}
use frontend_router_mcp.Breaker.{
  CircuitBreaker, state_closed, new_circuit_breaker, default_config, execute, is_open, allow_call,
  record_result, record_failure,
}
use frontend_router_mcp.Breaker.Manager.{new_manager, get_or_create}
use frontend_router_mcp.Breaker.Retry.{
  Attempt, Outcome, rounds, retry_loop, own_breaker, retry, with_circuit_breaker, stop, waited,
}

-- Attempt after attempt, `budget` at most, until one succeeds, with a wait between two that doubles:
-- the number of calls made, the last error and the waits. `script k` is what the call number `k`
-- returns.
abbrev before : ℕ → ℕ → ℕ × Error × List ℕ → ℕ × Error × List ℕ
before budget backoff (k, err, waits) = (k, err, if budget == 0 then waits else backoff ∷ waits)

pub attempts : (ℕ → Error) → ℕ → ℕ → ℕ → Error → ℕ × Error × List ℕ
attempts script zero k backoff last = (k, last, [])
attempts script (suc budget) k backoff last =
    let rest = attempts script budget (suc k) (backoff * 2 % 2 ^ 64) (script k) in
    if is_nil (script k) then (suc k, nil, []) else before budget backoff rest

-- A function that counts its calls and follows a script.
abbrev pub scripted : (ℕ → Error) → ℕ → ℕ × Error
scripted script k = (suc k, script k)

own_breaker_lem : (name : String) → own_breaker name ≡ new_circuit_breaker (default_config name)
unfolding own_breaker get_or_create new_manager default_config new_circuit_breaker lookup
own_breaker_lem name = refl

-- One attempt of a closed breaker.
execute_fail :
    {W : Type 0} (cb : CircuitBreaker) (now later : ℕ) (fn : W → W × Error) (w : W)
    → cb.state ≡ state_closed
    → is_nil (fn w).1 ≡ false
    → execute cb now later fn w ≡ (record_failure cb later, (fn w).0, (fn w).1)
unfolding execute allow_call record_result
execute_fail cb now later fn w s h = ground arith

execute_pass :
    {W : Type 0} (cb : CircuitBreaker) (now later : ℕ) (fn : W → W × Error) (w : W)
    → cb.state ≡ state_closed
    → ((execute cb now later fn w).1 ≡ (fn w).0) × ((execute cb now later fn w).2 ≡ (fn w).1)
unfolding execute allow_call
execute_pass cb now later fn w s = ground arith

record_failure-opens :
    (cb : CircuitBreaker) (t : ℕ)
    → cb.state ≡ state_closed
    → cb.failure_count + 1 ≡ cb.max_failures
    → is_open (record_failure cb t) ≡ true
unfolding record_failure is_open
record_failure-opens cb t s e = ground arith

record_failure-stays :
    (cb : CircuitBreaker) (t m : ℕ)
    → cb.state ≡ state_closed
    → cb.failure_count + suc (suc m) ≡ cb.max_failures
    → ((record_failure cb t).state ≡ state_closed)
      × ((record_failure cb t).failure_count + suc m ≡ (record_failure cb t).max_failures)
      × (is_open (record_failure cb t) ≡ false)
unfolding record_failure is_open
record_failure-stays cb t m s e = ground arith

-- One failed round, with the breaker's answer and the test of the round counter still open.
retry_loop-fail :
    (script : ℕ → Error) (env : ℕ → Attempt) (n i : ℕ) (cb : CircuitBreaker) (backoff : ℕ)
    (last : Error) (w : ℕ)
    → cb.state ≡ state_closed
    → is_nil (script w) ≡ false
    → (env i).cancelled ≡ nil
    → let cb' = record_failure cb (env i).later in
      retry_loop (scripted script) env (suc n) i cb backoff last w ≡ (
        if is_open cb'
        then stop cb' (suc w) (script w)
        else if n == 0
        then stop cb' (suc w) (script w)
        else waited backoff (
            retry_loop
              (scripted script)
              env
              n
              (suc i)
              cb'
              (backoff * 2 % 2 ^ 64)
              (script w)
              (suc w)))
unfolding retry_loop
retry_loop-fail script env n i cb backoff last w s f c =
    rw (execute_fail cb (env i).now (env i).later (scripted script) w s f, retry_loop)
      (rw f (rw c refl))

retry_loop-pass :
    (script : ℕ → Error) (env : ℕ → Attempt) (n i : ℕ) (cb : CircuitBreaker) (backoff : ℕ)
    (last : Error) (w : ℕ)
    → cb.state ≡ state_closed
    → is_nil (script w) ≡ true
    → let o = retry_loop (scripted script) env (suc n) i cb backoff last w in
      (o.world ≡ suc w) × (o.error ≡ nil) × (o.waits ≡ [])
unfolding retry_loop
retry_loop-pass script env n i cb backoff last w s p =
    let (ran, err) = execute_pass cb (env i).now (env i).later (scripted script) w s in ground arith

abbrev pub Agrees : Outcome ℕ → ℕ × Error × List ℕ → Type 0
Agrees o (k, err, waits) = (o.world ≡ k) × (o.error ≡ err) × (o.waits ≡ waits)

-- A wait before attempts of which there is one at least.
later_wait :
    (b backoff : ℕ) {n : ℕ} (o : Outcome ℕ) (r : ℕ × Error × List ℕ)
    → b ≡ suc n
    → Agrees o r
    → Agrees (waited backoff o) (before b backoff r)
later_wait b backoff {n = n} o r e (world, error, waits) =
    rw (e, suc-not-zero n) (world, error, ap (λ ws. backoff ∷ ws) waits)

attempts-pass :
    (script : ℕ → Error) (b w backoff : ℕ) (last : Error)
    → is_nil (script w) ≡ true
    → attempts script (suc b) w backoff last ≡ (suc w, nil, [])
unfolding attempts
attempts-pass script b w backoff last p = rw (p, attempts)

attempts-fail :
    (script : ℕ → Error) (b w backoff : ℕ) (last : Error)
    → is_nil (script w) ≡ false
    → attempts script (suc b) w backoff last
      ≡ before b backoff (attempts script b (suc w) (backoff * 2 % 2 ^ 64) (script w))
unfolding attempts
attempts-fail script b w backoff last f = rw (f, attempts)

module _ (script : ℕ → Error) (env : ℕ → Attempt) (calm : (i : ℕ) → (env i).cancelled ≡ nil) where
  -- A round agrees if what follows a failure in it does.
  round-Agrees :
      (n b i : ℕ) (cb : CircuitBreaker) (backoff : ℕ) (last : Error) (w : ℕ)
      → cb.state ≡ state_closed
      → let cb' = record_failure cb (env i).later in
        Agrees
          (if is_open cb'
            then stop cb' (suc w) (script w)
            else if n == 0
            then stop cb' (suc w) (script w)
            else waited backoff (
                retry_loop
                  (scripted script)
                  env
                  n
                  (suc i)
                  cb'
                  (backoff * 2 % 2 ^ 64)
                  (script w)
                  (suc w)))
          (before b backoff (attempts script b (suc w) (backoff * 2 % 2 ^ 64) (script w)))
        → Agrees
            (retry_loop (scripted script) env (suc n) i cb backoff last w)
            (attempts script (suc b) w backoff last)
  round-Agrees n b i cb backoff last w s rest = elim (Bool-cases (is_nil (script w))) [
    | inl p ↦
        rw (attempts-pass script b w backoff last p)
          (retry_loop-pass script env n i cb backoff last w s p)
    | inr f ↦
        rw (attempts-fail script b w backoff last f)
          (rw (retry_loop-fail script env n i cb backoff last w s f (calm i)) rest)
  ]

  -- `b` attempts are left: by the round counter, or by the failures that the breaker still takes.
  retry_loop-Agrees :
      (n m b i : ℕ) (cb : CircuitBreaker) (backoff : ℕ) (last : Error) (w : ℕ)
      → cb.state ≡ state_closed
      → cb.failure_count + suc m ≡ cb.max_failures
      → b ≡ min n (suc m)
      → Agrees
          (retry_loop (scripted script) env n i cb backoff last w)
          (attempts script b w backoff last)
  retry_loop-Agrees zero m b i cb backoff last w s e q =
      rw (let z : b ≡ 0 = omega arith in z) (unfold retry_loop attempts in (refl, refl, refl))
  retry_loop-Agrees (suc n) m zero i cb backoff last w s e q = absurd (omega arith)
  retry_loop-Agrees (suc n) zero (suc b) i cb backoff last w s e q =
      round-Agrees n b i cb backoff last w s (
        rw (record_failure-opens cb (env i).later s (omega arith))
          (rw (let z : b ≡ 0 = omega arith in z) (unfold attempts in (refl, refl, refl))))
  retry_loop-Agrees (suc zero) (suc m) (suc b) i cb backoff last w s e q =
      let (still, left, shut) = record_failure-stays cb (env i).later m s e in
      round-Agrees 0 b i cb backoff last w s
        (rw shut (rw (let z : b ≡ 0 = omega arith in z) (unfold attempts in (refl, refl, refl))))
  retry_loop-Agrees (suc (suc n)) (suc m) (suc b) i cb backoff last w s e q =
      let (still, left, shut) = record_failure-stays cb (env i).later m s e in
      round-Agrees (suc n) b i cb backoff last w s (
        rw (shut, suc-not-zero n)
          (later_wait b backoff
            (retry_loop (scripted script) env (suc n) (suc i) (record_failure cb (env i).later)
              (backoff * 2 % 2 ^ 64) (script w) (suc w))
            (attempts script b (suc w) (backoff * 2 % 2 ^ 64) (script w))
            (let z : b ≡ suc (min n m) = omega arith in z)
            (retry_loop-Agrees (suc n) m b (suc i) (record_failure cb (env i).later)
              (backoff * 2 % 2 ^ 64) (script w) (suc w) still left (omega arith))))

-- If the context is never cancelled, `Retry` makes exactly the attempts and the waits of the plain
-- description and returns its last error: it stops at the first success, after `maxRetries` retries, or
-- after five failures, where its own breaker opens; it waits between two attempts, `backoff` at first and
-- then twice as long each time, as far as an int64 goes; with a negative `maxRetries` it makes no
-- attempt and returns nil.
pub retry-attempts :
    (name : String) (max_retries : ℤ) (backoff : ℕ) (script : ℕ → Error) (env : ℕ → Attempt)
    → ((i : ℕ) → (env i).cancelled ≡ nil)
    → Agrees
        (retry name max_retries backoff (scripted script) env 0)
        (attempts script (min (rounds max_retries) 5) 0 backoff nil)
unfolding retry
retry-attempts name max_retries backoff script env calm = rw (own_breaker_lem name) (
    retry_loop-Agrees script env calm (rounds max_retries) 4 (min (rounds max_retries) 5) 0
      (new_circuit_breaker (default_config name)) backoff nil 0 (unfold new_circuit_breaker in refl)
      (unfold new_circuit_breaker default_config in refl) refl)

-- `WithCircuitBreaker` makes a manager of its own at each call, so its breaker is always closed: it
-- calls the function once and returns its error, whatever failed before.
pub with_circuit_breaker_never_opens :
    {W : Type 0} (name : String) (fn : W → W × Error) (now later : ℕ) (w : W)
    → with_circuit_breaker name fn now later w ≡ fn w
unfolding with_circuit_breaker
with_circuit_breaker_never_opens name fn now later w =
    rw (own_breaker_lem name, with_circuit_breaker)
      (let (ran, err) =
          execute_pass (new_circuit_breaker (default_config name)) now later fn w
            (unfold new_circuit_breaker in refl) in
        ground (arith, ran, err))
