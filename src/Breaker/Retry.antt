-- ===== src/Breaker/Retry.antt =====
-- `Retry` and `WithCircuitBreaker` of internal/resilience/circuit_breaker.go. What is outside the
-- loop is an argument: for each attempt the clock at its two steps, and whether the context was
-- cancelled during the wait that follows it. `backoff` is an int64, kept as its bit pattern.
use frontend_router_mcp.Base.{
  ℕ, zero, suc, ◌+◌, ◌*◌, ◌%◌, ◌^◌, ◌≡◌, String, List, [], ◌∷◌, Bool, if◌then◌else◌, ◌==◌, ℤ, pos,
  negsuc, get_elem?, Option, none, some,
}
use frontend_router_mcp.Errors.{Error, nil, is_nil}
use frontend_router_mcp.Breaker.{
  CircuitBreaker, new_circuit_breaker, default_config, execute, is_open,
}
use frontend_router_mcp.Breaker.Manager.{new_manager, get_or_create}
pub mod Schedule

pub record Attempt : Type 0 where
  pub now : ℕ
  pub later : ℕ
  pub cancelled : Error  -- `ctx.Err()` if the context ended before the wait, nil otherwise

pub record Outcome (W : Type 0) : Type 0 where
  pub breaker : CircuitBreaker
  pub world : W
  pub waits : List ℕ
  pub error : Error

-- `for i := 0; i <= maxRetries; i++` makes this many rounds at most.
pub rounds : ℤ → ℕ
rounds (pos n) = suc n
rounds (negsuc n) = 0

abbrev stop : {W : Type 0} → CircuitBreaker → W → Error → Outcome W
stop cb w err = record { breaker = cb; world = w; waits = []; error = err }

abbrev waited : {W : Type 0} → ℕ → Outcome W → Outcome W
waited d o = record o { waits = d ∷ o.waits }

-- The loop, by the rounds left; `i` counts the attempts made, `last` is `lastErr`.
unfoldable pub retry_loop :
    {W : Type 0}
    → (W → W × Error)
    → (ℕ → Attempt)
    → ℕ
    → ℕ
    → CircuitBreaker
    → ℕ
    → Error
    → W
    → Outcome W
retry_loop fn env zero i cb backoff last w = stop cb w last
retry_loop fn env (suc n) i cb backoff last w =
    let (cb', w', err) = execute cb (env i).now (env i).later fn w in
    let rest = retry_loop fn env n (suc i) cb' (backoff * 2 % 2 ^ 64) err w' in
    if is_nil err
    then stop cb' w' nil
    else if is_open cb'
    then stop cb' w' err
    else if n == 0
    then stop cb' w' err
    else if is_nil (env i).cancelled
    then waited backoff rest
    else waited backoff (stop cb' w' (env i).cancelled)

-- The breaker of `name` in a manager of its own, as `NewManager` and `GetOrCreate` make it.
unfoldable pub own_breaker : String → CircuitBreaker
own_breaker name =
    let (m, r) = get_or_create (new_manager []) name (default_config name) in
    elim (get_elem? m.heap r) [ some cb ↦ cb | none ↦ new_circuit_breaker (default_config name) ]

unfoldable pub retry :
    {W : Type 0} → String → ℤ → ℕ → (W → W × Error) → (ℕ → Attempt) → W → Outcome W
unfolding retry_loop rounds own_breaker
retry name max_retries backoff fn env w =
    retry_loop fn env (rounds max_retries) 0 (own_breaker name) backoff nil w

unfoldable pub with_circuit_breaker :
    {W : Type 0} → String → (W → W × Error) → ℕ → ℕ → W → W × Error
unfolding own_breaker
with_circuit_breaker name fn now later w =
    let (cb, w', err) = execute (own_breaker name) now later fn w in (w', err)
