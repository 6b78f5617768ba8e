-- ===== src/ConnectionTracking/Lifetime.antt =====
-- How many connections a validator of WebSocket connections lets in over its life.
use frontend_router_mcp.Base.{
  ℕ, suc, ◌+◌, ◌≤◌, ◌≡◌, ap, arith, String, List, [], ◌∷◌, Option, none, some, lookup,
  lookup-insert, eq_refl,
}
use frontend_router_mcp.RateLimit.{
  Rate, RateLimiter, RateError, RateLimitConfig, new_rate_limiter, add_connection, allow_message,
  get_total_connections,
}
use frontend_router_mcp.RateLimit as RateLimit
use frontend_router_mcp.RateLimit.Connections.{add_connection_total, allow_message-Keeps}
use frontend_router_mcp.RateLimit.Totals.{get_total_connections-remove_expired}
use frontend_router_mcp.RateLimit.History.{add_connection-config}
use frontend_router_mcp.ConnectionTracking.{
  WebSocketValidator, WebSocketValidationConfig, remove_connection, update_connection_stats,
  cleanup, opened, new_web_socket_validator, validate_connection,
}

-- A new connection, with its id, remote address and client address; a message; a clean-up; and what
-- the rate limiter does meanwhile: `AllowMessage`, and its own clean-up. The last argument is the time.
pub data Event : Type 0 where
  arrives : String → String → String → ℕ → Event
  receives : String → ℕ → ℕ → Event
  sweeps : ℕ → Event
  limits : String → ℕ → Event
  tidies : ℕ → Event

abbrev pub total : {L : Type 0} → WebSocketValidator L → ℕ
total wsv = get_total_connections wsv.rate_limiter.clients

abbrev pub counted : Option RateError → ℕ → ℕ
counted none n = suc n
counted (some err) n = n

module _ {L : Type 0} (rate : Rate L) where
  abbrev pub after : WebSocketValidator L → Event → WebSocketValidator L
  after wsv (arrives id addr ip now) = (validate_connection rate wsv id addr ip now).0
  after wsv (receives id size now) = update_connection_stats wsv id size now
  after wsv (sweeps now) = cleanup wsv now
  after wsv (limits id now) = record wsv {
    rate_limiter = (allow_message rate wsv.rate_limiter id now).0;
  }
  after wsv (tidies now) = record wsv { rate_limiter = RateLimit.cleanup wsv.rate_limiter now }

  -- The connections that the events let in.
  abbrev pub admitted : WebSocketValidator L → List Event → ℕ
  admitted wsv [] = 0
  admitted wsv (arrives id addr ip now ∷ es) =
      let rest = admitted (after wsv (arrives id addr ip now)) es in
      counted (validate_connection rate wsv id addr ip now).1 rest
  admitted wsv (receives id size now ∷ es) = admitted (after wsv (receives id size now)) es
  admitted wsv (sweeps now ∷ es) = admitted (after wsv (sweeps now)) es
  admitted wsv (limits id now ∷ es) = admitted (after wsv (limits id now)) es
  admitted wsv (tidies now ∷ es) = admitted (after wsv (tidies now)) es

  -- Each new connection has an id that the rate limiter does not know.
  abbrev pub IsFresh : WebSocketValidator L → List Event → Type 0
  IsFresh wsv [] = Unit
  IsFresh wsv (arrives id addr ip now ∷ es) =
      (lookup id wsv.rate_limiter.clients ≡ none) × IsFresh (after wsv (arrives id addr ip now)) es
  IsFresh wsv (receives id size now ∷ es) = IsFresh (after wsv (receives id size now)) es
  IsFresh wsv (sweeps now ∷ es) = IsFresh (after wsv (sweeps now)) es
  IsFresh wsv (limits id now ∷ es) = IsFresh (after wsv (limits id now)) es
  IsFresh wsv (tidies now ∷ es) = IsFresh (after wsv (tidies now)) es

  -- A connection that is let in is counted, below the limit, and one that is refused leaves the count.
  validate_connection-total :
      (wsv : WebSocketValidator L) (id addr ip : String) (now : ℕ)
      → lookup id wsv.rate_limiter.clients ≡ none
      → total wsv ≤ wsv.rate_limiter.max_connections
      → let (wsv', refused) = validate_connection rate wsv id addr ip now in
        (wsv'.rate_limiter.max_connections ≡ wsv.rate_limiter.max_connections)
        × (total wsv' ≡ counted refused 0 + total wsv)
        × (total wsv' ≤ wsv.rate_limiter.max_connections)
  unfolding validate_connection remove_connection RateLimit.remove_connection
  validate_connection-total wsv id addr ip now new le = ground (
    arith,
    add_connection_total rate wsv.rate_limiter id ip now,
    add_connection-config rate wsv.rate_limiter id ip now,
    lookup-insert id id (opened id addr now) wsv.connections,
    eq_refl id,
  )

  counted-add : (r : Option RateError) (n : ℕ) → counted r n ≡ counted r 0 + n
  counted-add none n = omega arith
  counted-add (some err) n = omega arith

  update_connection_stats-limiter :
      (wsv : WebSocketValidator L) (id : String) (size now : ℕ)
      → (update_connection_stats wsv id size now).rate_limiter ≡ wsv.rate_limiter
  unfolding update_connection_stats
  update_connection_stats-limiter wsv id size now = ground arith

  admitted_and_total :
      (wsv : WebSocketValidator L) (es : List Event)
      → total wsv ≤ wsv.rate_limiter.max_connections
      → IsFresh wsv es
      → admitted wsv es + total wsv ≤ wsv.rate_limiter.max_connections
  unfolding cleanup RateLimit.cleanup
  admitted_and_total wsv [] le fresh = omega arith
  admitted_and_total wsv (arrives id addr ip now ∷ es) le (new, fresh) =
      let r = (validate_connection rate wsv id addr ip now).1 in
      let wsv' = (validate_connection rate wsv id addr ip now).0 in
      let (same, one_more, below) = validate_connection-total wsv id addr ip now new le in
      omega
        (arith, admitted_and_total wsv' es (omega arith) fresh, counted-add r (admitted wsv' es))
  admitted_and_total wsv (receives id size now ∷ es) le fresh =
      let wsv' = update_connection_stats wsv id size now in
      let same = update_connection_stats-limiter wsv id size now in
      let same_total = ap (λ rl. get_total_connections rl.clients) same in
      let same_limit = ap (λ rl. rl.max_connections) same in
      omega (arith, admitted_and_total wsv' es (omega arith) fresh)
  admitted_and_total wsv (sweeps now ∷ es) le fresh =
      admitted_and_total (cleanup wsv now) es le fresh
  admitted_and_total wsv (limits id now ∷ es) le fresh =
      let (same, same_total) = allow_message-Keeps rate wsv.rate_limiter id now in
      let same_limit = ap (λ config. config.max_connections) same in
      omega (arith, admitted_and_total (after wsv (limits id now)) es (omega arith) fresh)
  admitted_and_total wsv (tidies now ∷ es) le fresh =
      let expiry = wsv.rate_limiter.client_expiry in
      let same_total = get_total_connections-remove_expired expiry now wsv.rate_limiter.clients in
      omega (arith, admitted_and_total (after wsv (tidies now)) es (omega arith) fresh)

  -- A new validator lets in no more connections than the connection limit of its rate limiter over
  -- its whole life, if each has an id that the rate limiter does not know, however many of them are
  -- over and cleaned up in between, with any messages and clean-ups of the rate limiter: no clean-up
  -- gives back what a connection was counted for.
  pub admitted-le :
      (rates : RateLimitConfig) (config : WebSocketValidationConfig) (es : List Event)
      → IsFresh (new_web_socket_validator rate rates config) es
      → admitted (new_web_socket_validator rate rates config) es ≤ rates.max_connections
  unfolding new_web_socket_validator new_rate_limiter get_total_connections
  admitted-le rates config es fresh = omega (
    arith,
    admitted_and_total (new_web_socket_validator rate rates config) es (omega arith) fresh,
  )
