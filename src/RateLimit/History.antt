-- ===== src/RateLimit/History.antt =====
-- Histories of the calls of internal/validation/ratelimit.go.
use frontend_router_mcp.Base.{
  ℕ, ◌+◌, ◌-◌, ◌≤◌, ◌≡◌, refl, arith, String, true, false, List, [], ◌∷◌, lookup, Option-cases, inl,
  inr,
}
use frontend_router_mcp.RateLimit.{
  Rate, RateLimitConfig, RateLimiter, get_total_connections, new_rate_limiter, allow_request,
  allow_message, add_connection, remove_connection, block_client, unblock_client, cleanup,
}
use frontend_router_mcp.RateLimit.Totals.{
  get_total_connections-insert, get_total_connections-remove_expired,
}
use frontend_router_mcp.RateLimit.Connections.{
  Keeps, Keeps-store, allow_request-Keeps, allow_message-Keeps, add_connection_total,
}

-- The calls on a rate limiter, with their arguments and the time.
pub data Call : Type 0 where
  requests adds : String → String → ℕ → Call
  messages removes : String → ℕ → Call
  blocks : String → ℕ → ℕ → Call
  unblocks : String → Call
  cleans : ℕ → Call

module _ {L : Type 0} (rate : Rate L) where
  pub step : RateLimiter L → Call → RateLimiter L
  step rl (requests id ip now) = (allow_request rate rl id ip now).0
  step rl (adds id ip now) = (add_connection rate rl id ip now).0
  step rl (messages id now) = (allow_message rate rl id now).0
  step rl (removes id now) = remove_connection rl id now
  step rl (blocks id duration now) = block_client rl id duration now
  step rl (unblocks id) = unblock_client rl id
  step rl (cleans now) = cleanup rl now

  pub run : RateLimiter L → List Call → RateLimiter L
  run rl [] = rl
  run rl (c ∷ cs) = run (step rl c) cs

  -- The total is within the limit, and the limit is that of the configuration.
  abbrev Within : RateLimitConfig → RateLimiter L → Type 0
  Within config rl =
      (rl.config ≡ config) × (get_total_connections rl.clients ≤ config.max_connections)

  Keeps-Within :
      (config : RateLimitConfig) (rl rl' : RateLimiter L)
      → Keeps rl rl'
      → Within config rl
      → Within config rl'
  Keeps-Within config rl rl' k v = ground arith

  remove_connection-Within :
      (config : RateLimitConfig) (rl : RateLimiter L) (id : String) (now : ℕ)
      → Within config rl
      → Within config (remove_connection rl id now)
  unfolding remove_connection
  remove_connection-Within config rl id now v = elim (Option-cases (lookup id rl.clients)) [
    | inl e ↦ rw (e, remove_connection) v
    | inr (c, e) ↦ ground (
      arith,
      get_total_connections-insert id
          (record c { connection_count = c.connection_count - 1; last_seen = now }) rl.clients,
    )
  ]

  block_client-Keeps :
      (rl : RateLimiter L) (id : String) (duration now : ℕ)
      → Keeps rl (block_client rl id duration now)
  unfolding block_client
  block_client-Keeps rl id duration now = elim (Option-cases (lookup id rl.clients)) [
    | inl e ↦ rw (e, block_client) (refl, refl)
    | inr (c, e) ↦
        rw (e, block_client)
          (Keeps-store rl id (record c { is_blocked = true; blocked_until = now + duration })
            (rw e))
  ]

  unblock_client-Keeps : (rl : RateLimiter L) (id : String) → Keeps rl (unblock_client rl id)
  unfolding unblock_client
  unblock_client-Keeps rl id = elim (Option-cases (lookup id rl.clients)) [
    | inl e ↦ rw (e, unblock_client) (refl, refl)
    | inr (c, e) ↦
        rw (e, unblock_client)
          (Keeps-store rl id (record c { is_blocked = false; blocked_until = 0 }) (rw e))
  ]

  pub add_connection-config :
      (rl : RateLimiter L) (id ip : String) (now : ℕ)
      → (add_connection rate rl id ip now).0.config ≡ rl.config
  unfolding add_connection
  add_connection-config rl id ip now = ground arith

  step-Within :
      (config : RateLimitConfig) (rl : RateLimiter L) (c : Call)
      → Within config rl
      → Within config (step rl c)
  unfolding step
  step-Within config rl (requests id ip now) v =
      Keeps-Within config rl (allow_request rate rl id ip now).0
        (allow_request-Keeps rate rl id ip now) v
  step-Within config rl (adds id ip now) v =
      ground (arith, add_connection_total rate rl id ip now, add_connection-config rl id ip now)
  step-Within config rl (messages id now) v =
      Keeps-Within config rl (allow_message rate rl id now).0 (allow_message-Keeps rate rl id now) v
  step-Within config rl (removes id now) v = remove_connection-Within config rl id now v
  step-Within config rl (blocks id duration now) v =
      Keeps-Within config rl (block_client rl id duration now)
        (block_client-Keeps rl id duration now) v
  step-Within config rl (unblocks id) v =
      Keeps-Within config rl (unblock_client rl id) (unblock_client-Keeps rl id) v
  step-Within config rl (cleans now) v =
      unfold cleanup in
      ground (arith, get_total_connections-remove_expired rl.client_expiry now rl.clients)

  run-Within :
      (config : RateLimitConfig) (rl : RateLimiter L) (cs : List Call)
      → Within config rl
      → Within config (run rl cs)
  unfolding run
  run-Within config rl [] v = v
  run-Within config rl (c ∷ cs) v = run-Within config (step rl c) cs (step-Within config rl c v)

  -- After any history of requests, messages, connections, disconnections, blocks, unblocks and
  -- clean-ups on a new rate limiter, the connections that it counts are at most `MaxConnections`.
  pub connections_within_limit :
      (config : RateLimitConfig) (cs : List Call)
      → get_total_connections (run (new_rate_limiter rate config) cs).clients
        ≤ config.max_connections
  connections_within_limit config cs =
      (run-Within config (new_rate_limiter rate config) cs
        (unfold new_rate_limiter get_total_connections in (refl, omega arith))).1
