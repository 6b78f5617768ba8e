-- ===== src/RateLimit/Addresses.antt =====
-- Connections by address in internal/validation/ratelimit.go.
use frontend_router_mcp.Base.{
  ℕ, ◌+◌, ◌≤◌, ◌≡◌, ◌≢◌, arith, String, none, some, lookup, eq_iff, eq_refl,
}
use frontend_router_mcp.RateLimit.{
  Rate, RateLimiter, ClientRateLimit, count_connections_for_ip, client_or_new, new_client, store,
  add_connection,
}
use frontend_router_mcp.RateLimit.Totals.{count_connections_for_ip-insert}
use frontend_router_mcp.RateLimit.Connections.{add_connection_total}

module _ {L : Type 0} (rate : Rate L) where
  -- The client after a connection that was accepted.
  abbrev connected : RateLimiter L → String → String → ℕ → ClientRateLimit L
  connected rl id ip now =
      let c = client_or_new rate rl id ip now in
      record c { connection_count = c.connection_count + 1; last_seen = now }

  add_connection-store :
      (rl : RateLimiter L) (id ip : String) (now : ℕ)
      → (add_connection rate rl id ip now).1 ≡ none
      → (add_connection rate rl id ip now).0 ≡ store rl id (connected rl id ip now)
  unfolding add_connection
  add_connection-store rl id ip now h = ground arith

  -- The address that a connection is counted under.
  abbrev pub address : RateLimiter L → String → String → String
  address rl id ip = elim (lookup id rl.clients) [ some c ↦ c.ip | none ↦ ip ]

  -- Connections are counted under the address that the client was first seen with: a successful
  -- `AddConnection` raises the count of that address by one and leaves that of every other alone,
  -- whatever address the connection comes from. Only if it comes from the same address is the count
  -- then within `MaxConnectionsPerIP`.
  pub add_connection-address :
      (rl : RateLimiter L) (id ip other : String) (now : ℕ)
      → (add_connection rate rl id ip now).1 ≡ none
      → let after = (add_connection rate rl id ip now).0.clients in
        (count_connections_for_ip (address rl id ip) after
          ≡ count_connections_for_ip (address rl id ip) rl.clients + 1)
        × (address rl id ip ≢ other
            → count_connections_for_ip other after ≡ count_connections_for_ip other rl.clients)
        × (address rl id ip ≡ ip → count_connections_for_ip ip after ≤ rl.max_connections_per_ip)
  unfolding client_or_new new_client
  add_connection-address rl id ip other now h =
      let c = connected rl id ip now in
      let at = address rl id ip in
      rw (add_connection-store rl id ip now h) (
        ground (
          arith,
          count_connections_for_ip-insert at id c rl.clients,
          count_connections_for_ip-insert other id c rl.clients,
          eq_refl at,
          eq_iff at other,
          add_connection_total rate rl id ip now,
        ))
