-- ===== src/RateLimit/Connections.antt =====
-- The effect of each call of internal/validation/ratelimit.go on the counts of connections.
use frontend_router_mcp.Base.{
  ℕ, ◌+◌, ◌≤◌, ◌<◌, ◌≡◌, refl, sym, ◌∙◌, arith, String, true, none, some, lookup, eq_refl,
  lookup-insert, Option-cases, inl, inr, ◌⊎◌,
}
use frontend_router_mcp.RateLimit.{
  Rate, RateLimiter, ClientRateLimit, too_many_from_ip, max_connections_exceeded,
  get_total_connections, count_connections_for_ip, client_or_new, new_client, store, allow_request,
  allow_message, add_connection, request_passed, request_known, unblock_if_over,
}
use frontend_router_mcp.RateLimit.Totals.{count_of, get_total_connections-insert}

module _ {L : Type 0} where
  -- The total after a store of a client under its id.
  total-store :
      (rl : RateLimiter L) (id : String) (c : ClientRateLimit L)
      → get_total_connections (store rl id c).clients + count_of (lookup id rl.clients)
        ≡ get_total_connections rl.clients + c.connection_count
  total-store rl id c = get_total_connections-insert id c rl.clients

  -- The configuration and the total are as before.
  abbrev pub Keeps : RateLimiter L → RateLimiter L → Type 0
  Keeps rl rl' =
      (rl'.config ≡ rl.config)
      × (get_total_connections rl'.clients ≡ get_total_connections rl.clients)

  pub Keeps-store :
      (rl : RateLimiter L) (id : String) (c : ClientRateLimit L)
      → c.connection_count ≡ count_of (lookup id rl.clients)
      → Keeps rl (store rl id c)
  Keeps-store rl id c e = (refl, omega (arith, total-store rl id c))

  count_of-store :
      (rl : RateLimiter L) (id : String) (c : ClientRateLimit L)
      → count_of (lookup id (store rl id c).clients) ≡ c.connection_count
  count_of-store rl id c = ground (arith, lookup-insert id id c rl.clients, eq_refl id)

module _ {L : Type 0} (rate : Rate L) where
  client_or_new-count :
      (rl : RateLimiter L) (id ip : String) (now : ℕ)
      → (client_or_new rate rl id ip now).connection_count ≡ count_of (lookup id rl.clients)
  unfolding client_or_new new_client
  client_or_new-count rl id ip now = ground arith

  -- A successful `AddConnection` finds the total below its limit and raises it by one. A refused one
  -- says which limit is reached, and changes nothing.
  pub add_connection_total :
      (rl : RateLimiter L) (id ip : String) (now : ℕ)
      → let (rl', refused) = add_connection rate rl id ip now in
        ((refused ≡ none)
          × (get_total_connections rl'.clients ≡ get_total_connections rl.clients + 1)
          × (get_total_connections rl.clients < rl.max_connections)
          × (count_connections_for_ip ip rl.clients < rl.max_connections_per_ip))
        ⊎ ((refused ≡ some max_connections_exceeded)
            × (rl' ≡ rl)
            × (rl.max_connections ≤ get_total_connections rl.clients))
        ⊎ ((refused ≡ some too_many_from_ip)
            × (rl' ≡ rl)
            × (rl.max_connections_per_ip ≤ count_connections_for_ip ip rl.clients))
  unfolding add_connection
  add_connection_total rl id ip now =
      let c = client_or_new rate rl id ip now in
      ground (
        arith,
        client_or_new-count rl id ip now,
        get_total_connections-insert id
            (record c { connection_count = c.connection_count + 1; last_seen = now }) rl.clients,
      )

  request_known-Keeps :
      (rl : RateLimiter L) (id ip : String) (now : ℕ) (c : ClientRateLimit L)
      → c.connection_count ≡ count_of (lookup id rl.clients)
      → Keeps rl (request_known rate rl id ip now c).0
  unfolding request_known
  request_known-Keeps rl id ip now c e =
      let spent = record c { request_limiter = (rate.allow now c.request_limiter).1 } in
      let violations = c.violation_count + 1 in
      ground (
        arith,
        Keeps-store rl id spent e,
        Keeps-store rl id (record spent { total_requests = c.total_requests + 1 }) e,
        Keeps-store rl id (record spent { violation_count = violations }) e,
        Keeps-store rl id
            (record spent {
              violation_count = violations;
              is_blocked = true;
              blocked_until = now + rl.auto_block_duration;
            })
            e,
      )

  unblock_if_over-count :
      (now : ℕ) (c : ClientRateLimit L)
      → (unblock_if_over now c).connection_count ≡ c.connection_count
  unfolding unblock_if_over
  unblock_if_over-count now c = ground arith

  request_passed-Keeps :
      (rl : RateLimiter L) (id ip : String) (now : ℕ) (c : ClientRateLimit L)
      → c.connection_count ≡ count_of (lookup id rl.clients)
      → Keeps rl (request_passed rate rl id ip now c).0
  unfolding request_passed
  request_passed-Keeps rl id ip now found e =
      let c = record found { last_seen = now } in
      let seen = store rl id c in
      let first = Keeps-store rl id c e in
      let later =
        request_known-Keeps seen id ip now (unblock_if_over now c)
          (unblock_if_over-count now c ∙ sym (count_of-store rl id c)) in
      ground (arith, first, later)

  pub allow_request-Keeps :
      (rl : RateLimiter L) (id ip : String) (now : ℕ) → Keeps rl (allow_request rate rl id ip now).0
  unfolding allow_request
  allow_request-Keeps rl id ip now =
      let rl' = record rl { global = (rate.allow now rl.global).1 } in
      ground (
        arith,
        request_passed-Keeps rl' id ip now (client_or_new rate rl' id ip now)
            (client_or_new-count rl' id ip now),
      )

  pub allow_message-Keeps :
      (rl : RateLimiter L) (id : String) (now : ℕ) → Keeps rl (allow_message rate rl id now).0
  unfolding allow_message
  allow_message-Keeps rl id now = elim (Option-cases (lookup id rl.clients)) [
    | inl e ↦ rw (e, allow_message) (refl, refl)
    | inr (c, e) ↦
        let spent = record c { message_limiter = (rate.allow now c.message_limiter).1 } in
        let same : c.connection_count ≡ count_of (lookup id rl.clients) = rw e in
        ground (
          arith,
          Keeps-store rl id (record spent { total_messages = c.total_messages + 1 }) same,
          Keeps-store rl id (record spent { violation_count = c.violation_count + 1 }) same,
        )
  ]
