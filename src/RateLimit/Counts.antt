-- ===== src/RateLimit/Counts.antt =====
-- The count of one client under the calls of internal/validation/ratelimit.go that are no connections.
use frontend_router_mcp.Base.{
  ℕ, ◌+◌, ◌≡◌, refl, sym, ◌∙◌, arith, String, true, false, if◌then◌else◌, [], ◌∷◌, none, lookup,
  Dict, eq_iff, str_eq, lookup-insert, Option-cases, inl, inr, IsKeyed, IsKeyed-insert,
}
use frontend_router_mcp.RateLimit.{
  Rate, RateLimiter, ClientRateLimit, client_or_new, new_client, store, allow_request,
  allow_message, request_passed, request_known, unblock_if_over, block_client, unblock_client,
  cleanup, remove_expired,
}
use frontend_router_mcp.RateLimit.Totals.{count_of}

-- The connections counted for the client `j`.
abbrev pub counted : {L : Type 0} → String → RateLimiter L → ℕ
counted j rl = count_of (lookup j rl.clients)

module _ {L : Type 0} (j : String) where
  pub counted-store :
      (rl : RateLimiter L) (id : String) (c : ClientRateLimit L)
      → counted j (store rl id c) ≡ (if str_eq id j then c.connection_count else counted j rl)
  counted-store rl id c = ground (arith, lookup-insert id j c rl.clients)

  -- The count is as before, and the keys of the map stay distinct.
  abbrev pub Steady : RateLimiter L → RateLimiter L → Type 0
  Steady rl rl' = (counted j rl' ≡ counted j rl) × (IsKeyed rl.clients → IsKeyed rl'.clients)

  Steady-store :
      (rl : RateLimiter L) (id : String) (c : ClientRateLimit L)
      → c.connection_count ≡ counted id rl
      → Steady rl (store rl id c)
  Steady-store rl id c e = (
    ground (arith, counted-store rl id c, eq_iff id j),
    λ keyed. IsKeyed-insert id c rl.clients keyed,
  )

  pub block_client-Steady :
      (rl : RateLimiter L) (id : String) (duration now : ℕ)
      → Steady rl (block_client rl id duration now)
  unfolding block_client
  block_client-Steady rl id duration now = elim (Option-cases (lookup id rl.clients)) [
    | inl e ↦ rw (e, block_client) (refl, λ keyed. keyed)
    | inr (c, e) ↦
        rw (e, block_client)
          (Steady-store rl id (record c { is_blocked = true; blocked_until = now + duration })
            (rw e refl))
  ]

  pub unblock_client-Steady : (rl : RateLimiter L) (id : String) → Steady rl (unblock_client rl id)
  unfolding unblock_client
  unblock_client-Steady rl id = elim (Option-cases (lookup id rl.clients)) [
    | inl e ↦ rw (e, unblock_client) (refl, λ keyed. keyed)
    | inr (c, e) ↦
        rw (e, unblock_client)
          (Steady-store rl id (record c { is_blocked = false; blocked_until = 0 }) (rw e refl))
  ]

module _ {L : Type 0} (rate : Rate L) (j : String) where
  pub new-counted :
      (rl : RateLimiter L) (id ip : String) (now : ℕ)
      → (client_or_new rate rl id ip now).connection_count ≡ counted id rl
  unfolding client_or_new new_client
  new-counted rl id ip now = ground arith

  known-Steady :
      (rl : RateLimiter L) (id ip : String) (now : ℕ) (c : ClientRateLimit L)
      → c.connection_count ≡ counted id rl
      → Steady j rl (request_known rate rl id ip now c).0
  unfolding request_known
  known-Steady rl id ip now c e =
      let spent = record c { request_limiter = (rate.allow now c.request_limiter).1 } in
      let violations = c.violation_count + 1 in
      ground (
        arith,
        Steady-store j rl id spent e,
        Steady-store j rl id (record spent { total_requests = c.total_requests + 1 }) e,
        Steady-store j rl id (record spent { violation_count = violations }) e,
        Steady-store j rl id
            (record spent {
              violation_count = violations;
              is_blocked = true;
              blocked_until = now + rl.auto_block_duration;
            })
            e,
      )

  unblocked-counted :
      (now : ℕ) (c : ClientRateLimit L)
      → (unblock_if_over now c).connection_count ≡ c.connection_count
  unfolding unblock_if_over
  unblocked-counted now c = ground arith

  passed-Steady :
      (rl : RateLimiter L) (id ip : String) (now : ℕ) (c : ClientRateLimit L)
      → c.connection_count ≡ counted id rl
      → Steady j rl (request_passed rate rl id ip now c).0
  unfolding request_passed
  passed-Steady rl id ip now found e =
      let c = record found { last_seen = now } in
      let seen = store rl id c in
      ground (
        arith,
        Steady-store j rl id c e,
        known-Steady seen id ip now (unblock_if_over now c)
            (unblocked-counted now c ∙ e ∙ sym ((Steady-store id rl id c e).0)),
      )

  pub allow_request-Steady :
      (rl : RateLimiter L) (id ip : String) (now : ℕ)
      → Steady j rl (allow_request rate rl id ip now).0
  unfolding allow_request
  allow_request-Steady rl id ip now =
      let rl' = record rl { global = (rate.allow now rl.global).1 } in
      ground (
        arith,
        passed-Steady rl' id ip now (client_or_new rate rl' id ip now) (new-counted rl' id ip now),
      )

  pub allow_message-Steady :
      (rl : RateLimiter L) (id : String) (now : ℕ) → Steady j rl (allow_message rate rl id now).0
  unfolding allow_message
  allow_message-Steady rl id now = elim (Option-cases (lookup id rl.clients)) [
    | inl e ↦ rw (e, allow_message) (refl, λ keyed. keyed)
    | inr (c, e) ↦
        let spent = record c { message_limiter = (rate.allow now c.message_limiter).1 } in
        let same : c.connection_count ≡ counted id rl = rw e refl in
        ground (
          arith,
          Steady-store j rl id (record spent { total_messages = c.total_messages + 1 }) same,
          Steady-store j rl id (record spent { violation_count = c.violation_count + 1 }) same,
        )
  ]

module _ {L : Type 0} where
  expired-absent :
      (k : String) (expiry now : ℕ) (m : Dict (ClientRateLimit L))
      → lookup k m ≡ none
      → lookup k (remove_expired expiry now m) ≡ none
  unfolding remove_expired lookup
  expired-absent k expiry now [] h = refl
  expired-absent k expiry now ((i, c) ∷ m) h = ground (arith, expired-absent k expiry now m)

  expired-counted :
      (j : String) (expiry now : ℕ) (m : Dict (ClientRateLimit L))
      → IsKeyed m
      → count_of (lookup j (remove_expired expiry now m)) ≡ count_of (lookup j m)
  unfolding remove_expired lookup
  expired-counted j expiry now [] u = refl
  expired-counted j expiry now ((i, c) ∷ m) (absent, u) =
      ground
        (arith, expired-counted j expiry now m u, expired-absent i expiry now m absent, eq_iff i j)

  expired-IsKeyed :
      (expiry now : ℕ) (m : Dict (ClientRateLimit L))
      → IsKeyed m
      → IsKeyed (remove_expired expiry now m)
  unfolding remove_expired
  expired-IsKeyed expiry now [] u = u
  expired-IsKeyed expiry now ((i, c) ∷ m) (absent, u) =
      ground (arith, expired-IsKeyed expiry now m u, expired-absent i expiry now m absent)

  -- A clean-up takes away clients without connections only.
  pub cleanup-Steady :
      (j : String) (rl : RateLimiter L) (now : ℕ)
      → IsKeyed rl.clients
      → Steady j rl (cleanup rl now)
  unfolding cleanup
  cleanup-Steady j rl now u = (
    expired-counted j rl.client_expiry now rl.clients u,
    λ _. expired-IsKeyed rl.client_expiry now rl.clients u,
  )
