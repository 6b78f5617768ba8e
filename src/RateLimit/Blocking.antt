-- ===== src/RateLimit/Blocking.antt =====
-- Blocks, automatic blocks and the clean-up of internal/validation/ratelimit.go.
use frontend_router_mcp.Base.{
  IsKeyed, ℕ, ◌+◌, ◌≤◌, ◌<◌, ◌≡◌, refl, arith, String, Bool, true, false, if◌then◌else◌, [], ◌∷◌,
  Option, none, some, Dict, lookup, insert, eq_iff, eq_refl, lookup-insert, ◌⊎◌,
}
use frontend_router_mcp.RateLimit.{
  Rate, RateLimiter, ClientRateLimit, client_blocked, auto_blocked, client_exceeded, allow_request,
  request_passed, request_known, unblock_if_over, remove_expired, cleanup, is_expired,
}

module _ {L : Type 0} where
  -- The violations and the block of a client that may be missing.
  abbrev pub violations : Option (ClientRateLimit L) → Option ℕ
  violations none = none
  violations (some c) = some c.violation_count

  abbrev pub block : Option (ClientRateLimit L) → Option (Bool × ℕ)
  block none = none
  block (some c) = some (c.is_blocked, c.blocked_until)

module _ {L : Type 0} (rate : Rate L) where
  -- A request of a client that is blocked beyond now is refused as such once the global limit has
  -- let it through; of the client only the time of last contact changes, and it stays blocked.
  pub blocked_refused :
      (rl : RateLimiter L) (id ip : String) (now : ℕ) (c : ClientRateLimit L)
      → (rate.allow now rl.global).0 ≡ true
      → lookup id rl.clients ≡ some c
      → c.is_blocked ≡ true
      → now < c.blocked_until
      → let (rl', refused) = allow_request rate rl id ip now in
        (refused ≡ some client_blocked)
        × (lookup id rl'.clients ≡ some (record c { last_seen = now }))
  unfolding allow_request
  blocked_refused rl id ip now c g f b u =
      ground (arith, lookup-insert id id (record c { last_seen = now }) rl.clients, eq_refl id)

  -- If the global limit lets a request of a known client through that is not blocked, and the
  -- client's own limit refuses it, that counts as a violation. The one that reaches
  -- `AutoBlockThreshold` blocks the client for `AutoBlockDuration`; an earlier one leaves it
  -- unblocked; and the error says which it was.
  pub violation_blocks :
      (rl : RateLimiter L) (id ip : String) (now : ℕ) (c : ClientRateLimit L)
      → (rate.allow now rl.global).0 ≡ true
      → (rate.allow now c.request_limiter).0 ≡ false
      → lookup id rl.clients ≡ some c
      → c.is_blocked ≡ false
      → let (rl', refused) = allow_request rate rl id ip now in
        let after = lookup id rl'.clients in
        (violations after ≡ some (c.violation_count + 1))
        × (rl.auto_block_threshold ≤ c.violation_count + 1
            → (refused ≡ some auto_blocked)
              × (block after ≡ some (true, now + rl.auto_block_duration)))
        × (c.violation_count + 1 < rl.auto_block_threshold
            → (refused ≡ some client_exceeded) × (block after ≡ some (false, c.blocked_until)))
  unfolding allow_request request_passed request_known unblock_if_over
  violation_blocks rl id ip now c g r f b =
      let seen = record c { last_seen = now } in
      let spent = record seen {
        request_limiter = (rate.allow now c.request_limiter).1;
        violation_count = c.violation_count + 1;
      } in
      let held = insert id seen rl.clients in
      ground (
        arith,
        lookup-insert id id spent held,
        lookup-insert id id
            (record spent { is_blocked = true; blocked_until = now + rl.auto_block_duration }) held,
        eq_refl id,
      )

module _ {L : Type 0} where
  lookup-remove_expired :
      (expiry now : ℕ) (id : String) (m : Dict (ClientRateLimit L))
      → IsKeyed m
      → lookup id (remove_expired expiry now m) ≡ (elim (lookup id m) [
        | some c ↦ if is_expired expiry now c then none else some c
        | none ↦ none
      ])
  unfolding lookup remove_expired
  lookup-remove_expired expiry now id [] u = refl
  lookup-remove_expired expiry now id ((k, c) ∷ m) u =
      ground (arith, lookup-remove_expired expiry now id m (u.1), eq_iff k id)

  -- If the keys of the map are distinct, a clean-up leaves every client alone that has connections
  -- or was seen within `ClientExpiry`, and removes every other, even one whose block is not over.
  pub lookup-cleanup :
      (rl : RateLimiter L) (id : String) (now : ℕ) (c : ClientRateLimit L)
      → IsKeyed rl.clients
      → lookup id rl.clients ≡ some c
      → ((c.last_seen + rl.client_expiry < now) × (c.connection_count ≡ 0)
          → lookup id (cleanup rl now).clients ≡ none)
        × ((now ≤ c.last_seen + rl.client_expiry) ⊎ (1 ≤ c.connection_count)
            → lookup id (cleanup rl now).clients ≡ some c)
  unfolding cleanup
  lookup-cleanup rl id now c u f =
      ground (arith, lookup-remove_expired rl.client_expiry now id rl.clients u)
