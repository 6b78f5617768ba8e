-- ===== src/RateLimit.antt =====
-- internal/validation/ratelimit.go: per-client rate limits, connection counts and blocking. The token
-- buckets are those of golang.org/x/time/rate, an argument. Times and durations are numbers of
-- nanoseconds, the zero time is 0, and the clock is read once for each call. The default configuration,
-- the context of a request and the clean-up ticker are not modelled.
pub mod Totals
pub mod Connections
pub mod History
pub mod Addresses
pub mod Blocking
pub mod Counts
pub mod Serving
use frontend_router_mcp.Base.{
  ℕ, ◌+◌, String, Bool, true, false, ◌&&◌, if◌then◌else◌, List, [], ◌∷◌, Option, none, some, Dict,
  lookup, insert, str_eq, ltb, leb, ◌==◌, ◌-◌,
}

-- A token bucket: `rate.NewLimiter(rps, burst)`, and `Allow` at a time.
pub record Rate (L : Type 0) : Type 0 where
  pub new_limiter : ℕ → ℕ → L
  pub allow : ℕ → L → Bool × L

pub record RateLimitConfig : Type 0 where
  pub global_rps : ℕ
  pub global_burst : ℕ
  pub client_rps : ℕ
  pub client_burst : ℕ
  pub max_connections : ℕ
  pub max_connections_per_ip : ℕ
  pub max_message_rate : ℕ
  pub max_message_burst : ℕ
  pub client_expiry : ℕ
  pub auto_block_threshold : ℕ
  pub auto_block_duration : ℕ

pub record ClientRateLimit (L : Type 0) : Type 0 where
  pub id : String
  pub ip : String
  pub request_limiter : L
  pub message_limiter : L
  pub connection_count : ℕ
  pub last_seen : ℕ
  pub total_requests : ℕ
  pub total_messages : ℕ
  pub violation_count : ℕ
  pub is_blocked : Bool
  pub blocked_until : ℕ
  pub created_at : ℕ

pub record RateLimiter (L : Type 0) : Type 0 where
  pub clients : Dict (ClientRateLimit L)
  pub global : L
  pub config : RateLimitConfig
  pub open config use *

-- Why a call is refused.
pub data RateError : Type 0 where
  global_exceeded client_blocked auto_blocked client_exceeded too_many_from_ip : RateError
  client_not_found message_exceeded max_connections_exceeded : RateError

module _ {L : Type 0} (rate : Rate L) where
  unfoldable pub new_rate_limiter : RateLimitConfig → RateLimiter L
  new_rate_limiter config = record {
    clients = [];
    global = rate.new_limiter config.global_rps config.global_burst;
    config = config;
  }

  unfoldable pub new_client : RateLimitConfig → String → String → ℕ → ClientRateLimit L
  new_client config client_id client_ip now = record {
    id = client_id;
    ip = client_ip;
    request_limiter = rate.new_limiter config.client_rps config.client_burst;
    message_limiter = rate.new_limiter config.max_message_rate config.max_message_burst;
    connection_count = 0;
    last_seen = now;
    total_requests = 0;
    total_messages = 0;
    violation_count = 0;
    is_blocked = false;
    blocked_until = 0;
    created_at = now;
  }

  -- The client of that id, or a new one.
  unfoldable pub client_or_new : RateLimiter L → String → String → ℕ → ClientRateLimit L
  client_or_new rl client_id client_ip now = elim (lookup client_id rl.clients) [
    | some c ↦ c
    | none ↦ new_client rl.config client_id client_ip now
  ]

module _ {L : Type 0} where
  -- `getTotalConnections`
  unfoldable pub get_total_connections : Dict (ClientRateLimit L) → ℕ
  get_total_connections [] = 0
  get_total_connections ((k, c) ∷ m) = c.connection_count + get_total_connections m

  -- `countConnectionsForIP`
  unfoldable pub count_connections_for_ip : String → Dict (ClientRateLimit L) → ℕ
  count_connections_for_ip ip [] = 0
  count_connections_for_ip ip ((k, c) ∷ m) =
      (if str_eq c.ip ip then c.connection_count else 0) + count_connections_for_ip ip m

  abbrev pub store : RateLimiter L → String → ClientRateLimit L → RateLimiter L
  store rl client_id c = record rl { clients = insert client_id c rl.clients }

  -- The two branches on `client.IsBlocked` that do not return.
  unblock_if_over : ℕ → ClientRateLimit L → ClientRateLimit L
  unblock_if_over now c =
      if c.is_blocked && ltb c.blocked_until now
      then record c { is_blocked = false; blocked_until = 0 }
      else c

module _ {L : Type 0} (rate : Rate L) where
  -- `AllowRequest` once the client is known not to be blocked.
  request_known :
      RateLimiter L → String → String → ℕ → ClientRateLimit L → RateLimiter L × Option RateError
  request_known rl client_id client_ip now c =
      let (ok, limiter) = rate.allow now c.request_limiter in
      let spent = record c { request_limiter = limiter } in
      let violations = c.violation_count + 1 in
      if ok
      then (if leb rl.max_connections_per_ip (count_connections_for_ip client_ip rl.clients)
          then (store rl client_id spent, some too_many_from_ip)
          else (store rl client_id (record spent { total_requests = c.total_requests + 1 }), none))
      else if leb rl.auto_block_threshold violations
      then (
        store rl client_id (record spent {
          violation_count = violations;
          is_blocked = true;
          blocked_until = now + rl.auto_block_duration;
        }),
        some auto_blocked,
      )
      else (
        store rl client_id (record spent { violation_count = violations }),
        some client_exceeded,
      )

  -- `AllowRequest` once the global limit has let the request through.
  request_passed :
      RateLimiter L → String → String → ℕ → ClientRateLimit L → RateLimiter L × Option RateError
  unfolding request_known unblock_if_over
  request_passed rl client_id client_ip now found =
      let c = record found { last_seen = now } in
      let seen = store rl client_id c in
      if c.is_blocked && ltb now c.blocked_until
      then (seen, some client_blocked)
      else request_known seen client_id client_ip now (unblock_if_over now c)

  -- `AllowRequest`: `none` is "allowed".
  unfoldable pub allow_request :
      RateLimiter L → String → String → ℕ → RateLimiter L × Option RateError
  unfolding request_passed client_or_new
  allow_request rl client_id client_ip now =
      let (ok, global) = rate.allow now rl.global in
      let rl' = record rl { global = global } in
      if ok
      then request_passed rl' client_id client_ip now
          (client_or_new rate rl' client_id client_ip now)
      else (rl', some global_exceeded)

  message_known : RateLimiter L → String → ℕ → ClientRateLimit L → RateLimiter L × Option RateError
  message_known rl client_id now c =
      let (ok, limiter) = rate.allow now c.message_limiter in
      let spent = record c { message_limiter = limiter } in
      if c.is_blocked && ltb now c.blocked_until
      then (rl, some client_blocked)
      else if ok
      then (store rl client_id (record spent { total_messages = c.total_messages + 1 }), none)
      else (
        store rl client_id (record spent { violation_count = c.violation_count + 1 }),
        some message_exceeded,
      )

  -- `AllowMessage`
  unfoldable pub allow_message : RateLimiter L → String → ℕ → RateLimiter L × Option RateError
  unfolding message_known
  allow_message rl client_id now = elim (lookup client_id rl.clients) [
    | some c ↦ message_known rl client_id now c
    | none ↦ (rl, some client_not_found)
  ]

  -- `AddConnection`
  unfoldable pub add_connection :
      RateLimiter L → String → String → ℕ → RateLimiter L × Option RateError
  unfolding client_or_new
  add_connection rl client_id client_ip now =
      let c = client_or_new rate rl client_id client_ip now in
      if leb rl.max_connections (get_total_connections rl.clients)
      then (rl, some max_connections_exceeded)
      else if leb rl.max_connections_per_ip (count_connections_for_ip client_ip rl.clients)
      then (rl, some too_many_from_ip)
      else (
        store rl client_id
            (record c { connection_count = c.connection_count + 1; last_seen = now }),
        none,
      )

module _ {L : Type 0} where
  -- `RemoveConnection`: the count is decremented, and set to 0 if that made it negative, which is
  -- subtraction that stops at 0.
  unfoldable pub remove_connection : RateLimiter L → String → ℕ → RateLimiter L
  remove_connection rl client_id now = elim (lookup client_id rl.clients) [
    | some c ↦
        store rl client_id (record c { connection_count = c.connection_count - 1; last_seen = now })
    | none ↦ rl
  ]

  -- `BlockClient` for a duration from now, and `UnblockClient`.
  unfoldable pub block_client : RateLimiter L → String → ℕ → ℕ → RateLimiter L
  block_client rl client_id duration now = elim (lookup client_id rl.clients) [
    | some c ↦ store rl client_id (record c { is_blocked = true; blocked_until = now + duration })
    | none ↦ rl
  ]

  unfoldable pub unblock_client : RateLimiter L → String → RateLimiter L
  unblock_client rl client_id = elim (lookup client_id rl.clients) [
    | some c ↦ store rl client_id (record c { is_blocked = false; blocked_until = 0 })
    | none ↦ rl
  ]

  -- `now.Sub(client.LastSeen) > ClientExpiry && client.ConnectionCount == 0`
  abbrev pub is_expired : ℕ → ℕ → ClientRateLimit L → Bool
  is_expired expiry now c = ltb (c.last_seen + expiry) now && c.connection_count == 0

  unfoldable pub remove_expired : ℕ → ℕ → Dict (ClientRateLimit L) → Dict (ClientRateLimit L)
  remove_expired expiry now [] = []
  remove_expired expiry now ((k, c) ∷ m) =
      let rest = remove_expired expiry now m in
      if is_expired expiry now c then rest else (k, c) ∷ rest

  -- `Cleanup`
  unfoldable pub cleanup : RateLimiter L → ℕ → RateLimiter L
  unfolding remove_expired
  cleanup rl now = record rl { clients = remove_expired rl.client_expiry now rl.clients }
