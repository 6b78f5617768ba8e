-- ===== src/ConnectionTracking.antt =====
-- The tracking of connections in internal/validation/websocket_middleware.go: `ValidateConnection`,
-- `removeConnection`, the statistics and `cleanup`. The ids of `generateClientID` come from the
-- clock, and are arguments. The socket, its deadlines and the contexts are not modelled.
pub mod Lifetime
use Prim.Native.String.{◌++◌}
use frontend_router_mcp.Base.{
  ℕ, ◌+◌, Bool, List, String, if◌then◌else◌, ltb, [], ◌∷◌, Option, none, some, Dict, lookup, insert,
  delete,
}
use frontend_router_mcp.RateLimit.{
  Rate, RateLimiter, RateError, RateLimitConfig, new_rate_limiter, add_connection,
}
use frontend_router_mcp.RateLimit as RateLimit

pub record ValidatedConnection : Type 0 where
  pub id : String
  pub remote_addr : String
  pub last_activity : ℕ
  pub message_count : ℕ
  pub bytes_received : ℕ

pub record MessageStats : Type 0 where
  pub client_id : String
  pub message_type : String
  pub count : ℕ
  pub total_bytes : ℕ
  pub last_message_time : ℕ

-- The fields of the configuration that the modelled functions read.
pub record WebSocketValidationConfig : Type 0 where
  pub max_payload_size : ℕ
  pub allowed_message_types : List String
  pub require_message_id : Bool
  pub require_timestamp : Bool
  pub max_connections : ℕ
  pub max_connections_per_ip : ℕ
  pub connection_timeout : ℕ
  pub require_origin : Bool
  pub allowed_origins : List String
  pub validate_subprotocols : Bool
  pub allowed_subprotocols : List String
  pub stats_retention_period : ℕ

pub record WebSocketValidator (L : Type 0) : Type 0 where
  pub connections : Dict ValidatedConnection
  pub message_stats : Dict MessageStats
  pub rate_limiter : RateLimiter L
  pub config : WebSocketValidationConfig

unfoldable pub active_connections : ℕ → ℕ → Dict ValidatedConnection → Dict ValidatedConnection
active_connections timeout now [] = []
active_connections timeout now ((k, conn) ∷ rest) =
    let kept = active_connections timeout now rest in
    if ltb (conn.last_activity + timeout) now then kept else (k, conn) ∷ kept

unfoldable pub recent_stats : ℕ → ℕ → Dict MessageStats → Dict MessageStats
recent_stats period now [] = []
recent_stats period now ((k, stats) ∷ rest) =
    let kept = recent_stats period now rest in
    if ltb (stats.last_message_time + period) now then kept else (k, stats) ∷ kept

abbrev pub bumped : MessageStats → ℕ → ℕ → MessageStats
bumped stats size now = record stats {
  count = stats.count + 1;
  total_bytes = stats.total_bytes + size;
  last_message_time = now;
}

abbrev pub no_stats : String → String → MessageStats
no_stats client_id message_type = record {
  client_id = client_id;
  message_type = message_type;
  count = 0;
  total_bytes = 0;
  last_message_time = 0;
}

abbrev pub opened : String → String → ℕ → ValidatedConnection
opened client_id remote_addr now = record {
  id = client_id;
  remote_addr = remote_addr;
  last_activity = now;
  message_count = 0;
  bytes_received = 0;
}

module _ {L : Type 0} where
  -- `removeConnection`
  unfoldable pub remove_connection : WebSocketValidator L → String → ℕ → WebSocketValidator L
  remove_connection wsv client_id now = elim (lookup client_id wsv.connections) [
    | some conn ↦ record wsv {
      rate_limiter = RateLimit.remove_connection wsv.rate_limiter client_id now;
      connections = delete client_id wsv.connections;
    }
    | none ↦ wsv
  ]

  -- `updateConnectionStats`: the object of the map, by its id.
  unfoldable pub update_connection_stats :
      WebSocketValidator L → String → ℕ → ℕ → WebSocketValidator L
  update_connection_stats wsv client_id size now = elim (lookup client_id wsv.connections) [
    | some conn ↦ record wsv {
      connections =
          insert client_id
            (record conn {
              message_count = conn.message_count + 1;
              bytes_received = conn.bytes_received + size;
              last_activity = now;
            })
            wsv.connections;
    }
    | none ↦ wsv
  ]

  -- `updateMessageStats`
  unfoldable pub update_message_stats :
      WebSocketValidator L → String → String → ℕ → ℕ → WebSocketValidator L
  update_message_stats wsv client_id message_type size now =
      let key = client_id ++ ":" ++ message_type in
      let stats : MessageStats = elim (lookup key wsv.message_stats) [
        | some stats ↦ stats
        | none ↦ no_stats client_id message_type
      ] in
      record wsv { message_stats = insert key (bumped stats size now) wsv.message_stats }

  -- `cleanup`
  unfoldable pub cleanup : WebSocketValidator L → ℕ → WebSocketValidator L
  unfolding active_connections recent_stats
  cleanup wsv now = record wsv {
    connections = active_connections wsv.config.connection_timeout now wsv.connections;
    message_stats = recent_stats wsv.config.stats_retention_period now wsv.message_stats;
  }

module _ {L : Type 0} (rate : Rate L) where
  -- `NewWebSocketValidator`, whose rate limiter has the configuration `DefaultRateLimitConfig`.
  unfoldable pub new_web_socket_validator :
      RateLimitConfig → WebSocketValidationConfig → WebSocketValidator L
  new_web_socket_validator limits config = record {
    connections = [];
    message_stats = [];
    rate_limiter = new_rate_limiter rate limits;
    config = config;
  }

  refused_or_not :
      WebSocketValidator L
      → String
      → ℕ
      → RateLimiter L × Option RateError
      → WebSocketValidator L × Option RateError
  unfolding remove_connection
  refused_or_not wsv client_id now (rl, none) = (record wsv { rate_limiter = rl }, none)
  refused_or_not wsv client_id now (rl, some err) =
      (remove_connection (record wsv { rate_limiter = rl }) client_id now, some err)

  -- `ValidateConnection`: the connection is tracked, then counted, and removed if that is refused.
  unfoldable pub validate_connection :
      WebSocketValidator L → String → String → String → ℕ → WebSocketValidator L × Option RateError
  unfolding refused_or_not
  validate_connection wsv client_id remote_addr client_ip now =
      let tracked = record wsv {
        connections = insert client_id (opened client_id remote_addr now) wsv.connections;
      } in
      refused_or_not tracked client_id now
        (add_connection rate wsv.rate_limiter client_id client_ip now)
