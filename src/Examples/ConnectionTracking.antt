-- ===== src/Examples/ConnectionTracking.antt =====
-- Connections at concrete inputs: a limit of 2, and a token bucket that always allows.
use frontend_router_mcp.Base.{ℕ, ◌≤◌, refl, true, List, [], ◌∷◌, lookup, insert}
use frontend_router_mcp.RateLimit.{
  Rate, RateLimitConfig, add_connection, new_rate_limiter, get_total_connections,
  count_connections_for_ip, new_client, allow_message,
}
use frontend_router_mcp.RateLimit as RateLimit
use frontend_router_mcp.ConnectionTracking.{
  WebSocketValidationConfig, new_web_socket_validator, validate_connection, cleanup,
  update_connection_stats,
}
use frontend_router_mcp.ConnectionTracking.Lifetime.{
  Event, arrives, receives, sweeps, limits, tidies, admitted, IsFresh, admitted-le,
}

abbrev pub always : Rate ℕ
always = record { new_limiter = λ rps burst. burst; allow = λ now left. (true, left) }

abbrev pub two_at_most : RateLimitConfig
two_at_most = record {
  global_rps = 100;
  global_burst = 100;
  client_rps = 10;
  client_burst = 10;
  max_connections = 2;
  max_connections_per_ip = 2;
  max_message_rate = 10;
  max_message_burst = 10;
  client_expiry = 1000;
  auto_block_threshold = 5;
  auto_block_duration = 100;
}

abbrev pub strict : WebSocketValidationConfig
strict = record {
  max_payload_size = 4;
  allowed_message_types = "ping" ∷ "user_response" ∷ [];
  require_message_id = true;
  require_timestamp = true;
  max_connections = 2;
  max_connections_per_ip = 1;
  connection_timeout = 30;
  require_origin = true;
  allowed_origins = "https://localhost" ∷ [];
  validate_subprotocols = true;
  allowed_subprotocols = "mcp-websocket" ∷ [];
  stats_retention_period = 500;
}

-- Both first connections are over and swept away before the third arrives.
abbrev day : List Event
day =
    arrives "ws-1" "10.0.0.1:5000" "10.0.0.1" 1
    ∷ arrives "ws-2" "10.0.0.2:5000" "10.0.0.2" 2
    ∷ receives "ws-1" 64 3
    ∷ limits "ws-1" 4
    ∷ sweeps 1000
    ∷ tidies 1000
    ∷ arrives "ws-3" "10.0.0.3:5000" "10.0.0.3" 1001
    ∷ []

day-IsFresh : IsFresh always (new_web_socket_validator always two_at_most strict) day
unfolding new_web_socket_validator validate_connection cleanup add_connection lookup
    new_rate_limiter get_total_connections count_connections_for_ip insert update_connection_stats
    new_client RateLimit.cleanup allow_message
day-IsFresh = (refl, (refl, (refl, tt)))

admitted-le_example : admitted always (new_web_socket_validator always two_at_most strict) day ≤ 2
admitted-le_example = admitted-le always two_at_most strict day day-IsFresh
