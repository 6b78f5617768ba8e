-- ===== src/Examples/WebSocketUpgrade.antt =====
-- Upgrades at concrete inputs: one connection, from 10.0.0.12, and room for one for each address.
use frontend_router_mcp.Base.{ℕ, ◌≤◌, ◌≡◌, ◌↔◌, arith, [], ◌∷◌, none, some}
use frontend_router_mcp.RateLimit.{new_rate_limiter}
use frontend_router_mcp.ConnectionTracking.{WebSocketValidator}
use frontend_router_mcp.WebSocketUpgrade.{Network, ip_connections, validate_upgrade}
use frontend_router_mcp.WebSocketUpgrade.Permitted.{IsPermitted, validate_upgrade_iff}
use frontend_router_mcp.Examples.Requests.{plain, small, post}
use frontend_router_mcp.Examples.ConnectionTracking.{always, two_at_most, strict}

abbrev net : Network
net = record { subprotocols = λ r. "mcp-websocket" ∷ []; split_host = λ a. some "10.0.0.1" }

abbrev pub one_connection : WebSocketValidator ℕ
one_connection = record {
  connections =
      (
        "ws-1",
        record {
          id = "ws-1";
          remote_addr = "10.0.0.12:5000";
          last_activity = 1;
          message_count = 0;
          bytes_received = 0;
        },
      )
      ∷ [];
  message_stats = [];
  rate_limiter = new_rate_limiter always two_at_most;
  config = strict;
}

validate_upgrade_iff_example :
    (validate_upgrade plain net small one_connection post "10.0.0.1:6000" ≡ none)
    ↔ IsPermitted plain net small one_connection post "10.0.0.1:6000"
validate_upgrade_iff_example =
    validate_upgrade_iff plain net small one_connection post "10.0.0.1:6000"

full : 1 ≤ ip_connections "10.0.0.12" one_connection.connections
unfolding ip_connections
full = omega arith
