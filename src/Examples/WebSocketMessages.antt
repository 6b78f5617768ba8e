-- ===== src/Examples/WebSocketMessages.antt =====
-- WebSocket messages at concrete inputs: every text decodes to one answer.
use Prim.Native.String.{len}
use frontend_router_mcp.Base.{◌≤◌, ◌≡◌, ◌↔◌, refl, true, List, [], ◌∷◌, none, some, lookup, insert}
use frontend_router_mcp.RateLimit.{
  allow_message, add_connection, new_rate_limiter, new_client, get_total_connections,
  count_connections_for_ip,
}
use frontend_router_mcp.ConnectionTracking.{
  ValidatedConnection, opened, update_message_stats, update_connection_stats,
  new_web_socket_validator, validate_connection,
}
use frontend_router_mcp.Requests.Messages.{text_message, validate_websocket_message}
use frontend_router_mcp.Requests.{is_one_of}
use frontend_router_mcp.WebSocketMessages.{
  RawMessage, Decoder, message_of, accepted, validate_message, checks, or_next,
  validate_message_structure, validate_message_type, validate_payload, has_rules,
}
use frontend_router_mcp.WebSocketMessages.Accepted.{IsMessage, validate_message_iff}
use frontend_router_mcp.WebSocketMessages.Statistics.{
  Event, arrives, says, run, ArePossible, IsBalanced, run-new-IsBalanced,
}
use frontend_router_mcp.Examples.Requests.{small}
use frontend_router_mcp.Examples.ConnectionTracking.{always, two_at_most, strict}
use frontend_router_mcp.Examples.WebSocketUpgrade.{one_connection}

abbrev answer : RawMessage
answer = record { type = "user_response"; payload = "{}"; timestamp = 7; id = "m-1" }

abbrev decoder : Decoder
decoder = record {
  unmarshal = λ text. some answer;
  unmarshals = λ type payload. true;
  validates = λ type payload. true;
  sanitize = λ s. s;
}

validate_message_iff_example :
    ((validate_message always decoder small one_connection "ws-1" 1 "{...}" 9).1
      ≡ accepted (message_of answer "ws-1"))
    ↔ (((allow_message always one_connection.rate_limiter "ws-1" 9).1 ≡ none)
        × (1 ≡ text_message)
        × (len "{...}" ≤ 10)
        × IsMessage always decoder small strict "ws-1" (some answer) (message_of answer "ws-1"))
validate_message_iff_example =
    validate_message_iff always decoder small one_connection "ws-1" 1 "{...}" 9
      (message_of answer "ws-1")

abbrev first_done : ValidatedConnection
first_done = record {
  id = "ws-1";
  remote_addr = "10.0.0.1:5000";
  last_activity = 2;
  message_count = 1;
  bytes_received = 5;
}

-- A connection, a message of it, and one that is no text.
abbrev day : List Event
day =
    arrives "ws-1" "10.0.0.1:5000" "10.0.0.1" 1
    ∷ says "ws-1" 1 "{...}" 2
    ∷ says "ws-1" 2 "{...}" 3
    ∷ []

day-ArePossible :
    ArePossible always decoder small (new_web_socket_validator always two_at_most strict) day
unfolding validate_message validate_connection new_web_socket_validator lookup add_connection
    new_rate_limiter get_total_connections count_connections_for_ip insert allow_message new_client
    validate_websocket_message checks or_next validate_message_structure validate_message_type
    is_one_of validate_payload has_rules update_message_stats update_connection_stats
day-ArePossible = (refl, ((opened "ws-1" "10.0.0.1:5000" 1, refl), ((first_done, refl), tt)))

run-new-IsBalanced_example :
    IsBalanced (run always decoder small (new_web_socket_validator always two_at_most strict) day)
run-new-IsBalanced_example =
    run-new-IsBalanced always decoder small two_at_most strict day day-ArePossible
