-- ===== src/Requests/Messages.antt =====
-- `ValidateWebSocketMessage` of internal/validation/request_validation.go.
use frontend_router_mcp.Base.{ℕ, ◌≤◌, ◌≡◌, ◌↔◌, ◌⊎◌, arith, ◌||◌, if◌then◌else◌, ◌==◌, ltb, none}
use frontend_router_mcp.Requests.{RequestValidationConfig, Outcome, refuse}

abbrev pub text_message : ℕ
text_message = 1

abbrev pub binary_message : ℕ
binary_message = 2

abbrev pub close_message : ℕ
close_message = 8

abbrev pub ping_message : ℕ
ping_message = 9

abbrev pub pong_message : ℕ
pong_message = 10

-- The codes are those of a WebSocket close frame. `size` is the length of the data.
unfoldable pub validate_websocket_message : RequestValidationConfig → ℕ → ℕ → Outcome
validate_websocket_message config message_type size =
    if ltb config.max_websocket_msg size
    then refuse 1009 "" ""
    else if message_type == text_message || message_type == binary_message
    then none
    else if message_type == close_message
    then (if ltb 125 size then refuse 1002 "" "" else none)
    else if message_type == ping_message || message_type == pong_message
    then (if ltb 125 size then refuse 1002 "" "" else none)
    else refuse 1003 "" ""

abbrev pub IsData : ℕ → Type 0
IsData t = (t ≡ text_message) ⊎ (t ≡ binary_message)

abbrev pub IsControl : ℕ → Type 0
IsControl t = (t ≡ close_message) ⊎ (t ≡ ping_message) ⊎ (t ≡ pong_message)

-- A message is accepted exactly if it is at most `MaxWebSocketMsg` long and is a data message, or a
-- control message of at most 125 bytes.
pub validate_websocket_message_iff :
    (config : RequestValidationConfig) (t size : ℕ)
    → (validate_websocket_message config t size ≡ none)
      ↔ ((size ≤ config.max_websocket_msg) × (IsData t ⊎ (IsControl t × (size ≤ 125))))
unfolding validate_websocket_message
validate_websocket_message_iff config t size = ground arith
