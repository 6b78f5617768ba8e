-- ===== src/WebSocketMessages.antt =====
-- `ValidateMessage` of internal/validation/websocket_middleware.go, and what it calls. The decoding of
-- JSON, the rules of `ValidateStruct` and the sanitizer are arguments; data is a text of bytes.
pub mod Accepted
pub mod Statistics
use Prim.Native.String.{len}
use frontend_router_mcp.Base.{
  ℕ, Bool, true, false, not, ◌&&◌, ◌||◌, ◌==◌, ltb, if◌then◌else◌, List, [], ◌∷◌, Option, none,
  some, String, str_eq,
}
use frontend_router_mcp.Messaging.{Message}
use frontend_router_mcp.RateLimit.{Rate, RateLimiter, RateError, allow_message}
use frontend_router_mcp.Requests.{
  RequestValidationConfig, RequestValidationError, Outcome, is_one_of,
}
use frontend_router_mcp.Requests.Messages.{validate_websocket_message, text_message}
use frontend_router_mcp.ConnectionTracking.{
  WebSocketValidationConfig, WebSocketValidator, update_connection_stats, update_message_stats,
}

pub record RawMessage : Type 0 where
  pub type : String
  pub payload : String
  pub timestamp : ℕ
  pub id : String

-- `json.Unmarshal` into a message, and into the struct of a message type; `ValidateStruct` on the
-- latter; and `SanitizeUserInput`.
pub record Decoder : Type 0 where
  pub unmarshal : String → Option RawMessage
  pub unmarshals : String → String → Bool
  pub validates : String → String → Bool
  pub sanitize : String → String

pub data MessageError : Type 0 where
  rate_limited : RateError → MessageError
  not_acceptable : RequestValidationError → MessageError
  only_text invalid_json : MessageError
  type_required id_required timestamp_required payload_too_large : MessageError
  invalid_characters type_not_allowed : MessageError
  invalid_payload struct_invalid : MessageError

-- Whether there is no error before the rest.
unfoldable pub or_next : Option MessageError → Option MessageError → Option MessageError
or_next (some e) rest = some e
or_next none rest = rest

unfoldable pub validate_message_structure :
    WebSocketValidationConfig → RawMessage → Option MessageError
validate_message_structure config raw =
    if str_eq raw.type ""
    then some type_required
    else if config.require_message_id && str_eq raw.id ""
    then some id_required
    else if config.require_timestamp && raw.timestamp == 0
    then some timestamp_required
    else if ltb config.max_payload_size (len raw.payload)
    then some payload_too_large
    else none

unfoldable pub validate_message_type :
    Decoder → WebSocketValidationConfig → String → Option MessageError
validate_message_type decoder config type =
    if not (str_eq (decoder.sanitize type) type)
    then some invalid_characters
    else if is_one_of config.allowed_message_types type
    then none
    else some type_not_allowed

-- The cases of the switch; a payload of another type is not looked at.
unfoldable pub has_rules : String → Bool
has_rules type =
    str_eq type "user_response"
    || str_eq type "ask_user"
    || str_eq type "connect"
    || str_eq type "disconnect"

unfoldable pub validate_payload : Decoder → String → String → Option MessageError
validate_payload decoder type payload =
    if len payload == 0
    then none
    else if has_rules type
    then (if not (decoder.unmarshals type payload)
        then some invalid_payload
        else if not (decoder.validates type payload)
        then some struct_invalid
        else none)
    else none

unfoldable pub checks : Decoder → WebSocketValidationConfig → RawMessage → Option MessageError
checks decoder config raw = or_next (validate_message_structure config raw) (
    or_next (validate_message_type decoder config raw.type)
      (validate_payload decoder raw.type raw.payload))

abbrev pub message_of : RawMessage → String → Message
message_of raw client_id = record {
  id = raw.id;
  type = raw.type;
  timestamp = raw.timestamp;
  payload = raw.payload;
  client_id = client_id;
  response_sender = none;
}

pub data Verdict : Type 0 where
  accepted : Message → Verdict
  refused : MessageError → Verdict

module _ {L : Type 0} (rate : Rate L) (decoder : Decoder) (requests : RequestValidationConfig) where
  -- The statistics, once there is no error.
  with_statistics :
      WebSocketValidator L
      → String
      → ℕ
      → ℕ
      → RawMessage
      → Option MessageError
      → WebSocketValidator L × Verdict
  with_statistics wsv client_id size now raw (some e) = (wsv, refused e)
  with_statistics wsv client_id size now raw none = (
    update_message_stats (update_connection_stats wsv client_id size now) client_id raw.type size
        now,
    accepted (message_of raw client_id),
  )

  parsed :
      WebSocketValidator L → String → ℕ → ℕ → Option RawMessage → WebSocketValidator L × Verdict
  unfolding with_statistics
  parsed wsv client_id size now none = (wsv, refused invalid_json)
  parsed wsv client_id size now (some raw) =
      with_statistics wsv client_id size now raw (checks decoder wsv.config raw)

  sized : WebSocketValidator L → String → ℕ → String → ℕ → Outcome → WebSocketValidator L × Verdict
  unfolding parsed
  sized wsv client_id kind text now (some e) = (wsv, refused (not_acceptable e))
  sized wsv client_id kind text now none =
      if kind == text_message
      then parsed wsv client_id (len text) now (decoder.unmarshal text)
      else (wsv, refused only_text)

  rate_checked :
      WebSocketValidator L
      → String
      → ℕ
      → String
      → ℕ
      → Option RateError
      → WebSocketValidator L × Verdict
  unfolding sized
  rate_checked wsv client_id kind text now (some e) = (wsv, refused (rate_limited e))
  rate_checked wsv client_id kind text now none =
      sized wsv client_id kind text now (validate_websocket_message requests kind (len text))

  -- `ValidateMessage`, for the connection of that id.
  unfoldable pub validate_message :
      WebSocketValidator L → String → ℕ → String → ℕ → WebSocketValidator L × Verdict
  unfolding rate_checked
  validate_message wsv client_id kind text now =
      let (rl, refusal) = allow_message rate wsv.rate_limiter client_id now in
      rate_checked (record wsv { rate_limiter = rl }) client_id kind text now refusal
