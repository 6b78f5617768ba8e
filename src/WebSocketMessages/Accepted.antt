-- ===== src/WebSocketMessages/Accepted.antt =====
-- Which messages `ValidateMessage` accepts, and what it makes of them.
use Prim.Native.String.{len}
use frontend_router_mcp.Base.{
  ℕ, ◌≤◌, true, ◌≡◌, ◌≢◌, ◌↔◌, ◌⊎◌, arith, Option, none, some, String, eq_iff,
}
use frontend_router_mcp.Messaging.{Message}
use frontend_router_mcp.RateLimit.{Rate, RateError, allow_message}
use frontend_router_mcp.Requests.{RequestValidationConfig, Outcome}
use frontend_router_mcp.Requests.Checks.{OneOf, is_one_of_iff}
use frontend_router_mcp.Requests.Messages.{
  validate_websocket_message, validate_websocket_message_iff, text_message,
}
use frontend_router_mcp.ConnectionTracking.{WebSocketValidationConfig, WebSocketValidator}
use frontend_router_mcp.WebSocketMessages.{
  RawMessage, Decoder, MessageError, accepted, or_next, validate_message_structure,
  validate_message_type, validate_payload, has_rules, checks, message_of, with_statistics, parsed,
  sized, rate_checked, validate_message,
}

-- The types whose payloads have rules.
abbrev pub HasRules : String → Type 0
HasRules type =
    (type ≡ "user_response") ⊎ (type ≡ "ask_user") ⊎ (type ≡ "connect") ⊎ (type ≡ "disconnect")

module _ (decoder : Decoder) (config : WebSocketValidationConfig) where
  abbrev pub IsComplete : RawMessage → Type 0
  IsComplete raw =
      (raw.type ≢ "")
      × (config.require_message_id ≡ true → raw.id ≢ "")
      × (config.require_timestamp ≡ true → raw.timestamp ≢ 0)
      × (len raw.payload ≤ config.max_payload_size)

  abbrev pub IsKnownType : String → Type 0
  IsKnownType type = (decoder.sanitize type ≡ type) × OneOf config.allowed_message_types type

  abbrev pub FollowsRules : String → String → Type 0
  FollowsRules type payload =
      len payload ≢ 0
      → HasRules type
      → (decoder.unmarshals type payload ≡ true) × (decoder.validates type payload ≡ true)

  structure_iff :
      (raw : RawMessage) → (validate_message_structure config raw ≡ none) ↔ IsComplete raw
  unfolding validate_message_structure
  structure_iff raw = ground (arith, eq_iff raw.type "", eq_iff raw.id "")

  type_iff : (type : String) → (validate_message_type decoder config type ≡ none) ↔ IsKnownType type
  unfolding validate_message_type
  type_iff type =
      ground (
        arith,
        eq_iff (decoder.sanitize type) type,
        is_one_of_iff config.allowed_message_types type,
      )

  has_rules_iff : (type : String) → (has_rules type ≡ true) ↔ HasRules type
  unfolding has_rules
  has_rules_iff type = ground (
    arith,
    eq_iff type "user_response",
    eq_iff type "ask_user",
    eq_iff type "connect",
    eq_iff type "disconnect",
  )

  payload_iff :
      (type payload : String)
      → (validate_payload decoder type payload ≡ none) ↔ FollowsRules type payload
  unfolding validate_payload
  payload_iff type payload = ground (arith, has_rules_iff type)

  checks_iff :
      (raw : RawMessage)
      → (checks decoder config raw ≡ none)
        ↔ (IsComplete raw × IsKnownType raw.type × FollowsRules raw.type raw.payload)
  unfolding checks or_next
  checks_iff raw =
      ground (arith, structure_iff raw, type_iff raw.type, payload_iff raw.type raw.payload)

module _ {L : Type 0} (rate : Rate L) (decoder : Decoder) (requests : RequestValidationConfig) where
  with_statistics_iff :
      (wsv : WebSocketValidator L) (id : String) (size now : ℕ) (raw : RawMessage)
      (e : Option MessageError) (msg : Message)
      → ((with_statistics rate decoder requests wsv id size now raw e).1 ≡ accepted msg)
        ↔ ((e ≡ none) × (message_of raw id ≡ msg))
  unfolding with_statistics
  with_statistics_iff wsv id size now raw (some e) msg = ground arith
  with_statistics_iff wsv id size now raw none msg = ground arith

  -- What makes a text into the message.
  abbrev pub IsMessage : WebSocketValidationConfig → String → Option RawMessage → Message → Type 0
  IsMessage config id none msg = ⊥
  IsMessage config id (some raw) msg =
      (IsComplete decoder config raw
        × IsKnownType decoder config raw.type
        × FollowsRules decoder config raw.type raw.payload)
      × (message_of raw id ≡ msg)

  parsed_iff :
      (wsv : WebSocketValidator L) (id : String) (size now : ℕ) (o : Option RawMessage)
      (msg : Message)
      → ((parsed rate decoder requests wsv id size now o).1 ≡ accepted msg)
        ↔ IsMessage wsv.config id o msg
  unfolding parsed
  parsed_iff wsv id size now none msg = ground arith
  parsed_iff wsv id size now (some raw) msg = ground (
    arith,
    with_statistics_iff wsv id size now raw (checks decoder wsv.config raw) msg,
    checks_iff decoder wsv.config raw,
  )

  sized_iff :
      (wsv : WebSocketValidator L) (id : String) (kind : ℕ) (text : String) (now : ℕ)
      (outcome : Outcome) (msg : Message)
      → ((sized rate decoder requests wsv id kind text now outcome).1 ≡ accepted msg) ↔ (
          (outcome ≡ none)
          × (kind ≡ text_message)
          × IsMessage wsv.config id (decoder.unmarshal text) msg)
  unfolding sized
  sized_iff wsv id kind text now (some e) msg = ground arith
  sized_iff wsv id kind text now none msg =
      ground (arith, parsed_iff wsv id (len text) now (decoder.unmarshal text) msg)

  rate_checked_iff :
      (wsv : WebSocketValidator L) (id : String) (kind : ℕ) (text : String) (now : ℕ)
      (refusal : Option RateError) (msg : Message)
      → ((rate_checked rate decoder requests wsv id kind text now refusal).1 ≡ accepted msg) ↔ (
          (refusal ≡ none)
          × (kind ≡ text_message)
          × (len text ≤ requests.max_websocket_msg)
          × IsMessage wsv.config id (decoder.unmarshal text) msg)
  unfolding rate_checked
  rate_checked_iff wsv id kind text now (some e) msg = ground arith
  rate_checked_iff wsv id kind text now none msg =
      let outcome = validate_websocket_message requests kind (len text) in
      ground (
        arith,
        sized_iff wsv id kind text now outcome msg,
        validate_websocket_message_iff requests kind (len text),
      )

  -- `ValidateMessage` returns a message exactly if the client's bucket lets it through, it is a text
  -- message of at most `MaxWebSocketMsg` bytes, and it decodes to one that has a type and, where
  -- they are required, an id and a time; whose payload is at most `MaxPayloadSize` long, whose type
  -- is allowed and not changed by the sanitizer, and whose payload, if it has one and its type has
  -- rules, follows them. The message returned is the decoded one under the id of the connection.
  pub validate_message_iff :
      (wsv : WebSocketValidator L) (id : String) (kind : ℕ) (text : String) (now : ℕ)
      (msg : Message)
      → ((validate_message rate decoder requests wsv id kind text now).1 ≡ accepted msg) ↔ (
          ((allow_message rate wsv.rate_limiter id now).1 ≡ none)
          × (kind ≡ text_message)
          × (len text ≤ requests.max_websocket_msg)
          × IsMessage wsv.config id (decoder.unmarshal text) msg)
  unfolding validate_message
  validate_message_iff wsv id kind text now msg =
      let (rl, refusal) = allow_message rate wsv.rate_limiter id now in
      rate_checked_iff (record wsv { rate_limiter = rl }) id kind text now refusal msg
