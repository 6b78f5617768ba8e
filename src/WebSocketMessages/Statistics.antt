-- ===== src/WebSocketMessages/Statistics.antt =====
-- The two books that the validator of WebSocket connections keeps: messages and bytes for each
-- connection, and for each type of message of a client.
use Prim.Native.String.{◌++◌, len}
use frontend_router_mcp.Base.{
  ℕ, ◌+◌, ◌≡◌, inl, inr, refl, arith, String, List, [], ◌∷◌, Option, none, some, Dict, lookup,
  sum_by, sum_by-insert, delete-insert_new, Option-cases, Bool-cases, ◌==◌, lookup-insert, eq_refl,
}
use frontend_router_mcp.RateLimit.{Rate, RateError, add_connection, allow_message}
use frontend_router_mcp.RateLimit.{RateLimitConfig}
use frontend_router_mcp.Requests.{RequestValidationConfig, Outcome}
use frontend_router_mcp.Requests.Messages.{validate_websocket_message, text_message}
use frontend_router_mcp.ConnectionTracking.{
  ValidatedConnection, MessageStats, WebSocketValidationConfig, WebSocketValidator, opened, bumped,
  no_stats, update_connection_stats, update_message_stats, validate_connection, remove_connection,
  new_web_socket_validator,
}
use frontend_router_mcp.WebSocketMessages.{
  RawMessage, Decoder, MessageError, checks, with_statistics, parsed, sized, rate_checked,
  validate_message,
}

-- The same messages and the same bytes in both.
abbrev pub AreBalanced : Dict ValidatedConnection → Dict MessageStats → Type 0
AreBalanced connections stats =
    (sum_by (λ c. c.message_count) connections ≡ sum_by (λ s. s.count) stats)
    × (sum_by (λ c. c.bytes_received) connections ≡ sum_by (λ s. s.total_bytes) stats)

module _ {L : Type 0} where
  abbrev pub IsBalanced : WebSocketValidator L → Type 0
  IsBalanced wsv = AreBalanced wsv.connections wsv.message_stats

  -- The books after a message of that size, of a connection that is tracked.
  connection_stats_lem :
      (wsv : WebSocketValidator L) (id : String) (size now : ℕ) {conn : ValidatedConnection}
      → lookup id wsv.connections ≡ some conn
      → let wsv' = update_connection_stats wsv id size now in
        (sum_by (λ c. c.message_count) wsv'.connections
          ≡ sum_by (λ c. c.message_count) wsv.connections + 1)
        × (sum_by (λ c. c.bytes_received) wsv'.connections
            ≡ sum_by (λ c. c.bytes_received) wsv.connections + size)
        × (wsv'.message_stats ≡ wsv.message_stats)
  unfolding update_connection_stats
  connection_stats_lem wsv id size now {conn} e =
      let conn' = record conn {
        message_count = conn.message_count + 1;
        bytes_received = conn.bytes_received + size;
        last_activity = now;
      } in
      let messages = sum_by-insert (λ c. c.message_count) id conn' wsv.connections in
      let bytes = sum_by-insert (λ c. c.bytes_received) id conn' wsv.connections in
      ground (arith, messages, bytes)

  message_stats_lem :
      (wsv : WebSocketValidator L) (id type : String) (size now : ℕ)
      → let wsv' = update_message_stats wsv id type size now in
        (sum_by (λ s. s.count) wsv'.message_stats ≡ sum_by (λ s. s.count) wsv.message_stats + 1)
        × (sum_by (λ s. s.total_bytes) wsv'.message_stats
            ≡ sum_by (λ s. s.total_bytes) wsv.message_stats + size)
        × (wsv'.connections ≡ wsv.connections)
  unfolding update_message_stats
  message_stats_lem wsv id type size now =
      let key = id ++ ":" ++ type in
      elim (Option-cases (lookup key wsv.message_stats)) [
        | inl e ↦
            let stats = bumped (no_stats id type) size now in
            rw e (
              ground (
                arith,
                e,
                sum_by-insert (λ s. s.count) key stats wsv.message_stats,
                sum_by-insert (λ s. s.total_bytes) key stats wsv.message_stats,
              ))
        | inr (old, e) ↦
            let stats = bumped old size now in
            rw e (
              ground (
                arith,
                e,
                sum_by-insert (λ s. s.count) key stats wsv.message_stats,
                sum_by-insert (λ s. s.total_bytes) key stats wsv.message_stats,
              ))
      ]

-- A connection arrives, with its id, remote address, client address and time; or a message, with the
-- id of its connection, its kind, its text and the time.
pub data Event : Type 0 where
  arrives : String → String → String → ℕ → Event
  says : String → ℕ → String → ℕ → Event

module _ {L : Type 0} (rate : Rate L) (decoder : Decoder) (requests : RequestValidationConfig) where
  with_statistics-IsBalanced :
      (wsv : WebSocketValidator L) (id : String) (size now : ℕ) (raw : RawMessage)
      (e : Option MessageError) {conn : ValidatedConnection}
      → lookup id wsv.connections ≡ some conn
      → IsBalanced wsv
      → IsBalanced (with_statistics rate decoder requests wsv id size now raw e).0
  unfolding with_statistics
  with_statistics-IsBalanced wsv id size now raw (some e) at b = b
  with_statistics-IsBalanced wsv id size now raw none at b =
      let wsv' = update_connection_stats wsv id size now in
      ground (
        arith,
        connection_stats_lem wsv id size now at,
        message_stats_lem wsv' id raw.type size now,
      )

  parsed-IsBalanced :
      (wsv : WebSocketValidator L) (id : String) (size now : ℕ) (o : Option RawMessage)
      {conn : ValidatedConnection}
      → lookup id wsv.connections ≡ some conn
      → IsBalanced wsv
      → IsBalanced (parsed rate decoder requests wsv id size now o).0
  unfolding parsed
  parsed-IsBalanced wsv id size now none at b = b
  parsed-IsBalanced wsv id size now (some raw) at b =
      with_statistics-IsBalanced wsv id size now raw (checks decoder wsv.config raw) at b

  sized-IsBalanced :
      (wsv : WebSocketValidator L) (id : String) (kind : ℕ) (text : String) (now : ℕ)
      (outcome : Outcome) {conn : ValidatedConnection}
      → lookup id wsv.connections ≡ some conn
      → IsBalanced wsv
      → IsBalanced (sized rate decoder requests wsv id kind text now outcome).0
  unfolding sized
  sized-IsBalanced wsv id kind text now (some e) at b = b
  sized-IsBalanced wsv id kind text now none at b = elim (Bool-cases (kind == text_message)) [
    | inl e ↦ rw e (parsed-IsBalanced wsv id (len text) now (decoder.unmarshal text) at b)
    | inr e ↦ rw e b
  ]

  rate_checked-IsBalanced :
      (wsv : WebSocketValidator L) (id : String) (kind : ℕ) (text : String) (now : ℕ)
      (refusal : Option RateError) {conn : ValidatedConnection}
      → lookup id wsv.connections ≡ some conn
      → IsBalanced wsv
      → IsBalanced (rate_checked rate decoder requests wsv id kind text now refusal).0
  unfolding rate_checked
  rate_checked-IsBalanced wsv id kind text now (some e) at b = b
  rate_checked-IsBalanced wsv id kind text now none at b =
      sized-IsBalanced wsv id kind text now (validate_websocket_message requests kind (len text)) at
        b

  validate_message-IsBalanced :
      (wsv : WebSocketValidator L) (id : String) (kind : ℕ) (text : String) (now : ℕ)
      {conn : ValidatedConnection}
      → lookup id wsv.connections ≡ some conn
      → IsBalanced wsv
      → IsBalanced (validate_message rate decoder requests wsv id kind text now).0
  unfolding validate_message
  validate_message-IsBalanced wsv id kind text now at b =
      let (rl, refusal) = allow_message rate wsv.rate_limiter id now in
      rate_checked-IsBalanced (record wsv { rate_limiter = rl }) id kind text now refusal at b

  validate_connection-IsBalanced :
      (wsv : WebSocketValidator L) (id addr ip : String) (now : ℕ)
      → lookup id wsv.connections ≡ none
      → IsBalanced wsv
      → IsBalanced (validate_connection rate wsv id addr ip now).0
  unfolding validate_connection remove_connection
  validate_connection-IsBalanced wsv id addr ip now new b =
      let conn = opened id addr now in
      elim (Option-cases (add_connection rate wsv.rate_limiter id ip now).1) [
        | inl e ↦
            rw (e, validate_connection)
              (ground (
                arith,
                new,
                sum_by-insert (λ c. c.message_count) id conn wsv.connections,
                sum_by-insert (λ c. c.bytes_received) id conn wsv.connections,
              ))
        | inr (err, e) ↦ ground (
          arith,
          e,
          lookup-insert id id conn wsv.connections,
          eq_refl id,
          delete-insert_new id conn wsv.connections new,
        )
      ]

  abbrev pub after : WebSocketValidator L → Event → WebSocketValidator L
  after wsv (arrives id addr ip now) = (validate_connection rate wsv id addr ip now).0
  after wsv (says id kind text now) =
      (validate_message rate decoder requests wsv id kind text now).0

  abbrev pub run : WebSocketValidator L → List Event → WebSocketValidator L
  run wsv [] = wsv
  run wsv (e ∷ es) = run (after wsv e) es

  -- A connection that arrives has a new id, and one that sends a message is tracked.
  abbrev pub IsPossible : WebSocketValidator L → Event → Type 0
  IsPossible wsv (arrives id addr ip now) = lookup id wsv.connections ≡ none
  IsPossible wsv (says id kind text now) =
      (conn : ValidatedConnection) × (lookup id wsv.connections ≡ some conn)

  abbrev pub ArePossible : WebSocketValidator L → List Event → Type 0
  ArePossible wsv [] = Unit
  ArePossible wsv (e ∷ es) = IsPossible wsv e × ArePossible (after wsv e) es

  after-IsBalanced :
      (wsv : WebSocketValidator L) (e : Event)
      → IsPossible wsv e
      → IsBalanced wsv
      → IsBalanced (after wsv e)
  after-IsBalanced wsv (arrives id addr ip now) new b =
      validate_connection-IsBalanced wsv id addr ip now new b
  after-IsBalanced wsv (says id kind text now) (conn, at) b =
      validate_message-IsBalanced wsv id kind text now at b

  run-IsBalanced :
      (wsv : WebSocketValidator L) (es : List Event)
      → ArePossible wsv es
      → IsBalanced wsv
      → IsBalanced (run wsv es)
  run-IsBalanced wsv [] h b = b
  run-IsBalanced wsv (e ∷ es) (p, h) b =
      run-IsBalanced (after wsv e) es h (after-IsBalanced wsv e p b)

  -- Until the first clean-up the two books agree: after any sequence of connections with new ids and of
  -- messages of tracked connections, good or bad, on a new validator, the messages counted for the
  -- connections are as many as those counted for the types of messages, and so are the bytes.
  pub run-new-IsBalanced :
      (rates : RateLimitConfig) (config : WebSocketValidationConfig) (es : List Event)
      → ArePossible (new_web_socket_validator rate rates config) es
      → IsBalanced (run (new_web_socket_validator rate rates config) es)
  run-new-IsBalanced rates config es h =
      run-IsBalanced (new_web_socket_validator rate rates config) es h
        (unfold new_web_socket_validator in (refl, refl))
