-- ===== src/McpServer/Feedback.antt =====
-- `processMessages` of internal/mcpserver/server.go: the channel of its requests and its answers.
use Prim.Native.String.{◌++◌ as str_append}
use frontend_router_mcp.Base.{
  ◌≡◌, refl, ◌∙◌, arith, String, List, ◌∷◌, ◌++◌, lookup, length, length-append, Option-cases, inl,
  inr,
}
use frontend_router_mcp.Errors.{error_text}
use frontend_router_mcp.Messaging.{Message, bytes, new_message}
use frontend_router_mcp.McpServer.{
  Env, Server, ToolResult, Payload, payload, bad_payload, result, tool_error, send_response,
  send_error_response, answer_with, handle_tool_request, handle_payload, handle_message, to_client,
  type_of, Unmarshalled,
}

-- Both encoders succeed, as they do for texts and for results that are JSON.
pub record Encodes (env : Env) : Type 0 where
  pub errors :
      (error_type message : String) → (t : String) × (env.encode_error error_type message ≡ bytes t)
  pub responses : (v : String) → (t : String) × (env.encode_response v ≡ bytes t)

-- The message channel as the messages in it, in any order of arrival and service.
pub data Rounds (env : Env) (s : Server) : List Message → List Message → Type 0 where
  stays : {pending : List Message} → Rounds env s pending pending
  round :
      {start : List Message} (before after : List Message) (msg : Message)
      → Rounds env s start (before ++ msg ∷ after)
      → Rounds env s start (before ++ (after ++ handle_message env s msg))

length-send_error_response :
    (env : Env) (client error_type message : String)
    → Encodes env
    → length (send_error_response env client error_type message) ≡ 1
unfolding send_error_response new_message to_client
length-send_error_response env client error_type message v =
    let (t, e) = v.errors error_type message in rw e refl

length-send_response :
    (env : Env) (client text : String) → Encodes env → length (send_response env client text) ≡ 1
unfolding send_response new_message to_client
length-send_response env client text v = let (t, e) = v.responses text in rw e refl

length-answer_with :
    (env : Env) (client : String) (r : ToolResult)
    → Encodes env
    → length (answer_with env client r) ≡ 1
unfolding answer_with
length-answer_with env client (result x) v = length-send_response env client x v
length-answer_with env client (tool_error e) v =
    length-send_error_response env client "execution_error" (error_text e) v

length-handle_tool_request :
    (env : Env) (s : Server) (client name params : String)
    → Encodes env
    → length (handle_tool_request env s client name params) ≡ 1
unfolding handle_tool_request
length-handle_tool_request env s client name params v = elim (Option-cases (lookup name s.tools)) [
  | inl e ↦ rw (e, handle_tool_request) (length-send_error_response env client _ _ v)
  | inr (tool, e) ↦
      rw (e, handle_tool_request) (length-answer_with env client (tool.execute params) v)
]

length-handle_payload :
    (env : Env) (s : Server) (client : String) (p : Payload)
    → Encodes env
    → length (handle_payload env s client p) ≡ 1
unfolding handle_payload
length-handle_payload env s client p v = ground (
  arith,
  length-send_error_response env client "missing_tool" "No tool specified in request" v,
  length-handle_tool_request env s client p.tool p.params v,
  length-send_error_response env client "unknown_message_type"
      (str_append "Unknown message type: " (type_of p)) v,
)

length-handle_message :
    (env : Env) (s : Server) (msg : Message) → Encodes env → length (handle_message env s msg) ≡ 1
unfolding handle_message
length-handle_message env s msg v = go (env.decode msg.payload) refl
  where
    go : (u : Unmarshalled) → env.decode msg.payload ≡ u → length (handle_message env s msg) ≡ 1
    go (payload p) e = rw (e, handle_message) (length-handle_payload env s msg.client_id p v)
    go (bad_payload t) e =
        rw (e, handle_message)
          (length-send_error_response env msg.client_id "invalid_payload"
            (str_append "Invalid message format: " t) v)

length-round :
    (before after answers : List Message) (msg : Message)
    → length answers ≡ 1
    → length (before ++ (after ++ answers)) ≡ length (before ++ msg ∷ after)
length-round before after answers msg e = omega (
  arith,
  length-append before (after ++ answers),
  length-append after answers,
  length-append before (msg ∷ after),
)

-- If its errors and answers can be encoded, a server that is alone on its message channel never
-- gets it empty, from the end of one round to that of the next: whatever messages come, in whatever order they are handled, and whatever the tools
-- answer, each message that is taken out puts exactly one in, so that after any number of rounds
-- there are as many messages as at the start.
pub length-Rounds :
    (env : Env) (s : Server) {first last : List Message}
    → Encodes env
    → Rounds env s first last
    → length last ≡ length first
length-Rounds env s v stays = refl
length-Rounds env s v (round before after msg r) =
    length-round before after (handle_message env s msg) msg (length-handle_message env s msg v)
    ∙ length-Rounds env s v r
