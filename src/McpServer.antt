-- ===== src/McpServer.antt =====
-- internal/mcpserver/server.go: the tools by name, the handling of messages, and the two endpoints. A
-- tool answers at once here; a call that never returns sends nothing. Logging is left out.
pub mod Feedback
pub mod Endpoints
use Prim.Native.String.{◌++◌ as str_append}
use frontend_router_mcp.Base.{
  ℕ, String, Bool, if◌then◌else◌, List, [], ◌∷◌, Option, none, some, Dict, lookup, insert, str_eq,
}
use frontend_router_mcp.Errors.{Error, error_text}
use frontend_router_mcp.Messaging.{Message, Marshalled, new_message}

-- What `Execute` returns; a value is the text that it is encoded to.
pub data ToolResult : Type 0 where
  result : String → ToolResult
  tool_error : Error → ToolResult

pub record Tool : Type 0 where
  pub name : String
  pub description : String
  pub execute : String → ToolResult

pub record Server : Type 0 where
  pub tools : Dict Tool

unfoldable pub new_server : Server
new_server = record { tools = [] }

unfoldable pub register_tool : Server → Tool → Server
register_tool s tool = record { tools = insert tool.name tool s.tools }

pub record Payload : Type 0 where
  pub type : String
  pub tool : String
  pub params : String

pub data Unmarshalled : Type 0 where
  payload : Payload → Unmarshalled
  bad_payload : String → Unmarshalled

-- encoding/json, google/uuid and the clock, as far as the server uses them: `decode` reads the payload
-- of a message and `decode_request` the body of a request, which has no type.
pub record Env : Type 0 where
  pub decode : String → Unmarshalled
  pub decode_request : String → Unmarshalled
  pub encode_error : String → String → Marshalled
  pub encode_response : String → Marshalled
  pub uuid : String
  pub now : ℕ

-- A message for the client, or none if it could not be made.
to_client : String → Option Message → List Message
to_client client_id (some msg) = record msg { client_id = client_id } ∷ []
to_client client_id none = []

-- What a call sends to the message channel is a list, of one message at most.
unfoldable pub send_response : Env → String → String → List Message
unfolding to_client
send_response env client_id data_text =
    to_client client_id
      (new_message "tool_response" (env.encode_response data_text) env.uuid env.now)

unfoldable pub send_error_response : Env → String → String → String → List Message
unfolding to_client
send_error_response env client_id error_type message =
    to_client client_id (new_message "error" (env.encode_error error_type message) env.uuid env.now)

answer_with : Env → String → ToolResult → List Message
answer_with env client_id (result v) = send_response env client_id v
answer_with env client_id (tool_error e) =
    send_error_response env client_id "execution_error" (error_text e)

unfoldable pub handle_tool_request : Env → Server → String → String → String → List Message
unfolding answer_with
handle_tool_request env s client_id tool_name params = elim (lookup tool_name s.tools) [
  | some tool ↦ answer_with env client_id (tool.execute params)
  | none ↦
      send_error_response env client_id "tool_not_found"
        (str_append (str_append "Tool '" tool_name) "' not found")
]

-- `if payload.Type == "" { payload.Type = "tool_request" }`
abbrev type_of : Payload → String
type_of p = if str_eq p.type "" then "tool_request" else p.type

handle_payload : Env → Server → String → Payload → List Message
handle_payload env s client_id p =
    if str_eq (type_of p) "tool_request"
    then (if str_eq p.tool ""
        then send_error_response env client_id "missing_tool" "No tool specified in request"
        else handle_tool_request env s client_id p.tool p.params)
    else send_error_response env client_id "unknown_message_type"
        (str_append "Unknown message type: " (type_of p))

unfoldable pub handle_message : Env → Server → Message → List Message
unfolding handle_payload
handle_message env s msg = elim (env.decode msg.payload) [
  | payload p ↦ handle_payload env s msg.client_id p
  | bad_payload e ↦
      send_error_response env msg.client_id "invalid_payload"
        (str_append "Invalid message format: " e)
]

-- `handleExecute`: the status and, for 200, the result.
executed : ToolResult → ℕ × String
executed (result v) = (200, v)
executed (tool_error e) = (500, error_text e)

execute_payload : Server → Unmarshalled → ℕ × String
unfolding executed
execute_payload s (bad_payload e) = (400, "Invalid request body")
execute_payload s (payload p) = elim (lookup p.tool s.tools) [
  | some tool ↦ executed (tool.execute p.params)
  | none ↦ (404, "Tool not found")
]

unfoldable pub handle_execute : Env → Server → String → String → ℕ × String
unfolding execute_payload
handle_execute env s method body =
    if str_eq method "POST"
    then execute_payload s (env.decode_request body)
    else (405, "Method not allowed")

unfoldable pub tool_entries : Dict Tool → List (String × String)
tool_entries [] = []
tool_entries ((key, tool) ∷ rest) = (tool.name, tool.description) ∷ tool_entries rest

-- `handleListTools`: `none` for a method that is not allowed.
unfoldable pub handle_list_tools : Server → String → Option (List (String × String))
handle_list_tools s method = if str_eq method "GET" then some (tool_entries s.tools) else none
