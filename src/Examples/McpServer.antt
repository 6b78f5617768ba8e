-- ===== src/Examples/McpServer.antt =====
-- The MCP server at concrete inputs.
use frontend_router_mcp.Base.{◌≡◌, refl, String, if◌then◌else◌, str_eq, [], ◌∷◌, none, length}
use frontend_router_mcp.Messaging.{Message, bytes}
use frontend_router_mcp.McpServer.{
  Env, Server, Tool, result, Unmarshalled, payload, bad_payload, handle_message,
}
use frontend_router_mcp.McpServer.Feedback.{Encodes, stays, round, length-Rounds}

abbrev decode_echo : String → Unmarshalled
decode_echo text =
    if str_eq text "echo hi"
    then payload (record { type = ""; tool = "echo"; params = "hi" })
    else bad_payload "unexpected end of JSON input"

abbrev json : Env
json = record {
  decode = decode_echo;
  decode_request = decode_echo;
  encode_error = λ error_type message. bytes message;
  encode_response = λ v. bytes v;
  uuid = "id";
  now = 7;
}

abbrev echo : Tool
echo = record { name = "echo"; description = "says it again"; execute = λ params. result params }

abbrev echo_server : Server
echo_server = record { tools = ("echo", echo) ∷ [] }

abbrev request : Message
request = record {
  id = "1";
  type = "tool_request";
  timestamp = 5;
  payload = "echo hi";
  client_id = "alice";
  response_sender = none;
}

json-Encodes : Encodes json
json-Encodes = record { errors = λ error_type message. (message, refl); responses = λ v. (v, refl) }

length-Rounds_example :
    length (handle_message json echo_server request) ≡ length {A = Message} (request ∷ [])
length-Rounds_example =
    length-Rounds json echo_server {first = request ∷ []}
      {last = handle_message json echo_server request} json-Encodes (round [] [] request stays)
