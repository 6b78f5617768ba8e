-- ===== src/Bridge.antt =====
-- cmd/server/main_monitoring.go: `handleWebSocketToMCP`, the goroutine between the WebSocket clients
-- and the ask_user tool, one round of its `select` at a time, and `handleUserResponses`. Logging,
-- metrics and the start of the servers are left out. A full response channel only makes the
-- goroutine wait, so what it sends is a list, oldest first.
pub mod Questions
pub mod Stale
pub mod Answers
pub mod Accounting
pub mod Runs
pub mod Passing
pub mod Conversation
use frontend_router_mcp.Base.{
  ℕ, String, Bool, true, false, if◌then◌else◌, List, [], ◌∷◌, ◌++◌, Option, none, some, Dict,
  lookup, insert, delete, str_eq,
}
use frontend_router_mcp.Channel.{Done, done, panic}
use frontend_router_mcp.Messaging.{Message, Marshalled, bytes, marshal_error}
use frontend_router_mcp.Hub.{Client, send_response}
use frontend_router_mcp.AskUser.{AskUserTool, Handled, handle_user_response}

pub record UserQuestion : Type 0 where
  pub request_id : String
  pub question : String

pub record UserResponse : Type 0 where
  pub request_id : String
  pub answer : String

-- encoding/json, google/uuid and the clock, as far as the bridge uses them: `decode_response` reads
-- the payload of a response, `none` if it is no such JSON; `uuid k` is the id made for client `k`.
pub record Env : Type 0 where
  pub encode_question : String → String → Marshalled
  pub ack_payload : String
  pub decode_response : String → Option (String × String)
  pub uuid : String → String
  pub now : ℕ

-- `clients` and `activeQuestions`, the heap that the senders stand in, and the responses sent.
pub record Bridge : Type 0 where
  pub clients : Dict ℕ
  pub active_questions : Dict String
  pub heap : List Client
  pub responses : List UserResponse

unfoldable pub new_bridge : List Client → Bridge
new_bridge heap = record { clients = []; active_questions = []; heap = heap; responses = [] }

abbrev pub question_message : Env → String → String → Message
question_message env client payload = record {
  id = env.uuid client;
  type = "ask_user";
  timestamp = env.now;
  payload = payload;
  client_id = "";
  response_sender = none;
}

abbrev pub ack_message : Env → String → Message
ack_message env client = record {
  id = env.uuid client;
  type = "connect_ack";
  timestamp = env.now;
  payload = env.ack_payload;
  client_id = "";
  response_sender = none;
}

after_send : Bridge → Done (List Client) → Done Bridge
after_send b (done heap) = done (record b { heap = heap })
after_send b panic = panic

-- One client in the loop over all clients.
unfoldable pub ask_client : Env → UserQuestion → String → ℕ → Bridge → Done Bridge
unfolding after_send
ask_client env q client r b =
    let b' = record b { active_questions = insert q.request_id client b.active_questions } in
    elim (env.encode_question q.request_id q.question) [
      | marshal_error e ↦ done b'
      | bytes payload ↦
          after_send b' (send_response b'.heap r (question_message env client payload))
    ]

unfoldable pub ask_clients : Env → UserQuestion → Dict ℕ → Bridge → Done Bridge
ask_clients env q [] b = done b
ask_clients env q ((client, r) ∷ rest) b = elim (ask_client env q client r b) [
  | done b' ↦ ask_clients env q rest b'
  | panic ↦ panic
]

abbrev pub no_clients_response : UserQuestion → UserResponse
no_clients_response q = record {
  request_id = q.request_id;
  answer = "Error: No clients connected to answer the question";
}

on_question_with : Env → UserQuestion → Dict ℕ → Bridge → Done Bridge
on_question_with env q [] b =
    done (record b { responses = b.responses ++ no_clients_response q ∷ [] })
on_question_with env q (c ∷ cs) b = ask_clients env q (c ∷ cs) b

-- `case question := <-questionCh`
unfoldable pub on_question : Env → UserQuestion → Bridge → Done Bridge
unfolding on_question_with ask_clients
on_question env q b = on_question_with env q b.clients b

pub note_sender : Message → Bridge → Bridge
note_sender msg b = elim msg.response_sender [
  | some r ↦ record b { clients = insert msg.client_id r b.clients }
  | none ↦ b
]

answered : String × String → Bridge → Bridge
answered (request_id, answer) b = elim (lookup request_id b.active_questions) [
  | some client ↦ record b {
    active_questions = delete request_id b.active_questions;
    responses = b.responses ++ record { request_id = request_id; answer = answer } ∷ [];
  }
  | none ↦ b
]

on_user_response : Env → Message → Bridge → Bridge
unfolding answered
on_user_response env msg b = elim (env.decode_response msg.payload) [
  | some response ↦ answered response b
  | none ↦ b
]

pub on_connect : Env → Message → Bridge → Done Bridge
unfolding after_send
on_connect env msg b = elim (lookup msg.client_id b.clients) [
  | some r ↦ after_send b (send_response b.heap r (ack_message env msg.client_id))
  | none ↦ done b
]

-- The `switch msg.Type`.
dispatch : Env → Message → Bridge → Done Bridge
unfolding on_user_response on_connect
dispatch env msg b =
    if str_eq msg.type "user_response"
    then done (on_user_response env msg b)
    else if str_eq msg.type "connect"
    then on_connect env msg b
    else if str_eq msg.type "disconnect"
    then done (record b { clients = delete msg.client_id b.clients })
    else done b

-- `case msg := <-messageCh`
unfoldable pub on_message : Env → Message → Bridge → Done Bridge
unfolding note_sender dispatch
on_message env msg b = dispatch env msg (note_sender msg b)

-- One round of `handleUserResponses`.
unfoldable pub forward_response : AskUserTool → UserResponse → Handled
forward_response t response = handle_user_response t response.request_id response.answer
