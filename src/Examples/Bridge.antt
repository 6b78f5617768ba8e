-- ===== src/Examples/Bridge.antt =====
-- The bridge at concrete inputs: one client, one question and its answer.
use frontend_router_mcp.Base.{
  ℕ, ◌≡◌, ◌≢◌, ◌≤◌, refl, String, true, false, if◌then◌else◌, List, [], ◌∷◌, none, some, lookup,
  insert, delete, get_elem?, str_eq, ap, arith, eq_iff, length,
}
use frontend_router_mcp.Channel.{make_chan, done, panic, close, try_send}
use frontend_router_mcp.Messaging.{Message, bytes}
use frontend_router_mcp.Hub.{Client, Server, selecting, unregister_client, send_response}
use frontend_router_mcp.Hub.Ready.{Ready, Ready-Live}
use frontend_router_mcp.Hub.Membership.{IsLinked}
use frontend_router_mcp.AskUser.{new_ask_user_tool, register}
use frontend_router_mcp.AskUser.Board.{
  Operation, ask_op, respond_op, receive_op, leave_op, finish_op, accepted, got,
}
use frontend_router_mcp.AskUser.Running.{Running, no_calls, step, responded}
use frontend_router_mcp.AskUser.Spared.{ran, IsFresh, AllSpare}
use frontend_router_mcp.Bridge.{
  Env, Bridge, UserQuestion, UserResponse, new_bridge, question_message, on_question, on_message,
  ask_client, forward_response,
}
use frontend_router_mcp.Bridge.Questions.{told, on_question-told}
use frontend_router_mcp.Bridge.Stale.{stale_client_panics}
use frontend_router_mcp.Bridge.Answers.{first_answer_wins}
use frontend_router_mcp.Bridge.Accounting.{count}
use frontend_router_mcp.Bridge.Runs.{
  Event, question, message, run, questions, responses_le_questions,
}
use frontend_router_mcp.Bridge.Conversation.{answer_reaches_agent}
use frontend_router_mcp.Bridge.Passing.{AllPass}

abbrev json : Env
json = record {
  encode_question = λ id question. bytes question;
  ack_payload = "{}";
  decode_response = λ payload. if str_eq payload "yes to q1" then some ("q1", "yes") else none;
  uuid = λ client. client;
  now = 7;
}

abbrev why : UserQuestion
why = record { request_id = "q1"; question = "why?" }

abbrev alice : Client
alice = record { id = "alice"; send = record { buffer = []; capacity = 2; is_open = true } }

abbrev gone : Client
gone = record { id = "alice"; send = record { buffer = []; capacity = 2; is_open = false } }

abbrev one_client : Bridge
one_client = record {
  clients = ("alice", 0) ∷ [];
  active_questions = [];
  heap = alice ∷ [];
  responses = [];
}

abbrev asked_once : Bridge
asked_once = record {
  clients = ("alice", 0) ∷ [];
  active_questions = ("q1", "alice") ∷ [];
  heap = alice ∷ [];
  responses = [];
}

abbrev yes_message : Message
yes_message = record {
  id = "m1";
  type = "user_response";
  timestamp = 9;
  payload = "yes to q1";
  client_id = "alice";
  response_sender = some 0;
}

abbrev yes_response : UserResponse
yes_response = record { request_id = "q1"; answer = "yes" }

alice-Ready : Ready (alice ∷ []) (("alice", 0) ∷ [])
alice-Ready = ((alice, refl, refl, refl), tt, tt)

one_client-nonempty : one_client.clients ≢ []
one_client-nonempty e = absurd (cc)

-- A client that leaves between the question and its answer, and calls before and beside this one.
abbrev leaves : Message
leaves = record {
  id = "m0";
  type = "disconnect";
  timestamp = 8;
  payload = "";
  client_id = "bob";
  response_sender = none;
}

abbrev asked_alice : Bridge
asked_alice = record {
  clients = ("alice", 0) ∷ [];
  active_questions = ("q1", "alice") ∷ [];
  heap =
      record {
        id = "alice";
        send = record {
          buffer = question_message json "alice" "why?" ∷ [];
          capacity = 2;
          is_open = true;
        };
      }
      ∷ [];
  responses = [];
}

abbrev before : List Operation
before = ask_op "q0" ∷ []

abbrev between : List Operation
between = ask_op "q2" ∷ respond_op "q0" "no" ∷ receive_op 0 ∷ finish_op 0 ∷ []

-- The tool when the response comes.
abbrev asked_tool : Running
asked_tool = ran (step (ran no_calls before) (ask_op "q1")).0 between

abbrev told_tool : Running
told_tool = (responded asked_tool (forward_response asked_tool.tool yes_response)).0

ne_by_test : (x y : String) → str_eq x y ≡ false → x ≢ y
ne_by_test x y h = ground (arith, eq_iff x y)

asked_id : Operation → String
asked_id (ask_op id) = id
asked_id (respond_op id a) = id
asked_id (receive_op n) = ""
asked_id (leave_op n l) = ""
asked_id (finish_op n) = ""

ran_before : run json one_client (question why ∷ message leaves ∷ []) ≡ done asked_alice
unfolding run on_question on_message insert delete lookup ask_client send_response try_send
ran_before = refl

before-IsFresh : IsFresh "q1" before
unfolding asked_id
before-IsFresh = (λ e. ne_by_test "q0" "q1" refl (ap asked_id e), tt)

between-Spares : AllSpare "q1" (length (ran no_calls before).calls) between
unfolding step register new_ask_user_tool
between-Spares = (
  ne_by_test "q2" "q1" refl,
  (ne_by_test "q0" "q1" refl, (λ e. omega arith, (λ e. omega arith, tt))),
)

leaves-Passes : AllPass json "q1" (message leaves ∷ [])
leaves-Passes = (λ ty. absurd (ne_by_test "disconnect" "user_response" refl ty), tt)

answer_reaches_agent_example :
    (b3 : Bridge) × (on_message json yes_message asked_alice ≡ done b3)
    × (b3.responses ≡ yes_response ∷ [])
    × ((responded asked_tool (forward_response asked_tool.tool yes_response)).1 ≡ accepted)
    × ((step (ran told_tool []) (receive_op 1)).1 ≡ got "yes")
unfolding step register new_ask_user_tool
answer_reaches_agent_example =
    answer_reaches_agent json before between [] one_client asked_alice why "why?" "yes"
      (message leaves ∷ []) yes_message refl one_client-nonempty alice-Ready leaves-Passes
      ran_before refl refl before-IsFresh between-Spares tt

on_question-told_example :
    (t : Bridge) × (on_question json why one_client ≡ done t)
    × (t.responses ≡ [])
    × (t.clients ≡ one_client.clients)
    × ((k : String) (r : ℕ) (c : Client)
        → lookup k one_client.clients ≡ some r
        → get_elem? one_client.heap r ≡ some c
        → c.id ≡ k
        → get_elem? t.heap r ≡ some (told c (question_message json k "why?")))
on_question-told_example =
    on_question-told json why "why?" one_client refl one_client-nonempty alice-Ready

first_answer_wins_example :
    (b' : Bridge) × (b'' : Bridge) × (on_message json yes_message asked_once ≡ done b')
    × (b'.responses ≡ yes_response ∷ [])
    × (b'.active_questions ≡ delete "q1" asked_once.active_questions)
    × (b'.heap ≡ asked_once.heap)
    × (on_message json yes_message b' ≡ done b'')
    × (b''.responses ≡ b'.responses)
    × (b''.active_questions ≡ b'.active_questions)
unfolding lookup
first_answer_wins_example =
    first_answer_wins json yes_message asked_once "q1" "yes" "alice" refl refl refl

-- The hub before and after it unregisters the client.
abbrev hub : Server
hub = record {
  clients = ("alice", 0) ∷ [];
  heap = alice ∷ [];
  message_ch = make_chan 4;
  phase = selecting;
  is_shutdown = false;
  has_http_server = true;
}

abbrev hub_after : Server
hub_after = record hub { clients = []; heap = gone ∷ [] }

hub-IsLinked : IsLinked hub
hub-IsLinked k r h = Ready-Live hub.heap hub.clients k r alice-Ready h

stale_client_panics_example : on_question json why (record one_client { heap = gone ∷ [] }) ≡ panic
unfolding lookup unregister_client close delete
stale_client_panics_example =
    stale_client_panics json why "why?" hub hub_after "alice" "alice" 0
      (record one_client { heap = gone ∷ [] }) hub-IsLinked refl refl refl refl refl

-- With no client connected, a question is answered at once, and a late answer finds it closed.
abbrev events : List Event
events = question why ∷ message yes_message ∷ []

abbrev afterwards : Bridge
afterwards = record {
  clients = ("alice", 0) ∷ [];
  active_questions = [];
  heap = alice ∷ [];
  responses =
      record { request_id = "q1"; answer = "Error: No clients connected to answer the question" }
      ∷ [];
}

responses_le_questions_example : count "q1" afterwards.responses ≤ questions "q1" events
unfolding run on_question on_message new_bridge insert lookup
responses_le_questions_example =
    responses_le_questions json (alice ∷ []) events afterwards "q1" refl
