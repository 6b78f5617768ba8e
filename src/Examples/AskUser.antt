-- ===== src/Examples/AskUser.antt =====
-- The ask_user tool at concrete inputs.
use frontend_router_mcp.Base.{
  ◌≡◌, ◌≢◌, refl, List, String, true, false, set, delete, insert, if◌then◌else◌, ltb, [], ◌∷◌, none,
  some, lookup, str_eq,
}
use frontend_router_mcp.Errors.{Error, nil, plain, internal, not_found, timeout, get_type}
use frontend_router_mcp.Channel.{Chan, make_chan, done, close, receive}
use frontend_router_mcp.AskUser.{
  AskUserTool, Env, Decoded, decoded, bad_json, answer, answered, new_ask_user_tool, parse,
  register, wake, finish, execute, find_pending, send_answer, handle_user_response, returned,
  panicked,
}
use frontend_router_mcp.AskUser.Invariant.{IsSafe, new-IsSafe, register-IsSafe, set_channel-IsSafe}
use frontend_router_mcp.AskUser.RoundTrip.{answer_round_trip}
use frontend_router_mcp.AskUser.Exits.{execute_cleans_up}
use frontend_router_mcp.AskUser.Board.{
  Operation, ask_op, respond_op, receive_op, leave_op, finish_op, timer, registered, accepted,
  nothing, refused, got, cleaned, promise, promised, new_board,
}
use frontend_router_mcp.AskUser.Running.{no_calls, outcomes}
use frontend_router_mcp.AskUser.Refinement.{outcomes-promised}
use frontend_router_mcp.AskUser.Races.{late_answer_panics}

-- A decoder that knows two texts.
abbrev decode_example : String → Decoded
decode_example params =
    if str_eq params "{question: why?}"
    then decoded "why?" 0
    else if str_eq params "{}"
    then decoded "" 0
    else bad_json (plain "unexpected end of JSON input")

abbrev json : Env
json = record {
  decode = decode_example;
  is_positive = λ bits. ltb 0 bits;
  to_int64 = λ bits. bits;
  three_hundred = 300;
}

-- One pending request, and a handler that accepts every question.
abbrev pending : AskUserTool
pending = record { pending_requests = ("req-1", 0) ∷ []; channels = make_chan 1 ∷ [] }

abbrev emptied : AskUserTool
emptied = record {
  pending_requests = [];
  channels = record { buffer = []; capacity = 1; is_open = false } ∷ [];
}

abbrev accept : String → String → Error
accept id question = nil

answer_round_trip_example :
    (t2 : AskUserTool) × (t3 : AskUserTool) × (t4 : AskUserTool) × (e : Error)
    × (handle_user_response (register pending "req-2").0 "req-2" "yes" ≡ returned t2 nil)
    × (handle_user_response t2 "req-2" "no" ≡ returned t2 e)
    × (get_type e ≡ internal)
    × (wake t2 "req-2" 300 (register pending "req-2").1 answered ≡ some (t3, answer "yes"))
    × (finish t3 "req-2" (register pending "req-2").1 ≡ done t4)
    × (lookup "req-2" t4.pending_requests ≡ none)
    × ((other : String)
        → "req-2" ≢ other
        → lookup other t4.pending_requests ≡ lookup other pending.pending_requests)
answer_round_trip_example = answer_round_trip pending "req-2" "yes" "no" 300

late_answer_panics_example : send_answer emptied "req-1" "yes" 0 ≡ panicked
unfolding find_pending lookup finish make_chan close delete
late_answer_panics_example = late_answer_panics pending emptied "req-1" "yes" 0 refl refl

-- The answer arrives while the call waits.
abbrev full_chan : Chan String
full_chan = record { buffer = "yes" ∷ []; capacity = 1; is_open = true }

abbrev arrives : AskUserTool → AskUserTool
arrives t = record t { channels = set t.channels 0 full_chan }

asked_once-IsSafe : IsSafe (register new_ask_user_tool "req-1").0
asked_once-IsSafe = register-IsSafe new_ask_user_tool "req-1" new-IsSafe

arrives-IsSafe : IsSafe (arrives (register new_ask_user_tool "req-1").0)
unfolding register new_ask_user_tool make_chan
arrives-IsSafe =
    set_channel-IsSafe (register new_ask_user_tool "req-1").0 0 full_chan (make_chan 1) refl refl
      refl asked_once-IsSafe

execute_cleans_up_example :
    (t' : AskUserTool) × (done emptied ≡ done t')
    × (lookup "req-1" t'.pending_requests ≡ none)
    × IsSafe t'
unfolding parse register new_ask_user_tool insert lookup execute wake receive finish close delete
    make_chan
execute_cleans_up_example =
    execute_cleans_up json new_ask_user_tool "{question: why?}" "req-1" "why?" 300 accept arrives
      answered {d = done emptied} {reply = answer "yes"} refl new-IsSafe arrives-IsSafe refl refl

-- A question, two responses to it and one to another, and a response after the clean-up.
abbrev conversation : List Operation
conversation =
    ask_op "req-1"
    ∷ receive_op 0
    ∷ respond_op "req-1" "yes"
    ∷ respond_op "req-1" "no"
    ∷ respond_op "req-2" "why"
    ∷ receive_op 0
    ∷ finish_op 0
    ∷ respond_op "req-1" "late"
    ∷ []

outcomes-promised_example : outcomes no_calls conversation ≡ promised new_board conversation
outcomes-promised_example = outcomes-promised conversation

conversation_lem :
    promised new_board conversation
    ≡ registered
      ∷ nothing
      ∷ accepted
      ∷ refused internal
      ∷ refused not_found
      ∷ got "yes"
      ∷ cleaned
      ∷ refused not_found
      ∷ []
unfolding promised promise
conversation_lem = refl

-- Two calls under one id: when the first is cleaned up, the second can no longer be answered.
abbrev collision : List Operation
collision =
    ask_op "req-1"
    ∷ ask_op "req-1"
    ∷ leave_op 0 (timer 5)
    ∷ finish_op 0
    ∷ respond_op "req-1" "yes"
    ∷ receive_op 1
    ∷ leave_op 1 (timer 5)
    ∷ finish_op 1
    ∷ []

collision_lem :
    promised new_board collision
    ≡ registered
      ∷ registered
      ∷ refused timeout
      ∷ cleaned
      ∷ refused not_found
      ∷ nothing
      ∷ refused timeout
      ∷ cleaned
      ∷ []
unfolding promised promise
collision_lem = refl
