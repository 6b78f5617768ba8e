-- ===== src/AskUser/Running.antt =====
-- Runs of the ask_user tool (internal/tools/ask_user.go) by its methods. A call of `Execute` keeps its own
-- channel and request id from its registration on, whatever is registered under that id meanwhile.
use frontend_router_mcp.Base.{ℕ, String, List, [], ◌∷◌, ◌++◌, Option, none, some, get_elem?, set}
use frontend_router_mcp.Errors.{Error, nil, plain, get_type}
use frontend_router_mcp.Channel.{Done, done, panic}
use frontend_router_mcp.AskUser.{
  AskUserTool, new_ask_user_tool, Handled, returned, panicked, answered, timed_out, cancelled,
  Reply, answer, failed, register, finish, wake, handle_user_response, handler_error,
}
use frontend_router_mcp.AskUser.Board.{
  Phase, asking, leaving, ended, Leave, timer, context, handler, Operation, ask_op, respond_op,
  receive_op, leave_op, finish_op, Outcome, registered, accepted, nothing, cleaned, crashed,
  refused, got,
}

-- The code: the tool, and the variables of each call of `Execute`.
pub record Call : Type 0 where
  pub request_id : String
  pub response_ch : ℕ
  pub phase : Phase

pub record Running : Type 0 where
  pub tool : AskUserTool
  pub calls : List Call

abbrev pub no_calls : Running
no_calls = record { tool = new_ask_user_tool; calls = [] }

unfoldable pub outcome_of : Error → Outcome
outcome_of nil = accepted
outcome_of e = refused (get_type e)

unfoldable pub responded : Running → Handled → Running × Outcome
unfolding outcome_of
responded s (returned u e) = (record s { tool = u }, outcome_of e)
responded s panicked = (s, crashed)

abbrev reply_outcome : Reply → Outcome
reply_outcome (answer a) = got a
reply_outcome (failed e) = refused (get_type e)

-- Whatever its reply is, the call goes on to its deferred clean-up.
left : Running → ℕ → Call → Option (AskUserTool × Reply) → Running × Outcome
left s n c none = (s, nothing)
left s n c (some (u, reply)) =
    (record { tool = u; calls = set s.calls n (record c { phase = leaving }) }, reply_outcome reply)

receive_call : Running → ℕ → Option Call → Running × Outcome
unfolding left
receive_call s n none = (s, nothing)
receive_call s n (some c) = elim c.phase [
  | asking ↦ left s n c (wake s.tool c.request_id 0 c.response_ch answered)
  | leaving ↦ (s, nothing)
  | ended ↦ (s, nothing)
]

unfoldable pub leave_reply : AskUserTool → Call → Leave → Option (AskUserTool × Reply)
unfolding handler_error
leave_reply t c (timer seconds) = wake t c.request_id seconds c.response_ch timed_out
leave_reply t c (context text) = wake t c.request_id 0 c.response_ch (cancelled (plain text))
leave_reply t c (handler text question) =
    some (t, failed (handler_error (plain text) c.request_id question))

leave_call : Running → ℕ → Leave → Option Call → Running × Outcome
unfolding left leave_reply
leave_call s n l none = (s, nothing)
leave_call s n l (some c) = elim c.phase [
  | asking ↦ left s n c (leave_reply s.tool c l)
  | leaving ↦ (s, nothing)
  | ended ↦ (s, nothing)
]

finished : Running → ℕ → Call → Done AskUserTool → Running × Outcome
finished s n c (done u) =
    (record { tool = u; calls = set s.calls n (record c { phase = ended }) }, cleaned)
finished s n c panic = (s, crashed)

finish_call : Running → ℕ → Option Call → Running × Outcome
unfolding finished
finish_call s n none = (s, nothing)
finish_call s n (some c) = elim c.phase [
  | asking ↦ (s, nothing)
  | leaving ↦ finished s n c (finish s.tool c.request_id c.response_ch)
  | ended ↦ (s, nothing)
]

unfoldable pub step : Running → Operation → Running × Outcome
unfolding responded receive_call leave_call finish_call handler_error
step s (ask_op id) =
    let (t, r) = register s.tool id in
    (
      record {
        tool = t;
        calls = s.calls ++ record { request_id = id; response_ch = r; phase = asking } ∷ [];
      },
      registered,
    )
step s (respond_op id a) = responded s (handle_user_response s.tool id a)
step s (receive_op n) = receive_call s n (get_elem? s.calls n)
step s (leave_op n l) = leave_call s n l (get_elem? s.calls n)
step s (finish_op n) = finish_call s n (get_elem? s.calls n)

unfoldable pub outcomes : Running → List Operation → List Outcome
outcomes s [] = []
outcomes s (o ∷ os) = let (u, r) = step s o in r ∷ outcomes u os
