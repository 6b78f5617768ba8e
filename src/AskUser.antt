-- ===== src/AskUser.antt =====
-- internal/tools/ask_user.go: the ask_user tool. Each question waits on a channel of its own, which
-- the tool finds by request id. The methods are cut at the points where another goroutine can run:
-- `Execute` is `parse`, `register`, the handler, `wake` and `finish`; `HandleUserResponse` is
-- `find_pending` and `send_answer`.
pub mod Invariant
pub mod Histories
pub mod RoundTrip
pub mod Exits
pub mod Races
pub mod Board
pub mod Running
pub mod Views
pub mod Agreement
pub mod Refinement
pub mod Spared
pub mod Asked
use frontend_router_mcp.Base.{
  ℕ, ◌*◌, ◌%◌, ◌^◌, String, Bool, if◌then◌else◌, List, [], ◌∷◌, ◌++◌, Option, none, some, Dict,
  lookup, insert, delete, length, get_elem?, set, str_eq,
}
use frontend_router_mcp.Errors.{
  Error, nil, validation, internal, text, float, wrap, with_context, with_request_id,
  new_validation_error, new_timeout_error, new_internal_error, new_not_found_error,
}
use frontend_router_mcp.Channel.{
  Chan, Done, done, panic, Sent, sent, full, send_panic, make_chan, try_send, close, receive,
}
use Prim.Native.String.{◌++◌ as str_append}

-- The parts of encoding/json and of the floating-point unit that the tool uses. A float64 is the
-- number that its bits spell; `to_int64` is the conversion in `time.Duration(f)`.
pub data Decoded : Type 0 where
  decoded : String → ℕ → Decoded
  bad_json : Error → Decoded

pub record Env : Type 0 where
  pub decode : String → Decoded
  pub is_positive : ℕ → Bool
  pub to_int64 : ℕ → ℕ
  pub three_hundred : ℕ

-- `pendingRequests`, and the channels that were made so far; a reference is a place in the list.
pub record AskUserTool : Type 0 where
  pub pending_requests : Dict ℕ
  pub channels : List (Chan String)

unfoldable pub new_ask_user_tool : AskUserTool
new_ask_user_tool = record { pending_requests = []; channels = [] }

pub data Parsed : Type 0 where
  invalid : Error → Parsed
  ask : String → ℕ → Parsed

-- The parameters: decoded, checked, and the timeout defaulted.
unfoldable pub parse : Env → String → Parsed
parse env params = elim (env.decode params) [
  | bad_json e ↦ invalid (wrap e validation "failed to parse parameters")
  | decoded question timeout ↦
      if str_eq question ""
      then invalid (new_validation_error "question parameter is required")
      else if env.is_positive timeout
      then ask question timeout
      else ask question env.three_hundred
]

-- `time.Duration(p.TimeoutSeconds) * time.Second`, in nanoseconds, as the bits of an int64.
unfoldable pub wait_duration : Env → ℕ → ℕ
wait_duration env timeout = env.to_int64 timeout * 1000000000 % 2 ^ 64

-- A channel of capacity 1 is made and registered; the result is its reference.
unfoldable pub register : AskUserTool → String → AskUserTool × ℕ
register t request_id = (
  record {
    pending_requests = insert request_id (length t.channels) t.pending_requests;
    channels = t.channels ++ make_chan 1 ∷ [];
  },
  length t.channels,
)

handler_error : Error → String → String → Error
handler_error e request_id question =
    with_context "question" (text question)
      (with_request_id request_id (wrap e internal "failed to send question to user"))

close_at : AskUserTool → ℕ → Done (Chan String) → Done AskUserTool
close_at t r (done c) = done (record t { channels = set t.channels r c })
close_at t r panic = panic

-- The deferred clean-up: the request is forgotten, and its channel closed.
unfoldable pub finish : AskUserTool → String → ℕ → Done AskUserTool
unfolding close_at
finish t request_id r =
    let t' = record t { pending_requests = delete request_id t.pending_requests } in
    elim (get_elem? t.channels r) [ some c ↦ close_at t' r (close c) | none ↦ panic ]

-- What ends the wait: a response in the channel, the timer, or the context.
pub data Wake : Type 0 where
  answered timed_out : Wake
  cancelled : Error → Wake

pub data Reply : Type 0 where
  answer : String → Reply
  failed : Error → Reply

timeout_error : String → ℕ → Error
timeout_error request_id timeout =
    with_context "timeout_seconds" (float timeout)
      (with_request_id request_id (new_timeout_error "timeout waiting for user response"))

cancel_error : Error → String → Error
cancel_error e request_id = with_request_id request_id (wrap e internal "context cancelled")

received : AskUserTool → ℕ → Option (String × Chan String) → Option (AskUserTool × Reply)
received t r none = none
received t r (some (a, c)) = some (record t { channels = set t.channels r c }, answer a)

take_response : AskUserTool → ℕ → Option (AskUserTool × Reply)
unfolding received
take_response t r = elim (get_elem? t.channels r) [
  | some c ↦ received t r (receive c)
  | none ↦ none
]

-- The `select` of `Execute`: `none` where the case that is asked for is not ready.
unfoldable pub wake : AskUserTool → String → ℕ → ℕ → Wake → Option (AskUserTool × Reply)
unfolding take_response timeout_error cancel_error
wake t request_id timeout r answered = take_response t r
wake t request_id timeout r timed_out = some (t, failed (timeout_error request_id timeout))
wake t request_id timeout r (cancelled e) = some (t, failed (cancel_error e request_id))

-- `Execute` from the handler's result on; `interleave` is what the other goroutines do to the tool
-- between the registration and the clean-up.
after_wait : String → ℕ → Option (AskUserTool × Reply) → Option (Done AskUserTool × Reply)
after_wait request_id r none = none
after_wait request_id r (some (t, reply)) = some (finish t request_id r, reply)

unfoldable pub execute :
    Env
    → AskUserTool
    → String
    → String
    → (String → String → Error)
    → (AskUserTool → AskUserTool)
    → Wake
    → Option (Done AskUserTool × Reply)
unfolding after_wait handler_error
execute env t params request_id handler interleave w = elim (parse env params) [
  | invalid e ↦ some (done t, failed e)
  | ask question timeout ↦
      let (t', r) = register t request_id in
      elim (handler request_id question) [
        | nil ↦ after_wait request_id r (wake (interleave t') request_id timeout r w)
        | e ↦
            some (finish (interleave t') request_id r, failed (handler_error e request_id question))
      ]
]

-- What `HandleUserResponse` returns: the tool and an error, nil for success.
pub data Handled : Type 0 where
  returned : AskUserTool → Error → Handled
  panicked : Handled

-- The look-up under the lock.
unfoldable pub find_pending : AskUserTool → String → Option ℕ
find_pending t request_id = lookup request_id t.pending_requests

not_found_error : String → Error
not_found_error request_id =
    with_request_id request_id
      (new_not_found_error (str_append "no pending request found with ID: " request_id))

full_error : String → Error
full_error request_id =
    with_request_id request_id
      (new_internal_error "failed to send response, channel full or closed")

after_send : AskUserTool → String → ℕ → Sent String → Handled
unfolding full_error
after_send t request_id r (sent c) = returned (record t { channels = set t.channels r c }) nil
after_send t request_id r full = returned t (full_error request_id)
after_send t request_id r send_panic = panicked

-- The send outside the lock.
unfoldable pub send_answer : AskUserTool → String → String → ℕ → Handled
unfolding after_send
send_answer t request_id a r = elim (get_elem? t.channels r) [
  | some c ↦ after_send t request_id r (try_send c a)
  | none ↦ panicked
]

-- `HandleUserResponse` with no other goroutine between its two steps.
unfoldable pub handle_user_response : AskUserTool → String → String → Handled
unfolding find_pending not_found_error
handle_user_response t request_id a = elim (find_pending t request_id) [
  | some r ↦ send_answer t request_id a r
  | none ↦ returned t (not_found_error request_id)
]
