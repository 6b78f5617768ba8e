-- ===== src/Bridge/Conversation.antt =====
-- A question on its whole way, through internal/tools/ask_user.go and cmd/server/main_monitoring.go.
use frontend_router_mcp.Base.{
  ℕ, ◌≡◌, ◌≢◌, refl, sym, ap, ◌∙◌, arith, String, List, [], ◌∷◌, ◌++◌, some, Dict, lookup, eq_refl,
  length, lookup-insert,
}
use frontend_router_mcp.Channel.{Done, done, panic}
use frontend_router_mcp.Messaging.{Message, bytes}
use frontend_router_mcp.Hub.Ready.{Ready}
use frontend_router_mcp.AskUser.Board.{Operation, ask_op, receive_op, accepted, got}
use frontend_router_mcp.AskUser.Running.{no_calls, step, responded}
use frontend_router_mcp.AskUser.Spared.{ran, IsFresh, AllSpare}
use frontend_router_mcp.AskUser.Asked.{asked_answered}
use frontend_router_mcp.Bridge.{
  Env, Bridge, UserQuestion, UserResponse, on_question, on_message, ask_clients, ask_client,
  on_question_with, forward_response,
}
use frontend_router_mcp.Bridge.Questions.{on_question-told}
use frontend_router_mcp.Bridge.Accounting.{ask_client-account}
use frontend_router_mcp.Bridge.Answers.{first_answer_wins}
use frontend_router_mcp.Bridge.Runs.{Event, question, run}
use frontend_router_mcp.Bridge.Passing.{AllPass, run_still_open}

-- The question of `q` is open.
abbrev IsOpen : UserQuestion → Bridge → Type 0
IsOpen q b = (client : String) × (lookup q.request_id b.active_questions ≡ some client)

ask_client-IsOpen :
    (env : Env) (q : UserQuestion) (k : String) (r : ℕ) (b b' : Bridge)
    → ask_client env q k r b ≡ done b'
    → IsOpen q b'
ask_client-IsOpen env q k r b b' h = (
  k,
  ap (lookup q.request_id) (ask_client-account env q k r b b' h).1
      ∙ ground (
        arith,
        lookup-insert q.request_id q.request_id k b.active_questions,
        eq_refl q.request_id,
      ),
)

ask_clients-IsOpen :
    (env : Env) (q : UserQuestion) (es : Dict ℕ) (b b' : Bridge)
    → IsOpen q b
    → ask_clients env q es b ≡ done b'
    → IsOpen q b'
unfolding ask_clients
ask_clients-IsOpen env q [] b b' o h = (o.0, (let e : b ≡ b' = ground arith in rw (← e) o.1))
ask_clients-IsOpen env q ((k, r) ∷ es) b b' o h =
    go (ask_client env q k r b) refl (λ b1. ask_clients-IsOpen env q es b1 b')
  where
    go :
        (d : Done Bridge)
        → ask_client env q k r b ≡ d
        → ((b1 : Bridge) → IsOpen q b1 → ask_clients env q es b1 ≡ done b' → IsOpen q b')
        → IsOpen q b'
    go panic e rest =
        cc (let z : ask_clients env q ((k, r) ∷ es) b ≡ panic = rw (e, ask_clients) in z)
    go (done b1) e rest = rest b1 (ask_client-IsOpen env q k r b b1 e) (
        let z : ask_clients env q ((k, r) ∷ es) b ≡ ask_clients env q es b1 = rw (e, ask_clients) in
        sym z ∙ h)

asked-IsOpen :
    (env : Env) (q : UserQuestion) (es : Dict ℕ) (b b' : Bridge)
    → es ≢ []
    → on_question_with env q es b ≡ done b'
    → IsOpen q b'
unfolding on_question_with ask_clients
asked-IsOpen env q [] b b' ne h = absurd (ne refl)
asked-IsOpen env q ((k, r) ∷ es) b b' ne h = go (ask_client env q k r b) refl
  where
    go : (d : Done Bridge) → ask_client env q k r b ≡ d → IsOpen q b'
    go panic e = cc (let z : ask_clients env q ((k, r) ∷ es) b ≡ panic = rw (e, ask_clients) in z)
    go (done b1) e = ask_clients-IsOpen env q es b1 b' (ask_client-IsOpen env q k r b b1 e) (
        let z : ask_clients env q ((k, r) ∷ es) b ≡ ask_clients env q es b1 = rw (e, ask_clients) in
        sym z ∙ h)

-- A question that the tool registers under a new id, that can be encoded and that is put to at least one
-- client, all of them live under distinct keys, is answered by the first message of type user_response
-- whose payload names its request id, whatever comes before: other questions, other answers, clients
-- that connect and disconnect, provided that no round panics. The bridge passes the answer on as the
-- last of its responses; and if the tool has done anything meanwhile but end this call's wait or use
-- its id, other calls coming, being answered, giving up and being cleaned up, it accepts the
-- response, and the call wakes with exactly this answer, again whatever other calls do before.
pub answer_reaches_agent :
    (env : Env) (before between afterwards : List Operation) (b b2 : Bridge) (q : UserQuestion)
    (payload a : String) (es : List Event) (msg : Message)
    → env.encode_question q.request_id q.question ≡ bytes payload
    → b.clients ≢ []
    → Ready b.heap b.clients
    → AllPass env q.request_id es
    → run env b (question q ∷ es) ≡ done b2
    → msg.type ≡ "user_response"
    → env.decode_response msg.payload ≡ some (q.request_id, a)
    → IsFresh q.request_id before
    → AllSpare q.request_id (length (ran no_calls before).calls) between
    → AllSpare q.request_id (length (ran no_calls before).calls) afterwards
    → let r = ran no_calls before in
      let n = length r.calls in
      let r' = ran (step r (ask_op q.request_id)).0 between in
      let response : UserResponse = record { request_id = q.request_id; answer = a } in
      let (r2, outcome) = responded r' (forward_response r'.tool response) in
      (b3 : Bridge) × (on_message env msg b2 ≡ done b3)
      × (b3.responses ≡ b2.responses ++ response ∷ [])
      × (outcome ≡ accepted)
      × ((step (ran r2 afterwards) (receive_op n)).1 ≡ got a)
unfolding forward_response run
answer_reaches_agent env before between afterwards b b2 q payload a es msg enc ne v pass runs ty dec
      fresh spared spared' =
    let (b1, asked, _, _, _) = on_question-told env q payload b enc ne v in
    let (client, is_open) = asked-IsOpen env q b.clients b b1 ne (unfold on_question in asked) in
    let rest : run env b1 es ≡ done b2 =
      (let z : run env b (question q ∷ es) ≡ run env b1 es = rw (asked, run) in sym z ∙ runs) in
    let still = run_still_open env q.request_id es b1 b2 pass rest ∙ is_open in
    let (b3, _, passed, added, _, _, _, _, _) =
      first_answer_wins env msg b2 q.request_id a client ty dec still in
    let (told, woken) =
      asked_answered before between afterwards q.request_id a fresh spared spared' in
    (b3, passed, added, unfold step in told, unfold step in woken)
