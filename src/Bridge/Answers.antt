-- ===== src/Bridge/Answers.antt =====
-- The user_response messages of the bridge in cmd/server/main_monitoring.go.
use frontend_router_mcp.Base.{
  ◌≡◌, ap, ◌∙◌, arith, String, true, [], ◌∷◌, ◌++◌, none, some, lookup, delete, str_eq,
  lookup-delete, eq_iff, eq_refl,
}
use frontend_router_mcp.Channel.{done}
use frontend_router_mcp.Messaging.{Message}
use frontend_router_mcp.Bridge.{Env, Bridge, on_message, note_sender, answered, on_user_response}

on_message-response :
    (env : Env) (msg : Message) (b : Bridge)
    → msg.type ≡ "user_response"
    → on_message env msg b ≡ done (on_user_response env msg (note_sender msg b))
unfolding on_message
on_message-response env msg b ty =
    let t : str_eq msg.type "user_response" ≡ true =
      ground (arith, eq_iff msg.type "user_response") in
    rw (t, on_message)

pub note_sender-keeps :
    (msg : Message) (b : Bridge)
    → ((note_sender msg b).active_questions ≡ b.active_questions)
      × ((note_sender msg b).responses ≡ b.responses)
      × ((note_sender msg b).heap ≡ b.heap)
unfolding note_sender
note_sender-keeps msg b = ground arith

answer_open :
    (env : Env) (msg : Message) (b : Bridge) (id a client : String)
    → env.decode_response msg.payload ≡ some (id, a)
    → lookup id b.active_questions ≡ some client
    → on_user_response env msg b ≡ record b {
      active_questions = delete id b.active_questions;
      responses = b.responses ++ record { request_id = id; answer = a } ∷ [];
    }
unfolding on_user_response
answer_open env msg b id a client dec o = rw (dec, on_user_response) (rw (o, answered))

answer_closed :
    (env : Env) (msg : Message) (b : Bridge) (id a : String)
    → env.decode_response msg.payload ≡ some (id, a)
    → lookup id b.active_questions ≡ none
    → on_user_response env msg b ≡ b
unfolding on_user_response
answer_closed env msg b id a dec o = rw (dec, on_user_response) (rw (o, answered))

-- A message of type user_response whose payload names an open question is passed on, as the last of
-- the responses, and closes the question, and no client's queue changes. The same message again
-- passes nothing on and opens nothing.
pub first_answer_wins :
    (env : Env) (msg : Message) (b : Bridge) (id a client : String)
    → msg.type ≡ "user_response"
    → env.decode_response msg.payload ≡ some (id, a)
    → lookup id b.active_questions ≡ some client
    → (b' : Bridge) × (b'' : Bridge) × (on_message env msg b ≡ done b')
      × (b'.responses ≡ b.responses ++ record { request_id = id; answer = a } ∷ [])
      × (b'.active_questions ≡ delete id b.active_questions)
      × (b'.heap ≡ b.heap)
      × (on_message env msg b' ≡ done b'')
      × (b''.responses ≡ b'.responses)
      × (b''.active_questions ≡ b'.active_questions)
first_answer_wins env msg b id a client ty dec o =
    let noted = note_sender msg b in
    let (same, kept, heap) = note_sender-keeps msg b in
    let b' : Bridge = record noted {
      active_questions = delete id noted.active_questions;
      responses = noted.responses ++ record { request_id = id; answer = a } ∷ [];
    } in
    let again = note_sender msg b' in
    let (same', kept', heap') = note_sender-keeps msg b' in
    (
      b',
      again,
      on_message-response env msg b ty
          ∙ ap done (answer_open env msg noted id a client dec (ap (lookup id) same ∙ o)),
      ap (λ rs. rs ++ record { request_id = id; answer = a } ∷ []) kept,
      ap (delete id) same,
      heap,
      on_message-response env msg b' ty
          ∙ ap done (
              answer_closed env msg again id a dec (
                ap (lookup id) same'
                ∙ ground (arith, lookup-delete id id noted.active_questions, eq_refl id))),
      kept',
      same',
    )
