-- ===== src/Bridge/Passing.antt =====
-- Rounds of the bridge in cmd/server/main_monitoring.go that leave a question open.
use frontend_router_mcp.Base.{
  ℕ, ◌≡◌, ◌≢◌, refl, sym, ap, ◌∙◌, arith, String, List, [], ◌∷◌, some, Dict, lookup, lookup-delete,
  eq_iff, str_eq, Bool-cases, Option-cases, inl, inr,
}
use frontend_router_mcp.Channel.{Done, done, panic}
use frontend_router_mcp.Messaging.{Message}
use frontend_router_mcp.Bridge.{
  Env, Bridge, UserQuestion, on_question, on_message, on_question_with, note_sender,
  on_user_response, answered,
}
use frontend_router_mcp.Bridge.Accounting.{ask_clients-Kept, on_connect-account}
use frontend_router_mcp.Bridge.Answers.{note_sender-keeps}
use frontend_router_mcp.Bridge.Runs.{Event, question, message, run}

-- A round of the bridge that does not name the id, in a question or in a response.
abbrev pub Passes : Env → String → Event → Type 0
Passes env id (question q) = q.request_id ≢ id
Passes env id (message m) =
    m.type ≡ "user_response" → (a : String) → env.decode_response m.payload ≢ some (id, a)

abbrev pub AllPass : Env → String → List Event → Type 0
AllPass env id [] = Unit
AllPass env id (e ∷ es) = Passes env id e × AllPass env id es

on_question_still_open :
    (env : Env) (q : UserQuestion) (id : String) (b b' : Bridge)
    → q.request_id ≢ id
    → on_question env q b ≡ done b'
    → lookup id b'.active_questions ≡ lookup id b.active_questions
unfolding on_question
on_question_still_open env q id b b' ne h = go b.clients h
  where
    go :
        (cs : Dict ℕ)
        → on_question_with env q cs b ≡ done b'
        → lookup id b'.active_questions ≡ lookup id b.active_questions
    go [] e = ground arith
    go (c ∷ cs) e = (ask_clients-Kept env q (c ∷ cs) b b' e).1 id ne

on_user_response_still_open :
    (env : Env) (m : Message) (id : String) (b : Bridge)
    → ((a : String) → env.decode_response m.payload ≢ some (id, a))
    → lookup id (on_user_response env m b).active_questions ≡ lookup id b.active_questions
unfolding on_user_response answered
on_user_response_still_open env m id b ne = elim (Option-cases (env.decode_response m.payload)) [
  | inl e ↦ rw (e, on_user_response) refl
  | inr ((other, a), e) ↦
      let away : other ≢ id = λ q. ne a (e ∙ ap (λ x. some (x, a)) q) in
      rw (e, on_user_response)
        (ground (arith, lookup-delete other id b.active_questions, eq_iff other id))
]

on_message_still_open :
    (env : Env) (m : Message) (id : String) (b b' : Bridge)
    → Passes env id (message m)
    → on_message env m b ≡ done b'
    → lookup id b'.active_questions ≡ lookup id b.active_questions
unfolding on_message
on_message_still_open env m id b b' pass h =
    let noted = note_sender m b in
    let (same, _, _) = note_sender-keeps m b in
    elim (Bool-cases (str_eq m.type "user_response")) [
      | inl e ↦
          let ty : m.type ≡ "user_response" = ground (arith, eq_iff m.type "user_response") in
          ground (arith, ap (lookup id) same, on_user_response_still_open env m id noted (pass ty))
      | inr e ↦ ground (arith, ap (lookup id) same, on_connect-account env m noted b')
    ]

pub run_still_open :
    (env : Env) (id : String) (es : List Event) (b b' : Bridge)
    → AllPass env id es
    → run env b es ≡ done b'
    → lookup id b'.active_questions ≡ lookup id b.active_questions
unfolding run
run_still_open env id [] b b' pass h = let e : b ≡ b' = ground arith in rw e refl
run_still_open env id (question q ∷ es) b b' (first, pass) h =
    go (on_question env q b) refl (λ b1. run_still_open env id es b1 b' pass)
  where
    go :
        (d : Done Bridge)
        → on_question env q b ≡ d
        → ((b1 : Bridge)
            → run env b1 es ≡ done b'
            → lookup id b'.active_questions ≡ lookup id b1.active_questions)
        → lookup id b'.active_questions ≡ lookup id b.active_questions
    go panic e rest = cc (let z : run env b (question q ∷ es) ≡ panic = rw (e, run) in z)
    go (done b1) e rest =
        let z : run env b (question q ∷ es) ≡ run env b1 es = rw (e, run) in
        rest b1 (sym z ∙ h) ∙ on_question_still_open env q id b b1 first e
run_still_open env id (message m ∷ es) b b' (first, pass) h =
    go (on_message env m b) refl (λ b1. run_still_open env id es b1 b' pass)
  where
    go :
        (d : Done Bridge)
        → on_message env m b ≡ d
        → ((b1 : Bridge)
            → run env b1 es ≡ done b'
            → lookup id b'.active_questions ≡ lookup id b1.active_questions)
        → lookup id b'.active_questions ≡ lookup id b.active_questions
    go panic e rest = cc (let z : run env b (message m ∷ es) ≡ panic = rw (e, run) in z)
    go (done b1) e rest =
        let z : run env b (message m ∷ es) ≡ run env b1 es = rw (e, run) in
        rest b1 (sym z ∙ h) ∙ on_message_still_open env m id b b1 first e
