-- ===== src/Bridge/Accounting.antt =====
-- Responses and open questions of the bridge in cmd/server/main_monitoring.go, round by round.
use frontend_router_mcp.Base.{
  ℕ, suc, ◌+◌, ◌≤◌, ◌≡◌, ◌≢◌, refl, sym, ap, ◌∙◌, arith, String, if◌then◌else◌, List, [], ◌∷◌, ◌++◌,
  Option, none, some, Dict, lookup, insert, str_eq, lookup-insert, lookup-delete, eq_iff,
  Option-cases, inl, inr,
}
use frontend_router_mcp.Channel.{Done, done, panic}
use frontend_router_mcp.Messaging.{Message}
use frontend_router_mcp.Bridge.{
  Env, Bridge, UserQuestion, UserResponse, on_question, on_message, ask_clients, ask_client,
  no_clients_response, on_question_with, note_sender, answered, on_user_response, on_connect,
}
use frontend_router_mcp.Bridge.Answers.{note_sender-keeps}

-- The responses for one request, and whether its question is still open.
unfoldable pub count : String → List UserResponse → ℕ
count id [] = 0
count id (r ∷ rs) = let rest = count id rs in if str_eq r.request_id id then suc rest else rest

abbrev pub is_active : Option String → ℕ
is_active none = 0
is_active (some _) = 1

-- Responses sent and questions open, for one request.
abbrev pub account : String → Bridge → ℕ
account id b = count id b.responses + is_active (lookup id b.active_questions)

count-append_one :
    (id : String) (rs : List UserResponse) (r : UserResponse)
    → count id (rs ++ r ∷ []) ≡ (if str_eq r.request_id id then suc (count id rs) else count id rs)
unfolding count
count-append_one id [] r = ground arith
count-append_one id (s ∷ rs) r = ground (arith, count-append_one id rs r)

pub ask_client-account :
    (env : Env) (q : UserQuestion) (client : String) (r : ℕ) (b b' : Bridge)
    → ask_client env q client r b ≡ done b'
    → (b'.responses ≡ b.responses)
      × (b'.active_questions ≡ insert q.request_id client b.active_questions)
unfolding ask_client
ask_client-account env q client r b b' h = ground arith

-- The responses are kept, and the open questions but for those of `q`.
abbrev pub Kept : UserQuestion → Bridge → Bridge → Type 0
Kept q b b' =
    (b'.responses ≡ b.responses)
    × ((id : String)
        → q.request_id ≢ id
        → lookup id b'.active_questions ≡ lookup id b.active_questions)

ask_client-Kept :
    (env : Env) (q : UserQuestion) (client : String) (r : ℕ) (b b1 b' : Bridge)
    → ask_client env q client r b ≡ done b1
    → Kept q b1 b'
    → Kept q b b'
ask_client-Kept env q client r b b1 b' e (same', act') =
    let (same, act) = ask_client-account env q client r b b1 e in
    (
      same' ∙ same,
      λ id ne.
          act' id ne
          ∙ ap (lookup id) act
          ∙ ground (
            arith,
            lookup-insert q.request_id id client b.active_questions,
            eq_iff q.request_id id,
          ),
    )

pub ask_clients-Kept :
    (env : Env) (q : UserQuestion) (cs : Dict ℕ) (b b' : Bridge)
    → ask_clients env q cs b ≡ done b'
    → Kept q b b'
unfolding ask_clients
ask_clients-Kept env q [] b b' h = let e : b ≡ b' = ground arith in (rw e, λ id ne. rw e)
ask_clients-Kept env q ((client, r) ∷ cs) b b' h =
    go (ask_client env q client r b) refl (λ b1. ask_clients-Kept env q cs b1 b')
  where
    go :
        (d : Done Bridge)
        → ask_client env q client r b ≡ d
        → ((b1 : Bridge) → ask_clients env q cs b1 ≡ done b' → Kept q b1 b')
        → Kept q b b'
    go panic e rest =
        cc (let z : ask_clients env q ((client, r) ∷ cs) b ≡ panic = rw (e, ask_clients) in z)
    go (done b1) e rest = ask_client-Kept env q client r b b1 b' e (
        rest b1 (
          let z : ask_clients env q ((client, r) ∷ cs) b ≡ ask_clients env q cs b1 =
            rw (e, ask_clients) in
          sym z ∙ h))

is_active-le : (o : Option String) → is_active o ≤ 1
is_active-le none = omega arith
is_active-le (some c) = omega arith

abbrev pub asks : String → UserQuestion → ℕ
asks id q = if str_eq q.request_id id then 1 else 0

pub on_question-account :
    (env : Env) (q : UserQuestion) (b b' : Bridge) (id : String)
    → on_question env q b ≡ done b'
    → account id b' ≤ account id b + asks id q
unfolding on_question
on_question-account env q b b' id h = go b.clients h
  where
    go :
        (cs : Dict ℕ)
        → on_question_with env q cs b ≡ done b'
        → account id b' ≤ account id b + asks id q
    go [] e = ground (arith, count-append_one id b.responses (no_clients_response q))
    go (c ∷ cs) e =
        let (same, act) = ask_clients-Kept env q (c ∷ cs) b b' e in
        ground (
          arith,
          ap (count id) same,
          act id,
          is_active-le (lookup id b'.active_questions),
          eq_iff q.request_id id,
        )

pub on_connect-account :
    (env : Env) (msg : Message) (b b' : Bridge)
    → on_connect env msg b ≡ done b'
    → (b'.responses ≡ b.responses) × (b'.active_questions ≡ b.active_questions)
unfolding on_connect
on_connect-account env msg b b' h = ground arith

answered-account :
    (response : String × String) (b : Bridge) (id : String)
    → account id (answered response b) ≤ account id b
unfolding answered
answered-account (rid, a) b id = ground (
  arith,
  count-append_one id b.responses (record { request_id = rid; answer = a }),
  lookup-delete rid id b.active_questions,
  eq_iff rid id,
)

on_user_response-account :
    (env : Env) (msg : Message) (b : Bridge) (id : String)
    → account id (on_user_response env msg b) ≤ account id b
unfolding on_user_response
on_user_response-account env msg b id = elim (Option-cases (env.decode_response msg.payload)) [
  | inl e ↦ rw (e, on_user_response) (omega arith)
  | inr (response, e) ↦ rw (e, on_user_response) (answered-account response b id)
]

pub on_message-account :
    (env : Env) (msg : Message) (b b' : Bridge) (id : String)
    → on_message env msg b ≡ done b'
    → account id b' ≤ account id b
unfolding on_message
on_message-account env msg b b' id h =
    let noted = note_sender msg b in
    let (same, kept, heap) = note_sender-keeps msg b in
    ground (
      arith,
      ap (count id) kept,
      ap (lookup id) same,
      on_user_response-account env msg noted id,
      on_connect-account env msg noted b',
    )
