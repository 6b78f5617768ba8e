-- ===== src/Bridge/Questions.antt =====
-- The questions of the bridge in cmd/server/main_monitoring.go.
use frontend_router_mcp.Base.{
  ℕ, ◌≡◌, ◌≢◌, refl, sym, ◌∙◌, subst, arith, String, true, if◌then◌else◌, List, [], ◌∷◌, ◌++◌, none,
  some, Dict, lookup, insert, get_elem?, set, str_eq, eq_iff, lookup-nil, lookup-cons, Bool-cases,
  inl, inr, get_elem?-set_self, get_elem?-set_ne,
}
use frontend_router_mcp.Channel.{done, try_send}
use frontend_router_mcp.Messaging.{Message, bytes}
use frontend_router_mcp.Hub.{Client, send_response}
use frontend_router_mcp.Hub.Ready.{Absent, Ready, has_room, apart, Ready-set, lookup-Absent}
use frontend_router_mcp.Bridge.{
  Env, Bridge, UserQuestion, on_question, ask_clients, ask_client, no_clients_response,
  question_message, on_question_with, after_send,
}

-- With no client connected the question is answered at once with the error text, as the last of the
-- responses; nothing is sent, and no question is opened.
pub on_question_alone :
    (env : Env) (q : UserQuestion) (b : Bridge)
    → b.clients ≡ []
    → on_question env q b
      ≡ done (record b { responses = b.responses ++ no_clients_response q ∷ [] })
unfolding on_question
on_question_alone env q b e = rw (e, on_question)

-- A client after `SendResponse`: the message at the end of its queue, or dropped if that is full.
abbrev pub told : Client → Message → Client
told c msg =
    let ch = c.send in
    if has_room c then record c { send = record ch { buffer = ch.buffer ++ msg ∷ [] } } else c

abbrev told_heap : List Client → ℕ → Client → Message → List Client
told_heap heap r c msg = if has_room c then set heap r (told c msg) else heap

send_response_lem :
    (heap : List Client) (r : ℕ) (c : Client) (msg : Message)
    → get_elem? heap r ≡ some c
    → c.send.is_open ≡ true
    → send_response heap r msg ≡ done (told_heap heap r c msg)
unfolding send_response try_send
send_response_lem heap r c msg at o = ground arith

told_heap_self :
    (heap : List Client) (r : ℕ) (c : Client) (msg : Message)
    → get_elem? heap r ≡ some c
    → get_elem? (told_heap heap r c msg) r ≡ some (told c msg)
told_heap_self heap r c msg at = elim (Bool-cases (has_room c)) [
  | inl room ↦ rw room (get_elem?-set_self heap r _ at)
  | inr none_left ↦ rw none_left at
]

told_heap_ne :
    (heap : List Client) (r q : ℕ) (c : Client) (msg : Message)
    → r ≢ q
    → get_elem? (told_heap heap r c msg) q ≡ get_elem? heap q
told_heap_ne heap r q c msg ne = elim (Bool-cases (has_room c)) [
  | inl room ↦ rw room (get_elem?-set_ne heap r q _ ne)
  | inr none_left ↦ rw none_left refl
]

told_heap-Ready :
    (heap : List Client) (k : String) (r : ℕ) (c : Client) (msg : Message) (es : Dict ℕ)
    → get_elem? heap r ≡ some c
    → c.id ≡ k
    → Absent k es
    → Ready heap es
    → Ready (told_heap heap r c msg) es
told_heap-Ready heap k r c msg es at i a v = elim (Bool-cases (has_room c)) [
  | inl room ↦ rw room (Ready-set heap k r c _ es at i a v)
  | inr none_left ↦ rw none_left v
]

-- The bridge after one client has been asked.
abbrev asked : Env → UserQuestion → String → ℕ → Client → String → Bridge → Bridge
asked env q k r c payload b = record b {
  active_questions = insert q.request_id k b.active_questions;
  heap = told_heap b.heap r c (question_message env k payload);
}

ask_client_lem :
    (env : Env) (q : UserQuestion) (k : String) (r : ℕ) (c : Client) (payload : String) (b : Bridge)
    → env.encode_question q.request_id q.question ≡ bytes payload
    → get_elem? b.heap r ≡ some c
    → c.send.is_open ≡ true
    → ask_client env q k r b ≡ done (asked env q k r c payload b)
unfolding ask_client
ask_client_lem env q k r c payload b enc at o =
    rw (enc, ask_client)
      (rw (send_response_lem b.heap r c (question_message env k payload) at o, after_send))

-- Every client of `es` was told the question, and all the others are as they were.
abbrev Told : Env → Dict ℕ → String → Bridge → Bridge → Type 0
Told env es payload b t =
    (k : String) (r : ℕ) (c : Client)
    → get_elem? b.heap r ≡ some c
    → c.id ≡ k
    → (lookup k es ≡ some r → get_elem? t.heap r ≡ some (told c (question_message env k payload)))
      × (lookup k es ≡ none → get_elem? t.heap r ≡ some c)

id-told : (c : Client) (msg : Message) → (told c msg).id ≡ c.id
id-told c msg = ground arith

-- The client that was just asked, also under other names for its key and its place.
Told-head :
    (env : Env) (q : UserQuestion) (k j : String) (r s : ℕ) (c d : Client) (payload : String)
    (rest : Dict ℕ) (b t : Bridge)
    → get_elem? b.heap r ≡ some c
    → c.id ≡ k
    → Absent k rest
    → Told env rest payload (asked env q k r c payload b) t
    → k ≡ j
    → r ≡ s
    → get_elem? b.heap s ≡ some d
    → get_elem? t.heap s ≡ some (told d (question_message env j payload))
Told-head env q k j r s c d payload rest b t at i a rest_told e p at' =
    let msg = question_message env k payload in
    let found =
      (rest_told k r (told c msg) (told_heap_self b.heap r c msg at) (id-told c msg ∙ i)).1
        (lookup-Absent k rest a) in
    let same : get_elem? b.heap s ≡ some c = subst (λ x. get_elem? b.heap x ≡ some c) p at in
    let cd : c ≡ d = cc in
    subst (λ x. get_elem? t.heap s ≡ some (told x (question_message env j payload))) cd
      (subst (λ x. get_elem? t.heap s ≡ some (told c (question_message env x payload))) e
        (subst (λ x. get_elem? t.heap x ≡ some (told c msg)) p found))

Told-cons :
    (env : Env) (q : UserQuestion) (k : String) (r : ℕ) (c : Client) (payload : String)
    (rest : Dict ℕ) (b t : Bridge)
    → get_elem? b.heap r ≡ some c
    → c.id ≡ k
    → Absent k rest
    → Told env rest payload (asked env q k r c payload b) t
    → Told env ((k, r) ∷ rest) payload b t
Told-cons env q k r c payload rest b t at i a rest_told j s d at' i' =
    elim (Bool-cases (str_eq k j)) [
      | inl same ↦ (
        λ h.
            Told-head env q k j r s c d payload rest b t at i a rest_told ((eq_iff k j).0 same)
              (ground (arith, lookup-cons k j r rest)) at',
        λ h. cc (let z : lookup j ((k, r) ∷ rest) ≡ some r = rw (lookup-cons, same) in z),
      )
      | inr differ ↦
          let ne : k ≢ j = ground (arith, eq_iff k j) in
          let still =
            told_heap_ne b.heap r s c (question_message env k payload)
              (apart b.heap k j r s c d at i ne at' i')
            ∙ at' in
          let skip : lookup j ((k, r) ∷ rest) ≡ lookup j rest = rw (lookup-cons, differ) in
          let (hit, miss) = rest_told j s d still i' in
          (λ h. hit (sym skip ∙ h), λ h. miss (sym skip ∙ h))
    ]

ask_clients-Told :
    (env : Env) (q : UserQuestion) (payload : String) (es : Dict ℕ) (b : Bridge)
    → env.encode_question q.request_id q.question ≡ bytes payload
    → Ready b.heap es
    → (t : Bridge) × (ask_clients env q es b ≡ done t)
      × (t.responses ≡ b.responses)
      × (t.clients ≡ b.clients)
      × Told env es payload b t
unfolding ask_clients
ask_clients-Told env q payload [] b enc v =
    (b, refl, refl, refl, λ k r c at i. ((λ h. cc (lookup-nil {V = ℕ} k)), λ h. at))
ask_clients-Told env q payload ((k, r) ∷ rest) b enc ((c, at, i, o), a, v) =
    let b1 = asked env q k r c payload b in
    let (t, run, rs, cs, told_rest) =
      ask_clients-Told env q payload rest b1 enc
        (told_heap-Ready b.heap k r c (question_message env k payload) rest at i a v) in
    (
      t,
      rw (ask_client_lem env q k r c payload b enc at o, ask_clients) run,
      rs,
      cs,
      Told-cons env q k r c payload rest b t at i a told_rest,
    )

-- A question that can be encoded is put to every connected client exactly once, if their channels
-- are open and the keys of the map distinct: each gets the message at the end of its queue, or
-- nothing if the queue is full. The round does not panic and answers nothing.
pub on_question-told :
    (env : Env) (q : UserQuestion) (payload : String) (b : Bridge)
    → env.encode_question q.request_id q.question ≡ bytes payload
    → b.clients ≢ []
    → Ready b.heap b.clients
    → (t : Bridge) × (on_question env q b ≡ done t)
      × (t.responses ≡ b.responses)
      × (t.clients ≡ b.clients)
      × ((k : String) (r : ℕ) (c : Client)
          → lookup k b.clients ≡ some r
          → get_elem? b.heap r ≡ some c
          → c.id ≡ k
          → get_elem? t.heap r ≡ some (told c (question_message env k payload)))
unfolding on_question
on_question-told env q payload b enc some_client v =
    let (t, run, rs, cs, told_all) = ask_clients-Told env q payload b.clients b enc v in
    (t, nonempty b.clients some_client ∙ run, rs, cs, λ k r c h at i. (told_all k r c at i).0 h)
  where
    nonempty : (cs : Dict ℕ) → cs ≢ [] → on_question_with env q cs b ≡ ask_clients env q cs b
    nonempty [] ne = absurd (ne refl)
    nonempty (c ∷ cs) ne = refl
