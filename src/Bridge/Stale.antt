-- ===== src/Bridge/Stale.antt =====
-- Clients that the hub has dropped while the bridge of cmd/server/main_monitoring.go knows them.
use frontend_router_mcp.Base.{
  ℕ, ◌≡◌, ◌≢◌, refl, ◌∙◌, arith, String, false, List, [], ◌∷◌, ◌++◌, some, Dict, lookup, get_elem?,
  lookup-nil, lookup-cons, Option-cases, inl, inr, get_elem?-set_ne, ℕ_discrete,
}
use frontend_router_mcp.Channel.{Done, done, panic, try_send}
use frontend_router_mcp.Messaging.{Message, bytes}
use frontend_router_mcp.Hub.{Client, Server, send_response, unregister_client}
use frontend_router_mcp.Hub.Membership.{IsLinked, unregister-IsLinked}
use frontend_router_mcp.Bridge.{
  Env, Bridge, UserQuestion, on_question, ask_clients, ask_client, on_question_with, after_send,
  question_message,
}

send_response-closed :
    (heap : List Client) (r : ℕ) (c : Client) (msg : Message)
    → get_elem? heap r ≡ some c
    → c.send.is_open ≡ false
    → send_response heap r msg ≡ panic
unfolding send_response try_send
send_response-closed heap r c msg at o = ground arith

send_response-other :
    (heap heap' : List Client) (r s : ℕ) (msg : Message)
    → r ≢ s
    → send_response heap r msg ≡ done heap'
    → get_elem? heap' s ≡ get_elem? heap s
unfolding send_response try_send
send_response-other heap heap' r s msg ne h = elim (Option-cases (get_elem? heap r)) [
  | inl e ↦ cc (let z : send_response heap r msg ≡ panic = rw (e, send_response) in z)
  | inr (d, e) ↦
      let ch = d.send in
      ground (
        arith,
        get_elem?-set_ne heap r s (record d { send = record ch { buffer = ch.buffer ++ msg ∷ [] } })
            ne,
      )
]

ask_client-stale :
    (env : Env) (q : UserQuestion) (k : String) (s : ℕ) (c : Client) (payload : String) (b : Bridge)
    → env.encode_question q.request_id q.question ≡ bytes payload
    → get_elem? b.heap s ≡ some c
    → c.send.is_open ≡ false
    → ask_client env q k s b ≡ panic
unfolding ask_client
ask_client-stale env q k s c payload b enc at o =
    rw (enc, ask_client)
      (rw (send_response-closed b.heap s c (question_message env k payload) at o, after_send))

ask_client-other :
    (env : Env) (q : UserQuestion) (k : String) (r s : ℕ) (payload : String) (b b' : Bridge)
    → env.encode_question q.request_id q.question ≡ bytes payload
    → r ≢ s
    → ask_client env q k r b ≡ done b'
    → get_elem? b'.heap s ≡ get_elem? b.heap s
unfolding ask_client
ask_client-other env q k r s payload b b' enc ne h =
    go (send_response b.heap r (question_message env k payload)) refl
  where
    go :
        (d : Done (List Client))
        → send_response b.heap r (question_message env k payload) ≡ d
        → get_elem? b'.heap s ≡ get_elem? b.heap s
    go panic e = cc (let z : ask_client env q k r b ≡ panic = ground arith in z)
    go (done heap') e =
        let z : heap' ≡ b'.heap = ground arith in
        rw (← z) (send_response-other b.heap heap' r s (question_message env k payload) ne e)

ask_clients-stale :
    (env : Env) (q : UserQuestion) (payload : String) (s : ℕ) (c : Client) (k : String)
    (es : Dict ℕ) (b : Bridge)
    → env.encode_question q.request_id q.question ≡ bytes payload
    → lookup k es ≡ some s
    → get_elem? b.heap s ≡ some c
    → c.send.is_open ≡ false
    → ask_clients env q es b ≡ panic
unfolding ask_clients
ask_clients-stale env q payload s c k [] b enc h at o = cc (lookup-nil {V = ℕ} k)
ask_clients-stale env q payload s c k ((j, r) ∷ es) b enc h at o = elim (ℕ_discrete r s) [
  | yes e ↦
      let at' : get_elem? b.heap r ≡ some c = rw e at in
      rw (ask_client-stale env q j r c payload b enc at' o, ask_clients)
  | no ne ↦
      let later : lookup k es ≡ some s = ground (arith, lookup-cons j k r es) in
      go ne (ask_client env q j r b) refl
        (λ b1. ask_clients-stale env q payload s c k es b1 enc later)
]
  where
    go :
        r ≢ s
        → (d : Done Bridge) → ask_client env q j r b ≡ d
        → ((b1 : Bridge)
            → get_elem? b1.heap s ≡ some c
            → c.send.is_open ≡ false
            → ask_clients env q es b1 ≡ panic)
        → ask_clients env q ((j, r) ∷ es) b ≡ panic
    go ne panic e rest = rw (e, ask_clients)
    go ne (done b1) e rest =
        rw (e, ask_clients) (rest b1 (ask_client-other env q j r s payload b b1 enc ne e ∙ at) o)

-- If a linked hub unregisters a client while the bridge, which shares its heap, still has that
-- client, then any question that can be encoded makes the bridge's goroutine panic: it sends on the
-- channel that the hub has closed.
pub stale_client_panics :
    (env : Env) (q : UserQuestion) (payload : String) (s s' : Server) (k j : String) (r : ℕ)
    (b : Bridge)
    → IsLinked s
    → lookup k s.clients ≡ some r
    → unregister_client s r ≡ done s'
    → b.heap ≡ s'.heap
    → lookup j b.clients ≡ some r
    → env.encode_question q.request_id q.question ≡ bytes payload
    → on_question env q b ≡ panic
unfolding on_question
stale_client_panics env q payload s s' k j r b v h gone same known enc =
    let (u, c, run, _, _, at, o, _, _) = unregister-IsLinked s k r v h in
    let us : u ≡ s' = cc in
    let closed : get_elem? b.heap r ≡ some c = rw (same, ← us) at in
    nonempty b.clients known ∙ ask_clients-stale env q payload r c j b.clients b enc known closed o
  where
    nonempty :
        (cs : Dict ℕ) → lookup j cs ≡ some r → on_question_with env q cs b ≡ ask_clients env q cs b
    nonempty [] e = cc (lookup-nil {V = ℕ} j)
    nonempty (c ∷ cs) e = refl
