-- ===== src/Hub/Broadcast.antt =====
-- Messages to all clients or to one, in `run` of internal/wsserver/server.go.
use frontend_router_mcp.Base.{
  ℕ, ◌≡◌, ◌≢◌, refl, sym, ◌∙◌, arith, String, true, false, [], ◌∷◌, ◌++◌, none, some, lookup,
  delete, get_elem?, set, eq_iff, lookup-delete, lookup-nil, lookup-cons, if◌then◌else◌, str_eq,
  ◌⊎◌, inl, inr, Option-cases, Bool-cases, get_elem?-set_self, get_elem?-set_ne, Dict, subst,
}
use frontend_router_mcp.Channel.{done, try_send, close}
use frontend_router_mcp.Messaging.{Message}
use frontend_router_mcp.Hub.{Client, Server, offer, broadcast_all, broadcast}
use frontend_router_mcp.Hub.Ready.{Absent, Ready, has_room, apart, Ready-set, lookup-Absent}
use frontend_router_mcp.Hub.Membership.{IsLinked}

-- A client after an offer: the message at the end of its queue, or its channel closed.
abbrev pub offered_client : Client → Message → Client
offered_client c msg =
    let ch = c.send in
    record c {
      send =
          if has_room c
          then record ch { buffer = ch.buffer ++ msg ∷ [] }
          else record ch { is_open = false };
    }

-- The hub after an offer to the client `c` at `r`.
abbrev pub offered_server : Server → ℕ → Client → Message → Server
offered_server s r c msg = record s {
  clients = if has_room c then s.clients else delete c.id s.clients;
  heap = set s.heap r (offered_client c msg);
}

pub offer_lem :
    (s : Server) (r : ℕ) (c : Client) (msg : Message)
    → get_elem? s.heap r ≡ some c
    → c.send.is_open ≡ true
    → offer s r msg ≡ done (offered_server s r c msg)
unfolding offer try_send close
offer_lem s r c msg at o = ground arith

-- What the hub `t` makes of the client `c`, found under `k` at `r` in the hub `s`.
abbrev pub Delivered : Server → Server → String → ℕ → Client → Message → Type 0
Delivered s t k r c msg =
    (get_elem? t.heap r ≡ some (offered_client c msg))
    × (lookup k t.clients ≡ (if has_room c then lookup k s.clients else none))

abbrev Untouched : Server → Server → String → ℕ → Client → Type 0
Untouched s t k r c = (get_elem? t.heap r ≡ some c) × (lookup k t.clients ≡ lookup k s.clients)

-- The loop runs to its end, serves every entry once, and leaves all other clients alone.
abbrev Served : Dict ℕ → Server → Message → Server → Type 0
Served es s msg t =
    (k : String) (r : ℕ) (c : Client)
    → get_elem? s.heap r ≡ some c
    → c.id ≡ k
    → (lookup k es ≡ some r → Delivered s t k r c msg) × (lookup k es ≡ none → Untouched s t k r c)

Served-head :
    (s t : Server) (k : String) (r : ℕ) (c : Client) (msg : Message) (rest : Dict ℕ)
    → get_elem? s.heap r ≡ some c
    → c.id ≡ k
    → Absent k rest
    → Served rest (offered_server s r c msg) msg t
    → Delivered s t k r c msg
Served-head s t k r c msg rest at i a served =
    let (kept, found) =
      (served k r (offered_client c msg) (get_elem?-set_self s.heap r (offered_client c msg) at)
          i).1
        (lookup-Absent k rest a) in
    (kept, ground (arith, found, lookup-delete c.id k s.clients, eq_iff c.id k))

Served-tail :
    (s t : Server) (k j : String) (r q : ℕ) (c d : Client) (msg : Message) (rest : Dict ℕ)
    → get_elem? s.heap r ≡ some c
    → c.id ≡ k
    → k ≢ j
    → get_elem? s.heap q ≡ some d
    → d.id ≡ j
    → Served rest (offered_server s r c msg) msg t
    → (lookup j rest ≡ some q → Delivered s t j q d msg)
      × (lookup j rest ≡ none → Untouched s t j q d)
Served-tail s t k j r q c d msg rest at i ne at' i' served =
    let still =
      get_elem?-set_ne s.heap r q (offered_client c msg) (apart s.heap k j r q c d at i ne at' i')
      ∙ at' in
    let (hit, miss) = served j q d still i' in
    (
      λ h. ((hit h).0, ground (arith, (hit h).1, lookup-delete c.id j s.clients, eq_iff c.id j)),
      λ h. ((miss h).0, ground (arith, (miss h).1, lookup-delete c.id j s.clients, eq_iff c.id j)),
    )

Delivered-same :
    (s t : Server) (k j : String) (r q : ℕ) (c d : Client) (msg : Message)
    → get_elem? s.heap r ≡ some c
    → get_elem? s.heap q ≡ some d
    → k ≡ j
    → r ≡ q
    → Delivered s t k r c msg
    → Delivered s t j q d msg
Delivered-same s t k j r q c d msg at at' e p h =
    let same : get_elem? s.heap q ≡ some c = subst (λ x. get_elem? s.heap x ≡ some c) p at in
    let cd : c ≡ d = cc in
    subst (λ x. Delivered s t x q d msg) e
      (subst (λ x. Delivered s t k x d msg) p (subst (λ x. Delivered s t k r x msg) cd h))

Served-cons :
    (s t : Server) (k : String) (r : ℕ) (c : Client) (msg : Message) (rest : Dict ℕ)
    → get_elem? s.heap r ≡ some c
    → c.id ≡ k
    → Absent k rest
    → Served rest (offered_server s r c msg) msg t
    → Served ((k, r) ∷ rest) s msg t
Served-cons s t k r c msg rest at i a served j q d at' i' = elim (Bool-cases (str_eq k j)) [
  | inl same ↦
      let e : k ≡ j = (eq_iff k j).0 same in
      let here = Served-head s t k r c msg rest at i a served in
      (
        λ h.
            Delivered-same s t k j r q c d msg at at' e (ground (arith, lookup-cons k j r rest))
              here,
        λ h. cc (let z : lookup j ((k, r) ∷ rest) ≡ some r = rw (lookup-cons, same) in z),
      )
  | inr differ ↦
      let ne : k ≢ j = ground (arith, eq_iff k j) in
      let (hit, miss) = Served-tail s t k j r q c d msg rest at i ne at' i' served in
      let skip : lookup j ((k, r) ∷ rest) ≡ lookup j rest = rw (lookup-cons, differ) in
      (λ h. hit (sym skip ∙ h), λ h. miss (sym skip ∙ h))
]

broadcast_all-Served :
    (es : Dict ℕ) (s : Server) (msg : Message)
    → Ready s.heap es
    → (t : Server) × (broadcast_all es s msg ≡ done t) × Served es s msg t
unfolding broadcast_all
broadcast_all-Served [] s msg v =
    (s, refl, λ k r c at i. ((λ h. cc (lookup-nil k)), λ h. (at, refl)))
broadcast_all-Served ((k, r) ∷ rest) s msg ((c, at, i, o), a, v) =
    let s1 = offered_server s r c msg in
    let (t, run, served) =
      broadcast_all-Served rest s1 msg
        (Ready-set s.heap k r c (offered_client c msg) rest at i a v) in
    (
      t,
      rw (offer_lem s r c msg at o, broadcast_all) run,
      Served-cons s t k r c msg rest at i a served,
    )

-- A message to all never panics on a hub whose map has distinct keys and live clients, and serves
-- every client of the map exactly once: with room in its queue it gets the message at the end of
-- the queue and stays registered; with a full queue it gets nothing, its channel is closed and it
-- is dropped.
pub broadcast-Delivered :
    (s : Server) (msg : Message)
    → Ready s.heap s.clients
    → msg.client_id ≡ ""
    → (t : Server) × (broadcast s msg ≡ done t)
      × ((k : String) (r : ℕ) (c : Client)
          → lookup k s.clients ≡ some r
          → get_elem? s.heap r ≡ some c
          → c.id ≡ k
          → Delivered s t k r c msg)
unfolding broadcast
broadcast-Delivered s msg v e =
    let (t, run, served) = broadcast_all-Served s.clients s msg v in
    let all : str_eq msg.client_id "" ≡ true = ground (arith, eq_iff msg.client_id "") in
    (t, rw (all, broadcast) run, λ k r c h at i. (served k r c at i).0 h)

-- On a linked hub a message for one client reaches that client alone: it is served as in a
-- broadcast, every client at another place of the heap is as before, and every other id is found
-- where it was. For an unknown id nothing happens.
pub broadcast_one :
    (s : Server) (msg : Message)
    → IsLinked s
    → msg.client_id ≢ ""
    → ((lookup msg.client_id s.clients ≡ none) × (broadcast s msg ≡ done s))
      ⊎ ((t : Server) × (r : ℕ) × (c : Client) × (broadcast s msg ≡ done t)
          × Delivered s t msg.client_id r c msg
          × ((q : ℕ) → r ≢ q → get_elem? t.heap q ≡ get_elem? s.heap q)
          × ((other : String)
              → msg.client_id ≢ other
              → lookup other t.clients ≡ lookup other s.clients))
unfolding broadcast
broadcast_one s msg v ne =
    let other_branch : str_eq msg.client_id "" ≡ false = ground (arith, eq_iff msg.client_id "") in
    elim (Option-cases (lookup msg.client_id s.clients)) [
      | inl e ↦ inl (e, rw (other_branch, broadcast) (rw (e, broadcast)))
      | inr (r, e) ↦
          let (c, at, i, o) = v msg.client_id r e in
          inr (
            offered_server s r c msg,
            r,
            c,
            rw (other_branch, broadcast) (rw (e, broadcast) (offer_lem s r c msg at o)),
            (
              get_elem?-set_self s.heap r (offered_client c msg) at,
              ground (arith, lookup-delete c.id msg.client_id s.clients, eq_iff c.id msg.client_id),
            ),
            λ q nq. get_elem?-set_ne s.heap r q (offered_client c msg) nq,
            λ other no. ground (arith, lookup-delete c.id other s.clients, eq_iff c.id other),
          )
    ]
