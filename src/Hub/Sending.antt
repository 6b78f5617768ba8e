-- ===== src/Hub/Sending.antt =====
-- Messages to the clients of internal/wsserver/server.go, and the invariant of the hub.
use frontend_router_mcp.Base.{
  ℕ, ◌≡◌, refl, sym, ap, subst, ◌∙◌, arith, String, true, List, [], ◌∷◌, none, some, Dict, lookup,
  IsKeyed, lookup-cons, get_elem?, set, str_eq, eq_iff, eq_refl, Bool-cases, Option-cases, inl, inr,
  get_elem?-set_self, get_elem?-set_ne, ℕ_discrete,
}
use frontend_router_mcp.Channel.{done}
use frontend_router_mcp.Messaging.{Message}
use frontend_router_mcp.Hub.{Client, Server, broadcast_all, broadcast}
use frontend_router_mcp.Hub.Ready.{Live, Absent, Ready, has_room, Ready-set}
use frontend_router_mcp.Hub.Membership.{IsLinked, dropped}
use frontend_router_mcp.Hub.Broadcast.{offered_client, offered_server, offer_lem}
use frontend_router_mcp.Hub.Soundness.{IsSound, AreApart-set, dropped-IsSound}

Absent-lookup : (k : String) (m : Dict ℕ) → lookup k m ≡ none → Absent k m
unfolding lookup
Absent-lookup k [] h = tt
Absent-lookup k ((j, r) ∷ rest) h =
    ((λ e. ground (arith, eq_iff j k)), Absent-lookup k rest (ground (arith, eq_iff j k)))

-- A linked map with distinct keys is one that the hub can serve.
Ready-linked :
    (heap : List Client) (m : Dict ℕ)
    → IsKeyed m
    → ((k : String) (r : ℕ) → lookup k m ≡ some r → Live heap k r)
    → Ready heap m
Ready-linked heap [] u v = tt
Ready-linked heap ((k, r) ∷ rest) (absent, u) v = (
  v k r (ground (arith, lookup-cons k k r rest, eq_refl k)),
  Absent-lookup k rest absent,
  Ready-linked heap rest u (λ j q h. v j q (ground (arith, lookup-cons k j r rest, eq_iff k j))),
)

pub IsSound-Ready : (s : Server) → IsSound s → Ready s.heap s.clients
IsSound-Ready s v = Ready-linked s.heap s.clients v.keyed v.linked

set-Live :
    (s : Server) (r : ℕ) (c d : Client)
    → get_elem? s.heap r ≡ some c
    → d.id ≡ c.id
    → d.send.is_open ≡ c.send.is_open
    → IsLinked s
    → (j : String) (q : ℕ) → lookup j s.clients ≡ some q
    → Live (set s.heap r d) j q
set-Live s r c d at id open_ v j q h =
    let (e, at', i, o) = v j q h in
    elim (ℕ_discrete r q) [
      | yes p ↦
          let same : c ≡ e = ground (arith, subst (λ x. get_elem? s.heap x ≡ some e) (sym p) at') in
          (
            d,
            subst (λ x. get_elem? (set s.heap r d) x ≡ some d) p (get_elem?-set_self s.heap r d at),
            id ∙ ap (λ x. x.id) same ∙ i,
            open_ ∙ ap (λ x. x.send.is_open) same ∙ o,
          )
      | no ne ↦ (e, get_elem?-set_ne s.heap r q d ne ∙ at', i, o)
    ]

-- A client that only its queue tells from the one before.
pub set-IsSound :
    (s : Server) (r : ℕ) (c d : Client)
    → get_elem? s.heap r ≡ some c
    → d.id ≡ c.id
    → d.send.is_open ≡ c.send.is_open
    → IsSound s
    → IsSound (record s { heap = set s.heap r d })
set-IsSound s r c d at id open_ v = record {
  linked = set-Live s r c d at id open_ v.linked;
  keyed = v.keyed;
  apart_ids = AreApart-set s.heap r c d at id v.apart_ids;
}

offered-IsSound :
    (s : Server) (r : ℕ) (c : Client) (msg : Message)
    → get_elem? s.heap r ≡ some c
    → c.send.is_open ≡ true
    → IsSound s
    → IsSound (offered_server s r c msg)
offered-IsSound s r c msg at o v = elim (Bool-cases (has_room c)) [
  | inl room ↦
      let kept = set-IsSound s r c (offered_client c msg) at refl (rw room refl) v in
      let e : offered_server s r c msg ≡ record s { heap = set s.heap r (offered_client c msg) } =
        rw room refl in
      subst IsSound (sym e) kept
  | inr none_left ↦
      let e : offered_server s r c msg ≡ dropped s r c = rw none_left refl in
      subst IsSound (sym e) (dropped-IsSound s r c at v)
]

broadcast_all-IsSound :
    (es : Dict ℕ) (s : Server) (msg : Message)
    → Ready s.heap es
    → IsSound s
    → (t : Server) × (broadcast_all es s msg ≡ done t) × IsSound t
unfolding broadcast_all
broadcast_all-IsSound [] s msg y v = (s, refl, v)
broadcast_all-IsSound ((k, r) ∷ rest) s msg ((c, at, i, o), a, y) v =
    let s1 = offered_server s r c msg in
    let (t, run, v') =
      broadcast_all-IsSound rest s1 msg
        (Ready-set s.heap k r c (offered_client c msg) rest at i a y)
        (offered-IsSound s r c msg at o v) in
    (t, rw (offer_lem s r c msg at o, broadcast_all) run, v')

pub broadcast-IsSound :
    (s : Server) (msg : Message) → IsSound s → (t : Server) × (broadcast s msg ≡ done t) × IsSound t
unfolding broadcast
broadcast-IsSound s msg v = elim (Bool-cases (str_eq msg.client_id "")) [
  | inl all ↦
      let (t, run, v') = broadcast_all-IsSound s.clients s msg (IsSound-Ready s v) v in
      (t, rw (all, broadcast) run, v')
  | inr one ↦ elim (Option-cases (lookup msg.client_id s.clients)) [
    | inl e ↦ (s, rw (one, broadcast) (rw (e, broadcast)), v)
    | inr (r, e) ↦
        let (c, at, i, o) = v.linked msg.client_id r e in
        (
          offered_server s r c msg,
          rw (one, broadcast) (rw (e, broadcast) (offer_lem s r c msg at o)),
          offered-IsSound s r c msg at o v,
        )
  ]
]
