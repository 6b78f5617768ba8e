-- ===== src/Hub/Soundness.antt =====
-- The invariant of the hub of internal/wsserver/server.go.
use frontend_router_mcp.Base.{
  ℕ, ◌≡◌, ◌≢◌, refl, sym, ap, subst, ◌∙◌, arith, String, List, [], ◌∷◌, ◌++◌, some, lookup, IsKeyed,
  IsKeyed-insert, IsKeyed-delete, length, get_elem?, set, Option-cases, inl, inr,
  get_elem?-set_self, get_elem?-set_ne, get_elem?-append_cases, ℕ_discrete,
}
use frontend_router_mcp.Channel.{Chan, done}
use frontend_router_mcp.Messaging.{Message}
use frontend_router_mcp.Hub.{Client, Server, new_server, unregister_client}
use frontend_router_mcp.Hub.Membership.{
  IsLinked, attached, attached-IsLinked, dropped, dropped-IsLinked, unregister_known,
  unregister_unknown,
}

-- No two clients that were ever made have one id.
abbrev pub AreApart : List Client → Type 0
AreApart heap =
    (r q : ℕ) (c d : Client)
    → get_elem? heap r ≡ some c
    → get_elem? heap q ≡ some d
    → c.id ≡ d.id
    → r ≡ q

pub record IsSound (s : Server) : Type 0 where
  pub linked : IsLinked s
  pub keyed : IsKeyed s.clients
  pub apart_ids : AreApart s.heap

abbrev pub IsFresh : Server → String → Type 0
IsFresh s id = (r : ℕ) (c : Client) → get_elem? s.heap r ≡ some c → c.id ≢ id

-- An element after a write: its place held one with the same id before.
before_set :
    (heap : List Client) (p r : ℕ) (c d e : Client)
    → get_elem? heap p ≡ some c
    → d.id ≡ c.id
    → get_elem? (set heap p d) r ≡ some e
    → (e' : Client) × (get_elem? heap r ≡ some e') × (e.id ≡ e'.id)
before_set heap p r c d e at same h = elim (ℕ_discrete p r) [
  | yes q ↦
      let now : get_elem? (set heap p d) p ≡ some e =
        subst (λ x. get_elem? (set heap p d) x ≡ some e) (sym q) h in
      let here : d ≡ e = ground (arith, get_elem?-set_self heap p d at) in
      (c, subst (λ x. get_elem? heap x ≡ some c) q at, (ap (λ x. x.id) (sym here) ∙ same))
  | no ne ↦ (e, sym (get_elem?-set_ne heap p r d ne) ∙ h, refl)
]

pub AreApart-set :
    (heap : List Client) (p : ℕ) (c d : Client)
    → get_elem? heap p ≡ some c
    → d.id ≡ c.id
    → AreApart heap
    → AreApart (set heap p d)
AreApart-set heap p c d at same v r q e f hr hq i =
    let (e', hr', ie) = before_set heap p r c d e at same hr in
    let (f', hq', jf) = before_set heap p q c d f at same hq in
    v r q e' f' hr' hq' (sym ie ∙ i ∙ jf)

AreApart-append :
    (s : Server) (c : Client) → IsFresh s c.id → AreApart s.heap → AreApart (s.heap ++ c ∷ [])
AreApart-append s c fresh v r q e f hr hq i = elim (get_elem?-append_cases s.heap c r hr) [
  | inl (er, pr) ↦ elim (get_elem?-append_cases s.heap c q hq) [
    | inl (eq, pq) ↦ er ∙ sym eq
    | inr old ↦ absurd (fresh q f old (sym i ∙ ap (λ x. x.id) pr))
  ]
  | inr old ↦ elim (get_elem?-append_cases s.heap c q hq) [
    | inl (eq, pq) ↦ absurd (fresh r e old (i ∙ ap (λ x. x.id) pq))
    | inr old' ↦ v r q e f old old' i
  ]
]

pub new_server-IsSound : (ch : Chan Message) → IsSound (new_server ch)
unfolding new_server lookup
new_server-IsSound ch = record {
  linked = λ k r h. absurd (cc);
  keyed = tt;
  apart_ids = λ r q c d h g i. absurd (cc);
}

pub attached-IsSound :
    (s : Server) (id : String) → IsFresh s id → IsSound s → IsSound (attached s id)
unfolding attached
attached-IsSound s id fresh v = record {
  linked = attached-IsLinked s id v.linked;
  keyed = IsKeyed-insert id (length s.heap) s.clients v.keyed;
  apart_ids = AreApart-append s _ fresh v.apart_ids;
}

pub dropped-IsSound :
    (s : Server) (r : ℕ) (c : Client)
    → get_elem? s.heap r ≡ some c
    → IsSound s
    → IsSound (dropped s r c)
dropped-IsSound s r c at v = record {
  linked = dropped-IsLinked s c.id r c v.linked at refl;
  keyed = IsKeyed-delete c.id s.clients v.keyed;
  apart_ids = AreApart-set s.heap r c _ at refl v.apart_ids;
}

-- A registered client is unregistered and any other left alone, without a panic.
pub unregister-IsSound :
    (s : Server) (r : ℕ) (c : Client)
    → get_elem? s.heap r ≡ some c
    → IsSound s
    → (t : Server) × (unregister_client s r ≡ done t) × IsSound t
unregister-IsSound s r c at v = elim (Option-cases (lookup c.id s.clients)) [
  | inl e ↦ (s, unregister_unknown s r c at e, v)
  | inr (q, e) ↦
      let (d, at', i, o) = v.linked c.id q e in
      let place : r ≡ q = v.apart_ids r q c d at at' (sym i) in
      let same : c ≡ d = ground (arith, subst (λ x. get_elem? s.heap x ≡ some d) (sym place) at') in
      (
        dropped s r c,
        unregister_known s r q c at (ap (λ x. x.send.is_open) same ∙ o) e,
        dropped-IsSound s r c at v,
      )
]
