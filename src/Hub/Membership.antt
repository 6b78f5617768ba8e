-- ===== src/Hub/Membership.antt =====
-- Registration and unregistration in `run` of internal/wsserver/server.go.
use frontend_router_mcp.Base.{
  ℕ, ◌≡◌, ◌≢◌, refl, ◌∙◌, arith, String, true, false, [], ◌∷◌, ◌++◌, none, some, lookup, insert,
  delete, length, get_elem?, set, eq_iff, eq_refl, lookup-insert, lookup-delete, inl, inr,
  get_elem?-append_new, get_elem?-append_old, get_elem?-set_self, get_elem?-set_ne,
  lookup-insert_cases, lookup-delete_cases, length-append,
}
use frontend_router_mcp.Channel.{Chan, Done, done, make_chan, close}
use frontend_router_mcp.Messaging.{Message}
use frontend_router_mcp.Hub.Ready.{Live}
use frontend_router_mcp.Hub.{
  Client, Server, new_server, new_client, register_client, unregister_client,
}

-- Every entry of the client map points at a client with that id and an open channel.
abbrev pub IsLinked : Server → Type 0
IsLinked s = (k : String) (r : ℕ) → lookup k s.clients ≡ some r → Live s.heap k r

new_server-IsLinked : (ch : Chan Message) → IsLinked (new_server ch)
unfolding new_server lookup
new_server-IsLinked ch k r h = absurd (cc)

-- A new connection, registered at once.
pub attach : Server → String → Done Server
attach s id = let (s', r) = new_client s id in register_client s' r

unfoldable pub attached : Server → String → Server
attached s id =
    let c : Client = record { id = id; send = make_chan 256 } in
    record s { clients = insert id (length s.heap) s.clients; heap = s.heap ++ c ∷ [] }

pub attach_lem : (s : Server) (id : String) → attach s id ≡ done (attached s id)
unfolding attach attached new_client register_client
attach_lem s id =
    let c : Client = record { id = id; send = make_chan 256 } in
    ground (arith, get_elem?-append_new s.heap c)

pub attached-IsLinked : (s : Server) (id : String) → IsLinked s → IsLinked (attached s id)
unfolding attached make_chan
attached-IsLinked s id v k r h =
    let c : Client = record { id = id; send = make_chan 256 } in
    elim (lookup-insert_cases id k (length s.heap) r s.clients h) [
      | inl (e, q) ↦ (c, rw q (get_elem?-append_new s.heap c), e, refl)
      | inr (_, old) ↦
          let (d, at, i, o) = v k r old in (d, get_elem?-append_old s.heap c r at, i, o)
    ]

-- Registering a new connection never panics. It keeps the map linked, the new client is found under
-- its id, and every client with another id is found where it was.
pub attach-IsLinked :
    (s : Server) (id : String)
    → IsLinked s
    → (s' : Server) × (attach s id ≡ done s')
      × IsLinked s'
      × (lookup id s'.clients ≡ some (length s.heap))
      × ((other : String) → id ≢ other → lookup other s'.clients ≡ lookup other s.clients)
attach-IsLinked s id v = (
  attached s id,
  attach_lem s id,
  attached-IsLinked s id v,
  unfold attached in ground (arith, lookup-insert id id (length s.heap) s.clients, eq_refl id),
  λ other ne.
      unfold attached in
      ground (arith, lookup-insert id other (length s.heap) s.clients, eq_iff id other),
)

abbrev pub dropped : Server → ℕ → Client → Server
dropped s r c =
    let ch = c.send in
    record s {
      clients = delete c.id s.clients;
      heap = set s.heap r (record c { send = record ch { is_open = false } });
    }

-- Unregistering a client that the map has under its id.
pub unregister_known :
    (s : Server) (r q : ℕ) (c : Client)
    → get_elem? s.heap r ≡ some c
    → c.send.is_open ≡ true
    → lookup c.id s.clients ≡ some q
    → unregister_client s r ≡ done (dropped s r c)
unfolding unregister_client close
unregister_known s r q c at o h = ground arith

pub unregister_unknown :
    (s : Server) (r : ℕ) (c : Client)
    → get_elem? s.heap r ≡ some c
    → lookup c.id s.clients ≡ none
    → unregister_client s r ≡ done s
unfolding unregister_client
unregister_unknown s r c at h = ground arith

pub dropped-IsLinked :
    (s : Server) (k : String) (r : ℕ) (c : Client)
    → IsLinked s
    → get_elem? s.heap r ≡ some c
    → c.id ≡ k
    → IsLinked (dropped s r c)
dropped-IsLinked s k r c v at i j q h =
    let (ne, old) = lookup-delete_cases c.id j q s.clients h in
    let (d, at', i', o') = v j q old in
    (d, get_elem?-set_ne s.heap r q _ (λ e. ne (ground arith)) ∙ at', i', o')

-- Unregistering a client that is registered under its id closes its channel and forgets it, keeps
-- every other client where it was and the map linked, and does nothing when it is done again: a
-- channel is never closed twice.
pub unregister-IsLinked :
    (s : Server) (k : String) (r : ℕ)
    → IsLinked s
    → lookup k s.clients ≡ some r
    → (s' : Server) × (c : Client) × (unregister_client s r ≡ done s')
      × IsLinked s'
      × (lookup k s'.clients ≡ none)
      × (get_elem? s'.heap r ≡ some c)
      × (c.send.is_open ≡ false)
      × ((other : String) → k ≢ other → lookup other s'.clients ≡ lookup other s.clients)
      × (unregister_client s' r ≡ done s')
unregister-IsLinked s k r v h =
    let (c, at, i, o) = v k r h in
    let gone : lookup c.id (delete c.id s.clients) ≡ none =
      ground (arith, lookup-delete c.id c.id s.clients, eq_refl c.id) in
    let ch = c.send in
    let c' : Client = record c { send = record ch { is_open = false } } in
    let at' = get_elem?-set_self s.heap r c' at in
    (
      dropped s r c,
      c',
      unregister_known s r r c at o (rw i h),
      dropped-IsLinked s k r c v at i,
      ground (arith, lookup-delete c.id k s.clients, eq_iff c.id k),
      at',
      refl,
      λ other ne. ground (arith, lookup-delete c.id other s.clients, eq_iff c.id other),
      unregister_unknown (dropped s r c) r c' at' gone,
    )

-- If two connections are given one id, unregistering the first takes the second out of the map:
-- nothing is found under the id, though the channel of the second is still open.
pub unregister_collision :
    (s : Server) (id : String)
    → let first = length s.heap in
      (s1 : Server) × (s2 : Server) × (s3 : Server) × (c : Client) × (attach s id ≡ done s1)
      × (attach s1 id ≡ done s2)
      × (unregister_client s2 first ≡ done s3)
      × (lookup id s3.clients ≡ none)
      × (get_elem? s3.heap (length s1.heap) ≡ some c)
      × (c.send.is_open ≡ true)
unfolding attached
unregister_collision s id =
    let c : Client = record { id = id; send = make_chan 256 } in
    let s1 = attached s id in
    let s2 = attached s1 id in
    let first_at = get_elem?-append_old s1.heap c (length s.heap) (get_elem?-append_new s.heap c) in
    let distinct : length s.heap ≢ length s1.heap =
      λ e. omega (arith, length-append s.heap (c ∷ [])) in
    (
      s1,
      s2,
      dropped s2 (length s.heap) c,
      c,
      attach_lem s id,
      attach_lem s1 id,
      unregister_known s2 (length s.heap) (length s1.heap) c first_at (unfold make_chan in refl)
          (ground (arith, lookup-insert id id (length s1.heap) s1.clients, eq_refl id)),
      ground (arith, lookup-delete id id s2.clients, eq_refl id),
      get_elem?-set_ne s2.heap (length s.heap) (length s1.heap) _ distinct
          ∙ get_elem?-append_new s1.heap c,
      unfold make_chan in refl,
    )
