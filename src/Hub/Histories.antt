-- ===== src/Hub/Histories.antt =====
-- Histories of the hub of internal/wsserver/server.go: connections, disconnections and messages.
use frontend_router_mcp.Base.{
  ℕ, ◌≡◌, refl, sym, subst, ◌∙◌, arith, String, List, Option, some, lookup, IsKeyed, get_elem?, set,
  Option-cases, inl, inr,
}
use frontend_router_mcp.Channel.{Chan, done, panic, Sent, sent, full, send_panic, try_send}
use frontend_router_mcp.Messaging.{Message}
use frontend_router_mcp.Hub.{
  Client, Server, new_server, unregister_client, broadcast, read_message, inbound, after_read,
}
use frontend_router_mcp.Hub.Ready.{Live, Ready}
use frontend_router_mcp.Hub.Membership.{attach, attached, attach_lem}
use frontend_router_mcp.Hub.Soundness.{
  IsSound, IsFresh, AreApart, new_server-IsSound, attached-IsSound, unregister-IsSound,
}
use frontend_router_mcp.Hub.Sending.{IsSound-Ready, set-IsSound, broadcast-IsSound}

after_read-keeps :
    (s t : Server) (x : Sent Message)
    → after_read s x ≡ done t
    → (s.clients ≡ t.clients) × (s.heap ≡ t.heap)
unfolding after_read
after_read-keeps s t (sent ch) h = ground arith
after_read-keeps s t full h = ground arith
after_read-keeps s t send_panic h = ground arith

read_message-keeps :
    (s t : Server) (r : ℕ) (raw : String) (ty : Option String) (id : String) (now : ℕ)
    → read_message s r raw ty id now ≡ done t
    → (s.clients ≡ t.clients) × (s.heap ≡ t.heap)
unfolding read_message
read_message-keeps s t r raw ty id now h = elim (Option-cases (get_elem? s.heap r)) [
  | inl e ↦ cc (let z : read_message s r raw ty id now ≡ panic = rw (e, read_message) in z)
  | inr (c, e) ↦
      let x = try_send s.message_ch (inbound r c raw ty id now) in
      let z : read_message s r raw ty id now ≡ after_read s x = rw (e, read_message) in
      after_read-keeps s t x (sym z ∙ h)
]

abbrev pub requeued : Client → List Message → Client
requeued c queue = let ch = c.send in record c { send = record ch { buffer = queue } }

-- The hubs that are reached from a new one by connections under ids that were never used, by the
-- unregistration of clients, more than once or after they were dropped included, by messages, by the reading of messages, and by any change to the queue of a client, such as
-- those of `SendResponse` and `writePump`.
pub data Reached : Server → Type 0 where
  starts : (ch : Chan Message) → Reached (new_server ch)
  connects :
      {s t : Server} → Reached s → (id : String) → IsFresh s id → attach s id ≡ done t → Reached t
  disconnects :
      {s t : Server}
      → Reached s
      → (r : ℕ) (c : Client) → get_elem? s.heap r ≡ some c
      → unregister_client s r ≡ done t
      → Reached t
  sends : {s t : Server} → Reached s → (msg : Message) → broadcast s msg ≡ done t → Reached t
  reads :
      {s t : Server}
      → Reached s
      → (r : ℕ) (raw : String) (ty : Option String) (id : String) (now : ℕ)
      → read_message s r raw ty id now ≡ done t
      → Reached t
  requeues :
      {s : Server}
      → Reached s
      → (r : ℕ) (c : Client) (queue : List Message) → get_elem? s.heap r ≡ some c
      → Reached (record s { heap = set s.heap r (requeued c queue) })

IsSound-same : {s t : Server} → s.clients ≡ t.clients → s.heap ≡ t.heap → IsSound s → IsSound t
IsSound-same {s} {t} e h v = record {
  linked =
      subst (λ m. (k : String) (r : ℕ) → lookup k m ≡ some r → Live t.heap k r) e
        (subst (λ x. (k : String) (r : ℕ) → lookup k s.clients ≡ some r → Live x k r) h v.linked);
  keyed = subst IsKeyed e v.keyed;
  apart_ids = subst AreApart h v.apart_ids;
}

Reached-IsSound : {s : Server} → Reached s → IsSound s
Reached-IsSound (starts ch) = new_server-IsSound ch
Reached-IsSound (connects {s = s} {t = t} h id fresh run) =
    let e : attached s id ≡ t = let z = attach_lem s id in cc in
    subst IsSound e (attached-IsSound s id fresh (Reached-IsSound h))
Reached-IsSound (disconnects {s = s} {t = t} h r c at run) =
    let (u, z, v) = unregister-IsSound s r c at (Reached-IsSound h) in
    let e : u ≡ t = cc in subst IsSound e v
Reached-IsSound (sends {s = s} {t = t} h msg run) =
    let (u, z, v) = broadcast-IsSound s msg (Reached-IsSound h) in
    let e : u ≡ t = cc in subst IsSound e v
Reached-IsSound (reads {s = s} {t = t} h r raw ty id now run) =
    let (e, p) = read_message-keeps s t r raw ty id now run in IsSound-same e p (Reached-IsSound h)
Reached-IsSound (requeues {s = s} h r c queue at) =
    set-IsSound s r c (requeued c queue) at refl refl (Reached-IsSound h)

-- As long as client ids do not repeat, the hub never panics: in every state that it reaches its map
-- holds distinct keys and clients with open channels, and the next connection, unregistration of any
-- client or message is handled, so that no channel is closed twice or sent on when it is closed.
pub Reached-no_panic :
    {s : Server} (h : Reached s)
    → Ready s.heap s.clients
      × ((id : String) → (t : Server) × (attach s id ≡ done t))
      × ((r : ℕ) (c : Client)
          → get_elem? s.heap r ≡ some c
          → (t : Server) × (unregister_client s r ≡ done t))
      × ((msg : Message) → (t : Server) × (broadcast s msg ≡ done t))
Reached-no_panic {s} h =
    let v = Reached-IsSound h in
    (
      IsSound-Ready s v,
      (λ id. (attached s id, attach_lem s id)),
      (λ r c at. let (t, run, _) = unregister-IsSound s r c at v in (t, run)),
      (λ msg. let (t, run, _) = broadcast-IsSound s msg v in (t, run)),
    )
