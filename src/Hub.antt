-- ===== src/Hub.antt =====
-- internal/wsserver: the hub of the WebSocket server (server.go), a client's `SendResponse`
-- (response_sender.go) and the reading of one message (client.go). A `*Client` is a place in a heap
-- of clients. Delivery has `writePump`. Not modelled: the HTTP server, the upgrade, deadlines, ping
-- handlers and the logger.
pub mod Ready
pub mod Broadcast
pub mod Membership
pub mod Forwarding
pub mod Soundness
pub mod Sending
pub mod Histories
pub mod Delivery
use frontend_router_mcp.Base.{
  ℕ, String, Bool, true, false, if◌then◌else◌, List, [], ◌∷◌, ◌++◌, Option, none, some, Dict,
  lookup, insert, delete, length, get_elem?, set, str_eq,
}
use frontend_router_mcp.Channel.{
  Chan, Done, done, panic, Sent, sent, full, send_panic, make_chan, try_send, close,
}
use frontend_router_mcp.Messaging.{Message}

pub record Client : Type 0 where
  pub id : String
  pub send : Chan Message

-- Where the goroutine of `run` stands: at its `select`, or in `s.broadcast <- msg`, or past its end.
pub data Phase : Type 0 where
  selecting : Phase
  forwarding : Message → Phase
  returned : Phase

pub record Server : Type 0 where
  pub clients : Dict ℕ
  pub heap : List Client
  pub message_ch : Chan Message
  pub phase : Phase
  pub is_shutdown : Bool
  pub has_http_server : Bool

unfoldable pub new_server : Chan Message → Server
new_server message_ch = record {
  clients = [];
  heap = [];
  message_ch = message_ch;
  phase = selecting;
  is_shutdown = false;
  has_http_server = false;
}

-- The client that `HandleWebSocket` makes for an upgraded connection.
unfoldable pub new_client : Server → String → Server × ℕ
new_client s id =
    let client : Client = record { id = id; send = make_chan 256 } in
    (record s { heap = s.heap ++ client ∷ [] }, length s.heap)

-- `case client := <-s.register`
unfoldable pub register_client : Server → ℕ → Done Server
register_client s r = elim (get_elem? s.heap r) [
  | some c ↦ done (record s { clients = insert c.id r s.clients })
  | none ↦ panic
]

-- `close(client.send)` and `delete(s.clients, client.ID)`
closed_at : Server → ℕ → Client → Done (Chan Message) → Done Server
closed_at s r c (done ch) =
    done
      (record s { clients = delete c.id s.clients; heap = set s.heap r (record c { send = ch }) })
closed_at s r c panic = panic

drop_client : Server → ℕ → Client → Done Server
unfolding closed_at
drop_client s r c = closed_at s r c (close c.send)

unregister_found : Server → ℕ → Client → Done Server
unfolding drop_client
unregister_found s r c = elim (lookup c.id s.clients) [ some q ↦ drop_client s r c | none ↦ done s ]

-- `case client := <-s.unregister`
unfoldable pub unregister_client : Server → ℕ → Done Server
unfolding unregister_found
unregister_client s r = elim (get_elem? s.heap r) [ some c ↦ unregister_found s r c | none ↦ panic ]

offered : Server → ℕ → Client → Sent Message → Done Server
unfolding drop_client
offered s r c (sent ch) = done (record s { heap = set s.heap r (record c { send = ch }) })
offered s r c full = drop_client s r c
offered s r c send_panic = panic

-- `select { case client.send <- message: default: close(client.send); delete(...) }`
unfoldable pub offer : Server → ℕ → Message → Done Server
unfolding offered
offer s r msg = elim (get_elem? s.heap r) [
  | some c ↦ offered s r c (try_send c.send msg)
  | none ↦ panic
]

-- `for _, client := range s.clients`, over the entries of the map.
unfoldable pub broadcast_all : Dict ℕ → Server → Message → Done Server
broadcast_all [] s msg = done s
broadcast_all ((k, r) ∷ rest) s msg = elim (offer s r msg) [
  | done s' ↦ broadcast_all rest s' msg
  | panic ↦ panic
]

-- `case message := <-s.broadcast`
unfoldable pub broadcast : Server → Message → Done Server
unfolding broadcast_all
broadcast s msg =
    if str_eq msg.client_id ""
    then broadcast_all s.clients s msg
    else elim (lookup msg.client_id s.clients) [ some r ↦ offer s r msg | none ↦ done s ]

unfoldable pub get_client_count : Server → ℕ
get_client_count s = length s.clients

unfoldable pub is_running : Server → Bool
is_running s = if s.is_shutdown then false else s.has_http_server

-- `(*Client).SendResponse`: it returns nil whether the message is queued or dropped.
after_response : List Client → ℕ → Client → Sent Message → Done (List Client)
after_response heap r c (sent ch) = done (set heap r (record c { send = ch }))
after_response heap r c full = done heap
after_response heap r c send_panic = panic

unfoldable pub send_response : List Client → ℕ → Message → Done (List Client)
unfolding after_response
send_response heap r msg = elim (get_elem? heap r) [
  | some c ↦ after_response heap r c (try_send c.send msg)
  | none ↦ panic
]

-- One round of `readPump`: the message is wrapped and offered to the message channel, or dropped.
-- `message_type` is what the decoder finds, `none` if the JSON is invalid.
inbound : ℕ → Client → String → Option String → String → ℕ → Message
inbound r c raw message_type id now = record {
  id = id;
  type = elim message_type [ some t ↦ t | none ↦ "unknown" ];
  timestamp = now;
  payload = raw;
  client_id = c.id;
  response_sender = some r;
}

after_read : Server → Sent Message → Done Server
after_read s (sent ch) = done (record s { message_ch = ch })
after_read s full = done s
after_read s send_panic = panic

unfoldable pub read_message : Server → ℕ → String → Option String → String → ℕ → Done Server
unfolding inbound after_read
read_message s r raw message_type id now = elim (get_elem? s.heap r) [
  | some c ↦ after_read s (try_send s.message_ch (inbound r c raw message_type id now))
  | none ↦ panic
]
