-- ===== src/Examples/Hub.antt =====
-- The hub at concrete inputs: two clients, of which one has a full queue.
use frontend_router_mcp.Base.{
  ℕ, ◌≡◌, refl, true, false, String, [], ◌∷◌, none, some, lookup, get_elem?, Bool, arith,
}
use frontend_router_mcp.Channel.{Chan, done, receive, make_chan, try_send, close}
use frontend_router_mcp.Messaging.{Message}
use frontend_router_mcp.Hub.{Client, Server, new_server, selecting, broadcast, unregister_client}
use frontend_router_mcp.Hub.Ready.{Ready, Ready-Live}
use frontend_router_mcp.Hub.Membership.{IsLinked, attach, attached, attach_lem}
use frontend_router_mcp.Hub.Broadcast.{Delivered, broadcast-Delivered}
use frontend_router_mcp.Hub.Histories.{Reached, starts, connects, Reached-no_panic}
use frontend_router_mcp.Hub.Delivery.{
  Frame, text_message, close_message, History, made, accepted, closed, written, write_received,
  pump, texts, pump-delivered,
}

abbrev pub hello : Message
hello = record {
  id = "1";
  type = "hello";
  timestamp = 5;
  payload = "{}";
  client_id = "";
  response_sender = none;
}

abbrev to_bob : Message
to_bob = record {
  id = "2";
  type = "hello";
  timestamp = 6;
  payload = "{}";
  client_id = "bob";
  response_sender = none;
}

abbrev alice : Client
alice = record { id = "alice"; send = record { buffer = []; capacity = 2; is_open = true } }

abbrev bob : Client
bob = record { id = "bob"; send = record { buffer = hello ∷ []; capacity = 1; is_open = true } }

abbrev pub busy : Server
busy = record {
  clients = ("alice", 0) ∷ ("bob", 1) ∷ [];
  heap = alice ∷ bob ∷ [];
  message_ch = record { buffer = hello ∷ []; capacity = 4; is_open = true };
  phase = selecting;
  is_shutdown = false;
  has_http_server = true;
}

abbrev pub drained : Chan Message
drained = record { buffer = []; capacity = 4; is_open = true }

busy-Ready : Ready busy.heap busy.clients
busy-Ready =
    ((alice, refl, refl, refl), ((λ e. absurd (cc)), tt), ((bob, refl, refl, refl), tt, tt))

busy-IsLinked : IsLinked busy
busy-IsLinked k r h = Ready-Live busy.heap busy.clients k r busy-Ready h

broadcast-Delivered_example :
    (t : Server) × (broadcast busy hello ≡ done t)
    × ((k : String) (r : ℕ) (c : Client)
        → lookup k busy.clients ≡ some r
        → get_elem? busy.heap r ≡ some c
        → c.id ≡ k
        → Delivered busy t k r c hello)
broadcast-Delivered_example = broadcast-Delivered busy hello busy-Ready refl

-- One connection on a new hub.
abbrev one_client : Server
one_client = attached (new_server drained) "alice"

one_client-Reached : Reached one_client
unfolding new_server
one_client-Reached =
    connects (starts drained) "alice" (λ r c h. absurd (cc))
      (attach_lem (new_server drained) "alice")

Reached-no_panic_example :
    Ready one_client.heap one_client.clients
    × ((id : String) → (t : Server) × (attach one_client id ≡ done t))
    × ((r : ℕ) (c : Client)
        → get_elem? one_client.heap r ≡ some c
        → (t : Server) × (unregister_client one_client r ≡ done t))
    × ((msg : Message) → (t : Server) × (broadcast one_client msg ≡ done t))
Reached-no_panic_example = Reached-no_panic {s = one_client} one_client-Reached

-- A queue that took two messages, of which one was written before the hub closed it.
abbrev takes_all : Frame → Bool
takes_all f = true

abbrev left : Chan Message
left = record { buffer = to_bob ∷ []; capacity = 256; is_open = false }

left-History : History takes_all left (text_message "{}" ∷ []) (hello ∷ to_bob ∷ []) true
unfolding make_chan try_send close write_received receive
left-History =
    closed
      (written (accepted (accepted made hello refl) to_bob refl)
        (record {
          frame = text_message "{}";
          channel = record left { is_open = true };
          goes_on = true;
        })
        refl)
      refl

pump-delivered_example :
    (pump takes_all 2 left ≡ text_message "{}" ∷ close_message ∷ [])
    × (texts (text_message "{}" ∷ pump takes_all 2 left) ≡ "{}" ∷ "{}" ∷ [])
pump-delivered_example =
    pump-delivered takes_all left (text_message "{}" ∷ []) (hello ∷ to_bob ∷ []) 2 left-History refl
      (λ f. refl) (omega arith)
