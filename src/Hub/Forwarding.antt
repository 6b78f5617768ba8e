-- ===== src/Hub/Forwarding.antt =====
-- The goroutine of `run` in internal/wsserver/server.go, one round of its `select` at a time.
use frontend_router_mcp.Base.{ℕ, ◌≡◌, true, some}
use frontend_router_mcp.Channel.{Chan, done, receive}
use frontend_router_mcp.Messaging.{Message}
use frontend_router_mcp.Hub.{
  Server, selecting, forwarding, returned, register_client, unregister_client, broadcast,
}

-- A goroutine that receives from `s.broadcast`: there is one such receive, in the `select` of `run`.
abbrev ReceivesBroadcast : Server → Type 0
ReceivesBroadcast s = s.phase ≡ selecting

-- The steps of `run`. A send on the unbuffered `s.broadcast` is finished when a goroutine receives
-- from it. `broadcasts` takes a message from another goroutine that sends on the channel.
pub data Step (s : Server) : Server → Type 0 where
  stops : s.phase ≡ selecting → s.is_shutdown ≡ true → Step s (record s { phase = returned })
  registers : {t : Server} (r : ℕ) → s.phase ≡ selecting → register_client s r ≡ done t → Step s t
  unregisters :
      {t : Server} (r : ℕ) → s.phase ≡ selecting → unregister_client s r ≡ done t → Step s t
  broadcasts :
      {t : Server} (msg : Message) → s.phase ≡ selecting → broadcast s msg ≡ done t → Step s t
  forwards :
      (msg : Message) (ch : Chan Message)
      → s.phase ≡ selecting
      → receive s.message_ch ≡ some (msg, ch)
      → Step s (record s { message_ch = ch; phase = forwarding msg })
  hands_over :
      (msg : Message)
      → s.phase ≡ forwarding msg
      → ReceivesBroadcast s
      → Step s (record s { phase = selecting })

-- Every step starts at the `select`.
Step-needs_select : {s t : Server} → Step s t → s.phase ≡ selecting
Step-needs_select (stops p q) = p
Step-needs_select (registers r p q) = p
Step-needs_select (unregisters r p q) = p
Step-needs_select (broadcasts msg p q) = p
Step-needs_select (forwards msg ch p q) = p
Step-needs_select (hands_over msg p q) = q

pub data Steps (s : Server) : Server → Type 0 where
  here : Steps s s
  next : {t u : Server} → Steps s t → Step t u → Steps s u

pub stuck : {s t : Server} (msg : Message) → s.phase ≡ forwarding msg → Step s t → ⊥
stuck msg p st = cc (Step-needs_select st)
