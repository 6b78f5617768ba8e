-- ===== src/Health/Checkers.antt =====
-- The checkers of internal/health/health.go, for the hub and for the channels.
use frontend_router_mcp.Base.{
  ℕ, ◌*◌, ◌≤◌, ◌<◌, ◌≡◌, ◌≢◌, ◌↔◌, ◌⊎◌, refl, arith, true, [], ◌∷◌, Dict,
}
use frontend_router_mcp.Channel.{Chan, receive}
use frontend_router_mcp.Base.{some}
use frontend_router_mcp.Messaging.{Message}
use frontend_router_mcp.Hub.{Server, selecting, forwarding, is_running}
use frontend_router_mcp.Hub.Forwarding.{Step, forwards, stuck}
use frontend_router_mcp.Health.{
  Status, healthy, unhealthy, warning, unknown, websocket_health, channels_status, channels_health,
}

abbrev pub SomeFull : Dict (ℕ × ℕ) → Type 0
SomeFull [] = ⊥
SomeFull ((name, (length, capacity)) ∷ rest) = (capacity ≤ length) ⊎ SomeFull rest

abbrev pub SomeHigh : Dict (ℕ × ℕ) → Type 0
SomeHigh [] = ⊥
SomeHigh ((name, (length, capacity)) ∷ rest) = (80 * capacity < 100 * length) ⊎ SomeHigh rest

channels_status_lem :
    (s : Status) (chs : Dict (ℕ × ℕ))
    → (s ≡ healthy) ⊎ (s ≡ warning)
    → (channels_status s chs ≡ unhealthy ↔ SomeFull chs)
      × (channels_status s chs ≡ warning ↔ (((s ≡ warning) ⊎ SomeHigh chs) × (SomeFull chs → ⊥)))
      × (channels_status s chs ≢ unknown)
unfolding channels_status
channels_status_lem s [] up = ground arith
channels_status_lem s ((name, (length, capacity)) ∷ rest) up =
    ground (arith, channels_status_lem s rest, channels_status_lem warning rest)

-- The channels are unhealthy exactly if one of them is full; they have a warning exactly if none is
-- full and one is used to more than 80 per cent.
pub channels_health_iff :
    (chs : Dict (ℕ × ℕ))
    → (channels_health chs ≡ unhealthy ↔ SomeFull chs)
      × (channels_health chs ≡ warning ↔ (SomeHigh chs × (SomeFull chs → ⊥)))
unfolding channels_health
channels_health_iff chs = ground (arith, channels_status_lem healthy chs)

-- A hub that can never again serve a client is reported as before: where a message is in the message
-- channel and the HTTP server runs, the hub has a step to a state without any further step, in which
-- the health check still says healthy.
pub stuck_hub_healthy :
    (s : Server) (msg : Message) (ch : Chan Message)
    → s.phase ≡ selecting
    → receive s.message_ch ≡ some (msg, ch)
    → is_running s ≡ true
    → (t : Server) × Step s t
      × ((u : Server) → Step t u → ⊥)
      × ((websocket_health t).status ≡ healthy)
unfolding websocket_health is_running
stuck_hub_healthy s msg ch p q run = (
  record s { message_ch = ch; phase = forwarding msg },
  forwards msg ch p q,
  λ u st. stuck msg refl st,
  ground arith,
)
