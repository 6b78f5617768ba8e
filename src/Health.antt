-- ===== src/Health.antt =====
-- internal/health/health.go: the manager of the health checks, its three endpoints, and the checkers
-- of the WebSocket server, the MCP server and the channels. A report keeps the statuses; its times,
-- the system information and the metadata are left out.
pub mod Overall
pub mod Checkers
pub mod Unordered
use frontend_router_mcp.Base.{
  ℕ, ◌*◌, Bool, true, false, ◌&&◌, ◌||◌, if◌then◌else◌, leb, ltb, List, [], ◌∷◌, Option, none, some,
  String, Dict, insert, delete,
}
use frontend_router_mcp.Hub.{Server, is_running, get_client_count}

pub data Status : Type 0 where
  healthy unhealthy warning unknown : Status

pub record ComponentHealth : Type 0 where
  pub name : String
  pub status : Status
  pub message : String

abbrev pub is_unhealthy : Status → Bool
is_unhealthy unhealthy = true
is_unhealthy healthy = false
is_unhealthy warning = false
is_unhealthy unknown = false

abbrev pub is_healthy : Status → Bool
is_healthy healthy = true
is_healthy unhealthy = false
is_healthy warning = false
is_healthy unknown = false

abbrev pub is_warning : Status → Bool
is_warning warning = true
is_warning healthy = false
is_warning unhealthy = false
is_warning unknown = false

abbrev pub is_unknown : Status → Bool
is_unknown unknown = true
is_unknown healthy = false
is_unknown unhealthy = false
is_unknown warning = false

-- `Manager`: the components by name. What a checker answers when it is called is in `checks`.
pub record Manager : Type 0 where
  pub components : Dict ComponentHealth

unfoldable pub new_manager : Manager
new_manager = record { components = [] }

unfoldable pub register_component : Manager → String → ComponentHealth → Manager
register_component m name checker = record { components = insert name checker m.components }

unfoldable pub unregister_component : Manager → String → Manager
unregister_component m name = record { components = delete name m.components }

pub record HealthReport : Type 0 where
  pub status : Status
  pub components : Dict ComponentHealth

unfoldable pub update_status : Status → Status → Status
update_status overall component =
    if is_unhealthy component
    then unhealthy
    else if is_warning component && is_healthy overall
    then warning
    else overall

unfoldable pub overall_status : Status → Dict ComponentHealth → Status
overall_status status [] = status
overall_status status ((name, c) ∷ rest) = overall_status (update_status status c.status) rest

-- The keys of the manager's map are distinct, so the report has the same entries.
unfoldable pub get_health_report : Manager → HealthReport
get_health_report m = record {
  status = overall_status healthy m.components;
  components = m.components;
}

all_ready : Dict ComponentHealth → Bool
all_ready [] = true
all_ready ((name, c) ∷ rest) =
    let others = all_ready rest in
    if is_unhealthy c.status || is_unknown c.status then false else others

unfoldable pub is_ready : Manager → Bool
unfolding all_ready get_health_report
is_ready m = all_ready (get_health_report m).components

some_live : Dict ComponentHealth → Bool
some_live [] = false
some_live ((name, c) ∷ rest) =
    let others = some_live rest in
    if is_healthy c.status || is_warning c.status then true else others

live_in : Dict ComponentHealth → Bool
live_in [] = true
live_in (c ∷ cs) = some_live (c ∷ cs)

unfoldable pub is_live : Manager → Bool
unfolding live_in some_live get_health_report
is_live m = live_in (get_health_report m).components

-- The HTTP statuses of /health, /ready and /live.
abbrev pub status_code : Status → ℕ
status_code healthy = 200
status_code warning = 200
status_code unhealthy = 503
status_code unknown = 503

unfoldable pub health_endpoint : Manager → ℕ
unfolding get_health_report
health_endpoint m = status_code (get_health_report m).status

unfoldable pub ready_endpoint : Manager → ℕ
ready_endpoint m = if is_ready m then 200 else 503

unfoldable pub live_endpoint : Manager → ℕ
live_endpoint m = if is_live m then 200 else 503

unfoldable pub websocket_health : Server → ComponentHealth
websocket_health s =
    if is_running s
    then record {
      name = "websocket_server";
      status = healthy;
      message = "WebSocket server is running";
    }
    else record {
      name = "websocket_server";
      status = unhealthy;
      message = "WebSocket server is not running";
    }

unfoldable pub mcp_health : Bool → ComponentHealth
mcp_health running =
    if running
    then record { name = "mcp_server"; status = healthy; message = "MCP server is running" }
    else record { name = "mcp_server"; status = unhealthy; message = "MCP server is not running" }

-- A channel by its length and capacity. The utilization is compared as a fraction; the rounding of
-- the float64 makes no difference below a capacity of 2 ^ 50.
abbrev pub is_high : ℕ × ℕ → Bool
is_high (length, capacity) = ltb (80 * capacity) (100 * length)

abbrev pub is_full : ℕ × ℕ → Bool
is_full (length, capacity) = leb capacity length

-- The loop of `(*ChannelHealthChecker).HealthCheck`, which ends at the first full channel.
unfoldable pub channels_status : Status → Dict (ℕ × ℕ) → Status
channels_status status [] = status
channels_status status ((name, ch) ∷ rest) =
    let later = channels_status (if is_high ch then warning else status) rest in
    if is_full ch then unhealthy else later

unfoldable pub channels_health : Dict (ℕ × ℕ) → Status
channels_health channels = channels_status healthy channels
