-- ===== src/Examples/Health.antt =====
-- Health at concrete inputs.
use frontend_router_mcp.Base.{List, [], ◌∷◌}
use frontend_router_mcp.Health.{healthy, unhealthy, warning, ComponentHealth, Manager, new_manager}
use frontend_router_mcp.Health.Unordered.{
  Change, added, removed, Tells, replay, empty, endpoints, run, endpoints-replay,
}

abbrev mixed : Manager
mixed = record {
  components =
      ("websocket_server", record { name = "websocket_server"; status = healthy; message = "" })
      ∷ ("channels", record { name = "channels"; status = warning; message = "" })
      ∷ [];
}

abbrev channels : ComponentHealth
channels = record { name = "channels"; status = warning; message = "" }

abbrev server : ComponentHealth
server = record { name = "mcp_server"; status = unhealthy; message = "" }

abbrev changes : List Change
changes = added "channels" channels ∷ added "mcp_server" server ∷ removed "channels" ∷ []

endpoints-replay_example : Tells (replay changes empty) (endpoints (run changes new_manager))
endpoints-replay_example = endpoints-replay changes
