-- ===== src/SecurityHeaders/Upgrades.antt =====
-- The two checks of a WebSocket upgrade: `validateWebSocketUpgrade` of
-- internal/validation/security_headers.go, and those of internal/validation/websocket_middleware.go.
use frontend_router_mcp.WebSocketUpgrade as WebSocketUpgrade
