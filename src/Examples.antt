-- ===== src/Examples.antt =====
-- Concrete inputs of the theorems, by component.
mod Logging
mod Hub
mod Breaker
mod AskUser
mod Bridge
mod RateLimit
mod JsonStructure
mod Requests
mod Health
mod McpServer
mod Middleware
mod Sanitizer
mod SecurityHeaders
mod WebSocketUpgrade
mod WebSocketMessages
mod InputLimits
mod ConnectionTracking
