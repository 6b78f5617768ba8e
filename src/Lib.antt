-- ===== src/Lib.antt =====
-- The frontend router: an MCP server whose tool ask_user puts a question to the users of a WebSocket
-- server and waits for an answer.
--
-- A call of the tool registers a request and hands its question to the bridge. The bridge sends it to
-- every WebSocket client that it knows, and takes the first answer back to the tool, where the call
-- waits. The WebSocket hub owns the clients and their queues. Beside this path stand the circuit
-- breaker, the rate limiters, the validation of requests, the health checks and a second MCP server
-- that runs tools from messages.
--
-- Files, and what they model (functions keep their names in snake_case):
--   Channel     Go's buffered channels: a send under `select` with a default, receive, close. A send on
--               a closed channel and a second close are `panic`.
--   Errors      internal/errors/errors.go; Errors/Recovery has the recovery from panics
--   Messaging   pkg/messaging/message.go
--   Hub         internal/wsserver: the cases of `run` (register_client, unregister_client, broadcast),
--               `SendResponse` and one round of `readPump`. Hub/Forwarding has the goroutine of `run`
--               as a step relation, Hub/Delivery `writePump`.
--   Breaker     internal/resilience/circuit_breaker.go; Breaker/Manager and Breaker/Retry for its
--               second half.
--   AskUser     internal/tools/ask_user.go; AskUser/Running has its calls side by side, AskUser/Board what
--               they promise
--   Bridge      cmd/server/main_monitoring.go: `handleWebSocketToMCP` (on_question, on_message) and
--               `handleUserResponses` (forward_response)
--   RateLimit   internal/validation/ratelimit.go; RateLimit/Serving has its HTTP wrappers
--   Logging     internal/logging/logger.go, with the maps of fields in memory; Logging/Calls has the calls
--               that write, Logging/Accounts where each logger comes from
--   JsonStructure, Requests
--               internal/validation/request_validation.go: `isValidJSONStructure` as a scan, and the
--               checks of requests, bodies and messages. Requests/Bodies has the body and the size
--               limit middleware, Requests/Messages the WebSocket messages.
--   Health      internal/health/health.go; its checker of the WebSocket server looks at the Hub.
--               Health/Unordered has the registry without an order that the manager implements.
--   McpServer   internal/mcpserver/server.go
--   Middleware  internal/middleware/middleware.go: `RateLimitMiddleware`; Middleware/Stack has the other
--               middleware and their chain in cmd/server/main_monitoring.go
--   InputLimits `ValidateInputLimits` of internal/validation/input_limits.go; InputLimits/Truncate has
--               `TruncateString`, InputLimits/Files content types, files, custom rules and headers
--   ConnectionTracking, WebSocketUpgrade, WebSocketMessages
--               internal/validation/websocket_middleware.go: the registry of connections, on a RateLimit,
--               with its statistics; `ValidateUpgrade`, on Requests; `ValidateMessage`, on both
--   SecurityHeaders  internal/validation/security_headers.go
--   Sanitizer, Validator
--               internal/validation/sanitization.go and internal/validation/validator.go, on the bytes of
--               texts; Validator/Structs has `ValidateAndSanitize` of internal/validation/structs.go
--   Utf8        how Go reads and writes a string as UTF-8
--   Base        shared names, association lists for Go's maps, and Boolean tests
--   Examples    concrete inputs
--
-- State is passed explicitly. A pointer is a place in a list that stands for the heap, so that aliasing
-- shows: a client that the hub has dropped is still reached through the sender that the bridge keeps.
-- A Go map is an association list, and a `for range` visits it in its order; what is shown for every
-- list holds for every order. A method that holds its mutex throughout is one step; the methods of the
-- tool, which do not, are cut where another goroutine can run. The clock, encoding/json, google/uuid,
-- golang.org/x/time/rate, package regexp, bluemonday, the tables of packages strings and unicode, the
-- canonical header names and strconv.ParseInt are arguments.
--
-- Loops are structural recursion over a list or over the rounds that are left. The decoding of UTF-8
-- alone has fuel, the length of the string: each rune has at least one byte.
--
-- Not modelled: the HTTP servers, the WebSocket protocol, the entries that the other parts log,
-- the metrics' registry, and start-up and shutdown.
pub mod Base
pub mod Errors
pub mod Channel
pub mod Messaging
pub mod Hub
pub mod Breaker
pub mod AskUser
pub mod Bridge
pub mod RateLimit
pub mod Logging
pub mod JsonStructure
pub mod Requests
pub mod Utf8
pub mod Health
pub mod McpServer
pub mod ConnectionTracking
pub mod InputLimits
pub mod Middleware
pub mod WebSocketUpgrade
pub mod WebSocketMessages
pub mod Sanitizer
pub mod Validator
pub mod SecurityHeaders
pub mod Examples
