-- ===== src/WebSocketUpgrade.antt =====
-- `ValidateUpgrade` of internal/validation/websocket_middleware.go, with `getClientIP` of
-- internal/validation/ratelimit.go. `websocket.Subprotocols` and `net.SplitHostPort` are arguments.
pub mod Limits
pub mod Permitted
use text.Mathlib.Text.{starts_with}
use frontend_router_mcp.Base.{
  ℕ, ◌+◌, Bool, true, false, not, ltb, leb, length, if◌then◌else◌, List, [], ◌∷◌, Option, none,
  some, String, str_eq, Dict,
}
use frontend_router_mcp.Requests.{
  Env, Request, RequestValidationConfig, RequestValidationError, get_header, contains, is_one_of,
  validate_http_request,
}
use frontend_router_mcp.ConnectionTracking.{
  ValidatedConnection, WebSocketValidationConfig, WebSocketValidator,
}

-- `websocket.Subprotocols(r)`, and the host of `net.SplitHostPort`, `none` for an error.
pub record Network : Type 0 where
  pub subprotocols : Request → List String
  pub split_host : String → Option String

abbrev pub host_or : Option String → String → String
host_or (some host) addr = host
host_or none addr = addr

-- `getClientIP`, with the remote address of the request.
unfoldable pub get_client_ip : Env → Network → Request → String → String
get_client_ip env net r remote_addr =
    if not (str_eq (get_header env r.headers "X-Forwarded-For") "")
    then get_header env r.headers "X-Forwarded-For"
    else if not (str_eq (get_header env r.headers "X-Real-IP") "")
    then get_header env r.headers "X-Real-IP"
    else if not (str_eq (get_header env r.headers "X-Client-IP") "")
    then get_header env r.headers "X-Client-IP"
    else host_or (net.split_host remote_addr) remote_addr

pub data UpgradeError : Type 0 where
  http_validation : RequestValidationError → UpgradeError
  upgrade_header connection_header unsupported_version missing_key : UpgradeError
  missing_origin origin_not_allowed no_subprotocol : UpgradeError
  max_connections_exceeded max_per_ip_exceeded : UpgradeError

unfoldable pub or_fail : Option UpgradeError → Option UpgradeError → Option UpgradeError
or_fail (some e) rest = some e
or_fail none rest = rest

unfoldable pub validate_web_socket_headers : Env → Request → Option UpgradeError
validate_web_socket_headers env r =
    if not (str_eq (get_header env r.headers "Upgrade") "websocket")
    then some upgrade_header
    else if not (contains (get_header env r.headers "Connection") "Upgrade")
    then some connection_header
    else if not (str_eq (get_header env r.headers "Sec-WebSocket-Version") "13")
    then some unsupported_version
    else if str_eq (get_header env r.headers "Sec-WebSocket-Key") ""
    then some missing_key
    else none

unfoldable pub validate_origin : Env → WebSocketValidationConfig → Request → Option UpgradeError
validate_origin env config r =
    let origin = get_header env r.headers "Origin" in
    if str_eq origin ""
    then some missing_origin
    else if is_one_of config.allowed_origins origin
    then none
    else some origin_not_allowed

-- Whether one of the requested subprotocols is allowed.
unfoldable pub any_allowed : List String → List String → Bool
any_allowed allowed [] = false
any_allowed allowed (p ∷ ps) =
    let rest = any_allowed allowed ps in if is_one_of allowed p then true else rest

unfoldable pub validate_subprotocols : WebSocketValidationConfig → List String → Option UpgradeError
validate_subprotocols config requested =
    if any_allowed config.allowed_subprotocols requested
    then none
    else if ltb 0 (length requested)
    then some no_subprotocol
    else none

-- The connections whose remote address begins with the text.
unfoldable pub ip_connections : String → Dict ValidatedConnection → ℕ
ip_connections ip [] = 0
ip_connections ip ((id, conn) ∷ rest) =
    (if starts_with conn.remote_addr ip then 1 else 0) + ip_connections ip rest

module _ {L : Type 0} where
  unfoldable pub check_connection_limits : WebSocketValidator L → String → Option UpgradeError
  check_connection_limits wsv client_ip =
      if leb wsv.config.max_connections (length wsv.connections)
      then some max_connections_exceeded
      else if leb wsv.config.max_connections_per_ip (ip_connections client_ip wsv.connections)
      then some max_per_ip_exceeded
      else none

abbrev pub http_error : Option RequestValidationError → Option UpgradeError
http_error none = none
http_error (some e) = some (http_validation e)

module _ {L : Type 0} (env : Env) (net : Network) (requests : RequestValidationConfig) where
  -- `ValidateUpgrade`, of a request from the remote address.
  unfoldable pub validate_upgrade : WebSocketValidator L → Request → String → Option UpgradeError
  validate_upgrade wsv r remote_addr = or_fail (http_error (validate_http_request env requests r)) (
      or_fail (validate_web_socket_headers env r) (
        or_fail (if wsv.config.require_origin then validate_origin env wsv.config r else none) (
          or_fail
            (if wsv.config.validate_subprotocols
              then validate_subprotocols wsv.config (net.subprotocols r)
              else none)
            (check_connection_limits wsv (get_client_ip env net r remote_addr)))))
