-- ===== src/WebSocketUpgrade/Permitted.antt =====
-- Which upgrades `ValidateUpgrade` permits.
use frontend_router_mcp.Base.{
  ◌<◌, Bool, true, false, ◌≡◌, ◌≢◌, ◌↔◌, ◌⊎◌, refl, arith, if◌then◌else◌, List, [], ◌∷◌, Option,
  none, some, String, eq_iff, length,
}
use frontend_router_mcp.Requests.{
  Env, Request, RequestValidationConfig, RequestValidationError, get_header, contains,
  validate_http_request,
}
use frontend_router_mcp.Requests.Checks.{OneOf, is_one_of_iff}
use frontend_router_mcp.Requests.Accepted.{IsAcceptable, validate_http_request_iff}
use frontend_router_mcp.ConnectionTracking.{WebSocketValidationConfig, WebSocketValidator}
use frontend_router_mcp.WebSocketUpgrade.{
  Network, UpgradeError, get_client_ip, or_fail, validate_web_socket_headers, validate_origin,
  any_allowed, validate_subprotocols, ip_connections, check_connection_limits, http_error,
  validate_upgrade,
}

abbrev pub AnyOf : List String → List String → Type 0
AnyOf allowed [] = ⊥
AnyOf allowed (p ∷ ps) = OneOf allowed p ⊎ AnyOf allowed ps

abbrev pub HasUpgradeHeaders : Env → Request → Type 0
HasUpgradeHeaders env r =
    (get_header env r.headers "Upgrade" ≡ "websocket")
    × (contains (get_header env r.headers "Connection") "Upgrade" ≡ true)
    × (get_header env r.headers "Sec-WebSocket-Version" ≡ "13")
    × (get_header env r.headers "Sec-WebSocket-Key" ≢ "")

pub headers_iff :
    (env : Env) (r : Request) → (validate_web_socket_headers env r ≡ none) ↔ HasUpgradeHeaders env r
unfolding validate_web_socket_headers
headers_iff env r = ground (
  arith,
  eq_iff (get_header env r.headers "Upgrade") "websocket",
  eq_iff (get_header env r.headers "Sec-WebSocket-Version") "13",
  eq_iff (get_header env r.headers "Sec-WebSocket-Key") "",
)

pub origin_iff :
    (env : Env) (config : WebSocketValidationConfig) (r : Request)
    → (validate_origin env config r ≡ none) ↔ (
        (get_header env r.headers "Origin" ≢ "")
        × OneOf config.allowed_origins (get_header env r.headers "Origin"))
unfolding validate_origin
origin_iff env config r =
    let origin = get_header env r.headers "Origin" in
    ground (arith, eq_iff origin "", is_one_of_iff config.allowed_origins origin)

any_allowed_iff : (allowed ps : List String) → (any_allowed allowed ps ≡ true) ↔ AnyOf allowed ps
unfolding any_allowed
any_allowed_iff allowed [] = ground arith
any_allowed_iff allowed (p ∷ ps) =
    ground (arith, any_allowed_iff allowed ps, is_one_of_iff allowed p)

subprotocols_iff :
    (config : WebSocketValidationConfig) (ps : List String)
    → (validate_subprotocols config ps ≡ none) ↔ ((ps ≡ []) ⊎ AnyOf config.allowed_subprotocols ps)
unfolding validate_subprotocols
subprotocols_iff config [] = ground (arith, any_allowed_iff config.allowed_subprotocols [])
subprotocols_iff config (p ∷ ps) =
    ground (arith, any_allowed_iff config.allowed_subprotocols (p ∷ ps))

or_fail_iff :
    {P Q : Type 0} (first rest : Option UpgradeError)
    → ((first ≡ none) ↔ P)
    → ((rest ≡ none) ↔ Q)
    → (or_fail first rest ≡ none) ↔ (P × Q)
unfolding or_fail
or_fail_iff (some e) rest p q = ground arith
or_fail_iff none rest p q = ground arith

if_enabled_iff :
    {P : Type 0} (enabled : Bool) (check : Option UpgradeError)
    → ((check ≡ none) ↔ P)
    → ((if enabled then check else none) ≡ none) ↔ (enabled ≡ true → P)
if_enabled_iff true check p = ground arith
if_enabled_iff false check p = ground arith

http_error-none : (o : Option RequestValidationError) → http_error o ≡ none → o ≡ none
http_error-none none h = refl
http_error-none (some e) h = cc

http_error_iff :
    (env : Env) (requests : RequestValidationConfig) (r : Request)
    → (http_error (validate_http_request env requests r) ≡ none) ↔ IsAcceptable env requests r
http_error_iff env requests r =
    let (accepts, accepted) = validate_http_request_iff env requests r in
    (λ h. accepts (http_error-none _ h), λ ok. rw (accepted ok) refl)

module _ {L : Type 0} where
  limits_iff :
      (wsv : WebSocketValidator L) (ip : String)
      → (check_connection_limits wsv ip ≡ none) ↔ (
          (length wsv.connections < wsv.config.max_connections)
          × (ip_connections ip wsv.connections < wsv.config.max_connections_per_ip))
  unfolding check_connection_limits
  limits_iff wsv ip = ground arith

module _ {L : Type 0} (env : Env) (net : Network) (requests : RequestValidationConfig) where
  -- The upgrades that are permitted, point by point.
  abbrev pub IsPermitted : WebSocketValidator L → Request → String → Type 0
  IsPermitted wsv r remote_addr =
      IsAcceptable env requests r
      × (HasUpgradeHeaders env r
          × ((wsv.config.require_origin ≡ true
                → (get_header env r.headers "Origin" ≢ "")
                  × OneOf wsv.config.allowed_origins (get_header env r.headers "Origin"))
              × ((wsv.config.validate_subprotocols ≡ true
                    → (net.subprotocols r ≡ [])
                      ⊎ AnyOf wsv.config.allowed_subprotocols (net.subprotocols r))
                  × ((length wsv.connections < wsv.config.max_connections)
                      × (ip_connections (get_client_ip env net r remote_addr) wsv.connections
                          < wsv.config.max_connections_per_ip)))))

  -- `ValidateUpgrade` returns no error exactly for the requests that `ValidateHTTPRequest` accepts,
  -- that carry the headers of an upgrade, whose origin is allowed and whose subprotocols, if they
  -- name any, include an allowed one (as far as the two are checked), while there are fewer
  -- connections than `MaxConnections`, and fewer than `MaxConnectionsPerIP` whose remote address
  -- begins with the address of the client.
  pub validate_upgrade_iff :
      (wsv : WebSocketValidator L) (r : Request) (remote_addr : String)
      → (validate_upgrade env net requests wsv r remote_addr ≡ none) ↔ IsPermitted wsv r remote_addr
  unfolding validate_upgrade
  validate_upgrade_iff wsv r remote_addr = or_fail_iff _ _ (http_error_iff env requests r) (
      or_fail_iff _ _ (headers_iff env r) (
        or_fail_iff _ _ (if_enabled_iff wsv.config.require_origin _ (origin_iff env wsv.config r)) (
          or_fail_iff _ _
            (if_enabled_iff wsv.config.validate_subprotocols _
              (subprotocols_iff wsv.config (net.subprotocols r)))
            (limits_iff wsv (get_client_ip env net r remote_addr)))))
