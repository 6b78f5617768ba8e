-- ===== src/SecurityHeaders.antt =====
-- internal/validation/security_headers.go: the checks of origins and referers, CORS, and the headers
-- that are set on the way. The two libraries that `Middleware` wraps around the next handler
-- (unrolled/secure and gorilla/csrf) are arguments: what each does with a request is to answer it or to
-- call the handler that it wraps. A reply is its status and the headers set
-- so far; its text is left out. Header names that are written in the source are canonical.
pub mod Cors
pub mod Admission
pub mod Upgrades
use Prim.Native.String.{◌++◌}
use text.Mathlib.Text.{starts_with}
use frontend_router_mcp.Base.{
  ℕ, Bool, true, false, not, ◌&&◌, ◌||◌, if◌then◌else◌, List, [], ◌∷◌, Option, none, some, String,
  str_eq, Dict, insert,
}
use frontend_router_mcp.Requests.{Env, Request, get_header, is_one_of}

-- The fields of the configuration that these functions read.
pub record SecurityHeadersConfig : Type 0 where
  pub enable_csrf : Bool
  pub enable_cors : Bool
  pub cors_allow_origins : List String
  pub cors_allow_methods : List String
  pub cors_allow_headers : List String
  pub cors_expose_headers : List String
  pub cors_max_age : ℕ
  pub cors_allow_credentials : Bool
  pub custom_headers : Dict String
  pub validate_origin : Bool
  pub validate_referer : Bool
  pub block_mixed_content : Bool
  pub is_development : Bool

-- `http.Error`, `WriteHeader`, or the call of the next handler.
pub data Reply : Type 0 where
  http_error : ℕ → Dict String → Reply
  answered : ℕ → Dict String → Reply
  forwarded : Dict String → Reply

-- `strings.Join`
unfoldable pub join : List String → String → String
join [] sep = ""
join (s ∷ []) sep = s
join (s ∷ t ∷ ts) sep = s ++ sep ++ join (t ∷ ts) sep

-- `for name, value := range CustomHeaders { w.Header().Set(name, value) }`
unfoldable pub set_all : Env → Dict String → Dict String → Dict String
set_all env [] headers = headers
set_all env ((name, value) ∷ rest) headers =
    set_all env rest (insert (env.canonical name) value headers)

unfoldable pub add_custom_headers :
    Env → SecurityHeadersConfig → Request → Dict String → Dict String
add_custom_headers env config r headers =
    let custom = set_all env config.custom_headers headers in
    let mixed =
      if config.block_mixed_content
      then insert "Content-Security-Policy" "upgrade-insecure-requests" custom
      else custom in
    let named = insert "Server" "Frontend-Router-MCP" mixed in
    if starts_with r.path "/api/"
    then insert "Expires" "0" (
        insert "Pragma" "no-cache"
          (insert "Cache-Control" "no-store, no-cache, must-revalidate, proxy-revalidate" named))
    else named

-- `validateOrigin`: whether there is no error.
unfoldable pub validate_origin : Env → SecurityHeadersConfig → Request → Bool
validate_origin env config r =
    let origin = get_header env r.headers "Origin" in
    if str_eq origin "" then true else is_one_of config.cors_allow_origins origin

unfoldable pub has_prefix_of : List String → String → Bool
has_prefix_of [] s = false
has_prefix_of (allowed ∷ rest) s =
    let others = has_prefix_of rest s in if starts_with s allowed then true else others

unfoldable pub changes_state : String → Bool
changes_state method = str_eq method "POST" || str_eq method "PUT" || str_eq method "DELETE"

unfoldable pub validate_referer : Env → SecurityHeadersConfig → Request → Bool
validate_referer env config r =
    let referer = get_header env r.headers "Referer" in
    if str_eq referer ""
    then true
    else if changes_state r.method
    then has_prefix_of config.cors_allow_origins referer
    else true

unfoldable pub allow_credentials : SecurityHeadersConfig → Dict String → Dict String
allow_credentials config headers =
    if config.cors_allow_credentials
    then insert "Access-Control-Allow-Credentials" "true" headers
    else headers

-- `fmt.Sprintf("%d", n)` is `format`.
unfoldable pub handle_cors_preflight :
    Env → (ℕ → String) → SecurityHeadersConfig → Request → Dict String → Reply
unfolding allow_credentials
handle_cors_preflight env format config r headers =
    let origin = get_header env r.headers "Origin" in
    if is_one_of config.cors_allow_origins origin
    then answered 200 (
        allow_credentials config (
          insert "Access-Control-Max-Age" (format config.cors_max_age) (
            insert "Access-Control-Allow-Headers" (join config.cors_allow_headers ", ") (
              insert "Access-Control-Allow-Methods" (join config.cors_allow_methods ", ")
                (insert "Access-Control-Allow-Origin" origin headers)))))
    else answered 403 headers

unfoldable pub add_cors_headers : Env → SecurityHeadersConfig → Request → Dict String → Dict String
unfolding allow_credentials
add_cors_headers env config r headers =
    let origin = get_header env r.headers "Origin" in
    if is_one_of config.cors_allow_origins origin
    then allow_credentials config (
        insert "Access-Control-Expose-Headers" (join config.cors_expose_headers ", ")
          (insert "Access-Control-Allow-Origin" origin headers))
    else headers

-- The handler that `Middleware` returns, up to its call of the handler that it has wrapped.
unfoldable pub middleware :
    Env → (ℕ → String) → SecurityHeadersConfig → Request → Dict String → Reply
middleware env format config r headers =
    let headers' = add_custom_headers env config r headers in
    if config.validate_origin && not (validate_origin env config r)
    then http_error 403 headers'
    else if config.validate_referer && not (validate_referer env config r)
    then http_error 403 headers'
    else if config.enable_cors && str_eq r.method "OPTIONS"
    then handle_cors_preflight env format config r headers'
    else if config.enable_cors
    then forwarded (add_cors_headers env config r headers')
    else forwarded headers'

-- A library's handler answers by itself, or calls the handler that it wraps.
pub data Guarded : Type 0 where
  refuses : ℕ → Dict String → Guarded
  calls : Dict String → Guarded

pub record Guards : Type 0 where
  pub secure : Request → Dict String → Guarded
  pub csrf : Option (Request → Dict String → Guarded)

unfoldable pub then_next : Guarded → (Dict String → Reply) → Reply
then_next (refuses code headers) next = answered code headers
then_next (calls headers) next = next headers

-- `handler = shm.csrfMiddleware(handler)`, if CSRF is enabled and there is one.
unfoldable pub with_csrf : SecurityHeadersConfig → Guards → Request → Dict String → Reply
unfolding then_next
with_csrf config guards r headers =
    if config.enable_csrf
    then elim guards.csrf [
      | some csrf ↦ then_next (csrf r headers) (λ h. forwarded h)
      | none ↦ forwarded headers
    ]
    else forwarded headers

-- `handler = shm.secureMiddleware.Handler(handler)`
unfoldable pub wrapped : SecurityHeadersConfig → Guards → Request → Dict String → Reply
unfolding then_next with_csrf
wrapped config guards r headers =
    then_next (guards.secure r headers) (λ h. with_csrf config guards r h)

call_wrapped : SecurityHeadersConfig → Guards → Request → Reply → Reply
unfolding wrapped
call_wrapped config guards r (http_error code headers) = http_error code headers
call_wrapped config guards r (answered code headers) = answered code headers
call_wrapped config guards r (forwarded headers) = wrapped config guards r headers

-- `Middleware`: `forwarded` is the call of the next handler itself.
unfoldable pub whole_middleware :
    Env → (ℕ → String) → SecurityHeadersConfig → Guards → Request → Dict String → Reply
unfolding middleware call_wrapped
whole_middleware env format config guards r headers =
    call_wrapped config guards r (middleware env format config r headers)

-- The errors of `validateWebSocketUpgrade`.
pub data UpgradeError : Type 0 where
  upgrade_header connection_header unsupported_version missing_key : UpgradeError
  missing_origin origin_not_allowed : UpgradeError

unfoldable pub validate_web_socket_upgrade :
    Env → SecurityHeadersConfig → Request → Option UpgradeError
validate_web_socket_upgrade env config r =
    let origin = get_header env r.headers "Origin" in
    if not (str_eq (get_header env r.headers "Upgrade") "websocket")
    then some upgrade_header
    else if not (str_eq (get_header env r.headers "Connection") "Upgrade")
    then some connection_header
    else if not (str_eq (get_header env r.headers "Sec-WebSocket-Version") "13")
    then some unsupported_version
    else if str_eq (get_header env r.headers "Sec-WebSocket-Key") ""
    then some missing_key
    else if config.validate_origin
    then (if str_eq origin ""
        then some missing_origin
        else if is_one_of config.cors_allow_origins origin
        then none
        else some origin_not_allowed)
    else none

unfoldable pub add_web_socket_security_headers :
    Env → SecurityHeadersConfig → Dict String → Dict String
add_web_socket_security_headers env config headers = set_all env config.custom_headers (
    insert "Referrer-Policy" "strict-origin-when-cross-origin"
      (insert "X-Frame-Options" "DENY" (insert "X-Content-Type-Options" "nosniff" headers)))

-- `WebSocketUpgradeMiddleware`
unfoldable pub web_socket_upgrade_middleware :
    Env → SecurityHeadersConfig → Request → Dict String → Reply
unfolding add_web_socket_security_headers
web_socket_upgrade_middleware env config r headers =
    elim (validate_web_socket_upgrade env config r) [
      | some err ↦ http_error 400 headers
      | none ↦ forwarded (add_web_socket_security_headers env config headers)
    ]
