-- ===== src/Requests.antt =====
-- internal/validation/request_validation.go: the checks on HTTP requests, bodies and WebSocket
-- messages. A length is a number of bytes, and sizes are not negative. The messages of the errors are
-- left out, and so are the settings that no check reads and the timeout middleware.
pub mod Checks
pub mod Accepted
pub mod Bodies
pub mod Served
pub mod Messages
use Prim.Native.String.{len, find, slice}
use frontend_router_mcp.Base.{
  ℕ, zero, suc, ◌+◌, Bool, true, false, ◌&&◌, ◌||◌, if◌then◌else◌, ◌==◌, leb, ltb, List, [], ◌∷◌,
  Option, none, some, String, str_eq, ℤ, pos, negsuc, length,
}
use frontend_router_mcp.JsonStructure.{is_valid_json_structure}

pub record RequestValidationConfig : Type 0 where
  pub max_header_size : ℕ
  pub max_body_size : ℕ
  pub max_query_length : ℕ
  pub max_path_length : ℕ
  pub max_cookie_size : ℕ
  pub max_json_size : ℕ
  pub max_websocket_msg : ℕ
  pub allowed_methods : List String
  pub allowed_content_types : List String
  pub required_headers : List String
  pub blocked_user_agents : List String
  pub block_suspicious_requests : Bool
  pub validate_content_length : Bool
  pub require_content_type : Bool
  pub strict_host_validation : Bool
  pub allowed_hosts : List String

pub record RequestValidationError : Type 0 where
  pub code : ℕ
  pub field : String
  pub value : String

-- The tables of the standard library that the checks use: `strings.ToLower`, `strings.TrimSpace`,
-- `textproto.CanonicalMIMEHeaderKey` and `strconv.ParseInt`.
pub record Env : Type 0 where
  pub to_lower : String → String
  pub trim_space : String → String
  pub canonical : String → String
  pub parse_int : String → Option ℤ

-- A body ends after its bytes, or its reading fails there.
pub data Body : Type 0 where
  complete broken : List ℕ → Body

pub record Request : Type 0 where
  pub method : String
  pub path : String
  pub raw_query : String
  pub headers : List (String × List String)
  pub host : String
  pub cookies : List String
  pub body : Option Body

abbrev pub Outcome : Type 0
Outcome = Option RequestValidationError

abbrev refuse : ℕ → String → String → Outcome
refuse code field value = some (record { code = code; field = field; value = value })

-- `if err := a; err != nil { return err }; return b`
unfoldable pub or_else : Outcome → Outcome → Outcome
or_else (some e) b = some e
or_else none b = b

-- `strings.Contains`
abbrev pub contains : String → String → Bool
contains s t = leb (find s t) (len s)

unfoldable pub is_one_of : List String → String → Bool
is_one_of [] s = false
is_one_of (x ∷ xs) s = let rest = is_one_of xs s in if str_eq s x then true else rest

unfoldable pub contains_any : String → List String → Bool
contains_any s [] = false
contains_any s (p ∷ ps) = let rest = contains_any s ps in if contains s p then true else rest

abbrev first_of : List String → String
first_of [] = ""
first_of (v ∷ vs) = v

values_of : List (String × List String) → String → String
values_of [] key = ""
values_of ((name, values) ∷ rest) key =
    let later = values_of rest key in if str_eq name key then first_of values else later

-- `http.Header.Get`
unfoldable pub get_header : Env → List (String × List String) → String → String
unfolding values_of
get_header env headers key = values_of headers (env.canonical key)

unfoldable pub validate_method : RequestValidationConfig → String → Outcome
validate_method config method =
    if is_one_of config.allowed_methods method then none else refuse 405 "method" method

abbrev pub suspicious_patterns : List String
suspicious_patterns =
    "../" ∷ "..\\" ∷ "%2e%2e" ∷ "%2f" ∷ "%5c" ∷ "<script" ∷ "javascript:" ∷ "vbscript:" ∷ "eval("
    ∷ "alert(" ∷ "document.cookie" ∷ []

unfoldable pub validate_path : Env → RequestValidationConfig → String → Outcome
validate_path env config path =
    if ltb config.max_path_length (len path)
    then refuse 414 "path" ""
    else if config.block_suspicious_requests && contains_any (env.to_lower path) suspicious_patterns
    then refuse 400 "path" ""
    else none

unfoldable pub validate_query : RequestValidationConfig → String → Outcome
validate_query config query =
    if ltb config.max_query_length (len query) then refuse 414 "query" "" else none

unfoldable pub values_size : String → List String → ℕ
values_size name [] = 0
values_size name (v ∷ vs) = len name + len v + 4 + values_size name vs

unfoldable pub headers_size : List (String × List String) → ℕ
headers_size [] = 0
headers_size ((name, values) ∷ rest) = values_size name values + headers_size rest

unfoldable pub has_headers : Env → List (String × List String) → List String → Bool
has_headers env headers [] = true
has_headers env headers (required ∷ rest) =
    let others = has_headers env headers rest in
    if str_eq (get_header env headers required) "" then false else others

unfoldable pub validate_headers :
    Env → RequestValidationConfig → List (String × List String) → Outcome
validate_headers env config headers =
    if ltb config.max_header_size (headers_size headers)
    then refuse 431 "headers" ""
    else if has_headers env headers config.required_headers
    then none
    else refuse 400 "headers" ""

unfoldable pub validate_host : RequestValidationConfig → String → Outcome
validate_host config host =
    if config.strict_host_validation
    then (if is_one_of config.allowed_hosts host then none else refuse 400 "host" host)
    else none

-- The user agent in lower case against each blocked one in lower case.
unfoldable pub is_blocked_agent : Env → String → List String → Bool
is_blocked_agent env agent [] = false
is_blocked_agent env agent (blocked ∷ rest) =
    let others = is_blocked_agent env agent rest in
    if contains (env.to_lower agent) (env.to_lower blocked) then true else others

unfoldable pub validate_user_agent : Env → RequestValidationConfig → String → Outcome
validate_user_agent env config agent =
    if str_eq agent ""
    then refuse 400 "user-agent" ""
    else if is_blocked_agent env agent config.blocked_user_agents
    then refuse 403 "user-agent" ""
    else none

abbrev pub exceeds : ℤ → ℕ → Bool
exceeds (pos n) limit = ltb limit n
exceeds (negsuc n) limit = false

abbrev has_body : Option Body → Bool
has_body (some b) = true
has_body none = false

pub parsed_length : RequestValidationConfig → Option ℤ → Outcome
parsed_length config none = refuse 400 "content-length" ""
parsed_length config (some n) =
    if exceeds n config.max_body_size then refuse 413 "content-length" "" else none

unfoldable pub validate_content_length : Env → RequestValidationConfig → Request → Outcome
unfolding parsed_length
validate_content_length env config r =
    let content_length = get_header env r.headers "Content-Length" in
    if config.validate_content_length
    then (if str_eq content_length ""
        then (if has_body r.body then refuse 400 "content-length" "" else none)
        else parsed_length config (env.parse_int content_length))
    else none

-- `strings.TrimSpace(strings.Split(contentType, ";")[0])`; without a semicolon `find` is past the end.
abbrev pub main_type : Env → String → String
main_type env content_type = env.trim_space (slice content_type 0 (find content_type ";"))

unfoldable pub validate_content_type : Env → RequestValidationConfig → String → Outcome
validate_content_type env config content_type =
    if config.require_content_type
    then (if str_eq content_type ""
        then refuse 400 "content-type" ""
        else if is_one_of config.allowed_content_types (main_type env content_type)
        then none
        else refuse 415 "content-type" (main_type env content_type))
    else none

-- A cookie is the text that its `String` method gives.
unfoldable pub cookies_size : List String → ℕ
cookies_size [] = 0
cookies_size (c ∷ cs) = len c + cookies_size cs

unfoldable pub validate_cookies : RequestValidationConfig → List String → Outcome
validate_cookies config cookies =
    if ltb config.max_cookie_size (cookies_size cookies) then refuse 400 "cookies" "" else none

unfoldable pub validate_http_request : Env → RequestValidationConfig → Request → Outcome
validate_http_request env config r = or_else (validate_method config r.method) (
    or_else (validate_path env config r.path) (
      or_else (validate_query config r.raw_query) (
        or_else (validate_headers env config r.headers) (
          or_else (validate_host config r.host) (
            or_else (validate_user_agent env config (get_header env r.headers "User-Agent")) (
              or_else (validate_content_length env config r) (
                or_else (validate_content_type env config (get_header env r.headers "Content-Type"))
                  (validate_cookies config r.cookies))))))))
