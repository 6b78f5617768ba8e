-- ===== src/Requests/Checks.antt =====
-- The checks of internal/validation/request_validation.go, each by itself.
use Prim.Native.String.{len}
use frontend_router_mcp.Base.{
  ℕ, ◌≤◌, ◌≡◌, ◌≢◌, ◌↔◌, ◌⊎◌, arith, true, false, if◌then◌else◌, List, [], ◌∷◌, Option, none, some,
  String, eq_iff, ℤ, pos, negsuc, ltb, ◌&&◌,
}
use frontend_router_mcp.Requests.{
  RequestValidationConfig, Env, Request, Body, refuse, contains, is_one_of, contains_any,
  get_header, has_headers, headers_size, is_blocked_agent, cookies_size, suspicious_patterns,
  main_type, validate_method, validate_path, validate_query, validate_headers, validate_host,
  validate_user_agent, validate_content_length, validate_content_type, validate_cookies,
  parsed_length,
}

abbrev pub OneOf : List String → String → Type 0
OneOf [] s = ⊥
OneOf (x ∷ xs) s = (s ≡ x) ⊎ OneOf xs s

abbrev pub ContainsNone : String → List String → Type 0
ContainsNone s [] = Unit
ContainsNone s (p ∷ ps) = (contains s p ≡ false) × ContainsNone s ps

abbrev pub HasAll : Env → List (String × List String) → List String → Type 0
HasAll env headers [] = Unit
HasAll env headers (h ∷ hs) = (get_header env headers h ≢ "") × HasAll env headers hs

abbrev pub LacksAll : Env → String → List String → Type 0
LacksAll env agent [] = Unit
LacksAll env agent (b ∷ bs) =
    (contains (env.to_lower agent) (env.to_lower b) ≡ false) × LacksAll env agent bs

-- A Content-Length that is good enough: a number that is at most the limit.
abbrev pub IsLength : ℕ → Option ℤ → Type 0
IsLength limit none = ⊥
IsLength limit (some (pos n)) = n ≤ limit
IsLength limit (some (negsuc n)) = Unit

abbrev pub IsLengthHeader : Env → ℕ → String → Option Body → Type 0
IsLengthHeader env limit header body =
    ((header ≡ "") × (body ≡ none)) ⊎ ((header ≢ "") × IsLength limit (env.parse_int header))

pub is_one_of_iff : (xs : List String) (s : String) → (is_one_of xs s ≡ true) ↔ OneOf xs s
unfolding is_one_of
is_one_of_iff [] s = ground arith
is_one_of_iff (x ∷ xs) s = ground (arith, is_one_of_iff xs s, eq_iff s x)

pub contains_any_iff :
    (s : String) (ps : List String) → (contains_any s ps ≡ false) ↔ ContainsNone s ps
unfolding contains_any
contains_any_iff s [] = ground arith
contains_any_iff s (p ∷ ps) = ground (arith, contains_any_iff s ps)

has_headers_iff :
    (env : Env) (headers : List (String × List String)) (hs : List String)
    → (has_headers env headers hs ≡ true) ↔ HasAll env headers hs
unfolding has_headers
has_headers_iff env headers [] = ground arith
has_headers_iff env headers (h ∷ hs) =
    ground (arith, has_headers_iff env headers hs, eq_iff (get_header env headers h) "")

is_blocked_agent_iff :
    (env : Env) (agent : String) (bs : List String)
    → (is_blocked_agent env agent bs ≡ false) ↔ LacksAll env agent bs
unfolding is_blocked_agent
is_blocked_agent_iff env agent [] = ground arith
is_blocked_agent_iff env agent (b ∷ bs) = ground (arith, is_blocked_agent_iff env agent bs)

pub method_iff :
    (config : RequestValidationConfig) (m : String)
    → (validate_method config m ≡ none) ↔ OneOf config.allowed_methods m
unfolding validate_method
method_iff config m = ground (arith, is_one_of_iff config.allowed_methods m)

path_with_iff :
    (config : RequestValidationConfig) (p lower : String) (ps : List String)
    → ((if ltb config.max_path_length (len p)
          then refuse 414 "path" ""
          else if config.block_suspicious_requests && contains_any lower ps
          then refuse 400 "path" ""
          else none)
        ≡ none)
      ↔ ((len p ≤ config.max_path_length)
          × (config.block_suspicious_requests ≡ true → ContainsNone lower ps))
path_with_iff config p lower ps = ground (arith, contains_any_iff lower ps)

pub path_iff :
    (env : Env) (config : RequestValidationConfig) (p : String)
    → (validate_path env config p ≡ none) ↔ (
        (len p ≤ config.max_path_length)
        × (config.block_suspicious_requests ≡ true
            → ContainsNone (env.to_lower p) suspicious_patterns))
unfolding validate_path
path_iff env config p = path_with_iff config p (env.to_lower p) suspicious_patterns

pub headers_iff :
    (env : Env) (config : RequestValidationConfig) (hs : List (String × List String))
    → (validate_headers env config hs ≡ none)
      ↔ ((headers_size hs ≤ config.max_header_size) × HasAll env hs config.required_headers)
unfolding validate_headers
headers_iff env config hs = ground (arith, has_headers_iff env hs config.required_headers)

pub host_iff :
    (config : RequestValidationConfig) (host : String)
    → (validate_host config host ≡ none)
      ↔ (config.strict_host_validation ≡ true → OneOf config.allowed_hosts host)
unfolding validate_host
host_iff config host = ground (arith, is_one_of_iff config.allowed_hosts host)

pub agent_iff :
    (env : Env) (config : RequestValidationConfig) (agent : String)
    → (validate_user_agent env config agent ≡ none)
      ↔ ((agent ≢ "") × LacksAll env agent config.blocked_user_agents)
unfolding validate_user_agent
agent_iff env config agent =
    ground (arith, is_blocked_agent_iff env agent config.blocked_user_agents, eq_iff agent "")

parsed_length_iff :
    (config : RequestValidationConfig) (o : Option ℤ)
    → (parsed_length config o ≡ none) ↔ IsLength config.max_body_size o
unfolding parsed_length
parsed_length_iff config none = ground arith
parsed_length_iff config (some (pos n)) = ground arith
parsed_length_iff config (some (negsuc n)) = ground arith

pub length_iff :
    (env : Env) (config : RequestValidationConfig) (r : Request)
    → (validate_content_length env config r ≡ none) ↔ (
        config.validate_content_length ≡ true
        → IsLengthHeader env config.max_body_size
            (get_header env r.headers "Content-Length")
            r.body)
unfolding validate_content_length
length_iff env config r = ground (
  arith,
  parsed_length_iff config (env.parse_int (get_header env r.headers "Content-Length")),
  eq_iff (get_header env r.headers "Content-Length") "",
)

pub type_iff :
    (env : Env) (config : RequestValidationConfig) (t : String)
    → (validate_content_type env config t ≡ none) ↔ (
        config.require_content_type ≡ true
        → (t ≢ "") × OneOf config.allowed_content_types (main_type env t))
unfolding validate_content_type
type_iff env config t =
    ground (arith, is_one_of_iff config.allowed_content_types (main_type env t), eq_iff t "")

pub query_iff :
    (config : RequestValidationConfig) (q : String)
    → (validate_query config q ≡ none) ↔ (len q ≤ config.max_query_length)
unfolding validate_query
query_iff config q = ground arith

pub cookies_iff :
    (config : RequestValidationConfig) (cs : List String)
    → (validate_cookies config cs ≡ none) ↔ (cookies_size cs ≤ config.max_cookie_size)
unfolding validate_cookies
cookies_iff config cs = ground arith
