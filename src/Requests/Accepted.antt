-- ===== src/Requests/Accepted.antt =====
-- `ValidateHTTPRequest` of internal/validation/request_validation.go as a whole.
use Prim.Native.String.{len}
use frontend_router_mcp.Base.{◌≤◌, ◌≡◌, ◌≢◌, ◌↔◌, arith, true, none, some}
use frontend_router_mcp.Requests.{
  RequestValidationConfig, Env, Request, Outcome, or_else, get_header, headers_size, cookies_size,
  suspicious_patterns, main_type, validate_http_request,
}
use frontend_router_mcp.Requests.Checks.{
  OneOf, ContainsNone, HasAll, LacksAll, IsLengthHeader, method_iff, path_iff, headers_iff,
  host_iff, agent_iff, length_iff, type_iff, query_iff, cookies_iff,
}

-- What an acceptable request is, point by point.
pub record IsAcceptable (env : Env) (config : RequestValidationConfig) (r : Request) : Type 0 where
  pub method_allowed : OneOf config.allowed_methods r.method
  pub path_short : len r.path ≤ config.max_path_length
  pub path_clean :
      config.block_suspicious_requests ≡ true
      → ContainsNone (env.to_lower r.path) suspicious_patterns
  pub query_short : len r.raw_query ≤ config.max_query_length
  pub headers_small : headers_size r.headers ≤ config.max_header_size
  pub headers_present : HasAll env r.headers config.required_headers
  pub host_allowed : config.strict_host_validation ≡ true → OneOf config.allowed_hosts r.host
  pub agent_present : get_header env r.headers "User-Agent" ≢ ""
  pub agent_allowed :
      LacksAll env (get_header env r.headers "User-Agent") config.blocked_user_agents
  pub length_allowed :
      config.validate_content_length ≡ true
      → IsLengthHeader env config.max_body_size (get_header env r.headers "Content-Length") r.body
  pub type_present :
      config.require_content_type ≡ true → get_header env r.headers "Content-Type" ≢ ""
  pub type_allowed :
      config.require_content_type ≡ true
      → OneOf config.allowed_content_types (main_type env (get_header env r.headers "Content-Type"))
  pub cookies_small : cookies_size r.cookies ≤ config.max_cookie_size

or_else_iff : (a b : Outcome) → (or_else a b ≡ none) ↔ ((a ≡ none) × (b ≡ none))
unfolding or_else
or_else_iff none b = ground arith
or_else_iff (some e) b = ground arith

pub accepted-IsAcceptable :
    (env : Env) (config : RequestValidationConfig) (r : Request)
    → validate_http_request env config r ≡ none
    → IsAcceptable env config r
unfolding validate_http_request
accepted-IsAcceptable env config r h =
    let (m, h1) = (or_else_iff _ _).0 h in
    let (p, h2) = (or_else_iff _ _).0 h1 in
    let (q, h3) = (or_else_iff _ _).0 h2 in
    let (hs, h4) = (or_else_iff _ _).0 h3 in
    let (ho, h5) = (or_else_iff _ _).0 h4 in
    let (ua, h6) = (or_else_iff _ _).0 h5 in
    let (cl, h7) = (or_else_iff _ _).0 h6 in
    let (ct, ck) = (or_else_iff _ _).0 h7 in
    let path = (path_iff env config r.path).0 p in
    let headers = (headers_iff env config r.headers).0 hs in
    let agent = (agent_iff env config (get_header env r.headers "User-Agent")).0 ua in
    let types = (type_iff env config (get_header env r.headers "Content-Type")).0 ct in
    record {
      method_allowed = (method_iff config r.method).0 m;
      path_short = path.0;
      path_clean = path.1;
      query_short = (query_iff config r.raw_query).0 q;
      headers_small = headers.0;
      headers_present = headers.1;
      host_allowed = (host_iff config r.host).0 ho;
      agent_present = agent.0;
      agent_allowed = agent.1;
      length_allowed = (length_iff env config r).0 cl;
      type_present = λ t. (types t).0;
      type_allowed = λ t. (types t).1;
      cookies_small = (cookies_iff config r.cookies).0 ck;
    }

join : {a b : Outcome} → a ≡ none → b ≡ none → or_else a b ≡ none
join {a} {b} p q = (or_else_iff a b).1 (p, q)

IsAcceptable-accepted :
    (env : Env) (config : RequestValidationConfig) (r : Request)
    → IsAcceptable env config r
    → validate_http_request env config r ≡ none
unfolding validate_http_request
IsAcceptable-accepted env config r v = join ((method_iff config r.method).1 v.method_allowed) (
    join ((path_iff env config r.path).1 (v.path_short, v.path_clean)) (
      join ((query_iff config r.raw_query).1 v.query_short) (
        join ((headers_iff env config r.headers).1 (v.headers_small, v.headers_present)) (
          join ((host_iff config r.host).1 v.host_allowed) (
            join
              ((agent_iff env config (get_header env r.headers "User-Agent")).1
                (v.agent_present, v.agent_allowed))
              (join ((length_iff env config r).1 v.length_allowed) (
                join
                  ((type_iff env config (get_header env r.headers "Content-Type")).1
                    (λ t. (v.type_present t, v.type_allowed t)))
                  ((cookies_iff config r.cookies).1 v.cookies_small))))))))

-- `ValidateHTTPRequest` returns no error exactly for the requests that are acceptable in every point:
-- method, path, query, headers, host, user agent, length, type and cookies.
pub validate_http_request_iff :
    (env : Env) (config : RequestValidationConfig) (r : Request)
    → (validate_http_request env config r ≡ none) ↔ IsAcceptable env config r
validate_http_request_iff env config r =
    (accepted-IsAcceptable env config r, IsAcceptable-accepted env config r)
