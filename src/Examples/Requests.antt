-- ===== src/Examples/Requests.antt =====
-- Requests at concrete inputs.
use frontend_router_mcp.Base.{◌≡◌, ◌↔◌, refl, true, [], ◌∷◌, none, some, pos, str_eq, if◌then◌else◌}
use frontend_router_mcp.JsonStructure.{
  open_brace, close_brace, is_valid_json_structure, scan_from, scan_byte,
}
use frontend_router_mcp.Requests.{
  RequestValidationConfig, Env, Request, complete, get_header, or_else, validate_http_request,
  validate_method, validate_path, validate_query, validate_headers, validate_host,
  validate_user_agent, validate_content_length, validate_content_type, validate_cookies, is_one_of,
  contains_any, has_headers, headers_size, values_size, is_blocked_agent, cookies_size,
}
use frontend_router_mcp.Requests.Accepted.{IsAcceptable, validate_http_request_iff}
use frontend_router_mcp.Requests.Bodies.{
  IsFine, served, validate_request_body, with_size_limit, read_limited, validate_bytes,
  validate_json_body,
}
use frontend_router_mcp.Requests.Served.{drained, with_size_limit-drained}

-- Texts that are in lower case and trimmed, header names that are canonical, and one number.
abbrev pub plain : Env
plain = record {
  to_lower = λ s. s;
  trim_space = λ s. s;
  canonical = λ s. s;
  parse_int = λ s. if str_eq s "2" then some (pos 2) else none;
}

abbrev pub small : RequestValidationConfig
small = record {
  max_header_size = 200;
  max_body_size = 10;
  max_query_length = 10;
  max_path_length = 10;
  max_cookie_size = 10;
  max_json_size = 10;
  max_websocket_msg = 10;
  allowed_methods = "GET" ∷ "POST" ∷ [];
  allowed_content_types = "application/json" ∷ [];
  required_headers = "User-Agent" ∷ [];
  blocked_user_agents = "bot" ∷ [];
  block_suspicious_requests = true;
  validate_content_length = true;
  require_content_type = true;
  strict_host_validation = true;
  allowed_hosts = "localhost" ∷ [];
}

abbrev pub post : Request
post = record {
  method = "POST";
  path = "/ask";
  raw_query = "";
  headers =
      ("User-Agent", "curl" ∷ [])
      ∷ ("Content-Type", "application/json" ∷ [])
      ∷ ("Content-Length", "2" ∷ [])
      ∷ [];
  host = "localhost";
  cookies = [];
  body = some (complete (open_brace ∷ close_brace ∷ []));
}

-- A request without a body as the server hands it over: the body is there, and empty.
abbrev get : Request
get = record {
  method = "GET";
  path = "/";
  raw_query = "";
  headers = ("User-Agent", "curl" ∷ []) ∷ [];
  host = "localhost";
  cookies = [];
  body = some (complete []);
}

validate_http_request_iff_example :
    (validate_http_request plain small post ≡ none) ↔ IsAcceptable plain small post
validate_http_request_iff_example = validate_http_request_iff plain small post

post_served : with_size_limit plain small post ≡ served (some (complete []))
unfolding with_size_limit validate_http_request validate_request_body get_header or_else
    validate_method validate_path validate_query validate_headers validate_host validate_user_agent
    validate_content_length validate_content_type validate_cookies read_limited is_one_of
    contains_any has_headers headers_size values_size is_blocked_agent cookies_size validate_bytes
    validate_json_body is_valid_json_structure scan_from scan_byte
post_served = refl

with_size_limit-drained_example :
    IsAcceptable plain small post
    × IsFine small (get_header plain post.headers "Content-Type") post.body
    × (some (complete []) ≡ drained post.body)
with_size_limit-drained_example =
    with_size_limit-drained plain small post (some (complete [])) post_served
