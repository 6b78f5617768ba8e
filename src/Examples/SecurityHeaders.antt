-- ===== src/Examples/SecurityHeaders.antt =====
-- Security headers at concrete inputs: one allowed origin, and a custom header.
use frontend_router_mcp.Base.{
  ℕ, ◌≡◌, ◌↔◌, refl, true, false, String, [], ◌∷◌, none, some, lookup, insert, Dict, str_eq,
  if◌then◌else◌,
}
use frontend_router_mcp.Requests.{Request, get_header, is_one_of}
use frontend_router_mcp.WebSocketUpgrade as WebSocketUpgrade
use frontend_router_mcp.SecurityHeaders.{
  SecurityHeadersConfig, middleware, validate_origin, validate_referer, changes_state,
  has_prefix_of, Guarded, refuses, calls, Guards, whole_middleware, wrapped, with_csrf, then_next,
}
use frontend_router_mcp.SecurityHeaders.Cors.{
  IsGrant, Lacks, headers_of, allow_origin, allow_credentials_header, middleware-IsGrant,
}
use frontend_router_mcp.SecurityHeaders.Admission.{
  IsAdmitted, is_forwarded, Passes, whole_middleware-IsAdmitted,
}
use frontend_router_mcp.Examples.Requests.{plain}

abbrev shown : ℕ → String
shown n = "86400"

abbrev config : SecurityHeadersConfig
config = record {
  enable_csrf = true;
  enable_cors = true;
  cors_allow_origins = "https://localhost" ∷ [];
  cors_allow_methods = "GET" ∷ "POST" ∷ [];
  cors_allow_headers = "Content-Type" ∷ [];
  cors_expose_headers = "X-JSON" ∷ [];
  cors_max_age = 86400;
  cors_allow_credentials = true;
  custom_headers = ("X-Team", "router") ∷ [];
  validate_origin = true;
  validate_referer = true;
  block_mixed_content = true;
  is_development = false;
}

-- The referer is of another site whose name begins like the allowed origin.
abbrev foreign : Request
foreign = record {
  method = "POST";
  path = "/api/ask";
  raw_query = "";
  headers =
      ("Origin", "https://localhost" ∷ [])
      ∷ ("Referer", "https://localhost.example.com/page" ∷ [])
      ∷ ("Upgrade", "websocket" ∷ [])
      ∷ ("Connection", "keep-alive, Upgrade" ∷ [])
      ∷ ("Sec-WebSocket-Version", "13" ∷ [])
      ∷ ("Sec-WebSocket-Key", "x" ∷ [])
      ∷ [];
  host = "localhost";
  cookies = [];
  body = none;
}

none_yet : lookup {V = String} allow_origin [] ≡ none
unfolding lookup
none_yet = refl

no_credentials_yet : lookup {V = String} allow_credentials_header [] ≡ none
unfolding lookup
no_credentials_yet = refl

custom-Lacks : Lacks plain config.custom_headers allow_origin
custom-Lacks = (λ e. cc, tt)

custom-Lacks_credentials : Lacks plain config.custom_headers allow_credentials_header
custom-Lacks_credentials = (λ e. cc, tt)

middleware-IsGrant_example :
    IsGrant plain config foreign [] (headers_of (middleware plain shown config foreign []))
middleware-IsGrant_example =
    middleware-IsGrant plain config foreign [] shown custom-Lacks custom-Lacks_credentials none_yet
      no_credentials_yet

-- A CSRF check that wants a token in a header.
abbrev with_token : Request → Dict String → Guarded
with_token r headers =
    if str_eq (get_header plain r.headers "X-CSRF-Token") ""
    then refuses 403 headers
    else calls headers

abbrev guards : Guards
guards = record {
  secure = λ r headers. calls (insert "X-Frame-Options" "DENY" headers);
  csrf = some with_token;
}

whole_middleware-IsAdmitted_example :
    (is_forwarded (whole_middleware plain shown config guards foreign []) ≡ true) ↔ (
      IsAdmitted plain config foreign
      × Passes plain config foreign guards (headers_of (middleware plain shown config foreign [])))
whole_middleware-IsAdmitted_example =
    whole_middleware-IsAdmitted plain config foreign shown guards []

-- Without a token the request is admitted, and refused by the CSRF check.
foreign_without_token : is_forwarded (whole_middleware plain shown config guards foreign []) ≡ false
unfolding whole_middleware middleware validate_origin get_header is_one_of validate_referer
    changes_state has_prefix_of wrapped with_csrf then_next
foreign_without_token = refl

foreign_forwarded : is_forwarded (middleware plain shown config foreign []) ≡ true
unfolding middleware validate_origin get_header is_one_of validate_referer changes_state
    has_prefix_of
foreign_forwarded = refl
