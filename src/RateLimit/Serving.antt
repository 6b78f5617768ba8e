-- ===== src/RateLimit/Serving.antt =====
-- `HTTPMiddleware`, `WebSocketMiddleware` and the statistics of internal/validation/ratelimit.go. The query
-- of a URL is an argument. `WebSocketMiddleware` is cut in two, since other requests come while its
-- handler runs.
pub mod Ledger
use Prim.Native.String.{◌++◌ as str_append}
use frontend_router_mcp.Base.{
  ℕ, not, if◌then◌else◌, Option, none, some, String, str_eq, Dict, [], ◌∷◌, insert, lookup,
}
use frontend_router_mcp.Requests.{Env, Request, get_header}
use frontend_router_mcp.WebSocketUpgrade.{Network, get_client_ip}
use frontend_router_mcp.RateLimit.{
  Rate, ClientRateLimit, RateLimiter, RateError, allow_request, add_connection, remove_connection,
}

-- A request with its remote address, and `r.URL.Query().Get`.
pub record Arrival : Type 0 where
  pub request : Request
  pub remote_addr : String
  pub query : String → String

unfoldable pub get_client_id : Env → Network → Arrival → String
get_client_id env net a =
    if not (str_eq (get_header env a.request.headers "X-Client-ID") "")
    then get_header env a.request.headers "X-Client-ID"
    else if not (str_eq (a.query "client_id") "")
    then a.query "client_id"
    else str_append "ip-" (get_client_ip env net a.request a.remote_addr)

unfoldable pub status_of : Option RateError → Option ℕ
status_of (some e) = some 429
status_of none = none

module _ {L : Type 0} (rate : Rate L) (env : Env) (net : Network) where
  -- The limiter, and the status of a refusal; `none` if the next handler is called.
  unfoldable pub http_middleware : RateLimiter L → Arrival → ℕ → RateLimiter L × Option ℕ
  unfolding status_of
  http_middleware rl a now =
      let (rl', refused) =
        allow_request rate rl (get_client_id env net a)
          (get_client_ip env net a.request a.remote_addr) now in
      (rl', status_of refused)

  -- `WebSocketMiddleware` until its handler is called.
  unfoldable pub begin_serving : RateLimiter L → Arrival → ℕ → RateLimiter L × Option ℕ
  unfolding status_of
  begin_serving rl a now =
      let (rl', refused) =
        add_connection rate rl (get_client_id env net a)
          (get_client_ip env net a.request a.remote_addr) now in
      (rl', status_of refused)

  -- The deferred call, once the handler has returned.
  unfoldable pub end_serving : RateLimiter L → Arrival → ℕ → RateLimiter L
  end_serving rl a now = remove_connection rl (get_client_id env net a) now

module _ {L : Type 0} where
  -- The copy of a client that is handed out; its limiters are nil.
  copied : ClientRateLimit L → ClientRateLimit (Option L)
  copied c = record {
    id = c.id;
    ip = c.ip;
    request_limiter = none;
    message_limiter = none;
    connection_count = c.connection_count;
    last_seen = c.last_seen;
    total_requests = c.total_requests;
    total_messages = c.total_messages;
    violation_count = c.violation_count;
    is_blocked = c.is_blocked;
    blocked_until = c.blocked_until;
    created_at = c.created_at;
  }

  unfoldable pub get_client_stats : RateLimiter L → String → Option (ClientRateLimit (Option L))
  unfolding copied
  get_client_stats rl client_id = elim (lookup client_id rl.clients) [
    | some c ↦ some (copied c)
    | none ↦ none
  ]

  copy_all :
      Dict (ClientRateLimit L)
      → Dict (ClientRateLimit (Option L))
      → Dict (ClientRateLimit (Option L))
  unfolding copied
  copy_all [] stats = stats
  copy_all ((id, c) ∷ m) stats = copy_all m (insert id (copied c) stats)

  unfoldable pub get_all_clients_stats : RateLimiter L → Dict (ClientRateLimit (Option L))
  unfolding copy_all
  get_all_clients_stats rl = copy_all rl.clients []
