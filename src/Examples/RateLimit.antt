-- ===== src/Examples/RateLimit.antt =====
-- The rate limiter at concrete inputs. A bucket is the number of tokens left; it is never filled up.
use frontend_router_mcp.Base.{
  ℕ, zero, suc, ◌≤◌, ◌≡◌, refl, Bool, true, false, List, [], ◌∷◌, lookup, insert, IsKeyed, String,
  none, some, str_eq, if◌then◌else◌,
}
use frontend_router_mcp.RateLimit.{
  Rate, RateLimitConfig, ClientRateLimit, RateLimiter, new_rate_limiter, get_total_connections,
  add_connection, new_client, client_or_new, count_connections_for_ip,
}
use frontend_router_mcp.RateLimit.Serving.{
  Arrival, get_client_id, begin_serving, end_serving, status_of,
}
use frontend_router_mcp.RateLimit.Serving.Ledger.{
  History, starts, begins, turned_away, ends, reported, occurrences, reported-served,
}
use frontend_router_mcp.Requests.{get_header}
use frontend_router_mcp.WebSocketUpgrade.{Network, get_client_ip}
use frontend_router_mcp.Examples.Requests.{plain}
use frontend_router_mcp.RateLimit.History.{
  Call, adds, requests, removes, run, connections_within_limit,
}

abbrev take : ℕ → Bool × ℕ
take zero = (false, zero)
take (suc n) = (true, n)

abbrev tokens : Rate ℕ
tokens = record { new_limiter = λ rps burst. burst; allow = λ now left. take left }

abbrev small : RateLimitConfig
small = record {
  global_rps = 10;
  global_burst = 100;
  client_rps = 1;
  client_burst = 2;
  max_connections = 2;
  max_connections_per_ip = 1;
  max_message_rate = 1;
  max_message_burst = 1;
  client_expiry = 50;
  auto_block_threshold = 3;
  auto_block_duration = 40;
}

-- A client with one connection, no tokens and two violations, and one that is blocked until 70.
abbrev alice : ClientRateLimit ℕ
alice = record {
  id = "alice";
  ip = "10.0.0.1";
  request_limiter = 0;
  message_limiter = 1;
  connection_count = 1;
  last_seen = 5;
  total_requests = 2;
  total_messages = 0;
  violation_count = 2;
  is_blocked = false;
  blocked_until = 0;
  created_at = 1;
}

abbrev mallory : ClientRateLimit ℕ
mallory = record {
  id = "mallory";
  ip = "10.0.0.2";
  request_limiter = 0;
  message_limiter = 1;
  connection_count = 0;
  last_seen = 6;
  total_requests = 2;
  total_messages = 0;
  violation_count = 3;
  is_blocked = true;
  blocked_until = 70;
  created_at = 2;
}

abbrev limiter : RateLimiter ℕ
limiter = record {
  clients = ("alice", alice) ∷ ("mallory", mallory) ∷ [];
  global = 90;
  config = small;
}

-- Two connections of one client, one too many, and one of them closed.
abbrev calls : List Call
calls =
    adds "alice" "10.0.0.1" 1
    ∷ adds "bob" "10.0.0.3" 2
    ∷ adds "carol" "10.0.0.4" 3
    ∷ removes "bob" 4
    ∷ requests "carol" "10.0.0.4" 5
    ∷ []

connections_within_limit_example :
    get_total_connections (run tokens (new_rate_limiter tokens small) calls).clients ≤ 2
connections_within_limit_example = connections_within_limit tokens small calls

-- alice is known under 10.0.0.1, and connects from 10.0.0.9.
abbrev moved : RateLimiter ℕ
moved = (add_connection tokens limiter "alice" "10.0.0.9" 9).0

limiter-IsKeyed : IsKeyed limiter.clients
unfolding lookup
limiter-IsKeyed = (refl, (refl, tt))

abbrev net : Network
net = record { subprotocols = λ r. []; split_host = λ a. some "10.0.0.12" }

-- Two connections of alice, from two addresses, one too many, and one closed.
abbrev arrival : String → String → Arrival
arrival id address = record {
  request = record {
    method = "GET";
    path = "/ws";
    raw_query = "";
    headers = ("X-Real-IP", address ∷ []) ∷ [];
    host = "router";
    cookies = [];
    body = none;
  };
  remote_addr = "10.0.0.12:5000";
  query = λ key. if str_eq key "client_id" then id else "";
}

abbrev comes : RateLimiter ℕ → String → String → ℕ → RateLimiter ℕ
comes rl id address now = (begin_serving tokens plain net rl (arrival id address) now).0

abbrev two_open : RateLimiter ℕ
two_open = comes (comes (new_rate_limiter tokens small) "alice" "10.0.0.1" 1) "alice" "10.0.0.9" 2

abbrev one_left : RateLimiter ℕ
one_left =
    end_serving tokens plain net (comes two_open "bob" "10.0.0.2" 3) (arrival "alice" "10.0.0.1") 4

two_served : History tokens plain net small two_open ("alice" ∷ "alice" ∷ [])
unfolding begin_serving get_client_id get_client_ip get_header add_connection new_rate_limiter
    new_client client_or_new get_total_connections count_connections_for_ip lookup insert status_of
two_served =
    begins (begins starts (arrival "alice" "10.0.0.1") 1 refl) (arrival "alice" "10.0.0.9") 2 refl

one_served : History tokens plain net small one_left ("alice" ∷ [])
unfolding begin_serving get_client_id get_client_ip get_header add_connection new_rate_limiter
    new_client client_or_new get_total_connections count_connections_for_ip lookup insert status_of
one_served =
    ends [] ("alice" ∷ []) (arrival "alice" "10.0.0.1") 4
      (turned_away two_served (arrival "bob" "10.0.0.2") 3 refl)

reported-served_example : reported "alice" one_left ≡ occurrences "alice" ("alice" ∷ [])
reported-served_example =
    reported-served tokens plain net small one_left ("alice" ∷ []) "alice" one_served
