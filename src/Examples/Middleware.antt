-- ===== src/Examples/Middleware.antt =====
-- The middleware at concrete inputs. The rate limit is two requests in 10 nanoseconds.
use frontend_router_mcp.Base.{
  ℕ, ◌+◌, ◌≡◌, ◌≤◌, refl, true, String, List, [], ◌∷◌, Dict, lookup, IsKeyed, arith, false, Bool,
  ◌⊎◌, pos, negsuc, eq_iff,
}
use frontend_router_mcp.Middleware.{Client, limit_request}
use frontend_router_mcp.Middleware.Stack.{
  Incoming, Call, write_header, write, Completion, Run, size_of, get_endpoint_name,
  monitoring_handler, chain_middleware, security_middleware, cors_middleware, request_id_middleware,
  tracing_middleware, logging_middleware, metrics_middleware, recovery_middleware, status_after,
}
use frontend_router_mcp.Middleware.Stack.Recorded.{
  of_mux, IsUntouched, IsOrderly, sent_status, monitoring_handler-recorded,
}
use frontend_router_mcp.Examples.Requests.{plain, post}
use frontend_router_mcp.Middleware.Window.{passed, IsOver, Until, passed-le}

abbrev known : Dict Client
known =
    ("10.0.0.1", record { requests = 2; window = 5 })
    ∷ ("10.0.0.2", record { requests = 1; window = 16 })
    ∷ []

abbrev later : List (String × ℕ)
later = ("10.0.0.1", 21) ∷ ("10.0.0.2", 22) ∷ ("10.0.0.1", 23) ∷ []

known-IsKeyed : IsKeyed known
unfolding lookup
known-IsKeyed = (refl, (refl, tt))

known-IsOver : IsOver 10 20 (lookup "10.0.0.1" known)
unfolding lookup
known-IsOver = omega arith

later-Until : Until (20 + 10) later
later-Until = (omega arith, (omega arith, (omega arith, tt)))

passed-le_example :
    ((limit_request 2 10 known "10.0.0.1" 20).1 ≡ true)
    × (passed 2 10 "10.0.0.1" known (("10.0.0.1", 20) ∷ later) ≤ 2)
passed-le_example = passed-le 2 10 "10.0.0.1" 20 known later known-IsKeyed known-IsOver later-Until

abbrev ask : Incoming
ask = record {
  request = post;
  request_id = "";
  trace_id = "";
  span_id = "";
  new_request_id = "0f9a1c22-0000";
  new_trace_id = "7b1d2e33-0000";
  new_span_id = "c4d5e6f7-0000";
}

-- A handler that answers, and one that panics after its first bytes.
abbrev answers : Incoming → List Call × Bool
answers r = (write_header 201 ∷ write "ok" ∷ [], false)

abbrev breaks : Incoming → List Call × Bool
breaks r = (write "ok" ∷ [], true)

monitoring_handler-recorded_example :
    (c : Completion) × ((monitoring_handler plain (of_mux answers) ask).recorded ≡ c ∷ [])
    × ((monitoring_handler plain (of_mux answers) ask).panics ≡ false)
    × ((monitoring_handler plain (of_mux answers) ask).in_flight ≡ pos 1 ∷ negsuc 0 ∷ [])
    × (c.endpoint ≡ get_endpoint_name "/ask")
    × (c.response_size ≡ size_of (monitoring_handler plain (of_mux answers) ask).calls)
    × (◌≡◌ {A = Bool} false true → c.status_code ≡ 500)
    × (IsOrderly (answers ask).0
        → (◌≡◌ {A = Bool} false false) ⊎ IsUntouched (answers ask).0
        → c.status_code ≡ sent_status (monitoring_handler plain (of_mux answers) ask).calls)
monitoring_handler-recorded_example =
    monitoring_handler-recorded plain answers ask (λ e. ground (arith, eq_iff "POST" "OPTIONS"))

endpoint_names : (get_endpoint_name "/healthz/" ≡ "/health") × (get_endpoint_name "/ask/" ≡ "/ask")
unfolding get_endpoint_name
endpoint_names = (refl, refl)

-- The client gets 200, and 500 is recorded.
abbrev broken : Run
broken = monitoring_handler plain (of_mux breaks) ask

broken_lem : (sent_status broken.calls ≡ 200) × (status_after 200 broken.calls ≡ 500)
unfolding monitoring_handler chain_middleware security_middleware cors_middleware
    request_id_middleware tracing_middleware logging_middleware metrics_middleware
    recovery_middleware sent_status status_after
broken_lem = (refl, refl)
