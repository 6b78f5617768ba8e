-- ===== src/Middleware.antt =====
-- `RateLimitMiddleware` of internal/middleware/middleware.go. Requests are served one after the other;
-- the map is not locked in the source. Times are nanoseconds.
pub mod Window
pub mod Stack
use frontend_router_mcp.Base.{
  ℕ, ◌+◌, Bool, true, false, if◌then◌else◌, ltb, leb, List, [], ◌∷◌, Option, none, some, String,
  Dict, lookup, insert,
}

pub record Client : Type 0 where
  pub requests : ℕ
  pub window : ℕ

-- `for k, v := range clients { if now.Sub(v.window) > window { delete(clients, k) } }`
unfoldable pub clean_up : ℕ → ℕ → Dict Client → Dict Client
clean_up window now [] = []
clean_up window now ((k, v) ∷ rest) =
    let kept = clean_up window now rest in
    if ltb (v.window + window) now then kept else (k, v) ∷ kept

abbrev pub opened : ℕ → Client
opened now = record { requests = 1; window = now }

count_request : ℕ → ℕ → Dict Client → String → ℕ → Client → Dict Client × Bool
count_request max_requests window clients ip now c =
    if ltb now (c.window + window)
    then (if leb max_requests c.requests
        then (clients, false)
        else (insert ip (record c { requests = c.requests + 1 }) clients, true))
    else (insert ip (opened now) clients, true)

limit_in : ℕ → ℕ → Dict Client → String → ℕ → Dict Client × Bool
unfolding count_request
limit_in max_requests window clients ip now = elim (lookup ip clients) [
  | some c ↦ count_request max_requests window clients ip now c
  | none ↦ (insert ip (opened now) clients, true)
]

-- One request: the clients after it, and whether it is passed on or refused with 429.
unfoldable pub limit_request : ℕ → ℕ → Dict Client → String → ℕ → Dict Client × Bool
unfolding limit_in clean_up
limit_request max_requests window clients ip now =
    limit_in max_requests window (clean_up window now clients) ip now
