-- ===== src/AskUser/Histories.antt =====
-- Histories of the methods of internal/tools/ask_user.go, one after the other.
use frontend_router_mcp.Base.{ℕ, ◌≡◌, String, some, lookup, subst}
use frontend_router_mcp.Errors.{Error}
use frontend_router_mcp.Channel.{done}
use frontend_router_mcp.AskUser.{
  AskUserTool, Handled, returned, new_ask_user_tool, register, finish, handle_user_response,
}
use frontend_router_mcp.AskUser.Invariant.{
  IsSafe, Returns, new-IsSafe, register-IsSafe, handle_user_response-Returns, finish-IsSafe,
}

-- A history in which each method runs to its end: a question is registered, an answer is handled, or
-- a call that is registered under a channel is cleaned up.
pub data Trace : AskUserTool → Type 0 where
  start : Trace new_ask_user_tool
  asked : {t : AskUserTool} → Trace t → (id : String) → Trace (register t id).0
  handled :
      {t u : AskUserTool}
      → Trace t
      → (id a : String) (e : Error) → handle_user_response t id a ≡ returned u e
      → Trace u
  cleaned :
      {t u : AskUserTool}
      → Trace t
      → (id : String) (r : ℕ) → lookup id t.pending_requests ≡ some r
      → finish t id r ≡ done u
      → Trace u

Returns-IsSafe :
    {h : Handled} {u : AskUserTool} {e : Error} → Returns h → h ≡ returned u e → IsSafe u
Returns-IsSafe {u = u} (t, d, q, v) g = subst IsSafe (let p : t ≡ u = cc in p) v

Trace-IsSafe : {t : AskUserTool} → Trace t → IsSafe t
Trace-IsSafe start = new-IsSafe
Trace-IsSafe (asked {t = t} h id) = register-IsSafe t id (Trace-IsSafe h)
Trace-IsSafe (handled {t = t} h id a e q) =
    Returns-IsSafe (handle_user_response-Returns t id a (Trace-IsSafe h)) q
Trace-IsSafe (cleaned {t = t} {u = u} h id r q f) =
    let (t', g, _, v) = finish-IsSafe t id r (Trace-IsSafe h) q in
    subst IsSafe (let p : t' ≡ u = cc in p) v

-- In every history in which each method runs to its end, and calls are cleaned up only while their own
-- channel is registered, neither a user's response to any request nor the clean-up of a registered
-- call panics: the response returns, and the clean-up succeeds.
pub Trace-no_panic :
    {t : AskUserTool} (h : Trace t) (id a : String)
    → (Returns (handle_user_response t id a))
      × ((r : ℕ)
          → lookup id t.pending_requests ≡ some r
          → (t' : AskUserTool) × (finish t id r ≡ done t'))
Trace-no_panic {t} h id a = (
  handle_user_response-Returns t id a (Trace-IsSafe h),
  λ r q. let (t', f, _, _) = finish-IsSafe t id r (Trace-IsSafe h) q in (t', f),
)
