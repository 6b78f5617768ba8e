-- ===== src/McpServer/Endpoints.antt =====
-- `handleExecute` and the registry of internal/mcpserver/server.go.
use frontend_router_mcp.Base.{
  ℕ, ◌≡◌, ◌≢◌, ◌⊎◌, inl, inr, refl, ap, arith, String, none, some, lookup, str_eq, eq_iff, eq_refl,
  lookup-insert, Option-cases, Bool-cases,
}
use frontend_router_mcp.Errors.{Error, error_text}
use frontend_router_mcp.McpServer.{
  Env, Server, Tool, ToolResult, Payload, Unmarshalled, payload, bad_payload, result, tool_error,
  register_tool, executed, execute_payload, handle_execute,
}

-- The four ways in which a request to /execute is refused, and the one in which it is not.
abbrev pub Answer : Env → Server → String → String → ℕ → String → Type 0
Answer env s method body status text =
    ((method ≢ "POST") × (status ≡ 405))
    ⊎ ((method ≡ "POST")
        × (e : String) × (env.decode_request body ≡ bad_payload e)
        × (status ≡ 400))
    ⊎ ((method ≡ "POST")
        × (p : Payload) × (env.decode_request body ≡ payload p)
        × (lookup p.tool s.tools ≡ none)
        × (status ≡ 404))
    ⊎ ((method ≡ "POST")
        × (p : Payload) × (tool : Tool) × (e : Error) × (env.decode_request body ≡ payload p)
        × (lookup p.tool s.tools ≡ some tool)
        × (tool.execute p.params ≡ tool_error e)
        × (status ≡ 500)
        × (text ≡ error_text e))
    ⊎ ((method ≡ "POST")
        × (p : Payload) × (tool : Tool) × (env.decode_request body ≡ payload p)
        × (lookup p.tool s.tools ≡ some tool)
        × (tool.execute p.params ≡ result text)
        × (status ≡ 200))

abbrev Executed : Tool → String → ℕ × String → Type 0
Executed tool params a =
    ((e : Error) × (tool.execute params ≡ tool_error e) × (a.0 ≡ 500) × (a.1 ≡ error_text e))
    ⊎ ((tool.execute params ≡ result (a.1)) × (a.0 ≡ 200))

executed-Executed :
    (tool : Tool) (params : String) → Executed tool params (executed (tool.execute params))
unfolding executed
executed-Executed tool params = go (tool.execute params) refl
  where
    go :
        (r : ToolResult)
        → tool.execute params ≡ r
        → Executed tool params (executed (tool.execute params))
    go (result v) e = inr (rw e (ap result refl), rw e refl)
    go (tool_error x) e = inl (x, e, rw e refl, rw e refl)

found :
    (env : Env) (s : Server) (method body : String) (p : Payload) (tool : Tool) (a : ℕ × String)
    → method ≡ "POST"
    → env.decode_request body ≡ payload p
    → lookup p.tool s.tools ≡ some tool
    → Executed tool p.params a
    → Answer env s method body (a.0) (a.1)
found env s method body p tool a post d l (inl (e, x, code, text)) =
    inr (inr (inr (inl (post, p, tool, e, d, l, x, code, text))))
found env s method body p tool a post d l (inr (x, code)) =
    inr (inr (inr (inr (post, p, tool, d, l, x, code))))

posted :
    (env : Env) (s : Server) (method body : String) (u : Unmarshalled)
    → method ≡ "POST"
    → env.decode_request body ≡ u
    → Answer env s method body (execute_payload s u).0 (execute_payload s u).1
unfolding execute_payload
posted env s method body (bad_payload e) post d = inr (inl (post, e, d, refl))
posted env s method body (payload p) post d = elim (Option-cases (lookup p.tool s.tools)) [
  | inl l ↦ inr (inr (inl (post, p, d, l, rw (l, execute_payload) refl)))
  | inr (tool, l) ↦
      rw (l, execute_payload)
        (found env s method body p tool (executed (tool.execute p.params)) post d l
          (executed-Executed tool p.params))
]

-- A request to /execute is answered in one of five ways, by its method, its body, the tool that it
-- names and what that tool returns; the result of the tool is sent with status 200 and nothing else
-- is.
pub handle_execute-Answer :
    (env : Env) (s : Server) (method body : String)
    → Answer env s method body
        (handle_execute env s method body).0
        (handle_execute env s method body).1
unfolding handle_execute
handle_execute-Answer env s method body = elim (Bool-cases (str_eq method "POST")) [
  | inl e ↦
      rw (e, handle_execute)
        (posted env s method body (env.decode_request body) ((eq_iff method "POST").0 e) refl)
  | inr e ↦ inl ((λ p. ground (arith, eq_iff method "POST")), rw (e, handle_execute) refl)
]

-- The tool that is registered is the one that its name finds, and every other name finds what it
-- found before.
pub lookup-register_tool :
    (s : Server) (tool : Tool) (other : String)
    → (lookup tool.name (register_tool s tool).tools ≡ some tool)
      × (tool.name ≢ other → lookup other (register_tool s tool).tools ≡ lookup other s.tools)
unfolding register_tool
lookup-register_tool s tool other = ground (
  arith,
  lookup-insert tool.name tool.name tool s.tools,
  lookup-insert tool.name other tool s.tools,
  eq_refl tool.name,
  eq_iff tool.name other,
)
