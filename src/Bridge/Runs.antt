-- ===== src/Bridge/Runs.antt =====
-- Runs of the rounds of `handleWebSocketToMCP` in cmd/server/main_monitoring.go.
use frontend_router_mcp.Base.{
  ℕ, suc, ◌+◌, ◌≤◌, ◌≡◌, refl, sym, ◌∙◌, arith, String, if◌then◌else◌, List, [], ◌∷◌, lookup,
  str_eq,
}
use frontend_router_mcp.Channel.{Done, done, panic}
use frontend_router_mcp.Messaging.{Message}
use frontend_router_mcp.Hub.{Client}
use frontend_router_mcp.Bridge.{Env, Bridge, UserQuestion, new_bridge, on_question, on_message}
use frontend_router_mcp.Bridge.Accounting.{count, account, on_question-account, on_message-account}

-- What the bridge receives.
pub data Event : Type 0 where
  question : UserQuestion → Event
  message : Message → Event

-- A run of rounds; it ends in `panic` if one of them does.
unfoldable pub run : Env → Bridge → List Event → Done Bridge
run env b [] = done b
run env b (question q ∷ es) = elim (on_question env q b) [ done b' ↦ run env b' es | panic ↦ panic ]
run env b (message m ∷ es) = elim (on_message env m b) [ done b' ↦ run env b' es | panic ↦ panic ]

pub questions : String → List Event → ℕ
questions id [] = 0
questions id (question q ∷ es) =
    let rest = questions id es in if str_eq q.request_id id then suc rest else rest
questions id (message m ∷ es) = questions id es

run-account :
    (env : Env) (es : List Event) (b b' : Bridge) (id : String)
    → run env b es ≡ done b'
    → account id b' ≤ account id b + questions id es
unfolding run questions
run-account env [] b b' id h = let e : b ≡ b' = ground arith in rw e (omega arith)
run-account env (question q ∷ es) b b' id h =
    go (on_question env q b) refl (λ b1. run-account env es b1 b' id)
  where
    go :
        (d : Done Bridge)
        → on_question env q b ≡ d
        → ((b1 : Bridge)
            → run env b1 es ≡ done b'
            → account id b' ≤ account id b1 + questions id es)
        → account id b' ≤ account id b + questions id (question q ∷ es)
    go panic e rest = cc (let z : run env b (question q ∷ es) ≡ panic = rw (e, run) in z)
    go (done b1) e rest =
        let z : run env b (question q ∷ es) ≡ run env b1 es = rw (e, run) in
        ground (arith, rest b1 (sym z ∙ h), on_question-account env q b b1 id e)
run-account env (message m ∷ es) b b' id h =
    go (on_message env m b) refl (λ b1. run-account env es b1 b' id)
  where
    go :
        (d : Done Bridge)
        → on_message env m b ≡ d
        → ((b1 : Bridge)
            → run env b1 es ≡ done b'
            → account id b' ≤ account id b1 + questions id es)
        → account id b' ≤ account id b + questions id es
    go panic e rest = cc (let z : run env b (message m ∷ es) ≡ panic = rw (e, run) in z)
    go (done b1) e rest =
        let z : run env b (message m ∷ es) ≡ run env b1 es = rw (e, run) in
        omega (arith, rest b1 (sym z ∙ h), on_message-account env m b b1 id e)

-- Over any run of rounds from a new bridge that does not panic, the responses sent to the tool for a
-- request are at most as many as the questions asked under its id; for an id that was never asked
-- there are none.
pub responses_le_questions :
    (env : Env) (heap : List Client) (es : List Event) (b : Bridge) (id : String)
    → run env (new_bridge heap) es ≡ done b
    → count id b.responses ≤ questions id es
responses_le_questions env heap es b id h =
    let start : account id (new_bridge heap) ≡ 0 = unfold new_bridge count lookup in refl in
    omega (arith, run-account env es (new_bridge heap) b id h, start)
