-- ===== src/AskUser/Exits.antt =====
-- The ways out of `Execute` in internal/tools/ask_user.go.
use frontend_router_mcp.Base.{
  subst, ap, ◌∙◌, ℕ, ◌≡◌, refl, arith, String, none, some, lookup, lookup-delete, eq_refl,
  Option-cases, inl, inr, ◌⊎◌, List, [], ◌∷◌,
}
use frontend_router_mcp.Errors.{
  Error, nil, plain, wrapf, app, validation, get_type, as_app, wrap, new_validation_error,
}
use frontend_router_mcp.Channel.{Chan, Done, done, receive, receive_from}
use frontend_router_mcp.AskUser.{
  AskUserTool, Env, invalid, ask, Wake, answered, timed_out, cancelled, Reply, failed, decoded,
  bad_json, parse, register, finish, wake, execute, after_wait,
}
use frontend_router_mcp.AskUser.Invariant.{IsSafe, finish-IsSafe, set_channel-IsSafe}
use frontend_router_mcp.AskUser.RoundTrip.{at_channel}

parse_fails :
    (env : Env) (params : String)
    → ((e : Error) × (env.decode params ≡ bad_json e))
      ⊎ ((n : ℕ) × (env.decode params ≡ decoded "" n))
    → (e : Error) × (parse env params ≡ invalid e) × (get_type e ≡ validation)
unfolding parse get_type as_app wrap new_validation_error
parse_fails env params (inl (e, h)) =
    (wrap e validation "failed to parse parameters", ground arith, refl)
parse_fails env params (inr (n, h)) =
    (new_validation_error "question parameter is required", ground (arith, eq_refl ""), refl)

-- Parameters that do not decode, or whose question is empty, end the call with an error of type
-- validation before anything is registered: the tool is unchanged, and neither the handler nor the
-- wait has a say.
pub execute_invalid :
    (env : Env) (t : AskUserTool) (params id : String) (handler : String → String → Error)
    (interleave : AskUserTool → AskUserTool) (w : Wake)
    → ((e : Error) × (env.decode params ≡ bad_json e))
      ⊎ ((n : ℕ) × (env.decode params ≡ decoded "" n))
    → (e : Error) × (execute env t params id handler interleave w ≡ some (done t, failed e))
      × (get_type e ≡ validation)
unfolding execute
execute_invalid env t params id handler interleave w h =
    let (e, p, kind) = parse_fails env params h in (e, rw (p, execute), kind)

receive_cases :
    (c : Chan String)
    → (receive c ≡ none)
      ⊎ ((a : String) × (rest : List String) × (receive c ≡ some (a, record c { buffer = rest })))
unfolding receive
receive_cases c = go c.buffer
  where
    go :
        (xs : List String)
        → (receive_from c xs ≡ none)
          ⊎ ((a : String) × (rest : List String) × (receive_from c xs
                ≡ some (a, record c { buffer = rest })))
    go [] = inl refl
    go (a ∷ rest) = inr (a, rest, refl)

wake-IsSafe :
    (t : AskUserTool) (id : String) (wait r : ℕ) (w : Wake) {u : AskUserTool} {reply : Reply}
    → IsSafe t
    → lookup id t.pending_requests ≡ some r
    → wake t id wait r w ≡ some (u, reply)
    → (u.pending_requests ≡ t.pending_requests) × IsSafe u
unfolding wake
wake-IsSafe t id wait r answered {u = u} v p h =
    let (c, at, o, k) = v.served id r p in
    elim (receive_cases c) [
      | inl e ↦ cc (let q : wake t id wait r answered ≡ none = ground arith in q)
      | inr (a, rest, e) ↦
          let q : at_channel t r (record c { buffer = rest }) ≡ u = ground arith in
          (
            rw (← q),
            subst IsSafe q (set_channel-IsSafe t r (record c { buffer = rest }) c at o k v),
          )
    ]
wake-IsSafe t id wait r timed_out {u = u} v p h =
    let e : t ≡ u = ground arith in (rw e, subst IsSafe e v)
wake-IsSafe t id wait r (cancelled c) {u = u} v p h =
    let e : t ≡ u = ground arith in (rw e, subst IsSafe e v)

abbrev Cleaned : String → Done AskUserTool → Type 0
Cleaned id d =
    (t' : AskUserTool) × (d ≡ done t') × (lookup id t'.pending_requests ≡ none) × IsSafe t'

finish-Cleaned :
    (t : AskUserTool) (id : String) (r : ℕ)
    → IsSafe t
    → lookup id t.pending_requests ≡ some r
    → Cleaned id (finish t id r)
finish-Cleaned t id r v p =
    let (t', f, e, v') = finish-IsSafe t id r v p in
    (t', f, rw e (ground (arith, lookup-delete id id t.pending_requests, eq_refl id)), v')

after_wait-Cleaned :
    (t : AskUserTool) (id : String) (wait r : ℕ) (w : Wake) {d : Done AskUserTool} {reply : Reply}
    → IsSafe t
    → lookup id t.pending_requests ≡ some r
    → after_wait id r (wake t id wait r w) ≡ some (d, reply)
    → Cleaned id d
unfolding after_wait
after_wait-Cleaned t id wait r w {d = d} v p h = elim (Option-cases (wake t id wait r w)) [
  | inl e ↦ cc (let q : after_wait id r (wake t id wait r w) ≡ none = rw e in q)
  | inr ((u, reply), e) ↦
      let (same, vu) = wake-IsSafe t id wait r w v p e in
      let q : finish u id r ≡ d = ground arith in
      subst (Cleaned id) q (finish-Cleaned u id r vu (ap (lookup id) same ∙ p))
]

-- A call with a question always cleans up behind itself. Whatever the handler returns, whatever else
-- happens to the tool before the clean-up, as long as the request stays registered under its
-- channel in a safe tool, and whichever of the three events ends the wait: the clean-up does not
-- panic, the request is forgotten, and the tool is safe.
pub execute_cleans_up :
    (env : Env) (t : AskUserTool) (params id question : String) (wait : ℕ)
    (handler : String → String → Error) (interleave : AskUserTool → AskUserTool) (w : Wake)
    {d : Done AskUserTool} {reply : Reply}
    → parse env params ≡ ask question wait
    → IsSafe t
    → IsSafe (interleave (register t id).0)
    → lookup id (interleave (register t id).0).pending_requests ≡ some (register t id).1
    → execute env t params id handler interleave w ≡ some (d, reply)
    → (t' : AskUserTool) × (d ≡ done t') × (lookup id t'.pending_requests ≡ none) × IsSafe t'
unfolding execute
execute_cleans_up env t params id question wait handler interleave w {d = d} {reply = reply} p v vi
      kept h =
    branch (handler id question) refl
  where
    r : ℕ
    r = (register t id).1

    sent_error : finish (interleave (register t id).0) id r ≡ d → Cleaned id d
    sent_error q = subst (Cleaned id) q (finish-Cleaned (interleave (register t id).0) id r vi kept)

    branch : (e : Error) → handler id question ≡ e → Cleaned id d
    branch nil q =
        after_wait-Cleaned (interleave (register t id).0) id wait r w {reply = reply} vi kept
          (ground arith)
    branch (plain s) q = sent_error (ground arith)
    branch (wrapf s e) q = sent_error (ground arith)
    branch (app u s e c i) q = sent_error (ground arith)
