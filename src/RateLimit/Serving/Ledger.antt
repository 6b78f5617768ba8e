-- ===== src/RateLimit/Serving/Ledger.antt =====
-- The connections that the rate limiter counts, against those that `WebSocketMiddleware` of
-- internal/validation/ratelimit.go is serving.
use frontend_router_mcp.Base.{
  ℕ, ◌+◌, ◌-◌, ◌≡◌, ◌≢◌, refl, sym, ◌∙◌, subst, arith, String, if◌then◌else◌, List, [], ◌∷◌, ◌++◌,
  Option, none, some, lookup, str_eq, eq_iff, Option-cases, inl, inr, IsKeyed, IsKeyed-insert,
}
use frontend_router_mcp.Requests.{Env}
use frontend_router_mcp.WebSocketUpgrade.{Network}
use frontend_router_mcp.RateLimit.{
  Rate, RateLimitConfig, RateLimiter, new_rate_limiter, allow_message, block_client, unblock_client,
  cleanup, RateError, add_connection, remove_connection, client_or_new,
}
use frontend_router_mcp.RateLimit.Counts.{
  counted, counted-store, Steady, new-counted, allow_request-Steady, allow_message-Steady,
  block_client-Steady, unblock_client-Steady, cleanup-Steady,
}
use frontend_router_mcp.RateLimit.Totals.{count_of}
use frontend_router_mcp.RateLimit.Serving.{
  Arrival, get_client_id, get_client_stats, copied, http_middleware, begin_serving, end_serving,
  status_of,
}

-- How often an id is in a list.
abbrev pub occurrences : String → List String → ℕ
occurrences j [] = 0
occurrences j (id ∷ ids) = (if str_eq id j then 1 else 0) + occurrences j ids

occurrences-append :
    (j : String) (xs ys : List String)
    → occurrences j (xs ++ ys) ≡ occurrences j xs + occurrences j ys
occurrences-append j [] ys = omega arith
occurrences-append j (x ∷ xs) ys = omega (arith, occurrences-append j xs ys)

module _ {L : Type 0} (rate : Rate L) (env : Env) (net : Network) where
  -- A limiter with the ids of the clients that are being served, one for each connection.
  pub data History (config : RateLimitConfig) : RateLimiter L → List String → Type 0 where
    starts : History config (new_rate_limiter rate config) []
    begins :
        {rl : RateLimiter L} {open_ids : List String}
        → History config rl open_ids
        → (a : Arrival) (now : ℕ) → (begin_serving rate env net rl a now).1 ≡ none
        → History config
            (begin_serving rate env net rl a now).0
            (get_client_id env net a ∷ open_ids)
    turned_away :
        {rl : RateLimiter L} {open_ids : List String}
        → History config rl open_ids
        → (a : Arrival) (now : ℕ) → (begin_serving rate env net rl a now).1 ≡ some 429
        → History config (begin_serving rate env net rl a now).0 open_ids
    ends :
        {rl : RateLimiter L} (xs ys : List String) (a : Arrival) (now : ℕ)
        → History config rl (xs ++ get_client_id env net a ∷ ys)
        → History config (end_serving rate env net rl a now) (xs ++ ys)
    requests :
        {rl : RateLimiter L} {open_ids : List String}
        → History config rl open_ids
        → (a : Arrival) (now : ℕ)
        → History config (http_middleware rate env net rl a now).0 open_ids
    messages :
        {rl : RateLimiter L} {open_ids : List String}
        → History config rl open_ids
        → (id : String) (now : ℕ) → History config (allow_message rate rl id now).0 open_ids
    blocks :
        {rl : RateLimiter L} {open_ids : List String}
        → History config rl open_ids
        → (id : String) (duration now : ℕ)
        → History config (block_client rl id duration now) open_ids
    unblocks :
        {rl : RateLimiter L} {open_ids : List String}
        → History config rl open_ids
        → (id : String) → History config (unblock_client rl id) open_ids
    cleans :
        {rl : RateLimiter L} {open_ids : List String}
        → History config rl open_ids
        → (now : ℕ) → History config (cleanup rl now) open_ids

  abbrev Balanced : RateLimiter L → List String → Type 0
  Balanced rl open_ids = IsKeyed rl.clients × ((j : String) → counted j rl ≡ occurrences j open_ids)

  Steady-Balanced :
      (rl rl' : RateLimiter L) (open_ids : List String)
      → ((j : String) → Steady j rl rl')
      → Balanced rl open_ids
      → Balanced rl' open_ids
  Steady-Balanced rl rl' open_ids steady (keyed, b) = ((steady "").1 keyed, λ j. (steady j).0 ∙ b j)

  added-counted :
      (rl : RateLimiter L) (id ip : String) (now : ℕ) (j : String)
      → (add_connection rate rl id ip now).1 ≡ none
      → (counted j (add_connection rate rl id ip now).0
          ≡ (if str_eq id j then 1 else 0) + counted j rl)
        × (IsKeyed rl.clients → IsKeyed (add_connection rate rl id ip now).0.clients)
  unfolding add_connection
  added-counted rl id ip now j e =
      let c = client_or_new rate rl id ip now in
      let d = record c { connection_count = c.connection_count + 1; last_seen = now } in
      ground (
        arith,
        counted-store j rl id d,
        new-counted rate j rl id ip now,
        eq_iff id j,
        IsKeyed-insert id d rl.clients,
      )

  add_connection-Balanced :
      (rl : RateLimiter L) (id ip : String) (now : ℕ) (open_ids : List String)
      → Balanced rl open_ids
      → (add_connection rate rl id ip now).1 ≡ none
      → Balanced (add_connection rate rl id ip now).0 (id ∷ open_ids)
  add_connection-Balanced rl id ip now open_ids (keyed, b) e = (
    (added-counted rl id ip now id e).1 keyed,
    λ j. omega (arith, (added-counted rl id ip now j e).0, b j),
  )

  refused_same :
      (rl : RateLimiter L) (id ip : String) (now : ℕ)
      → (add_connection rate rl id ip now).1 ≢ none
      → (add_connection rate rl id ip now).0 ≡ rl
  unfolding add_connection
  refused_same rl id ip now e = ground arith

  removed-counted :
      (rl : RateLimiter L) (id : String) (now : ℕ) (j : String)
      → (counted j (remove_connection rl id now) ≡ counted j rl - (if str_eq id j then 1 else 0))
        × (IsKeyed rl.clients → IsKeyed (remove_connection rl id now).clients)
  unfolding remove_connection
  removed-counted rl id now j = elim (Option-cases (lookup id rl.clients)) [
    | inl e ↦ rw (e, remove_connection) (ground (arith, eq_iff id j), λ keyed. keyed)
    | inr (c, e) ↦
        let d = record c { connection_count = c.connection_count - 1; last_seen = now } in
        rw (e, remove_connection)
          (
            ground (arith, counted-store j rl id d, eq_iff id j),
            λ keyed. IsKeyed-insert id d rl.clients keyed,
          )
  ]

  remove_connection-Balanced :
      (rl : RateLimiter L) (id : String) (now : ℕ) (xs ys : List String)
      → Balanced rl (xs ++ id ∷ ys)
      → Balanced (remove_connection rl id now) (xs ++ ys)
  remove_connection-Balanced rl id now xs ys (keyed, b) = (
    (removed-counted rl id now id).1 keyed,
    λ j. omega (
      arith,
      (removed-counted rl id now j).0,
      b j,
      occurrences-append j xs (id ∷ ys),
      occurrences-append j xs ys,
    ),
  )

  status_none : (refused : Option RateError) → status_of refused ≡ none → refused ≡ none
  unfolding status_of
  status_none none e = refl
  status_none (some r) e = cc

  status_some : (refused : Option RateError) → status_of refused ≡ some 429 → refused ≢ none
  unfolding status_of
  status_some none e = cc
  status_some (some r) e = λ q. cc

  History-Balanced :
      {config : RateLimitConfig} {rl : RateLimiter L} {open_ids : List String}
      → History config rl open_ids
      → Balanced rl open_ids
  unfolding new_rate_limiter begin_serving end_serving http_middleware lookup
  History-Balanced starts = (tt, λ j. refl)
  History-Balanced (begins {rl} {open_ids} h a now e) =
      add_connection-Balanced rl _ _ now open_ids (History-Balanced h) (status_none _ e)
  History-Balanced (turned_away {rl} {open_ids} h a now e) =
      subst (λ r. Balanced r open_ids) (sym (refused_same rl _ _ now (status_some _ e)))
        (History-Balanced h)
  History-Balanced (ends {rl} xs ys a now h) =
      remove_connection-Balanced rl _ now xs ys (History-Balanced h)
  History-Balanced (requests {rl} {open_ids} h a now) =
      Steady-Balanced rl (http_middleware rate env net rl a now).0 open_ids
        (λ j. allow_request-Steady rate j rl _ _ now) (History-Balanced h)
  History-Balanced (messages {rl} {open_ids} h id now) =
      Steady-Balanced rl (allow_message rate rl id now).0 open_ids
        (λ j. allow_message-Steady rate j rl id now) (History-Balanced h)
  History-Balanced (blocks {rl} {open_ids} h id duration now) =
      Steady-Balanced rl (block_client rl id duration now) open_ids
        (λ j. block_client-Steady j rl id duration now) (History-Balanced h)
  History-Balanced (unblocks {rl} {open_ids} h id) =
      Steady-Balanced rl (unblock_client rl id) open_ids (λ j. unblock_client-Steady j rl id)
        (History-Balanced h)
  History-Balanced (cleans {rl} {open_ids} h now) =
      Steady-Balanced rl (cleanup rl now) open_ids
        (λ j. cleanup-Steady j rl now (History-Balanced h).0) (History-Balanced h)

-- The connections that `GetClientStats` reports, 0 for a client that is not known.
abbrev pub reported : {L : Type 0} → String → RateLimiter L → ℕ
reported id rl = count_of (get_client_stats rl id)

reported-counted : {L : Type 0} (id : String) (rl : RateLimiter L) → reported id rl ≡ counted id rl
unfolding get_client_stats copied
reported-counted id rl = elim (Option-cases (lookup id rl.clients)) [
  | inl e ↦ rw (e, get_client_stats) refl
  | inr (c, e) ↦ rw (e, get_client_stats) refl
]

-- Under `WebSocketMiddleware` the rate limiter keeps exact books: in whatever order connections begin,
-- are turned away and end, with any requests, messages, blocks, unblocks and clean-ups in between, it
-- reports for each client id exactly the connections that are being served under it.
pub reported-served :
    {L : Type 0} (rate : Rate L) (env : Env) (net : Network) (config : RateLimitConfig)
    (rl : RateLimiter L) (open_ids : List String) (id : String)
    → History rate env net config rl open_ids
    → reported id rl ≡ occurrences id open_ids
reported-served rate env net config rl open_ids id h =
    reported-counted id rl ∙ (History-Balanced rate env net h).1 id
