-- ===== src/Middleware/Window.antt =====
-- The windows of `RateLimitMiddleware` in internal/middleware/middleware.go.
use Prim.Native.Nat.{max}
use frontend_router_mcp.Base.{
  ℕ, suc, ◌+◌, ◌≤◌, ◌<◌, ◌≡◌, ◌≢◌, refl, sym, arith, true, false, if◌then◌else◌, ltb, List, [], ◌∷◌,
  Option, none, some, String, Dict, lookup, str_eq, eq_iff, eq_refl, subst, IsKeyed, lookup-insert,
  Option-cases, Bool-cases, inl, inr, ◌⊎◌,
}
use frontend_router_mcp.Middleware.{
  Client, opened, clean_up, count_request, limit_in, limit_request,
}

-- An entry whose window is not over is kept.
lookup-clean_up :
    (window now : ℕ) (ip : String) (m : Dict Client) (c : Client)
    → lookup ip m ≡ some c
    → now ≤ c.window + window
    → lookup ip (clean_up window now m) ≡ some c
unfolding lookup clean_up
lookup-clean_up window now ip [] c h le = cc
lookup-clean_up window now ip ((k, v) ∷ rest) c h le =
    ground (arith, lookup-clean_up window now ip rest c)

-- The requests of `ip` among those that are passed on.
pub passed : ℕ → ℕ → String → Dict Client → List (String × ℕ) → ℕ
passed max_requests window ip m [] = 0
passed max_requests window ip m ((from, now) ∷ rest) =
    let after = limit_request max_requests window m from now in
    let later = passed max_requests window ip (after.0) rest in
    if str_eq from ip then (if after.1 then suc later else later) else later

-- Every request is at most at this time.
abbrev pub Until : ℕ → List (String × ℕ) → Type 0
Until end [] = Unit
Until end ((from, now) ∷ rest) = (now < end) × Until end rest

limit_in_window :
    (max_requests window : ℕ) (ip : String) (now : ℕ) (m : Dict Client) (c : Client)
    → lookup ip m ≡ some c
    → now < c.window + window
    → ((limit_request max_requests window m ip now).1 ≡ true
        × (c.requests < max_requests)
        × (lookup ip (limit_request max_requests window m ip now).0
            ≡ some (record c { requests = c.requests + 1 })))
      ⊎ ((limit_request max_requests window m ip now).1 ≡ false
          × (lookup ip (limit_request max_requests window m ip now).0 ≡ some c))
unfolding limit_request limit_in count_request
limit_in_window max_requests window ip now m c h lt =
    let held = clean_up window now m in
    ground (
      arith,
      lookup-clean_up window now ip m c h,
      lookup-insert ip ip (record c { requests = c.requests + 1 }) held,
      eq_refl ip,
    )

count_other :
    (max_requests window : ℕ) (ip from : String) (now : ℕ) (held : Dict Client) (c d : Client)
    → lookup ip held ≡ some c
    → from ≢ ip
    → lookup ip (count_request max_requests window held from now d).0 ≡ some c
unfolding count_request
count_other max_requests window ip from now held c d h ne = ground (
  arith,
  lookup-insert from ip (record d { requests = d.requests + 1 }) held,
  lookup-insert from ip (opened now) held,
  eq_iff from ip,
)

-- A request from another address does not change an entry whose window is not over.
limit_other :
    (max_requests window : ℕ) (ip from : String) (now : ℕ) (m : Dict Client) (c : Client)
    → lookup ip m ≡ some c
    → now < c.window + window
    → from ≢ ip
    → lookup ip (limit_request max_requests window m from now).0 ≡ some c
unfolding limit_request
limit_other max_requests window ip from now m c h lt ne =
    let held = clean_up window now m in
    let kept : lookup ip held ≡ some c = lookup-clean_up window now ip m c h (omega arith) in
    elim (Option-cases (lookup from held)) [
      | inl e ↦
          rw (e, limit_in) (ground (arith, lookup-insert from ip (opened now) held, eq_iff from ip))
      | inr (d, e) ↦ rw (e, limit_in) (count_other max_requests window ip from now held c d kept ne)
    ]

limit_mine :
    (max_requests window : ℕ) (ip from : String) (now : ℕ) (m : Dict Client) (c : Client)
    → from ≡ ip
    → lookup ip m ≡ some c
    → now < c.window + window
    → ((limit_request max_requests window m from now).1 ≡ true
        × (c.requests < max_requests)
        × (lookup ip (limit_request max_requests window m from now).0
            ≡ some (record c { requests = c.requests + 1 })))
      ⊎ ((limit_request max_requests window m from now).1 ≡ false
          × (lookup ip (limit_request max_requests window m from now).0 ≡ some c))
limit_mine max_requests window ip from now m c e h lt =
    rw e (limit_in_window max_requests window ip now m c h lt)

-- While a window is open, no more requests are passed on than it has left.
passed_in_window :
    (max_requests window : ℕ) (ip : String) (m : Dict Client) (c : Client) (es : List (String × ℕ))
    → lookup ip m ≡ some c
    → Until (c.window + window) es
    → passed max_requests window ip m es + c.requests ≤ max c.requests max_requests
unfolding passed
passed_in_window max_requests window ip m c [] h u = omega arith
passed_in_window max_requests window ip m c ((from, now) ∷ rest) h (lt, u) =
    let after = (limit_request max_requests window m from now).0 in
    let more : Client = record c { requests = c.requests + 1 } in
    ground (
      arith,
      eq_iff from ip,
      limit_mine max_requests window ip from now m c,
      limit_other max_requests window ip from now m c h lt,
      λ (k : lookup ip after ≡ some c). passed_in_window max_requests window ip after c rest k u,
      λ (k : lookup ip after ≡ some more).
          passed_in_window max_requests window ip after more rest k u,
    )

-- With distinct keys, the clean-up removes the entries whose window is over and no others.
lookup-clean_up_keyed :
    (window now : ℕ) (ip : String) (m : Dict Client)
    → IsKeyed m
    → lookup ip (clean_up window now m) ≡ (elim (lookup ip m) [
      | some c ↦ if ltb (c.window + window) now then none else some c
      | none ↦ none
    ])
unfolding lookup clean_up
lookup-clean_up_keyed window now ip [] u = refl
lookup-clean_up_keyed window now ip ((k, v) ∷ rest) u =
    ground (arith, lookup-clean_up_keyed window now ip rest (u.1), eq_iff k ip)

-- There is no entry, or one whose window has passed.
abbrev pub IsOver : ℕ → ℕ → Option Client → Type 0
IsOver window now none = Unit
IsOver window now (some c) = c.window + window ≤ now

limit_in_opens :
    (max_requests window : ℕ) (held : Dict Client) (ip : String) (now : ℕ)
    → IsOver window now (lookup ip held)
    → ((limit_in max_requests window held ip now).1 ≡ true)
      × (lookup ip (limit_in max_requests window held ip now).0 ≡ some (opened now))
unfolding limit_in count_request
limit_in_opens max_requests window held ip now over =
    ground (arith, lookup-insert ip ip (opened now) held, eq_refl ip)

IsOver-kept :
    (window now : ℕ) (o : Option Client)
    → IsOver window now o
    → IsOver window now
        (elim o [ some c ↦ if ltb (c.window + window) now then none else some c | none ↦ none ])
IsOver-kept window now none over = tt
IsOver-kept window now (some c) over = elim (Bool-cases (ltb (c.window + window) now)) [
  | inl e ↦ rw e tt
  | inr e ↦ rw e over
]

IsOver-clean_up :
    (window now : ℕ) (ip : String) (m : Dict Client)
    → IsKeyed m
    → IsOver window now (lookup ip m)
    → IsOver window now (lookup ip (clean_up window now m))
IsOver-clean_up window now ip m u over =
    subst (IsOver window now) (sym (lookup-clean_up_keyed window now ip m u))
      (IsOver-kept window now (lookup ip m) over)

-- If the keys of the map are distinct, a request from an address that has no window, or whose
-- window is over, is always passed on and opens a window. Of it and the requests that follow before
-- that window is over, from this address and from others, at most `maxRequests` from this address
-- are passed on, or one if that is 0.
pub passed-le :
    (max_requests window : ℕ) (ip : String) (now : ℕ) (m : Dict Client) (es : List (String × ℕ))
    → IsKeyed m
    → IsOver window now (lookup ip m)
    → Until (now + window) es
    → ((limit_request max_requests window m ip now).1 ≡ true)
      × (passed max_requests window ip m ((ip, now) ∷ es) ≤ max 1 max_requests)
unfolding passed limit_request
passed-le max_requests window ip now m es u over end =
    let held = clean_up window now m in
    let after = (limit_in max_requests window held ip now).0 in
    let (ok, entry) =
      limit_in_opens max_requests window held ip now (IsOver-clean_up window now ip m u over) in
    ground (
      arith,
      ok,
      eq_refl ip,
      passed_in_window max_requests window ip after (opened now) es entry end,
    )
