-- ===== src/AskUser/Invariant.antt =====
-- The invariant of the ask_user tool (internal/tools/ask_user.go) and its methods.
use frontend_router_mcp.Base.{
  ℕ, ◌<◌, ◌≡◌, ◌≢◌, refl, ap, ◌∙◌, arith, String, true, false, List, [], ◌∷◌, ◌++◌, some, lookup,
  delete, length, get_elem?, set, lookup-insert_cases, lookup-delete_cases, Bool-cases,
  Option-cases, inl, inr, ◌⊎◌, get_elem?-append_new, get_elem?-append_old, get_elem?-set_self,
  get_elem?-set_ne, get_elem?-lt, subst, ltb, ℕ_discrete,
}
use frontend_router_mcp.Errors.{Error}
use frontend_router_mcp.Channel.{Chan, done, sent, full, make_chan, try_send, close}
use frontend_router_mcp.AskUser.{
  AskUserTool, Handled, returned, new_ask_user_tool, register, finish, find_pending, send_answer,
  handle_user_response, after_send,
}

-- The channel `r` exists, is open, and is one of the tool's.
abbrev pub Serves : List (Chan String) → ℕ → Type 0
Serves cs r = (c : Chan String) × (get_elem? cs r ≡ some c) × (c.is_open ≡ true) × (c.capacity ≡ 1)

-- Every pending request has an open channel, and no two share one.
pub record IsSafe (t : AskUserTool) : Type 0 where
  pub served : (id : String) (r : ℕ) → lookup id t.pending_requests ≡ some r → Serves t.channels r
  pub unshared :
      (id other : String) (r : ℕ)
      → lookup id t.pending_requests ≡ some r
      → lookup other t.pending_requests ≡ some r
      → id ≡ other

pub new-IsSafe : IsSafe new_ask_user_tool
unfolding new_ask_user_tool lookup
new-IsSafe = record { served = λ id r h. absurd (cc); unshared = λ id other r h g. absurd (cc) }

Serves-append :
    (cs : List (Chan String)) (c : Chan String) (r : ℕ) → Serves cs r → Serves (cs ++ c ∷ []) r
Serves-append cs c r (d, at, o, k) = (d, get_elem?-append_old cs c r at, o, k)

Serves-make : (cs : List (Chan String)) → Serves (cs ++ make_chan 1 ∷ []) (length cs)
unfolding make_chan
Serves-make cs = (make_chan 1, get_elem?-append_new cs (make_chan 1), refl, refl)

Serves-set_ne :
    (cs : List (Chan String)) (q r : ℕ) (c : Chan String)
    → q ≢ r
    → Serves cs r
    → Serves (set cs q c) r
Serves-set_ne cs q r c ne (d, at, o, k) = (d, get_elem?-set_ne cs q r c ne ∙ at, o, k)

pub pending-lt :
    (t : AskUserTool) (id : String) (r : ℕ)
    → IsSafe t
    → lookup id t.pending_requests ≡ some r
    → r < length t.channels
pending-lt t id r v h = get_elem?-lt t.channels r (v.served id r h).1

register_unshared :
    (t : AskUserTool) (id j k : String) (r : ℕ)
    → IsSafe t
    → lookup j (register t id).0.pending_requests ≡ some r
    → lookup k (register t id).0.pending_requests ≡ some r
    → j ≡ k
unfolding register
register_unshared t id j k r v h g = ground (
  arith,
  lookup-insert_cases id j (length t.channels) r t.pending_requests h,
  lookup-insert_cases id k (length t.channels) r t.pending_requests g,
  v.unshared j k r,
  pending-lt t j r v,
  pending-lt t k r v,
)

pub register-IsSafe : (t : AskUserTool) (id : String) → IsSafe t → IsSafe (register t id).0
unfolding register
register-IsSafe t id v = record {
  served = λ j r h. elim (lookup-insert_cases id j (length t.channels) r t.pending_requests h) [
    | inl (_, e) ↦ rw e (Serves-make t.channels)
    | inr (_, old) ↦ Serves-append t.channels (make_chan 1) r (v.served j r old)
  ];
  unshared = λ j k r h g. register_unshared t id j k r v h g;
}

-- A channel that is replaced by an open one still serves.
Serves-set :
    (cs : List (Chan String)) (q r : ℕ) (c d : Chan String)
    → get_elem? cs q ≡ some d
    → c.is_open ≡ true
    → c.capacity ≡ 1
    → Serves cs r
    → Serves (set cs q c) r
Serves-set cs q r c d at o k s = elim (ℕ_discrete q r) [
  | yes e ↦
      (c, subst (λ i. get_elem? (set cs q c) i ≡ some c) e (get_elem?-set_self cs q c at), o, k)
  | no ne ↦ Serves-set_ne cs q r c ne s
]

pub set_channel-IsSafe :
    (t : AskUserTool) (q : ℕ) (c d : Chan String)
    → get_elem? t.channels q ≡ some d
    → c.is_open ≡ true
    → c.capacity ≡ 1
    → IsSafe t
    → IsSafe (record t { channels = set t.channels q c })
set_channel-IsSafe t q c d at o k v = record {
  served = λ j r h. Serves-set t.channels q r c d at o k (v.served j r h);
  unshared = v.unshared;
}

-- Either outcome of a send on an open channel of capacity 1.
try_send_open :
    (c : Chan String) (a : String)
    → c.is_open ≡ true
    → (try_send c a ≡ full)
      ⊎ ((d : Chan String) × (try_send c a ≡ sent d)
          × (d.is_open ≡ true)
          × (d.capacity ≡ c.capacity))
unfolding try_send
try_send_open c a o = elim (Bool-cases (ltb (length c.buffer) c.capacity)) [
  | inl room ↦ inr (record c { buffer = c.buffer ++ a ∷ [] }, ground arith, o, refl)
  | inr none_left ↦ inl (ground arith)
]

abbrev pub Returns : Handled → Type 0
Returns h = (t : AskUserTool) × (e : Error) × (h ≡ returned t e) × IsSafe t

after_send-Returns :
    (t : AskUserTool) (id a : String) (r : ℕ) (c : Chan String)
    → IsSafe t
    → get_elem? t.channels r ≡ some c
    → c.is_open ≡ true
    → c.capacity ≡ 1
    → Returns (after_send t id r (try_send c a))
unfolding after_send
after_send-Returns t id a r c v at o k = elim (try_send_open c a o) [
  | inl e ↦ rw (e, after_send) (_, _, refl, v)
  | inr (d, e, o', k') ↦
      rw (e, after_send) (_, _, refl, set_channel-IsSafe t r d c at o' (k' ∙ k) v)
]

-- `HandleUserResponse`, run to its end without another goroutine in between, never panics on a safe
-- tool: it returns, with an error or without, and the tool is safe again.
pub handle_user_response-Returns :
    (t : AskUserTool) (id a : String) → IsSafe t → Returns (handle_user_response t id a)
unfolding handle_user_response
handle_user_response-Returns t id a v = elim (Option-cases (find_pending t id)) [
  | inl e ↦ rw (e, handle_user_response) (_, _, refl, v)
  | inr (r, e) ↦
      rw (e, handle_user_response)
        (unfold send_answer find_pending in
          let (c, at, o, k) = v.served id r e in
          rw (at, send_answer) (after_send-Returns t id a r c v at o k))
]

close_open : (c : Chan String) → c.is_open ≡ true → close c ≡ done (record c { is_open = false })
unfolding close
close_open c o = ground arith

-- The tool after `finish`, if `c` is the channel of the request.
abbrev forgotten : AskUserTool → String → ℕ → Chan String → AskUserTool
forgotten t id r c = record {
  pending_requests = delete id t.pending_requests;
  channels = set t.channels r (record c { is_open = false });
}

forgotten-served :
    (t : AskUserTool) (id j : String) (r q : ℕ) (c : Chan String)
    → IsSafe t
    → lookup id t.pending_requests ≡ some r
    → lookup j (delete id t.pending_requests) ≡ some q
    → Serves (forgotten t id r c).channels q
forgotten-served t id j r q c v h g =
    let (ne, old) = lookup-delete_cases id j q t.pending_requests g in
    Serves-set_ne t.channels r q (record c { is_open = false })
      (λ e. ne (v.unshared id j q (h ∙ ap some e) old)) (v.served j q old)

forgotten-IsSafe :
    (t : AskUserTool) (id : String) (r : ℕ) (c : Chan String)
    → IsSafe t
    → lookup id t.pending_requests ≡ some r
    → IsSafe (forgotten t id r c)
forgotten-IsSafe t id r c v h = record {
  served = λ j q g. forgotten-served t id j r q c v h g;
  unshared = λ j k q g g'.
      v.unshared j k q (lookup-delete_cases id j q t.pending_requests g).1
        (lookup-delete_cases id k q t.pending_requests g').1;
}

-- The clean-up of a call that is still registered under its own channel does not panic, forgets the
-- request, and leaves a safe tool in which every other request keeps its channel.
pub finish-IsSafe :
    (t : AskUserTool) (id : String) (r : ℕ)
    → IsSafe t
    → lookup id t.pending_requests ≡ some r
    → (t' : AskUserTool) × (finish t id r ≡ done t')
      × (t'.pending_requests ≡ delete id t.pending_requests)
      × IsSafe t'
unfolding finish
finish-IsSafe t id r v h =
    let (c, at, o, k) = v.served id r h in
    (forgotten t id r c, rw (at, finish) (rw (close_open c o)), refl, forgotten-IsSafe t id r c v h)
