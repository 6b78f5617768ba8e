-- ===== src/AskUser/RoundTrip.antt =====
-- A question and its answer in internal/tools/ask_user.go, from `Execute` to `HandleUserResponse`.
use frontend_router_mcp.Base.{
  ℕ, ◌≤◌, ◌<◌, ◌≡◌, ◌≢◌, refl, arith, String, true, false, List, [], ◌∷◌, ◌++◌, none, some, lookup,
  insert, delete, length, get_elem?, set, eq_iff, eq_refl, lookup-insert, lookup-delete,
  get_elem?-append_new, get_elem?-set_self,
}
use frontend_router_mcp.Errors.{
  Error, nil, internal, get_type, as_app, with_request_id, new_internal_error,
}
use frontend_router_mcp.Channel.{Chan, done, make_chan, try_send, close, receive}
use frontend_router_mcp.AskUser.{
  AskUserTool, returned, answered, answer, register, finish, wake, send_answer,
  handle_user_response, full_error,
}

-- `t` with one channel replaced.
abbrev pub at_channel : AskUserTool → ℕ → Chan String → AskUserTool
at_channel t r c = record t { channels = set t.channels r c }

pub respond_first :
    (t : AskUserTool) (id a : String) (r : ℕ) (c : Chan String)
    → lookup id t.pending_requests ≡ some r
    → get_elem? t.channels r ≡ some c
    → c.is_open ≡ true
    → length c.buffer < c.capacity
    → handle_user_response t id a
      ≡ returned (at_channel t r (record c { buffer = c.buffer ++ a ∷ [] })) nil
unfolding handle_user_response send_answer try_send
respond_first t id a r c p at o room = ground arith

pub respond_full :
    (t : AskUserTool) (id a : String) (r : ℕ) (c : Chan String)
    → lookup id t.pending_requests ≡ some r
    → get_elem? t.channels r ≡ some c
    → c.is_open ≡ true
    → c.capacity ≤ length c.buffer
    → (e : Error) × (handle_user_response t id a ≡ returned t e) × (get_type e ≡ internal)
unfolding handle_user_response send_answer try_send
respond_full t id a r c p at o room = (
  full_error id,
  ground arith,
  unfold full_error get_type as_app with_request_id new_internal_error in refl,
)

pub wake-answered :
    (t : AskUserTool) (id a : String) (wait r : ℕ) (c : Chan String) (rest : List String)
    → get_elem? t.channels r ≡ some c
    → c.buffer ≡ a ∷ rest
    → wake t id wait r answered ≡ some (at_channel t r (record c { buffer = rest }), answer a)
unfolding wake receive
wake-answered t id a wait r c rest at b = ground arith

pub finish_open :
    (t : AskUserTool) (id : String) (r : ℕ) (c : Chan String)
    → get_elem? t.channels r ≡ some c
    → c.is_open ≡ true
    → finish t id r
      ≡ done (record {
        pending_requests = delete id t.pending_requests;
        channels = set t.channels r (record c { is_open = false });
      })
unfolding finish close
finish_open t id r c at o = ground arith

pub register-lookup :
    (t : AskUserTool) (id : String)
    → lookup id (register t id).0.pending_requests ≡ some (register t id).1
unfolding register
register-lookup t id =
    ground (arith, lookup-insert id id (length t.channels) t.pending_requests, eq_refl id)

pub register-channel :
    (t : AskUserTool) (id : String)
    → get_elem? (register t id).0.channels (register t id).1 ≡ some (make_chan 1)
unfolding register
register-channel t id = get_elem?-append_new t.channels (make_chan 1)

-- The other requests, once this one has come and gone.
others_kept :
    (t : AskUserTool) (id other : String)
    → id ≢ other
    → lookup other (delete id (register t id).0.pending_requests) ≡ lookup other t.pending_requests
unfolding register
others_kept t id other ne = ground (
  arith,
  lookup-delete id other (insert id (length t.channels) t.pending_requests),
  lookup-insert id other (length t.channels) t.pending_requests,
  eq_iff id other,
)

-- The answer that `HandleUserResponse` accepts for a fresh registration is the one that the waiting
-- call receives: the response returns no error; a second response before the call wakes up is
-- refused with an error of type internal and changes nothing; the call then wakes with the first
-- answer; and its clean-up succeeds and forgets the request, while every other request keeps its
-- channel.
pub answer_round_trip :
    (t : AskUserTool) (id a b : String) (wait : ℕ)
    → let (t1, r) = register t id in
      (t2 : AskUserTool) × (t3 : AskUserTool) × (t4 : AskUserTool) × (e : Error)
      × (handle_user_response t1 id a ≡ returned t2 nil)
      × (handle_user_response t2 id b ≡ returned t2 e)
      × (get_type e ≡ internal)
      × (wake t2 id wait r answered ≡ some (t3, answer a))
      × (finish t3 id r ≡ done t4)
      × (lookup id t4.pending_requests ≡ none)
      × ((other : String)
          → id ≢ other
          → lookup other t4.pending_requests ≡ lookup other t.pending_requests)
answer_round_trip t id a b wait =
    let (t1, r) = register t id in
    let c1 : Chan String = record { buffer = a ∷ []; capacity = 1; is_open = true } in
    let c0 : Chan String = record c1 { buffer = [] } in
    let t2 = at_channel t1 r c1 in
    let made = register-channel t id in
    let at2 = get_elem?-set_self t1.channels r c1 made in
    let at3 = get_elem?-set_self t2.channels r c0 at2 in
    let (e, refused, kind) =
      respond_full t2 id b r c1 (register-lookup t id) at2 refl (omega arith) in
    (
      t2,
      at_channel t2 r c0,
      record {
        pending_requests = delete id t1.pending_requests;
        channels = set (set (set t1.channels r c1) r c0) r (record c0 { is_open = false });
      },
      e,
      unfold make_chan in
          respond_first t1 id a r (make_chan 1) (register-lookup t id) made refl (omega arith),
      refused,
      kind,
      wake-answered t2 id a wait r c1 [] at2 refl,
      finish_open (at_channel t2 r c0) id r c0 at3 refl,
      ground (arith, lookup-delete id id t1.pending_requests, eq_refl id),
      λ other ne. others_kept t id other ne,
    )
