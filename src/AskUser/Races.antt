-- ===== src/AskUser/Races.antt =====
-- Methods of internal/tools/ask_user.go that interleave, and calls with one request id.
use frontend_router_mcp.Base.{
  ℕ, ◌≡◌, refl, arith, String, some, delete, length, get_elem?, set, lookup-delete, eq_refl, ◌∙◌,
  false, Option-cases, inl, inr, get_elem?-set_self, get_elem?-set_ne, get_elem?-append_old,
  get_elem?-append_new, length-append, ◌++◌, ◌∷◌, [], ◌≢◌,
}
use frontend_router_mcp.Errors.{
  Error, not_found, get_type, as_app, with_request_id, new_not_found_error,
}
use frontend_router_mcp.Channel.{done, panic, make_chan, close, try_send}
use frontend_router_mcp.AskUser.{
  AskUserTool, returned, panicked, register, finish, find_pending, send_answer,
  handle_user_response, not_found_error,
}
use frontend_router_mcp.AskUser.RoundTrip.{register-channel, finish_open}

-- If a call cleans up after a response has looked its channel up and before the response sends on
-- it, the send panics: the channel is closed by then.
pub late_answer_panics :
    (t u : AskUserTool) (id a : String) (r : ℕ)
    → find_pending t id ≡ some r
    → finish t id r ≡ done u
    → send_answer u id a r ≡ panicked
unfolding finish send_answer close try_send
late_answer_panics t u id a r p f = elim (Option-cases (get_elem? t.channels r)) [
  | inl e ↦ cc (let q : finish t id r ≡ panic = rw (e, finish) in q)
  | inr (c, e) ↦ ground (arith, get_elem?-set_self t.channels r (record c { is_open = false }) e)
]

first_kept :
    (t : AskUserTool) (id : String)
    → get_elem? (register (register t id).0 id).0.channels (register t id).1 ≡ some (make_chan 1)
unfolding register
first_kept t id =
    get_elem?-append_old (t.channels ++ make_chan 1 ∷ []) (make_chan 1) (length t.channels)
      (get_elem?-append_new t.channels (make_chan 1))

first-ne-second :
    (t : AskUserTool) (id : String) → (register t id).1 ≢ (register (register t id).0 id).1
unfolding register
first-ne-second t id e = omega (arith, length-append t.channels (make_chan 1 ∷ []))

-- Two calls that are given one request id: when the first has cleaned up, a response to that id is
-- refused with an error of type not found, though the second call still waits on a channel that is
-- open and empty.
pub collision_loses_request :
    (t : AskUserTool) (id a : String)
    → let (t1, first) = register t id in
      let (t2, second) = register t1 id in
      (t3 : AskUserTool) × (e : Error) × (finish t2 id first ≡ done t3)
      × (handle_user_response t3 id a ≡ returned t3 e)
      × (get_type e ≡ not_found)
      × (get_elem? t3.channels second ≡ some (make_chan 1))
collision_loses_request t id a =
    let (t1, first) = register t id in
    let (t2, second) = register t1 id in
    (
      record {
        pending_requests = delete id t2.pending_requests;
        channels = set t2.channels first (record (make_chan 1) { is_open = false });
      },
      not_found_error id,
      finish_open t2 id first (make_chan 1) (first_kept t id) (unfold make_chan in refl),
      unfold handle_user_response in
          ground (arith, lookup-delete id id t2.pending_requests, eq_refl id),
      unfold not_found_error get_type as_app with_request_id new_not_found_error in refl,
      get_elem?-set_ne t2.channels first second _ (first-ne-second t id) ∙ register-channel t1 id,
    )
