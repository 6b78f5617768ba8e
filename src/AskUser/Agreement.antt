-- ===== src/AskUser/Agreement.antt =====
-- Registrations and responses of the ask_user tool (internal/tools/ask_user.go) against the board of
-- AskUser/Board.
use frontend_router_mcp.Base.{
  ℕ, ◌≤◌, ◌≡◌, ◌≢◌, refl, ap, ◌∙◌, subst, arith, String, true, List, [], ◌∷◌, ◌++◌, none, some,
  lookup, length, get_elem?, set, str_eq, eq_iff, lookup-insert, inl, inr, Option-cases, Bool-cases,
  get_elem?-append_new, get_elem?-append_old, get_elem?-append_cases, length-append,
}
use frontend_router_mcp.Errors.{
  not_found, internal, get_type, as_app, with_request_id, new_not_found_error, new_internal_error,
}
use frontend_router_mcp.Channel.{Chan, make_chan, try_send}
use frontend_router_mcp.AskUser.{
  register, find_pending, handle_user_response, send_answer, not_found_error, full_error,
}
use frontend_router_mcp.AskUser.RoundTrip.{at_channel, respond_first}
use frontend_router_mcp.AskUser.Board.{
  asking, ended, Seat, Board, ask_op, respond_op, Outcome, refused, promise,
}
use frontend_router_mcp.AskUser.Running.{Call, Running, step, responded, outcome_of}
use frontend_router_mcp.AskUser.Views.{
  buffer_of, Matches, Taken, IsLive, Views, Replaced, set-Replaced, same-Replaced, replaced-Views,
  kept-IsLive,
}

-- What one operation has to show.
abbrev pub Agrees : Running × Outcome → Board × Outcome → Type 0
Agrees (r, o) (b, p) = (o ≡ p) × Views r b

respond_unknown :
    (r : Running) (id a : String)
    → lookup id r.tool.pending_requests ≡ none
    → responded r (handle_user_response r.tool id a) ≡ (r, refused not_found)
unfolding handle_user_response find_pending responded outcome_of get_type as_app with_request_id
    not_found_error new_not_found_error
respond_unknown r id a p = ground arith

respond_held :
    (r : Running) (id a : String) (n : ℕ) (c : Chan String)
    → lookup id r.tool.pending_requests ≡ some n
    → get_elem? r.tool.channels n ≡ some c
    → c.is_open ≡ true
    → c.capacity ≤ length c.buffer
    → responded r (handle_user_response r.tool id a) ≡ (r, refused internal)
unfolding handle_user_response send_answer try_send find_pending responded outcome_of get_type
    as_app with_request_id full_error new_internal_error
respond_held r id a n c p at o room = ground arith

new_at :
    {A : Type 0} (xs : List A) (x : A) (n : ℕ) → length xs ≡ n → get_elem? (xs ++ x ∷ []) n ≡ some x
new_at xs x n e = subst (λ i. get_elem? (xs ++ x ∷ []) i ≡ some x) e (get_elem?-append_new xs x)

module _ (r : Running) (b : Board) (v : Views r b) where
  ask-Taken :
      (id : String) (n : ℕ) (s : Seat)
      → get_elem? (promise b (ask_op id)).0.seats n ≡ some s
      → Taken (step r (ask_op id)).0 (promise b (ask_op id)).0 n
  unfolding step promise register make_chan
  ask-Taken id n s at = elim (get_elem?-append_cases b.seats _ n at) [
    | inl (e, new) ↦
        let calls : length r.calls ≡ n = omega (arith, e, v.as_many_calls) in
        let chans : length r.tool.channels ≡ n = omega (arith, e, v.as_many_channels) in
        record {
          seat = s;
          call = record { request_id = id; response_ch = length r.tool.channels; phase = asking };
          chan = make_chan 1;
          seat_at = at;
          call_at =
              new_at r.calls
                (record { request_id = id; response_ch = length r.tool.channels; phase = asking }) n
                calls;
          chan_at = new_at r.tool.channels (make_chan 1) n chans;
          matches = rw new (record {
            id = refl;
            own = chans;
            phase = refl;
            is_open = λ on. refl;
            capacity = refl;
            buffer = refl;
          });
        }
    | inr old ↦
        let t = v.taken n s old in
        record {
          seat = t.seat;
          call = t.call;
          chan = t.chan;
          seat_at = get_elem?-append_old b.seats _ n t.seat_at;
          call_at = get_elem?-append_old r.calls _ n t.call_at;
          chan_at = get_elem?-append_old r.tool.channels _ n t.chan_at;
          matches = t.matches;
        }
  ]

  ask-IsLive :
      (id j : String) (n : ℕ)
      → (promise b (ask_op id)).0.entries j ≡ some n
      → IsLive (promise b (ask_op id)).0.seats j n
  unfolding promise
  ask-IsLive id j n h = elim (Bool-cases (str_eq id j)) [
    | inl same ↦
        let e : length b.seats ≡ n = ground arith in
        (
          record { id = id; held = none; phase = asking },
          new_at b.seats (record { id = id; held = none; phase = asking }) n e,
          ground (arith, eq_iff id j),
          λ q. cc,
        )
    | inr other ↦
        let (s, at, p, on) = v.live j n (ground arith) in
        (s, get_elem?-append_old b.seats _ n at, p, on)
  ]

  pub ask-Agrees : (id : String) → Agrees (step r (ask_op id)) (promise b (ask_op id))
  unfolding step promise register
  ask-Agrees id = (
    refl,
    record {
      as_many_calls =
          omega (
            arith,
            length-append r.calls (_ ∷ []),
            length-append b.seats (_ ∷ []),
            v.as_many_calls,
          );
      as_many_channels = omega (
        arith,
        length-append r.tool.channels (_ ∷ []),
        length-append b.seats (_ ∷ []),
        v.as_many_channels,
      );
      taken = λ n s at. ask-Taken id n s at;
      entered = λ j. ground (
        arith,
        lookup-insert id j (length r.tool.channels) r.tool.pending_requests,
        v.entered j,
        v.as_many_channels,
      );
      live = λ j n h. ask-IsLive id j n h;
    },
  )

  -- A call that goes on, under the entries as they are.
  pub goes_on :
      (r' : Running) (n : ℕ) (s s' : Seat) (c : Call) (ch : Chan String)
      → get_elem? b.seats n ≡ some s
      → s'.id ≡ s.id
      → s'.phase ≢ ended
      → Replaced n r.calls r'.calls c
      → Replaced n r.tool.channels r'.tool.channels ch
      → Matches n c ch s'
      → r'.tool.pending_requests ≡ r.tool.pending_requests
      → Views r' (record b { seats = set b.seats n s' })
  goes_on r' n s s' c ch at same on calls chans good pending =
      let seats = set-Replaced n b.seats s' at in
      replaced-Views r r' b (record b { seats = set b.seats n s' }) n c ch s' v calls chans seats
        good (λ j. ap (lookup j) pending ∙ v.entered j)
        (λ j m h. kept-IsLive b.seats (set b.seats n s') n s s' j m seats at same on (v.live j m h))

  respond-Taken :
      (id a : String) (n : ℕ) (t : Taken r b n)
      → b.entries id ≡ some n
      → lookup id r.tool.pending_requests ≡ some n
      → t.seat.phase ≢ ended
      → Agrees (step r (respond_op id a)) (promise b (respond_op id a))
  unfolding step promise responded outcome_of
  respond-Taken id a n t e p on =
      let ch = t.chan in
      let o = t.matches.is_open on in
      elim (Option-cases t.seat.held) [
        | inl none_held ↦
            let empty : ch.buffer ≡ [] = t.matches.buffer ∙ ap buffer_of none_held in
            let ch' = record ch { buffer = ch.buffer ++ a ∷ [] } in
            rw
              (
                e,
                t.seat_at,
                none_held,
                promise,
                respond_first r.tool id a n ch p t.chan_at o
                    (rw (t.matches.capacity, empty) (omega arith)),
              )
              (
                refl,
                goes_on (record r { tool = at_channel r.tool n ch' }) n t.seat
                    (record t.seat { held = some a }) t.call ch' t.seat_at refl on
                    (same-Replaced n r.calls t.call t.call_at)
                    (set-Replaced n r.tool.channels ch' t.chan_at)
                    (record {
                      id = t.matches.id;
                      own = t.matches.own;
                      phase = t.matches.phase;
                      is_open = λ _. o;
                      capacity = t.matches.capacity;
                      buffer = rw empty refl;
                    })
                    refl,
              )
        | inr (first, one_held) ↦
            let full : ch.buffer ≡ first ∷ [] = t.matches.buffer ∙ ap buffer_of one_held in
            rw
              (
                e,
                t.seat_at,
                one_held,
                promise,
                respond_held r id a n ch p t.chan_at o
                    (rw (t.matches.capacity, full) (omega arith)),
              )
              (refl, v)
      ]

  pub respond-Agrees :
      (id a : String) → Agrees (step r (respond_op id a)) (promise b (respond_op id a))
  unfolding step promise
  respond-Agrees id a = elim (Option-cases (b.entries id)) [
    | inl e ↦ rw (e, promise, respond_unknown r id a (v.entered id ∙ e)) (refl, v)
    | inr (n, e) ↦
        let (s, at, _, on) = v.live id n e in
        let t = v.taken n s at in
        let same : s ≡ t.seat = cc (at, t.seat_at) in
        respond-Taken id a n t e (v.entered id ∙ e) (subst (λ x. x.phase ≢ ended) same on)
  ]
