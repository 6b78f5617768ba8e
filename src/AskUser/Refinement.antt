-- ===== src/AskUser/Refinement.antt =====
-- Runs of the methods of the ask_user tool (internal/tools/ask_user.go) against the board of
-- AskUser/Board.
use frontend_router_mcp.Base.{
  ℕ, ◌≡◌, ◌⊎◌, refl, ap, ◌∙◌, subst, arith, String, false, List, [], ◌∷◌, none, some, delete,
  get_elem?, set, str_eq, eq_iff, lookup-delete, inl, inr, Option-cases, Bool-cases,
}
use frontend_router_mcp.Errors.{
  Error, get_type, as_app, wrap, with_context, with_request_id, new_timeout_error,
}
use frontend_router_mcp.Channel.{Chan, receive}
use frontend_router_mcp.AskUser.{
  answered, wake, timeout_error, cancel_error, handler_error, AskUserTool, failed,
}
use frontend_router_mcp.AskUser.RoundTrip.{at_channel, wake-answered, finish_open}
use frontend_router_mcp.AskUser.Board.{
  Phase, asking, leaving, ended, Leave, timer, context, handler, Seat, Board, new_board, enter,
  leave_type, Operation, ask_op, respond_op, receive_op, leave_op, finish_op, promise, promised,
}
use frontend_router_mcp.AskUser.Running.{Call, Running, no_calls, step, outcomes, leave_reply}
use frontend_router_mcp.AskUser.Views.{
  buffer_of, Taken, IsLive, Views, no_calls-Views, Replaced, set-Replaced, same-Replaced, none_too,
  replaced-Views,
}
use frontend_router_mcp.AskUser.Agreement.{Agrees, ask-Agrees, respond-Agrees, goes_on}

pub Phase-cases : (p : Phase) → (p ≡ asking) ⊎ (p ≡ leaving) ⊎ (p ≡ ended)
Phase-cases asking = inl refl
Phase-cases leaving = inr (inl refl)
Phase-cases ended = inr (inr refl)

wake-empty :
    (t : AskUserTool) (id : String) (wait r : ℕ) (c : Chan String)
    → get_elem? t.channels r ≡ some c
    → c.buffer ≡ []
    → wake t id wait r answered ≡ none
unfolding wake receive
wake-empty t id wait r c at b = ground arith

leave_reply_lem :
    (t : AskUserTool) (c : Call) (l : Leave)
    → (e : Error) × (leave_reply t c l ≡ some (t, failed e)) × (get_type e ≡ leave_type l)
unfolding wake timeout_error cancel_error handler_error get_type as_app wrap with_context
    with_request_id new_timeout_error leave_reply
leave_reply_lem t c (timer seconds) = (_, refl, refl)
leave_reply_lem t c (context text) = (_, refl, refl)
leave_reply_lem t c (handler text question) = (_, refl, refl)

module _ (r : Running) (b : Board) (v : Views r b) where
  -- A call whose seat is taken, and that is not asking, neither receives nor gives up.
  receive-Agrees : (n : ℕ) → Agrees (step r (receive_op n)) (promise b (receive_op n))
  unfolding step promise
  receive-Agrees n = elim (Option-cases (get_elem? b.seats n)) [
    | inl e ↦ rw (e, none_too b.seats r.calls n v.as_many_calls e, step, promise) (refl, v)
    | inr (s, e) ↦
        let t = v.taken n s e in
        let phase = t.matches.phase in
        let own = t.matches.own in
        elim (Phase-cases t.seat.phase) [
          | inr (inl out) ↦ rw (t.seat_at, t.call_at, phase, out, step, promise) (refl, v)
          | inr (inr out) ↦ rw (t.seat_at, t.call_at, phase, out, step, promise) (refl, v)
          | inl on ↦ elim (Option-cases t.seat.held) [
            | inl none_held ↦
                let empty : t.chan.buffer ≡ [] = t.matches.buffer ∙ ap buffer_of none_held in
                rw
                  (
                    t.seat_at,
                    t.call_at,
                    phase,
                    on,
                    own,
                    none_held,
                    step,
                    promise,
                    wake-empty r.tool t.call.request_id 0 n t.chan t.chan_at empty,
                  )
                  (refl, v)
            | inr (a, one_held) ↦
                let full : t.chan.buffer ≡ a ∷ [] = t.matches.buffer ∙ ap buffer_of one_held in
                let ch = record t.chan { buffer = [] } in
                let c : Call = record {
                  request_id = t.call.request_id;
                  response_ch = n;
                  phase = leaving;
                } in
                rw
                  (
                    t.seat_at,
                    t.call_at,
                    phase,
                    on,
                    own,
                    one_held,
                    step,
                    promise,
                    wake-answered r.tool t.call.request_id a 0 n t.chan [] t.chan_at full,
                  )
                  (
                    refl,
                    goes_on r b v
                        (record { tool = at_channel r.tool n ch; calls = set r.calls n c }) n t.seat
                        (record t.seat { held = none; phase = leaving }) c ch t.seat_at refl
                        (λ q. cc) (set-Replaced n r.calls c t.call_at)
                        (set-Replaced n r.tool.channels ch t.chan_at)
                        (record {
                          id = t.matches.id;
                          own = refl;
                          phase = refl;
                          is_open = λ _. t.matches.is_open (λ q. cc);
                          capacity = t.matches.capacity;
                          buffer = refl;
                        })
                        refl,
                  )
          ]
        ]
  ]

  leave-Agrees : (n : ℕ) (l : Leave) → Agrees (step r (leave_op n l)) (promise b (leave_op n l))
  unfolding step promise
  leave-Agrees n l = elim (Option-cases (get_elem? b.seats n)) [
    | inl e ↦ rw (e, none_too b.seats r.calls n v.as_many_calls e, step, promise) (refl, v)
    | inr (s, e) ↦
        let t = v.taken n s e in
        let phase = t.matches.phase in
        elim (Phase-cases t.seat.phase) [
          | inr (inl out) ↦ rw (t.seat_at, t.call_at, phase, out, step, promise) (refl, v)
          | inr (inr out) ↦ rw (t.seat_at, t.call_at, phase, out, step, promise) (refl, v)
          | inl on ↦
              let (err, replied, kind) = leave_reply_lem r.tool t.call l in
              let c = record t.call { phase = leaving } in
              rw (t.seat_at, t.call_at, phase, on, replied, kind, step, promise)
                (
                  refl,
                  goes_on r b v (record r { calls = set r.calls n c }) n t.seat
                      (record t.seat { phase = leaving }) c t.chan t.seat_at refl (λ q. cc)
                      (set-Replaced n r.calls c t.call_at)
                      (same-Replaced n r.tool.channels t.chan t.chan_at)
                      (record {
                        id = t.matches.id;
                        own = t.matches.own;
                        phase = refl;
                        is_open = λ _. t.matches.is_open (λ q. cc);
                        capacity = t.matches.capacity;
                        buffer = t.matches.buffer;
                      })
                      refl,
                )
        ]
  ]

  finish-Taken :
      (n : ℕ) (t : Taken r b n)
      → t.seat.phase ≡ leaving
      → Agrees (step r (finish_op n)) (promise b (finish_op n))
  unfolding step promise
  finish-Taken n t out =
      let o = t.matches.is_open (λ q. cc) in
      let ch = record t.chan { is_open = false } in
      let c : Call = record { request_id = t.seat.id; response_ch = n; phase = ended } in
      let s = record t.seat { phase = ended } in
      let id = t.matches.id in
      let seats = set-Replaced n b.seats s t.seat_at in
      rw
        (
          t.seat_at,
          t.call_at,
          t.matches.phase,
          out,
          t.matches.own,
          id,
          step,
          promise,
          finish_open r.tool t.seat.id n t.chan t.chan_at o,
        )
        (
          refl,
          replaced-Views r
              (record {
                tool = record {
                  pending_requests = delete t.seat.id r.tool.pending_requests;
                  channels = set r.tool.channels n ch;
                };
                calls = set r.calls n c;
              })
              b (record { seats = set b.seats n s; entries = enter t.seat.id none b.entries }) n c
              ch s v (set-Replaced n r.calls c t.call_at)
              (set-Replaced n r.tool.channels ch t.chan_at) seats
              (record {
                id = refl;
                own = refl;
                phase = refl;
                is_open = λ on. absurd (on refl);
                capacity = t.matches.capacity;
                buffer = t.matches.buffer;
              })
              (λ j. ground (arith, lookup-delete t.seat.id j r.tool.pending_requests, v.entered j))
              (λ j m h. other-IsLive n t s j m seats h),
        )
    where
      other-IsLive :
          (n : ℕ) (t : Taken r b n) (s : Seat) (j : String) (m : ℕ)
          → Replaced n b.seats (set b.seats n s) s
          → enter t.seat.id none b.entries j ≡ some m
          → IsLive (set b.seats n s) j m
      other-IsLive n t s j m seats h = elim (Bool-cases (str_eq t.seat.id j)) [
        | inl same ↦ absurd (ground arith)
        | inr other ↦
            let (u, at, id, on) = v.live j m (ground arith) in
            (
              u,
              seats.elsewhere m (λ e.
                    let q : get_elem? b.seats m ≡ some t.seat =
                      subst (λ i. get_elem? b.seats i ≡ some t.seat) e t.seat_at in
                    let w : u ≡ t.seat = cc in ground (arith, eq_iff t.seat.id j, ap (λ x. x.id) w))
                  ∙ at,
              id,
              on,
            )
      ]

  finish-Agrees : (n : ℕ) → Agrees (step r (finish_op n)) (promise b (finish_op n))
  unfolding step promise
  finish-Agrees n = elim (Option-cases (get_elem? b.seats n)) [
    | inl e ↦ rw (e, none_too b.seats r.calls n v.as_many_calls e, step, promise) (refl, v)
    | inr (s, e) ↦
        let t = v.taken n s e in
        let phase = t.matches.phase in
        elim (Phase-cases t.seat.phase) [
          | inl on ↦ rw (t.seat_at, t.call_at, phase, on, step, promise) (refl, v)
          | inr (inl out) ↦ finish-Taken n t out
          | inr (inr out) ↦ rw (t.seat_at, t.call_at, phase, out, step, promise) (refl, v)
        ]
  ]

pub step-Agrees :
    (r : Running) (b : Board) (o : Operation) → Views r b → Agrees (step r o) (promise b o)
step-Agrees r b (ask_op id) v = ask-Agrees r b v id
step-Agrees r b (respond_op id a) v = respond-Agrees r b v id a
step-Agrees r b (receive_op n) v = receive-Agrees r b v n
step-Agrees r b (leave_op n l) v = leave-Agrees r b v n l
step-Agrees r b (finish_op n) v = finish-Agrees r b v n

outcomes_agree :
    (r : Running) (b : Board) (os : List Operation) → Views r b → outcomes r os ≡ promised b os
unfolding outcomes promised
outcomes_agree r b [] v = refl
outcomes_agree r b (o ∷ os) v =
    let (same, v') = step-Agrees r b o v in
    rw (same, outcomes_agree (step r o).0 (promise b o).0 os v') refl

-- The tool keeps the promise of the board. From a new tool, any sequence of registrations, responses,
-- receipts, calls that give up and clean-ups, each run to its end, has the outcomes that a board with a
-- seat for each call gives: the first response to the call that has the id is accepted, a second one is
-- refused with an error of type internal until the call has taken the first, and one to an id without
-- an entry with one of type not_found; a call receives the answer in its own seat, and not before, or
-- gives up with an error of type timeout, or internal for the context and the question handler; and
-- nothing panics, whatever ids the requests have. A repeated id belongs to the later call, and the
-- clean-up of the earlier one takes that entry away.
pub outcomes-promised : (os : List Operation) → outcomes no_calls os ≡ promised new_board os
outcomes-promised os = outcomes_agree no_calls new_board os no_calls-Views
