-- ===== src/AskUser/Asked.antt =====
-- A call of internal/tools/ask_user.go from its registration to its answer, among other calls.
use frontend_router_mcp.Base.{
  ℕ, ◌≡◌, ◌≢◌, inl, inr, refl, sym, ap, subst, ◌∙◌, arith, String, List, [], ◌∷◌, ◌++◌, Option,
  none, some, length, get_elem?, set, eq_refl, get_elem?-append_new, get_elem?-append_cases,
  get_elem?-set_self, get_elem?-set_ne,
}
use frontend_router_mcp.AskUser.Board.{
  asking, Seat, Board, new_board, Operation, ask_op, respond_op, receive_op, accepted, got, promise,
}
use frontend_router_mcp.AskUser.Running.{Running, no_calls, step}
use frontend_router_mcp.AskUser.Views.{Views, no_calls-Views}
use frontend_router_mcp.AskUser.Refinement.{step-Agrees}
use frontend_router_mcp.AskUser.Spared.{ran, IsFresh, AllSpare, promise-ids, Stands, spared-Stands}

-- The board that some operations lead to.
abbrev board_after : Board → List Operation → Board
board_after b [] = b
board_after b (o ∷ os) = board_after (promise b o).0 os

ran-Views :
    (r : Running) (b : Board) (os : List Operation)
    → Views r b
    → Views (ran r os) (board_after b os)
ran-Views r b [] v = v
ran-Views r b (o ∷ os) v = ran-Views (step r o).0 (promise b o).0 os ((step-Agrees r b o v).1)

ran-Stands :
    (r : Running) (b : Board) (id : String) (n : ℕ) (held : Option String) (os : List Operation)
    → Views r b
    → Stands b id n held
    → AllSpare id n os
    → Stands (board_after b os) id n held
ran-Stands r b id n held [] v h spared = h
ran-Stands r b id n held (o ∷ os) v h (first, spared) =
    ran-Stands (step r o).0 (promise b o).0 id n held os ((step-Agrees r b o v).1)
      (spared-Stands r b v id n held h o first) spared

fresh_alone :
    (b : Board) (id : String) (os : List Operation)
    → IsFresh id os
    → ((m : ℕ) (s : Seat) → get_elem? b.seats m ≡ some s → s.id ≢ id)
    → (m : ℕ) (s : Seat) → get_elem? (board_after b os).seats m ≡ some s
    → s.id ≢ id
fresh_alone b id [] fresh h = h
fresh_alone b id (o ∷ os) (ne, fresh) h = fresh_alone (promise b o).0 id os fresh (λ m s at.
    elim (promise-ids b o m s at) [
      | inl (u, at', same) ↦ λ q. h m u at' (same ∙ q)
      | inr asked ↦ λ q. ne (asked ∙ ap ask_op q)
    ])

held-Stands :
    (b : Board) (id : String) (n : ℕ) (a : String)
    → Stands b id n none
    → Stands (promise b (respond_op id a)).0 id n (some a)
unfolding promise
held-Stands b id n a h =
    let s : Seat = record { id = id; held = some a; phase = asking } in
    rw (h.entry, h.seat, promise)
      (record {
        entry = h.entry;
        seat = get_elem?-set_self b.seats n s h.seat;
        alone = λ m t at ne. h.alone m t (sym (get_elem?-set_ne b.seats n m s ne) ∙ at) ne;
      })

-- After a registration under a new id, and operations that spare the call, its first response is
-- accepted; and after more of them the call receives this response.
pub asked_answered :
    (before between afterwards : List Operation) (id a : String)
    → IsFresh id before
    → let r = ran no_calls before in
      let n = length r.calls in
      AllSpare id n between
      → AllSpare id n afterwards
      → let r' = ran (step r (ask_op id)).0 between in
        let r'' = ran (step r' (respond_op id a)).0 afterwards in
        ((step r' (respond_op id a)).1 ≡ accepted) × ((step r'' (receive_op n)).1 ≡ got a)
unfolding promise
asked_answered before between afterwards id a fresh spared spared' =
    let r = ran no_calls before in
    let b = board_after new_board before in
    let v = ran-Views no_calls new_board before no_calls-Views in
    let n = length r.calls in
    let b1 = (promise b (ask_op id)).0 in
    let many : length b.seats ≡ n = sym v.as_many_calls in
    let alone = fresh_alone new_board id before fresh (λ m s at. cc) in
    let start : Stands b1 id n none = record {
      entry = ground (arith, eq_refl id);
      seat =
          subst
            (λ i.
              get_elem? (b.seats ++ record { id = id; held = none; phase = asking } ∷ []) i
              ≡ some (record { id = id; held = none; phase = asking }))
            many (get_elem?-append_new b.seats (record { id = id; held = none; phase = asking }));
      alone = λ m s at ne. elim (get_elem?-append_cases b.seats _ m at) [
        | inl (e, _) ↦ absurd (ne (sym (e ∙ many)))
        | inr old ↦ alone m s old
      ];
    } in
    let v1 = (step-Agrees r b (ask_op id) v).1 in
    let r' = ran (step r (ask_op id)).0 between in
    let b' = board_after b1 between in
    let v' = ran-Views (step r (ask_op id)).0 b1 between v1 in
    let h' = ran-Stands (step r (ask_op id)).0 b1 id n none between v1 start spared in
    let (told, v2) = step-Agrees r' b' (respond_op id a) v' in
    let holds : promise b' (respond_op id a) ≡ (
      record b' { seats = set b'.seats n (record { id = id; held = some a; phase = asking }) },
      accepted,
    ) =
      rw (h'.entry, h'.seat, promise) refl in
    let b2 = (promise b' (respond_op id a)).0 in
    let h2 : Stands b2 id n (some a) = held-Stands b' id n a h' in
    let r2 = (step r' (respond_op id a)).0 in
    let v3 = ran-Views r2 b2 afterwards v2 in
    let h3 = ran-Stands r2 b2 id n (some a) afterwards v2 h2 spared' in
    let (told', _) =
      step-Agrees (ran r2 afterwards) (board_after b2 afterwards) (receive_op n) v3 in
    (told ∙ ap (λ x. x.1) holds, told' ∙ rw (h3.seat, promise) refl)
