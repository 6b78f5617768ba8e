-- ===== src/AskUser/Spared.antt =====
-- A call of internal/tools/ask_user.go that others leave alone, whatever else the tool does meanwhile.
use frontend_router_mcp.Base.{
  ℕ, ◌≡◌, ◌≢◌, ◌⊎◌, inl, inr, refl, sym, ap, subst, ◌∙◌, arith, String, List, [], ◌∷◌, Option, none,
  some, get_elem?, set, eq_iff, Option-cases, ℕ_discrete, get_elem?-append_old,
  get_elem?-append_cases, get_elem?-set_self, get_elem?-set_ne,
}
use frontend_router_mcp.AskUser.Board.{
  asking, leaving, ended, Leave, Seat, Board, Operation, ask_op, respond_op, receive_op, leave_op,
  finish_op, promise,
}
use frontend_router_mcp.AskUser.Running.{Running, step}
use frontend_router_mcp.AskUser.Views.{Views}
use frontend_router_mcp.AskUser.Refinement.{Phase-cases}

-- The tool and its calls after some operations.
abbrev pub ran : Running → List Operation → Running
ran r [] = r
ran r (o ∷ os) = ran (step r o).0 os

-- No call is registered under the id.
abbrev pub IsFresh : String → List Operation → Type 0
IsFresh id [] = Unit
IsFresh id (o ∷ os) = (o ≢ ask_op id) × IsFresh id os

-- The operation has nothing to do with the call `n`, and does not name its id.
abbrev pub Spares : String → ℕ → Operation → Type 0
Spares id n (ask_op j) = j ≢ id
Spares id n (respond_op j a) = j ≢ id
Spares id n (receive_op m) = n ≢ m
Spares id n (leave_op m l) = n ≢ m
Spares id n (finish_op m) = n ≢ m

abbrev pub AllSpare : String → ℕ → List Operation → Type 0
AllSpare id n [] = Unit
AllSpare id n (o ∷ os) = Spares id n o × AllSpare id n os

-- One seat is another, with the same id.
set_ids :
    (seats : List Seat) (n m : ℕ) (s s' t : Seat)
    → get_elem? seats n ≡ some s
    → s'.id ≡ s.id
    → get_elem? (set seats n s') m ≡ some t
    → (u : Seat) × (get_elem? seats m ≡ some u) × (u.id ≡ t.id)
set_ids seats n m s s' t at same h = elim (ℕ_discrete n m) [
  | yes e ↦
      let here =
        subst (λ i. get_elem? (set seats n s') i ≡ some s') e (get_elem?-set_self seats n s' at) in
      let q : s' ≡ t = cc in
      (s, subst (λ i. get_elem? seats i ≡ some s) e at, sym same ∙ ap (λ x. x.id) q)
  | no ne ↦ (t, sym (get_elem?-set_ne seats n m s' ne) ∙ h, refl)
]

-- Seats keep their ids; only a registration makes a new one.
pub promise-ids :
    (b : Board) (o : Operation) (m : ℕ) (t : Seat)
    → get_elem? (promise b o).0.seats m ≡ some t
    → ((u : Seat) × (get_elem? b.seats m ≡ some u) × (u.id ≡ t.id)) ⊎ (o ≡ ask_op t.id)
unfolding promise
promise-ids b (ask_op id) m t h = elim (get_elem?-append_cases b.seats _ m h) [
  | inl (_, e) ↦ inr (rw e refl)
  | inr old ↦ inl (t, old, refl)
]
promise-ids b (respond_op id a) m t h = inl (elim (Option-cases (b.entries id)) [
  | inl e ↦ (t, ground arith, refl)
  | inr (n, e) ↦ elim (Option-cases (get_elem? b.seats n)) [
    | inl e' ↦ (t, ground arith, refl)
    | inr (s, e') ↦ elim (Option-cases s.held) [
      | inl e'' ↦ set_ids b.seats n m s (record s { held = some a }) t e' refl (ground arith)
      | inr (x, e'') ↦ (t, ground arith, refl)
    ]
  ]
])
promise-ids b (receive_op n) m t h = inl (elim (Option-cases (get_elem? b.seats n)) [
  | inl e ↦ (t, ground arith, refl)
  | inr (s, e) ↦ elim (Phase-cases s.phase) [
    | inr (inl p) ↦ (t, ground arith, refl)
    | inr (inr p) ↦ (t, ground arith, refl)
    | inl p ↦ elim (Option-cases s.held) [
      | inl e' ↦ (t, ground arith, refl)
      | inr (x, e') ↦
          set_ids b.seats n m s (record s { held = none; phase = leaving }) t e refl (ground arith)
    ]
  ]
])
promise-ids b (leave_op n l) m t h = inl (elim (Option-cases (get_elem? b.seats n)) [
  | inl e ↦ (t, ground arith, refl)
  | inr (s, e) ↦ elim (Phase-cases s.phase) [
    | inr (inl p) ↦ (t, ground arith, refl)
    | inr (inr p) ↦ (t, ground arith, refl)
    | inl p ↦ set_ids b.seats n m s (record s { phase = leaving }) t e refl (ground arith)
  ]
])
promise-ids b (finish_op n) m t h = inl (elim (Option-cases (get_elem? b.seats n)) [
  | inl e ↦ (t, ground arith, refl)
  | inr (s, e) ↦ elim (Phase-cases s.phase) [
    | inl p ↦ (t, ground arith, refl)
    | inr (inr p) ↦ (t, ground arith, refl)
    | inr (inl p) ↦ set_ids b.seats n m s (record s { phase = ended }) t e refl (ground arith)
  ]
])

-- A call that waits under its id, which no other has, and what is held for it.
pub record Stands (b : Board) (id : String) (n : ℕ) (held : Option String) : Type 0 where
  pub entry : b.entries id ≡ some n
  pub seat : get_elem? b.seats n ≡ some (record { id = id; held = held; phase = asking })
  pub alone : (m : ℕ) (s : Seat) → get_elem? b.seats m ≡ some s → n ≢ m → s.id ≢ id

module _ (r : Running) (b : Board) (v : Views r b) (id : String) (n : ℕ) (held : Option String)
    (h : Stands b id n held) where
  abbrev Kept : Board → Type 0
  Kept c =
      (c.entries id ≡ some n)
      × (get_elem? c.seats n ≡ some (record { id = id; held = held; phase = asking }))

  other_seat :
      (m : ℕ) (s' : Seat)
      → n ≢ m
      → get_elem? (set b.seats m s') n ≡ some (record { id = id; held = held; phase = asking })
  other_seat m s' ne = get_elem?-set_ne b.seats m n s' (λ e. ne (sym e)) ∙ h.seat

  respond-Kept : (j a : String) → j ≢ id → Kept (promise b (respond_op j a)).0
  unfolding promise
  respond-Kept j a ne = elim (Option-cases (b.entries j)) [
    | inl e ↦ rw (e, promise) (h.entry, h.seat)
    | inr (m, e) ↦
        let (s, at, same, _) = v.live j m e in
        let away : n ≢ m = λ q. ne (
          let p : get_elem? b.seats m ≡ some (record { id = id; held = held; phase = asking }) =
            subst
              (λ i. get_elem? b.seats i ≡ some (record { id = id; held = held; phase = asking })) q
              h.seat in
          let w : s ≡ record { id = id; held = held; phase = asking } = cc in
          sym same ∙ ap (λ x. x.id) w) in
        elim (Option-cases s.held) [
          | inl e' ↦ rw (e, at, e', promise) (h.entry, other_seat m _ away)
          | inr (x, e') ↦ rw (e, at, e', promise) (h.entry, h.seat)
        ]
  ]

  receive-Kept : (m : ℕ) → n ≢ m → Kept (promise b (receive_op m)).0
  unfolding promise
  receive-Kept m ne = elim (Option-cases (get_elem? b.seats m)) [
    | inl e ↦ rw (e, promise) (h.entry, h.seat)
    | inr (s, e) ↦ elim (Phase-cases s.phase) [
      | inr (inl p) ↦ rw (e, p, promise) (h.entry, h.seat)
      | inr (inr p) ↦ rw (e, p, promise) (h.entry, h.seat)
      | inl p ↦ elim (Option-cases s.held) [
        | inl e' ↦ rw (e, p, e', promise) (h.entry, h.seat)
        | inr (x, e') ↦ rw (e, p, e', promise) (h.entry, other_seat m _ ne)
      ]
    ]
  ]

  leave-Kept : (m : ℕ) (l : Leave) → n ≢ m → Kept (promise b (leave_op m l)).0
  unfolding promise
  leave-Kept m l ne = elim (Option-cases (get_elem? b.seats m)) [
    | inl e ↦ rw (e, promise) (h.entry, h.seat)
    | inr (s, e) ↦ elim (Phase-cases s.phase) [
      | inr (inl p) ↦ rw (e, p, promise) (h.entry, h.seat)
      | inr (inr p) ↦ rw (e, p, promise) (h.entry, h.seat)
      | inl p ↦ rw (e, p, promise) (h.entry, other_seat m _ ne)
    ]
  ]

  finish-Kept : (m : ℕ) → n ≢ m → Kept (promise b (finish_op m)).0
  unfolding promise
  finish-Kept m ne = elim (Option-cases (get_elem? b.seats m)) [
    | inl e ↦ rw (e, promise) (h.entry, h.seat)
    | inr (s, e) ↦ elim (Phase-cases s.phase) [
      | inl p ↦ rw (e, p, promise) (h.entry, h.seat)
      | inr (inr p) ↦ rw (e, p, promise) (h.entry, h.seat)
      | inr (inl p) ↦
          let other = h.alone m s e ne in
          rw (e, p, promise) (ground (arith, eq_iff s.id id, h.entry), other_seat m _ ne)
    ]
  ]

  spared-Kept : (o : Operation) → Spares id n o → Kept (promise b o).0
  unfolding promise
  spared-Kept (ask_op j) ne =
      (ground (arith, eq_iff j id, h.entry), get_elem?-append_old b.seats _ n h.seat)
  spared-Kept (respond_op j a) ne = respond-Kept j a ne
  spared-Kept (receive_op m) ne = receive-Kept m ne
  spared-Kept (leave_op m l) ne = leave-Kept m l ne
  spared-Kept (finish_op m) ne = finish-Kept m ne

  pub spared-Stands : (o : Operation) → Spares id n o → Stands (promise b o).0 id n held
  spared-Stands o spared =
      let (entry, seat) = spared-Kept o spared in
      record {
        entry = entry;
        seat = seat;
        alone = λ m s at ne. elim (promise-ids b o m s at) [
          | inl (u, at', same) ↦ λ q. h.alone m u at' ne (same ∙ q)
          | inr asked ↦ subst (λ x. Spares id n x) asked spared
        ];
      }
