-- ===== src/AskUser/Views.antt =====
-- Running calls of internal/tools/ask_user.go as a board.
use frontend_router_mcp.Base.{
  ℕ, zero, suc, ◌≡◌, ◌≢◌, refl, ap, ◌∙◌, sym, subst, arith, String, true, List, [], ◌∷◌, Option,
  none, some, lookup, length, get_elem?, set, length-set, ℕ_discrete, get_elem?-set_self,
  get_elem?-set_ne,
}
use frontend_router_mcp.Channel.{Chan}
use frontend_router_mcp.AskUser.{new_ask_user_tool}
use frontend_router_mcp.AskUser.Board.{ended, Seat, Board, new_board}
use frontend_router_mcp.AskUser.Running.{Call, Running, no_calls}

abbrev pub buffer_of : Option String → List String
buffer_of none = []
buffer_of (some a) = a ∷ []

-- The channel of a call that has not returned is open, and has what is held for it.
pub record Matches (n : ℕ) (c : Call) (ch : Chan String) (s : Seat) : Type 0 where
  pub id : c.request_id ≡ s.id
  pub own : c.response_ch ≡ n
  pub phase : c.phase ≡ s.phase
  pub is_open : s.phase ≢ ended → ch.is_open ≡ true
  pub capacity : ch.capacity ≡ 1
  pub buffer : ch.buffer ≡ buffer_of s.held

-- The seat `n`, with the call and the channel that it stands for.
pub record Taken (r : Running) (b : Board) (n : ℕ) : Type 0 where
  pub seat : Seat
  pub call : Call
  pub chan : Chan String
  pub seat_at : get_elem? b.seats n ≡ some seat
  pub call_at : get_elem? r.calls n ≡ some call
  pub chan_at : get_elem? r.tool.channels n ≡ some chan
  pub matches : Matches n call chan seat

-- An id that has an entry belongs to that seat, whose call has not returned.
abbrev pub IsLive : List Seat → String → ℕ → Type 0
IsLive seats j n = (s : Seat) × (get_elem? seats n ≡ some s) × (s.id ≡ j) × (s.phase ≢ ended)

pub record Views (r : Running) (b : Board) : Type 0 where
  pub as_many_calls : length r.calls ≡ length b.seats
  pub as_many_channels : length r.tool.channels ≡ length b.seats
  pub taken : (n : ℕ) (s : Seat) → get_elem? b.seats n ≡ some s → Taken r b n
  pub entered : (j : String) → lookup j r.tool.pending_requests ≡ b.entries j
  pub live : (j : String) (n : ℕ) → b.entries j ≡ some n → IsLive b.seats j n

pub no_calls-Views : Views no_calls new_board
unfolding new_ask_user_tool lookup
no_calls-Views = record {
  as_many_calls = refl;
  as_many_channels = refl;
  taken = λ n s h. cc;
  entered = λ j. refl;
  live = λ j n h. cc;
}

module _ {ℓ} {A : Type ℓ} where
  -- One element is another, and all else is as before.
  pub record Replaced (n : ℕ) (xs ys : List A) (y : A) : Type ℓ where
    pub as_many : length ys ≡ length xs
    pub here : get_elem? ys n ≡ some y
    pub elsewhere : (m : ℕ) → n ≢ m → get_elem? ys m ≡ get_elem? xs m

  pub set-Replaced :
      (n : ℕ) (xs : List A) {x : A} (y : A) → get_elem? xs n ≡ some x → Replaced n xs (set xs n y) y
  set-Replaced n xs y h = record {
    as_many = length-set xs n y;
    here = get_elem?-set_self xs n y h;
    elsewhere = λ m ne. get_elem?-set_ne xs n m y ne;
  }

  pub same-Replaced : (n : ℕ) (xs : List A) (x : A) → get_elem? xs n ≡ some x → Replaced n xs xs x
  same-Replaced n xs x h = record { as_many = refl; here = h; elsewhere = λ m ne. refl }

  -- Where a list ends, one of the same length ends too.
  pub none_too :
      {B : Type 0} (xs : List A) (ys : List B) (n : ℕ)
      → length ys ≡ length xs
      → get_elem? xs n ≡ none
      → get_elem? ys n ≡ none
  none_too xs [] n e h = refl
  none_too [] (y ∷ ys) n e h = absurd (omega (arith, e))
  none_too (x ∷ xs) (y ∷ ys) zero e h = cc
  none_too (x ∷ xs) (y ∷ ys) (suc n) e h = none_too xs ys n (omega (arith, e)) h

-- One call goes on, with its channel and its seat.
pub replaced-Views :
    (r r' : Running) (b b' : Board) (n : ℕ) (c : Call) (ch : Chan String) (s : Seat)
    → Views r b
    → Replaced n r.calls r'.calls c
    → Replaced n r.tool.channels r'.tool.channels ch
    → Replaced n b.seats b'.seats s
    → Matches n c ch s
    → ((j : String) → lookup j r'.tool.pending_requests ≡ b'.entries j)
    → ((j : String) (m : ℕ) → b'.entries j ≡ some m → IsLive b'.seats j m)
    → Views r' b'
replaced-Views r r' b b' n c ch s v calls chans seats good entered live = record {
  as_many_calls = omega (arith, calls.as_many, seats.as_many, v.as_many_calls);
  as_many_channels = omega (arith, chans.as_many, seats.as_many, v.as_many_channels);
  taken = λ m t at. elim (ℕ_discrete n m) [
    | yes same ↦
        subst (λ i. Taken r' b' i) same
          (record {
            seat = s;
            call = c;
            chan = ch;
            seat_at = seats.here;
            call_at = calls.here;
            chan_at = chans.here;
            matches = good;
          })
    | no ne ↦
        let old = v.taken m t (sym (seats.elsewhere m ne) ∙ at) in
        record {
          seat = old.seat;
          call = old.call;
          chan = old.chan;
          seat_at = seats.elsewhere m ne ∙ old.seat_at;
          call_at = calls.elsewhere m ne ∙ old.call_at;
          chan_at = chans.elsewhere m ne ∙ old.chan_at;
          matches = old.matches;
        }
  ];
  entered = entered;
  live = live;
}

-- A seat that keeps its id, and is not that of a call that has returned, keeps the entries live.
pub kept-IsLive :
    (seats seats' : List Seat) (n : ℕ) (s s' : Seat) (j : String) (m : ℕ)
    → Replaced n seats seats' s'
    → get_elem? seats n ≡ some s
    → s'.id ≡ s.id
    → s'.phase ≢ ended
    → IsLive seats j m
    → IsLive seats' j m
kept-IsLive seats seats' n s s' j m replaced at same on (t, at', id, p) = elim (ℕ_discrete n m) [
  | yes e ↦
      let q : s ≡ t = cc in
      (
        s',
        subst (λ i. get_elem? seats' i ≡ some s') e replaced.here,
        same ∙ ap (λ x. x.id) q ∙ id,
        on,
      )
  | no ne ↦ (t, replaced.elsewhere m ne ∙ at', id, p)
]
