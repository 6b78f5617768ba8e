-- ===== src/AskUser/Board.antt =====
-- What the ask_user tool (internal/tools/ask_user.go) promises, as a board with a seat for each call of
-- `Execute`, and an entry for each request id.
use frontend_router_mcp.Base.{
  ℕ, String, if◌then◌else◌, str_eq, List, [], ◌∷◌, ◌++◌, Option, none, some, get_elem?, set, length,
}
use frontend_router_mcp.Errors.{ErrorType, not_found, internal, timeout}

-- A call of `Execute` has registered its request, is on its way out, or has returned.
pub data Phase : Type 0 where
  asking leaving ended : Phase

-- How a call gives up: the timer, the context, or an error of the question handler.
pub data Leave : Type 0 where
  timer : ℕ → Leave
  context : String → Leave
  handler : String → String → Leave

-- Calls are numbered in the order of their registration.
pub data Operation : Type 0 where
  ask_op : String → Operation
  respond_op : String → String → Operation
  receive_op : ℕ → Operation
  leave_op : ℕ → Leave → Operation
  finish_op : ℕ → Operation

pub data Outcome : Type 0 where
  registered accepted nothing cleaned crashed : Outcome
  refused : ErrorType → Outcome
  got : String → Outcome

-- The specification: a call's request id, the answer that is held for it, and where it is.
pub record Seat : Type 0 where
  pub id : String
  pub held : Option String
  pub phase : Phase

-- The seats, and which of them has an id.
pub record Board : Type 0 where
  pub seats : List Seat
  pub entries : String → Option ℕ

abbrev pub new_board : Board
new_board = record { seats = []; entries = λ j. none }

abbrev pub enter : String → Option ℕ → (String → Option ℕ) → String → Option ℕ
enter id v entries j = if str_eq id j then v else entries j

abbrev pub leave_type : Leave → ErrorType
leave_type (timer seconds) = timeout
leave_type (context text) = internal
leave_type (handler text question) = internal

abbrev sit : Board → ℕ → Seat → Board
sit b n s = record b { seats = set b.seats n s }

-- The first answer is accepted, and each other is refused until the call has taken it.
hold : Board → ℕ → String → Seat → Option String → Board × Outcome
hold b n a s none = (sit b n (record s { held = some a }), accepted)
hold b n a s (some first) = (b, refused internal)

respond_seat : Board → ℕ → String → Option Seat → Board × Outcome
unfolding hold
respond_seat b n a none = (b, nothing)
respond_seat b n a (some s) = hold b n a s s.held

respond_entry : Board → String → Option ℕ → Board × Outcome
unfolding respond_seat
respond_entry b a none = (b, refused not_found)
respond_entry b a (some n) = respond_seat b n a (get_elem? b.seats n)

take : Board → ℕ → Seat → Option String → Board × Outcome
take b n s none = (b, nothing)
take b n s (some a) = (sit b n (record s { held = none; phase = leaving }), got a)

receive_seat : Board → ℕ → Option Seat → Board × Outcome
unfolding take
receive_seat b n none = (b, nothing)
receive_seat b n (some s) = elim s.phase [
  | asking ↦ take b n s s.held
  | leaving ↦ (b, nothing)
  | ended ↦ (b, nothing)
]

leave_seat : Board → ℕ → Leave → Option Seat → Board × Outcome
leave_seat b n l none = (b, nothing)
leave_seat b n l (some s) = elim s.phase [
  | asking ↦ (sit b n (record s { phase = leaving }), refused (leave_type l))
  | leaving ↦ (b, nothing)
  | ended ↦ (b, nothing)
]

-- A clean-up takes away the entry of its id, whichever seat that has.
finish_seat : Board → ℕ → Option Seat → Board × Outcome
finish_seat b n none = (b, nothing)
finish_seat b n (some s) = elim s.phase [
  | asking ↦ (b, nothing)
  | leaving ↦ (
    record {
      seats = set b.seats n (record s { phase = ended });
      entries = enter s.id none b.entries;
    },
    cleaned,
  )
  | ended ↦ (b, nothing)
]

unfoldable pub promise : Board → Operation → Board × Outcome
unfolding respond_entry respond_seat hold receive_seat take leave_seat finish_seat
promise b (ask_op id) = (
  record {
    seats = b.seats ++ record { id = id; held = none; phase = asking } ∷ [];
    entries = enter id (some (length b.seats)) b.entries;
  },
  registered,
)
promise b (respond_op id a) = respond_entry b a (b.entries id)
promise b (receive_op n) = receive_seat b n (get_elem? b.seats n)
promise b (leave_op n l) = leave_seat b n l (get_elem? b.seats n)
promise b (finish_op n) = finish_seat b n (get_elem? b.seats n)

unfoldable pub promised : Board → List Operation → List Outcome
promised b [] = []
promised b (o ∷ os) = let (c, r) = promise b o in r ∷ promised c os
