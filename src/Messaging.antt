-- ===== src/Messaging.antt =====
-- pkg/messaging/message.go: the messages between the WebSocket server and the MCP side. JSON is a
-- text; its encoding and decoding (encoding/json) and the ids of google/uuid are arguments. A
-- `ResponseSender` is the place of a client in the server's heap.
pub mod Ids
use frontend_router_mcp.Base.{
  ℕ, zero, suc, ◌+◌, ◌%◌, String, List, [], ◌∷◌, ◌++◌, Option, none, some, get_elem?, length,
}
use frontend_router_mcp.Errors.{Error}

pub record Message : Type 0 where
  pub id : String
  pub type : String
  pub timestamp : ℕ
  pub payload : String
  pub client_id : String
  pub response_sender : Option ℕ

-- What `json.Marshal` returns.
pub data Marshalled : Type 0 where
  bytes : String → Marshalled
  marshal_error : Error → Marshalled

-- `NewMessage`: the message, or the error of the encoder. `id` is a new UUID, `now` the clock.
unfoldable pub new_message : String → Marshalled → String → ℕ → Option Message
new_message message_type (bytes payload) id now = some (record {
  id = id;
  type = message_type;
  timestamp = now;
  payload = payload;
  client_id = "";
  response_sender = none;
})
new_message message_type (marshal_error e) id now = none

-- The 62 letters of `RandString`, as bytes.
abbrev range_from : ℕ → ℕ → List ℕ
range_from start zero = []
range_from start (suc n) = start ∷ range_from (start + 1) n

abbrev pub letters : List ℕ
letters = range_from b'a' 26 ++ (range_from b'A' 26 ++ range_from b'0' 10)

abbrev pub letter_at : Option ℕ → ℕ
letter_at none = 0
letter_at (some c) = c

-- `RandString(n)`: the byte number `i` is picked by the clock as it is read for that byte.
unfoldable pub rand_string_from : (ℕ → ℕ) → ℕ → ℕ → List ℕ
rand_string_from clock i zero = []
rand_string_from clock i (suc n) =
    letter_at (get_elem? letters (clock i % length letters)) ∷ rand_string_from clock (i + 1) n

unfoldable pub rand_string : ℕ → (ℕ → ℕ) → List ℕ
unfolding rand_string_from
rand_string n clock = rand_string_from clock 0 n
