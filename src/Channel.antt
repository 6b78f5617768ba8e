-- ===== src/Channel.antt =====
-- Go's buffered channels, as the program uses them: `select` with a `default` around a send, a
-- receive, and `close`. A send on a closed channel and a second `close` panic, also under `select`.
use frontend_router_mcp.Base.{
  ℕ, Bool, true, false, List, [], ◌∷◌, ◌++◌, Option, none, some, length, if◌then◌else◌, ltb,
}

pub record Chan {ℓ} (A : Type ℓ) : Type ℓ where
  pub buffer : List A
  pub capacity : ℕ
  pub is_open : Bool

-- A step that may panic.
pub data Done {ℓ} (A : Type ℓ) : Type ℓ where
  done : A → Done A
  panic : Done A

pub data Sent {ℓ} (A : Type ℓ) : Type ℓ where
  sent : Chan A → Sent A
  full : Sent A
  send_panic : Sent A

module _ {ℓ} {A : Type ℓ} where
  unfoldable pub make_chan : ℕ → Chan A
  make_chan capacity = record { buffer = []; capacity = capacity; is_open = true }

  -- `select { case c <- a: … default: … }`; `full` is the default branch.
  unfoldable pub try_send : Chan A → A → Sent A
  try_send c a =
      if c.is_open
      then (if ltb (length c.buffer) c.capacity
          then sent (record c { buffer = c.buffer ++ a ∷ [] })
          else full)
      else send_panic

  -- `close(c)`
  unfoldable pub close : Chan A → Done (Chan A)
  close c = if c.is_open then done (record c { is_open = false }) else panic

  unfoldable pub receive_from : Chan A → List A → Option (A × Chan A)
  receive_from c [] = none
  receive_from c (a ∷ rest) = some (a, record c { buffer = rest })

  -- A receive that finds a value; `none` where it would block or find the channel drained.
  unfoldable pub receive : Chan A → Option (A × Chan A)
  unfolding receive_from
  receive c = receive_from c c.buffer
