-- ===== src/Breaker/Manager.antt =====
-- `Manager` of internal/resilience/circuit_breaker.go: breakers by name. A `*CircuitBreaker` is a
-- place in a heap of breakers, so that two callers with one pointer share its state.
use frontend_router_mcp.Base.{
  ℕ, ◌≡◌, ◌≢◌, arith, String, List, [], ◌∷◌, ◌++◌, Option, none, some, Dict, lookup, insert, length,
  get_elem?, lookup-insert, eq_iff, get_elem?-append_old, eq_refl,
}
use frontend_router_mcp.Breaker.{CircuitBreaker, Config, new_circuit_breaker}

pub record Manager : Type 0 where
  pub breakers : Dict ℕ
  pub heap : List CircuitBreaker

unfoldable pub new_manager : List CircuitBreaker → Manager
new_manager heap = record { breakers = []; heap = heap }

create : Manager → String → Config → Manager × ℕ
create m name config =
    let cb = new_circuit_breaker (record config { name = name }) in
    (
      record m { breakers = insert name (length m.heap) m.breakers; heap = m.heap ++ cb ∷ [] },
      length m.heap,
    )

unfoldable pub get_or_create : Manager → String → Config → Manager × ℕ
unfolding create
get_or_create m name config = elim (lookup name m.breakers) [
  | some r ↦ (m, r)
  | none ↦ create m name config
]

unfoldable pub get : Manager → String → Option ℕ
get m name = lookup name m.breakers

-- The pointer that `get_or_create` returns is the one that `get` finds afterwards.
pub get-get_or_create :
    (m : Manager) (name : String) (config : Config)
    → get (get_or_create m name config).0 name ≡ some (get_or_create m name config).1
unfolding get get_or_create
get-get_or_create m name config =
    ground (arith, lookup-insert name name (length m.heap) m.breakers, eq_refl name)

-- Asking twice for one name, with any second configuration, gives the same pointer, and the second
-- request changes nothing.
pub get_or_create_twice :
    (m : Manager) (name : String) (c d : Config)
    → get_or_create (get_or_create m name c).0 name d
      ≡ ((get_or_create m name c).0, (get_or_create m name c).1)
unfolding get_or_create
get_or_create_twice m name c d =
    ground (arith, lookup-insert name name (length m.heap) m.breakers, eq_refl name)

-- The breakers of the other names are left alone: their pointers and what these point at.
pub get_or_create_other :
    (m : Manager) (name other : String) (c : Config) (r : ℕ) {cb : CircuitBreaker}
    → name ≢ other
    → get_elem? m.heap r ≡ some cb
    → (get (get_or_create m name c).0 other ≡ get m other)
      × (get_elem? (get_or_create m name c).0.heap r ≡ some cb)
unfolding get get_or_create
get_or_create_other m name other c r ne h = ground (
  arith,
  lookup-insert name other (length m.heap) m.breakers,
  eq_iff name other,
  get_elem?-append_old m.heap (new_circuit_breaker (record c { name = name })) r h,
)
