-- ===== src/Health/Unordered.antt =====
-- The manager of internal/health/health.go as a registry that has no order. Go visits a map in any
-- order; the registry is the quotient of the lists of entries by what they hold.
use mathlib.Core.Quot
use mathlib.Core.Quot.{Quot, Quot-set}
use frontend_router_mcp.Base.{
  ℕ, ◌≡◌, ◌≢◌, ◌↔◌, ◌⊎◌, inl, inr, refl, ap, sym, subst, arith, List, [], ◌∷◌, some, none, Option,
  Option-cases, String, Dict, lookup, insert, delete, IsKeyed, IsKeyed-insert, IsKeyed-delete,
  lookup-insert, lookup-delete, eq_iff, eq_refl, Bool-cases, str_eq,
}
use frontend_router_mcp.Health.{
  Status, healthy, unhealthy, warning, unknown, ComponentHealth, Manager, new_manager,
  register_component, unregister_component, health_endpoint, ready_endpoint, live_endpoint,
}
use frontend_router_mcp.Health.Overall.{
  Some, Every, Is, IsUp, get_health_report_status, is_ready-is_live,
}

abbrev Entries : Type 0
Entries = (cs : Dict ComponentHealth) × IsKeyed cs

abbrev SameEntries : Entries → Entries → Type 0
SameEntries (cs, _) (ds, _) = (name : String) → lookup name cs ≡ lookup name ds

Some-lookup :
    (P : Status → Type 0) (cs : Dict ComponentHealth)
    → IsKeyed cs
    → Some P cs
    → (name : String) × (c : ComponentHealth) × (lookup name cs ≡ some c) × P c.status
unfolding lookup
Some-lookup P [] u s = absurd s
Some-lookup P ((name, c) ∷ rest) u (inl p) = (name, c, rw (eq_refl name) refl, p)
Some-lookup P ((name, c) ∷ rest) (absent, u) (inr s) =
    let (other, d, found, p) = Some-lookup P rest u s in
    (other, d, ground (arith, eq_iff name other), p)

lookup-Some :
    (P : Status → Type 0) (cs : Dict ComponentHealth) (name : String) (c : ComponentHealth)
    → lookup name cs ≡ some c
    → P c.status
    → Some P cs
unfolding lookup
lookup-Some P [] name c h p = cc
lookup-Some P ((key, d) ∷ rest) name c h p = elim (Bool-cases (str_eq key name)) [
  | inl same ↦ inl (subst (λ x. P x.status) (let e : c ≡ d = ground arith in e) p)
  | inr other ↦ inr (lookup-Some P rest name c (ground arith) p)
]

IsUp-cases : (t : Status) → IsUp t ⊎ ¬ IsUp t
IsUp-cases healthy = inl (inl refl)
IsUp-cases warning = inl (inr refl)
IsUp-cases unhealthy = inr (λ h. ground arith)
IsUp-cases unknown = inr (λ h. ground arith)

Every-Some : (cs : Dict ComponentHealth) → Every IsUp cs ↔ (Some (λ t. ¬ IsUp t) cs → ⊥)
Every-Some [] = ground arith
Every-Some ((name, c) ∷ rest) = ground (arith, IsUp-cases c.status, Every-Some rest)

-- The HTTP statuses of /health, /ready and /live.
abbrev pub endpoints : Manager → ℕ × ℕ × ℕ
endpoints m = (health_endpoint m, ready_endpoint m, live_endpoint m)

abbrev manager : Entries → Manager
manager (cs, u) = record { components = cs }

-- The registry, and what the manager's methods do to it.
abbrev pub Registry : Type 0
Registry = Quot SameEntries

pub data Change : Type 0 where
  added : String → ComponentHealth → Change
  removed : String → Change

abbrev changed_entries : Change → Entries → Entries
changed_entries (added name c) (cs, u) = (insert name c cs, IsKeyed-insert name c cs u)
changed_entries (removed name) (cs, u) = (delete name cs, IsKeyed-delete name cs u)

changed_same :
    (o : Change) (a b : Entries)
    → SameEntries a b
    → SameEntries (changed_entries o a) (changed_entries o b)
changed_same (added name c) (cs, u) (ds, v) h j =
    rw (lookup-insert name j c cs, lookup-insert name j c ds, h j) refl
changed_same (removed name) (cs, u) (ds, v) h j =
    rw (lookup-delete name j cs, lookup-delete name j ds, h j) refl

pub change : Change → Registry → Registry
change o =
    Quot.lift Quot-set (λ a. Quot.mk (changed_entries o a))
      (λ a b h. Quot.sound (changed_same o a b h))

-- The status that the registry holds under a name.
status_at : Option ComponentHealth → Option Status
status_at none = none
status_at (some c) = some c.status

status_set : IsSet (Option Status)
status_set = hlevel

pub held : String → Registry → Option Status
unfolding status_at
held name =
    Quot.lift status_set (λ (cs, u). status_at (lookup name cs)) (λ a b h. ap status_at (h name))

-- Some component is held with such a status, and all that are held have one.
abbrev pub HoldsSome : (Status → Type 0) → Registry → Type 0
HoldsSome P r = (name : String) × (s : Status) × (held name r ≡ some s) × P s

abbrev pub HoldsOnly : (Status → Type 0) → Registry → Type 0
HoldsOnly P r = (name : String) (s : Status) → held name r ≡ some s → P s

-- An endpoint answers 200 if this is so, and 503 if not.
abbrev pub Answers : ℕ → Type 0 → Type 0
Answers code P = ((code ≡ 200) × P) ⊎ ((code ≡ 503) × ¬ P)

-- What /health, /ready and /live are to answer for a registry.
abbrev pub Tells : Registry → ℕ × ℕ × ℕ → Type 0
Tells r (health, ready, live) =
    Answers health (¬ HoldsSome (Is unhealthy) r)
    × Answers ready (HoldsOnly IsUp r)
    × Answers live (((name : String) → held name r ≡ none) ⊎ HoldsSome IsUp r)

abbrev pub empty : Registry
empty = Quot.mk ([], tt)

abbrev pub replay : List Change → Registry → Registry
replay [] r = r
replay (o ∷ os) r = replay os (change o r)

abbrev pub run : List Change → Manager → Manager
run [] m = m
run (added name c ∷ os) m = run os (register_component m name c)
run (removed name ∷ os) m = run os (unregister_component m name)

found :
    (name : String) (s : Status) (a : Entries)
    → held name (Quot.mk a) ≡ some s
    → (c : ComponentHealth) × (lookup name a.0 ≡ some c) × (c.status ≡ s)
unfolding held status_at
found name s a h = elim (Option-cases (lookup name a.0)) [
  | inl e ↦ cc (ap status_at e)
  | inr (c, e) ↦ (c, e, cc (ap status_at e, h))
]

Some-HoldsSome : (P : Status → Type 0) (a : Entries) → Some P a.0 ↔ HoldsSome P (Quot.mk a)
Some-HoldsSome P a = (
  λ s.
      let (name, c, e, p) = Some-lookup P a.0 a.1 s in
      (name, c.status, unfold held status_at in rw e refl, p),
  λ (name, s, h, p).
      let (c, e, q) = found name s a h in lookup-Some P a.0 name c e (subst P (sym q) p),
)

Every-HoldsOnly : (a : Entries) → Every IsUp a.0 ↔ HoldsOnly IsUp (Quot.mk a)
Every-HoldsOnly a = (
  λ every name s h. elim (IsUp-cases s) [
    | inl up ↦ up
    | inr down ↦
        absurd ((Every-Some a.0).0 every ((Some-HoldsSome (λ t. ¬ IsUp t) a).1 (name, s, h, down)))
  ],
  λ only. (Every-Some a.0).1 (λ some_down.
      let (name, s, h, down) = (Some-HoldsSome (λ t. ¬ IsUp t) a).0 some_down in
      down (only name s h)),
)

nothing_iff : (a : Entries) → (a.0 ≡ []) ↔ ((name : String) → held name (Quot.mk a) ≡ none)
unfolding held status_at lookup
nothing_iff ([], u) = (λ e name. refl, λ h. refl)
nothing_iff ((name, c) ∷ rest, u) = (λ e. cc, λ h. ground (arith, eq_refl name, h name))

endpoints-Tells : (a : Entries) → Tells (Quot.mk a) (endpoints (manager a))
unfolding health_endpoint ready_endpoint live_endpoint
endpoints-Tells a =
    let m = manager a in
    let (bad, _, not_unknown) = get_health_report_status m in
    let (ready, live, _) = is_ready-is_live m in
    (
      ground (arith, bad, not_unknown, Some-HoldsSome (Is unhealthy) a),
      ground (arith, ready, Every-HoldsOnly a),
      ground (arith, live, nothing_iff a, Some-HoldsSome IsUp a),
    )

run-Tells :
    (os : List Change) (a : Entries)
    → Tells (replay os (Quot.mk a)) (endpoints (run os (manager a)))
unfolding change register_component unregister_component
run-Tells [] a = endpoints-Tells a
run-Tells (added name c ∷ os) a = run-Tells os (changed_entries (added name c) a)
run-Tells (removed name ∷ os) a = run-Tells os (changed_entries (removed name) a)

-- In the registry the order of two registrations is an equation.
pub change_comm :
    (name other : String) (c d : ComponentHealth)
    → name ≢ other
    → (r : Registry)
    → change (added name c) (change (added other d) r)
      ≡ change (added other d) (change (added name c) r)
unfolding change
change_comm name other c d ne =
    Quot.ind (λ r. Quot-set _ _)
      (λ (cs, u). Quot.sound (λ j. ground (
        arith,
        lookup-insert name j c (insert other d cs),
        lookup-insert other j d cs,
        lookup-insert other j d (insert name c cs),
        lookup-insert name j c cs,
        eq_iff name j,
        eq_iff other j,
      )))

-- The health manager implements a registry that has no order: after any registrations and removals of
-- components, /health answers 200 unless the registry holds an unhealthy component, /ready exactly if
-- every component that it holds is healthy or has a warning, and /live exactly if it holds none or some
-- component that is healthy or has a warning; each answers 503 otherwise. The registry is the quotient of
-- the lists of components by what they hold under each name, and the conditions look at the held
-- statuses alone, so that the order in which Go visits its map makes no difference.
pub endpoints-replay : (os : List Change) → Tells (replay os empty) (endpoints (run os new_manager))
unfolding new_manager
endpoints-replay os = run-Tells os ([], tt)
