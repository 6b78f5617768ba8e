-- ===== src/Health/Overall.antt =====
-- The overall status, readiness and liveness of internal/health/health.go.
use frontend_router_mcp.Base.{◌≡◌, ◌≢◌, ◌↔◌, ◌⊎◌, inl, inr, refl, arith, true, [], ◌∷◌, Dict}
use frontend_router_mcp.Health.{
  Status, healthy, unhealthy, warning, unknown, ComponentHealth, Manager, update_status,
  overall_status, get_health_report, all_ready, some_live, live_in, is_ready, is_live,
  health_endpoint, ready_endpoint, live_endpoint,
}

-- Some component, or every component, has a status of the kind.
abbrev pub Some : (Status → Type 0) → Dict ComponentHealth → Type 0
Some P [] = ⊥
Some P ((name, c) ∷ rest) = P c.status ⊎ Some P rest

abbrev pub Every : (Status → Type 0) → Dict ComponentHealth → Type 0
Every P [] = Unit
Every P ((name, c) ∷ rest) = P c.status × Every P rest

abbrev pub Is : Status → Status → Type 0
Is s t = t ≡ s

abbrev pub IsUp : Status → Type 0
IsUp t = (t ≡ healthy) ⊎ (t ≡ warning)

overall_unhealthy :
    (s : Status) (cs : Dict ComponentHealth)
    → (overall_status s cs ≡ unhealthy) ↔ ((s ≡ unhealthy) ⊎ Some (Is unhealthy) cs)
unfolding overall_status update_status
overall_unhealthy s [] = ground arith
overall_unhealthy s ((name, c) ∷ rest) =
    ground (arith, overall_unhealthy (update_status s c.status) rest)

overall_warning :
    (s : Status) (cs : Dict ComponentHealth)
    → s ≢ unknown
    → (overall_status s cs ≡ warning)
      ↔ (((s ≡ warning) ⊎ ((s ≡ healthy) × Some (Is warning) cs)) × (Some (Is unhealthy) cs → ⊥))
unfolding overall_status update_status
overall_warning s [] k = ground arith
overall_warning s ((name, c) ∷ rest) k =
    ground (arith, overall_warning (update_status s c.status) rest)

overall-not_unknown :
    (s : Status) (cs : Dict ComponentHealth) → s ≢ unknown → overall_status s cs ≢ unknown
unfolding overall_status update_status
overall-not_unknown s [] k = k
overall-not_unknown s ((name, c) ∷ rest) k =
    overall-not_unknown (update_status s c.status) rest (λ e. ground arith)

-- The overall status is unhealthy exactly if some component is; it is a warning exactly if some
-- component has a warning and none is unhealthy; and it is never unknown.
pub get_health_report_status :
    (m : Manager)
    → ((get_health_report m).status ≡ unhealthy ↔ Some (Is unhealthy) m.components)
      × ((get_health_report m).status ≡ warning
          ↔ (Some (Is warning) m.components × (Some (Is unhealthy) m.components → ⊥)))
      × ((get_health_report m).status ≢ unknown)
unfolding get_health_report
get_health_report_status m = (
  ground (arith, overall_unhealthy healthy m.components),
  ground (arith, overall_warning healthy m.components (λ e. absurd (cc))),
  overall-not_unknown healthy m.components (λ e. absurd (cc)),
)

all_ready_iff : (cs : Dict ComponentHealth) → (all_ready cs ≡ true) ↔ Every IsUp cs
unfolding all_ready
all_ready_iff [] = ground arith
all_ready_iff ((name, c) ∷ rest) = ground (arith, all_ready_iff rest)

some_live_iff : (cs : Dict ComponentHealth) → (some_live cs ≡ true) ↔ Some IsUp cs
unfolding some_live
some_live_iff [] = ground arith
some_live_iff ((name, c) ∷ rest) = ground (arith, some_live_iff rest)

live_in_iff : (cs : Dict ComponentHealth) → (live_in cs ≡ true) ↔ ((cs ≡ []) ⊎ Some IsUp cs)
unfolding live_in
live_in_iff [] = ground arith
live_in_iff (c ∷ cs) = ground (arith, some_live_iff (c ∷ cs))

Every-Some_unhealthy : (cs : Dict ComponentHealth) → Every IsUp cs → Some (Is unhealthy) cs → ⊥
Every-Some_unhealthy [] v s = s
Every-Some_unhealthy ((name, c) ∷ rest) (up, v) s = ground (arith, Every-Some_unhealthy rest v)

Every-live : (cs : Dict ComponentHealth) → Every IsUp cs → (cs ≡ []) ⊎ Some IsUp cs
Every-live [] v = inl refl
Every-live ((name, c) ∷ rest) (up, v) = inr (inl up)

-- The service is ready exactly if every component is healthy or has a warning; it is live exactly if
-- there is no component or one that is healthy or has a warning. Where /ready answers 200, so do
-- /health and /live.
pub is_ready-is_live :
    (m : Manager)
    → ((is_ready m ≡ true) ↔ Every IsUp m.components)
      × ((is_live m ≡ true) ↔ ((m.components ≡ []) ⊎ Some IsUp m.components))
      × (ready_endpoint m ≡ 200 → (health_endpoint m ≡ 200) × (live_endpoint m ≡ 200))
unfolding is_ready is_live ready_endpoint live_endpoint health_endpoint get_health_report
is_ready-is_live m = (
  all_ready_iff m.components,
  live_in_iff m.components,
  ground (
    arith,
    all_ready_iff m.components,
    live_in_iff m.components,
    Every-Some_unhealthy m.components,
    Every-live m.components,
    overall_unhealthy healthy m.components,
    overall-not_unknown healthy m.components,
  ),
)
