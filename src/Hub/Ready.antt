-- ===== src/Hub/Ready.antt =====
-- Client maps as the hub of internal/wsserver/server.go expects them.
use frontend_router_mcp.Base.{
  ℕ, Bool-cases, inl, inr, str_eq, ◌≡◌, ◌≢◌, sym, ◌∙◌, arith, String, Bool, true, List, [], ◌∷◌,
  none, some, lookup, ltb, length, get_elem?, set, eq_iff, get_elem?-set_ne, Dict, subst, refl,
}
use frontend_router_mcp.Hub.{Client}

-- The place `r` holds a client with id `k` whose send channel is open.
abbrev pub Live : List Client → String → ℕ → Type 0
Live heap k r = (c : Client) × (get_elem? heap r ≡ some c) × (c.id ≡ k) × (c.send.is_open ≡ true)

abbrev pub Absent : String → Dict ℕ → Type 0
Absent k [] = Unit {0}
Absent k ((j, r) ∷ rest) = (j ≢ k) × Absent k rest

-- The entries of a map that the hub can serve: live, and with distinct keys.
abbrev pub Ready : List Client → Dict ℕ → Type 0
Ready heap [] = Unit {0}
Ready heap ((k, r) ∷ rest) = Live heap k r × Absent k rest × Ready heap rest

-- Two places with different ids are different places.
pub apart :
    (heap : List Client) (k j : String) (r q : ℕ) (c e : Client)
    → get_elem? heap r ≡ some c
    → c.id ≡ k
    → k ≢ j
    → get_elem? heap q ≡ some e
    → e.id ≡ j
    → r ≢ q
apart heap k j r q c e at i ne at' i' p =
    let same : get_elem? heap q ≡ some c = subst (λ x. get_elem? heap x ≡ some c) p at in
    ne (ground (arith, same))

Live-set :
    (heap : List Client) (k j : String) (r q : ℕ) (c d : Client)
    → get_elem? heap r ≡ some c
    → c.id ≡ k
    → k ≢ j
    → Live heap j q
    → Live (set heap r d) j q
Live-set heap k j r q c d at i ne (e, at', i', o) =
    (e, get_elem?-set_ne heap r q d (apart heap k j r q c e at i ne at' i') ∙ at', i', o)

pub Ready-set :
    (heap : List Client) (k : String) (r : ℕ) (c d : Client) (es : Dict ℕ)
    → get_elem? heap r ≡ some c
    → c.id ≡ k
    → Absent k es
    → Ready heap es
    → Ready (set heap r d) es
Ready-set heap k r c d [] at i a v = tt
Ready-set heap k r c d ((j, q) ∷ rest) at i (ne, a) (l, b, v) =
    (Live-set heap k j r q c d at i (λ e. ne (sym e)) l, b, Ready-set heap k r c d rest at i a v)

pub lookup-Absent : (k : String) (es : Dict ℕ) → Absent k es → lookup k es ≡ none
unfolding lookup
lookup-Absent k [] a = refl
lookup-Absent k ((j, r) ∷ rest) (ne, a) = ground (arith, eq_iff j k, lookup-Absent k rest a)

-- Whether one more message fits into the queue of a client.
abbrev pub has_room : Client → Bool
has_room c = ltb (length c.send.buffer) c.send.capacity

-- What such a map holds under a key is live.
pub Ready-Live :
    (heap : List Client) (m : Dict ℕ) (k : String) (r : ℕ)
    → Ready heap m
    → lookup k m ≡ some r
    → Live heap k r
unfolding lookup
Ready-Live heap [] k r v h = absurd (cc)
Ready-Live heap ((j, q) ∷ rest) k r (live, _, v) h = elim (Bool-cases (str_eq j k)) [
  | inl e ↦
      let same : j ≡ k = ground (arith, eq_iff j k) in
      let place : q ≡ r = ground arith in
      subst (λ p. Live heap k p) place (subst (λ i. Live heap i q) same live)
  | inr ne ↦ Ready-Live heap rest k r v (ground arith)
]
