-- ===== src/Utf8/Ascii.antt =====
-- An ASCII character is its own byte, and no byte of another character's encoding.
use frontend_router_mcp.Base.{
  ℕ, zero, suc, ◌≤◌, ◌<◌, ◌≡◌, ◌≢◌, refl, ap, arith, List, [], ◌∷◌, ◌++◌, length,
}
use frontend_router_mcp.Requests.Bodies.{drop}
use frontend_router_mcp.Utf8.{
  decode_rune, decode_two, decode_three, decode_four, lower_bound, runes_in, encode_rune,
}

-- Not this byte.
abbrev pub Lacks : ℕ → List ℕ → Type 0
Lacks c [] = Unit
Lacks c (b ∷ s) = (b ≢ c) × Lacks c s

pub Lacks-append : (c : ℕ) (s t : List ℕ) → Lacks c s → Lacks c t → Lacks c (s ++ t)
Lacks-append c [] t h k = k
Lacks-append c (b ∷ s) t (ne, h) k = (ne, Lacks-append c s t h k)

Lacks-drop : (c n : ℕ) (s : List ℕ) → Lacks c s → Lacks c (drop n s)
Lacks-drop c zero s h = h
Lacks-drop c (suc n) [] h = h
Lacks-drop c (suc n) (b ∷ s) (ne, h) = Lacks-drop c n s h

two-le : (b : ℕ) (s : List ℕ) → 194 ≤ b → b ≤ 223 → 128 ≤ (decode_two b s).0
unfolding decode_two
two-le b [] h k = omega arith
two-le b (c ∷ s) h k = ground arith

three-le : (b : ℕ) (s : List ℕ) → 224 ≤ b → b ≤ 239 → 128 ≤ (decode_three b s).0
unfolding decode_three lower_bound
three-le b [] h k = omega arith
three-le b (c ∷ []) h k = omega arith
three-le b (c ∷ d ∷ s) h k = ground arith

four-le : (b : ℕ) (s : List ℕ) → 240 ≤ b → b ≤ 244 → 128 ≤ (decode_four b s).0
unfolding decode_four lower_bound
four-le b [] h k = omega arith
four-le b (c ∷ []) h k = omega arith
four-le b (c ∷ d ∷ []) h k = omega arith
four-le b (c ∷ d ∷ e ∷ s) h k = ground arith

-- A rune below 128 comes from that byte.
decode_rune-ne : (c b : ℕ) (s : List ℕ) → c < 128 → b ≢ c → (decode_rune b s).0 ≢ c
unfolding decode_rune
decode_rune-ne c b s h ne = ground (arith, two-le b s, three-le b s, four-le b s)

pub runes_in-Lacks : (c fuel : ℕ) (s : List ℕ) → c < 128 → Lacks c s → Lacks c (runes_in fuel s)
unfolding runes_in
runes_in-Lacks c zero s h k = tt
runes_in-Lacks c (suc fuel) [] h k = tt
runes_in-Lacks c (suc fuel) (b ∷ s) h (ne, k) = (
  decode_rune-ne c b s h ne,
  runes_in-Lacks c fuel (drop (decode_rune b s).1 (b ∷ s)) h
      (Lacks-drop c (decode_rune b s).1 (b ∷ s) (ne, k)),
)

pub encode_rune-Lacks : (c r : ℕ) → c < 128 → r ≢ c → Lacks c (encode_rune r)
unfolding encode_rune
encode_rune-Lacks c r h ne = ground arith

decode_rune_ascii : (b : ℕ) (s : List ℕ) → b < 128 → decode_rune b s ≡ (b, 1)
unfolding decode_rune
decode_rune_ascii b s h = ground arith

abbrev pub IsAscii : List ℕ → Type 0
IsAscii [] = Unit
IsAscii (b ∷ s) = (b < 128) × IsAscii s

pub runes_in_ascii : (fuel : ℕ) (s : List ℕ) → length s ≤ fuel → IsAscii s → runes_in fuel s ≡ s
unfolding runes_in
runes_in_ascii zero [] h p = refl
runes_in_ascii zero (b ∷ s) h p = absurd (omega arith)
runes_in_ascii (suc fuel) [] h p = refl
runes_in_ascii (suc fuel) (b ∷ s) h (lt, p) =
    rw (decode_rune_ascii b s lt) (ap (λ rs. b ∷ rs) (runes_in_ascii fuel s (omega arith) p))
