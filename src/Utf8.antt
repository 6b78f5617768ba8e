-- ===== src/Utf8.antt =====
-- How Go reads and writes a string as UTF-8: `range` over a string, and `WriteRune`. A string is the
-- list of its bytes.
pub mod Ascii
use frontend_router_mcp.Base.{
  ℕ, zero, suc, ◌+◌, ◌*◌, ◌%◌, ◌/◌, ◌≤◌, ◌<◌, ◌≡◌, arith, refl, ap, Bool, true, false, not, ◌&&◌,
  ◌||◌, if◌then◌else◌, List, [], ◌∷◌, ◌++◌, ltb, leb, length,
}
use frontend_router_mcp.Requests.Bodies.{take, drop}

-- U+FFFD, which stands for a byte that is not part of an encoding.
abbrev pub rune_error : ℕ
rune_error = 65533

abbrev pub in_range : ℕ → ℕ → ℕ → Bool
in_range lo hi b = leb lo b && leb b hi

-- The bounds of the second byte.
lower_bound : ℕ → ℕ
lower_bound b = if in_range 224 224 b then 160 else if in_range 240 240 b then 144 else 128

upper_bound : ℕ → ℕ
upper_bound b = if in_range 237 237 b then 159 else if in_range 244 244 b then 143 else 191

unfoldable pub decode_two : ℕ → List ℕ → ℕ × ℕ
decode_two b [] = (rune_error, 1)
decode_two b (c ∷ rest) =
    if in_range 128 191 c then ((b % 32) * 64 + c % 64, 2) else (rune_error, 1)

decode_three : ℕ → List ℕ → ℕ × ℕ
unfolding lower_bound upper_bound
decode_three b (c ∷ d ∷ rest) =
    if in_range (lower_bound b) (upper_bound b) c && in_range 128 191 d
    then ((b % 16) * 4096 + (c % 64) * 64 + d % 64, 3)
    else (rune_error, 1)
decode_three b (c ∷ []) = (rune_error, 1)
decode_three b [] = (rune_error, 1)

decode_four : ℕ → List ℕ → ℕ × ℕ
unfolding lower_bound upper_bound
decode_four b (c ∷ d ∷ e ∷ rest) =
    if in_range (lower_bound b) (upper_bound b) c && in_range 128 191 d && in_range 128 191 e
    then ((b % 8) * 262144 + (c % 64) * 4096 + (d % 64) * 64 + e % 64, 4)
    else (rune_error, 1)
decode_four b (c ∷ d ∷ []) = (rune_error, 1)
decode_four b (c ∷ []) = (rune_error, 1)
decode_four b [] = (rune_error, 1)

-- The first rune and the number of its bytes.
unfoldable pub decode_rune : ℕ → List ℕ → ℕ × ℕ
unfolding decode_two decode_three decode_four
decode_rune b rest =
    if ltb b 128
    then (b, 1)
    else if in_range 194 223 b
    then decode_two b rest
    else if in_range 224 239 b
    then decode_three b rest
    else if in_range 240 244 b
    then decode_four b rest
    else (rune_error, 1)

-- The runes of `for _, r := range s`. A rune has at least one byte, so that the length of `s` is
-- enough fuel.
unfoldable pub runes_in : ℕ → List ℕ → List ℕ
unfolding decode_rune
runes_in zero s = []
runes_in (suc fuel) [] = []
runes_in (suc fuel) (b ∷ rest) =
    let (r, width) = decode_rune b rest in r ∷ runes_in fuel (drop width (b ∷ rest))

decode_rune-width : (b : ℕ) (rest : List ℕ) → 1 ≤ (decode_rune b rest).1
unfolding decode_rune decode_two decode_three decode_four
decode_rune-width b [] = ground arith
decode_rune-width b (c ∷ []) = ground arith
decode_rune-width b (c ∷ d ∷ []) = ground arith
decode_rune-width b (c ∷ d ∷ e ∷ rest) = ground arith

length-drop : (n : ℕ) (s : List ℕ) → length (drop n s) ≤ length s
length-drop zero s = omega arith
length-drop (suc n) [] = omega arith
length-drop (suc n) (b ∷ s) = omega (arith, length-drop n s)

length-drop_some : (n b : ℕ) (s : List ℕ) → 1 ≤ n → length (drop n (b ∷ s)) ≤ length s
length-drop_some zero b s h = absurd (omega arith)
length-drop_some (suc n) b s h = length-drop n s

-- The loop of `range` over a string ends: with any fuel from the length of the string on it reads the same
-- runes, so that it never stops for want of fuel.
pub runes_in_enough :
    (m n : ℕ) (s : List ℕ) → length s ≤ m → length s ≤ n → runes_in m s ≡ runes_in n s
unfolding runes_in
runes_in_enough zero zero s p q = refl
runes_in_enough zero (suc n) [] p q = refl
runes_in_enough (suc m) zero [] p q = refl
runes_in_enough (suc m) (suc n) [] p q = refl
runes_in_enough zero (suc n) (b ∷ s) p q = absurd (omega arith)
runes_in_enough (suc m) zero (b ∷ s) p q = absurd (omega arith)
runes_in_enough (suc m) (suc n) (b ∷ s) p q =
    let width = (decode_rune b s).1 in
    let less = length-drop_some width b s (decode_rune-width b s) in
    ap (λ rs. (decode_rune b s).0 ∷ rs)
      (runes_in_enough m n (drop width (b ∷ s)) (omega arith) (omega arith))

-- What `WriteRune` adds to a builder.
unfoldable pub encode_rune : ℕ → List ℕ
encode_rune r =
    if ltb r 128
    then r ∷ []
    else if ltb r 2048
    then (192 + r / 64) ∷ (128 + r % 64) ∷ []
    else if in_range 55296 57343 r || ltb 1114111 r
    then 239 ∷ 191 ∷ 189 ∷ []
    else if ltb r 65536
    then (224 + r / 4096) ∷ (128 + (r / 64) % 64) ∷ (128 + r % 64) ∷ []
    else (240 + r / 262144) ∷ (128 + (r / 4096) % 64) ∷ (128 + (r / 64) % 64) ∷ (128 + r % 64) ∷ []
