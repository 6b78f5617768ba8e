-- ===== src/JsonStructure/Balance.antt =====
-- A description of balanced bodies, for `isValidJSONStructure` of
-- internal/validation/request_validation.go.
use frontend_router_mcp.Base.{
  ℕ, zero, suc, ◌+◌, ◌-◌, ◌≤◌, ◌≡◌, ◌≢◌, refl, arith, Bool, true, false, not, ◌&&◌, ◌||◌,
  if◌then◌else◌, ◌==◌, List, [], ◌∷◌, ◌↔◌,
}
use frontend_router_mcp.JsonStructure.{
  Scan, start, scan_byte, scan_from, is_valid_json_structure, quote, backslash, open_brace,
  close_brace, open_bracket, close_bracket,
}

-- The bytes outside of strings. The flags tell whether the first byte is in a string, and whether it
-- follows a backslash in one.
pub outside : Bool → Bool → List ℕ → List ℕ
outside q e [] = []
outside q e (b ∷ bs) =
    let quoted = if e then q else if b == quote then not q else q in
    let rest = outside quoted (if e then false else q && b == backslash) bs in
    if e || q || b == quote || b == backslash then rest else b ∷ rest

pub count : ℕ → List ℕ → ℕ
count x [] = 0
count x (b ∷ bs) = let rest = count x bs in if b == x then suc rest else rest

abbrev pub take : ℕ → List ℕ → List ℕ
take zero bs = []
take (suc n) [] = []
take (suc n) (b ∷ bs) = b ∷ take n bs

-- With `d` of them open at the start: no prefix closes more than are open, and all are closed in the
-- end.
abbrev pub Balanced : ℕ → ℕ → ℕ → List ℕ → Type 0
Balanced o c d bs =
    ((n : ℕ) → count c (take n bs) ≤ d + count o (take n bs)) × (count c bs ≡ d + count o bs)

walk : ℕ → ℕ → ℕ → List ℕ → Bool
walk o c d [] = d == 0
walk o c d (b ∷ bs) =
    let rest = walk o c (if b == o then d + 1 else if b == c then d - 1 else d) bs in
    if b == c && d == 0 then false else rest

scan_walk :
    (s : Scan) (bs : List ℕ)
    → scan_from s bs ≡ (
        walk open_brace close_brace s.brace_count (outside s.in_string s.escaped bs)
        && walk open_bracket close_bracket s.bracket_count (outside s.in_string s.escaped bs))
unfolding scan_from walk outside scan_byte
scan_walk s [] = refl
scan_walk s (b ∷ bs) = ground (
  arith,
  scan_walk s bs,
  scan_walk (record s { escaped = false }) bs,
  scan_walk (record s { escaped = true }) bs,
  scan_walk (record s { in_string = not s.in_string }) bs,
  scan_walk (record s { brace_count = s.brace_count + 1 }) bs,
  scan_walk (record s { brace_count = s.brace_count - 1 }) bs,
  scan_walk (record s { bracket_count = s.bracket_count + 1 }) bs,
  scan_walk (record s { bracket_count = s.bracket_count - 1 }) bs,
)

-- The depth after one byte.
abbrev after : ℕ → ℕ → ℕ → ℕ → ℕ
after o c d b = if b == o then d + 1 else if b == c then d - 1 else d

walk-prefix :
    (o c d : ℕ) (bs : List ℕ)
    → o ≢ c
    → walk o c d bs ≡ true
    → (n : ℕ) → count c (take n bs) ≤ d + count o (take n bs)
unfolding walk count
walk-prefix o c d bs ne h zero = omega arith
walk-prefix o c d [] ne h (suc n) = omega arith
walk-prefix o c d (b ∷ bs) ne h (suc n) =
    ground
      (arith, λ (e : walk o c (after o c d b) bs ≡ true). walk-prefix o c (after o c d b) bs ne e n)

walk-total : (o c d : ℕ) (bs : List ℕ) → o ≢ c → walk o c d bs ≡ true → count c bs ≡ d + count o bs
unfolding walk count
walk-total o c d [] ne h = ground arith
walk-total o c d (b ∷ bs) ne h = ground (arith, walk-total o c (after o c d b) bs ne)

Balanced-tail :
    (o c d b : ℕ) (bs : List ℕ) → o ≢ c → Balanced o c d (b ∷ bs) → Balanced o c (after o c d b) bs
unfolding count
Balanced-tail o c d b bs ne (prefix, total) =
    ((λ n. ground (arith, prefix (suc n), prefix 1)), ground (arith, prefix 1))

Balanced-walk : (o c d : ℕ) (bs : List ℕ) → o ≢ c → Balanced o c d bs → walk o c d bs ≡ true
unfolding walk count
Balanced-walk o c d [] ne (prefix, total) = ground arith
Balanced-walk o c d (b ∷ bs) ne v =
    ground (arith, Balanced-walk o c (after o c d b) bs ne (Balanced-tail o c d b bs ne v), v.0 1)

braces_apart : open_brace ≢ close_brace
braces_apart e = omega arith

brackets_apart : open_bracket ≢ close_bracket
brackets_apart e = omega arith

-- A body passes exactly if, outside of its strings, the braces are balanced and the brackets are, each
-- kind for itself: no prefix closes more than it opens, and the body closes all. How the two kinds are
-- nested does not matter, nor whether the last string ends.
pub is_valid_json_structure_iff :
    (bytes : List ℕ)
    → (is_valid_json_structure bytes ≡ true) ↔ (
        Balanced open_brace close_brace 0 (outside false false bytes)
        × Balanced open_bracket close_bracket 0 (outside false false bytes))
unfolding is_valid_json_structure
is_valid_json_structure_iff bytes =
    let rest = outside false false bytes in
    let e = scan_walk start bytes in
    (
      (λ h.
          let braces : walk open_brace close_brace 0 rest ≡ true = ground (arith, e) in
          let brackets : walk open_bracket close_bracket 0 rest ≡ true = ground (arith, e) in
          (
            (
              walk-prefix open_brace close_brace 0 rest braces_apart braces,
              walk-total open_brace close_brace 0 rest braces_apart braces,
            ),
            (
              walk-prefix open_bracket close_bracket 0 rest brackets_apart brackets,
              walk-total open_bracket close_bracket 0 rest brackets_apart brackets,
            ),
          )),
      (λ v. ground (
        arith,
        e,
        Balanced-walk open_brace close_brace 0 rest braces_apart (v.0),
        Balanced-walk open_bracket close_bracket 0 rest brackets_apart (v.1),
      )),
    )
