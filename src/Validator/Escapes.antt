-- ===== src/Validator/Escapes.antt =====
-- What `sanitizeSpecialChars` does to a text of printable ASCII characters, once and again.
use native.Mathlib.Nat.{pow-succ', mul_assoc}
use frontend_router_mcp.Base.{
  ℕ, zero, suc, ◌+◌, ◌*◌, ◌^◌, ◌≤◌, ◌<◌, ◌≡◌, arith, true, ◌||◌, ◌==◌, if◌then◌else◌, length, List,
  [], ◌∷◌, ◌++◌,
}
use frontend_router_mcp.Utf8.{encode_rune}
use frontend_router_mcp.Utf8.Ascii.{IsAscii, runes_in_ascii}
use frontend_router_mcp.Sanitizer.{Tables}
use frontend_router_mcp.Validator.{special_char, write_special, sanitize_special_chars}

abbrev pub IsPrintable : List ℕ → Type 0
IsPrintable [] = Unit
IsPrintable (b ∷ s) = (32 ≤ b) × (b < 127) × IsPrintable s

-- `unicode.IsPrint` on ASCII.
abbrev pub PrintsAscii : Tables → Type 0
PrintsAscii tables = (r : ℕ) → 32 ≤ r → r < 127 → tables.is_print r ≡ true

-- The backslashes and backticks.
abbrev pub escapes : List ℕ → ℕ
escapes [] = 0
escapes (b ∷ s) = (if b == 92 || b == 96 then 1 else 0) + escapes s

IsPrintable-IsAscii : (s : List ℕ) → IsPrintable s → IsAscii s
IsPrintable-IsAscii [] p = tt
IsPrintable-IsAscii (b ∷ s) (lo, hi, p) = (omega arith, IsPrintable-IsAscii s p)

escapes-append : (s t : List ℕ) → escapes (s ++ t) ≡ escapes s + escapes t
escapes-append [] t = omega arith
escapes-append (b ∷ s) t = ground (arith, escapes-append s t)

-- What is written for a printable character.
special_char_printable :
    (tables : Tables) (b : ℕ)
    → PrintsAscii tables
    → 32 ≤ b
    → b < 127
    → special_char tables b ≡ (if b == 92 || b == 96 then 92 ∷ b ∷ [] else b ∷ [])
unfolding special_char encode_rune
special_char_printable tables b ascii lo hi = ground (arith, ascii b lo hi)

twice_power : (n k : ℕ) → 2 ^ suc n * k ≡ 2 * (2 ^ n * k)
twice_power n k = rw pow-succ' (mul_assoc 2 (2 ^ n) k)

abbrev written : ℕ → List ℕ
written b = if b == 92 || b == 96 then 92 ∷ b ∷ [] else b ∷ []

written_lem :
    (b : ℕ) (t : List ℕ)
    → 32 ≤ b
    → b < 127
    → (IsPrintable t → IsPrintable (written b ++ t))
      × (escapes (written b ++ t) ≡ 2 * (if b == 92 || b == 96 then 1 else 0) + escapes t)
      × (length (written b ++ t) ≡ suc (length t) + (if b == 92 || b == 96 then 1 else 0))
written_lem b t lo hi = ground arith

module _ (tables : Tables) (ascii : PrintsAscii tables) where
  write_special-escapes :
      (s : List ℕ)
      → IsPrintable s
      → IsPrintable (write_special tables s)
        × (escapes (write_special tables s) ≡ 2 * escapes s)
        × (length (write_special tables s) ≡ length s + escapes s)
  unfolding write_special
  write_special-escapes [] p = (tt, omega arith, omega arith)
  write_special-escapes (b ∷ s) (lo, hi, p) =
      let (q, e, l) = write_special-escapes s p in
      let x = special_char_printable tables b ascii lo hi in
      let (q', e', l') = written_lem b (write_special tables s) lo hi in
      rw x (q' q, omega arith, omega arith)

  sanitize_special_chars_once :
      (s : List ℕ)
      → IsPrintable s
      → IsPrintable (sanitize_special_chars tables s)
        × (escapes (sanitize_special_chars tables s) ≡ 2 * escapes s)
        × (length (sanitize_special_chars tables s) ≡ length s + escapes s)
  unfolding sanitize_special_chars
  sanitize_special_chars_once s p =
      rw (runes_in_ascii (length s) s (omega arith) (IsPrintable-IsAscii s p))
        (write_special-escapes s p)

  abbrev pub sanitized : ℕ → List ℕ → List ℕ
  sanitized zero s = s
  sanitized (suc n) s = sanitize_special_chars tables (sanitized n s)

  -- A text of printable ASCII characters that goes through sanitizeSpecialChars `n` times has `2 ^ n` times as many backslashes
  -- and backticks as before, each added one a character more: it is left as it is, the second time
  -- too, only if it has none.
  pub escapes-sanitized :
      (n : ℕ) (s : List ℕ)
      → IsPrintable s
      → IsPrintable (sanitized n s)
        × (escapes (sanitized n s) ≡ 2 ^ n * escapes s)
        × (length (sanitized n s) + escapes s ≡ length s + 2 ^ n * escapes s)
  escapes-sanitized zero s p = (p, omega arith, omega arith)
  escapes-sanitized (suc n) s p =
      let (q, e, l) = escapes-sanitized n s p in
      let (q', e', l') = sanitize_special_chars_once (sanitized n s) q in
      let double = twice_power n (escapes s) in (q', omega arith, omega arith)
