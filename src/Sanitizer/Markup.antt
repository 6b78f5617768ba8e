-- ===== src/Sanitizer/Markup.antt =====
-- What `SanitizeUserInput` leaves of markup.
use frontend_router_mcp.Base.{
  ℕ, ◌<◌, ◌≡◌, ◌≢◌, ◌⊎◌, inl, inr, refl, subst, arith, List, [], ◌∷◌, Option, none, some, String,
  length, Bool-cases,
}
use frontend_router_mcp.Utf8.{runes_in, encode_rune}
use frontend_router_mcp.Utf8.Ascii.{Lacks, Lacks-append, runes_in-Lacks, encode_rune-Lacks}
use frontend_router_mcp.Sanitizer.{
  Compiler, Tables, ◌>>=◌, remove_dangerous_patterns, escape_byte, escape_html, is_kept, write_kept,
  sanitize_unicode, normalize_whitespace, sanitize_user_input,
}

-- The bytes that begin or end a tag or an attribute's value: < > " '
abbrev pub IsMarkup : ℕ → Type 0
IsMarkup c = (c ≡ 60) ⊎ (c ≡ 62) ⊎ (c ≡ 34) ⊎ (c ≡ 39)

-- `ReplaceAllString` writes bytes of the text and of the replacement only.
abbrev pub IsReplacing : Compiler → Type 0
IsReplacing compile =
    (pattern : String) (replace : List ℕ → List ℕ → List ℕ)
    → compile pattern ≡ some replace
    → (c : ℕ) (new s : List ℕ) → Lacks c new
    → Lacks c s
    → Lacks c (replace new s)

-- `TrimSpace` takes away bytes only.
abbrev pub IsTrimming : Tables → Type 0
IsTrimming tables = (c : ℕ) (s : List ℕ) → Lacks c s → Lacks c (tables.trim_space s)

escape_byte-Lacks : (c b : ℕ) → IsMarkup c → Lacks c (escape_byte b)
unfolding escape_byte
escape_byte-Lacks c b m = ground arith

escape_html-Lacks : (c : ℕ) (s : List ℕ) → IsMarkup c → Lacks c (escape_html s)
unfolding escape_html
escape_html-Lacks c [] m = tt
escape_html-Lacks c (b ∷ s) m =
    Lacks-append c (escape_byte b) (escape_html s) (escape_byte-Lacks c b m)
      (escape_html-Lacks c s m)

IsMarkup-lt : (c : ℕ) → IsMarkup c → c < 128
IsMarkup-lt c m = ground arith

write_kept-Lacks :
    (tables : Tables) (c : ℕ) (rs : List ℕ) → c < 128 → Lacks c rs → Lacks c (write_kept tables rs)
unfolding write_kept
write_kept-Lacks tables c [] h k = tt
write_kept-Lacks tables c (r ∷ rs) h (ne, k) =
    let rest = write_kept-Lacks tables c rs h k in
    elim (Bool-cases (is_kept tables r)) [
      | inl e ↦ rw e (Lacks-append c (encode_rune r) _ (encode_rune-Lacks c r h ne) rest)
      | inr e ↦ rw e rest
    ]

sanitize_unicode-Lacks :
    (tables : Tables) (c : ℕ) (s : List ℕ)
    → c < 128
    → Lacks c s
    → Lacks c (sanitize_unicode tables s)
unfolding sanitize_unicode
sanitize_unicode-Lacks tables c s h k =
    write_kept-Lacks tables c (runes_in (length s) s) h (runes_in-Lacks c (length s) s h k)

bind_some :
    {A B : Type 0} (m : Option A) (f : A → Option B) {b : B}
    → (m >>= f) ≡ some b
    → (a : A) × (m ≡ some a) × (f a ≡ some b)
bind_some none f h = cc
bind_some (some a) f h = (a, refl, h)

of_some : (c : ℕ) (s t : List ℕ) → Lacks c s → some s ≡ some t → Lacks c t
of_some c s t k h = subst (Lacks c) (cc) k

normalize_whitespace-Lacks :
    (compile : Compiler) (tables : Tables) (c : ℕ) (s t : List ℕ)
    → IsReplacing compile
    → IsTrimming tables
    → 32 ≢ c
    → Lacks c s
    → normalize_whitespace compile tables s ≡ some t
    → Lacks c t
unfolding normalize_whitespace
normalize_whitespace-Lacks compile tables c s t replacing trimming ne k h =
    let (replace, e, result) = bind_some (compile "\\s+") _ h in
    of_some c _ t (trimming c _ (replacing "\\s+" replace e c (32 ∷ []) s (ne, tt) k)) result

-- If replacing by a regular expression writes no bytes but those of the text and of the replacement,
-- and trimming only takes bytes away, a text that `SanitizeUserInput` returns holds no <, no >, no
-- quotation mark and no apostrophe, whatever the policy and the tables of Unicode do.
pub sanitize_user_input-Lacks :
    (compile : Compiler) (tables : Tables) (s t : List ℕ) (c : ℕ)
    → IsReplacing compile
    → IsTrimming tables
    → IsMarkup c
    → sanitize_user_input compile tables s ≡ some t
    → Lacks c t
unfolding sanitize_user_input
sanitize_user_input-Lacks compile tables s t c replacing trimming m h =
    let (clean, _, h1) = bind_some (remove_dangerous_patterns compile s) _ h in
    let (normal, e, h2) = bind_some (normalize_whitespace compile tables _) _ h1 in
    let escaped = escape_html-Lacks c (tables.strict_policy clean) m in
    let printable = sanitize_unicode-Lacks tables c _ (IsMarkup-lt c m) escaped in
    of_some c _ t
      (trimming c normal (
        normalize_whitespace-Lacks compile tables c _ normal replacing trimming (λ e. ground arith)
          printable e))
      h2
