-- ===== src/Sanitizer.antt =====
-- internal/validation/sanitization.go. A text is the list of its bytes. Regular expressions, the
-- policies of bluemonday, the tables of package unicode and `strings.TrimSpace` are arguments; `none`
-- is the panic of `regexp.MustCompile`.
pub mod Patterns
pub mod Json
pub mod Markup
pub mod Panics
use Prim.Native.String
use frontend_router_mcp.Base.{
  ℕ, zero, suc, ◌≡◌, Bool, true, false, not, ◌&&◌, ◌||◌, ◌==◌, ltb, leb, if◌then◌else◌, length,
  List, [], ◌∷◌, ◌++◌, map, Option, none, some, String,
}
use frontend_router_mcp.Utf8.{runes_in, encode_rune, in_range}
use frontend_router_mcp.Requests.Bodies.{take}
use frontend_router_mcp.Sanitizer.Patterns.{
  xss_patterns, sql_patterns, command_patterns, path_patterns, json_patterns,
}

-- `regexp.Compile`: `none` for an error, else `ReplaceAllString` by the replacement and the text.
abbrev pub Compiler : Type 0
Compiler = String → Option (List ℕ → List ℕ → List ℕ)

pub record Tables : Type 0 where
  pub is_control : ℕ → Bool
  pub is_private_use : ℕ → Bool
  pub is_print : ℕ → Bool
  pub is_space : ℕ → Bool
  pub trim_space : List ℕ → List ℕ
  -- The strict, the basic and the relaxed policy of bluemonday.
  pub strict_policy : List ℕ → List ℕ
  pub basic_policy : List ℕ → List ℕ
  pub relaxed_policy : List ℕ → List ℕ

pub data SanitizationPolicy : Type 0 where
  strict basic relaxed : SanitizationPolicy
  other : ℕ → SanitizationPolicy

-- `SanitizeHTML`
unfoldable pub sanitize_html : Tables → List ℕ → SanitizationPolicy → List ℕ
sanitize_html tables s strict = tables.strict_policy s
sanitize_html tables s basic = tables.basic_policy s
sanitize_html tables s relaxed = tables.relaxed_policy s
sanitize_html tables s (other n) = tables.strict_policy s

infixl 5 ◌>>=◌
abbrev pub ◌>>=◌ : {A B : Type 0} → Option A → (A → Option B) → Option B
none >>= f = none
some a >>= f = f a

-- The loops over patterns: each is compiled, and its matches are deleted.
unfoldable pub remove_all : Compiler → List String → List ℕ → Option (List ℕ)
remove_all compile [] s = some s
remove_all compile (pattern ∷ patterns) s = elim (compile pattern) [
  | none ↦ none
  | some replace ↦ remove_all compile patterns (replace [] s)
]

-- ``regexp.MustCompile(`(?i)` + pattern)``
abbrev pub caseless : List String → List String
caseless patterns = map (λ p. String.◌++◌ "(?i)" p) patterns

unfoldable pub remove_dangerous_patterns : Compiler → List ℕ → Option (List ℕ)
remove_dangerous_patterns compile s = do
  a ← remove_all compile (caseless xss_patterns) s
  b ← remove_all compile sql_patterns a
  c ← remove_all compile command_patterns b
  remove_all compile (caseless path_patterns) c

-- `html.EscapeString`
unfoldable pub escape_byte : ℕ → List ℕ
escape_byte b =
    if b == b'&'
    then b'&' ∷ b'a' ∷ b'm' ∷ b'p' ∷ b';' ∷ []
    else if b == 39
    then b'&' ∷ b'#' ∷ b'3' ∷ b'9' ∷ b';' ∷ []
    else if b == b'<'
    then b'&' ∷ b'l' ∷ b't' ∷ b';' ∷ []
    else if b == b'>'
    then b'&' ∷ b'g' ∷ b't' ∷ b';' ∷ []
    else if b == 34
    then b'&' ∷ b'#' ∷ b'3' ∷ b'4' ∷ b';' ∷ []
    else b ∷ []

unfoldable pub escape_html : List ℕ → List ℕ
unfolding escape_byte
escape_html [] = []
escape_html (b ∷ s) = escape_byte b ++ escape_html s

-- The tests of the loop of `sanitizeUnicode`.
unfoldable pub is_kept : Tables → ℕ → Bool
is_kept tables r =
    if tables.is_control r && not (r == 10) && not (r == 13) && not (r == 9)
    then false
    else if tables.is_private_use r
    then false
    else if in_range 55296 57343 r
    then false
    else if not (tables.is_print r) && not (tables.is_space r)
    then false
    else true

unfoldable pub write_kept : Tables → List ℕ → List ℕ
write_kept tables [] = []
write_kept tables (r ∷ rs) =
    let rest = write_kept tables rs in if is_kept tables r then encode_rune r ++ rest else rest

unfoldable pub sanitize_unicode : Tables → List ℕ → List ℕ
unfolding write_kept
sanitize_unicode tables s = write_kept tables (runes_in (length s) s)

unfoldable pub normalize_whitespace : Compiler → Tables → List ℕ → Option (List ℕ)
normalize_whitespace compile tables s = do
  replace ← compile "\\s+"
  some (tables.trim_space (replace (32 ∷ []) s))

unfoldable pub sanitize_user_input : Compiler → Tables → List ℕ → Option (List ℕ)
sanitize_user_input compile tables s = do
  clean ← remove_dangerous_patterns compile s
  normal ←
      normalize_whitespace compile tables
        (sanitize_unicode tables (escape_html (tables.strict_policy clean)))
  some (tables.trim_space normal)

-- `strings.ReplaceAll(s, old, new)`, where `old` is one byte.
unfoldable pub replace_byte : ℕ → List ℕ → List ℕ → List ℕ
replace_byte old new [] = []
replace_byte old new (b ∷ s) =
    let rest = replace_byte old new s in if b == old then new ++ rest else b ∷ rest

unfoldable pub escape_json_dangerous_chars : List ℕ → List ℕ
unfolding replace_byte
escape_json_dangerous_chars s =
    let backslashes = replace_byte 92 (92 ∷ 92 ∷ []) s in
    let quotes = replace_byte 34 (92 ∷ 34 ∷ []) backslashes in
    let lines = replace_byte 10 (92 ∷ b'n' ∷ []) quotes in
    let returns = replace_byte 13 (92 ∷ b'r' ∷ []) lines in replace_byte 9 (92 ∷ b't' ∷ []) returns

-- `SanitizeJSON`
unfoldable pub sanitize_json : Compiler → List ℕ → Option (List ℕ)
sanitize_json compile s = do
  clean ← remove_all compile json_patterns s
  some (escape_json_dangerous_chars clean)

pub record AdvancedSanitizationOptions : Type 0 where
  pub remove_comments : Bool
  pub remove_empty_elements : Bool
  -- 0 stands for a negative limit too.
  pub max_length : ℕ
  pub allowed_protocols : List String
  pub blocked_domains : List String
  pub custom_patterns : List String

abbrev pub comment_pattern : String
comment_pattern = "<!--.*?-->"

abbrev pub empty_element_pattern : String
empty_element_pattern = "<(\\w+)[^>]*></\\1>"

unfoldable pub advanced_sanitize :
    Compiler → Tables → List ℕ → AdvancedSanitizationOptions → Option (List ℕ)
advanced_sanitize compile tables s options = do
  a ← remove_all compile options.custom_patterns s
  b ← if options.remove_comments then remove_all compile (comment_pattern ∷ []) a else some a
  c ←
      if options.remove_empty_elements
      then remove_all compile (empty_element_pattern ∷ []) b
      else some b
  let cut =
      if ltb 0 options.max_length && ltb options.max_length (length c)
      then take options.max_length c
      else c
  sanitize_user_input compile tables cut
