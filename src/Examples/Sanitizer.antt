-- ===== src/Examples/Sanitizer.antt =====
-- The sanitizer at concrete inputs: regular expressions that never match, but for the one that does
-- not compile, and tables of ASCII.
use frontend_router_mcp.Base.{
  ℕ, ◌+◌, ◌*◌, ◌^◌, ◌≡◌, ◌↔◌, inl, inr, refl, arith, Bool, true, false, ◌&&◌, if◌then◌else◌, leb,
  List, [], ◌∷◌, Option, none, some, String, str_eq, length, Bool-cases, subst, sym, ◌∙◌,
}
use frontend_router_mcp.Utf8.Ascii.{Lacks}
use frontend_router_mcp.Utf8.{decode_rune, decode_two, runes_in, encode_rune}
use frontend_router_mcp.Sanitizer.{
  Compiler, Tables, empty_element_pattern, escape_json_dangerous_chars, sanitize_user_input,
  AdvancedSanitizationOptions, advanced_sanitize, sanitize_unicode, escape_html,
  remove_dangerous_patterns, remove_all, normalize_whitespace, is_kept,
}
use frontend_router_mcp.Sanitizer.Json.{
  read_string, has_control, read_string-escape_json_dangerous_chars,
}
use frontend_router_mcp.Sanitizer.Markup.{IsReplacing, IsTrimming, sanitize_user_input-Lacks}
use frontend_router_mcp.Sanitizer.Panics.{Returns, Compile, IsStandard, advanced_sanitize-Returns}
use frontend_router_mcp.Validator.Structs.{Data, user_question}
use frontend_router_mcp.Validator.Escapes.{
  IsPrintable, PrintsAscii, escapes, sanitized, escapes-sanitized,
}

abbrev compile : Compiler
compile pattern = if str_eq pattern empty_element_pattern then none else some (λ new s. s)

abbrev ascii : Tables
ascii = record {
  is_control = λ r. false;
  is_private_use = λ r. false;
  is_print = λ r. leb 32 r && leb r 126;
  is_space = λ r. false;
  trim_space = λ s. s;
  strict_policy = λ s. s;
  basic_policy = λ s. s;
  relaxed_policy = λ s. s;
}

-- a\"b
abbrev quoted : List ℕ
quoted = b'a' ∷ 92 ∷ 34 ∷ b'b' ∷ []

read_string-escape_json_dangerous_chars_example :
    read_string false (escape_json_dangerous_chars quoted)
    ≡ (if has_control quoted then none else some quoted)
read_string-escape_json_dangerous_chars_example = read_string-escape_json_dangerous_chars quoted

abbrev replacement : Option (List ℕ → List ℕ → List ℕ) → List ℕ → List ℕ → List ℕ
replacement none = λ new s. s
replacement (some r) = r

only_empty :
    (pattern : String)
    → str_eq pattern empty_element_pattern ≡ false
    → compile pattern ≡ some (λ new s. s)
only_empty pattern f = rw f refl

compile-IsReplacing : IsReplacing compile
compile-IsReplacing pattern replace e c new s h k =
    elim (Bool-cases (str_eq pattern empty_element_pattern)) [
      | inl t ↦ cc
      | inr f ↦ subst (λ r. Lacks c (replacement r new s)) (◌∙◌ (sym (only_empty pattern f)) e) k
    ]

ascii-IsTrimming : IsTrimming ascii
ascii-IsTrimming c s h = h

-- <b> becomes &lt;b&gt;
abbrev clean : List ℕ
clean = b'&' ∷ b'l' ∷ b't' ∷ b';' ∷ b'b' ∷ b'&' ∷ b'g' ∷ b't' ∷ b';' ∷ []

bold_cleaned : sanitize_user_input compile ascii (60 ∷ b'b' ∷ 62 ∷ []) ≡ some clean
unfolding sanitize_user_input remove_dangerous_patterns remove_all normalize_whitespace
    sanitize_unicode runes_in escape_html is_kept encode_rune
bold_cleaned = refl

sanitize_user_input-Lacks_example : Lacks 60 clean
sanitize_user_input-Lacks_example =
    sanitize_user_input-Lacks compile ascii (60 ∷ b'b' ∷ 62 ∷ []) clean 60 compile-IsReplacing
      ascii-IsTrimming (inl refl) bold_cleaned

compile-IsStandard : IsStandard compile
compile-IsStandard = record {
  xss = ground arith;
  sql = ground arith;
  command = ground arith;
  path = ground arith;
  whitespace = λ e. cc;
  comment = λ e. cc;
  no_back_reference = refl;
}

abbrev options : AdvancedSanitizationOptions
options = record {
  remove_comments = true;
  remove_empty_elements = true;
  max_length = 10;
  allowed_protocols = [];
  blocked_domains = [];
  custom_patterns = "x+" ∷ [];
}

advanced_sanitize-Returns_example :
    Returns (advanced_sanitize compile ascii quoted options)
    ↔ (Compile compile ("x+" ∷ []) × (◌≡◌ {A = Bool} true false))
advanced_sanitize-Returns_example =
    advanced_sanitize-Returns compile compile-IsStandard ascii quoted options

ascii-PrintsAscii : PrintsAscii ascii
ascii-PrintsAscii r lo hi = ground arith

escapes-sanitized_example :
    IsPrintable (sanitized ascii ascii-PrintsAscii 2 quoted)
    × (escapes (sanitized ascii ascii-PrintsAscii 2 quoted) ≡ 2 ^ 2 * 1)
    × (length (sanitized ascii ascii-PrintsAscii 2 quoted) + 1 ≡ 4 + 2 ^ 2 * 1)
escapes-sanitized_example = escapes-sanitized ascii ascii-PrintsAscii 2 quoted (omega arith)

-- é, and a byte that is no encoding.
abbrev accented : List ℕ
accented = 195 ∷ 169 ∷ 255 ∷ []

accented_lem : runes_in 3 accented ≡ 233 ∷ 65533 ∷ []
unfolding runes_in decode_rune decode_two
accented_lem = refl

abbrev question : Data String
question = user_question quoted "req-1"
