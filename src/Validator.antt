-- ===== src/Validator.antt =====
-- internal/validation/validator.go: the texts that the custom rules refuse, and the sanitizing of
-- questions and answers. The rules of go-playground/validator and regular expressions are arguments.
pub mod Dangerous
pub mod Escapes
pub mod Structs
use frontend_router_mcp.Base.{
  ℕ, Bool, true, false, not, ◌&&◌, ◌||◌, ◌==◌, ltb, leb, if◌then◌else◌, length, List, [], ◌∷◌, ◌++◌,
  map, Option, none, some, String, str_eq,
}
use Prim.Native.String.{len}
use frontend_router_mcp.Requests.{Env, contains_any, is_one_of}
use frontend_router_mcp.Requests.Bodies.{take}
use frontend_router_mcp.Utf8.{runes_in, encode_rune}
use frontend_router_mcp.SecurityHeaders.{join}
use frontend_router_mcp.Sanitizer.{Tables, escape_html}

pub record ValidationError : Type 0 where
  pub field : String
  pub tag : String
  pub message : String
  pub value : String

-- `ValidationErrors.Error`
unfoldable pub errors_text : List ValidationError → String
errors_text [] = "validation failed"
errors_text (e ∷ es) = join (map (λ e. e.message) (e ∷ es)) ", "

-- `DefaultInputLimits`
abbrev pub max_message_size : ℕ
max_message_size = 65536

abbrev pub max_question_len : ℕ
max_question_len = 10000

abbrev pub max_answer_len : ℕ
max_answer_len = 50000

abbrev pub max_client_id_len : ℕ
max_client_id_len = 64

abbrev pub max_payload_size : ℕ
max_payload_size = 32768

abbrev pub allowed_msg_types : List String
allowed_msg_types = "connect" ∷ "disconnect" ∷ "user_response" ∷ "ask_user" ∷ "connect_ack" ∷ []

-- `none` is the error, of the size and the limit.
unfoldable pub validate_message_size : ℕ → Option (ℕ × ℕ)
validate_message_size size =
    if ltb max_message_size size then some (size, max_message_size) else none

unfoldable pub validate_payload_size : ℕ → Option (ℕ × ℕ)
validate_payload_size size =
    if ltb max_payload_size size then some (size, max_payload_size) else none

-- `validateSafeMessageType`, and `ValidateMessageType` without its error.
unfoldable pub validate_safe_message_type : String → Bool
validate_safe_message_type type = is_one_of allowed_msg_types type

abbrev pub dangerous_patterns : List String
dangerous_patterns =
    "<script" ∷ "</script>" ∷ "javascript:" ∷ "vbscript:" ∷ "onload=" ∷ "onerror=" ∷ "eval("
    ∷ "document.cookie" ∷ "window.location" ∷ "alert(" ∷ "confirm(" ∷ []

abbrev pub script_patterns : List String
script_patterns =
    "<script" ∷ "</script>" ∷ "javascript:" ∷ "vbscript:" ∷ "onload=" ∷ "onerror=" ∷ "onclick="
    ∷ "onmouseover=" ∷ []

abbrev pub sql_patterns : List String
sql_patterns =
    "union select" ∷ "drop table" ∷ "delete from" ∷ "insert into" ∷ "update set" ∷ "exec("
    ∷ "execute(" ∷ "sp_" ∷ "xp_" ∷ "--" ∷ "/*" ∷ "*/" ∷ "';" ∷ "'or" ∷ "'and" ∷ []

abbrev pub all_dangerous_patterns : List String
all_dangerous_patterns =
    "<script" ∷ "</script>" ∷ "javascript:" ∷ "vbscript:" ∷ "onload=" ∷ "onerror=" ∷ "onclick="
    ∷ "onmouseover=" ∷ "eval(" ∷ "document.cookie" ∷ "window.location" ∷ "alert(" ∷ "confirm("
    ∷ "prompt(" ∷ []

unfoldable pub validate_safe_string : Env → String → Bool
validate_safe_string env value = not (contains_any (env.to_lower value) dangerous_patterns)

unfoldable pub validate_no_script : Env → String → Bool
validate_no_script env value = not (contains_any (env.to_lower value) script_patterns)

unfoldable pub validate_no_sql_injection : Env → String → Bool
validate_no_sql_injection env value = not (contains_any (env.to_lower value) sql_patterns)

unfoldable pub validate_safe_question : Env → String → Bool
validate_safe_question env value =
    validate_safe_string env value && leb (len value) max_question_len

unfoldable pub validate_safe_answer : Env → String → Bool
validate_safe_answer env value = validate_safe_string env value && leb (len value) max_answer_len

-- `ContainsDangerousContent`
unfoldable pub contains_dangerous_content : Env → String → Bool
contains_dangerous_content env content = contains_any (env.to_lower content) all_dangerous_patterns

-- The switch of `sanitizeSpecialChars`: what is written for a rune.
unfoldable pub special_char : Tables → ℕ → List ℕ
special_char tables r =
    if tables.is_print r && ltb r 127
    then (if r == 92 || r == 96 then 92 ∷ encode_rune r else encode_rune r)
    else if tables.is_space r
    then encode_rune r
    else []

unfoldable pub write_special : Tables → List ℕ → List ℕ
write_special tables [] = []
write_special tables (r ∷ rs) = special_char tables r ++ write_special tables rs

unfoldable pub sanitize_special_chars : Tables → List ℕ → List ℕ
unfolding write_special special_char
sanitize_special_chars tables s = write_special tables (runes_in (length s) s)

unfoldable pub sanitize_string : Tables → List ℕ → List ℕ
sanitize_string tables s = sanitize_special_chars tables (escape_html (tables.strict_policy s))

-- `SanitizeQuestion` and `SanitizeAnswer`, by their limits.
unfoldable pub sanitize_to : Tables → ℕ → List ℕ → List ℕ
sanitize_to tables limit s =
    let sanitized = tables.trim_space (sanitize_string tables s) in
    if ltb limit (length sanitized) then take limit sanitized else sanitized

unfoldable pub sanitize_question : Tables → List ℕ → List ℕ
unfolding sanitize_to
sanitize_question tables s = sanitize_to tables max_question_len s

unfoldable pub sanitize_answer : Tables → List ℕ → List ℕ
unfolding sanitize_to
sanitize_answer tables s = sanitize_to tables max_answer_len s
