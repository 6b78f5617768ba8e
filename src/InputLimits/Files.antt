-- ===== src/InputLimits/Files.antt =====
-- Content types, files, custom rules and headers in internal/validation/input_limits.go.
-- `mime.ParseMediaType` is an argument; `strings.ToLower` and the canonical header names are those of
-- Requests. Errors are told apart by the call of `fmt.Errorf` that makes them. Sizes are not negative.
pub mod Accepted
pub mod Rules
use Prim.Native.String.{[] as str_nil, ◌∷◌ as str_cons, ◌++◌ as str_append, len}
use frontend_router_mcp.Base.{
  ℕ, Bool, true, false, not, ◌&&◌, ◌||◌, if◌then◌else◌, ltb, List, [], ◌∷◌, Option, none, some,
  String, str_eq, Dict, lookup,
}
use frontend_router_mcp.Channel.{Done, done, panic}
use frontend_router_mcp.Requests.{Env, Request, get_header, is_one_of}
use frontend_router_mcp.InputLimits.{InputLimitsConfig, InputRule}

-- The media type and its parameters; `none` is an error.
abbrev pub MediaTypes : Type 0
MediaTypes = String → Option (String × Dict String)

pub data CheckError : Type 0 where
  type_required type_invalid is_blocked not_allowed charset_not_allowed : CheckError
  file_too_large files_too_large too_many_files : CheckError
  rule_not_found value_required too_short over_length no_match value_not_allowed : CheckError
  user_agent_too_long referer_too_long header_too_long cookie_too_long : CheckError

abbrev pub Checked : Type 0
Checked = Option CheckError

-- `if err := a; err != nil { return err }; return b`
unfoldable pub or_check : Checked → Checked → Checked
or_check (some e) b = some e
or_check none b = b

-- The loops over a list of blocked values and, unless it is empty, over one of allowed values.
unfoldable pub is_allowed : List String → String → Bool
is_allowed [] v = true
is_allowed (a ∷ rest) v = is_one_of (a ∷ rest) v

unfoldable pub check_lists : List String → List String → String → Checked
unfolding is_allowed
check_lists blocked allowed v =
    if is_one_of blocked v
    then some is_blocked
    else if is_allowed allowed v
    then none
    else some not_allowed

-- `strings.ReplaceAll(s, "-", "")`
unfoldable pub without_hyphens : String → String
without_hyphens str_nil = str_nil
without_hyphens (str_cons c s) =
    let rest = without_hyphens s in
    if str_eq (str_cons c str_nil) "-" then rest else str_cons c rest

unfoldable pub normalized : Env → String → String
normalized env charset = env.to_lower (without_hyphens charset)

unfoldable pub validate_charset : Env → List String → String → Checked
validate_charset env [] charset = some charset_not_allowed
validate_charset env (allowed ∷ rest) charset =
    let others = validate_charset env rest charset in
    if str_eq (normalized env charset) (normalized env allowed) then none else others

charset_of : Env → InputLimitsConfig → Option String → Checked
charset_of env config none = none
charset_of env config (some charset) = validate_charset env config.allowed_charsets charset

parsed_type : Env → InputLimitsConfig → Option (String × Dict String) → Checked
unfolding charset_of
parsed_type env config none = some type_invalid
parsed_type env config (some (media_type, params)) =
    or_check (check_lists config.blocked_content_types config.allowed_content_types media_type)
      (if config.validate_charset then charset_of env config (lookup "charset" params) else none)

unfoldable pub validate_content_type : Env → MediaTypes → InputLimitsConfig → Request → Checked
unfolding parsed_type
validate_content_type env parse config r =
    let content_type = get_header env r.headers "Content-Type" in
    if config.require_content_type && str_eq content_type ""
    then some type_required
    else if str_eq content_type ""
    then none
    else parsed_type env config (parse content_type)

-- `filename[strings.LastIndex(filename, "."):]`, which panics if the name has no dot.
unfoldable pub extension_of : String → Option String
extension_of str_nil = none
extension_of (str_cons c s) = elim (extension_of s) [
  | some e ↦ some e
  | none ↦ if str_eq (str_cons c str_nil) "." then some (str_cons c s) else none
]

parsed_mime : InputLimitsConfig → Option (String × Dict String) → Checked
parsed_mime config none = some type_invalid
parsed_mime config (some (media_type, params)) =
    check_lists config.blocked_mime_types config.allowed_mime_types media_type

validate_mime : MediaTypes → InputLimitsConfig → String → Checked
unfolding parsed_mime
validate_mime parse config content_type =
    if str_eq content_type "" then none else parsed_mime config (parse content_type)

unfoldable pub validate_file_type :
    Env → MediaTypes → InputLimitsConfig → String → String → Done Checked
unfolding validate_mime
validate_file_type env parse config filename content_type = elim (extension_of filename) [
  | none ↦ panic
  | some e ↦ done (
      or_check
        (check_lists config.blocked_file_extensions config.allowed_file_extensions (env.to_lower e))
        (validate_mime parse config content_type))
]

unfoldable pub validate_file_size : InputLimitsConfig → ℕ → ℕ → ℕ → Checked
validate_file_size config file_size total_size file_count =
    if ltb config.max_file_size file_size
    then some file_too_large
    else if ltb config.max_total_file_size total_size
    then some files_too_large
    else if ltb config.max_file_count file_count
    then some too_many_files
    else none

-- `validatePattern`: whether there is no error.
unfoldable pub validate_pattern : String → String → Bool
validate_pattern value pattern =
    if str_eq pattern "" then true else if str_eq value "" then false else true

validate_rule : InputRule → String → Checked
unfolding is_allowed
validate_rule rule value =
    if rule.required && str_eq value ""
    then some value_required
    else if ltb (len value) rule.min_length
    then some too_short
    else if ltb rule.max_length (len value)
    then some over_length
    else if not (str_eq rule.pattern "") && not (validate_pattern value rule.pattern)
    then some no_match
    else if is_allowed rule.allowed_values value
    then none
    else some value_not_allowed

unfoldable pub validate_custom_rule : InputLimitsConfig → String → String → Checked
unfolding validate_rule
validate_custom_rule config value rule_name = elim (lookup rule_name config.custom_rules) [
  | none ↦ some rule_not_found
  | some rule ↦ validate_rule rule value
]

-- The loops over texts that must not be longer than a limit.
unfoldable pub none_longer : CheckError → ℕ → List String → Checked
none_longer e limit [] = none
none_longer e limit (v ∷ vs) =
    let rest = none_longer e limit vs in if ltb limit (len v) then some e else rest

unfoldable pub headers_fit : ℕ → List (String × List String) → Checked
headers_fit limit [] = none
headers_fit limit ((name, values) ∷ rest) =
    or_check (none_longer header_too_long limit values) (headers_fit limit rest)

unfoldable pub validate_http_headers : Env → InputLimitsConfig → Request → Checked
validate_http_headers env config r =
    if ltb config.max_user_agent_length (len (get_header env r.headers "User-Agent"))
    then some user_agent_too_long
    else if ltb config.max_referer_length (len (get_header env r.headers "Referer"))
    then some referer_too_long
    else or_check (headers_fit config.max_header_length r.headers)
        (none_longer cookie_too_long config.max_cookie_length r.cookies)

-- `InputLimitsMiddleware`: the status of the refusal, or `none` if the next handler is called.
unfoldable pub input_limits_middleware : Env → MediaTypes → InputLimitsConfig → Request → Option ℕ
input_limits_middleware env parse config r = elim (validate_content_type env parse config r) [
  | some e ↦ some 415
  | none ↦ elim (validate_http_headers env config r) [ some e ↦ some 400 | none ↦ none ]
]
