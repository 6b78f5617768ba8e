-- ===== src/InputLimits.antt =====
-- internal/validation/input_limits.go: `ValidateStringLength` and `ValidateInputLimits`, where a Go
-- string is the list of its bytes. Files has the checks of types, files, headers and custom rules.
pub mod Truncate
pub mod Files
use frontend_router_mcp.Base.{
  ℕ, ◌≤◌, ◌≡◌, ◌↔◌, ◌⊎◌, arith, Bool, true, false, if◌then◌else◌, List, Option, none, some, String,
  ltb, length, Dict,
}

pub record InputRule : Type 0 where
  pub min_length : ℕ
  pub max_length : ℕ
  pub pattern : String
  pub allowed_values : List String
  pub required : Bool

-- The fields of the configuration that the modelled functions read.
pub record InputLimitsConfig : Type 0 where
  pub max_string_length : ℕ
  pub max_text_length : ℕ
  pub max_question_length : ℕ
  pub max_answer_length : ℕ
  pub max_client_id_length : ℕ
  pub max_request_id_length : ℕ
  pub max_reason_length : ℕ
  pub max_version_length : ℕ
  pub max_header_length : ℕ
  pub max_cookie_length : ℕ
  pub max_user_agent_length : ℕ
  pub max_referer_length : ℕ
  pub allowed_content_types : List String
  pub allowed_mime_types : List String
  pub blocked_content_types : List String
  pub blocked_mime_types : List String
  pub require_content_type : Bool
  pub validate_charset : Bool
  pub allowed_charsets : List String
  pub max_file_size : ℕ
  pub max_total_file_size : ℕ
  pub max_file_count : ℕ
  pub allowed_file_extensions : List String
  pub blocked_file_extensions : List String
  pub custom_rules : Dict InputRule
  pub strict_mode : Bool
  pub truncate_on_limit : Bool

-- The `fmt.Errorf` calls, by their arguments.
pub data LimitError : Type 0 where
  too_long : String → ℕ → ℕ → LimitError
  truncated : String → ℕ → LimitError
  payload_exceeds : ℕ → LimitError

-- The types that the switch names, with the fields it reads; the other types are `other`.
pub data Input : Type 0 where
  user_question : List ℕ → List ℕ → Input
  user_response : List ℕ → List ℕ → Input
  ask_user_params : List ℕ → Input
  connect_message : List ℕ → List ℕ → Input
  disconnect_message : List ℕ → List ℕ → Input
  web_socket_message : List ℕ → List ℕ → List ℕ → Input
  other : Input

unfoldable pub validate_string_length : InputLimitsConfig → String → List ℕ → ℕ → Option LimitError
validate_string_length config field value max_length =
    if ltb max_length (length value)
    then (if config.strict_mode
        then some (too_long field max_length (length value))
        else if config.truncate_on_limit
        then some (truncated field max_length)
        else none)
    else none

-- `if err := ...; err != nil { return err }` before the rest of a case.
unfoldable pub or_then : Option LimitError → Option LimitError → Option LimitError
or_then (some err) rest = some err
or_then none rest = rest

validate_payload : InputLimitsConfig → List ℕ → Option LimitError
validate_payload config payload =
    if ltb config.max_text_length (length payload)
    then some (payload_exceeds config.max_text_length)
    else none

unfoldable pub validate_input_limits : InputLimitsConfig → Input → Option LimitError
unfolding validate_payload
validate_input_limits config (user_question question request_id) =
    or_then (validate_string_length config "question" question config.max_question_length)
      (validate_string_length config "request_id" request_id config.max_request_id_length)
validate_input_limits config (user_response answer request_id) =
    or_then (validate_string_length config "answer" answer config.max_answer_length)
      (validate_string_length config "request_id" request_id config.max_request_id_length)
validate_input_limits config (ask_user_params question) =
    validate_string_length config "question" question config.max_question_length
validate_input_limits config (connect_message client_id version) =
    or_then (validate_string_length config "client_id" client_id config.max_client_id_length)
      (validate_string_length config "version" version config.max_version_length)
validate_input_limits config (disconnect_message client_id reason) =
    or_then (validate_string_length config "client_id" client_id config.max_client_id_length)
      (validate_string_length config "reason" reason config.max_reason_length)
validate_input_limits config (web_socket_message type client_id payload) =
    or_then (validate_string_length config "type" type config.max_string_length) (
      or_then (validate_string_length config "client_id" client_id config.max_client_id_length)
        (validate_payload config payload))
validate_input_limits config other = none

-- Neither flag is set.
abbrev pub IsLax : InputLimitsConfig → Type 0
IsLax config = (config.strict_mode ≡ false) × (config.truncate_on_limit ≡ false)

abbrev pub Fits : InputLimitsConfig → ℕ → List ℕ → Type 0
Fits config limit value = IsLax config ⊎ (length value ≤ limit)

-- The limit of each field, as a table.
abbrev pub IsWithin : InputLimitsConfig → Input → Type 0
IsWithin config (user_question question request_id) =
    Fits config config.max_question_length question
    × Fits config config.max_request_id_length request_id
IsWithin config (user_response answer request_id) =
    Fits config config.max_answer_length answer
    × Fits config config.max_request_id_length request_id
IsWithin config (ask_user_params question) = Fits config config.max_question_length question
IsWithin config (connect_message client_id version) =
    Fits config config.max_client_id_length client_id
    × Fits config config.max_version_length version
IsWithin config (disconnect_message client_id reason) =
    Fits config config.max_client_id_length client_id × Fits config config.max_reason_length reason
IsWithin config (web_socket_message type client_id payload) =
    Fits config config.max_string_length type
    × (Fits config config.max_client_id_length client_id
        × (length payload ≤ config.max_text_length))
IsWithin config other = Unit

validate_string_length_iff :
    (config : InputLimitsConfig) (field : String) (value : List ℕ) (limit : ℕ)
    → (validate_string_length config field value limit ≡ none) ↔ Fits config limit value
unfolding validate_string_length
validate_string_length_iff config field value limit = ground arith

validate_payload_iff :
    (config : InputLimitsConfig) (payload : List ℕ)
    → (validate_payload config payload ≡ none) ↔ (length payload ≤ config.max_text_length)
unfolding validate_payload
validate_payload_iff config payload = ground arith

or_then_iff :
    {P Q : Type 0} (first rest : Option LimitError)
    → ((first ≡ none) ↔ P)
    → ((rest ≡ none) ↔ Q)
    → (or_then first rest ≡ none) ↔ (P × Q)
unfolding or_then
or_then_iff (some err) rest p q = ground arith
or_then_iff none rest p q = ground arith

-- An input is accepted exactly if each of its fields is within the limit of that field. The limits of
-- the string fields hold only where `StrictMode` or `TruncateOnLimit` is set, the limit of a payload
-- in any case; an input of another type is always accepted.
validate_input_limits_iff :
    (config : InputLimitsConfig) (input : Input)
    → (validate_input_limits config input ≡ none) ↔ IsWithin config input
unfolding validate_input_limits
validate_input_limits_iff config (user_question question request_id) =
    or_then_iff _ _ (validate_string_length_iff config _ question _)
      (validate_string_length_iff config _ request_id _)
validate_input_limits_iff config (user_response answer request_id) =
    or_then_iff _ _ (validate_string_length_iff config _ answer _)
      (validate_string_length_iff config _ request_id _)
validate_input_limits_iff config (ask_user_params question) =
    validate_string_length_iff config _ question _
validate_input_limits_iff config (connect_message client_id version) =
    or_then_iff _ _ (validate_string_length_iff config _ client_id _)
      (validate_string_length_iff config _ version _)
validate_input_limits_iff config (disconnect_message client_id reason) =
    or_then_iff _ _ (validate_string_length_iff config _ client_id _)
      (validate_string_length_iff config _ reason _)
validate_input_limits_iff config (web_socket_message type client_id payload) =
    or_then_iff _ _ (validate_string_length_iff config _ type _) (
      or_then_iff _ _ (validate_string_length_iff config _ client_id _)
        (validate_payload_iff config payload))
validate_input_limits_iff config other = ground arith
