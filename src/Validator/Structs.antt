-- ===== src/Validator/Structs.antt =====
-- `ValidateStruct` of internal/validation/validator.go, and `ValidateAndSanitize` and `SanitizeStruct` of
-- internal/validation/structs.go. What the tags of go-playground/validator find is an argument. Of the
-- structures, the fields that the sanitizer changes are kept, and the rest is `rest`.
pub mod Sanitized
use Prim.Native.String.{◌++◌ as str_append}
use frontend_router_mcp.Base.{
  ℕ, Bool, true, false, ◌&&◌, ◌==◌, if◌then◌else◌, List, [], ◌∷◌, map, Option, none, some, String,
  str_eq,
}
use frontend_router_mcp.Sanitizer.{Tables}
use frontend_router_mcp.Validator.{
  ValidationError, sanitize_question, sanitize_answer, sanitize_string,
}

-- The types that the switches name, with their texts; the other types are `other`.
pub data Data (Rest : Type 0) : Type 0 where
  user_question : List ℕ → Rest → Data Rest
  user_response : List ℕ → Rest → Data Rest
  ask_user_params : List ℕ → Rest → Data Rest
  disconnect_message : List ℕ → Rest → Data Rest
  other : Rest → Data Rest

-- `validator.FieldError`, with its value as `%v` prints it.
pub record FieldError : Type 0 where
  pub field : String
  pub tag : String
  pub param : String
  pub value : String

-- What `validator.Struct` returns.
pub data Found : Type 0 where
  fine : Found
  field_errors : List FieldError → Found
  failure : String → Found

with_name : String → String → String
with_name field text = str_append field text

unfoldable pub get_error_message : FieldError → String
unfolding with_name
get_error_message e =
    if str_eq e.tag "required"
    then with_name e.field " is required"
    else if str_eq e.tag "max"
    then with_name e.field (str_append " cannot exceed " (str_append e.param " characters"))
    else if str_eq e.tag "min"
    then with_name e.field (str_append " must be at least " (str_append e.param " characters"))
    else if str_eq e.tag "safe_string"
    then with_name e.field " contains potentially dangerous content"
    else if str_eq e.tag "no_html"
    then with_name e.field " cannot contain HTML tags"
    else if str_eq e.tag "safe_client_id"
    then with_name e.field " contains invalid characters or is too long"
    else if str_eq e.tag "safe_message_type"
    then with_name e.field " is not an allowed message type"
    else if str_eq e.tag "safe_question"
    then with_name e.field " contains invalid content or is too long"
    else if str_eq e.tag "safe_answer"
    then with_name e.field " contains invalid content or is too long"
    else if str_eq e.tag "no_script"
    then with_name e.field " cannot contain script tags or executable content"
    else if str_eq e.tag "no_sql_injection"
    then with_name e.field " contains potentially malicious SQL patterns"
    else with_name e.field " is invalid"

abbrev error_of : FieldError → ValidationError
error_of e = record { field = e.field; tag = e.tag; message = get_error_message e; value = e.value }

-- `ValidateStruct`: `none` is nil.
unfoldable pub validate_struct : Found → Option (List ValidationError)
validate_struct fine = none
validate_struct (field_errors es) = some (map error_of es)
validate_struct (failure text) =
    some (record { field = "unknown"; tag = "validation"; message = text; value = "" } ∷ [])

pub record ValidationResult : Type 0 where
  pub valid : Bool
  pub errors : List String
  pub warnings : List String
  pub sanitized : Bool

unfoldable pub same_bytes : List ℕ → List ℕ → Bool
same_bytes [] [] = true
same_bytes [] (c ∷ t) = false
same_bytes (b ∷ s) [] = false
same_bytes (b ∷ s) (c ∷ t) = let rest = same_bytes s t in b == c && rest

abbrev accepted : ValidationResult
accepted = record { valid = true; errors = []; warnings = []; sanitized = false }

-- `if original != v.Question { … }`
warned : List ℕ → List ℕ → String → ValidationResult
warned original text warning =
    if same_bytes original text
    then accepted
    else record accepted { sanitized = true; warnings = warning ∷ [] }

module _ {Rest : Type 0} (tables : Tables) where
  sanitized_data : Data Rest → ValidationResult × Data Rest
  unfolding warned
  sanitized_data (user_question q rest) =
      let text = sanitize_question tables q in
      (warned q text "Question content was sanitized", user_question text rest)
  sanitized_data (user_response a rest) =
      let text = sanitize_answer tables a in
      (warned a text "Answer content was sanitized", user_response text rest)
  sanitized_data (ask_user_params q rest) =
      let text = sanitize_question tables q in
      (warned q text "Question content was sanitized", ask_user_params text rest)
  sanitized_data (disconnect_message reason rest) = (accepted, disconnect_message reason rest)
  sanitized_data (other rest) = (accepted, other rest)

  -- The result, and the data after it.
  unfoldable pub validate_and_sanitize : Found → Data Rest → ValidationResult × Data Rest
  unfolding sanitized_data
  validate_and_sanitize found data' = elim (validate_struct found) [
    | some es ↦ (
      record { valid = false; errors = map (λ e. e.message) es; warnings = []; sanitized = false },
      data',
    )
    | none ↦ sanitized_data data'
  ]

  unfoldable pub sanitize_struct : Data Rest → Data Rest
  sanitize_struct (user_question q rest) = user_question (sanitize_question tables q) rest
  sanitize_struct (user_response a rest) = user_response (sanitize_answer tables a) rest
  sanitize_struct (ask_user_params q rest) = ask_user_params (sanitize_question tables q) rest
  sanitize_struct (disconnect_message [] rest) = disconnect_message [] rest
  sanitize_struct (disconnect_message (b ∷ reason) rest) =
      disconnect_message (sanitize_string tables (b ∷ reason)) rest
  sanitize_struct (other rest) = other rest
