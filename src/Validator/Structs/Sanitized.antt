-- ===== src/Validator/Structs/Sanitized.antt =====
-- What `ValidateAndSanitize` of internal/validation/structs.go reports, and what it makes of the data.
use frontend_router_mcp.Base.{ℕ, ◌≤◌, ◌≡◌, ◌≢◌, ◌↔◌, true, length, List, []}
use frontend_router_mcp.Validator.{max_question_len, max_answer_len}
use frontend_router_mcp.Validator.Structs.{
  Data, user_question, user_response, ask_user_params, disconnect_message, other, ValidationResult,
}

abbrev pub IsBounded : {Rest : Type 0} → Data Rest → Type 0
IsBounded (user_question q rest) = length q ≤ max_question_len
IsBounded (user_response a rest) = length a ≤ max_answer_len
IsBounded (ask_user_params q rest) = length q ≤ max_question_len
IsBounded (disconnect_message reason rest) = Unit
IsBounded (other rest) = Unit

abbrev text_of : {Rest : Type 0} → Data Rest → List ℕ
text_of (user_question q rest) = q
text_of (user_response a rest) = a
text_of (ask_user_params q rest) = q
text_of (disconnect_message reason rest) = reason
text_of (other rest) = []

abbrev Reports : {Rest : Type 0} → Data Rest → ValidationResult × Data Rest → Type 0
Reports before (result, after) =
    (result.valid ≡ true) × ((result.sanitized ≡ true) ↔ (before ≢ after)) × IsBounded after
