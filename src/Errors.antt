-- ===== src/Errors.antt =====
-- internal/errors/errors.go: application errors with a type, a cause, a context and a request id.
-- The file and line that `runtime.Caller` records are left out. A context value is a text or the bits
-- of a float64.
pub mod Laws
pub mod Recovery
use Prim.Native.String.{◌++◌}
use frontend_router_mcp.Base.{
  ℕ, String, Bool, true, false, Option, none, some, Dict, insert, [], dec_bool,
}

pub data ErrorType : Type 0 where
  validation network timeout internal not_found unauthorized conflict : ErrorType

pub ErrorType-discrete : Discrete ErrorType
ErrorType-discrete = hlevel

pub data Value : Type 0 where
  text : String → Value
  float : ℕ → Value

-- An `error` value. `nil` is Go's nil; `plain` is an error of a library; `wrapf` is `fmt.Errorf`
-- with `%w`, which `errors.As` looks through; `app` is an `*AppError` with its type, message, cause,
-- context and request id.
pub data Error : Type 0 where
  nil : Error
  plain : String → Error
  wrapf : String → Error → Error
  app : ErrorType → String → Error → Dict Value → String → Error

pub record AppError : Type 0 where
  pub type : ErrorType
  pub message : String
  pub cause : Error
  pub context : Dict Value
  pub request_id : String

abbrev pub is_nil : Error → Bool
is_nil nil = true
is_nil (plain _) = false
is_nil (wrapf _ _) = false
is_nil (app _ _ _ _ _) = false

-- `(*AppError).Error`, and the text of the other errors.
unfoldable pub error_text : Error → String
error_text nil = ""
error_text (plain s) = s
error_text (wrapf s e) = s ++ (": " ++ error_text e)
error_text (app t s nil c r) = s
error_text (app t s (plain p) c r) = s ++ (": " ++ p)
error_text (app t s (wrapf p e) c r) = s ++ (": " ++ error_text (wrapf p e))
error_text (app t s (app u p e d q) c r) = s ++ (": " ++ error_text (app u p e d q))

-- `(*AppError).Unwrap`, and that of `fmt.Errorf`.
unfoldable pub unwrap : Error → Error
unwrap nil = nil
unwrap (plain s) = nil
unwrap (wrapf s e) = e
unwrap (app t s e c r) = e

unfoldable pub new : ErrorType → String → Error
new t message = app t message nil [] ""

unfoldable pub wrap : Error → ErrorType → String → Error
wrap cause t message = app t message cause [] ""

-- The two setters of `*AppError`; on another error there is no such method.
unfoldable pub with_context : String → Value → Error → Error
with_context key value (app t s e c r) = app t s e (insert key value c) r
with_context key value nil = nil
with_context key value (plain s) = plain s
with_context key value (wrapf s e) = wrapf s e

unfoldable pub with_request_id : String → Error → Error
with_request_id id (app t s e c r) = app t s e c id
with_request_id id nil = nil
with_request_id id (plain s) = plain s
with_request_id id (wrapf s e) = wrapf s e

-- `errors.As` with an `*AppError` target: the first one along the chain of `Unwrap`.
unfoldable pub as_app : Error → Option AppError
as_app nil = none
as_app (plain s) = none
as_app (wrapf s e) = as_app e
as_app (app t s e c r) =
    some (record { type = t; message = s; cause = e; context = c; request_id = r })

unfoldable pub is_type : Error → ErrorType → Bool
is_type e t = elim (as_app e) [ some a ↦ dec_bool (ErrorType-discrete a.type t) | none ↦ false ]

unfoldable pub get_type : Error → ErrorType
get_type e = elim (as_app e) [ some a ↦ a.type | none ↦ internal ]

-- A nil map is empty.
unfoldable pub get_context : Error → Dict Value
get_context e = elim (as_app e) [ some a ↦ a.context | none ↦ [] ]

unfoldable pub get_request_id : Error → String
get_request_id e = elim (as_app e) [ some a ↦ a.request_id | none ↦ "" ]

unfoldable pub new_validation_error : String → Error
unfolding new
new_validation_error message = new validation message

unfoldable pub new_timeout_error : String → Error
unfolding new
new_timeout_error message = new timeout message

unfoldable pub new_internal_error : String → Error
unfolding new
new_internal_error message = new internal message

unfoldable pub new_not_found_error : String → Error
unfolding new
new_not_found_error message = new not_found message

unfoldable pub new_network_error : String → Error
unfolding new
new_network_error message = new network message
