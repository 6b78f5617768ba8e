-- ===== src/Requests/Bodies.antt =====
-- `ValidateRequestBody`, `validateJSONBody` and `WithSizeLimit` of
-- internal/validation/request_validation.go. A body is read up to a limit; what is read is gone.
use frontend_router_mcp.Base.{
  ℕ, zero, suc, ◌≤◌, ◌<◌, ◌≡◌, ◌↔◌, refl, ap, arith, true, if◌then◌else◌, List, [], ◌∷◌, Option,
  none, some, String, ltb, leb, length,
}
use frontend_router_mcp.JsonStructure.{is_valid_json_structure}
use frontend_router_mcp.Requests.{
  RequestValidationConfig, Env, Request, Body, complete, broken, Outcome, refuse, contains,
  get_header, validate_http_request,
}

abbrev pub take : ℕ → List ℕ → List ℕ
take zero bs = []
take (suc n) [] = []
take (suc n) (b ∷ bs) = b ∷ take n bs

abbrev pub drop : ℕ → List ℕ → List ℕ
drop zero bs = bs
drop (suc n) [] = []
drop (suc n) (b ∷ bs) = drop n bs

-- `io.ReadAll(io.LimitReader(r.Body, limit))`: the bytes, or `none` for an error, and what is left.
unfoldable pub read_limited : ℕ → Body → Option (List ℕ) × Body
read_limited limit (complete bytes) = (some (take limit bytes), complete (drop limit bytes))
read_limited limit (broken bytes) =
    if leb limit (length bytes)
    then (some (take limit bytes), broken (drop limit bytes))
    else (none, broken [])

unfoldable pub validate_json_body : RequestValidationConfig → List ℕ → Outcome
validate_json_body config body =
    if ltb config.max_json_size (length body)
    then refuse 413 "body" ""
    else if ltb 0 (length body)
    then (if is_valid_json_structure body then none else refuse 400 "body" "")
    else none

unfoldable pub validate_bytes : RequestValidationConfig → String → Option (List ℕ) → Outcome
validate_bytes config content_type none = refuse 400 "" ""
validate_bytes config content_type (some body) =
    if leb config.max_body_size (length body)
    then refuse 413 "" ""
    else if contains content_type "application/json"
    then validate_json_body config body
    else none

-- The result, and what the request still has as its body.
unfoldable pub validate_request_body :
    RequestValidationConfig → String → Option Body → Outcome × Option Body
validate_request_body config content_type none = (none, none)
validate_request_body config content_type (some body) =
    let (bytes, left) = read_limited config.max_body_size body in
    (validate_bytes config content_type bytes, some left)

-- `WithSizeLimit`: an HTTP error, or the handler is called with the body that is left.
pub data Served : Type 0 where
  http_error : ℕ → Served
  served : Option Body → Served

unfoldable pub answer_to : Outcome × Option Body → Served
answer_to (some e, left) = http_error e.code
answer_to (none, left) = served left

unfoldable pub checked : RequestValidationConfig → String → Option Body → Outcome → Served
unfolding answer_to
checked config content_type body (some e) = http_error e.code
checked config content_type body none = answer_to (validate_request_body config content_type body)

unfoldable pub with_size_limit : Env → RequestValidationConfig → Request → Served
unfolding checked
with_size_limit env config r =
    checked config (get_header env r.headers "Content-Type") r.body
      (validate_http_request env config r)

pub length-take_all : (n : ℕ) (bs : List ℕ) → length bs < n → take n bs ≡ bs
length-take_all zero bs h = absurd (omega arith)
length-take_all (suc n) [] h = refl
length-take_all (suc n) (b ∷ bs) h = ap (λ rest. b ∷ rest) (length-take_all n bs (omega arith))

pub length-take_full : (n : ℕ) (bs : List ℕ) → n ≤ length bs → length (take n bs) ≡ n
length-take_full zero bs h = refl
length-take_full (suc n) [] h = absurd (omega arith)
length-take_full (suc n) (b ∷ bs) h = omega (arith, length-take_full n bs (omega arith))

pub drop_all : (n : ℕ) (bs : List ℕ) → length bs < n → drop n bs ≡ []
drop_all zero bs h = absurd (omega arith)
drop_all (suc n) [] h = refl
drop_all (suc n) (b ∷ bs) h = drop_all n bs (omega arith)

-- What the body check accepts: nothing, or all the bytes of a body that is complete.
abbrev pub IsFine : RequestValidationConfig → String → Option Body → Type 0
IsFine config content_type none = Unit
IsFine config content_type (some (broken bytes)) = ⊥
IsFine config content_type (some (complete bytes)) =
    (length bytes < config.max_body_size)
    × (contains content_type "application/json" ≡ true
        → (length bytes ≤ config.max_json_size)
          × ((1 ≤ length bytes) → is_valid_json_structure bytes ≡ true))

-- The body of a request is accepted exactly if there is none, or if it is complete, strictly shorter
-- than `MaxBodySize`, and, where the content type names application/json, at most `MaxJSONSize` long
-- and of a valid structure unless it is empty.
pub validate_request_body_iff :
    (config : RequestValidationConfig) (content_type : String) (body : Option Body)
    → ((validate_request_body config content_type body).0 ≡ none) ↔ IsFine config content_type body
unfolding validate_request_body validate_bytes validate_json_body read_limited
validate_request_body_iff config content_type none = ground arith
validate_request_body_iff config content_type (some (broken bytes)) =
    ground (arith, length-take_full config.max_body_size bytes)
validate_request_body_iff config content_type (some (complete bytes)) =
    ground (
      arith,
      length-take_full config.max_body_size bytes,
      length-take_all config.max_body_size bytes,
    )
