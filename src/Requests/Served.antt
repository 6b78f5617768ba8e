-- ===== src/Requests/Served.antt =====
-- `WithSizeLimit` of internal/validation/request_validation.go as a whole.
use frontend_router_mcp.Base.{
  ℕ, ◌≤◌, ◌<◌, ◌≡◌, refl, sym, ◌∙◌, ap, arith, true, [], Option, none, some, String, Option-cases,
  inl, inr,
}
use frontend_router_mcp.Requests.{
  RequestValidationConfig, Env, Request, Body, complete, broken, Outcome, or_else, get_header,
  validate_method, validate_path, validate_query, validate_headers, validate_host,
  validate_user_agent, validate_content_length, validate_content_type, validate_cookies,
  validate_http_request, parsed_length,
}
use frontend_router_mcp.Requests.Accepted.{IsAcceptable, accepted-IsAcceptable}
use frontend_router_mcp.Requests.Bodies.{
  drop_all, length-take_full, read_limited, validate_bytes, validate_json_body,
  validate_request_body, IsFine, validate_request_body_iff, served, http_error, with_size_limit,
  checked, answer_to,
}

-- What is left of a body that was read to its end.
abbrev pub drained : Option Body → Option Body
drained none = none
drained (some b) = some (complete [])

validate_request_body-drained :
    (config : RequestValidationConfig) (content_type : String) (body : Option Body)
    → (validate_request_body config content_type body).0 ≡ none
    → (validate_request_body config content_type body).1 ≡ drained body
unfolding validate_request_body validate_bytes read_limited
validate_request_body-drained config content_type none h = refl
validate_request_body-drained config content_type (some (broken bytes)) h =
    ground (arith, length-take_full config.max_body_size bytes)
validate_request_body-drained config content_type (some (complete bytes)) h =
    let fine = (validate_request_body_iff config content_type (some (complete bytes))).0 h in
    ap (λ left. some (complete left)) (drop_all config.max_body_size bytes (fine.0))

answer_to-served :
    (config : RequestValidationConfig) (content_type : String) (body b : Option Body)
    → answer_to (validate_request_body config content_type body) ≡ served b
    → IsFine config content_type body × (b ≡ drained body)
answer_to-served config content_type body b h =
    go (validate_request_body config content_type body).0 refl
  where
    left : Option Body
    left = (validate_request_body config content_type body).1

    go :
        (o : Outcome)
        → (validate_request_body config content_type body).0 ≡ o
        → IsFine config content_type body × (b ≡ drained body)
    go (some e) q = cc (
        let z : answer_to (validate_request_body config content_type body) ≡ http_error e.code =
          ap (λ p. answer_to (p, left)) q ∙ unfold answer_to in refl in
        z)
    go none q =
        let z : answer_to (validate_request_body config content_type body) ≡ served left =
          ap (λ p. answer_to (p, left)) q ∙ unfold answer_to in refl in
        (
          (validate_request_body_iff config content_type body).0 q,
          (let same : b ≡ left = cc in
              same ∙ validate_request_body-drained config content_type body q),
        )

-- A request reaches the handler only if it is acceptable and its body is fine, and then with an
-- empty body, if it has one at all: what the check has read is not put back.
pub with_size_limit-drained :
    (env : Env) (config : RequestValidationConfig) (r : Request) (b : Option Body)
    → with_size_limit env config r ≡ served b
    → IsAcceptable env config r
      × IsFine config (get_header env r.headers "Content-Type") r.body
      × (b ≡ drained r.body)
unfolding with_size_limit checked
with_size_limit-drained env config r b h = go (validate_http_request env config r) refl
  where
    content_type : String
    content_type = get_header env r.headers "Content-Type"

    go :
        (o : Outcome)
        → validate_http_request env config r ≡ o
        → IsAcceptable env config r × IsFine config content_type r.body × (b ≡ drained r.body)
    go (some e) q =
        cc (let z : with_size_limit env config r ≡ http_error e.code = rw (q, with_size_limit) in z)
    go none q =
        let z : with_size_limit env config r
            ≡ answer_to (validate_request_body config content_type r.body) =
          rw (q, with_size_limit) in
        let (fine, empty) = answer_to-served config content_type r.body b (sym z ∙ h) in
        (accepted-IsAcceptable env config r q, fine, empty)

-- An error that HTTP counts as the client's.
abbrev IsClientError : Outcome → Type 0
IsClientError none = Unit
IsClientError (some e) = (400 ≤ e.code) × (e.code < 500)

or_else-IsClientError :
    (a b : Outcome) → IsClientError a → IsClientError b → IsClientError (or_else a b)
unfolding or_else
or_else-IsClientError none b p q = q
or_else-IsClientError (some e) b p q = p

content_length-IsClientError :
    (env : Env) (config : RequestValidationConfig) (r : Request)
    → IsClientError (validate_content_length env config r)
unfolding validate_content_length parsed_length
content_length-IsClientError env config r = ground arith

path-IsClientError :
    (env : Env) (config : RequestValidationConfig) (p : String)
    → IsClientError (validate_path env config p)
unfolding validate_path
path-IsClientError env config p = ground arith

http_request-IsClientError :
    (env : Env) (config : RequestValidationConfig) (r : Request)
    → IsClientError (validate_http_request env config r)
unfolding validate_http_request validate_method validate_query validate_headers validate_host
    validate_user_agent validate_content_type validate_cookies
http_request-IsClientError env config r =
    let j = or_else-IsClientError in
    j _ _ (ground arith) (
      j _ _ (path-IsClientError env config r.path) (
        j _ _ (ground arith) (
          j _ _ (ground arith) (
            j _ _ (ground arith) (
              j _ _ (ground arith) (
                j _ _ (content_length-IsClientError env config r)
                  (j _ _ (ground arith) (ground arith))))))))

body-IsClientError :
    (config : RequestValidationConfig) (content_type : String) (body : Option Body)
    → IsClientError (validate_request_body config content_type body).0
unfolding validate_request_body validate_bytes validate_json_body
body-IsClientError config content_type none = tt
body-IsClientError config content_type (some b) = ground arith

-- Every request that does not reach the handler is answered with a status from 400 to 499.
pub with_size_limit_status :
    (env : Env) (config : RequestValidationConfig) (r : Request) (status : ℕ)
    → with_size_limit env config r ≡ http_error status
    → (400 ≤ status) × (status < 500)
unfolding with_size_limit checked answer_to
with_size_limit_status env config r status h = ground (
  arith,
  http_request-IsClientError env config r,
  body-IsClientError config (get_header env r.headers "Content-Type") r.body,
)

-- With `ValidateContentLength` set, a request that has a body, be it empty, and no Content-Length
-- header never reaches the handler, whatever its method.
pub missing_length_refused :
    (env : Env) (config : RequestValidationConfig) (r : Request) (b : Body)
    → config.validate_content_length ≡ true
    → r.body ≡ some b
    → get_header env r.headers "Content-Length" ≡ ""
    → (status : ℕ) × (with_size_limit env config r ≡ http_error status)
unfolding with_size_limit checked
missing_length_refused env config r b v has_body header =
    elim (Option-cases (validate_http_request env config r)) [
      | inl q ↦ absurd (ground (arith, (accepted-IsAcceptable env config r q).length_allowed v))
      | inr (e, q) ↦ (e.code, rw (q, with_size_limit))
    ]
