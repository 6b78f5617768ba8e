-- ===== src/Middleware/Stack.antt =====
-- The other middleware of internal/middleware/middleware.go, and its chain in
-- cmd/server/main_monitoring.go. What a handler does is the list of its calls of the response writer,
-- what it tells the metrics and the log, and whether it panics. Durations, addresses and the texts of
-- log entries are left out; what `uuid.New` gives is part of the request.
pub mod Recorded
use Prim.Native.String.{◌++◌ as str_append, len, slice}
use text.Mathlib.Text.{starts_with}
use frontend_router_mcp.Base.{
  ℕ, ◌+◌, ◌-◌, Bool, true, false, ◌&&◌, ◌||◌, if◌then◌else◌, ltb, List, [], ◌∷◌, ◌++◌, String,
  str_eq, ℤ, pos, negsuc,
}
use frontend_router_mcp.Requests.{Env, Request, get_header}

-- A request with its context, where "" stands for a missing value.
pub record Incoming : Type 0 where
  pub request : Request
  pub request_id : String
  pub trace_id : String
  pub span_id : String
  pub new_request_id : String
  pub new_trace_id : String
  pub new_span_id : String

pub data Call : Type 0 where
  set_header : String → String → Call
  write_header : ℕ → Call
  write : String → Call

-- `RecordHTTPRequest`
pub record Completion : Type 0 where
  pub method : String
  pub endpoint : String
  pub status_code : ℕ
  pub response_size : ℕ

pub data Entry : Type 0 where
  request_started panic_recovered : Entry
  request_completed : ℕ → Entry

-- The values that the gauge of requests in flight is set to are `in_flight`.
pub record Run : Type 0 where
  pub calls : List Call
  pub in_flight : List ℤ
  pub recorded : List Completion
  pub entries : List Entry
  pub panics : Bool

abbrev pub Handler : Type 0
Handler = Incoming → Run

abbrev pub after_calls : List Call → Run → Run
after_calls cs run = record run { calls = cs ++ run.calls }

-- The `responseWriter`: the code that was written last, and the bytes.
unfoldable pub status_after : ℕ → List Call → ℕ
status_after code [] = code
status_after code (set_header name value ∷ cs) = status_after code cs
status_after code (write_header c ∷ cs) = status_after c cs
status_after code (write text ∷ cs) = status_after code cs

unfoldable pub size_of : List Call → ℕ
size_of [] = 0
size_of (set_header name value ∷ cs) = size_of cs
size_of (write_header c ∷ cs) = size_of cs
size_of (write text ∷ cs) = len text + size_of cs

-- `getEndpointName`
without_slash : String → String
without_slash path =
    if ltb 1 (len path) && str_eq (slice path (len path - 1) (len path)) "/"
    then slice path 0 (len path - 1)
    else path

common_name : String → String
common_name path =
    if starts_with path "/health"
    then "/health"
    else if starts_with path "/ready"
    then "/ready"
    else if starts_with path "/live"
    then "/live"
    else if starts_with path "/metrics"
    then "/metrics"
    else if starts_with path "/ws"
    then "/ws"
    else path

unfoldable pub get_endpoint_name : String → String
unfolding without_slash common_name
get_endpoint_name path = common_name (without_slash path)

abbrev pub security_calls : List Call
security_calls =
    set_header "X-Content-Type-Options" "nosniff"
    ∷ set_header "X-Frame-Options" "DENY"
    ∷ set_header "X-XSS-Protection" "1; mode=block"
    ∷ set_header "Strict-Transport-Security" "max-age=31536000; includeSubDomains"
    ∷ []

unfoldable pub security_middleware : Handler → Handler
security_middleware next r = after_calls security_calls (next r)

abbrev pub cors_calls : List Call
cors_calls =
    set_header "Access-Control-Allow-Origin" "*"
    ∷ set_header "Access-Control-Allow-Methods" "GET, POST, PUT, DELETE, OPTIONS"
    ∷ set_header "Access-Control-Allow-Headers"
        "Content-Type, Authorization, X-Request-ID, X-Trace-ID"
    ∷ set_header "Access-Control-Expose-Headers" "X-Request-ID, X-Trace-ID"
    ∷ []

abbrev preflight : Run
preflight = record {
  calls = write_header 200 ∷ [];
  in_flight = [];
  recorded = [];
  entries = [];
  panics = false;
}

unfoldable pub cors_middleware : Handler → Handler
cors_middleware next r =
    after_calls cors_calls (if str_eq r.request.method "OPTIONS" then preflight else next r)

-- A header of the request, or else a new id.
abbrev pub id_or : Env → Incoming → String → String → String
id_or env r name new =
    let id = get_header env r.request.headers name in if str_eq id "" then new else id

unfoldable pub request_id_middleware : Env → Handler → Handler
request_id_middleware env next r =
    let id = id_or env r "X-Request-ID" r.new_request_id in
    after_calls (set_header "X-Request-ID" id ∷ []) (next (record r { request_id = id }))

unfoldable pub tracing_middleware : Env → Handler → Handler
tracing_middleware env next r =
    let trace_id = id_or env r "X-Trace-ID" r.new_trace_id in
    let span_id = slice r.new_span_id 0 8 in
    after_calls (set_header "X-Trace-ID" trace_id ∷ set_header "X-Span-ID" span_id ∷ [])
      (next (record r { trace_id = trace_id; span_id = span_id }))

unfoldable pub logging_middleware : Handler → Handler
logging_middleware next r =
    let run = next r in
    let completed =
      if run.panics then [] else request_completed (status_after 200 run.calls) ∷ [] in
    record run { entries = request_started ∷ run.entries ++ completed }

-- The gauge is set, not added to, also by the deferred call.
unfoldable pub metrics_middleware : Handler → Handler
metrics_middleware next r =
    let run = next r in
    let completion : Completion = record {
      method = r.request.method;
      endpoint = get_endpoint_name r.request.path;
      status_code = status_after 200 run.calls;
      response_size = size_of run.calls;
    } in
    record run {
      in_flight = pos 1 ∷ run.in_flight ++ negsuc 0 ∷ [];
      recorded = if run.panics then run.recorded else run.recorded ++ completion ∷ [];
    }

abbrev pub failure_calls : String → List Call
failure_calls request_id =
    set_header "Content-Type" "application/json"
    ∷ write_header 500
    ∷ write (
        str_append "{\"error\": \"internal server error\", \"request_id\": \""
          (str_append request_id "\"}"))
    ∷ []

unfoldable pub recovery_middleware : Handler → Handler
recovery_middleware next r =
    let run = next r in
    if run.panics
    then record run {
      calls = run.calls ++ failure_calls r.request_id;
      entries = run.entries ++ panic_recovered ∷ [];
      panics = false;
    }
    else run

unfoldable pub health_check_middleware : Handler → Handler
health_check_middleware next r =
    if starts_with r.request.path "/health"
      || starts_with r.request.path "/ready"
      || starts_with r.request.path "/live"
      || starts_with r.request.path "/metrics"
    then next r
    else next r

-- The loop of `ChainMiddleware`, from the last middleware to the first.
unfoldable pub chain_middleware : List (Handler → Handler) → Handler → Handler
chain_middleware [] next = next
chain_middleware (m ∷ ms) next = m (chain_middleware ms next)

-- The handler of the monitoring server, around its mux.
unfoldable pub monitoring_handler : Env → Handler → Handler
unfolding chain_middleware
monitoring_handler env mux =
    chain_middleware
      (security_middleware
        ∷ cors_middleware
        ∷ request_id_middleware env
        ∷ tracing_middleware env
        ∷ logging_middleware
        ∷ metrics_middleware
        ∷ recovery_middleware
        ∷ [])
      mux
