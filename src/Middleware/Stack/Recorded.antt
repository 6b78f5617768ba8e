-- ===== src/Middleware/Stack/Recorded.antt =====
-- What the monitoring server of cmd/server/main_monitoring.go records of a request, and what its client
-- gets.
use Prim.Native.String.{slice}
use frontend_router_mcp.Base.{
  ℕ, ◌≡◌, ◌≢◌, ◌⊎◌, inl, inr, refl, arith, Bool, true, false, List, [], ◌∷◌, ◌++◌, String, str_eq,
  pos, negsuc, Bool-cases, eq_iff, ◌∙◌, sym, leb, ltb, ◌==◌, not, ◌&&◌, if◌then◌else◌,
}
use frontend_router_mcp.Requests.{Env}
use frontend_router_mcp.Middleware.Stack.{
  Incoming, Call, set_header, write_header, write, Completion, Handler, status_after, size_of,
  get_endpoint_name, id_or, failure_calls, security_middleware, cors_middleware,
  request_id_middleware, tracing_middleware, logging_middleware, metrics_middleware,
  recovery_middleware, chain_middleware, monitoring_handler,
}

-- A mux: the calls of its handler, and whether that panics.
abbrev pub of_mux : (Incoming → List Call × Bool) → Handler
of_mux serve r = record {
  calls = (serve r).0;
  in_flight = [];
  recorded = [];
  entries = [];
  panics = (serve r).1;
}

-- The request as it comes to the mux.
abbrev pub identified : Env → Incoming → Incoming
identified env r = record r {
  request_id = id_or env r "X-Request-ID" r.new_request_id;
  trace_id = id_or env r "X-Trace-ID" r.new_trace_id;
  span_id = slice r.new_span_id 0 8;
}

-- A status of which net/http sends a head of its own, before the final one: 1xx, but 101.
unfoldable pub is_informational : ℕ → Bool
is_informational c = leb 100 c && ltb c 200 && not (c == 101)

-- The final status that net/http sends: the first that is written and is not informational, or 200 with
-- the first bytes or at the end.
unfoldable pub sent_status : List Call → ℕ
unfolding is_informational
sent_status [] = 200
sent_status (set_header name value ∷ cs) = sent_status cs
sent_status (write_header c ∷ cs) =
    let later = sent_status cs in if is_informational c then later else c
sent_status (write text ∷ cs) = 200

abbrev pub WritesNoStatus : List Call → Type 0
WritesNoStatus [] = Unit
WritesNoStatus (set_header name value ∷ cs) = WritesNoStatus cs
WritesNoStatus (write_header c ∷ cs) = ⊥
WritesNoStatus (write text ∷ cs) = WritesNoStatus cs

-- The status is written once at most, before the bytes, and is not informational.
abbrev pub IsOrderly : List Call → Type 0
IsOrderly [] = Unit
IsOrderly (set_header name value ∷ cs) = IsOrderly cs
IsOrderly (write_header c ∷ cs) = (is_informational c ≡ false) × WritesNoStatus cs
IsOrderly (write text ∷ cs) = WritesNoStatus cs

-- Only headers were set.
abbrev pub IsUntouched : List Call → Type 0
IsUntouched [] = Unit
IsUntouched (set_header name value ∷ cs) = IsUntouched cs
IsUntouched (write_header c ∷ cs) = ⊥
IsUntouched (write text ∷ cs) = ⊥

status_after-WritesNoStatus :
    (code : ℕ) (cs : List Call) → WritesNoStatus cs → status_after code cs ≡ code
unfolding status_after
status_after-WritesNoStatus code [] h = refl
status_after-WritesNoStatus code (set_header name value ∷ cs) h =
    status_after-WritesNoStatus code cs h
status_after-WritesNoStatus code (write_header c ∷ cs) h = absurd h
status_after-WritesNoStatus code (write text ∷ cs) h = status_after-WritesNoStatus code cs h

status_after-IsOrderly : (cs : List Call) → IsOrderly cs → status_after 200 cs ≡ sent_status cs
unfolding status_after sent_status
status_after-IsOrderly [] h = refl
status_after-IsOrderly (set_header name value ∷ cs) h = status_after-IsOrderly cs h
status_after-IsOrderly (write_header c ∷ cs) (final, h) =
    rw final (status_after-WritesNoStatus c cs h)
status_after-IsOrderly (write text ∷ cs) h = status_after-WritesNoStatus 200 cs h

status_after-failure :
    (code : ℕ) (cs : List Call) (id : String) → status_after code (cs ++ failure_calls id) ≡ 500
unfolding status_after
status_after-failure code [] id = refl
status_after-failure code (set_header name value ∷ cs) id = status_after-failure code cs id
status_after-failure code (write_header c ∷ cs) id = status_after-failure c cs id
status_after-failure code (write text ∷ cs) id = status_after-failure code cs id

sent_status-failure :
    (cs : List Call) (id : String) → IsUntouched cs → sent_status (cs ++ failure_calls id) ≡ 500
unfolding sent_status
sent_status-failure [] id h = refl
sent_status-failure (set_header name value ∷ cs) id h = sent_status-failure cs id h
sent_status-failure (write_header c ∷ cs) id h = absurd h
sent_status-failure (write text ∷ cs) id h = absurd h

-- A request that is no preflight comes to the mux with its ids, and is recorded once, whatever the mux
-- does: no panic gets out, the size is that of all bytes written, the gauge of requests in flight is set
-- to 1 and then to -1, and whenever the mux panics, 500 is recorded. If the handler writes its status
-- once at most, before its bytes and with no informational one, the status that is recorded is the one
-- that the client gets, if the handler does not panic, or if it has only set headers until then.
pub monitoring_handler-recorded :
    (env : Env) (serve : Incoming → List Call × Bool) (r : Incoming)
    → r.request.method ≢ "OPTIONS"
    → let (calls, panics) = serve (identified env r) in
      let run = monitoring_handler env (of_mux serve) r in
      (c : Completion) × (run.recorded ≡ c ∷ [])
      × (run.panics ≡ false)
      × (run.in_flight ≡ pos 1 ∷ negsuc 0 ∷ [])
      × (c.endpoint ≡ get_endpoint_name r.request.path)
      × (c.response_size ≡ size_of run.calls)
      × (panics ≡ true → c.status_code ≡ 500)
      × (IsOrderly calls
          → (panics ≡ false) ⊎ IsUntouched calls
          → c.status_code ≡ sent_status run.calls)
unfolding monitoring_handler chain_middleware security_middleware cors_middleware
    request_id_middleware tracing_middleware logging_middleware metrics_middleware
    recovery_middleware sent_status size_of
monitoring_handler-recorded env serve r method =
    let other : str_eq r.request.method "OPTIONS" ≡ false =
      ground (arith, eq_iff r.request.method "OPTIONS") in
    let calls = (serve (identified env r)).0 in
    elim (Bool-cases (serve (identified env r)).1) [
      | inl e ↦
          rw (other, e)
            (
              _,
              refl,
              refl,
              refl,
              refl,
              refl,
              λ h. status_after-failure 200 calls _,
              λ orderly h. elim h [
                | inl q ↦ cc
                | inr u ↦ status_after-failure 200 calls _ ∙ sym (sent_status-failure calls _ u)
              ],
            )
      | inr e ↦
          rw (other, e)
            (
              _,
              refl,
              refl,
              refl,
              refl,
              refl,
              λ h. cc,
              λ orderly h. status_after-IsOrderly calls orderly,
            )
    ]
