-- ===== src/Errors/Recovery.antt =====
-- `Recovery` and `SafeGoroutine` of internal/errors/errors.go. The value of a panic is the text that it
-- is printed as.
use Prim.Native.String.{◌++◌ as str_append}
use frontend_router_mcp.Base.{
  ◌≡◌, refl, String, if◌then◌else◌, List, [], ◌∷◌, ◌++◌, Option, none, some, insert,
}
use frontend_router_mcp.Errors.{
  Error, nil, app, internal, text, is_nil, get_type, get_request_id, as_app,
}

-- Who calls a function: the run of the deferred calls, or a function that it has called.
pub data Caller : Type 0 where
  deferred_call function : Caller

-- The language's `recover`, called by a function with this caller: what it returns, and the panic that
-- goes on. It stops a panic only in the deferred function itself.
unfoldable pub recover : Caller → Option String → Option String × Option String
recover deferred_call panicking = (panicking, none)
recover function panicking = (none, panicking)

id_of : Option String → String
id_of (some request_id) = request_id
id_of none = ""

panic_error : Option String → String → Error
unfolding id_of
panic_error ctx r =
    app internal (str_append "panic recovered: " r) nil (insert "panic" (text r) []) (id_of ctx)

recovered : Option String → Option String × Option String → Error × Option String
unfolding panic_error
recovered ctx (some r, rest) = (panic_error ctx r, rest)
recovered ctx (none, rest) = (nil, rest)

-- The function that `Recovery` returns, where `ctx` is the request id of the context.
unfoldable pub recovery : Option String → Caller → Option String → Error × Option String
unfolding recovered
recovery ctx caller panicking = recovered ctx (recover caller panicking)

pub data Ran : Type 0 where
  returned : Error → Ran
  panicked : String → Ran

-- What `onError` is called with, and the panic that ends the process, if one does.
pub record Ended : Type 0 where
  pub reported : List Error
  pub crash : Option String

-- The deferred function: it calls what `Recovery` returns.
deferred : Option String → List Error → Option String → Ended
deferred ctx so_far panicking =
    let (err, rest) = recovery ctx function panicking in
    record { reported = if is_nil err then so_far else so_far ++ err ∷ []; crash = rest }

unfoldable pub safe_goroutine : Option String → Ran → Ended
unfolding deferred
safe_goroutine ctx (returned err) = deferred ctx (if is_nil err then [] else err ∷ []) none
safe_goroutine ctx (panicked r) = deferred ctx [] (some r)

-- `SafeGoroutine` does not recover: `onError` gets the error that the function returns, if it is not
-- nil, and nothing else; a panic of the function goes on and ends the process, and `onError` is not
-- told of it. The function that `Recovery` returns would have stopped it, with an error of type internal
-- that carries the request id, only if it had been deferred itself.
pub safe_goroutine_lem :
    (ctx : Option String) (err : Error) (r id : String)
    → (safe_goroutine ctx (returned err)
        ≡ record { reported = if is_nil err then [] else err ∷ []; crash = none })
      × (safe_goroutine ctx (panicked r) ≡ record { reported = []; crash = some r })
      × ((recovery (some id) deferred_call (some r)).1 ≡ none)
      × (get_type (recovery (some id) deferred_call (some r)).0 ≡ internal)
      × (get_request_id (recovery (some id) deferred_call (some r)).0 ≡ id)
unfolding safe_goroutine recovery recover get_type get_request_id as_app
safe_goroutine_lem ctx err r id = (refl, refl, refl, refl, refl)
