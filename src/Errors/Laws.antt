-- ===== src/Errors/Laws.antt =====
-- What a caller reads back from an error of internal/errors/errors.go.
use frontend_router_mcp.Base.{
  String, true, ◌≡◌, ◌≢◌, refl, sym, ◌↔◌, arith, dec_bool, [], Option-cases, inl, inr,
}
use frontend_router_mcp.Errors.{
  Error, AppError, ErrorType, ErrorType-discrete, Value, nil, plain, wrapf, app, internal, as_app,
  is_type, get_type, get_request_id, get_context, wrap, with_request_id, with_context, unwrap,
}

-- `IsType` and `GetType` agree, but for the type internal, which `GetType` also gives to an error
-- with no `AppError` in its chain: for another type, `IsType` holds exactly when `GetType` returns
-- it.
is_type-get_type :
    (e : Error) (t : ErrorType) → t ≢ internal → (is_type e t ≡ true) ↔ (get_type e ≡ t)
unfolding is_type get_type
is_type-get_type e t h = elim (Option-cases (as_app e)) [
  | inl q ↦ rw (q, is_type, get_type) ((λ f. cc), (λ f. absurd (h (sym f))))
  | inr (a, q) ↦ rw (q, is_type, get_type) (decided a)
]
  where
    decided : (a : AppError) → (dec_bool (ErrorType-discrete a.type t) ≡ true) ↔ (a.type ≡ t)
    decided a = ground arith

-- Adding text with `%w`, a context entry or a request id never changes the type that is read back.
pub get_type_stable :
    (e : Error) (s id : String) (key : String) (v : Value)
    → (get_type (wrapf s e) ≡ get_type e)
      × (get_type (with_context key v e) ≡ get_type e)
      × (get_type (with_request_id id e) ≡ get_type e)
unfolding get_type as_app with_context with_request_id
get_type_stable nil s id key v = (refl, refl, refl)
get_type_stable (plain x) s id key v = (refl, refl, refl)
get_type_stable (wrapf x e) s id key v = (refl, refl, refl)
get_type_stable (app t x e c r) s id key v = (refl, refl, refl)

-- `Wrap` hides the error that it wraps: the type is the new one, the request id is empty and the
-- context is empty, whatever the cause carried, and `Unwrap` gives the cause back.
pub wrap_hides :
    (e : Error) (t : ErrorType) (s : String)
    → (get_type (wrap e t s) ≡ t)
      × (get_request_id (wrap e t s) ≡ "")
      × (get_context (wrap e t s) ≡ [])
      × (unwrap (wrap e t s) ≡ e)
unfolding get_type get_request_id get_context wrap as_app unwrap
wrap_hides e t s = (refl, refl, refl, refl)
