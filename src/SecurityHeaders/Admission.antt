-- ===== src/SecurityHeaders/Admission.antt =====
-- Which requests the middleware hands to the next handler.
use text.Mathlib.TextBridge.{IsPrefix}
use text.Mathlib.TextEquality.{starts_with_iff}
use frontend_router_mcp.Base.{
  ℕ, Bool, true, false, ◌≡◌, ◌≢◌, ◌↔◌, ◌⊎◌, arith, List, [], ◌∷◌, String, eq_iff, Dict, Bool-cases,
  Option-cases, some, inl, inr, refl, subst,
}
use frontend_router_mcp.Requests.{Env, Request, get_header}
use frontend_router_mcp.Requests.Checks.{OneOf, is_one_of_iff}
use frontend_router_mcp.SecurityHeaders.Cors.{headers_of}
use frontend_router_mcp.SecurityHeaders.{
  SecurityHeadersConfig, Reply, http_error, answered, forwarded, validate_origin, validate_referer,
  has_prefix_of, changes_state, handle_cors_preflight, middleware, add_custom_headers, Guarded,
  refuses, calls, Guards, then_next, with_csrf, wrapped, call_wrapped, whole_middleware,
}

abbrev pub is_forwarded : Reply → Bool
is_forwarded (http_error code headers) = false
is_forwarded (answered code headers) = false
is_forwarded (forwarded headers) = true

-- One of the texts is a prefix.
abbrev pub HasPrefixOf : List String → String → Type 0
HasPrefixOf [] s = ⊥
HasPrefixOf (t ∷ ts) s = IsPrefix t s ⊎ HasPrefixOf ts s

-- The methods that the check of the referer is for.
abbrev pub ChangesState : String → Type 0
ChangesState method = (method ≡ "POST") ⊎ (method ≡ "PUT") ⊎ (method ≡ "DELETE")

changes_state_iff : (method : String) → (changes_state method ≡ true) ↔ ChangesState method
unfolding changes_state
changes_state_iff method =
    ground (arith, eq_iff method "POST", eq_iff method "PUT", eq_iff method "DELETE")

has_prefix_of_iff : (ts : List String) (s : String) → (has_prefix_of ts s ≡ true) ↔ HasPrefixOf ts s
unfolding has_prefix_of
has_prefix_of_iff [] s = ground arith
has_prefix_of_iff (t ∷ ts) s = ground (arith, has_prefix_of_iff ts s, starts_with_iff s t)

module _ (env : Env) (config : SecurityHeadersConfig) (r : Request) where
  abbrev origin : String
  origin = get_header env r.headers "Origin"

  abbrev referer : String
  referer = get_header env r.headers "Referer"

  abbrev pub IsAdmitted : Type 0
  IsAdmitted =
      (config.validate_origin ≡ true → origin ≢ "" → OneOf config.cors_allow_origins origin)
      × (config.validate_referer ≡ true
          → referer ≢ ""
          → ChangesState r.method
          → HasPrefixOf config.cors_allow_origins referer)
      × (config.enable_cors ≡ true → r.method ≢ "OPTIONS")

  validate_origin_iff :
      (validate_origin env config r ≡ true) ↔ (origin ≢ "" → OneOf config.cors_allow_origins origin)
  unfolding validate_origin
  validate_origin_iff =
      ground (arith, eq_iff origin "", is_one_of_iff config.cors_allow_origins origin)

  validate_referer_iff :
      (validate_referer env config r ≡ true)
      ↔ (referer ≢ "" → ChangesState r.method → HasPrefixOf config.cors_allow_origins referer)
  unfolding validate_referer
  validate_referer_iff = ground (
    arith,
    eq_iff referer "",
    changes_state_iff r.method,
    has_prefix_of_iff config.cors_allow_origins referer,
  )

  preflight_not_forwarded :
      (format : ℕ → String) (headers : Dict String)
      → is_forwarded (handle_cors_preflight env format config r headers) ≡ false
  unfolding handle_cors_preflight
  preflight_not_forwarded format headers = ground arith

  middleware-IsAdmitted :
      (format : ℕ → String) (headers : Dict String)
      → (is_forwarded (middleware env format config r headers) ≡ true) ↔ IsAdmitted
  unfolding middleware
  middleware-IsAdmitted format headers = ground (
    arith,
    validate_origin_iff,
    validate_referer_iff,
    preflight_not_forwarded format (add_custom_headers env config r headers),
    eq_iff r.method "OPTIONS",
  )

  -- The CSRF check, if it is enabled and there is one, lets the request pass.
  abbrev pub PassesCsrf : Guards → Dict String → Type 0
  PassesCsrf guards found =
      (csrf : Request → Dict String → Guarded)
      → config.enable_csrf ≡ true
      → guards.csrf ≡ some csrf
      → (h : Dict String) × (csrf r found ≡ calls h)

  -- Both libraries let the request pass, which comes to them with these headers set.
  abbrev pub Passes : Guards → Dict String → Type 0
  Passes guards found = (h : Dict String) × (guards.secure r found ≡ calls h) × PassesCsrf guards h

  calls-then_next :
      (g : Guarded) (next : Dict String → Reply)
      → (is_forwarded (then_next g next) ≡ true)
        ↔ ((h : Dict String) × (g ≡ calls h) × (is_forwarded (next h) ≡ true))
  unfolding then_next
  calls-then_next (refuses code h) next = (λ e. cc, λ (h', e, _). cc)
  calls-then_next (calls h) next =
      (λ e. (h, refl, e), λ (h', e, p). subst (λ x. is_forwarded (next x) ≡ true) (cc) p)

  with_csrf_iff :
      (guards : Guards) (found : Dict String)
      → (is_forwarded (with_csrf config guards r found) ≡ true) ↔ PassesCsrf guards found
  unfolding with_csrf
  with_csrf_iff guards found = elim (Bool-cases config.enable_csrf) [
    | inr off ↦ rw (off, with_csrf) (λ _ csrf e. cc, λ _. refl)
    | inl on ↦ elim (Option-cases guards.csrf) [
      | inl e ↦ rw (on, e, with_csrf) (λ _ csrf _ e'. cc, λ _. refl)
      | inr (csrf, e) ↦
          rw (on, e, with_csrf)
            (
              λ p csrf' _ e'.
                  let same : csrf ≡ csrf' = cc in
                  let (h, q, _) = (calls-then_next (csrf r found) (λ h. forwarded h)).0 p in
                  (h, subst (λ g. g r found ≡ calls h) same q),
              λ p.
                  let (h, q) = p csrf refl refl in
                  (calls-then_next (csrf r found) (λ h. forwarded h)).1 (h, q, refl),
            )
    ]
  ]

  wrapped_iff :
      (guards : Guards) (found : Dict String)
      → (is_forwarded (wrapped config guards r found) ≡ true) ↔ Passes guards found
  unfolding wrapped
  wrapped_iff guards found =
      let (to, from) = calls-then_next (guards.secure r found) (λ h. with_csrf config guards r h) in
      (
        λ e. let (h, q, p) = to e in (h, q, (with_csrf_iff guards h).0 p),
        λ (h, q, p). from (h, q, (with_csrf_iff guards h).1 p),
      )

  call_wrapped_iff :
      (guards : Guards) (reply : Reply)
      → (is_forwarded (call_wrapped config guards r reply) ≡ true)
        ↔ ((is_forwarded reply ≡ true) × Passes guards (headers_of reply))
  unfolding call_wrapped
  call_wrapped_iff guards (http_error code h) = (λ e. cc, λ (e, _). cc)
  call_wrapped_iff guards (answered code h) = (λ e. cc, λ (e, _). cc)
  call_wrapped_iff guards (forwarded h) =
      (λ e. (refl, (wrapped_iff guards h).0 e), λ (_, p). (wrapped_iff guards h).1 p)

  -- The middleware hands a request to the next handler exactly if, as far as each check is enabled,
  -- its Origin header is missing or one of the allowed origins, its Referer header is missing or
  -- begins with an allowed origin or the method is not POST, PUT or DELETE, and, with CORS enabled,
  -- the method is not OPTIONS; and if the two libraries around the next handler, unrolled/secure and
  -- then, with CSRF enabled, gorilla/csrf, let it pass, which get it with the headers that the
  -- middleware has set. A beginning is enough for the referer: whatever follows the allowed origin, the
  -- rest of a longer host name too, is accepted.
  pub whole_middleware-IsAdmitted :
      (format : ℕ → String) (guards : Guards) (headers : Dict String)
      → (is_forwarded (whole_middleware env format config guards r headers) ≡ true)
        ↔ (IsAdmitted × Passes guards (headers_of (middleware env format config r headers)))
  unfolding whole_middleware
  whole_middleware-IsAdmitted format guards headers =
      let (to, from) = call_wrapped_iff guards (middleware env format config r headers) in
      let (admitted, forwards) = middleware-IsAdmitted format headers in
      (λ e. let (p, q) = to e in (admitted p, q), λ (p, q). from (forwards p, q))
