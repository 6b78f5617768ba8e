-- ===== src/SecurityHeaders/Cors.antt =====
-- What the CORS headers of a reply grant.
use text.Mathlib.Text.{starts_with}
use frontend_router_mcp.Base.{
  ℕ, Bool, true, false, not, ◌&&◌, ◌≡◌, ◌≢◌, ◌⊎◌, inl, inr, refl, ◌∙◌, arith, if◌then◌else◌, [],
  ◌∷◌, Option, none, some, String, str_eq, eq_iff, Dict, insert, lookup, lookup-insert, Bool-cases,
}
use frontend_router_mcp.Requests.{Env, Request, get_header, is_one_of}
use frontend_router_mcp.Requests.Checks.{OneOf, is_one_of_iff}
use frontend_router_mcp.SecurityHeaders.{
  SecurityHeadersConfig, Reply, http_error, answered, forwarded, set_all, add_custom_headers,
  allow_credentials, handle_cors_preflight, add_cors_headers, middleware, validate_origin,
  validate_referer,
}

abbrev pub allow_origin : String
allow_origin = "Access-Control-Allow-Origin"

abbrev pub allow_credentials_header : String
allow_credentials_header = "Access-Control-Allow-Credentials"

abbrev pub headers_of : Reply → Dict String
headers_of (http_error code headers) = headers
headers_of (answered code headers) = headers
headers_of (forwarded headers) = headers

-- No custom header has this name.
abbrev pub Lacks : Env → Dict String → String → Type 0
Lacks env [] key = Unit
Lacks env ((name, value) ∷ rest) key = (env.canonical name ≢ key) × Lacks env rest key

lookup-set_all :
    (env : Env) (custom headers : Dict String) (key : String)
    → Lacks env custom key
    → lookup key (set_all env custom headers) ≡ lookup key headers
unfolding set_all
lookup-set_all env [] headers key h = refl
lookup-set_all env ((name, value) ∷ rest) headers key (ne, h) = ground (
  arith,
  lookup-set_all env rest (insert (env.canonical name) value headers) key h,
  lookup-insert (env.canonical name) key value headers,
  eq_iff (env.canonical name) key,
)

lookup-if :
    (b : Bool) (m n : Dict String) (key : String) {found : Option String}
    → lookup key m ≡ found
    → lookup key n ≡ found
    → lookup key (if b then m else n) ≡ found
lookup-if true m n key p q = p
lookup-if false m n key p q = q

skip :
    (k j v : String) (m : Dict String) {found : Option String}
    → str_eq k j ≡ false
    → lookup j m ≡ found
    → lookup j (insert k v m) ≡ found
skip k j v m h e = ground (arith, lookup-insert k j v m)

both-left : (a b : Bool) → (a && b) ≡ true → a ≡ true
both-left a b h = ground arith

module _ (env : Env) (config : SecurityHeadersConfig) (r : Request) (headers : Dict String) where
  lookup-add_custom_headers :
      (key : String)
      → str_eq "Content-Security-Policy" key ≡ false
      → str_eq "Server" key ≡ false
      → str_eq "Cache-Control" key ≡ false
      → str_eq "Pragma" key ≡ false
      → str_eq "Expires" key ≡ false
      → Lacks env config.custom_headers key
      → lookup key (add_custom_headers env config r headers) ≡ lookup key headers
  unfolding add_custom_headers
  lookup-add_custom_headers key a b c d e h =
      let custom = lookup-set_all env config.custom_headers headers key h in
      let mixed = lookup-if config.block_mixed_content _ _ key (skip _ key _ _ a custom) custom in
      let named = skip "Server" key _ _ b mixed in
      lookup-if (starts_with r.path "/api/") _ _ key
        (skip _ key _ _ e (skip _ key _ _ d (skip _ key _ _ c named))) named

  -- What a reply says on the two headers that let another site read it.
  abbrev pub IsGrant : Dict String → Type 0
  IsGrant found =
      ((lookup allow_origin found ≡ none) × (lookup allow_credentials_header found ≡ none))
      ⊎ ((lookup allow_origin found ≡ some (get_header env r.headers "Origin"))
          × (lookup allow_credentials_header found
              ≡ (if config.cors_allow_credentials then some "true" else none))
          × (config.enable_cors ≡ true)
          × OneOf config.cors_allow_origins (get_header env r.headers "Origin"))

  allow_credentials-IsGrant :
      (m : Dict String)
      → lookup allow_origin m ≡ some (get_header env r.headers "Origin")
      → lookup allow_credentials_header m ≡ none
      → config.enable_cors ≡ true
      → OneOf config.cors_allow_origins (get_header env r.headers "Origin")
      → IsGrant (allow_credentials config m)
  unfolding allow_credentials
  allow_credentials-IsGrant m o c e h = elim (Bool-cases config.cors_allow_credentials) [
    | inl yes_ ↦ rw yes_ (inr (simp (lookup-insert, o), simp lookup-insert, e, h))
    | inr no_ ↦ rw no_ (inr (o, c, e, h))
  ]

  handle_cors_preflight-IsGrant :
      (format : ℕ → String) (m : Dict String)
      → lookup allow_origin m ≡ none
      → lookup allow_credentials_header m ≡ none
      → config.enable_cors ≡ true
      → IsGrant (headers_of (handle_cors_preflight env format config r m))
  unfolding handle_cors_preflight
  handle_cors_preflight-IsGrant format m o c e =
      let origin = get_header env r.headers "Origin" in
      elim (Bool-cases (is_one_of config.cors_allow_origins origin)) [
        | inl found ↦ rw found (
            allow_credentials-IsGrant _ (simp lookup-insert) (simp (lookup-insert, c)) e
              ((is_one_of_iff _ origin).0 found))
        | inr absent ↦ rw absent (inl (o, c))
      ]

  add_cors_headers-IsGrant :
      (m : Dict String)
      → lookup allow_origin m ≡ none
      → lookup allow_credentials_header m ≡ none
      → config.enable_cors ≡ true
      → IsGrant (add_cors_headers env config r m)
  unfolding add_cors_headers
  add_cors_headers-IsGrant m o c e =
      let origin = get_header env r.headers "Origin" in
      elim (Bool-cases (is_one_of config.cors_allow_origins origin)) [
        | inl found ↦ rw found (
            allow_credentials-IsGrant _ (simp lookup-insert) (simp (lookup-insert, c)) e
              ((is_one_of_iff _ origin).0 found))
        | inr absent ↦ rw absent (inl (o, c))
      ]

  reply-if :
      (b : Bool) (x y : Reply)
      → (b ≡ true → IsGrant (headers_of x))
      → IsGrant (headers_of y)
      → IsGrant (headers_of (if b then x else y))
  reply-if true x y p q = p refl
  reply-if false x y p q = q

  -- If nothing has set the two headers yet and no custom header has their names, then in every reply
  -- of the middleware, an error too, and in what it has set when it calls the handler that it wraps, the
  -- two headers are either left out, or Access-Control-Allow-Origin names the origin of the request,
  -- which is then one of the allowed ones, with CORS enabled; and credentials are allowed beside it
  -- exactly if the configuration says so, never without it.
  pub middleware-IsGrant :
      (format : ℕ → String)
      → Lacks env config.custom_headers allow_origin
      → Lacks env config.custom_headers allow_credentials_header
      → lookup allow_origin headers ≡ none
      → lookup allow_credentials_header headers ≡ none
      → IsGrant (headers_of (middleware env format config r headers))
  unfolding middleware
  middleware-IsGrant format lo lc o c =
      let custom = add_custom_headers env config r headers in
      let o' : lookup allow_origin custom ≡ none =
        lookup-add_custom_headers allow_origin refl refl refl refl refl lo ∙ o in
      let c' : lookup allow_credentials_header custom ≡ none =
        lookup-add_custom_headers allow_credentials_header refl refl refl refl refl lc ∙ c in
      let refused : IsGrant custom = inl (o', c') in
      let cors = config.enable_cors in
      reply-if (config.validate_origin && not (validate_origin env config r)) _ _ (λ _. refused)
        (reply-if (config.validate_referer && not (validate_referer env config r)) _ _
          (λ _. refused)
          (reply-if (cors && str_eq r.method "OPTIONS") _ _
            (λ e. handle_cors_preflight-IsGrant format custom o' c' (both-left cors _ e))
            (reply-if cors _ _ (λ e. add_cors_headers-IsGrant custom o' c' e) refused)))
