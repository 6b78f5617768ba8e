-- ===== src/InputLimits/Files/Accepted.antt =====
-- Which files and values internal/validation/input_limits.go accepts.
use Prim.Native.String.{[] as str_nil, ◌∷◌ as str_cons, ◌++◌ as str_append}
use Prim.Native.String.append.{nil, cons}
use frontend_router_mcp.Base.{Dict}
use Prim.Native.Char.{Char}
use frontend_router_mcp.Base.{
  ◌≡◌, ◌≢◌, ◌↔◌, ◌⊎◌, inl, inr, refl, ap, sym, ◌∙◌, subst, arith, true, List, [], ◌∷◌, Option, none,
  some, String, str_eq, eq_iff, Bool-cases,
}
use frontend_router_mcp.Channel.{done, panic}
use frontend_router_mcp.Requests.{Env}
use frontend_router_mcp.Requests.Checks.{OneOf, is_one_of_iff}
use frontend_router_mcp.InputLimits.{InputLimitsConfig}
use frontend_router_mcp.InputLimits.Files.{
  MediaTypes, Checked, or_check, is_allowed, check_lists, extension_of, validate_mime, parsed_mime,
  validate_file_type,
}

abbrev pub HasNoDot : String → Type 0
HasNoDot str_nil = Unit
HasNoDot (str_cons c s) = (str_cons c str_nil ≢ ".") × HasNoDot s

append-nil : (t : String) → str_append str_nil t ≡ t
append-nil t = λ i. nil t i

append-cons : (c : Char) (s t : String) → str_append (str_cons c s) t ≡ str_cons c (str_append s t)
append-cons c s t = λ i. cons c s t i

abbrev pub dot_and : String → String
dot_and tail = str_append "." tail

extension_of_tail : (tail : String) → HasNoDot tail → extension_of tail ≡ none
unfolding extension_of
extension_of_tail str_nil h = refl
extension_of_tail (str_cons c s) (ne, h) =
    rw (extension_of_tail s h) (ground (arith, eq_iff (str_cons c str_nil) "."))

extension_of_cons :
    (c : Char) (s e : String) → extension_of s ≡ some e → extension_of (str_cons c s) ≡ some e
unfolding extension_of
extension_of_cons c s e h = rw h refl

extension_of_name :
    (stem tail : String)
    → HasNoDot tail
    → extension_of (str_append stem (dot_and tail)) ≡ some (dot_and tail)
unfolding extension_of
extension_of_name str_nil tail h =
    rw (append-nil, append-cons, append-nil, extension_of_tail tail h) refl
extension_of_name (str_cons c stem) tail h =
    subst (λ t. extension_of t ≡ some (dot_and tail)) (sym (append-cons c stem (dot_and tail)))
      (extension_of_cons c (str_append stem (dot_and tail)) (dot_and tail)
        (extension_of_name stem tail h))

-- A name with a dot is what stands before its last dot, and that dot with what follows.
abbrev pub Splits : String → String → Type 0
Splits name e =
    (stem : String) × (tail : String) × (name ≡ str_append stem (dot_and tail))
    × (e ≡ dot_and tail)
    × HasNoDot tail

extension_cases :
    (name : String)
    → ((extension_of name ≡ none) × HasNoDot name)
      ⊎ ((e : String) × (extension_of name ≡ some e) × Splits name e)
unfolding extension_of
extension_cases str_nil = inl (refl, tt)
extension_cases (str_cons c s) = elim (extension_cases s) [
  | inr (e, x, (stem, tail, eq, eq', h)) ↦ inr (
    e,
    rw x refl,
    (
      str_cons c stem,
      tail,
      ap (λ t. str_cons c t) eq ∙ sym (append-cons c stem (dot_and tail)),
      eq',
      h,
    ),
  )
  | inl (x, h) ↦ elim (Bool-cases (str_eq (str_cons c str_nil) ".")) [
    | inl d ↦ inr (
      str_cons c s,
      rw (x, d) refl,
      let same : str_cons c str_nil ≡ "." = ground (arith, eq_iff (str_cons c str_nil) ".") in
          let e =
            sym (append-cons c str_nil s ∙ ap (λ t. str_cons c t) (append-nil s))
            ∙ ap (λ t. str_append t s) same in
          (str_nil, s, e ∙ sym (append-nil (dot_and s)), e, h),
    )
    | inr d ↦ inl (rw (x, d) refl, (λ e. ground (arith, eq_iff (str_cons c str_nil) "."), h))
  ]
]

or_check_iff :
    {P Q : Type 0} (a b : Checked)
    → (a ≡ none) ↔ P
    → (b ≡ none) ↔ Q
    → (or_check a b ≡ none) ↔ (P × Q)
unfolding or_check
or_check_iff (some e) b p q = ground arith
or_check_iff none b p q = ground arith

-- Not blocked, and allowed, where an empty list allows everything.
abbrev pub IsListed : List String → List String → String → Type 0
IsListed blocked allowed v = ¬ OneOf blocked v × ((allowed ≡ []) ⊎ OneOf allowed v)

pub is_allowed_iff :
    (allowed : List String) (v : String)
    → (is_allowed allowed v ≡ true) ↔ ((allowed ≡ []) ⊎ OneOf allowed v)
unfolding is_allowed
is_allowed_iff [] v = ground arith
is_allowed_iff (a ∷ rest) v = ground (arith, is_one_of_iff (a ∷ rest) v)

check_lists_iff :
    (blocked allowed : List String) (v : String)
    → (check_lists blocked allowed v ≡ none) ↔ IsListed blocked allowed v
unfolding check_lists
check_lists_iff blocked allowed v =
    ground (arith, is_one_of_iff blocked v, is_allowed_iff allowed v)

-- A media type that is listed.
abbrev pub IsMediaType : InputLimitsConfig → Option (String × Dict String) → Type 0
IsMediaType config none = ⊥
IsMediaType config (some (media_type, params)) =
    IsListed config.blocked_mime_types config.allowed_mime_types media_type

abbrev pub IsMime : MediaTypes → InputLimitsConfig → String → Type 0
IsMime parse config content_type =
    (content_type ≡ "") ⊎ ((content_type ≢ "") × IsMediaType config (parse content_type))

parsed_mime_iff :
    (config : InputLimitsConfig) (m : Option (String × Dict String))
    → (parsed_mime config m ≡ none) ↔ IsMediaType config m
unfolding parsed_mime
parsed_mime_iff config none = ground arith
parsed_mime_iff config (some (media_type, params)) =
    check_lists_iff config.blocked_mime_types config.allowed_mime_types media_type

validate_mime_iff :
    (parse : MediaTypes) (config : InputLimitsConfig) (t : String)
    → (validate_mime parse config t ≡ none) ↔ IsMime parse config t
unfolding validate_mime
validate_mime_iff parse config t = ground (arith, eq_iff t "", parsed_mime_iff config (parse t))

Splits-extension_of : (name e : String) → Splits name e → extension_of name ≡ some e
Splits-extension_of name e (stem, tail, eq, eq', h) =
    ap extension_of eq ∙ extension_of_name stem tail h ∙ ap some (sym eq')

abbrev extension_check : MediaTypes → InputLimitsConfig → String → String → Checked
extension_check parse config lower content_type =
    or_check (check_lists config.blocked_file_extensions config.allowed_file_extensions lower)
      (validate_mime parse config content_type)

extension_iff :
    (parse : MediaTypes) (config : InputLimitsConfig) (lower content_type : String)
    → (extension_check parse config lower content_type ≡ none) ↔ (
        IsListed config.blocked_file_extensions config.allowed_file_extensions lower
        × IsMime parse config content_type)
extension_iff parse config lower content_type =
    or_check_iff _ _ (check_lists_iff _ _ lower) (validate_mime_iff parse config content_type)

module _ (env : Env) (parse : MediaTypes) (config : InputLimitsConfig)
    (name content_type : String) where
  no_extension :
      extension_of name ≡ none → validate_file_type env parse config name content_type ≡ panic
  unfolding validate_file_type
  no_extension x = rw (x, validate_file_type) refl

  with_extension :
      (e : String)
      → extension_of name ≡ some e
      → validate_file_type env parse config name content_type
        ≡ done (extension_check parse config (env.to_lower e) content_type)
  unfolding validate_file_type
  with_extension e x = rw (x, validate_file_type) refl

  file_panics : validate_file_type env parse config name content_type ≡ panic → HasNoDot name
  file_panics h = elim (extension_cases name) [
    | inl (x, no_dot) ↦ no_dot
    | inr (e, x, s) ↦ cc (with_extension e x)
  ]

  file_passes :
      validate_file_type env parse config name content_type ≡ done none
      → (e : String) × Splits name e
        × IsListed config.blocked_file_extensions config.allowed_file_extensions (env.to_lower e)
        × IsMime parse config content_type
  file_passes h = elim (extension_cases name) [
    | inl (x, no_dot) ↦ cc (no_extension x)
    | inr (e, x, s) ↦
        let (l, m) =
          (extension_iff parse config (env.to_lower e) content_type).0
            (let q = with_extension e x in cc) in
        (e, s, l, m)
  ]

-- The check of a file panics exactly if the name of the file has no dot, and otherwise accepts the file
-- exactly if the last dot of the name and what follows, in lower case, is an extension that is not
-- blocked and, where a list of allowed ones is given, is on it, and the content type, if there is one,
-- can be parsed and its media type is listed in the same way.
pub validate_file_type_iff :
    (env : Env) (parse : MediaTypes) (config : InputLimitsConfig) (name content_type : String)
    → ((validate_file_type env parse config name content_type ≡ panic) ↔ HasNoDot name)
      × ((validate_file_type env parse config name content_type ≡ done none) ↔ (
          (e : String) × Splits name e
          × IsListed config.blocked_file_extensions config.allowed_file_extensions (env.to_lower e)
          × IsMime parse config content_type))
validate_file_type_iff env parse config name content_type = (
  (
    λ h. file_panics env parse config name content_type h,
    λ h. no_extension env parse config name content_type (extension_of_tail name h),
  ),
  (
    λ h. file_passes env parse config name content_type h,
    λ (e, s, l, m).
        with_extension env parse config name content_type e (Splits-extension_of name e s)
        ∙ ap done ((extension_iff parse config (env.to_lower e) content_type).1 (l, m)),
  ),
)
