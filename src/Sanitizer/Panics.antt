-- ===== src/Sanitizer/Panics.antt =====
-- When `AdvancedSanitize` panics.
use frontend_router_mcp.Base.{
  ℕ, ◌≡◌, ◌≢◌, ◌↔◌, inl, inr, refl, arith, Bool, true, false, if◌then◌else◌, List, [], ◌∷◌, Option,
  none, some, String, Option-cases,
}
use frontend_router_mcp.Sanitizer.{
  Compiler, Tables, ◌>>=◌, caseless, remove_all, remove_dangerous_patterns, normalize_whitespace,
  sanitize_user_input, AdvancedSanitizationOptions, comment_pattern, empty_element_pattern,
  advanced_sanitize,
}
use frontend_router_mcp.Sanitizer.Patterns.{
  xss_patterns, sql_patterns, command_patterns, path_patterns,
}

-- It returns, it does not panic.
abbrev pub Returns : {A : Type 0} → Option A → Type 0
Returns m = m ≢ none

bind_iff :
    {A B P Q : Type 0} (m : Option A) (f : A → Option B)
    → Returns m ↔ P
    → ((a : A) → Returns (f a) ↔ Q)
    → Returns (m >>= f) ↔ (P × Q)
bind_iff none f p q = ground arith
bind_iff (some a) f p q = ground (arith, q a)

Returns-bind :
    {A B : Type 0} (m : Option A) (f : A → Option B)
    → Returns m
    → ((a : A) → Returns (f a))
    → Returns (m >>= f)
Returns-bind none f h k = absurd (h refl)
Returns-bind (some a) f h k = k a

some_iff : {A : Type 0} (a : A) → Returns (some a) ↔ Unit {0}
some_iff a = ground arith

module _ (compile : Compiler) where
  -- Each of the patterns compiles.
  abbrev pub Compile : List String → Type 0
  Compile [] = Unit
  Compile (p ∷ ps) = Returns (compile p) × Compile ps

  remove_all_iff : (ps : List String) (s : List ℕ) → Returns (remove_all compile ps s) ↔ Compile ps
  unfolding remove_all
  remove_all_iff [] s = some_iff s
  remove_all_iff (p ∷ ps) s = elim (Option-cases (compile p)) [
    | inl e ↦ rw e (ground arith)
    | inr (replace, e) ↦ rw e (ground (arith, remove_all_iff ps (replace [] s)))
  ]

  -- What package regexp does with the patterns of the source: it compiles all but the last of these,
  -- since it has no back references.
  pub record IsStandard : Type 0 where
    pub xss : Compile (caseless xss_patterns)
    pub sql : Compile sql_patterns
    pub command : Compile command_patterns
    pub path : Compile (caseless path_patterns)
    pub whitespace : Returns (compile "\\s+")
    pub comment : Returns (compile comment_pattern)
    pub no_back_reference : compile empty_element_pattern ≡ none

  module _ (standard : IsStandard) (tables : Tables) where
    sanitize_user_input-Returns :
        (s : List ℕ) → Returns (sanitize_user_input compile tables s) ↔ Unit {0}
    unfolding sanitize_user_input normalize_whitespace remove_dangerous_patterns
    sanitize_user_input-Returns s = (
      λ h. tt,
      λ _.
          Returns-bind (remove_dangerous_patterns compile s) _
            (Returns-bind (remove_all compile (caseless xss_patterns) s) _
              ((remove_all_iff _ s).1 standard.xss)
              (λ a.
                Returns-bind (remove_all compile sql_patterns a) _
                  ((remove_all_iff _ a).1 standard.sql)
                  (λ b.
                    Returns-bind (remove_all compile command_patterns b) _
                      ((remove_all_iff _ b).1 standard.command)
                      (λ c. (remove_all_iff (caseless path_patterns) c).1 standard.path))))
            (λ clean.
              Returns-bind (normalize_whitespace compile tables _) _
                (Returns-bind (compile "\\s+") _ standard.whitespace (λ replace. (some_iff _).1 tt))
                (λ normal. (some_iff _).1 tt)),
    )

    comments_iff :
        (b : Bool) (s : List ℕ)
        → Returns (if b then remove_all compile (comment_pattern ∷ []) s else some s) ↔ Unit {0}
    comments_iff false s = some_iff s
    comments_iff true s =
        (λ h. tt, λ _. (remove_all_iff (comment_pattern ∷ []) s).1 (standard.comment, tt))

    empty_elements_iff :
        (b : Bool) (s : List ℕ)
        → Returns (if b then remove_all compile (empty_element_pattern ∷ []) s else some s)
          ↔ (b ≡ false)
    empty_elements_iff false s = ground arith
    empty_elements_iff true s = (
      λ h.
          absurd
            (((remove_all_iff (empty_element_pattern ∷ []) s).0 h).0 standard.no_back_reference),
      λ e. cc,
    )

    -- `AdvancedSanitize` returns exactly if each custom pattern compiles and `RemoveEmptyElements` is
    -- not set: with it, every call panics, since the pattern that it compiles has a back reference.
    pub advanced_sanitize-Returns :
        (s : List ℕ) (options : AdvancedSanitizationOptions)
        → Returns (advanced_sanitize compile tables s options)
          ↔ (Compile options.custom_patterns × (options.remove_empty_elements ≡ false))
    unfolding advanced_sanitize
    advanced_sanitize-Returns s options =
        let (to, from) =
          bind_iff (remove_all compile options.custom_patterns s) _
            (remove_all_iff options.custom_patterns s)
            (λ a.
              bind_iff
                (if options.remove_comments
                  then remove_all compile (comment_pattern ∷ []) a
                  else some a)
                _ (comments_iff options.remove_comments a)
                (λ b.
                  bind_iff
                    (if options.remove_empty_elements
                      then remove_all compile (empty_element_pattern ∷ []) b
                      else some b)
                    _ (empty_elements_iff options.remove_empty_elements b)
                    (λ c. sanitize_user_input-Returns _))) in
        (λ h. ((to h).0, (to h).1.1.0), λ (c, e). from (c, (tt, (e, tt))))
