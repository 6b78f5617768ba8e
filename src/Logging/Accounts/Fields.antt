-- ===== src/Logging/Accounts/Fields.antt =====
-- The fields of loggers in internal/logging/logger.go, which are copied from map to map.
use frontend_router_mcp.Base.{
  ℕ, ◌∙◌, ap, ◌++◌, set, length, get_elem?-append_new, ◌≡◌, refl, arith, [], ◌∷◌, Option, none,
  some, String, Dict, lookup, insert, IsKeyed, lookup-insert, lookup-cons, lookup-nil,
  IsKeyed-insert, eq_iff,
}
use frontend_router_mcp.Logging.{
  Maps, Logger, map_at, set_field, set_fields, clone, filled, copied_fields,
}
use frontend_router_mcp.Logging.{
  with_request_id, with_trace_id, with_span_id, with_user_id, with_component, with_field,
  with_fields, with_error,
}
use frontend_router_mcp.Logging.Accounts.{
  or_before, Change, request_is, trace_is, span_is, user_is, component_is, field_is, fields_are,
  error_is, derives, IsFit, changed, field_after,
}

module _ {V : Type 0} where
  pub lookup-filled :
      (j : String) (m fields : Dict V)
      → IsKeyed m
      → lookup j (filled m fields) ≡ or_before (lookup j m) (lookup j fields)
  unfolding filled
  lookup-filled j [] fields u = rw (lookup-nil j) refl
  lookup-filled j ((k, v) ∷ m) fields (absent, u) = ground (
    arith,
    lookup-filled j m (insert k v fields) u,
    lookup-insert k j v fields,
    lookup-cons k j v m,
    eq_iff k j,
  )

  pub filled-IsKeyed : (m fields : Dict V) → IsKeyed fields → IsKeyed (filled m fields)
  unfolding filled
  filled-IsKeyed [] fields u = u
  filled-IsKeyed ((k, v) ∷ m) fields u =
      filled-IsKeyed m (insert k v fields) (IsKeyed-insert k v fields u)

  or_before-none : (v : Option V) → or_before v none ≡ v
  or_before-none none = refl
  or_before-none (some v) = refl

  -- The map that was made last is the one that is written to.
  set-append_new :
      (maps : Maps V) (d e : Dict V) → set (maps ++ d ∷ []) (length maps) e ≡ maps ++ e ∷ []
  set-append_new [] d e = refl
  set-append_new (m ∷ maps) d e = ap (λ ms. m ∷ ms) (set-append_new maps d e)

  pub map_at-append_new : (maps : Maps V) (d : Dict V) → map_at (maps ++ d ∷ []) (length maps) ≡ d
  map_at-append_new maps d = rw (get_elem?-append_new maps d, map_at) refl

  pub set_field-append_new :
      (maps : Maps V) (d : Dict V) (k : String) (v : V)
      → set_field (maps ++ d ∷ []) (length maps) k v ≡ maps ++ insert k v d ∷ []
  unfolding set_field
  set_field-append_new maps d k v =
      rw (map_at-append_new maps d) (set-append_new maps d (insert k v d))

  pub set_fields-append_new :
      (m : Dict V) (maps : Maps V) (d : Dict V)
      → set_fields m (length maps) (maps ++ d ∷ []) ≡ maps ++ filled m d ∷ []
  unfolding set_fields filled
  set_fields-append_new [] maps d = refl
  set_fields-append_new ((k, v) ∷ m) maps d =
      rw (set_field-append_new maps d k v) (set_fields-append_new m maps (insert k v d))

  pub clone_maps :
      (maps : Maps V) (l : Logger)
      → (clone maps l).0 ≡ maps ++ filled (map_at maps l.fields) [] ∷ []
  unfolding clone
  clone_maps maps l = set_fields-append_new (map_at maps l.fields) maps []

  pub lookup-copy : (j : String) (m : Dict V) → IsKeyed m → lookup j (filled m []) ≡ lookup j m
  lookup-copy j m u = rw (lookup-filled j m [] u, lookup-nil j) (or_before-none (lookup j m))

  pub lookup-copied_fields :
      (j : String) (m : Dict V)
      → IsKeyed m
      → (elim (copied_fields m) [ some n ↦ lookup j n | none ↦ none ]) ≡ lookup j m
  unfolding copied_fields
  lookup-copied_fields j [] u = rw (lookup-nil j) refl
  lookup-copied_fields j (kv ∷ m) u =
      rw (lookup-filled j (kv ∷ m) [] u, lookup-nil j) (or_before-none (lookup j (kv ∷ m)))

module _ {V : Type 0} (text : String → V) where
  -- What a change leaves of the fields, in a map of its own.
  abbrev pub after : Change V → Dict V → Dict V
  after (field_is k v) m = insert k v (filled m [])
  after (fields_are n) m = filled n (filled m [])
  after (error_is (some err)) m = insert "error" (text err) (filled m [])
  after _ m = filled m []

  -- A change makes one map, at the end, and the new logger has it.
  pub changed_maps :
      (maps : Maps V) (l : Logger) (c : Change V)
      → ((changed text maps l c).0 ≡ maps ++ after c (map_at maps l.fields) ∷ [])
        × ((changed text maps l c).1.fields ≡ length maps)
  unfolding with_request_id with_trace_id with_span_id with_user_id with_component with_field
      with_fields with_error clone
  changed_maps maps l (request_is s) = (clone_maps maps l, refl)
  changed_maps maps l (trace_is s) = (clone_maps maps l, refl)
  changed_maps maps l (span_is s) = (clone_maps maps l, refl)
  changed_maps maps l (user_is s) = (clone_maps maps l, refl)
  changed_maps maps l (component_is s) = (clone_maps maps l, refl)
  changed_maps maps l (field_is k v) = (
    ap (λ ms. set_field ms (length maps) k v) (clone_maps maps l) ∙ set_field-append_new maps _ k v,
    refl,
  )
  changed_maps maps l (fields_are n) = (
    ap (λ ms. set_fields n (length maps) ms) (clone_maps maps l) ∙ set_fields-append_new n maps _,
    refl,
  )
  changed_maps maps l (error_is none) = (clone_maps maps l, refl)
  changed_maps maps l (error_is (some err)) = (
    ap (λ ms. set_field ms (length maps) "error" (text err)) (clone_maps maps l)
        ∙ set_field-append_new maps _ "error" (text err),
    refl,
  )

  pub after-IsKeyed : (c : Change V) (m : Dict V) → IsKeyed (after c m)
  after-IsKeyed (request_is s) m = filled-IsKeyed m [] tt
  after-IsKeyed (trace_is s) m = filled-IsKeyed m [] tt
  after-IsKeyed (span_is s) m = filled-IsKeyed m [] tt
  after-IsKeyed (user_is s) m = filled-IsKeyed m [] tt
  after-IsKeyed (component_is s) m = filled-IsKeyed m [] tt
  after-IsKeyed (field_is k v) m = IsKeyed-insert k v _ (filled-IsKeyed m [] tt)
  after-IsKeyed (fields_are n) m = filled-IsKeyed n _ (filled-IsKeyed m [] tt)
  after-IsKeyed (error_is none) m = filled-IsKeyed m [] tt
  after-IsKeyed (error_is (some err)) m = IsKeyed-insert "error" _ _ (filled-IsKeyed m [] tt)

  pub lookup-after :
      (r : ℕ) (c : Change V) (m : Dict V) (j : String)
      → IsFit (derives r c)
      → IsKeyed m
      → lookup j (after c m) ≡ field_after text j c (lookup j m)
  lookup-after r (request_is s) m j fit u = lookup-copy j m u
  lookup-after r (trace_is s) m j fit u = lookup-copy j m u
  lookup-after r (span_is s) m j fit u = lookup-copy j m u
  lookup-after r (user_is s) m j fit u = lookup-copy j m u
  lookup-after r (component_is s) m j fit u = lookup-copy j m u
  lookup-after r (field_is k v) m j fit u =
      ground (arith, lookup-insert k j v (filled m []), lookup-copy j m u)
  lookup-after r (fields_are n) m j fit u =
      lookup-filled j n (filled m []) fit ∙ ap (or_before (lookup j n)) (lookup-copy j m u)
  lookup-after r (error_is none) m j fit u = lookup-copy j m u
  lookup-after r (error_is (some err)) m j fit u =
      ground (arith, lookup-insert "error" j (text err) (filled m []), lookup-copy j m u)
