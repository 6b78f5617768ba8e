-- ===== src/Logging/Accounts/Kept.antt =====
-- The loggers of internal/logging/logger.go stay as their accounts say, under any calls.
use frontend_router_mcp.Base.{
  ℕ, zero, suc, ◌≡◌, ◌⊎◌, inl, inr, refl, sym, ap, subst, Dict, get_elem?-append_new,
  get_elem?-append_old, ◌∙◌, List, [], ◌∷◌, ◌++◌, none, some, String, lookup, IsKeyed, lookup-nil,
  get_elem?, set,
}
use frontend_router_mcp.Logging.{
  Maps, map_at, Logger, new_logger, clone, with_request_id, with_trace_id, with_span_id,
  with_user_id, with_component, with_field, with_fields, with_error, set_log_level,
}
use frontend_router_mcp.Logging.Accounts.{
  Change, request_is, trace_is, span_is, user_is, component_is, field_is, fields_are, error_is, Op,
  makes, derives, sets_level, Account, last_set, request_of, trace_of, span_of, user_of,
  component_of, IsFit, AllFit, field_set, changed, step, Memory, added, field_after, run, book,
  accounts,
}
use frontend_router_mcp.Logging.Accounts.Fields.{after, changed_maps, after-IsKeyed, lookup-after}

module _ {V : Type 0} (text : String → V) where
  -- A logger's texts and level, and its fields, are as its account says.
  abbrev pub Names : Logger → Account V → Type 0
  Names l b =
      (l.level ≡ b.level)
      × (l.service ≡ b.root.service)
      × (l.component ≡ last_set component_of b.root.component b.changes)
      × (l.request_id ≡ last_set request_of "" b.changes)
      × (l.trace_id ≡ last_set trace_of "" b.changes)
      × (l.span_id ≡ last_set span_of "" b.changes)
      × (l.user_id ≡ last_set user_of "" b.changes)

  abbrev pub HasFields : Maps V → ℕ → List (Change V) → Type 0
  HasFields maps r cs =
      (m : Dict V) × (get_elem? maps r ≡ some m)
      × IsKeyed m
      × ((j : String) → lookup j m ≡ field_set text j cs)

  abbrev pub IsRight : Maps V → Logger → Account V → Type 0
  IsRight maps l b = Names l b × HasFields maps l.fields b.changes

  changed-Names :
      (maps : Maps V) (l : Logger) (b : Account V) (c : Change V)
      → Names l b
      → Names (changed text maps l c).1 (record b { changes = c ∷ b.changes })
  unfolding with_request_id with_trace_id with_span_id with_user_id with_component with_field
      with_fields with_error clone
  changed-Names maps l b (request_is s) (v, sv, co, rq, tr, sp, us) = (v, sv, co, refl, tr, sp, us)
  changed-Names maps l b (trace_is s) (v, sv, co, rq, tr, sp, us) = (v, sv, co, rq, refl, sp, us)
  changed-Names maps l b (span_is s) (v, sv, co, rq, tr, sp, us) = (v, sv, co, rq, tr, refl, us)
  changed-Names maps l b (user_is s) (v, sv, co, rq, tr, sp, us) = (v, sv, co, rq, tr, sp, refl)
  changed-Names maps l b (component_is s) (v, sv, co, rq, tr, sp, us) =
      (v, sv, refl, rq, tr, sp, us)
  changed-Names maps l b (field_is k x) n = n
  changed-Names maps l b (fields_are m) n = n
  changed-Names maps l b (error_is none) n = n
  changed-Names maps l b (error_is (some err)) n = n

  HasFields-grow :
      (maps : Maps V) (d : Dict V) (r : ℕ) (cs : List (Change V))
      → HasFields maps r cs
      → HasFields (maps ++ d ∷ []) r cs
  HasFields-grow maps d r cs (m, at, u, f) = (m, get_elem?-append_old maps d r at, u, f)

  changed-HasFields :
      (r : ℕ) (maps : Maps V) (l : Logger) (cs : List (Change V)) (c : Change V)
      → IsFit (derives r c)
      → HasFields maps l.fields cs
      → HasFields (changed text maps l c).0 (changed text maps l c).1.fields (c ∷ cs)
  changed-HasFields r maps l cs c fit (m, at, u, f) =
      let (made, last) = changed_maps text maps l c in
      let e : map_at maps l.fields ≡ m = rw (at, map_at) refl in
      rw (made, last)
        (
          after text c (map_at maps l.fields),
          get_elem?-append_new maps _,
          after-IsKeyed text c _,
          λ j. rw e (lookup-after text r c m j fit u ∙ ap (field_after text j c) (f j)),
        )

  abbrev pub Alike : Maps V → List Logger → List (Account V) → Type 0
  Alike maps [] [] = Unit
  Alike maps [] (b ∷ bs) = ⊥
  Alike maps (l ∷ ls) [] = ⊥
  Alike maps (l ∷ ls) (b ∷ bs) = IsRight maps l b × Alike maps ls bs

  Alike-grow :
      (maps : Maps V) (d : Dict V) (ls : List Logger) (bs : List (Account V))
      → Alike maps ls bs
      → Alike (maps ++ d ∷ []) ls bs
  Alike-grow maps d [] [] h = tt
  Alike-grow maps d [] (_ ∷ _) h = absurd h
  Alike-grow maps d (_ ∷ _) [] h = absurd h
  Alike-grow maps d (l ∷ ls) (b ∷ bs) ((n, f), h) =
      ((n, HasFields-grow maps d l.fields b.changes f), Alike-grow maps d ls bs h)

  Alike-append :
      (maps : Maps V) (ls : List Logger) (bs : List (Account V)) (l : Logger) (b : Account V)
      → Alike maps ls bs
      → IsRight maps l b
      → Alike maps (ls ++ l ∷ []) (bs ++ b ∷ [])
  Alike-append maps [] [] l b h right = (right, tt)
  Alike-append maps [] (_ ∷ _) l b h right = absurd h
  Alike-append maps (_ ∷ _) [] l b h right = absurd h
  Alike-append maps (_ ∷ ls) (_ ∷ bs) l b (first, h) right =
      (first, Alike-append maps ls bs l b h right)

  Alike-set :
      (maps : Maps V) (ls : List Logger) (bs : List (Account V)) (r : ℕ) (l : Logger)
      (b : Account V)
      → Alike maps ls bs
      → IsRight maps l b
      → Alike maps (set ls r l) (set bs r b)
  Alike-set maps [] [] r l b h right = tt
  Alike-set maps [] (_ ∷ _) r l b h right = absurd h
  Alike-set maps (_ ∷ _) [] r l b h right = absurd h
  Alike-set maps (_ ∷ ls) (_ ∷ bs) zero l b (first, h) right = (right, h)
  Alike-set maps (_ ∷ ls) (_ ∷ bs) (suc r) l b (first, h) right =
      (first, Alike-set maps ls bs r l b h right)

  abbrev pub BothAt : Maps V → List Logger → List (Account V) → ℕ → Type 0
  BothAt maps ls bs r =
      (l : Logger) × (b : Account V) × (get_elem? ls r ≡ some l)
      × (get_elem? bs r ≡ some b)
      × IsRight maps l b

  pub Alike-get :
      (maps : Maps V) (ls : List Logger) (bs : List (Account V)) (r : ℕ)
      → Alike maps ls bs
      → ((get_elem? ls r ≡ none) × (get_elem? bs r ≡ none)) ⊎ BothAt maps ls bs r
  Alike-get maps [] [] r h = inl (refl, refl)
  Alike-get maps [] (_ ∷ _) r h = absurd h
  Alike-get maps (_ ∷ _) [] r h = absurd h
  Alike-get maps (l ∷ ls) (b ∷ bs) zero (first, h) = inr (l, b, refl, refl, first)
  Alike-get maps (_ ∷ ls) (_ ∷ bs) (suc r) (first, h) = Alike-get maps ls bs r h

  abbrev pub Keeps : Memory V → List (Account V) → Type 0
  Keeps s bs = Alike s.maps s.loggers bs

  derived-Keeps :
      (s : Memory V) (bs : List (Account V)) (r : ℕ) (c : Change V) (l : Logger) (b : Account V)
      → IsFit (derives r c)
      → Keeps s bs
      → IsRight s.maps l b
      → Keeps
          (added s.loggers (changed text s.maps l c))
          (bs ++ record b { changes = c ∷ b.changes } ∷ [])
  derived-Keeps s bs r c l b fit h (n, f) =
      let (made, _) = changed_maps text s.maps l c in
      Alike-append (changed text s.maps l c).0 s.loggers bs (changed text s.maps l c).1
        (record b { changes = c ∷ b.changes })
        (subst (λ ms. Alike ms s.loggers bs) (sym made) (Alike-grow s.maps _ s.loggers bs h))
        (changed-Names s.maps l b c n, changed-HasFields r s.maps l b.changes c fit f)

  step-Keeps :
      (s : Memory V) (bs : List (Account V)) (o : Op V)
      → IsFit o
      → Keeps s bs
      → Keeps (step text s o) (book bs o)
  unfolding new_logger set_log_level
  step-Keeps s bs (makes config) fit h =
      Alike-append (s.maps ++ [] ∷ []) s.loggers bs (new_logger s.maps config).1
        (record { root = config; changes = []; level = config.level })
        (Alike-grow s.maps [] s.loggers bs h)
        (
          (refl, refl, refl, refl, refl, refl, refl),
          ([], get_elem?-append_new s.maps [], tt, λ j. lookup-nil j),
        )
  step-Keeps s bs (derives r c) fit h = elim (Alike-get s.maps s.loggers bs r h) [
    | inl (e, e') ↦ rw (e, e', step, book) h
    | inr (l, b, e, e', right) ↦ rw (e, e', step, book) (derived-Keeps s bs r c l b fit h right)
  ]
  step-Keeps s bs (sets_level r level) fit h = elim (Alike-get s.maps s.loggers bs r h) [
    | inl (e, e') ↦ rw (e, e', step, book) h
    | inr (l, b, e, e', ((v, sv, co, rq, tr, sp, us), f)) ↦
        rw (e, e', step, book)
          (Alike-set s.maps s.loggers bs r (set_log_level l level) (record b { level = level }) h
            ((refl, sv, co, rq, tr, sp, us), f))
  ]

  pub run-Keeps :
      (os : List (Op V)) (s : Memory V) (bs : List (Account V))
      → AllFit os
      → Keeps s bs
      → Keeps (run text s os) (accounts bs os)
  run-Keeps [] s bs fit h = h
  run-Keeps (o ∷ os) s bs (first, fit) h =
      run-Keeps os (step text s o) (book bs o) fit (step-Keeps s bs o first h)
