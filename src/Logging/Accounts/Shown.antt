-- ===== src/Logging/Accounts/Shown.antt =====
-- What the entries of a logger of internal/logging/logger.go show, after any calls.
use frontend_router_mcp.Base.{
  ℕ, ◌≡◌, ◌≢◌, inl, inr, refl, subst, ◌<◌, ◌↔◌, ◌∙◌, arith, List, [], Option, none, some, String,
  get_elem?,
}
use frontend_router_mcp.Logging.{Maps, map_at, Logger, LogEntry, Site, create_entry}
use frontend_router_mcp.Logging.Calls.{log, log_http, log_operation, write_entry}
use frontend_router_mcp.Logging.Accounts.{
  Op, Account, last_set, request_of, trace_of, span_of, user_of, component_of, AllFit, field_of,
  field_set, no_loggers, run, accounts,
}
use frontend_router_mcp.Logging.Accounts.Fields.{lookup-copied_fields}
use frontend_router_mcp.Logging.Accounts.Kept.{IsRight, Alike-get, run-Keeps}

module _ {V : Type 0} (text : String → V) where
  -- The entry shows what the account says.
  abbrev pub Shows : LogEntry V → Account V → Type 0
  Shows entry b =
      (entry.service ≡ b.root.service)
      × (entry.component ≡ last_set component_of b.root.component b.changes)
      × (entry.request_id ≡ last_set request_of "" b.changes)
      × (entry.trace_id ≡ last_set trace_of "" b.changes)
      × (entry.span_id ≡ last_set span_of "" b.changes)
      × (entry.user_id ≡ last_set user_of "" b.changes)
      × ((j : String) → field_of j entry ≡ field_set text j b.changes)

  create_entry-Shows :
      (maps : Maps V) (l : Logger) (b : Account V) (level : ℕ) (message : String) (site : Site)
      → IsRight text maps l b
      → Shows (create_entry maps l level message site) b
  unfolding create_entry
  create_entry-Shows maps l b level message site ((v, sv, co, rq, tr, sp, us), (m, at, u, f)) =
      let e : map_at maps l.fields ≡ m = rw (at, map_at) refl in
      (sv, co, rq, tr, sp, us, λ j. rw e (lookup-copied_fields j m u ∙ f j))

module _ {V : Type 0} (marshal : LogEntry V → Option String) (maps : Maps V) (l : Logger)
    (site : Site) where
  log-silent :
      (level : ℕ) (message : String)
      → (log marshal maps l level message none site ≡ []) ↔ (level < l.level)
  unfolding log write_entry
  log-silent level message = ground arith

  log_http-written :
      (method path user_agent client_ip : String) (status_code duration : ℕ)
      → log_http marshal maps l method path user_agent client_ip status_code duration site ≢ []
  unfolding log_http write_entry
  log_http-written method path user_agent client_ip status_code duration = λ e. ground arith

  log_operation-written :
      (operation : String) (duration : ℕ) (err : Option String)
      → log_operation marshal maps l operation duration err site ≢ []
  unfolding log_operation write_entry
  log_operation-written operation duration none = λ e. ground arith
  log_operation-written operation duration (some err) = λ e. ground arith

-- The loggers implement their accounts: after any calls that make loggers, derive one from another and
-- set levels, the entries of each logger have the service that its root was made with, the component
-- and the identifiers that were set last on the way from the root to it, and under each key the
-- field that was set last on that way. What is derived from a logger later, and the levels set for
-- others, make no difference to it, although all maps of fields stand in one memory. A message is left
-- out exactly below the level of the account; LogHTTP and LogOperation write at any level.
pub entries-shown :
    {V : Type 0} (text : String → V) (marshal : LogEntry V → Option String) (os : List (Op V))
    (r : ℕ) (b : Account V) (level : ℕ) (message : String) (site : Site)
    → AllFit os
    → get_elem? (accounts [] os) r ≡ some b
    → let maps = (run text no_loggers os).maps in
      (l : Logger) × (get_elem? (run text no_loggers os).loggers r ≡ some l)
      × Shows text (create_entry maps l level message site) b
      × ((log marshal maps l level message none site ≡ []) ↔ (level < b.level))
      × ((method path user_agent client_ip : String) (status_code duration : ℕ)
          → log_http marshal maps l method path user_agent client_ip status_code duration site ≢ [])
      × ((operation : String) (duration : ℕ) (err : Option String)
          → log_operation marshal maps l operation duration err site ≢ [])
entries-shown text marshal os r b level message site fit e =
    let s = run text no_loggers os in
    elim (Alike-get text s.maps s.loggers (accounts [] os) r
      (run-Keeps text os no_loggers [] fit tt)) [
        | inl (_, e') ↦ cc
        | inr (l, b', e', e'', right) ↦
            let same : b' ≡ b = cc in
            let right' = subst (IsRight text s.maps l) same right in
            (
              l,
              e',
              create_entry-Shows text s.maps l b level message site right',
              subst (λ n. (log marshal s.maps l level message none site ≡ []) ↔ (level < n))
                  right'.0.0 (log-silent marshal s.maps l site level message),
              log_http-written marshal s.maps l site,
              log_operation-written marshal s.maps l site,
            )
      ]
