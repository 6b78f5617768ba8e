-- ===== src/Logging/Calls.antt =====
-- The calls of internal/logging/logger.go that write an entry.
use Prim.Native.String.{◌++◌ as text_append}
use frontend_router_mcp.Base.{ℕ, if◌then◌else◌, [], ◌∷◌, Option, none, some, String, ltb, leb}
use frontend_router_mcp.Logging.{
  Maps, Logger, LogEntry, Site, Writes, create_entry, debug_level, info_level, warn_level,
  error_level, fatal_level,
}

module _ {V : Type 0} (marshal : LogEntry V → Option String) where
  unfoldable pub write_entry : Logger → LogEntry V → Writes
  write_entry l entry = elim (marshal entry) [
    | some data_ ↦ (l.output, data_) ∷ (l.output, "\n") ∷ []
    | none ↦
        (
          l.output,
          text_append "[" (
              text_append entry.timestamp (
                text_append "] "
                  (text_append entry.level (text_append ": " (text_append entry.message "\n"))))),
        )
        ∷ []
  ]

  -- The entry of `log`, with the error that it is given.
  failed_entry : LogEntry V → ℕ → Site → Option String → LogEntry V
  failed_entry entry level site none = entry
  failed_entry entry level site (some err) =
      if leb error_level level
      then record entry { error = err; stack = site.stack }
      else record entry { error = err }

  unfoldable pub log : Maps V → Logger → ℕ → String → Option String → Site → Writes
  unfolding write_entry failed_entry create_entry
  log maps l level message err site =
      if ltb level l.level
      then []
      else write_entry l (failed_entry (create_entry maps l level message site) level site err)

  unfoldable pub debug : Maps V → Logger → String → Site → Writes
  unfolding log
  debug maps l message site = log maps l debug_level message none site

  unfoldable pub info : Maps V → Logger → String → Site → Writes
  unfolding log
  info maps l message site = log maps l info_level message none site

  unfoldable pub warn : Maps V → Logger → String → Site → Writes
  unfolding log
  warn maps l message site = log maps l warn_level message none site

  unfoldable pub error : Maps V → Logger → String → Site → Writes
  unfolding log
  error maps l message site = log maps l error_level message none site

  -- What is written before the process exits, and its exit code.
  unfoldable pub fatal : Maps V → Logger → String → Site → Writes × ℕ
  unfolding log
  fatal maps l message site = (log maps l fatal_level message none site, 1)

  unfoldable pub log_http :
      Maps V → Logger → String → String → String → String → ℕ → ℕ → Site → Writes
  unfolding write_entry create_entry
  log_http maps l method path user_agent client_ip status_code duration site =
      write_entry l (record (create_entry maps l info_level "HTTP request processed" site) {
        http_method = method;
        http_path = path;
        http_user_agent = user_agent;
        client_ip = client_ip;
        status_code = some status_code;
        duration = some duration;
      })

  unfoldable pub log_operation : Maps V → Logger → String → ℕ → Option String → Site → Writes
  unfolding write_entry create_entry
  log_operation maps l operation duration none site =
      write_entry l
        (record (create_entry maps l info_level
          (text_append "Operation " (text_append operation " completed")) site) {
            operation = operation;
            duration = some duration;
          })
  log_operation maps l operation duration (some err) site =
      write_entry l
        (record (create_entry maps l error_level
          (text_append "Operation " (text_append operation (text_append " failed: " err))) site) {
            operation = operation;
            duration = some duration;
            error = err;
          })
