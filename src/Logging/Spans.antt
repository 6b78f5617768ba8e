-- ===== src/Logging/Spans.antt =====
-- `StartSpan` and `FinishSpan` of internal/logging/logger.go. The new identifiers and the text of the
-- duration are arguments.
use Prim.Native.String.{◌++◌ as text_append}
use frontend_router_mcp.Base.{if◌then◌else◌, Option, none, some, String, str_eq}
use frontend_router_mcp.Logging.{
  Maps, Logger, LogEntry, Site, Writes, with_trace_id, with_span_id, with_field, with_error,
}
use frontend_router_mcp.Logging.Calls.{info, error}

module _ {V : Type 0} (marshal : LogEntry V → Option String) (text : String → V) where
  -- The logger of the span, and what is written.
  unfoldable pub start_span :
      Maps V → Logger → String → String → String → Site → (Maps V × Logger) × Writes
  start_span maps l operation new_span new_trace site =
      let trace_id = if str_eq l.trace_id "" then new_trace else l.trace_id in
      let (maps1, traced) = with_trace_id maps l trace_id in
      let (maps2, spanned) = with_span_id maps1 traced new_span in
      let (maps3, span) = with_field maps2 spanned "operation" (text operation) in
      ((maps3, span), info marshal maps3 span (text_append "Starting span: " operation) site)

  unfoldable pub finish_span :
      Maps V → Logger → String → String → Option String → Site → Maps V × Writes
  finish_span maps l operation duration none site = (
    maps,
    info marshal maps l
        (text_append "Span " (text_append operation (text_append " completed in " duration))) site,
  )
  finish_span maps l operation duration (some err) site =
      let (maps', failed) = with_error text maps l (some err) in
      (
        maps',
        error marshal maps' failed
            (text_append "Span " (text_append operation (text_append " failed after " duration)))
            site,
      )
