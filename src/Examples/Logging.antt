-- ===== src/Examples/Logging.antt =====
-- Loggers at concrete inputs: the values of fields are texts.
use frontend_router_mcp.Base.{
  ℕ, ◌≡◌, ◌≢◌, ◌<◌, ◌↔◌, refl, List, [], ◌∷◌, Option, none, some, String, get_elem?,
}
use frontend_router_mcp.Logging.{
  Config, Maps, Logger, LogEntry, Site, stdout, new_logger, create_entry,
}
use frontend_router_mcp.Logging.Calls.{log, log_http, log_operation, write_entry}
use frontend_router_mcp.Logging.Accounts.{
  Op, no_loggers, makes, derives, sets_level, request_is, field_is, error_is, Account, run,
}
use frontend_router_mcp.Logging.Accounts.Shown.{Shows, entries-shown}

abbrev as_text : String → String
as_text s = s

abbrev message_only : LogEntry String → Option String
message_only entry = some entry.message

abbrev quiet : Config
quiet = record { service = "router"; component = "hub"; level = 2; output = none }

abbrev here : Site
here = record { now = "12:00"; caller = "hub.go:7"; stack = "" }

-- A logger, one with a request, one of that with a user, then a lower level for the first, and an error
-- on the second.
abbrev calls : List (Op String)
calls =
    makes quiet
    ∷ derives 0 (request_is "r1")
    ∷ derives 1 (field_is "user" "ann")
    ∷ sets_level 0 0
    ∷ derives 1 (error_is (some "closed"))
    ∷ []

abbrev with_user : Account String
with_user = record {
  root = quiet;
  changes = field_is "user" "ann" ∷ request_is "r1" ∷ [];
  level = 2;
}

abbrev maps : Maps String
maps = (run as_text no_loggers calls).maps

entries-shown_example :
    (l : Logger) × (get_elem? (run as_text no_loggers calls).loggers 2 ≡ some l)
    × Shows as_text (create_entry maps l 1 "hello" here) with_user
    × ((log message_only maps l 1 "hello" none here ≡ []) ↔ (1 < 2))
    × ((method path user_agent client_ip : String) (status_code duration : ℕ)
        → log_http message_only maps l method path user_agent client_ip status_code duration here
          ≢ [])
    × ((operation : String) (duration : ℕ) (err : Option String)
        → log_operation message_only maps l operation duration err here ≢ [])
entries-shown_example =
    entries-shown as_text message_only calls 2 with_user 1 "hello" here
      (tt, (tt, (tt, (tt, (tt, tt))))) refl

-- A request is logged by a logger whose level is above that of the entry.
log_http_unfiltered :
    log_http message_only []
      (new_logger {V = String} [] quiet).1
      "GET"
      "/health"
      "curl"
      "10.0.0.1"
      200
      5
      here
    ≡ (stdout, "HTTP request processed") ∷ (stdout, "\n") ∷ []
unfolding log_http write_entry new_logger create_entry
log_http_unfiltered = refl
