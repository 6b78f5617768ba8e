-- ===== src/Logging.antt =====
-- internal/logging/logger.go. A level is a number, as in Go, but none below 0. The value of a field is of
-- a type that is an argument, with the way a text becomes one. json.Marshal is an argument, and so are
-- the time as the clock shows it, the caller and the stack, the identifiers of google/uuid and the texts
-- of errors and durations. The formatted calls get their text made, and contexts are not modelled.
pub mod Calls
pub mod Spans
pub mod Accounts
use Prim.Native.String.{◌++◌ as text_append}
use frontend_router_mcp.Base.{
  ℕ, if◌then◌else◌, List, [], ◌∷◌, Option, none, some, String, ◌==◌, ltb, leb, Dict, insert, ◌++◌,
  get_elem?, set, length,
}

abbrev pub debug_level : ℕ
debug_level = 0

abbrev pub info_level : ℕ
info_level = 1

abbrev pub warn_level : ℕ
warn_level = 2

abbrev pub error_level : ℕ
error_level = 3

abbrev pub fatal_level : ℕ
fatal_level = 4

-- `LogLevel.String`
level_string : ℕ → String
level_string level =
    if level == debug_level
    then "DEBUG"
    else if level == info_level
    then "INFO"
    else if level == warn_level
    then "WARN"
    else if level == error_level
    then "ERROR"
    else if level == fatal_level
    then "FATAL"
    else "UNKNOWN"

pub data Writer : Type 0 where
  stdout : Writer
  opened : ℕ → Writer

pub record Config : Type 0 where
  pub service : String
  pub component : String
  pub level : ℕ
  pub output : Option Writer

-- The map of the fields is a place in memory.
pub record Logger : Type 0 where
  pub service : String
  pub component : String
  pub level : ℕ
  pub output : Writer
  pub request_id : String
  pub trace_id : String
  pub span_id : String
  pub user_id : String
  pub fields : ℕ

-- The optional fields are Go's pointers, and its map that may be nil.
pub record LogEntry (V : Type 0) : Type 0 where
  pub timestamp : String
  pub level : String
  pub message : String
  pub request_id : String
  pub trace_id : String
  pub span_id : String
  pub user_id : String
  pub service : String
  pub component : String
  pub operation : String
  pub duration : Option ℕ
  pub status_code : Option ℕ
  pub error : String
  pub stack : String
  pub fields : Option (Dict V)
  pub caller : String
  pub http_method : String
  pub http_path : String
  pub http_user_agent : String
  pub client_ip : String

-- What the runtime tells of a call.
pub record Site : Type 0 where
  pub now : String
  pub caller : String
  pub stack : String

-- The pieces of text that are written, each with its writer.
abbrev pub Writes : Type 0
Writes = List (Writer × String)

or_stdout : Option Writer → Writer
or_stdout none = stdout
or_stdout (some w) = w

-- The maps of fields that were made so far.
abbrev pub Maps : Type 0 → Type 0
Maps V = List (Dict V)

module _ {V : Type 0} where
  abbrev pub map_at : Maps V → ℕ → Dict V
  map_at maps r = elim (get_elem? maps r) [ some m ↦ m | none ↦ [] ]

  -- `fields[key] = value`
  unfoldable pub set_field : Maps V → ℕ → String → V → Maps V
  set_field maps r key value = set maps r (insert key value (map_at maps r))

  -- `for k, v := range m { fields[k] = v }`
  unfoldable pub set_fields : Dict V → ℕ → Maps V → Maps V
  unfolding set_field
  set_fields [] r maps = maps
  set_fields ((k, v) ∷ m) r maps = set_fields m r (set_field maps r k v)

  unfoldable pub new_logger : Maps V → Config → Maps V × Logger
  unfolding or_stdout
  new_logger maps config = (
    maps ++ [] ∷ [],
    record {
      service = config.service;
      component = config.component;
      level = config.level;
      output = or_stdout config.output;
      request_id = "";
      trace_id = "";
      span_id = "";
      user_id = "";
      fields = length maps;
    },
  )

  -- A map is made, and filled from that of the logger.
  unfoldable pub clone : Maps V → Logger → Maps V × Logger
  unfolding set_fields
  clone maps l = (
    set_fields (map_at maps l.fields) (length maps) (maps ++ [] ∷ []),
    record l { fields = length maps },
  )

  unfoldable pub with_request_id : Maps V → Logger → String → Maps V × Logger
  unfolding clone
  with_request_id maps l request_id =
      let (maps', c) = clone maps l in (maps', record c { request_id = request_id })

  unfoldable pub with_trace_id : Maps V → Logger → String → Maps V × Logger
  unfolding clone
  with_trace_id maps l trace_id =
      let (maps', c) = clone maps l in (maps', record c { trace_id = trace_id })

  unfoldable pub with_span_id : Maps V → Logger → String → Maps V × Logger
  unfolding clone
  with_span_id maps l span_id =
      let (maps', c) = clone maps l in (maps', record c { span_id = span_id })

  unfoldable pub with_user_id : Maps V → Logger → String → Maps V × Logger
  unfolding clone
  with_user_id maps l user_id =
      let (maps', c) = clone maps l in (maps', record c { user_id = user_id })

  unfoldable pub with_component : Maps V → Logger → String → Maps V × Logger
  unfolding clone
  with_component maps l component =
      let (maps', c) = clone maps l in (maps', record c { component = component })

  unfoldable pub with_field : Maps V → Logger → String → V → Maps V × Logger
  unfolding clone set_field
  with_field maps l key value =
      let (maps', c) = clone maps l in (set_field maps' c.fields key value, c)

  unfoldable pub with_fields : Maps V → Logger → Dict V → Maps V × Logger
  unfolding clone set_fields
  with_fields maps l m = let (maps', c) = clone maps l in (set_fields m c.fields maps', c)

  unfoldable pub with_error : (String → V) → Maps V → Logger → Option String → Maps V × Logger
  unfolding clone set_field
  with_error text maps l none = clone maps l
  with_error text maps l (some err) =
      let (maps', c) = clone maps l in (set_field maps' c.fields "error" (text err), c)

-- `SetLogLevel`
unfoldable pub set_log_level : Logger → ℕ → Logger
set_log_level l level = record l { level = level }

module _ {V : Type 0} where
  -- `for k, v := range m { entry.Fields[k] = v }`, of a map that nothing else refers to.
  unfoldable pub filled : Dict V → Dict V → Dict V
  filled [] fields = fields
  filled ((k, v) ∷ m) fields = filled m (insert k v fields)

  pub copied_fields : Dict V → Option (Dict V)
  unfolding filled
  copied_fields [] = none
  copied_fields (kv ∷ m) = some (filled (kv ∷ m) [])

  unfoldable pub create_entry : Maps V → Logger → ℕ → String → Site → LogEntry V
  unfolding level_string copied_fields
  create_entry maps l level message site = record {
    timestamp = site.now;
    level = level_string level;
    message = message;
    request_id = l.request_id;
    trace_id = l.trace_id;
    span_id = l.span_id;
    user_id = l.user_id;
    service = l.service;
    component = l.component;
    operation = "";
    duration = none;
    status_code = none;
    error = "";
    stack = "";
    fields = copied_fields (map_at maps l.fields);
    caller = site.caller;
    http_method = "";
    http_path = "";
    http_user_agent = "";
    client_ip = "";
  }
