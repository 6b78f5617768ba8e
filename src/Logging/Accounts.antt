-- ===== src/Logging/Accounts.antt =====
-- The loggers of internal/logging/logger.go as places in memory, against an account of each: where it
-- comes from and what was changed on the way. A call that writes an entry changes no logger, and a span
-- is made by three changes. A map that is handed to `WithFields` is not one of a logger.
pub mod Fields
pub mod Kept
pub mod Shown
use frontend_router_mcp.Base.{
  ℕ, zero, suc, ◌≡◌, ◌↔◌, refl, sym, ◌∙◌, arith, List, [], ◌∷◌, ◌++◌, Option, none, some, String,
  Dict, lookup, insert, IsKeyed, lookup-insert, IsKeyed-insert, get_elem?, set, length, str_eq,
  eq_iff, if◌then◌else◌,
}
use frontend_router_mcp.Logging.{
  Config, Maps, Logger, LogEntry, Site, new_logger, set_fields, clone, with_request_id,
  with_trace_id, with_span_id, with_user_id, with_component, with_field, with_fields, with_error,
  set_log_level, create_entry, copied_fields,
}

pub data Change (V : Type 0) : Type 0 where
  request_is trace_is span_is user_is component_is : String → Change V
  field_is : String → V → Change V
  fields_are : Dict V → Change V
  error_is : Option String → Change V

pub data Op (V : Type 0) : Type 0 where
  makes : Config → Op V
  derives : ℕ → Change V → Op V
  sets_level : ℕ → ℕ → Op V

-- The loggers and the maps that were made so far.
pub record Memory (V : Type 0) : Type 0 where
  pub maps : Maps V
  pub loggers : List Logger

abbrev pub added : {V : Type 0} → List Logger → Maps V × Logger → Memory V
added ls (maps, l) = record { maps = maps; loggers = ls ++ l ∷ [] }

abbrev pub no_loggers : {V : Type 0} → Memory V
no_loggers = record { maps = []; loggers = [] }

-- Where a logger comes from, the changes on the way, the last one first, and its level.
pub record Account (V : Type 0) : Type 0 where
  pub root : Config
  pub changes : List (Change V)
  pub level : ℕ

-- The last text that a change has set.
abbrev pub last_set : {V : Type 0} → (Change V → Option String) → String → List (Change V) → String
last_set pick start [] = start
last_set pick start (c ∷ cs) = elim (pick c) [ some s ↦ s | none ↦ last_set pick start cs ]

abbrev pub or_before : {V : Type 0} → Option V → Option V → Option V
or_before (some v) before = some v
or_before none before = before

module _ {V : Type 0} where
  abbrev pub request_of : Change V → Option String
  request_of (request_is s) = some s
  request_of _ = none

  abbrev pub trace_of : Change V → Option String
  trace_of (trace_is s) = some s
  trace_of _ = none

  abbrev pub span_of : Change V → Option String
  span_of (span_is s) = some s
  span_of _ = none

  abbrev pub user_of : Change V → Option String
  user_of (user_is s) = some s
  user_of _ = none

  abbrev pub component_of : Change V → Option String
  component_of (component_is s) = some s
  component_of _ = none

  -- Go's maps hold a key once.
  abbrev pub IsFit : Op V → Type 0
  IsFit (derives r (fields_are m)) = IsKeyed m
  IsFit _ = Unit

  abbrev pub AllFit : List (Op V) → Type 0
  AllFit [] = Unit
  AllFit (o ∷ os) = IsFit o × AllFit os

  -- The entry's field of that name; an entry without a map has none.
  abbrev pub field_of : String → LogEntry V → Option V
  field_of j entry = elim entry.fields [ some m ↦ lookup j m | none ↦ none ]

module _ {V : Type 0} (text : String → V) where
  -- The change of one field, and the field after all changes.
  abbrev pub field_after : String → Change V → Option V → Option V
  field_after j (field_is k v) before = if str_eq k j then some v else before
  field_after j (fields_are m) before = or_before (lookup j m) before
  field_after j (error_is (some err)) before = if str_eq "error" j then some (text err) else before
  field_after j _ before = before

  abbrev pub field_set : String → List (Change V) → Option V
  field_set j [] = none
  field_set j (c ∷ cs) = field_after j c (field_set j cs)

  abbrev pub changed : Maps V → Logger → Change V → Maps V × Logger
  changed maps l (request_is s) = with_request_id maps l s
  changed maps l (trace_is s) = with_trace_id maps l s
  changed maps l (span_is s) = with_span_id maps l s
  changed maps l (user_is s) = with_user_id maps l s
  changed maps l (component_is s) = with_component maps l s
  changed maps l (field_is k v) = with_field maps l k v
  changed maps l (fields_are m) = with_fields maps l m
  changed maps l (error_is err) = with_error text maps l err

  abbrev pub step : Memory V → Op V → Memory V
  step s (makes config) = added s.loggers (new_logger s.maps config)
  step s (derives r c) = elim (get_elem? s.loggers r) [
    | some l ↦ added s.loggers (changed s.maps l c)
    | none ↦ s
  ]
  step s (sets_level r level) = elim (get_elem? s.loggers r) [
    | some l ↦ record s { loggers = set s.loggers r (set_log_level l level) }
    | none ↦ s
  ]

  abbrev pub run : Memory V → List (Op V) → Memory V
  run s [] = s
  run s (o ∷ os) = run (step s o) os

module _ {V : Type 0} where
  -- The accounts.
  abbrev pub book : List (Account V) → Op V → List (Account V)
  book bs (makes config) = bs ++ record { root = config; changes = []; level = config.level } ∷ []
  book bs (derives r c) = elim (get_elem? bs r) [
    | some b ↦ bs ++ record b { changes = c ∷ b.changes } ∷ []
    | none ↦ bs
  ]
  book bs (sets_level r level) = elim (get_elem? bs r) [
    | some b ↦ set bs r (record b { level = level })
    | none ↦ bs
  ]

  abbrev pub accounts : List (Account V) → List (Op V) → List (Account V)
  accounts bs [] = bs
  accounts bs (o ∷ os) = accounts (book bs o) os
