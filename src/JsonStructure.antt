-- ===== src/JsonStructure.antt =====
-- `isValidJSONStructure` of internal/validation/request_validation.go: one pass over the bytes of a
-- body, which counts the braces and brackets outside of strings.
pub mod Balance
pub mod Printed
use frontend_router_mcp.Base.{
  ℕ, zero, suc, ◌+◌, ◌-◌, Bool, true, false, not, ◌&&◌, if◌then◌else◌, ◌==◌, List, [], ◌∷◌, Option,
  none, some,
}

abbrev pub quote : ℕ
quote = 34

abbrev pub backslash : ℕ
backslash = 92

abbrev pub open_brace : ℕ
open_brace = 123

abbrev pub close_brace : ℕ
close_brace = 125

abbrev pub open_bracket : ℕ
open_bracket = 91

abbrev pub close_bracket : ℕ
close_bracket = 93

pub record Scan : Type 0 where
  pub brace_count : ℕ
  pub bracket_count : ℕ
  pub in_string : Bool
  pub escaped : Bool

abbrev pub start : Scan
start = record { brace_count = 0; bracket_count = 0; in_string = false; escaped = false }

close_brace_at : Scan → ℕ → Option Scan
close_brace_at s zero = none
close_brace_at s (suc n) = some (record s { brace_count = n })

close_bracket_at : Scan → ℕ → Option Scan
close_bracket_at s zero = none
close_bracket_at s (suc n) = some (record s { bracket_count = n })

-- One round of the loop; `none` where a count falls below 0 and the function returns false.
unfoldable pub scan_byte : Scan → ℕ → Option Scan
unfolding close_brace_at close_bracket_at
scan_byte s b =
    if s.escaped
    then some (record s { escaped = false })
    else if b == backslash
    then some (if s.in_string then record s { escaped = true } else s)
    else if b == quote
    then some (record s { in_string = not s.in_string })
    else if b == open_brace
    then some (if s.in_string then s else record s { brace_count = s.brace_count + 1 })
    else if b == close_brace
    then (if s.in_string then some s else close_brace_at s s.brace_count)
    else if b == open_bracket
    then some (if s.in_string then s else record s { bracket_count = s.bracket_count + 1 })
    else if b == close_bracket
    then (if s.in_string then some s else close_bracket_at s s.bracket_count)
    else some s

unfoldable pub scan_from : Scan → List ℕ → Bool
scan_from s [] = s.brace_count == 0 && s.bracket_count == 0
scan_from s (b ∷ bs) = elim (scan_byte s b) [ some s' ↦ scan_from s' bs | none ↦ false ]

unfoldable pub is_valid_json_structure : List ℕ → Bool
unfolding scan_from
is_valid_json_structure bytes = scan_from start bytes
