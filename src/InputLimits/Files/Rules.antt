-- ===== src/InputLimits/Files/Rules.antt =====
-- Which values a custom rule of internal/validation/input_limits.go accepts.
use Prim.Native.String.{len}
use frontend_router_mcp.Base.{
  ◌≤◌, ◌≡◌, ◌≢◌, ◌↔◌, ◌⊎◌, inl, inr, arith, true, [], Option, none, some, String, eq_iff, lookup,
  Option-cases,
}
use frontend_router_mcp.Requests.Checks.{OneOf}
use frontend_router_mcp.InputLimits.{InputLimitsConfig, InputRule}
use frontend_router_mcp.InputLimits.Files.{validate_pattern, validate_rule, validate_custom_rule}
use frontend_router_mcp.InputLimits.Files.Accepted.{is_allowed_iff}

abbrev IsMet : Option InputRule → String → Type 0
IsMet none value = ⊥
IsMet (some rule) value =
    (rule.required ≡ true → value ≢ "")
    × (rule.min_length ≤ len value)
    × (len value ≤ rule.max_length)
    × ((rule.pattern ≡ "") ⊎ (value ≢ ""))
    × ((rule.allowed_values ≡ []) ⊎ OneOf rule.allowed_values value)

validate_rule_iff :
    (rule : InputRule) (value : String)
    → (validate_rule rule value ≡ none) ↔ IsMet (some rule) value
unfolding validate_rule validate_pattern
validate_rule_iff rule value =
    ground
      (arith, eq_iff value "", eq_iff rule.pattern "", is_allowed_iff rule.allowed_values value)

-- A value meets a custom rule exactly if the rule exists, the value has a length within the bounds of
-- the rule, is not empty where the rule is required or names a pattern, and is one of the allowed
-- values, if any are given. What the pattern says has no part in it, and a rule that is not required
-- still refuses the empty value, if its minimal length is not 0.
validate_custom_rule_iff :
    (config : InputLimitsConfig) (value rule_name : String)
    → (validate_custom_rule config value rule_name ≡ none)
      ↔ IsMet (lookup rule_name config.custom_rules) value
unfolding validate_custom_rule
validate_custom_rule_iff config value rule_name =
    elim (Option-cases (lookup rule_name config.custom_rules)) [
      | inl e ↦ rw (e, validate_custom_rule) (ground arith)
      | inr (rule, e) ↦ rw (e, validate_custom_rule) (validate_rule_iff rule value)
    ]
