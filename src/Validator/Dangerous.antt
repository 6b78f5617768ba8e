-- ===== src/Validator/Dangerous.antt =====
-- The lists of dangerous content, compared.
use frontend_router_mcp.Base.{true, false, ◌≡◌, ◌↔◌, arith, String}
use frontend_router_mcp.Requests.{Env, contains}
use frontend_router_mcp.Requests.Checks.{contains_any_iff}
use frontend_router_mcp.Validator.{
  dangerous_patterns, script_patterns, all_dangerous_patterns, validate_safe_string,
  validate_no_script, contains_dangerous_content,
}

-- `ContainsDangerousContent` clears a text exactly if the rules safe_string and no_script both accept it
-- and it does not call prompt; neither rule refuses all that the other does.
pub contains_dangerous_content_iff :
    (env : Env) (content : String)
    → (contains_dangerous_content env content ≡ false) ↔ (
        (validate_safe_string env content ≡ true)
        × (validate_no_script env content ≡ true)
        × (contains (env.to_lower content) "prompt(" ≡ false))
unfolding contains_dangerous_content validate_safe_string validate_no_script
contains_dangerous_content_iff env content =
    let lower = env.to_lower content in
    ground (
      arith,
      contains_any_iff lower all_dangerous_patterns,
      contains_any_iff lower dangerous_patterns,
      contains_any_iff lower script_patterns,
    )
