-- ===== src/Examples/JsonStructure.antt =====
-- Bodies at concrete inputs.
use frontend_router_mcp.Base.{ℕ, ◌≡◌, ◌↔◌, true, false, List, [], ◌∷◌}
use frontend_router_mcp.JsonStructure.{
  is_valid_json_structure, quote, backslash, open_brace, close_brace, open_bracket, close_bracket,
}
use frontend_router_mcp.JsonStructure.Balance.{Balanced, outside, is_valid_json_structure_iff}
use frontend_router_mcp.JsonStructure.Printed.{
  Json, number, text, array, object, no_items, item, no_members, member,
}

-- {"}\"":[1]}
abbrev braces : List ℕ
braces =
    open_brace ∷ quote ∷ close_brace ∷ backslash ∷ quote ∷ quote ∷ 58 ∷ open_bracket ∷ 49
    ∷ close_bracket ∷ close_brace ∷ []

is_valid_json_structure_iff_example : (is_valid_json_structure braces ≡ true) ↔ (
    Balanced open_brace close_brace 0 (outside false false braces)
    × Balanced open_bracket close_bracket 0 (outside false false braces))
is_valid_json_structure_iff_example = is_valid_json_structure_iff braces

abbrev question : Json
question = object (
    member (97 ∷ close_brace ∷ quote ∷ []) (array (item (number (1 ∷ 2 ∷ [])) no_items))
      (member (98 ∷ []) (text (open_bracket ∷ backslash ∷ [])) no_members))
