-- ===== src/Examples/InputLimits.antt =====
-- Input limits at concrete inputs.
use frontend_router_mcp.Base.{
  ℕ, ◌≡◌, ◌↔◌, arith, List, [], ◌∷◌, true, false, refl, String, none, some, lookup,
}
use frontend_router_mcp.Channel.{done, panic}
use frontend_router_mcp.Requests.{is_one_of}
use frontend_router_mcp.InputLimits.{InputLimitsConfig}
use frontend_router_mcp.InputLimits.Files.{
  MediaTypes, too_short, or_check, check_lists, is_allowed, extension_of, validate_file_type,
  validate_pattern, validate_custom_rule,
}
use frontend_router_mcp.InputLimits.Files.Accepted.{
  HasNoDot, Splits, IsListed, IsMime, validate_file_type_iff,
}
use frontend_router_mcp.Examples.Requests.{plain}
use frontend_router_mcp.InputLimits.Truncate.{
  is_valid_utf8, truncate_string, IsLongest, truncate_string-IsLongest,
}

-- "hé!", whose second letter has two bytes.
abbrev greeting : List ℕ
greeting = 104 ∷ 195 ∷ 169 ∷ 33 ∷ []

truncate_string-IsLongest_example : (k : ℕ) × IsLongest greeting 2 k (truncate_string greeting 2)
truncate_string-IsLongest_example = truncate_string-IsLongest greeting 2 (omega arith)

letter_not_split : truncate_string greeting 2 ≡ 104 ∷ []
unfolding truncate_string is_valid_utf8
letter_not_split = refl

-- U+FFFD itself, well encoded, counts as invalid.
replacement_invalid : is_valid_utf8 (239 ∷ 191 ∷ 189 ∷ []) ≡ false
unfolding is_valid_utf8
replacement_invalid = refl

abbrev parse_plain : MediaTypes
parse_plain t = some (t, [])

abbrev limits : InputLimitsConfig
limits = record {
  max_string_length = 1000;
  max_text_length = 10000;
  max_question_length = 10000;
  max_answer_length = 50000;
  max_client_id_length = 64;
  max_request_id_length = 128;
  max_reason_length = 500;
  max_version_length = 32;
  max_header_length = 8192;
  max_cookie_length = 4096;
  max_user_agent_length = 512;
  max_referer_length = 2048;
  allowed_content_types = "text/plain" ∷ [];
  allowed_mime_types = "text/plain" ∷ [];
  blocked_content_types = "text/x-script" ∷ [];
  blocked_mime_types = "text/x-script" ∷ [];
  require_content_type = true;
  validate_charset = true;
  allowed_charsets = "utf-8" ∷ [];
  max_file_size = 10485760;
  max_total_file_size = 104857600;
  max_file_count = 10;
  allowed_file_extensions = ".txt" ∷ ".pdf" ∷ [];
  blocked_file_extensions = ".sh" ∷ [];
  custom_rules =
      (
        "username",
        record {
          min_length = 3;
          max_length = 32;
          pattern = "^[a-zA-Z0-9_-]+$";
          allowed_values = [];
          required = false;
        },
      )
      ∷ [];
  strict_mode = true;
  truncate_on_limit = false;
}

validate_file_type_iff_example :
    ((validate_file_type plain parse_plain limits "a.sh.txt" "text/plain" ≡ panic)
      ↔ HasNoDot "a.sh.txt")
    × ((validate_file_type plain parse_plain limits "a.sh.txt" "text/plain" ≡ done none) ↔ (
        (e : String) × Splits "a.sh.txt" e
        × IsListed (".sh" ∷ []) (".txt" ∷ ".pdf" ∷ []) e
        × IsMime parse_plain limits "text/plain"))
validate_file_type_iff_example =
    validate_file_type_iff plain parse_plain limits "a.sh.txt" "text/plain"

files_checked :
    (validate_file_type plain parse_plain limits "README" "" ≡ panic)
    × (validate_file_type plain parse_plain limits "a.sh.txt" "text/plain" ≡ done none)
unfolding validate_file_type extension_of or_check check_lists is_one_of is_allowed
files_checked = (refl, refl)

-- The pattern of a user name does not count, and an optional one must not be left out.
names_checked :
    (validate_custom_rule limits "<script>" "username" ≡ none)
    × (validate_custom_rule limits "" "username" ≡ some too_short)
unfolding validate_custom_rule validate_pattern is_allowed lookup
names_checked = (refl, refl)
