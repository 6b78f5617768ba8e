-- ===== src/Sanitizer/Json.antt =====
-- `escapeJSONDangerousChars` of internal/validation/sanitization.go: five replacements, one after
-- the other, against the escapes of JSON.
use frontend_router_mcp.Base.{
  ℕ, ◌≡◌, refl, arith, Bool, true, false, not, ◌&&◌, ◌||◌, ◌==◌, ltb, if◌then◌else◌, List, [], ◌∷◌,
  ◌++◌, Option, none, some,
}
use frontend_router_mcp.Sanitizer.{escape_json_dangerous_chars}

abbrev escape_char : ℕ → List ℕ
escape_char b =
    if b == 92
    then 92 ∷ 92 ∷ []
    else if b == 34
    then 92 ∷ 34 ∷ []
    else if b == 10
    then 92 ∷ b'n' ∷ []
    else if b == 13
    then 92 ∷ b'r' ∷ []
    else if b == 9
    then 92 ∷ b't' ∷ []
    else b ∷ []

escape_cons :
    (b : ℕ) (s : List ℕ)
    → escape_json_dangerous_chars (b ∷ s) ≡ escape_char b ++ escape_json_dangerous_chars s
unfolding escape_json_dangerous_chars
escape_cons b s = ground arith

abbrev pub cons_to : ℕ → Option (List ℕ) → Option (List ℕ)
cons_to b none = none
cons_to b (some s) = some (b ∷ s)

-- What stands for a letter after a backslash.
abbrev pub unescaped : ℕ → Option ℕ
unescaped b =
    if b == 92
    then some 92
    else if b == 34
    then some 34
    else if b == b'n'
    then some 10
    else if b == b'r'
    then some 13
    else if b == b't'
    then some 9
    else none

abbrev pub cons_option : Option ℕ → Option (List ℕ) → Option (List ℕ)
cons_option none s = none
cons_option (some b) s = cons_to b s

-- Reads the inside of a JSON string; the Boolean says that a backslash stands before. A quote or a
-- control character may not stand there by itself.
pub read_string : Bool → List ℕ → Option (List ℕ)
read_string true [] = none
read_string false [] = some []
read_string true (b ∷ s) = cons_option (unescaped b) (read_string false s)
read_string false (b ∷ s) =
    let escaped = read_string true s in
    let next = cons_to b (read_string false s) in
    if b == 92 then escaped else if b == 34 || ltb b 32 then none else next

-- Whether a control character other than a tabulator, a line feed or a carriage return occurs.
abbrev pub has_control : List ℕ → Bool
has_control [] = false
has_control (b ∷ s) = (ltb b 32 && not (b == 9) && not (b == 10) && not (b == 13)) || has_control s

read_cons :
    (b : ℕ) (s : List ℕ)
    → read_string false (escape_char b ++ s) ≡ (
        if ltb b 32 && not (b == 9) && not (b == 10) && not (b == 13)
        then none
        else cons_to b (read_string false s))
unfolding read_string
read_cons b s = ground arith

join_tests :
    (x y : Bool) (b : ℕ) (s : List ℕ)
    → (if x then none else cons_to b (if y then none else some s))
      ≡ (if x || y then none else some (b ∷ s))
join_tests true y b s = refl
join_tests false true b s = refl
join_tests false false b s = refl

read_nil : read_string false (escape_json_dangerous_chars []) ≡ some []
unfolding read_string escape_json_dangerous_chars
read_nil = refl

-- A JSON string reads an escaped text back exactly if the text holds no control character but a line
-- feed, a carriage return and a tab: the others are not escaped, and a JSON string with one is refused.
pub read_string-escape_json_dangerous_chars :
    (s : List ℕ)
    → read_string false (escape_json_dangerous_chars s) ≡ (if has_control s then none else some s)
read_string-escape_json_dangerous_chars [] = read_nil
read_string-escape_json_dangerous_chars (b ∷ s) =
    rw
      (
        escape_cons b s,
        read_cons b (escape_json_dangerous_chars s),
        read_string-escape_json_dangerous_chars s,
      )
      (join_tests (ltb b 32 && not (b == 9) && not (b == 10) && not (b == 13)) (has_control s) b s)
