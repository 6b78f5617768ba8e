-- ===== src/JsonStructure/Printed.antt =====
-- JSON values and their texts, for `isValidJSONStructure`. A character is a byte; the printer escapes
-- quotes and backslashes.
use frontend_router_mcp.Base.{
  ℕ, ◌+◌, ◌%◌, ◌<◌, ◌≡◌, refl, ◌∙◌, arith, Bool, true, false, if◌then◌else◌, ◌==◌, List, [], ◌∷◌,
  inl, ◌⊎◌, ◌||◌,
}
use frontend_router_mcp.JsonStructure.{
  Scan, scan_byte, scan_from, is_valid_json_structure, quote, backslash, open_brace, close_brace,
  open_bracket, close_bracket,
}

mutual
  pub data Json : Type 0 where
    null : Json
    boolean : Bool → Json
    number : List ℕ → Json
    text : List ℕ → Json
    array : Items → Json
    object : Members → Json

  pub data Items : Type 0 where
    no_items : Items
    item : Json → Items → Items

  pub data Members : Type 0 where
    no_members : Members
    member : List ℕ → Json → Members → Members

abbrev comma : ℕ
comma = 44

abbrev colon : ℕ
colon = 58

-- Each printer puts its bytes before those that follow.
digits_to : List ℕ → List ℕ → List ℕ
digits_to [] rest = rest
digits_to (d ∷ ds) rest = (48 + d % 10) ∷ digits_to ds rest

escape_to : List ℕ → List ℕ → List ℕ
escape_to [] rest = rest
escape_to (c ∷ cs) rest =
    let after = escape_to cs rest in
    if c == quote || c == backslash then backslash ∷ c ∷ after else c ∷ after

text_to : List ℕ → List ℕ → List ℕ
text_to cs rest = quote ∷ escape_to cs (quote ∷ rest)

abbrev word_to : Bool → List ℕ → List ℕ
word_to true rest = b't' ∷ b'r' ∷ b'u' ∷ b'e' ∷ rest
word_to false rest = b'f' ∷ b'a' ∷ b'l' ∷ b's' ∷ b'e' ∷ rest

mutual
  pub print_to : Json → List ℕ → List ℕ
  print_to null rest = b'n' ∷ b'u' ∷ b'l' ∷ b'l' ∷ rest
  print_to (boolean b) rest = word_to b rest
  print_to (number ds) rest = digits_to ds rest
  print_to (text cs) rest = text_to cs rest
  print_to (array xs) rest = open_bracket ∷ items_to xs (close_bracket ∷ rest)
  print_to (object ms) rest = open_brace ∷ members_to ms (close_brace ∷ rest)

  pub items_to : Items → List ℕ → List ℕ
  items_to no_items rest = rest
  items_to (item x no_items) rest = print_to x rest
  items_to (item x (item y ys)) rest = print_to x (comma ∷ items_to (item y ys) rest)

  pub members_to : Members → List ℕ → List ℕ
  members_to no_members rest = rest
  members_to (member k x no_members) rest = text_to k (colon ∷ print_to x rest)
  members_to (member k x (member j y ys)) rest =
      text_to k (colon ∷ print_to x (comma ∷ members_to (member j y ys) rest))

-- The state outside of strings with the given counts.
abbrev at : ℕ → ℕ → Scan
at n m = record { brace_count = n; bracket_count = m; in_string = false; escaped = false }

abbrev inside : ℕ → ℕ → Scan
inside n m = record { brace_count = n; bracket_count = m; in_string = true; escaped = false }

skip_plain :
    (n m b : ℕ) (rest : List ℕ)
    → ((quote < b) × (b < open_bracket)) ⊎ ((close_bracket < b) × (b < open_brace))
    → scan_from (at n m) (b ∷ rest) ≡ scan_from (at n m) rest
unfolding scan_from scan_byte
skip_plain n m b rest h = ground arith

skip_digits :
    (n m : ℕ) (ds rest : List ℕ) → scan_from (at n m) (digits_to ds rest) ≡ scan_from (at n m) rest
unfolding digits_to
skip_digits n m [] rest = refl
skip_digits n m (d ∷ ds) rest =
    skip_plain n m (48 + d % 10) (digits_to ds rest) (inl (omega arith, omega arith))
    ∙ skip_digits n m ds rest

skip_escaped :
    (n m : ℕ) (cs rest : List ℕ)
    → scan_from (inside n m) (escape_to cs rest) ≡ scan_from (inside n m) rest
unfolding escape_to scan_from scan_byte
skip_escaped n m [] rest = refl
skip_escaped n m (c ∷ cs) rest = ground (arith, skip_escaped n m cs rest)

skip_text :
    (n m : ℕ) (cs rest : List ℕ) → scan_from (at n m) (text_to cs rest) ≡ scan_from (at n m) rest
unfolding text_to scan_from scan_byte
skip_text n m cs rest = skip_escaped n m cs (quote ∷ rest)

skip_word :
    (n m : ℕ) (b : Bool) (rest : List ℕ)
    → scan_from (at n m) (word_to b rest) ≡ scan_from (at n m) rest
unfolding scan_from scan_byte
skip_word n m true rest = refl
skip_word n m false rest = refl

-- The closing byte takes back what the opening one has counted.
skip_close_bracket :
    (n m : ℕ) (rest : List ℕ)
    → scan_from (at n (m + 1)) (close_bracket ∷ rest) ≡ scan_from (at n m) rest
unfolding scan_from scan_byte
skip_close_bracket n m rest = ground arith

skip_close_brace :
    (n m : ℕ) (rest : List ℕ)
    → scan_from (at (n + 1) m) (close_brace ∷ rest) ≡ scan_from (at n m) rest
unfolding scan_from scan_byte
skip_close_brace n m rest = ground arith

skip_comma : (n m : ℕ) (rest : List ℕ) → scan_from (at n m) (comma ∷ rest) ≡ scan_from (at n m) rest
skip_comma n m rest = skip_plain n m comma rest (inl (omega arith, omega arith))

skip_colon : (n m : ℕ) (rest : List ℕ) → scan_from (at n m) (colon ∷ rest) ≡ scan_from (at n m) rest
skip_colon n m rest = skip_plain n m colon rest (inl (omega arith, omega arith))

mutual
  unfolding print_to items_to members_to scan_from scan_byte

  skip_json :
      (n m : ℕ) (x : Json) (rest : List ℕ)
      → scan_from (at n m) (print_to x rest) ≡ scan_from (at n m) rest
  skip_json n m null rest = refl
  skip_json n m (boolean b) rest = skip_word n m b rest
  skip_json n m (number ds) rest = skip_digits n m ds rest
  skip_json n m (text cs) rest = skip_text n m cs rest
  skip_json n m (array xs) rest =
      skip_items n (m + 1) xs (close_bracket ∷ rest) ∙ skip_close_bracket n m rest
  skip_json n m (object ms) rest =
      skip_members (n + 1) m ms (close_brace ∷ rest) ∙ skip_close_brace n m rest

  skip_items :
      (n m : ℕ) (xs : Items) (rest : List ℕ)
      → scan_from (at n m) (items_to xs rest) ≡ scan_from (at n m) rest
  skip_items n m no_items rest = refl
  skip_items n m (item x no_items) rest = skip_json n m x rest
  skip_items n m (item x (item y ys)) rest =
      skip_json n m x (comma ∷ items_to (item y ys) rest)
      ∙ skip_comma n m (items_to (item y ys) rest)
      ∙ skip_items n m (item y ys) rest

  skip_members :
      (n m : ℕ) (ms : Members) (rest : List ℕ)
      → scan_from (at n m) (members_to ms rest) ≡ scan_from (at n m) rest
  skip_members n m no_members rest = refl
  skip_members n m (member k x no_members) rest =
      skip_text n m k (colon ∷ print_to x rest)
      ∙ skip_colon n m (print_to x rest)
      ∙ skip_json n m x rest
  skip_members n m (member k x (member j y ys)) rest =
      skip_text n m k (colon ∷ print_to x (comma ∷ members_to (member j y ys) rest))
      ∙ skip_colon n m (print_to x (comma ∷ members_to (member j y ys) rest))
      ∙ skip_json n m x (comma ∷ members_to (member j y ys) rest)
      ∙ skip_comma n m (members_to (member j y ys) rest)
      ∙ skip_members n m (member j y ys) rest

-- The text of every JSON value passes, however deep it is and whatever braces, brackets, quotes and
-- backslashes its strings hold.
pub is_valid_json_structure-print_to : (x : Json) → is_valid_json_structure (print_to x []) ≡ true
unfolding is_valid_json_structure
is_valid_json_structure-print_to x = skip_json 0 0 x [] ∙ unfold scan_from in refl
