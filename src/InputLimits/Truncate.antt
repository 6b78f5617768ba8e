-- ===== src/InputLimits/Truncate.antt =====
-- `TruncateString` and `isValidUTF8` of internal/validation/input_limits.go. A Go string is the list
-- of its bytes.
use frontend_router_mcp.Base.{
  ℕ, zero, suc, ◌≤◌, ◌<◌, ◌≡◌, arith, refl, sym, subst, ℕ_discrete, Bool, true, false, not, ◌&&◌,
  if◌then◌else◌, List, [], ◌∷◌, ltb, leb, length,
}
use frontend_router_mcp.Requests.Bodies.{take}
use frontend_router_mcp.Utf8.{rune_error, in_range, runes_in}

no_error : List ℕ → Bool
no_error [] = true
no_error (r ∷ rs) = not (in_range rune_error rune_error r) && no_error rs

unfoldable pub is_valid_utf8 : List ℕ → Bool
unfolding runes_in no_error
is_valid_utf8 s = no_error (runes_in (length s) s)

-- `for i := maxLength; i >= 0; i-- { if i == 0 || isValidUTF8(value[:i]) { return value[:i] } }`
unfoldable pub cut : ℕ → List ℕ → List ℕ
cut zero value = []
cut (suc i) value =
    let shorter = cut i value in
    if is_valid_utf8 (take (suc i) value) then take (suc i) value else shorter

unfoldable pub truncate_string : List ℕ → ℕ → List ℕ
unfolding cut
truncate_string value max_length =
    if leb (length value) max_length
    then value
    else if ltb 0 max_length
    then cut max_length value
    else []

-- `s` is the prefix of `k` bytes of `value`; it is valid, and no longer one of up to `n` bytes is.
abbrev pub IsLongest : List ℕ → ℕ → ℕ → List ℕ → Type 0
IsLongest value n k s =
    (s ≡ take k value)
    × ((k ≤ n)
        × ((is_valid_utf8 s ≡ true)
            × ((j : ℕ) → k < j → j ≤ n → is_valid_utf8 (take j value) ≡ false)))

one_more :
    (n k : ℕ) (value : List ℕ)
    → ((j : ℕ) → k < j → j ≤ n → is_valid_utf8 (take j value) ≡ false)
    → is_valid_utf8 (take (suc n) value) ≡ false
    → (j : ℕ) → k < j
    → j ≤ suc n
    → is_valid_utf8 (take j value) ≡ false
one_more n k value none_longer h j p q = elim (ℕ_discrete j (suc n)) [
  | yes same ↦ subst (λ i. is_valid_utf8 (take i value) ≡ false) (sym same) h
  | no other ↦ none_longer j p (omega arith)
]

cut_once :
    (n : ℕ) (value s : List ℕ) (b : Bool)
    → is_valid_utf8 (take (suc n) value) ≡ b
    → ((k : ℕ) × IsLongest value n k s)
    → (k : ℕ) × IsLongest value (suc n) k (if b then take (suc n) value else s)
cut_once n value s true h found = (suc n, (refl, (omega arith, (h, λ j p q. absurd (omega arith)))))
cut_once n value s false h (k, (e, (le, (valid, none_longer)))) =
    (k, (e, (omega arith, (valid, one_more n k value none_longer h))))

cut-IsLongest : (n : ℕ) (value : List ℕ) → (k : ℕ) × IsLongest value n k (cut n value)
unfolding cut is_valid_utf8
cut-IsLongest zero value = (0, (refl, (omega arith, (refl, λ j p q. absurd (omega arith)))))
cut-IsLongest (suc n) value =
    cut_once n value (cut n value) (is_valid_utf8 (take (suc n) value)) refl (cut-IsLongest n value)

truncate_string-cut :
    (value : List ℕ) (max_length : ℕ)
    → max_length < length value
    → truncate_string value max_length ≡ cut max_length value
unfolding truncate_string
truncate_string-cut value zero h = ground arith
truncate_string-cut value (suc n) h = ground arith

-- A string that is longer than `maxLength` is cut to its longest prefix of at most `maxLength` bytes
-- that `isValidUTF8` accepts; this may be the empty one.
pub truncate_string-IsLongest :
    (value : List ℕ) (max_length : ℕ)
    → max_length < length value
    → (k : ℕ) × IsLongest value max_length k (truncate_string value max_length)
truncate_string-IsLongest value max_length h =
    rw (truncate_string-cut value max_length h) (cut-IsLongest max_length value)

-- A string of up to `maxLength` bytes is left as it is, whatever its bytes.
truncate_string_short :
    (value : List ℕ) (max_length : ℕ)
    → length value ≤ max_length
    → truncate_string value max_length ≡ value
unfolding truncate_string
truncate_string_short value max_length h = ground arith
