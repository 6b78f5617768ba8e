-- ===== src/Messaging/Ids.antt =====
-- The strings of `RandString` in pkg/messaging/message.go.
use frontend_router_mcp.Base.{ℕ, zero, suc, ◌+◌, ◌%◌, ◌≡◌, refl, get_elem?, replicate}
use frontend_router_mcp.Messaging.{letters, letter_at, rand_string, rand_string_from}

-- Two strings are equal whenever the clock shows the same remainders modulo 62 at their reads; so
-- the strings are no more distinct than the clock is.
same_from :
    (clock other : ℕ → ℕ) (i n : ℕ)
    → ((k : ℕ) → clock k % 62 ≡ other k % 62)
    → rand_string_from clock i n ≡ rand_string_from other i n
unfolding rand_string_from
same_from clock other i zero h = refl
same_from clock other i (suc n) h = rw (h i) (rw (same_from clock other (i + 1) n h))

frozen_from :
    (clock : ℕ → ℕ) (t i n : ℕ)
    → ((k : ℕ) → clock k ≡ t)
    → rand_string_from clock i n ≡ replicate n (letter_at (get_elem? letters (t % 62)))
unfolding rand_string_from
frozen_from clock t i zero h = refl
frozen_from clock t i (suc n) h = rw (h i) (rw (frozen_from clock t (i + 1) n h))

-- While the clock does not advance between its reads, `RandString` repeats one letter, so there are
-- 62 possible ids only; and any two calls at times that agree modulo 62 return the same id.
pub rand_string_frozen :
    (n t u : ℕ) (clock other : ℕ → ℕ)
    → ((k : ℕ) → clock k ≡ t)
    → ((k : ℕ) → other k ≡ u)
    → t % 62 ≡ u % 62
    → (rand_string n clock ≡ replicate n (letter_at (get_elem? letters (t % 62))))
      × (rand_string n clock ≡ rand_string n other)
unfolding rand_string
rand_string_frozen n t u clock other h g e =
    (frozen_from clock t 0 n h, same_from clock other 0 n (λ k. rw (h k, g k) e))
