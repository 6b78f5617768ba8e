-- ===== src/Base/Maps.antt =====
-- Go's `map[string]V` as an association list, in the order in which a `for range` would visit it.
-- A theorem over every list holds for every order of iteration.
use Prim.Native.Nat.{ℕ, suc, ◌+◌, ◌≤◌}
use Prim.Native.String.{String}
use mathlib.Core.Path.{◌≡◌, refl}
use mathlib.Core.Logic.{◌≢◌, ◌⊎◌, inl, inr}
use mathlib.Core.List.{List, [], ◌∷◌}
use mathlib.Core.Option.{Option, none, some}
use native.Mathlib.Omega.{arith}
use text.Mathlib.Text.{◌==◌}
use text.Mathlib.TextEquality.{eq_iff}
use frontend_router_mcp.Base.Tests.{if◌then◌else◌, Bool-cases}
use frontend_router_mcp.Base.Lists.{length}

abbrev pub Dict {ℓ} : Type ℓ → Type ℓ
Dict V = List (String × V)

module _ {ℓ} {V : Type ℓ} where
  unfoldable pub lookup : String → Dict V → Option V
  lookup key [] = none
  lookup key ((k, found) ∷ rest) =
      let later = lookup key rest in if k == key then some found else later

  unfoldable pub insert : String → V → Dict V → Dict V
  insert key value [] = (key, value) ∷ []
  insert key value ((k, old) ∷ rest) =
      let later = insert key value rest in
      if k == key then (key, value) ∷ rest else (k, old) ∷ later

  unfoldable pub delete : String → Dict V → Dict V
  delete k [] = []
  delete k ((j, w) ∷ m) = let rest = delete k m in if j == k then rest else (j, w) ∷ rest

  -- No key occurs twice.
  abbrev pub IsKeyed : Dict V → Type ℓ
  IsKeyed [] = Unit
  IsKeyed ((k, v) ∷ m) = (lookup k m ≡ none) × IsKeyed m

  pub lookup-insert :
      (k j : String) (v : V) (m : Dict V)
      → lookup j (insert k v m) ≡ (if k == j then some v else lookup j m)
  unfolding lookup insert
  lookup-insert k j v [] = refl
  lookup-insert k j v ((i, old) ∷ rest) =
      ground (arith, lookup-insert k j v rest, eq_iff i j, eq_iff i k, eq_iff k j)

  pub lookup-delete :
      (k j : String) (m : Dict V) → lookup j (delete k m) ≡ (if k == j then none else lookup j m)
  unfolding lookup delete
  lookup-delete k j [] = ground arith
  lookup-delete k j ((i, w) ∷ m) =
      ground (arith, eq_iff k j, eq_iff i k, eq_iff i j, lookup-delete k j m)

  pub length-delete-le : (k : String) (m : Dict V) → length (delete k m) ≤ length m
  unfolding delete
  length-delete-le k [] = omega arith
  length-delete-le k ((j, w) ∷ m) = ground (arith, length-delete-le k m)

  -- Inserting under a key that is present keeps the size.
  pub length-insert :
      (k : String) (v : V) (m : Dict V)
      → length (insert k v m) ≡ (elim (lookup k m) [ none ↦ suc (length m) | some _ ↦ length m ])
  unfolding lookup insert
  length-insert k v [] = refl
  length-insert k v ((j, w) ∷ m) = ground (arith, length-insert k v m)

  -- What was found after an insertion or a deletion.
  pub lookup-insert_cases :
      (k j : String) (v w : V) (m : Dict V)
      → lookup j (insert k v m) ≡ some w
      → ((k ≡ j) × (w ≡ v)) ⊎ ((k ≢ j) × (lookup j m ≡ some w))
  lookup-insert_cases k j v w m h = ground (arith, lookup-insert k j v m, eq_iff k j)

  pub lookup-delete_cases :
      (k j : String) (w : V) (m : Dict V)
      → lookup j (delete k m) ≡ some w
      → (k ≢ j) × (lookup j m ≡ some w)
  lookup-delete_cases k j w m h = ground (arith, lookup-delete k j m, eq_iff k j)

  pub lookup-nil : (k : String) → lookup k [] ≡ none
  unfolding lookup
  lookup-nil k = refl

  pub lookup-cons :
      (k j : String) (v : V) (rest : Dict V)
      → lookup j ((k, v) ∷ rest) ≡ (if k == j then some v else lookup j rest)
  unfolding lookup
  lookup-cons k j v rest = refl

  lookup-insert-none :
      (k j : String) (v : V) (m : Dict V)
      → k ≢ j
      → lookup j m ≡ none
      → lookup j (insert k v m) ≡ none
  lookup-insert-none k j v m ne h = ground (arith, lookup-insert k j v m, eq_iff k j)

  lookup-delete-none :
      (k j : String) (m : Dict V) → lookup j m ≡ none → lookup j (delete k m) ≡ none
  lookup-delete-none k j m h = ground (arith, lookup-delete k j m)

  pub IsKeyed-insert : (k : String) (v : V) (m : Dict V) → IsKeyed m → IsKeyed (insert k v m)
  unfolding insert lookup
  IsKeyed-insert k v [] u = (refl, u)
  IsKeyed-insert k v ((j, w) ∷ m) (absent, u) = elim (Bool-cases (j == k)) [
    | inl same ↦ rw same (ground (arith, eq_iff j k), u)
    | inr differ ↦ rw differ (
      lookup-insert-none k j v m (λ e. ground (arith, eq_iff j k)) absent,
      IsKeyed-insert k v m u,
    )
  ]

  pub IsKeyed-delete : (k : String) (m : Dict V) → IsKeyed m → IsKeyed (delete k m)
  unfolding delete
  IsKeyed-delete k [] u = u
  IsKeyed-delete k ((j, w) ∷ m) (absent, u) = elim (Bool-cases (j == k)) [
    | inl same ↦ rw same (IsKeyed-delete k m u)
    | inr differ ↦ rw differ (lookup-delete-none k j m absent, IsKeyed-delete k m u)
  ]

  -- The sum of a number of each value.
  abbrev pub sum_by : (V → ℕ) → Dict V → ℕ
  sum_by f [] = 0
  sum_by f ((k, v) ∷ m) = f v + sum_by f m

  abbrev pub part_of : (V → ℕ) → Option V → ℕ
  part_of f none = 0
  part_of f (some v) = f v

  pub sum_by-insert :
      (f : V → ℕ) (k : String) (v : V) (m : Dict V)
      → sum_by f (insert k v m) + part_of f (lookup k m) ≡ sum_by f m + f v
  unfolding insert lookup
  sum_by-insert f k v [] = omega arith
  sum_by-insert f k v ((j, w) ∷ m) = ground (arith, sum_by-insert f k v m)

  pub delete-insert_new :
      (k : String) (v : V) (m : Dict V) → lookup k m ≡ none → delete k (insert k v m) ≡ m
  unfolding insert delete lookup
  delete-insert_new k v [] h = ground (arith, eq_iff k k)
  delete-insert_new k v ((j, w) ∷ m) h = ground (arith, delete-insert_new k v m)
