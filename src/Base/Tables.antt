-- ===== src/Base/Tables.antt =====
-- A database table, as its rows by primary key. Keys are UUIDs, which the code only compares.
use Prim.Native.Nat.{ℕ}
use mathlib.Core.Path.{◌≡◌}
use mathlib.Core.Bool.{Bool, false}
use mathlib.Core.Option.{Option, none, some}
use mathlib.Core.List.{List, [], ◌∷◌}
use native.Mathlib.Omega.{arith}
use neura_gen.Base.Tests.{◌==◌, if◌then◌else◌, map_option}

abbrev pub Table {ℓ} : Type ℓ → Type ℓ
Table V = List (ℕ × V)

module _ {ℓ} {V : Type ℓ} where
  -- `findUnique({ where: { id } })`
  unfoldable pub lookup : ℕ → Table V → Option V
  lookup k [] = none
  lookup k ((j, v) ∷ t) = if k == j then some v else lookup k t

  -- `update({ where: { id }, data })` of a row that is there.
  unfoldable pub update : ℕ → (V → V) → Table V → Table V
  update k f [] = []
  update k f ((j, v) ∷ t) = if k == j then (j, f v) ∷ t else (j, v) ∷ update k f t

  -- Write a row, new or not.
  unfoldable pub put : ℕ → V → Table V → Table V
  put k v [] = (k, v) ∷ []
  put k v ((j, w) ∷ t) = if k == j then (j, v) ∷ t else (j, w) ∷ put k v t

  -- `findFirst({ where })`
  unfoldable pub find_row : (ℕ → V → Bool) → Table V → Option (ℕ × V)
  find_row p [] = none
  find_row p ((k, v) ∷ t) = if p k v then some (k, v) else find_row p t

  unfoldable pub delete_row : ℕ → Table V → Table V
  delete_row k [] = []
  delete_row k ((i, v) ∷ t) = if k == i then delete_row k t else (i, v) ∷ delete_row k t

  pub lookup-delete_row :
      (j k : ℕ) (t : Table V) → lookup j (delete_row k t) ≡ (if j == k then none else lookup j t)
  unfolding lookup delete_row
  lookup-delete_row j k [] = ground arith
  lookup-delete_row j k ((i, v) ∷ t) = ground (arith, lookup-delete_row j k t)

  pub lookup-update :
      (j k : ℕ) (f : V → V) (t : Table V)
      → lookup j (update k f t) ≡ (if j == k then map_option f (lookup j t) else lookup j t)
  unfolding lookup update
  lookup-update j k f [] = ground arith
  lookup-update j k f ((i, v) ∷ t) = ground (arith, lookup-update j k f t)

  pub lookup-put :
      (j k : ℕ) (v : V) (t : Table V)
      → lookup j (put k v t) ≡ (if j == k then some v else lookup j t)
  unfolding lookup put
  lookup-put j k v [] = ground arith
  lookup-put j k v ((i, w) ∷ t) = ground (arith, lookup-put j k v t)

  -- No row fits: no key's row fits.
  pub find_row-none :
      (p : ℕ → V → Bool) (t : Table V) (k : ℕ) (v : V)
      → find_row p t ≡ none
      → lookup k t ≡ some v
      → p k v ≡ false
  unfolding find_row lookup
  find_row-none p [] k v h e = ground arith
  find_row-none p ((j, w) ∷ t) k v h e = ground (arith, find_row-none p t k v)
