-- ===== src/Base/Counts.antt =====
-- The number of list entries that pass a test, and the removal of the first one that does.
use Prim.Native.Nat.{ℕ, suc}
use mathlib.Core.Path.{◌≡◌, refl, sym, ap, ◌∙◌}
use mathlib.Core.Logic.{inl, inr}
use mathlib.Core.Bool.{Bool, true, false}
use mathlib.Core.Option.{some}
use mathlib.Core.List.{List, [], ◌∷◌}
use native.Mathlib.Omega.{arith}
use neura_gen.Base.Tests.{Bool-cases, if◌then◌else◌, get_or, not_both}
use neura_gen.Base.Lists.{find, filterb}

module _ {ℓ} {A : Type ℓ} where
  unfoldable pub count_by : (A → Bool) → List A → ℕ
  count_by p [] = 0
  count_by p (x ∷ xs) = if p x then suc (count_by p xs) else count_by p xs

  pub count_by-keep :
      (p : A → Bool) (x : A) (xs : List A) → p x ≡ true → count_by p (x ∷ xs) ≡ suc (count_by p xs)
  unfolding count_by
  count_by-keep p x xs h = rw h refl

  pub count_by-drop :
      (p : A → Bool) (x : A) (xs : List A) → p x ≡ false → count_by p (x ∷ xs) ≡ count_by p xs
  unfolding count_by
  count_by-drop p x xs h = rw h refl

  unfoldable pub remove_first : (A → Bool) → List A → List A
  remove_first p [] = []
  remove_first p (x ∷ xs) = let rest = remove_first p xs in if p x then xs else x ∷ rest

  find-first :
      (p : A → Bool) (x y : A) (xs : List A) → p y ≡ true → find p (y ∷ xs) ≡ some x → y ≡ x
  find-first p x y xs here h =
      let first : find p (y ∷ xs) ≡ some y = rw (find, here) refl in
      ap (λ o. get_or o y) (sym first ∙ h)

  find-rest :
      (p : A → Bool) (x y : A) (xs : List A)
      → p y ≡ false
      → find p (y ∷ xs) ≡ some x
      → find p xs ≡ some x
  find-rest p x y xs there h =
      let skip : find p (y ∷ xs) ≡ find p xs = rw (find, there) refl in sym skip ∙ h

  pub find-fits : (p : A → Bool) (x : A) (xs : List A) → find p xs ≡ some x → p x ≡ true
  find-fits p x [] h = ground arith
  find-fits p x (y ∷ xs) h = elim (Bool-cases (p y)) [
    | inl here ↦ ap p (sym (find-first p x y xs here h)) ∙ here
    | inr there ↦ find-fits p x xs (find-rest p x y xs there h)
  ]

  pub count_by-remove_first :
      (p q : A → Bool) (x : A) (xs : List A)
      → find p xs ≡ some x
      → count_by q xs
        ≡ (if q x then suc (count_by q (remove_first p xs)) else count_by q (remove_first p xs))
  unfolding count_by remove_first
  count_by-remove_first p q x [] h = ground arith
  count_by-remove_first p q x (y ∷ xs) h = elim (Bool-cases (p y)) [
    | inl here ↦ rw (here, find-first p x y xs here h) refl
    | inr there ↦
        let rest = count_by-remove_first p q x xs (find-rest p x y xs there h) in
        ground (arith, rest, there)
  ]

  pub count_by-none :
      (p q : A → Bool) (xs : List A)
      → ((x : A) → q x ≡ true → p x ≡ false)
      → count_by p (filterb q xs) ≡ 0
  unfolding count_by
  count_by-none p q [] h = refl
  count_by-none p q (x ∷ xs) h = elim (Bool-cases (q x)) [
    | inl keep ↦ rw (filterb, keep, h x keep) (count_by-none p q xs h)
    | inr drop ↦ rw (filterb, drop) (count_by-none p q xs h)
  ]

  pub count_by-filterb :
      (p q : A → Bool) (xs : List A)
      → ((x : A) → p x ≡ true → q x ≡ true)
      → count_by p (filterb q xs) ≡ count_by p xs
  unfolding count_by
  count_by-filterb p q [] h = refl
  count_by-filterb p q (x ∷ xs) h = elim (Bool-cases (q x)) [
    | inl keep ↦ rw (filterb, keep, count_by-filterb p q xs h) refl
    | inr drop ↦ elim (Bool-cases (p x)) [
      | inl own ↦ not_both (q x) (h x own) drop
      | inr other ↦ rw (filterb, drop, other) (count_by-filterb p q xs h)
    ]
  ]
