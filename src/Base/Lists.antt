-- ===== src/Base/Lists.antt =====
-- Lists over the native numbers, under the library's names.
use Prim.Native.Nat.{ℕ, zero, suc, ◌+◌}
use mathlib.Core.Path.{◌≡◌, refl}
use mathlib.Core.Logic.{inl, inr}
use neura_gen.Base.Tests.{is_some, Bool-cases}
use mathlib.Core.Bool.{Bool, true, false}
use mathlib.Core.Option.{Option, none, some}
use mathlib.Core.List.{List, [], ◌∷◌, ◌++◌}
use native.Mathlib.Omega.{arith}

module _ {ℓ} {A : Type ℓ} where
  abbrev pub length : List A → ℕ
  length [] = 0
  length (x ∷ xs) = suc (length xs)

  abbrev pub take : ℕ → List A → List A
  take zero xs = []
  take (suc n) [] = []
  take (suc n) (x ∷ xs) = x ∷ take n xs

  pub length-append : (xs ys : List A) → length (xs ++ ys) ≡ length xs + length ys
  length-append [] ys = omega arith
  length-append (x ∷ xs) ys = omega (arith, length-append xs ys)

  abbrev pub filterb : (A → Bool) → List A → List A
  filterb p [] = []
  filterb p (x ∷ xs) = elim (p x) [ true ↦ x ∷ filterb p xs | false ↦ filterb p xs ]

  abbrev pub find : (A → Bool) → List A → Option A
  find p [] = none
  find p (x ∷ xs) = elim (p x) [ true ↦ some x | false ↦ find p xs ]

module _ {ℓ} {A : Type ℓ} (p : A → Bool) where
  pub filterb-keep : (x : A) (xs : List A) → p x ≡ true → filterb p (x ∷ xs) ≡ x ∷ filterb p xs
  filterb-keep x xs h = rw (filterb, h) refl

  pub filterb-drop : (x : A) (xs : List A) → p x ≡ false → filterb p (x ∷ xs) ≡ filterb p xs
  filterb-drop x xs h = rw (filterb, h) refl

  pub find-here : (x : A) (xs : List A) → p x ≡ true → is_some (find p (x ∷ xs)) ≡ true
  find-here x xs h = rw (h, is_some) refl

  pub find-there :
      (x : A) (xs : List A) → is_some (find p xs) ≡ true → is_some (find p (x ∷ xs)) ≡ true
  find-there x xs h = elim (Bool-cases (p x)) [
    | inl own ↦ rw (own, is_some) refl
    | inr other ↦ rw (other, is_some) h
  ]

  pub find-skip :
      (x : A) (xs : List A) (b : Bool)
      → p x ≡ false
      → is_some (find p xs) ≡ b
      → is_some (find p (x ∷ xs)) ≡ b
  find-skip x xs b h k = rw (h, is_some) k

  pub find-append :
      (xs ys : List A) → is_some (find p ys) ≡ true → is_some (find p (xs ++ ys)) ≡ true
  find-append [] ys h = h
  find-append (x ∷ xs) ys h = find-there x (xs ++ ys) (find-append xs ys h)

module _ {ℓ κ} {A : Type ℓ} (P : A → Type κ) where
  abbrev pub All : List A → Type κ
  All [] = Unit
  All (x ∷ xs) = P x × All xs

pub All-map {ℓ} :
    {A : Type ℓ} (P Q : A → Type 0) (xs : List A) → ((a : A) → P a → Q a) → All P xs → All Q xs
All-map P Q [] f h = tt
All-map P Q (x ∷ xs) f (h, hs) = (f x h, All-map P Q xs f hs)

-- What the filter keeps does not fit, so nothing is found.
pub find-filterb-none {ℓ} :
    {A : Type ℓ} (p q : A → Bool) (xs : List A)
    → ((x : A) → q x ≡ true → p x ≡ false)
    → find p (filterb q xs) ≡ none
find-filterb-none p q [] h = refl
find-filterb-none p q (x ∷ xs) h = elim (Bool-cases (q x)) [
  | inl keep ↦ rw (filterb-keep q x xs keep, find, h x keep) (find-filterb-none p q xs h)
  | inr drop ↦ rw (filterb-drop q x xs drop) (find-filterb-none p q xs h)
]
