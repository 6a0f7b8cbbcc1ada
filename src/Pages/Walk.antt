-- ===== src/Pages/Walk.antt =====
-- A client that follows `nextCursor` reads every row once.
use mathlib.Core.Path.{subst}
use mathlib.Core.List.{append_assoc, append-nil}
use neura_gen.Pages.{rest_after, after_cursor, last_id, page_of, find_page, follow}
use neura_gen.Base.{
  ℕ, zero, suc, ◌<◌, ◌≤◌, ◌≡◌, ◌∷◌, ◌++◌, ◌==◌, arith, refl, sym, ap, ◌∙◌, inl, inr, none, some,
  Option, true, false, Bool-cases, List, [], All, length, take, ltb, leb, ==_refl,
}

-- The rows after the first `n`.
abbrev drop {ℓ} : {A : Type ℓ} → ℕ → List A → List A
drop zero xs = xs
drop (suc n) [] = []
drop (suc n) (x ∷ xs) = drop n xs

module _ {ℓ} {A : Type ℓ} where
  take-drop : (n : ℕ) (xs : List A) → take n xs ++ drop n xs ≡ xs
  take-drop zero xs = refl
  take-drop (suc n) [] = refl
  take-drop (suc n) (x ∷ xs) = ap (λ t. x ∷ t) (take-drop n xs)

  take-take : (n : ℕ) (xs : List A) → take n (take (suc n) xs) ≡ take n xs
  take-take zero xs = refl
  take-take (suc n) [] = refl
  take-take (suc n) (x ∷ xs) = ap (λ t. x ∷ t) (take-take n xs)

  take-short : (n : ℕ) (xs : List A) → length xs ≤ n → take n xs ≡ xs
  take-short zero [] h = refl
  take-short zero (x ∷ xs) h = absurd (omega arith)
  take-short (suc n) [] h = refl
  take-short (suc n) (x ∷ xs) h = ap (λ t. x ∷ t) (take-short n xs (omega arith))

  length-take : (n : ℕ) (xs : List A) → n ≤ length xs → length (take n xs) ≡ n
  length-take zero xs h = refl
  length-take (suc n) [] h = absurd (omega arith)
  length-take (suc n) (x ∷ xs) h = ap suc (length-take n xs (omega arith))

  length-take_le : (n : ℕ) (xs : List A) → length (take n xs) ≤ length xs
  length-take_le zero xs = omega arith
  length-take_le (suc n) [] = omega arith
  length-take_le (suc n) (x ∷ xs) = omega (arith, length-take_le n xs)

  length-drop_le : (n : ℕ) (xs : List A) → length (drop n xs) ≤ length xs
  length-drop_le zero xs = omega arith
  length-drop_le (suc n) [] = omega arith
  length-drop_le (suc n) (x ∷ xs) = omega (arith, length-drop_le n xs)

  length-drop_lt : (n : ℕ) (xs : List A) → 0 < length xs → length (drop (suc n) xs) < length xs
  length-drop_lt n [] h = absurd (omega arith)
  length-drop_lt n (x ∷ xs) h = omega (arith, length-drop_le n xs)

  long_of : (n : ℕ) (xs : List A) → ltb n (length (take (suc n) xs)) ≡ true → n < length xs
  long_of n xs h = let le = length-take_le (suc n) xs in ground (arith, h, le)

  short_of : (n : ℕ) (xs : List A) → ltb n (length (take (suc n) xs)) ≡ false → length xs ≤ n
  short_of n xs h = elim (Bool-cases (leb (suc n) (length xs))) [
    | inl long ↦
        let full = length-take (suc n) xs (ground (arith, long)) in absurd (ground (arith, h, full))
    | inr short ↦ ground (arith, short)
  ]

-- The first `suc n` rows end with one.
record EndsWith {ℓ} {A : Type ℓ} (id_of : A → ℕ) (n : ℕ) (xs : List A) : Type ℓ where
  pub init : List A
  pub last : A
  pub cut : xs ≡ init ++ last ∷ drop (suc n) xs
  pub is_last : last_id id_of (take (suc n) xs) ≡ some (id_of last)

module _ {ℓ} {A : Type ℓ} (id_of : A → ℕ) where
  ends_with : (n : ℕ) (xs : List A) → n < length xs → EndsWith id_of n xs
  unfolding last_id
  ends_with n [] h = absurd (omega arith)
  ends_with zero (x ∷ xs) h = record { init = []; last = x; cut = refl; is_last = refl }
  ends_with (suc n) (x ∷ []) h = absurd (omega arith)
  ends_with (suc n) (x ∷ y ∷ xs) h =
      let rest = ends_with n (y ∷ xs) (omega arith) in
      record {
        init = x ∷ rest.init;
        last = rest.last;
        cut = ap (λ t. x ∷ t) rest.cut;
        is_last = rest.is_last;
      }

  -- The rows have different identifiers.
  abbrev pub IsDistinct : List A → Type 0
  IsDistinct [] = Unit
  IsDistinct (x ∷ xs) = All (λ y. (id_of x == id_of y) ≡ false) xs × IsDistinct xs

  All-at : (P : A → Type 0) (pre : List A) (x : A) (post : List A) → All P (pre ++ x ∷ post) → P x
  All-at P [] x post (h, hs) = h
  All-at P (y ∷ pre) x post (h, hs) = All-at P pre x post hs

  before-IsDistinct :
      (pre : List A) (x : A) (post : List A)
      → IsDistinct (pre ++ x ∷ post)
      → All (λ y. (id_of y == id_of x) ≡ false) pre
  before-IsDistinct [] x post d = tt
  before-IsDistinct (y ∷ pre) x post (h, d) =
      (All-at (λ z. (id_of y == id_of z) ≡ false) pre x post h, before-IsDistinct pre x post d)

  rest_after-cut :
      (pre : List A) (x : A) (post : List A)
      → All (λ y. (id_of y == id_of x) ≡ false) pre
      → rest_after id_of (id_of x) (pre ++ x ∷ post) ≡ post
  unfolding rest_after
  rest_after-cut [] x post h = rw (==_refl (id_of x)) refl
  rest_after-cut (y ∷ pre) x post (other, h) = rw other (rest_after-cut pre x post h)

  page-more :
      (n : ℕ) (cursor : Option ℕ) (rest rows : List A)
      → after_cursor id_of cursor rows ≡ rest
      → ltb n (length (take (suc n) rest)) ≡ true
      → find_page id_of (record { count = n; cursor = cursor }) rows
        ≡ (take n rest, last_id id_of (take n rest))
  unfolding find_page page_of
  page-more n cursor rest rows start more = rw (start, more, take-take n rest) refl

  page-last :
      (n : ℕ) (cursor : Option ℕ) (rest rows : List A)
      → after_cursor id_of cursor rows ≡ rest
      → ltb n (length (take (suc n) rest)) ≡ false
      → find_page id_of (record { count = n; cursor = cursor }) rows ≡ (rest, none)
  unfolding find_page page_of
  page-last n cursor rest rows start done =
      let short = short_of n rest done in
      rw (start, done, take-short (suc n) rest (omega (arith, short))) refl

  follow-last :
      (fuel n : ℕ) (cursor : Option ℕ) (rest rows : List A)
      → after_cursor id_of cursor rows ≡ rest
      → ltb n (length (take (suc n) rest)) ≡ false
      → follow id_of (suc fuel) n cursor rows ≡ rest
  unfolding follow
  follow-last fuel n cursor rest rows start done =
      rw (page-last n cursor rest rows start done) (append-nil rest)

  follow-more :
      (fuel n : ℕ) (cursor : Option ℕ) (c : ℕ) (rest rows : List A)
      → after_cursor id_of cursor rows ≡ rest
      → ltb n (length (take (suc n) rest)) ≡ true
      → last_id id_of (take n rest) ≡ some c
      → follow id_of fuel n (some c) rows ≡ drop n rest
      → follow id_of (suc fuel) n cursor rows ≡ rest
  unfolding follow
  follow-more fuel n cursor c rest rows start more is_last next =
      rw (page-more n cursor rest rows start more, is_last, next) (take-drop n rest)

  follow-reads :
      (fuel n : ℕ) (cursor : Option ℕ) (pre rest rows : List A)
      → IsDistinct rows
      → rows ≡ pre ++ rest
      → after_cursor id_of cursor rows ≡ rest
      → length rest ≤ fuel
      → follow id_of (suc fuel) (suc n) cursor rows ≡ rest
  unfolding after_cursor rest_after
  follow-reads zero n cursor pre rest rows distinct split start enough =
      elim (Bool-cases (ltb (suc n) (length (take (suc (suc n)) rest)))) [
        | inl more ↦ absurd (let long = long_of (suc n) rest more in omega arith)
        | inr done ↦ follow-last zero (suc n) cursor rest rows start done
      ]
  follow-reads (suc fuel) n cursor pre rest rows distinct split start enough =
      let next = follow-reads fuel n in
      elim (Bool-cases (ltb (suc n) (length (take (suc (suc n)) rest)))) [
        | inl more ↦
            let long = long_of (suc n) rest more in
            let e = ends_with n rest (omega arith) in
            let left = drop (suc n) rest in
            let whole : rows ≡ (pre ++ e.init) ++ e.last ∷ left =
              split ∙ ap (λ t. pre ++ t) e.cut ∙ sym (append_assoc pre e.init (e.last ∷ left)) in
            let start' : rest_after id_of (id_of e.last) rows ≡ left =
              ap (rest_after id_of (id_of e.last)) whole
              ∙ rest_after-cut (pre ++ e.init) e.last left (
                  before-IsDistinct (pre ++ e.init) e.last left
                    (subst IsDistinct whole distinct)) in
            let fewer = length-drop_lt n rest (omega arith) in
            follow-more (suc fuel) (suc n) cursor (id_of e.last) rest rows start more e.is_last (
              next (some (id_of e.last)) ((pre ++ e.init) ++ e.last ∷ []) left rows distinct
                (whole ∙ sym (append_assoc (pre ++ e.init) (e.last ∷ []) left)) start'
                (omega arith))
        | inr done ↦ follow-last (suc fuel) (suc n) cursor rest rows start done
      ]

  -- A client that starts at the first page and follows each page's cursor gets all rows, in their
  -- order and each once, in at most one page more than there are rows, for pages of at least one
  -- row, if the rows have different identifiers and stay as they are meanwhile.
  pub follow-all :
      (n : ℕ) (rows : List A)
      → IsDistinct rows
      → follow id_of (suc (length rows)) (suc n) none rows ≡ rows
  unfolding after_cursor
  follow-all n rows distinct =
      follow-reads (length rows) n none [] rows rows distinct refl refl (omega arith)
