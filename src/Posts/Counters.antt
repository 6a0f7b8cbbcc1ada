-- ===== src/Posts/Counters.antt =====
-- The counters of a post and the rows that they count (src/modules/post-likes/post-likes.service.ts,
-- src/modules/comments/comments.service.ts, src/modules/posts/posts.service.ts).
pub mod History
use neura_gen.Posts.{Post}
use neura_gen.Base.{
  ℕ, ◌≡◌, suc, not, ◌∷◌, ◌==◌, if◌then◌else◌, arith, refl, sym, ap, ◌∙◌, none, some, inl, inr,
  Option, Bool-cases, Bool, true, false, List, [], case_option, Table, lookup, update, put, filterb,
  find, ℤ, pos, ◌+ℤ◌, ◌-ℤ◌, int_laws, count_by, remove_first, delete_row, lookup-update, lookup-put,
  lookup-delete_row, find-fits, count_by-remove_first, count_by-none, count_by-keep, count_by-drop,
  not_both, count_by-filterb, ==_iff, ==_refl, is_some,
}

-- A column of the post, 0 if there is no such post.
abbrev pub count_of : (Post → ℤ) → ℕ → Table Post → ℤ
count_of column k posts = case_option (lookup k posts) (pos 0) column

pos-increment : (n : ℕ) → pos n +ℤ pos 1 ≡ pos (suc n)
pos-increment n = omega int_laws

pos-decrement : (n : ℕ) → pos (suc n) -ℤ pos 1 ≡ pos n
pos-decrement n = omega int_laws

==_flip : (a b : ℕ) (v : Bool) → (a == b) ≡ v → (b == a) ≡ v
==_flip a b v h = ground arith

not_same : (a id k : ℕ) → not (a == id) ≡ true → (k == id) ≡ true → (a == k) ≡ false
not_same a id k h e = ground arith

not_other : (a id k : ℕ) → (a == k) ≡ true → (k == id) ≡ false → not (a == id) ≡ true
not_other a id k h e = ground arith

if_true : (b : Bool) (n m : ℕ) → b ≡ true → (if b then n else m) ≡ n
if_true b n m h = rw h refl

if_false : (b : Bool) (n m : ℕ) → b ≡ false → (if b then n else m) ≡ m
if_false b n m h = rw h refl

is_some-false {ℓ} : {A : Type ℓ} (o : Option A) → is_some o ≡ false → o ≡ none
is_some-false none h = refl
is_some-false (some a) h = not_both true refl h

module _ {A : Type 0} (column : Post → ℤ) (post_of : A → ℕ) where
  abbrev rows_of : ℕ → List A → ℕ
  rows_of k rows = count_by (λ x. post_of x == k) rows

  -- The column of each post is the number of its rows, and no row is of a post that is not there.
  abbrev pub Matches : Table Post → List A → Type 0
  Matches posts rows = (k : ℕ) → count_of column k posts ≡ pos (rows_of k rows)

  count_of-update :
      (k id : ℕ) (f : Post → Post) (p : Post) (posts : Table Post)
      → lookup id posts ≡ some p
      → count_of column k (update id f posts)
        ≡ (if k == id then column (f p) else count_of column k posts)
  count_of-update k id f p posts e = elim (Bool-cases (k == id)) [
    | inl same ↦ rw (lookup-update k id f posts, same, (==_iff k id).0 same, e) refl
    | inr other ↦ rw (lookup-update k id f posts, other) refl
  ]

  column_at :
      (k id : ℕ) (p : Post) (posts : Table Post) (rows : List A)
      → (k == id) ≡ true
      → lookup id posts ≡ some p
      → Matches posts rows
      → column p ≡ pos (rows_of k rows)
  column_at k id p posts rows same e m =
      let here : count_of column k posts ≡ column p = rw ((==_iff k id).0 same, e) refl in
      sym here ∙ m k

  pub add-Matches :
      (x : A) (f : Post → Post) (p : Post) (posts : Table Post) (rows : List A)
      → lookup (post_of x) posts ≡ some p
      → column (f p) ≡ column p +ℤ pos 1
      → Matches posts rows
      → Matches (update (post_of x) f posts) (x ∷ rows)
  add-Matches x f p posts rows e grown m k = elim (Bool-cases (k == post_of x)) [
    | inl same ↦
        rw
          (
            count_of-update k (post_of x) f p posts e,
            same,
            grown,
            column_at k (post_of x) p posts rows same e m,
            count_by-keep (λ y. post_of y == k) x rows (==_flip k (post_of x) true same),
          )
          (pos-increment (rows_of k rows))
    | inr other ↦
        rw
          (
            count_of-update k (post_of x) f p posts e,
            other,
            count_by-drop (λ y. post_of y == k) x rows (==_flip k (post_of x) false other),
          )
          (m k)
  ]

  pub remove-Matches :
      (q : A → Bool) (x : A) (f : Post → Post) (p : Post) (posts : Table Post) (rows : List A)
      → find q rows ≡ some x
      → lookup (post_of x) posts ≡ some p
      → column (f p) ≡ column p -ℤ pos 1
      → Matches posts rows
      → Matches (update (post_of x) f posts) (remove_first q rows)
  remove-Matches q x f p posts rows found e shrunk m k = elim (Bool-cases (k == post_of x)) [
    | inl same ↦
        let counted =
          count_by-remove_first q (λ y. post_of y == k) x rows found
          ∙ if_true _ _ _ (==_flip k (post_of x) true same) in
        rw
          (
            count_of-update k (post_of x) f p posts e,
            same,
            shrunk,
            column_at k (post_of x) p posts rows same e m,
            counted,
          )
          (pos-decrement (rows_of k (remove_first q rows)))
    | inr other ↦
        let counted =
          count_by-remove_first q (λ y. post_of y == k) x rows found
          ∙ if_false _ _ _ (==_flip k (post_of x) false other) in
        rw (count_of-update k (post_of x) f p posts e, other) (m k ∙ ap pos counted)
  ]

  pub keep-Matches :
      (id : ℕ) (f : Post → Post) (p : Post) (posts : Table Post) (rows : List A)
      → lookup id posts ≡ some p
      → column (f p) ≡ column p
      → Matches posts rows
      → Matches (update id f posts) rows
  keep-Matches id f p posts rows e kept m k = elim (Bool-cases (k == id)) [
    | inl same ↦
        rw (count_of-update k id f p posts e, same) (kept ∙ column_at k id p posts rows same e m)
    | inr other ↦ rw (count_of-update k id f p posts e, other) (m k)
  ]

  pub put-Matches :
      (id : ℕ) (p : Post) (posts : Table Post) (rows : List A)
      → is_some (lookup id posts) ≡ false
      → column p ≡ pos 0
      → Matches posts rows
      → Matches (put id p posts) rows
  put-Matches id p posts rows new empty m k = elim (Bool-cases (k == id)) [
    | inl same ↦
        let none_here : count_of column k posts ≡ pos 0 =
          rw ((==_iff k id).0 same, is_some-false (lookup id posts) new) refl in
        rw (lookup-put k id p posts, same) (empty ∙ sym none_here ∙ m k)
    | inr other ↦ rw (lookup-put k id p posts, other) (m k)
  ]

  pub delete_row-Matches :
      (id : ℕ) (posts : Table Post) (rows : List A)
      → Matches posts rows
      → Matches (delete_row id posts) (filterb (λ x. not (post_of x == id)) rows)
  delete_row-Matches id posts rows m k = elim (Bool-cases (k == id)) [
    | inl same ↦
        let gone =
          count_by-none (λ x. post_of x == k) (λ x. not (post_of x == id)) rows
            λ x h. not_same (post_of x) id k h same in
        rw (lookup-delete_row k id posts, same, gone) refl
    | inr other ↦
        let left =
          count_by-filterb (λ x. post_of x == k) (λ x. not (post_of x == id)) rows
            λ x h. not_other (post_of x) id k h other in
        rw (lookup-delete_row k id posts, other, left) (m k)
  ]
