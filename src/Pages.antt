-- ===== src/Pages.antt =====
-- The pages of a list of rows, newest first: findFollowers and findFollowings of
-- src/modules/follows/follows.service.ts, findUsers of src/modules/post-likes/post-likes.service.ts
-- and findComments of src/modules/comments/comments.service.ts, which do the same to their rows.
pub mod Walk
use neura_gen.Base.{
  ℕ, zero, suc, ◌∷◌, ◌++◌, ◌==◌, if◌then◌else◌, none, some, Option, Bool, List, [], length, take,
  ltb, map_option, case_option,
}

-- `take`, `cursor`
pub record PaginationDto : Type 0 where
  pub count : ℕ
  pub cursor : Option ℕ

module _ {ℓ} {A : Type ℓ} (id_of : A → ℕ) where
  -- `cursor: { id: cursor }, skip: 1`
  unfoldable pub rest_after : ℕ → List A → List A
  rest_after c [] = []
  rest_after c (x ∷ xs) = if id_of x == c then xs else rest_after c xs

  unfoldable pub after_cursor : Option ℕ → List A → List A
  after_cursor none rows = rows
  after_cursor (some c) rows = rest_after c rows

  -- `rows[rows.length - 1].id`
  unfoldable pub last_id : List A → Option ℕ
  last_id [] = none
  last_id (x ∷ []) = some (id_of x)
  last_id (x ∷ y ∷ xs) = last_id (y ∷ xs)

  -- `hasNext`, `pop` and `nextCursor`
  unfoldable pub page_of : ℕ → List A → List A × Option ℕ
  page_of n found =
      if ltb n (length found) then (take n found, last_id (take n found)) else (found, none)

  unfoldable pub find_page : PaginationDto → List A → List A × Option ℕ
  find_page dto rows = page_of dto.count (take (suc dto.count) (after_cursor dto.cursor rows))

  -- What a client reads that follows `nextCursor` for a number of pages.
  unfoldable pub follow : (fuel n : ℕ) → Option ℕ → List A → List A
  follow zero n cursor rows = []
  follow (suc fuel) n cursor rows =
      let page = find_page (record { count = n; cursor = cursor }) rows in
      page.0 ++ case_option page.1 [] (λ c. follow fuel n (some c) rows)
