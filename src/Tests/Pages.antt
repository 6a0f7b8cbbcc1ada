-- ===== src/Tests/Pages.antt =====
-- Pages.
use neura_gen.Pages.{find_page, follow, page_of, after_cursor, rest_after, last_id}
use neura_gen.Pages.Walk.{follow-all}
use neura_gen.Base.{ℕ, ◌≡◌, ◌∷◌, refl, none, some, List, []}

abbrev ids : List ℕ
ids = 9 ∷ 7 ∷ 4 ∷ 2 ∷ 1 ∷ []

-- The second page of two rows.
second_page :
    find_page (λ (n : ℕ). n) (record { count = 2; cursor = some 7 }) ids ≡ (4 ∷ 2 ∷ [], some 2)
unfolding find_page page_of after_cursor rest_after last_id
second_page = refl

follow-all_example : follow (λ (n : ℕ). n) 6 2 none ids ≡ ids
follow-all_example =
    follow-all (λ (n : ℕ). n) 1 ids
      (
        (refl, (refl, (refl, (refl, tt)))),
        ((refl, (refl, (refl, tt))), ((refl, (refl, tt)), ((refl, tt), (tt, tt)))),
      )
