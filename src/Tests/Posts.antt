-- ===== src/Tests/Posts.antt =====
-- Posts, likes and comments.
use neura_gen.Posts.Counters.History.{run_all-CountersMatch, CountersMatch}
use neura_gen.Posts.History.{
  run, run_all, PostCall, post, like, unlike, comment, edit_comment, drop_comment, drop_post,
}
use neura_gen.Posts.{PostDb, Caller, remove_post, create_post}
use neura_gen.Posts.Likes.{create_like, remove_with_target}
use neura_gen.Posts.Comments.{remove_comment, update_comment, create_comment, edit}
use neura_gen.Store.{UserRole}
use neura_gen.Base.{
  negsuc, ℕ, ◌≡◌, ◌∷◌, refl, none, some, true, List, [], pos, negsuc, lookup, put, update,
  remove_first, delete_row, ◌-ℤ◌, ◌+ℤ◌, count_by,
}

abbrev no_posts : PostDb
no_posts = record { posts = []; likes = []; comments = [] }

abbrev user : ℕ → Caller
user id = record { sub = id; role = UserRole.free }

abbrev day : List PostCall
day =
    post 1 7 3 (some "sunset") true
    ∷ like 8 1
    ∷ like 8 1
    ∷ like 9 1
    ∷ comment 5 8 1 "nice"
    ∷ comment 6 9 1 "hm"
    ∷ edit_comment 5 (user 8) (record { post_id = none; content = some "very nice" })
    ∷ drop_comment 6 (user 9)
    ∷ unlike 1 (user 9) none
    ∷ post 2 7 3 none true
    ∷ like 7 2
    ∷ drop_post 2 (user 7)
    ∷ []

-- A like counts once, and the owner of a comment alone may remove it.
counted :
    (run_all day no_posts).posts
    ≡ (
      1,
      record {
        user_id = 7;
        asset_version_id = 3;
        caption = some "sunset";
        is_public = true;
        like_count = pos 1;
        comment_count = pos 1;
      },
    )
      ∷ []
unfolding run_all run remove_post lookup create_like create_post remove_with_target remove_comment
    update_comment create_comment put update edit remove_first delete_row ◌-ℤ◌ ◌+ℤ◌
counted = refl

-- A comment that its owner moves to another post stays counted at the first one.
moved :
    (run_all
      (post 1 7 3 none true
        ∷ post 2 7 3 none true
        ∷ comment 5 8 1 "nice"
        ∷ edit_comment 5 (user 8) (record { post_id = some 2; content = none })
        ∷ drop_comment 5 (user 8)
        ∷ [])
      no_posts).posts
    ≡ (
      1,
      record {
        user_id = 7;
        asset_version_id = 3;
        caption = none;
        is_public = true;
        like_count = pos 0;
        comment_count = pos 1;
      },
    )
      ∷ (
        2,
        record {
          user_id = 7;
          asset_version_id = 3;
          caption = none;
          is_public = true;
          like_count = pos 0;
          comment_count = negsuc 0;
        },
      )
      ∷ []
unfolding run_all run remove_comment update_comment create_comment lookup create_post put update
    edit ◌+ℤ◌ ◌-ℤ◌
moved = refl

run_all-CountersMatch_example : CountersMatch (run_all day no_posts)
unfolding count_by lookup
run_all-CountersMatch_example =
    run_all-CountersMatch day no_posts
      (tt, (tt, (tt, (tt, (tt, (tt, (refl, (tt, (tt, (tt, (tt, (tt, tt))))))))))))
      (λ k. refl, λ k. refl)
