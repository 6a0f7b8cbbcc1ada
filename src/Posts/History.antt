-- ===== src/Posts/History.antt =====
-- Histories of the calls on posts, likes and comments.
use neura_gen.Posts.{PostDb, Caller, UpdatePost, create_post, update_post, remove_post}
use neura_gen.Posts.Likes.{create_like, remove_with_target}
use neura_gen.Posts.Comments.{UpdateCommentDto, create_comment, update_comment, remove_comment}
use neura_gen.Base.{ℕ, ◌∷◌, Option, Bool, String, List, []}

pub data PostCall : Type 0 where
  post : (id user_id asset_version_id : ℕ) → Option String → Bool → PostCall
  edit_post : (id : ℕ) → Caller → UpdatePost → PostCall
  drop_post : (id : ℕ) → Caller → PostCall
  like : (user_id post_id : ℕ) → PostCall
  unlike : (post_id : ℕ) → Caller → Option ℕ → PostCall
  comment : (id user_id post_id : ℕ) → String → PostCall
  edit_comment : (id : ℕ) → Caller → UpdateCommentDto → PostCall
  drop_comment : (id : ℕ) → Caller → PostCall

-- The tables after a call, returned or thrown.
unfoldable pub run : PostCall → PostDb → PostDb
run (post id user asset caption is_public) db = (create_post id user asset caption is_public db).1
run (edit_post id user dto) db = (update_post id user dto db).1
run (drop_post id user) db = (remove_post id user db).1
run (like user id) db = (create_like user id db).1
run (unlike id user target) db = (remove_with_target id user target db).1
run (comment id user post_id content) db = (create_comment id user post_id content db).1
run (edit_comment id user dto) db = (update_comment id user dto db).1
run (drop_comment id user) db = (remove_comment id user db).1

unfoldable pub run_all : List PostCall → PostDb → PostDb
run_all [] db = db
run_all (c ∷ cs) db = run_all cs (run c db)
