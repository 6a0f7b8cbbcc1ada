-- ===== src/Posts/Likes.antt =====
-- Likes: src/modules/post-likes/post-likes.service.ts.
use neura_gen.Posts.{PostLike, PostDb, Caller, is_stranger, change_likes, increment, decrement}
use neura_gen.Store.{Error, Result, ok, err}
use neura_gen.Jobs.Create.{is_admin}
use neura_gen.Base.{
  false, ℕ, ◌&&◌, ◌∷◌, ◌==◌, if◌then◌else◌, Option, Bool, is_some, case_option, get_or, lookup,
  update, find, remove_first,
}

abbrev pub is_like : (user_id post_id : ℕ) → PostLike → Bool
is_like user_id post_id l = (l.user_id == user_id) && (l.post_id == post_id)

-- `PostLikesService.create`
unfoldable pub create_like : (user_id post_id : ℕ) → PostDb → Result PostLike × PostDb
create_like user_id post_id db =
    let like : PostLike = record { user_id = user_id; post_id = post_id } in
    if is_some (find (is_like user_id post_id) db.likes)
    then (err Error.unique_violation, db)
    else case_option (lookup post_id db.posts)
        (err (Error.plain "Foreign key constraint violated"), db)
        λ post. (
          ok like,
          record db {
            posts = update post_id (change_likes increment) db.posts;
            likes = like ∷ db.likes;
          },
        )

-- `likeOwnerId`, of a trimmed target.
abbrev pub like_owner_id : Caller → (target : Option ℕ) → ℕ
like_owner_id user target = if is_admin user.role then get_or target user.sub else user.sub

-- `PostLikesService.removeWithTarget`; without a target it is `remove`.
unfoldable pub remove_with_target :
    (post_id : ℕ) → Caller → (target : Option ℕ) → PostDb → Result PostLike × PostDb
remove_with_target post_id user target db =
    let owner = like_owner_id user target in
    if case_option target false (is_stranger user)
    then (err (Error.forbidden "Chỉ ADMIN mới được xoá post like của người dùng khác"), db)
    else case_option (find (is_like owner post_id) db.likes)
        (err (Error.not_found "Post like không tồn tại"), db)
        λ like.
          if is_stranger user like.user_id
          then (err (Error.forbidden "Không có quyền xoá post like này"), db)
          else case_option (lookup post_id db.posts) (err Error.record_not_found, db)
              λ post. (
                ok like,
                record db {
                  posts = update post_id (change_likes decrement) db.posts;
                  likes = remove_first (is_like owner post_id) db.likes;
                },
              )
