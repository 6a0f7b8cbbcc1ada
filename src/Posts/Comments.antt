-- ===== src/Posts/Comments.antt =====
-- Comments: src/modules/comments/comments.service.ts.
use neura_gen.Posts.{Comment, PostDb, Caller, is_stranger, change_comments, increment, decrement}
use neura_gen.Store.{Error, Result, ok, err}
use neura_gen.Base.{
  false, ℕ, not, ◌∷◌, ◌==◌, if◌then◌else◌, Option, String, List, [], is_some, case_option, get_or,
  lookup, update, find, remove_first,
}

-- `CommentsService.create`, of an identifier that the database draws.
unfoldable pub create_comment :
    (id user_id post_id : ℕ) → (content : String) → PostDb → Result Comment × PostDb
create_comment id user_id post_id content db =
    let comment : Comment = record {
      id = id;
      user_id = user_id;
      post_id = post_id;
      content = content;
    } in
    case_option (lookup post_id db.posts) (err Error.record_not_found, db)
      λ post.
        if is_some (find (λ c. c.id == id) db.comments) then (err Error.unique_violation, db) else (
          ok comment,
          record db {
            posts = update post_id (change_comments increment) db.posts;
            comments = comment ∷ db.comments;
          },
        )

-- The fields that an update of a comment names.
pub record UpdateCommentDto : Type 0 where
  pub post_id : Option ℕ
  pub content : Option String

abbrev pub edited : UpdateCommentDto → Comment → Comment
edited dto c = record c {
  post_id = get_or dto.post_id c.post_id;
  content = get_or dto.content c.content;
}

unfoldable pub edit : (id : ℕ) → UpdateCommentDto → List Comment → List Comment
edit id dto [] = []
edit id dto (c ∷ cs) = (if c.id == id then edited dto c else c) ∷ edit id dto cs

-- `CommentsService.update`
unfoldable pub update_comment :
    (id : ℕ) → Caller → UpdateCommentDto → PostDb → Result (Unit {0}) × PostDb
update_comment id user dto db =
    case_option (find (λ c. c.id == id) db.comments)
      (err (Error.not_found "Comment không tồn tại"), db)
      λ comment.
        if is_stranger user comment.user_id
        then (err (Error.forbidden "Không có quyền sửa comment này"), db)
        else if case_option dto.post_id false (λ p. not (is_some (lookup p db.posts)))
        then (err (Error.plain "Foreign key constraint violated"), db)
        else (ok tt, record db { comments = edit id dto db.comments })

-- `CommentsService.remove`
unfoldable pub remove_comment : (id : ℕ) → Caller → PostDb → Result Comment × PostDb
remove_comment id user db =
    case_option (find (λ c. c.id == id) db.comments)
      (err (Error.not_found "Comment không tồn tại"), db)
      λ comment.
        if is_stranger user comment.user_id
        then (err (Error.forbidden "Không có quyền xoá comment này"), db)
        else case_option (lookup comment.post_id db.posts) (err Error.record_not_found, db)
            λ post. (
              ok comment,
              record db {
                posts = update comment.post_id (change_comments decrement) db.posts;
                comments = remove_first (λ c. c.id == id) db.comments;
              },
            )
