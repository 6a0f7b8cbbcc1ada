-- ===== src/Posts.antt =====
-- Posts with their likes and comments: src/modules/posts/posts.service.ts,
-- src/modules/post-likes/post-likes.service.ts and src/modules/comments/comments.service.ts. The
-- index of the explore module, which follows each call, and what the calls only read are left out.
pub mod Likes
pub mod Comments
pub mod History
pub mod Counters
use neura_gen.Store.{UserRole, Error, Result, ok, err}
use neura_gen.Jobs.Create.{is_admin}
use neura_gen.Base.{
  false, ℕ, not, ◌||◌, ◌&&◌, ◌∷◌, ◌==◌, if◌then◌else◌, none, some, Option, String, Bool, List, [],
  is_some, case_option, get_or, Table, lookup, update, put, filterb, find, ℤ, pos, ◌+ℤ◌, ◌-ℤ◌,
  remove_first, delete_row,
}

pub record Post : Type 0 where
  pub user_id : ℕ
  pub asset_version_id : ℕ
  pub caption : Option String
  pub is_public : Bool
  pub like_count : ℤ
  pub comment_count : ℤ

pub record PostLike : Type 0 where
  pub user_id : ℕ
  pub post_id : ℕ

pub record Comment : Type 0 where
  pub id : ℕ
  pub user_id : ℕ
  pub post_id : ℕ
  pub content : String

pub record PostDb : Type 0 where
  pub posts : Table Post
  pub likes : List PostLike
  pub comments : List Comment

-- The caller: `{ sub, role }`.
pub record Caller : Type 0 where
  pub sub : ℕ
  pub role : UserRole

-- `row.userId !== user.sub && user.role !== ADMIN`
abbrev pub is_stranger : Caller → ℕ → Bool
is_stranger user owner = not (owner == user.sub) && not (is_admin user.role)

abbrev pub change_likes : (ℤ → ℤ) → Post → Post
change_likes f p = record p { like_count = f p.like_count }

abbrev pub change_comments : (ℤ → ℤ) → Post → Post
change_comments f p = record p { comment_count = f p.comment_count }

abbrev pub increment : ℤ → ℤ
increment n = n +ℤ pos 1

abbrev pub decrement : ℤ → ℤ
decrement n = n -ℤ pos 1

-- `PostsService.create`, of an identifier that the database draws.
unfoldable pub create_post :
    (id user_id asset_version_id : ℕ) → Option String → Bool → PostDb → Result (Unit {0}) × PostDb
create_post id user_id asset_version_id caption is_public db =
    if is_some (lookup id db.posts) then (err Error.unique_violation, db) else (
      ok tt,
      record db {
        posts =
            put id
              (record {
                user_id = user_id;
                asset_version_id = asset_version_id;
                caption = caption;
                is_public = is_public;
                like_count = pos 0;
                comment_count = pos 0;
              })
              db.posts;
      },
    )

-- The fields that an update names.
pub record UpdatePost : Type 0 where
  pub asset_version_id : Option ℕ
  pub caption : Option (Option String)
  pub is_public : Option Bool

abbrev pub pick_update_post_data : UpdatePost → Post → Post
pick_update_post_data dto p = record p {
  asset_version_id = get_or dto.asset_version_id p.asset_version_id;
  caption = get_or dto.caption p.caption;
  is_public = get_or dto.is_public p.is_public;
}

-- `PostsService.update`
unfoldable pub update_post : (id : ℕ) → Caller → UpdatePost → PostDb → Result (Unit {0}) × PostDb
update_post id user dto db =
    case_option (lookup id db.posts) (err (Error.not_found "Post không tồn tại"), db)
      λ post.
        if is_stranger user post.user_id
        then (err (Error.forbidden "Không có quyền cập nhật post này"), db)
        else (ok tt, record db { posts = update id (pick_update_post_data dto) db.posts })

-- `PostsService.remove`; the foreign keys of likes and comments cascade.
unfoldable pub remove_post : (id : ℕ) → Caller → PostDb → Result (Unit {0}) × PostDb
remove_post id user db =
    case_option (lookup id db.posts) (err (Error.not_found "Post không tồn tại"), db)
      λ post.
        if is_stranger user post.user_id
        then (err (Error.forbidden "Không có quyền cập nhật post này"), db)
        else (
          ok tt,
          record {
            posts = delete_row id db.posts;
            likes = filterb (λ l. not (l.post_id == id)) db.likes;
            comments = filterb (λ c. not (c.post_id == id)) db.comments;
          },
        )
