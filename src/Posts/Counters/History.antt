-- ===== src/Posts/Counters/History.antt =====
-- The counters after any history of the calls of src/modules/posts, src/modules/post-likes and
-- src/modules/comments.
use mathlib.Core.Path.{subst}
use neura_gen.Posts.{
  Post, PostLike, Comment, PostDb, Caller, UpdatePost, create_post, update_post, remove_post,
  is_stranger, change_likes, change_comments, increment, decrement, pick_update_post_data,
}
use neura_gen.Posts.Likes.{create_like, remove_with_target, like_owner_id, is_like}
use neura_gen.Posts.Comments.{
  UpdateCommentDto, create_comment, update_comment, remove_comment, edit,
}
use neura_gen.Posts.History.{
  PostCall, run, run_all, post, edit_post, drop_post, like, unlike, comment, edit_comment,
  drop_comment,
}
use neura_gen.Posts.Counters.{
  Matches, add-Matches, remove-Matches, keep-Matches, put-Matches, delete_row-Matches,
}
use neura_gen.Base.{
  ℕ, ◌≡◌, not, ◌∷◌, ◌==◌, arith, refl, sym, ap, ◌∙◌, none, some, inl, inr, Option, Option-cases,
  Bool-cases, Bool, String, true, false, List, [], All, case_option, lookup, update, find, pos,
  count_by, remove_first, is_some, find-fits,
}

-- Each post counts its likes and its comments.
abbrev pub CountersMatch : PostDb → Type 0
CountersMatch db =
    Matches (λ p. p.like_count) (λ (l : PostLike). l.post_id) db.posts db.likes
    × Matches (λ p. p.comment_count) (λ (c : Comment). c.post_id) db.posts db.comments

-- An update of a comment names no post.
abbrev pub MovesNothing : PostCall → Type 0
MovesNothing (post id user asset caption is_public) = Unit
MovesNothing (edit_post id user dto) = Unit
MovesNothing (drop_post id user) = Unit
MovesNothing (like user id) = Unit
MovesNothing (unlike id user target) = Unit
MovesNothing (comment id user post_id content) = Unit
MovesNothing (edit_comment id user dto) = dto.post_id ≡ none
MovesNothing (drop_comment id user) = Unit

create_post-CountersMatch :
    (id user asset : ℕ) (caption : Option String) (is_public : Bool) (db : PostDb)
    → CountersMatch db
    → CountersMatch (create_post id user asset caption is_public db).1
unfolding create_post
create_post-CountersMatch id user asset caption is_public db (h, g) =
    elim (Bool-cases (is_some (lookup id db.posts))) [
      | inl there ↦ rw there (h, g)
      | inr new ↦ rw new (
        put-Matches _ _ id _ db.posts db.likes new refl h,
        put-Matches _ _ id _ db.posts db.comments new refl g,
      )
    ]

update_post-CountersMatch :
    (id : ℕ) (user : Caller) (dto : UpdatePost) (db : PostDb)
    → CountersMatch db
    → CountersMatch (update_post id user dto db).1
unfolding update_post
update_post-CountersMatch id user dto db (h, g) = elim (Option-cases (lookup id db.posts)) [
  | inl gone ↦ rw gone (h, g)
  | inr (p, e) ↦ elim (Bool-cases (is_stranger user p.user_id)) [
    | inl stranger ↦ rw (e, stranger) (h, g)
    | inr own ↦
        rw (e, own)
          (
            keep-Matches _ _ id (pick_update_post_data dto) p db.posts db.likes e refl h,
            keep-Matches _ _ id (pick_update_post_data dto) p db.posts db.comments e refl g,
          )
  ]
]

remove_post-CountersMatch :
    (id : ℕ) (user : Caller) (db : PostDb)
    → CountersMatch db
    → CountersMatch (remove_post id user db).1
unfolding remove_post
remove_post-CountersMatch id user db (h, g) = elim (Option-cases (lookup id db.posts)) [
  | inl gone ↦ rw gone (h, g)
  | inr (p, e) ↦ elim (Bool-cases (is_stranger user p.user_id)) [
    | inl stranger ↦ rw (e, stranger) (h, g)
    | inr own ↦
        rw (e, own)
          (
            delete_row-Matches _ _ id db.posts db.likes h,
            delete_row-Matches _ _ id db.posts db.comments g,
          )
  ]
]

create_like-CountersMatch :
    (user id : ℕ) (db : PostDb) → CountersMatch db → CountersMatch (create_like user id db).1
unfolding create_like
create_like-CountersMatch user id db (h, g) =
    elim (Bool-cases (is_some (find (is_like user id) db.likes))) [
      | inl twice ↦ rw twice (h, g)
      | inr new ↦ elim (Option-cases (lookup id db.posts)) [
        | inl gone ↦ rw (new, gone) (h, g)
        | inr (p, e) ↦
            rw (new, e)
              (
                add-Matches _ _ (record { user_id = user; post_id = id }) (change_likes increment) p
                    db.posts db.likes e refl h,
                keep-Matches _ _ id (change_likes increment) p db.posts db.comments e refl g,
              )
      ]
    ]

like_post : (user id : ℕ) (l : PostLike) → is_like user id l ≡ true → id ≡ l.post_id
like_post user id l h = ground arith

remove_like-Matches :
    (id : ℕ) (own : PostLike → Bool) (l : PostLike) (p : Post) (db : PostDb)
    → id ≡ l.post_id
    → find own db.likes ≡ some l
    → lookup id db.posts ≡ some p
    → Matches (λ p. p.like_count) (λ (l : PostLike). l.post_id) db.posts db.likes
    → Matches
        (λ p. p.like_count)
        (λ (l : PostLike). l.post_id)
        (update id (change_likes decrement) db.posts)
        (remove_first own db.likes)
remove_like-Matches id own l p db here found e h =
    subst
      (λ k.
        Matches (λ p. p.like_count) (λ (l : PostLike). l.post_id)
          (update k (change_likes decrement) db.posts) (remove_first own db.likes))
      (sym here)
      (remove-Matches _ _ own l (change_likes decrement) p db.posts db.likes found
        (ap (λ k. lookup k db.posts) (sym here) ∙ e) refl h)

remove_with_target-CountersMatch :
    (id : ℕ) (user : Caller) (target : Option ℕ) (db : PostDb)
    → CountersMatch db
    → CountersMatch (remove_with_target id user target db).1
unfolding remove_with_target
remove_with_target-CountersMatch id user target db (h, g) =
    let own = is_like (like_owner_id user target) id in
    elim (Bool-cases (case_option target false (is_stranger user))) [
      | inl refused ↦ rw refused (h, g)
      | inr may ↦ elim (Option-cases (find own db.likes)) [
        | inl none_found ↦ rw (may, none_found) (h, g)
        | inr (l, found) ↦ elim (Bool-cases (is_stranger user l.user_id)) [
          | inl stranger ↦ rw (may, found, stranger) (h, g)
          | inr is_own ↦ elim (Option-cases (lookup id db.posts)) [
            | inl gone ↦ rw (may, found, is_own, gone) (h, g)
            | inr (p, e) ↦
                rw (may, found, is_own, e)
                  (
                    remove_like-Matches id own l p db
                        (like_post (like_owner_id user target) id l
                          (find-fits own l db.likes found))
                        found e h,
                    keep-Matches _ _ id (change_likes decrement) p db.posts db.comments e refl g,
                  )
          ]
        ]
      ]
    ]

create_comment-CountersMatch :
    (id user post_id : ℕ) (content : String) (db : PostDb)
    → CountersMatch db
    → CountersMatch (create_comment id user post_id content db).1
unfolding create_comment
create_comment-CountersMatch id user post_id content db (h, g) =
    elim (Option-cases (lookup post_id db.posts)) [
      | inl gone ↦ rw gone (h, g)
      | inr (p, e) ↦ elim (Bool-cases (is_some (find (λ c. c.id == id) db.comments))) [
        | inl twice ↦ rw (e, twice) (h, g)
        | inr new ↦
            rw (e, new)
              (
                keep-Matches _ _ post_id (change_comments increment) p db.posts db.likes e refl h,
                add-Matches _ _
                    (record { id = id; user_id = user; post_id = post_id; content = content })
                    (change_comments increment) p db.posts db.comments e refl g,
              )
      ]
    ]

remove_comment-CountersMatch :
    (id : ℕ) (user : Caller) (db : PostDb)
    → CountersMatch db
    → CountersMatch (remove_comment id user db).1
unfolding remove_comment
remove_comment-CountersMatch id user db (h, g) =
    elim (Option-cases (find (λ c. c.id == id) db.comments)) [
      | inl none_found ↦ rw none_found (h, g)
      | inr (c, found) ↦ elim (Bool-cases (is_stranger user c.user_id)) [
        | inl stranger ↦ rw (found, stranger) (h, g)
        | inr own ↦ elim (Option-cases (lookup c.post_id db.posts)) [
          | inl gone ↦ rw (found, own, gone) (h, g)
          | inr (p, e) ↦
              rw (found, own, e)
                (
                  keep-Matches _ _ c.post_id (change_comments decrement) p db.posts db.likes e refl
                      h,
                  remove-Matches _ _ (λ c. c.id == id) c (change_comments decrement) p db.posts
                      db.comments found e refl g,
                )
        ]
      ]
    ]

-- An update that names no post leaves each comment with its post.
edit-stays :
    (k id : ℕ) (dto : UpdateCommentDto) (cs : List Comment)
    → dto.post_id ≡ none
    → count_by (λ c. c.post_id == k) (edit id dto cs) ≡ count_by (λ c. c.post_id == k) cs
unfolding edit count_by
edit-stays k id dto [] h = refl
edit-stays k id dto (c ∷ cs) h = elim (Bool-cases (c.id == id)) [
  | inl same ↦ rw (same, h, edit-stays k id dto cs h) refl
  | inr other ↦ rw (other, edit-stays k id dto cs h) refl
]

update_comment-CountersMatch :
    (id : ℕ) (user : Caller) (dto : UpdateCommentDto) (db : PostDb)
    → dto.post_id ≡ none
    → CountersMatch db
    → CountersMatch (update_comment id user dto db).1
unfolding update_comment
update_comment-CountersMatch id user dto db stays (h, g) =
    elim (Option-cases (find (λ c. c.id == id) db.comments)) [
      | inl none_found ↦ rw none_found (h, g)
      | inr (c, found) ↦ elim (Bool-cases (is_stranger user c.user_id)) [
        | inl stranger ↦ rw (found, stranger) (h, g)
        | inr own ↦
            elim (Bool-cases
              (case_option dto.post_id false (λ p. not (is_some (lookup p db.posts))))) [
                | inl missing ↦ rw (found, own, missing) (h, g)
                | inr there ↦
                    rw (found, own, there)
                      (h, λ k. g k ∙ ap pos (sym (edit-stays k id dto db.comments stays)))
              ]
      ]
    ]

run-CountersMatch :
    (c : PostCall) (db : PostDb) → MovesNothing c → CountersMatch db → CountersMatch (run c db)
unfolding run
run-CountersMatch (post id user asset caption is_public) db m h =
    create_post-CountersMatch id user asset caption is_public db h
run-CountersMatch (edit_post id user dto) db m h = update_post-CountersMatch id user dto db h
run-CountersMatch (drop_post id user) db m h = remove_post-CountersMatch id user db h
run-CountersMatch (like user id) db m h = create_like-CountersMatch user id db h
run-CountersMatch (unlike id user target) db m h =
    remove_with_target-CountersMatch id user target db h
run-CountersMatch (comment id user post_id content) db m h =
    create_comment-CountersMatch id user post_id content db h
run-CountersMatch (edit_comment id user dto) db m h =
    update_comment-CountersMatch id user dto db m h
run-CountersMatch (drop_comment id user) db m h = remove_comment-CountersMatch id user db h

-- Where each post counts its likes and its comments, each does so after any history of calls on
-- posts, likes and comments in which no update of a comment names a post.
pub run_all-CountersMatch :
    (cs : List PostCall) (db : PostDb)
    → All MovesNothing cs
    → CountersMatch db
    → CountersMatch (run_all cs db)
unfolding run_all
run_all-CountersMatch [] db m h = h
run_all-CountersMatch (c ∷ cs) db (m, ms) h =
    run_all-CountersMatch cs (run c db) ms (run-CountersMatch c db m h)
