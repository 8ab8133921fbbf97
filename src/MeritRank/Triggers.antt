-- ===== src/MeritRank/Triggers.antt =====
-- The triggers of meritmolt/schema/ddl.py on one upsert.
use meritmolt.Prelude.{
  ◌≡◌, refl, sym, ◌∙◌, Bool, true, false, not, ◌&&◌, none, some, [], ◌∷◌, ◌++◌, is_none, and_parts,
  Bool-cases, Option-cases, inl, inr,
}
use meritmolt.Text.{Text}
use meritmolt.Subscriptions.{bump_vsids}
use meritmolt.Subscriptions.Edges.{IsPlain}
use meritmolt.MeritRank.{
  Post, Comment, Names, Lake, has_post_id, has_comment_id, find_post, find_comment, enriched_post,
  enriched_comment, write_post, write_comment, notify_post_insert, notify_comment_insert,
  parent_known, is_known, upsert_post, upsert_comment, Upsert, of_post, of_comment, upsert,
}
use meritmolt.MeritRank.Weights.{touches_post, notify_post-weight}
use meritmolt.MeritRank.Touched.{IsPlainParent, HasParentIn, touches_comment, notify_comment-weight}
use meritmolt.MeritRank.NewPost.{
  with_post, new_post-found, new_post-PostIn, new_post-CommentIn, new_post-weight,
}
use meritmolt.MeritRank.NewComment.{
  new_comment-CommentIn, old_comments-CommentIn, new_comment-weight,
}
use meritmolt.MeritRank.Steady.{IsSteady, IsInStep, update_if_same, not-false, parent_in}

module _ (names : Names) (lake : Lake) (h : IsInStep names lake) where
  write_post-IsInStep :
      (p : Post)
      → IsSteady lake (of_post p)
      → IsInStep names (write_post names (find_post lake.posts p.id) p lake)
  unfolding write_post
  write_post-IsInStep p (id_plain, author_plain, same) =
      elim (Option-cases (find_post lake.posts p.id)) [
        | inr (old, e) ↦
            rw (e, update_if_same (has_post_id p.id) (enriched_post p) lake.posts same)
              (record {
                sound = record {
                  sound_posts = h.sound.sound_posts;
                  sound_comments = h.sound.sound_comments;
                };
                agrees = h.agrees;
              })
        | inl n ↦ rw n (
            inserted (record p { ticker = bump_vsids p.author_id lake.vsids p.author_id }) n
              id_plain author_plain)
      ]
    where
      inserted :
          (row : Post)
          → find_post lake.posts row.id ≡ none
          → IsPlain row.id
          → IsPlain row.author_id
          → IsInStep names (record lake {
            posts = lake.posts ++ row ∷ [];
            vsids = bump_vsids p.author_id lake.vsids;
            calls = notify_post_insert names row lake.calls;
          })
      inserted row n k l = record {
        sound = record {
          sound_posts = new_post-PostIn lake.posts row n k l h.sound.sound_posts;
          sound_comments =
              new_post-CommentIn lake.posts row n lake.comments lake.comments
                h.sound.sound_comments;
        };
        agrees = λ s d b.
            notify_post-weight s d b names (with_post lake.posts row n) lake.comments row lake.calls
              (new_post-found lake.posts row n) k l
            ∙ elim (Bool-cases (touches_post s d b names row)) [
              | inl t ↦ rw t refl
              | inr f ↦ rw f (
                  h.agrees s d b
                  ∙ sym (
                      new_post-weight lake.posts row n names lake.comments s d b
                        h.sound.sound_comments f))
            ];
      }

  write_comment-IsInStep :
      (c : Comment)
      → is_none (find_post lake.posts c.post_id) ≡ false
      → parent_known lake.comments c.id c.parent_id ≡ true
      → IsSteady lake (of_comment c)
      → IsInStep names (write_comment names (find_comment lake.comments c.id) c lake)
  unfolding write_comment
  write_comment-IsInStep c on_post parent (k, l, m, o, same, at_post) =
      elim (Option-cases (find_comment lake.comments c.id)) [
        | inr (old, e) ↦
            rw (e, update_if_same (has_comment_id c.id) (enriched_comment c) lake.comments same)
              (record {
                sound = record {
                  sound_posts = h.sound.sound_posts;
                  sound_comments = h.sound.sound_comments;
                };
                agrees = h.agrees;
              })
        | inl n ↦ elim (Option-cases (find_post lake.posts c.post_id)) [
          | inl gone ↦ absurd (let z : true ≡ false = rw gone at on_post in cc)
          | inr (post, e) ↦
              let row = record c { ticker = bump_vsids c.author_id lake.vsids c.author_id } in
              rw n (
                inserted row post n e
                  (parent_in lake.posts lake.comments row n row.parent_id parent at_post)
                  (k, l, m, o))
        ]
      ]
    where
      inserted :
          (row : Comment) (post : Post)
          → find_comment lake.comments row.id ≡ none
          → find_post lake.posts row.post_id ≡ some post
          → HasParentIn (lake.comments ++ row ∷ []) row.post_id row.parent_id
          → IsPlain row.id
            × IsPlain row.author_id
            × IsPlain row.post_id
            × IsPlainParent row.parent_id
          → IsInStep names (record lake {
            comments = lake.comments ++ row ∷ [];
            vsids = bump_vsids c.author_id lake.vsids;
            calls =
                notify_comment_insert names lake.posts (lake.comments ++ row ∷ []) row lake.calls;
          })
      inserted row post n e q plain =
          let own = new_comment-CommentIn lake.posts lake.comments row n post e q plain in
          record {
            sound = record {
              sound_posts = h.sound.sound_posts;
              sound_comments =
                  old_comments-CommentIn lake.posts lake.comments row n h.sound.sound_comments own;
            };
            agrees = λ s d b.
                notify_comment-weight names lake.posts (lake.comments ++ row ∷ []) s d b row post
                  lake.calls own.found e q plain
                ∙ elim (Bool-cases
                    (touches_comment names lake.posts (lake.comments ++ row ∷ []) s d b row)) [
                      | inl t ↦ rw t refl
                      | inr f ↦ rw f (
                          h.agrees s d b
                          ∙ sym (
                              new_comment-weight lake.posts lake.comments row n names s d b
                                h.sound.sound_comments own f))
                    ];
          }

  pub upsert-IsInStep :
      (known : Text → Bool) (u : Upsert)
      → IsSteady lake u
      → IsInStep names (upsert names known u lake)
  unfolding upsert upsert_post upsert_comment
  upsert-IsInStep known (of_post p) k =
      elim (Bool-cases (known p.author_id && is_known names p.submolt_id)) [
        | inl t ↦ rw t (write_post-IsInStep p k)
        | inr f ↦ rw f h
      ]
  upsert-IsInStep known (of_comment c) k =
      let on_post = not (is_none (find_post lake.posts c.post_id)) in
      let parent = parent_known lake.comments c.id c.parent_id in
      elim (Bool-cases (known c.author_id && (on_post && parent))) [
        | inr f ↦ rw f h
        | inl t ↦
            let (x, y) = and_parts (known c.author_id) (on_post && parent) t in
            let (z, w) = and_parts on_post parent y in
            rw t (
              write_comment-IsInStep c (not-false (is_none (find_post lake.posts c.post_id)) z) w k)
      ]
