-- ===== src/Store/Comments/Redelivery.antt =====
-- Facebook reports a comment more than once, and not always with all its fields.
use omni_flow.Prelude.{
  ◌≡◌, refl, ap, String, Option, none, some, ◌==◌, string_eq, pair_eq, if◌then◌else◌,
}
use omni_flow.Sql.{lookup}
use omni_flow.Sql.Keys.{lookup-upsert}
use omni_flow.Sql.Again.{upsert_again}
use omni_flow.Store.{Moment, PageComment, Database}
use omni_flow.Store.Comments.{
  CommentInput, coalesce, comment_key, comment_row, merge_comment, get_page_comment,
  save_page_comment,
}

coalesce_again : {A : Type 0} (a b : Option A) → coalesce a (coalesce a b) ≡ coalesce a b
coalesce_again none b = refl
coalesce_again (some a) b = refl

coalesce_self : {A : Type 0} (a : Option A) → coalesce a a ≡ a
coalesce_self none = refl
coalesce_self (some a) = refl

pub merge_again :
    (row s : PageComment) → merge_comment row (merge_comment row s) ≡ merge_comment row s
merge_again row s = rw (
  coalesce_again row.post_id s.post_id,
  coalesce_again row.parent_id s.parent_id,
  coalesce_again row.from_id s.from_id,
  coalesce_again row.from_name s.from_name,
  coalesce_again row.message s.message,
  coalesce_again row.created_time s.created_time,
)

pub merge_self : (row : PageComment) → merge_comment row row ≡ row
merge_self row = rw (
  coalesce_self row.post_id,
  coalesce_self row.parent_id,
  coalesce_self row.from_id,
  coalesce_self row.from_name,
  coalesce_self row.message,
  coalesce_self row.created_time,
)

-- A comment that is reported again at the same moment, under whatever new row id, changes nothing.
pub redelivered_comment :
    (uid uid' : String) (now : Moment) (tenant : String) (c : CommentInput) (db : Database)
    → let (r, db') = save_page_comment uid now tenant c db in
      save_page_comment uid' now tenant c db' ≡ (r, db')
unfolding save_page_comment
redelivered_comment uid uid' now tenant c db =
    let row = comment_row uid now tenant c in
    ap
      (λ rows.
        let db' = record db { page_comments = rows } in
        (get_page_comment c.comment_id tenant db', db'))
      (upsert_again comment_key row (comment_row uid' now tenant c) (merge_comment row)
        db.page_comments (λ s. refl) (merge_again row) (merge_self row) refl)

-- What is known of a comment is never lost: saving it leaves, under its key, each optional field as
-- reported, or as it was if the report lacks it; and every other comment stays.
pub save_comment_lem :
    (uid : String) (now : Moment) (tenant : String) (c : CommentInput) (other : String × String)
    (db : Database)
    → let row = comment_row uid now tenant c in
      lookup comment_key other (save_page_comment uid now tenant c db).1.page_comments ≡ (
        if comment_key row == other
        then elim (lookup comment_key other db.page_comments) [
          | none ↦ some row
          | some s ↦ some (merge_comment row s)
        ]
        else lookup comment_key other db.page_comments)
unfolding save_page_comment
save_comment_lem uid now tenant c other db =
    lookup-upsert comment_key other (comment_row uid now tenant c)
      (merge_comment (comment_row uid now tenant c)) db.page_comments (λ s. refl)
