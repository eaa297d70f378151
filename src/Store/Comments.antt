-- ===== src/Store/Comments.antt =====
-- db/sqlite_store.py, the comments that Facebook pages report. `now` is the call's `utcnow()` and
-- `uid` its `uuid4()`.
pub mod Redelivery
use omni_flow.Prelude.{
  ℕ, String, Bool, true, false, Option, none, some, List, take, ◌==◌, ◌&&◌, string_eq, pair_eq,
  if◌then◌else◌, leb,
}
use omni_flow.Sql.{select, lookup, upsert, order_by}
use omni_flow.Store.{Moment, PageComment, Database}

-- The argument `comment`, with a missing verb as the empty text.
pub record CommentInput : Type 0 where
  pub page_id : String
  pub comment_id : String
  pub post_id : Option String
  pub parent_id : Option String
  pub from_id : Option String
  pub from_name : Option String
  pub message : Option String
  pub verb : String
  pub created_time : Option Moment

abbrev pub comment_key : PageComment → String × String
comment_key r = (r.tenant_id, r.comment_id)

-- `COALESCE(excluded.c, page_comments.c)`
abbrev pub coalesce : {A : Type 0} → Option A → Option A → Option A
coalesce none b = b
coalesce (some a) b = some a

abbrev pub comment_row : String → Moment → String → CommentInput → PageComment
comment_row uid now tenant c = record {
  id = uid;
  tenant_id = tenant;
  page_id = c.page_id;
  comment_id = c.comment_id;
  post_id = c.post_id;
  parent_id = c.parent_id;
  from_id = c.from_id;
  from_name = c.from_name;
  message = c.message;
  verb = if c.verb == "" then "add" else c.verb;
  created_time = c.created_time;
  created_at = now;
  updated_at = now;
}

-- ON CONFLICT (tenant_id, comment_id) DO UPDATE SET …
abbrev pub merge_comment : PageComment → PageComment → PageComment
merge_comment excluded stored = record stored {
  page_id = excluded.page_id;
  post_id = coalesce excluded.post_id stored.post_id;
  parent_id = coalesce excluded.parent_id stored.parent_id;
  from_id = coalesce excluded.from_id stored.from_id;
  from_name = coalesce excluded.from_name stored.from_name;
  message = coalesce excluded.message stored.message;
  verb = excluded.verb;
  created_time = coalesce excluded.created_time stored.created_time;
  updated_at = excluded.updated_at;
}

unfoldable pub get_page_comment : String → String → Database → Option PageComment
get_page_comment comment tenant db = lookup comment_key (tenant, comment) db.page_comments

unfoldable pub save_page_comment :
    String → Moment → String → CommentInput → Database → Option PageComment × Database
unfolding get_page_comment
save_page_comment uid now tenant c db =
    let row = comment_row uid now tenant c in
    let db' = record db {
      page_comments = upsert comment_key row (merge_comment row) db.page_comments;
    } in
    (get_page_comment c.comment_id tenant db', db')

abbrev post_fits : Option String → PageComment → Bool
post_fits none r = true
post_fits (some post) r = elim r.post_id [ none ↦ false | some p ↦ p == post ]

-- `COALESCE(created_time, created_at)`
abbrev commented_at : PageComment → Moment
commented_at r = elim r.created_time [ none ↦ r.created_at | some t ↦ t ]

unfoldable pub list_page_comments : String → Option String → ℕ → Database → List PageComment
unfolding order_by
list_page_comments tenant post limit db = take limit (
    order_by (λ r s. leb (commented_at s) (commented_at r))
      (select (λ r. r.tenant_id == tenant && post_fits post r) db.page_comments))
