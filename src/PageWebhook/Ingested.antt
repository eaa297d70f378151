-- ===== src/PageWebhook/Ingested.antt =====
-- Which comments the workspaces see after events were stored.
use omni_flow.PageWebhook.Owners.{owns_page, tenants_for_page_lem}
use omni_flow.Prelude.{
  ◌≡◌, refl, ap, ◌∙◌, arith, String, Bool, true, false, Option, none, some, List, [], ◌∷◌, ◌==◌,
  ==_iff, string_eq, pair_eq, ◌&&◌, ◌||◌, if◌then◌else◌,
}
use omni_flow.Sql.{lookup}
use omni_flow.Store.{Moment, PageComment, Database}
use omni_flow.Store.Comments.{
  CommentInput, comment_key, comment_row, merge_comment, save_page_comment,
}
use omni_flow.Store.Comments.Redelivery.{merge_again, merge_self, save_comment_lem}
use omni_flow.PageWebhook.{
  WebOps, WebhookSettings, has_tenant, tenants_for_page, store_for, persist,
}

-- What a report leaves of a comment that was stored so far.
abbrev pub saved : PageComment → Option PageComment → PageComment
saved row none = row
saved row (some s) = merge_comment row s

saved_twice :
    (row : PageComment) (old : Option PageComment)
    → saved row (some (saved row old)) ≡ saved row old
saved_twice row none = merge_self row
saved_twice row (some s) = merge_again row s

saved_if :
    (b : Bool) (row row' : PageComment) (old : Option PageComment)
    → (b ≡ true → row ≡ row')
    → (if b then elim old [ none ↦ some row | some s ↦ some (merge_comment row s) ] else old)
      ≡ (if b then some (saved row' old) else old)
saved_if true row row' none same = ap some (same refl)
saved_if true row row' (some s) same = ap (λ r. some (merge_comment r s)) (same refl)
saved_if false row row' old same = refl

saved_either :
    (here later fits : Bool) (row : PageComment) (old : Option PageComment)
    → let old' = if here && fits then some (saved row old) else old in
      (if later && fits then some (saved row old') else old')
      ≡ (if (here || later) && fits then some (saved row old) else old)
saved_either true true true row old = ap some (saved_twice row old)
saved_either true true false row old = refl
saved_either true false true row old = refl
saved_either true false false row old = refl
saved_either false true true row old = refl
saved_either false true false row old = refl
saved_either false false true row old = refl
saved_either false false false row old = refl

abbrev pub find_comment : String → String → Database → Option PageComment
find_comment tenant comment db = lookup comment_key (tenant, comment) db.page_comments

module _ (web : WebOps) (uid : String × String → String) (now : Moment) where
  abbrev pub row_for : String → CommentInput → PageComment
  row_for tenant c = comment_row (uid (tenant, c.comment_id)) now tenant c

  same_row :
      (tenant other : String) (c : CommentInput) (b : Bool)
      → tenant == other && b ≡ true
      → row_for tenant c ≡ row_for other c
  same_row tenant other c b h = ap (λ t. row_for t c) ((==_iff tenant other).0 (ground arith))

  saved_for :
      (tenant other comment : String) (c : CommentInput) (db : Database)
      → find_comment other comment
          (save_page_comment (uid (tenant, c.comment_id)) now tenant c db).1
        ≡ (if tenant == other && c.comment_id == comment
            then some (saved (row_for other c) (find_comment other comment db))
            else find_comment other comment db)
  saved_for tenant other comment c db =
      save_comment_lem (uid (tenant, c.comment_id)) now tenant c (other, comment) db
      ∙ saved_if (tenant == other && c.comment_id == comment)
          (comment_row (uid (tenant, c.comment_id)) now tenant c) (row_for other c)
          (find_comment other comment db) (λ h. same_row tenant other c (c.comment_id == comment) h)

  stored_for :
      (other comment : String) (c : CommentInput) (tenants : List String) (db : Database)
      → find_comment other comment (store_for web uid now c tenants db) ≡ (
          if has_tenant other tenants && c.comment_id == comment
          then some (saved (row_for other c) (find_comment other comment db))
          else find_comment other comment db)
  unfolding store_for has_tenant
  stored_for other comment c [] db = refl
  stored_for other comment c (tenant ∷ tenants) db =
      stored_for other comment c tenants
        (save_page_comment (uid (tenant, c.comment_id)) now tenant c db).1
      ∙ rw (saved_for tenant other comment c db) (
          saved_either (tenant == other) (has_tenant other tenants) (c.comment_id == comment)
            (row_for other c) (find_comment other comment db))

  -- What a workspace should see of one comment: the events of it on the pages that the workspace
  -- owns, one after the other.
  abbrev pub reported :
      WebhookSettings
      → String
      → String
      → Database
      → List (String × CommentInput)
      → Option PageComment
      → Option PageComment
  reported settings tenant comment db [] old = old
  reported settings tenant comment db ((page, c) ∷ events) old =
      reported settings tenant comment db events (
        if owns_page web.ops settings tenant page db && c.comment_id == comment
        then some (saved (row_for tenant c) old)
        else old)

  store_for-accounts :
      (c : CommentInput) (tenants : List String) (db : Database)
      → (store_for web uid now c tenants db).connected_accounts ≡ db.connected_accounts
  unfolding store_for save_page_comment
  store_for-accounts c [] db = refl
  store_for-accounts c (tenant ∷ tenants) db =
      store_for-accounts c tenants
        (save_page_comment (uid (tenant, c.comment_id)) now tenant c db).1

  reported_same :
      (settings : WebhookSettings) (tenant comment : String) (db db' : Database)
      (events : List (String × CommentInput)) (old : Option PageComment)
      → db'.connected_accounts ≡ db.connected_accounts
      → reported settings tenant comment db' events old
        ≡ reported settings tenant comment db events old
  reported_same settings tenant comment db db' [] old same = refl
  reported_same settings tenant comment db db' ((page, c) ∷ events) old same =
      rw same (reported_same settings tenant comment db db' events _ same)

  -- Whatever Meta reports: each workspace sees of each comment exactly what was reported on pages
  -- that are its own, merged in the order of the events; the comments of a workspace that does not
  -- own the page stay as they are.
  pub persist_lem :
      (settings : WebhookSettings) (tenant comment : String) (events : List (String × CommentInput))
      (db : Database)
      → find_comment tenant comment (persist web uid now settings events db)
        ≡ reported settings tenant comment db events (find_comment tenant comment db)
  unfolding persist
  persist_lem settings tenant comment [] db = refl
  persist_lem settings tenant comment ((page, c) ∷ events) db =
      let owners = tenants_for_page web settings page db in
      let db' = store_for web uid now c owners db in
      persist_lem settings tenant comment events db'
      ∙ reported_same settings tenant comment db db' events (find_comment tenant comment db')
          (store_for-accounts c owners db)
      ∙ rw (stored_for tenant comment c owners db)
          (rw (tenants_for_page_lem web settings page tenant db) refl)
