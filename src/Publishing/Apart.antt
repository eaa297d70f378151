-- ===== src/Publishing/Apart.antt =====
-- Publishing in one workspace leaves the posts and drafts of the others alone.
use omni_flow.Prelude.{
  ℕ, suc, ◌≡◌, refl, ◌∙◌, inl, inr, String, false, Option, none, some, List, [], ◌∷◌, ◌==◌,
  string_eq, Bool-cases, Option-cases,
}
use omni_flow.Schemas.{PublishTask, ContentDraft}
use omni_flow.Store.{Moment, Database}
use omni_flow.Store.Drafts.{get_draft, list_drafts}
use omni_flow.Store.Tasks.{save_task}
use omni_flow.Store.Tasks.Apart.{
  IsApart, unchanged-IsApart, then-IsApart, save_task-IsApart, save_draft-IsApart, saved-tenant,
}
use omni_flow.Publisher.{create_tasks, publish}
use omni_flow.Publisher.Truthful.{publish-IsFinal}
use omni_flow.Services.{resolve_task_credentials}
use omni_flow.FacebookPages.{facebook_credentials}
use omni_flow.Publishing.{
  PublishRequest, PhotoReply, Publishing, direct_task, after_photo, publish_direct_photo, new_draft,
  draft_for, gather, prepared, draft_of, for_channel, run_one, run_tasks, after_gather,
  schedule_publish, newest_or_new, after_save, task_and_more, as_answer, as_posted,
}

module _ (site : Publishing) (uid : ℕ → String) (now : Moment) (tenant : String)
    (payload : PublishRequest) (other : String) (apart : (tenant == other) ≡ false) where
  newest_or_new-IsApart :
      (n : ℕ) (id : String) (drafts : List ContentDraft) (db : Database)
      → IsApart other db (newest_or_new site uid now tenant payload n id drafts db).1
  newest_or_new-IsApart n id [] db =
      save_draft-IsApart other tenant apart (new_draft site uid now tenant payload n id db) db refl
  newest_or_new-IsApart n id (d ∷ rest) db = unchanged-IsApart other db

  draft_for-IsApart :
      (n : ℕ) (id : String) (db : Database)
      → IsApart other db (draft_for site uid now tenant payload n id db).1
  unfolding draft_for
  draft_for-IsApart n id db = elim (Option-cases (get_draft id tenant db)) [
    | inr (d, found) ↦ rw (found, draft_for) (unchanged-IsApart other db)
    | inl missing ↦ rw (missing, draft_for) (newest_or_new-IsApart n id (list_drafts tenant db) db)
  ]

  gather-IsApart :
      (n : ℕ) (ids : List String) (db : Database)
      → IsApart other db (gather site uid now tenant payload n ids db).1
  unfolding gather
  gather-IsApart n [] db = unchanged-IsApart other db
  gather-IsApart n (id ∷ ids) db =
      let found = draft_for site uid now tenant payload n id db in
      let first = draft_for-IsApart n id db in
      elim (Option-cases found.0) [
        | inl failed ↦ rw (failed, gather) first
        | inr (d, good) ↦
            rw (good, gather)
              (then-IsApart other db found.1
                (gather site uid now tenant payload (suc n) ids found.1).1 first
                (gather-IsApart (suc n) ids found.1))
      ]

  after_save-IsApart :
      (first : ContentDraft) (drafts : List ContentDraft) (db : Database)
      (r : Option PublishTask × Database)
      → ((t : PublishTask) → r.0 ≡ some t → t.tenant_id ≡ tenant)
      → IsApart other db r.1
      → IsApart other db (after_save site uid now tenant payload first drafts r).1
  after_save-IsApart first drafts db (none, db') own before = before
  after_save-IsApart first drafts db (some task, db') own before =
      elim (Bool-cases payload.publish_now) [
        | inr later ↦ rw later before
        | inl at_once ↦
            let draft =
              for_channel site uid now tenant payload task
                (draft_of site uid now tenant payload task.content_draft_id first drafts) in
            let creds = resolve_task_credentials site.ops db' task in
            rw at_once (
              then-IsApart other db db' _ before (
                save_task-IsApart other tenant apart now (publish site.gateway now task draft creds)
                  db' ((publish-IsFinal site.gateway now task draft creds).2 ∙ own task refl)))
      ]

  run_one-IsApart :
      (first : ContentDraft) (drafts : List ContentDraft) (task : PublishTask) (db : Database)
      → IsApart other db (run_one site uid now tenant payload first drafts task db).1
  unfolding run_one prepared
  run_one-IsApart first drafts task db =
      let item = prepared site uid now tenant payload task in
      after_save-IsApart first drafts db (save_task now item db)
        (λ t done. saved-tenant other now item t db done)
        (save_task-IsApart other tenant apart now item db refl)

  task_and_more-db :
      (task : PublishTask) (r : Option (List PublishTask) × Database)
      → (task_and_more site uid now tenant payload task r).1 ≡ r.1
  task_and_more-db task (none, db) = refl
  task_and_more-db task (some rest, db) = refl

  run_tasks-IsApart :
      (first : ContentDraft) (drafts : List ContentDraft) (tasks : List PublishTask) (db : Database)
      → IsApart other db (run_tasks site uid now tenant payload first drafts tasks db).1
  unfolding run_tasks
  run_tasks-IsApart first drafts [] db = unchanged-IsApart other db
  run_tasks-IsApart first drafts (task ∷ tasks) db =
      let one = run_one site uid now tenant payload first drafts task db in
      let rest = run_tasks site uid now tenant payload first drafts tasks one.1 in
      let begun = run_one-IsApart first drafts task db in
      elim (Option-cases one.0) [
        | inl failed ↦ rw (failed, run_tasks) begun
        | inr (t, good) ↦
            rw (good, run_tasks)
              (rw (task_and_more-db t rest) (
                then-IsApart other db one.1 rest.1 begun
                  (run_tasks-IsApart first drafts tasks one.1)))
      ]

  as_answer-db :
      (r : Option (List PublishTask) × Database) → (as_answer site uid now tenant payload r).1 ≡ r.1
  as_answer-db (none, db) = refl
  as_answer-db (some tasks, db) = refl

  after_gather-IsApart :
      (db : Database) (r : Option (List ContentDraft) × Database)
      → IsApart other db r.1
      → IsApart other db (after_gather site uid now tenant payload r).1
  after_gather-IsApart db (none, db') begun = begun
  after_gather-IsApart db (some [], db') begun = begun
  after_gather-IsApart db (some (first ∷ rest), db') begun =
      let drafts = first ∷ rest in
      let tasks = create_tasks uid 0 payload.publish_now payload.scheduled_at drafts in
      let run = run_tasks site uid now tenant payload first drafts tasks db' in
      rw (as_answer-db run)
        (then-IsApart other db db' run.1 begun (run_tasks-IsApart first drafts tasks db'))

  as_posted-db :
      (id : String) (r : Option PublishTask × Database)
      → (as_posted site uid now tenant payload id r).1 ≡ r.1
  as_posted-db id (none, db) = refl
  as_posted-db id (some task, db) = refl

  photo-IsApart :
      (reply : PhotoReply) (db : Database)
      → IsApart other db (after_photo site uid now tenant payload reply db).1
  photo-IsApart reply db = elim (Bool-cases reply.success) [
    | inr refused ↦ rw refused (unchanged-IsApart other db)
    | inl posted ↦
        let item = direct_task site uid now tenant payload reply.id in
        rw posted (
          rw (as_posted-db reply.id (save_task now item db))
            (save_task-IsApart other tenant apart now item db refl))
  ]

  -- Whatever is asked to be published, and wherever the request fails: it changes posts and drafts
  -- only, and none of another workspace.
  pub schedule_publish-IsApart :
      (drawn : ℕ) (db : Database)
      → IsApart other db (schedule_publish site uid now tenant payload drawn db).1
  unfolding schedule_publish publish_direct_photo
  schedule_publish-IsApart drawn db = elim (Bool-cases (payload.caption == "")) [
    | inl batch ↦ rw batch (
        after_gather-IsApart db
          (gather site uid now tenant payload drawn payload.content_draft_ids db)
          (gather-IsApart drawn payload.content_draft_ids db))
    | inr photo ↦
        let (page, token) = facebook_credentials site.ops site.shared tenant payload.page_id db in
        rw photo (photo-IsApart (site.photo payload.caption page token) db)
  ]
