-- ===== src/Store/Tasks/Apart.antt =====
-- Saving posts and drafts of one workspace leaves those of the others alone.
use omni_flow.Prelude.{
  ◌≡◌, refl, sym, ap, ◌∙◌, inl, inr, arith, String, true, false, some, ◌==◌, ==_iff, string_eq,
  Bool-cases,
}
use omni_flow.Sql.{select}
use omni_flow.Sql.Others.{select-upsert_other}
use omni_flow.Schemas.{PublishTask, ContentDraft}
use omni_flow.Store.{Moment, TaskRow, DraftRow, Database}
use omni_flow.Store.Drafts.{draft_row, overwrite_draft, is_foreign_draft, save_draft}
use omni_flow.Store.Tasks.{task_row, overwrite_task, is_foreign, save_task}

-- The rows of the workspace `other` are the same, and only posts and drafts changed at all.
pub record IsApart (other : String) (db db' : Database) : Type 0 where
  pub same_tasks :
      select (λ (r : TaskRow). r.tenant_id == other) db'.tasks
      ≡ select (λ (r : TaskRow). r.tenant_id == other) db.tasks
  pub same_drafts :
      select (λ (r : DraftRow). r.tenant_id == other) db'.drafts
      ≡ select (λ (r : DraftRow). r.tenant_id == other) db.drafts
  pub same_rest : db' ≡ record db { tasks = db'.tasks; drafts = db'.drafts }

module _ (other : String) where
  pub unchanged-IsApart : (db : Database) → IsApart other db db
  unchanged-IsApart db = record { same_tasks = refl; same_drafts = refl; same_rest = refl }

  pub then-IsApart :
      (db db' db'' : Database)
      → IsApart other db db'
      → IsApart other db' db''
      → IsApart other db db''
  then-IsApart db db' db'' first second =
      let with_posts : Database → Database =
        λ d. record d { tasks = db''.tasks; drafts = db''.drafts } in
      record {
        same_tasks = second.same_tasks ∙ first.same_tasks;
        same_drafts = second.same_drafts ∙ first.same_drafts;
        same_rest = second.same_rest ∙ ap with_posts first.same_rest;
      }

  module _ (tenant : String) (apart : (tenant == other) ≡ false) where
    overwrite_task-kept :
        (excluded s : TaskRow)
        → excluded.tenant_id ≡ tenant
        → (s.tenant_id == other) ≡ true
        → overwrite_task excluded s ≡ s
    overwrite_task-kept excluded s own seen =
        rw own
          (ground (arith, ==_iff s.tenant_id tenant, ==_iff s.tenant_id other, ==_iff tenant other))

    overwrite_draft-kept :
        (excluded s : DraftRow)
        → excluded.tenant_id ≡ tenant
        → (s.tenant_id == other) ≡ true
        → overwrite_draft excluded s ≡ s
    overwrite_draft-kept excluded s own seen =
        rw own
          (ground (arith, ==_iff s.tenant_id tenant, ==_iff s.tenant_id other, ==_iff tenant other))

    pub save_task-IsApart :
        (now : Moment) (item : PublishTask) (db : Database)
        → item.tenant_id ≡ tenant
        → IsApart other db (save_task now item db).1
    unfolding save_task
    save_task-IsApart now item db own = elim (Bool-cases (is_foreign item db)) [
      | inl foreign ↦ rw (foreign, save_task) (unchanged-IsApart db)
      | inr mine ↦
          rw (mine, save_task)
            (record {
              same_tasks =
                  select-upsert_other (λ (r : TaskRow). r.id)
                    (λ (r : TaskRow). r.tenant_id == other) (task_row now item)
                    (overwrite_task (task_row now item)) db.tasks (rw own apart)
                    (λ s seen. overwrite_task-kept (task_row now item) s own seen)
                    (λ s. ground arith);
              same_drafts = refl;
              same_rest = refl;
            })
    ]

    pub save_draft-IsApart :
        (item : ContentDraft) (db : Database)
        → item.tenant_id ≡ tenant
        → IsApart other db (save_draft item db).1
    unfolding save_draft
    save_draft-IsApart item db own = elim (Bool-cases (is_foreign_draft item db)) [
      | inl foreign ↦ rw (foreign, save_draft) (unchanged-IsApart db)
      | inr mine ↦
          rw (mine, save_draft)
            (record {
              same_tasks = refl;
              same_drafts =
                  select-upsert_other (λ (r : DraftRow). r.id)
                    (λ (r : DraftRow). r.tenant_id == other) (draft_row item)
                    (overwrite_draft (draft_row item)) db.drafts (rw own apart)
                    (λ s seen. overwrite_draft-kept (draft_row item) s own seen)
                    (λ s. ground arith);
              same_rest = refl;
            })
    ]

  pub saved-tenant :
      (now : Moment) (item t : PublishTask) (db : Database)
      → (save_task now item db).0 ≡ some t
      → t.tenant_id ≡ item.tenant_id
  unfolding save_task
  saved-tenant now item t db done = elim (Bool-cases (is_foreign item db)) [
    | inl foreign ↦ let e = rw (foreign, save_task) at done in cc e
    | inr mine ↦
        let e : some (record item { updated_at = some now }) ≡ some t =
          rw (mine, save_task) at done in
        let same : record item { updated_at = some now } ≡ t = cc e in
        sym (ap (λ (u : PublishTask). u.tenant_id) same)
  ]
