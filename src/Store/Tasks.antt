-- ===== src/Store/Tasks.antt =====
-- db/sqlite_store.py, the scheduled posts. A payload is stored as JSON and read back as the same
-- value, but for `tenant_id`, where the column is authoritative. `now` is the call's `utcnow()`.
pub mod Claims
pub mod Apart
pub mod Saves
pub mod Due
use omni_flow.Prelude.{
  ℕ, ◌+◌, String, Bool, true, false, Option, none, some, List, [], ◌∷◌, ◌==◌, ◌&&◌, not, string_eq,
  nat_eq, if◌then◌else◌, ltb, leb, take, map, is_some,
}
use mathlib.Core.List.{reverse}
use mathlib.Core.Option
use omni_flow.Schemas.{PublishTask, ContentDraft, PublishStatus, scheduled, publishing, status_eq}
use omni_flow.Sql.{select, find, update, rowcount, lookup, upsert, order_by}
use omni_flow.Store.{Moment, TaskRow, DraftRow, Database}

abbrev pub row_task : TaskRow → PublishTask
row_task row = record row.payload { tenant_id = row.tenant_id }

abbrev pub row_draft : DraftRow → ContentDraft
row_draft row = record row.payload { tenant_id = row.tenant_id }

unfoldable pub get_task_any_tenant : String → Database → Option PublishTask
get_task_any_tenant id db = Option.map row_task (lookup (λ (r : TaskRow). r.id) id db.tasks)

unfoldable pub get_draft_any_tenant : String → Database → Option ContentDraft
get_draft_any_tenant id db = Option.map row_draft (lookup (λ (r : DraftRow). r.id) id db.drafts)

-- `WHERE id = ? AND tenant_id = ?`
unfoldable pub get_task : String → String → Database → Option PublishTask
get_task id tenant db =
    Option.map row_task (find (λ r. r.id == id && r.tenant_id == tenant) db.tasks)

-- ORDER BY rowid DESC: the rows stand in the order in which they were inserted.
unfoldable pub list_tasks : String → Option PublishStatus → Database → List PublishTask
list_tasks tenant none db = map row_task (reverse (select (λ r. r.tenant_id == tenant) db.tasks))
list_tasks tenant (some status) db =
    map row_task
      (reverse (select (λ r. r.tenant_id == tenant && status_eq r.status status) db.tasks))

abbrev pub task_row : Moment → PublishTask → TaskRow
task_row now item = record {
  id = item.id;
  tenant_id = item.tenant_id;
  campaign_id = item.campaign_id;
  payload = record item { updated_at = some now };
  status = item.status;
  scheduled_at = item.scheduled_at;
  created_at = now;
  updated_at = some now;
}

-- ON CONFLICT(id) DO UPDATE … WHERE tasks.tenant_id = excluded.tenant_id
abbrev pub overwrite_task : TaskRow → TaskRow → TaskRow
overwrite_task excluded stored =
    if stored.tenant_id == excluded.tenant_id
    then record stored {
      campaign_id = excluded.campaign_id;
      payload = excluded.payload;
      status = excluded.status;
      scheduled_at = excluded.scheduled_at;
      updated_at = excluded.updated_at;
    }
    else stored

-- A stored row of another tenant: the statement changes no row, and `_guard` raises.
unfoldable pub is_foreign : PublishTask → Database → Bool
is_foreign item db = elim (lookup (λ (r : TaskRow). r.id) item.id db.tasks) [
  | none ↦ false
  | some stored ↦ not (stored.tenant_id == item.tenant_id)
]

-- The saved item, or `none` for the CrossTenantWriteError.
unfoldable pub save_task : Moment → PublishTask → Database → Option PublishTask × Database
unfolding is_foreign
save_task now item db = if is_foreign item db then (none, db) else (
  some (record item { updated_at = some now }),
  record db {
    tasks =
        upsert (λ (r : TaskRow). r.id) (task_row now item) (overwrite_task (task_row now item))
          db.tasks;
  },
)

-- Rows in the order of `scheduled_at`; rows without one were left out before.
abbrev pub due_before : TaskRow → TaskRow → Bool
due_before a b = elim a.scheduled_at [
  | none ↦ true
  | some s ↦ elim b.scheduled_at [ none ↦ false | some t ↦ leb s t ]
]

abbrev pub is_due : Moment → TaskRow → Bool
is_due now r =
    status_eq r.status scheduled && (elim r.scheduled_at [ none ↦ false | some t ↦ leb t now ])

unfoldable pub list_due_tasks : Moment → ℕ → Database → List PublishTask
unfolding order_by
list_due_tasks now limit db =
    map row_task (take limit (order_by due_before (select (is_due now) db.tasks)))

abbrev pub is_recoverable : Moment → TaskRow → Bool
is_recoverable before r =
    status_eq r.status publishing && (elim r.updated_at [ none ↦ true | some t ↦ ltb t before ])

unfoldable pub list_recoverable_tasks : Moment → Database → List PublishTask
list_recoverable_tasks before db = map row_task (select (is_recoverable before) db.tasks)

-- `task.attempts += 1` on a claim for publishing.
abbrev pub claimed_attempts : PublishStatus → ℕ → ℕ
claimed_attempts publishing n = n + 1
claimed_attempts _ n = n

abbrev pub claimed_task : Moment → PublishStatus → TaskRow → PublishTask
claimed_task now status row =
    let task = row_task row in
    record task {
      status = status;
      updated_at = some now;
      attempts = claimed_attempts status task.attempts;
    }

-- UPDATE tasks SET status = ?, payload = ?, updated_at = ?
abbrev pub set_claim : Moment → PublishStatus → PublishTask → TaskRow → TaskRow
set_claim now status payload r = record r {
  status = status;
  payload = payload;
  updated_at = some now;
}

-- The compare-and-swap on `status`; BEGIN IMMEDIATE makes it one step.
unfoldable pub claim_task :
    Moment → String → PublishStatus → PublishStatus → Database → Bool × Database
claim_task now id expected status db = elim (lookup (λ (r : TaskRow). r.id) id db.tasks) [
  | none ↦ (false, db)
  | some row ↦
      let at = λ (r : TaskRow). r.id == id && status_eq r.status expected in
      if not (status_eq row.status expected) then (false, db) else (
        rowcount at db.tasks == 1,
        record db {
          tasks = update at (set_claim now status (claimed_task now status row)) db.tasks;
        },
      )
]
