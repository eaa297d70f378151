-- ===== src/Store/Tasks/Saves.antt =====
-- Saving a post: it is read back as it was saved, and no row of another tenant is overwritten.
use omni_flow.Prelude.{
  ◌≡◌, refl, ◌∙◌, ◌⊎◌, inl, inr, String, true, false, Option, none, some, arith, ◌==◌, ==_refl,
  ==_iff, string_eq, if◌then◌else◌, Bool-cases, Option-cases,
}
use mathlib.Core.Option
use omni_flow.Schemas.{PublishTask}
use omni_flow.Sql.Keys.{lookup-upsert, upsert-Unique}
use omni_flow.Store.{Moment, TaskRow, Database}
use omni_flow.Store.Tasks.{
  row_task, task_row, overwrite_task, is_foreign, save_task, get_task_any_tenant,
}
use omni_flow.Store.Tasks.Claims.{find_row, HasUniqueTasks, KeepsOthers, KeepsOthers-by}

overwrite_task-id : (excluded stored : TaskRow) → (overwrite_task excluded stored).id ≡ stored.id
overwrite_task-id excluded stored = ground arith

-- The row that a save leaves, by the row that was there.
abbrev pub saved_row : Moment → PublishTask → Option TaskRow → TaskRow
saved_row now item none = task_row now item
saved_row now item (some stored) = overwrite_task (task_row now item) stored

pub find-save :
    (now : Moment) (item : PublishTask) (id : String) (db : Database)
    → is_foreign item db ≡ false
    → find_row id (save_task now item db).1
      ≡ (if item.id == id then some (saved_row now item (find_row id db)) else find_row id db)
unfolding save_task
find-save now item id db own =
    rw (own, save_task)
      (lookup-upsert (λ (r : TaskRow). r.id) id (task_row now item)
          (overwrite_task (task_row now item)) db.tasks (overwrite_task-id (task_row now item))
        ∙ elim (Option-cases (find_row id db)) [
          | inl missing ↦ rw missing
          | inr (stored, found) ↦ rw found
        ])

pub find-save_self :
    (now : Moment) (item : PublishTask) (db : Database)
    → is_foreign item db ≡ false
    → find_row item.id (save_task now item db).1 ≡ some (saved_row now item (find_row item.id db))
find-save_self now item db own = find-save now item item.id db own ∙ rw (==_refl item.id)

pub own_row :
    (now : Moment) (item : PublishTask) (db : Database)
    → is_foreign item db ≡ false
    → (row_task (saved_row now item (find_row item.id db)) ≡ record item { updated_at = some now })
      × ((saved_row now item (find_row item.id db)).status ≡ item.status)
unfolding is_foreign
own_row now item db own = elim (Option-cases (find_row item.id db)) [
  | inl missing ↦ rw missing (refl, refl)
  | inr (stored, found) ↦
      let own' = rw (found, is_foreign) at own in
      rw found (ground (arith, ==_iff stored.tenant_id item.tenant_id))
]

saved_foreign :
    (now : Moment) (item : PublishTask) (db : Database)
    → is_foreign item db ≡ true
    → ((save_task now item db).0 ≡ none) × ((save_task now item db).1 ≡ db)
unfolding save_task
saved_foreign now item db f = rw (f, save_task) (refl, refl)

saved_own :
    (now : Moment) (item : PublishTask) (db : Database)
    → is_foreign item db ≡ false
    → (save_task now item db).0 ≡ some (record item { updated_at = some now })
unfolding save_task
saved_own now item db f = rw (f, save_task)

==_flip : (a b : String) → (b == a) ≡ false → (a == b) ≡ false
==_flip a b ne = ground (arith, ==_iff a b, ==_iff b a)

-- Saving a post either is refused, as the stored row is another tenant's, with nothing changed; or
-- the post is read back as it was saved, with the column of its status, and every other row stays.
pub save_cases :
    (now : Moment) (item : PublishTask) (db : Database)
    → let (r, db') = save_task now item db in
      ((is_foreign item db ≡ true) × (r ≡ none) × (db' ≡ db))
      ⊎ ((is_foreign item db ≡ false)
          × (r ≡ some (record item { updated_at = some now }))
          × (get_task_any_tenant item.id db' ≡ r)
          × (Option.map (λ (row : TaskRow). row.status) (find_row item.id db') ≡ some item.status)
          × KeepsOthers item.id db db')
unfolding get_task_any_tenant
save_cases now item db = elim (Bool-cases (is_foreign item db)) [
  | inl foreign ↦ let f = saved_foreign now item db foreign in inl (foreign, f.0, f.1)
  | inr own ↦
      let at = find-save_self now item db own in
      let o = own_row now item db own in
      let r = saved_own now item db own in
      inr (
        own,
        r,
        rw (at, r) (rw o.0),
        rw at (rw o.1),
        KeepsOthers-by item.id db (save_task now item db).1
            (λ x ne. find-save now item x db own ∙ rw (==_flip item.id x ne)),
      )
]

pub save-HasUniqueTasks :
    (now : Moment) (item : PublishTask) (db : Database)
    → HasUniqueTasks db
    → HasUniqueTasks (save_task now item db).1
unfolding save_task
save-HasUniqueTasks now item db u = elim (Bool-cases (is_foreign item db)) [
  | inl foreign ↦ rw (foreign, save_task) u
  | inr own ↦
      rw (own, save_task)
        (upsert-Unique (λ (r : TaskRow). r.id) (task_row now item)
          (overwrite_task (task_row now item)) db.tasks (overwrite_task-id (task_row now item)) u)
]
