-- ===== src/Scheduler/Outcome.antt =====
-- What `run_task` leaves behind: a claimed post is never left in `publishing`.
use omni_flow.Scheduler.Settled.{IsSettled, Yields, work-Yields}
use omni_flow.Prelude.{
  ◌≡◌, refl, sym, ap, ◌∙◌, ◌⊎◌, inl, inr, String, true, false, Option, none, some, arith, ==_refl,
  string_eq,
}
use mathlib.Core.Bool.{false≢true}
use mathlib.Core.Option
use omni_flow.Schemas.{PublishTask, scheduled, publishing, status_eq}
use omni_flow.Store.{Moment, TaskRow, Database}
use omni_flow.Sql.Keys.{keep}
use omni_flow.Store.Tasks.{claimed_task, is_foreign, save_task, claim_task, get_task_any_tenant}
use omni_flow.Store.Tasks.Claims.{
  find_row, HasUniqueTasks, KeepsOthers, KeepsOthers-then, claimed_row, claim_cases,
}
use omni_flow.Store.Tasks.Saves.{save_cases}
use omni_flow.Publisher.{Attempt, returned, raised}
use omni_flow.Scheduler.{
  Service, Clock, failing, work, log_claim, rescue, checked, settle, execute, run_task,
}

-- The row of a post, with the post's tenant.
abbrev pub IsHeld : PublishTask → Database → Type 0
IsHeld task db =
    (row : TaskRow) × (find_row task.id db ≡ some row) × (row.tenant_id ≡ task.tenant_id)

held-own :
    (task done : PublishTask) (db : Database)
    → IsHeld task db
    → done.id ≡ task.id
    → done.tenant_id ≡ task.tenant_id
    → is_foreign done db ≡ false
unfolding is_foreign
held-own task done db (row, found, own) same_id same_tenant =
    rw (same_id, found, is_foreign) (rw (own, same_tenant) (rw (==_refl task.tenant_id)))

-- The post as it was written, and the rest of the table as it was.
abbrev pub IsStored :
    Service → Moment → PublishTask → Option PublishTask × Database → Database → Type 0
IsStored service now task (r, db') db =
    (done : PublishTask) × (r ≡ some done)
    × IsSettled service now task done
    × (get_task_any_tenant task.id db' ≡ some done)
    × KeepsOthers task.id db db'

-- A save of a post that keeps its id and tenant is accepted, and read back.
pub held-save :
    (now : Moment) (task done : PublishTask) (db : Database)
    → IsHeld task db
    → done.id ≡ task.id
    → done.tenant_id ≡ task.tenant_id
    → let (r, db') = save_task now done db in
      let saved = record done { updated_at = some now } in
      (r ≡ some saved) × (get_task_any_tenant task.id db' ≡ some saved) × KeepsOthers task.id db db'
held-save now task done db held same_id same_tenant =
    let own = held-own task done db held same_id same_tenant in
    elim (save_cases now done db) [
      | inl (foreign, _, _) ↦ absurd (false≢true (sym own ∙ foreign))
      | inr (_, r, at, _, others) ↦ (r, rw (sym same_id) (at ∙ r), λ x. rw (sym same_id) (others x))
    ]

save-IsStored :
    (service : Service) (now : Moment) (task done : PublishTask) (db : Database)
    → IsHeld task db
    → IsSettled service now task done
    → IsStored service now task (save_task now done db) db
save-IsStored service now task done db held (same_id, same_tenant, same_attempts, end) =
    let (r, at, others) = held-save now task done db held same_id same_tenant in
    (
      record done { updated_at = some now },
      r,
      (same_id, same_tenant, same_attempts, end),
      at,
      others,
    )

pub checked_done :
    (service : Service) (clock : Clock) (task tried done : PublishTask)
    (p : Option PublishTask × Database)
    → p.0 ≡ some done
    → checked service clock task tried p ≡ p
unfolding checked
checked_done service clock task tried done (some saved, db) e = refl
checked_done service clock task tried done (none, db) e = ground arith

rescue-IsStored :
    (service : Service) (clock : Clock) (e : String) (task fresh : PublishTask) (db : Database)
    → IsHeld task db
    → get_task_any_tenant task.id db ≡ some fresh
    → (fresh.id ≡ task.id) × (fresh.tenant_id ≡ task.tenant_id) × (fresh.attempts ≡ task.attempts)
    → IsStored service clock.after task (rescue service clock e task db) db
unfolding rescue failing
rescue-IsStored service clock e task fresh db held at (same_id, same_tenant, same_attempts) =
    rw (at, rescue)
      (save-IsStored service clock.after task _ db held
        (same_id, same_tenant, same_attempts, inl (inr refl)))

settle-IsStored :
    (service : Service) (clock : Clock) (task fresh : PublishTask) (a : Attempt PublishTask)
    (db : Database)
    → IsHeld task db
    → get_task_any_tenant task.id db ≡ some fresh
    → (fresh.id ≡ task.id) × (fresh.tenant_id ≡ task.tenant_id) × (fresh.attempts ≡ task.attempts)
    → Yields service clock task a
    → IsStored service clock.after task (settle service clock task a db) db
unfolding settle
settle-IsStored service clock task fresh (raised e) db held at same y =
    rescue-IsStored service clock e task fresh db held at same
settle-IsStored service clock task fresh (returned tried) db held at same (inl (e, other)) =
    ground arith
settle-IsStored service clock task fresh (returned tried) db held at same
      (inr (done, same_result, settled)) =
    let same_task : tried ≡ done = cc in
    let s = save-IsStored service clock.after task tried db held (rw same_task settled) in
    rw (checked_done service clock task tried s.0 (save_task clock.after tried db) s.1) s

-- The payload of a row carries the row's id.
abbrev pub HasOwnPayloads : Database → Type 0
HasOwnPayloads db = (id : String) (row : TaskRow) → find_row id db ≡ some row → row.payload.id ≡ id

execute-IsStored :
    (service : Service) (clock : Clock) (task : PublishTask) (db : Database)
    → IsHeld task db
    → get_task_any_tenant task.id db ≡ some task
    → IsStored service clock.after task (execute service clock task db) db
unfolding execute
execute-IsStored service clock task db held at =
    settle-IsStored service clock (log_claim task) task (work service clock (log_claim task) db) db
      held at (refl, refl, refl) (work-Yields service clock (log_claim task) db)

-- A run that was not raised, with the post as it was written, and the rest of the table as it was.
abbrev pub IsRun :
    Service → Moment → PublishTask → Option (Option PublishTask) × Database → Database → Type 0
IsRun service now task (r, db') db =
    (done : PublishTask) × (r ≡ some (some done))
    × IsSettled service now task done
    × (get_task_any_tenant task.id db' ≡ some done)
    × KeepsOthers task.id db db'

-- `run_task` either loses the claim, as the post is not scheduled, and changes nothing; or it takes
-- a scheduled post and counts the attempt, and stores it as published, as failed, or as scheduled
-- again after the retry delay, the last only while attempts are left. No other row changes.
pub run_task_cases :
    (service : Service) (clock : Clock) (id : String) (db : Database)
    → HasUniqueTasks db
    → HasOwnPayloads db
    → let result = run_task service clock id db in
      ((row : TaskRow) × (find_row id db ≡ some row)
        × (status_eq row.status scheduled ≡ true)
        × IsRun service clock.after (claimed_task clock.before publishing row) result db)
      ⊎ ((keep (λ (r : TaskRow). status_eq r.status scheduled) (find_row id db) ≡ none)
          × (result ≡ (some none, db)))
unfolding run_task get_task_any_tenant
run_task_cases service clock id db unique own =
    elim (claim_cases clock.before id scheduled publishing db unique) [
      | inr (missing, lost, same) ↦ inr (missing, rw lost (rw same))
      | inl (row, found, fits, won, at, others) ↦
          let db1 = (claim_task clock.before id scheduled publishing db).1 in
          let task = claimed_task clock.before publishing row in
          let same_id = own id row found in
          let moved : find_row task.id db1 ≡ some (claimed_row clock.before publishing row) =
            ap (λ k. find_row k db1) same_id ∙ at in
          let stored : get_task_any_tenant task.id db1 ≡ some task = rw moved in
          let (done, r, settled, got, rest) =
            execute-IsStored service clock task db1
              (claimed_row clock.before publishing row, moved, refl) stored in
          let stored' : get_task_any_tenant id db1 ≡ some task = rw at in
          inl (
            row,
            found,
            fits,
            rw (won, stored', run_task)
                (
                  done,
                  ap (Option.map some) r,
                  settled,
                  got,
                  KeepsOthers-then id task.id db db1 (execute service clock task db1).1 same_id
                      others rest,
                ),
          )
    ]
