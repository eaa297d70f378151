-- ===== src/Scheduler/Lateness.antt =====
-- Overdue posts are failed, not published.
use mathlib.Core.Option
use omni_flow.Prelude.{
  ◌+◌, ◌<◌, ◌≡◌, refl, sym, ap, ◌∙◌, inl, inr, String, true, Option, some, string_eq, lt→ltb,
}
use omni_flow.Schemas.{PublishTask, scheduled, publishing, failed}
use omni_flow.Store.{Moment, TaskRow, Database}
use omni_flow.Store.Tasks.{row_task, claimed_task, claim_task, save_task, get_task_any_tenant}
use omni_flow.Store.Tasks.Claims.{find_row, HasUniqueTasks, claimed_row, claim_cases}
use omni_flow.Publisher.{Attempt, Gateway, Credentials}
use omni_flow.Scheduler.{
  Service, Clock, failing, missed_due, missed_message, log_claim, work, settle, execute, as_run,
  run_task,
}
use omni_flow.Scheduler.Outcome.{IsHeld, held-save, HasOwnPayloads, checked_done}

missed_due_lem :
    (service : Service) (now due : Moment) (task : PublishTask)
    → task.scheduled_at ≡ some due
    → due + service.max_late < now
    → missed_due service now task ≡ some due
unfolding missed_due
missed_due_lem service now due task at late = rw (at, lt→ltb (due + service.max_late) now late)

-- The failed post that an overdue one is stored as.
abbrev missed : Service → Clock → Moment → PublishTask → PublishTask
missed service clock due task = failing (missed_message service clock.before due) (log_claim task)

execute-missed :
    (service : Service) (clock : Clock) (due : Moment) (task : PublishTask) (db : Database)
    → IsHeld task db
    → task.scheduled_at ≡ some due
    → due + service.max_late < clock.before
    → execute service clock task db ≡ save_task clock.after (missed service clock due task) db
unfolding execute settle work failing
execute-missed service clock due task db held at late =
    let done = missed service clock due task in
    let saved = held-save clock.after task done db held refl refl in
    rw (missed_due_lem service clock.before due (log_claim task) at late, execute)
      (checked_done service clock (log_claim task) done _ (save_task clock.after done db) saved.0)

-- The post that a claim has taken.
claimed-IsHeld :
    (now : Moment) (id : String) (row : TaskRow) (db : Database)
    → HasUniqueTasks db
    → HasOwnPayloads db
    → find_row id db ≡ some row
    → row.status ≡ scheduled
    → let (won, db1) = claim_task now id scheduled publishing db in
      IsHeld (claimed_task now publishing row) db1
      × (won ≡ true)
      × (get_task_any_tenant id db1 ≡ some (claimed_task now publishing row))
unfolding get_task_any_tenant
claimed-IsHeld now id row db unique own found fits =
    elim (claim_cases now id scheduled publishing db unique) [
      | inr (missing, _, _) ↦ let e = rw (found, fits) at missing in absurd (cc e)
      | inl (row', found', _, won, at, _) ↦
          let same : row' ≡ row = cc (sym found' ∙ found) in
          let at' = rw same at at in
          let db1 = (claim_task now id scheduled publishing db).1 in
          (
            (
              claimed_row now publishing row,
              ap (λ k. find_row k db1) (own id row found) ∙ at',
              refl,
            ),
            won,
            ap (Option.map row_task) at',
          )
    ]

run_missed :
    (service : Service) (clock : Clock) (due : Moment) (row : TaskRow) (id : String) (db : Database)
    → HasUniqueTasks db
    → HasOwnPayloads db
    → find_row id db ≡ some row
    → row.status ≡ scheduled
    → row.payload.scheduled_at ≡ some due
    → due + service.max_late < clock.before
    → let db1 = (claim_task clock.before id scheduled publishing db).1 in
      run_task service clock id db
      ≡ as_run (
          save_task clock.after
            (missed service clock due (claimed_task clock.before publishing row))
            db1)
unfolding run_task
run_missed service clock due row id db unique own found fits at late =
    let db1 = (claim_task clock.before id scheduled publishing db).1 in
    let task = claimed_task clock.before publishing row in
    let (held, won, got) = claimed-IsHeld clock.before id row db unique own found fits in
    rw (won, got, run_task) (ap as_run (execute-missed service clock due task db1 held at late))

-- On a table of unique ids whose payloads carry them, a scheduled post whose due time is past by
-- more than the grace window is claimed and stored as failed, with a message that names its due time; it has no other publication than it had. The
-- publisher does not enter: whichever gateway and credentials the service had instead, the run would
-- answer the same and leave the same database.
pub overdue_never_published :
    (service : Service) (gateway : Gateway) (resolver : Option (PublishTask → Attempt Credentials))
    (clock : Clock) (due : Moment) (row : TaskRow) (id : String) (db : Database)
    → HasUniqueTasks db
    → HasOwnPayloads db
    → find_row id db ≡ some row
    → row.status ≡ scheduled
    → row.payload.scheduled_at ≡ some due
    → due + service.max_late < clock.before
    → let (r, db') = run_task service clock id db in
      (done : PublishTask) × (r ≡ some (some done))
      × (get_task_any_tenant id db' ≡ some done)
      × (done.status ≡ failed)
      × (done.error ≡ some (missed_message service clock.before due))
      × (done.published_at ≡ row.payload.published_at)
      × (done.external_post_id ≡ row.payload.external_post_id)
      × (run_task (record service { gateway = gateway; resolver = resolver }) clock id db
          ≡ (r, db'))
unfolding failing
overdue_never_published service gateway resolver clock due row id db unique own found fits at late =
    let db1 = (claim_task clock.before id scheduled publishing db).1 in
    let task = claimed_task clock.before publishing row in
    let held = claimed-IsHeld clock.before id row db unique own found fits in
    let other = record service { gateway = gateway; resolver = resolver } in
    let done = missed service clock due task in
    let (r, read, _) = held-save clock.after task done db1 held.0 refl refl in
    let ran = run_missed service clock due row id db unique own found fits at late in
    let ran' = run_missed other clock due row id db unique own found fits at late in
    (
      record done { updated_at = some clock.after },
      ap (λ q. q.0) ran ∙ ap (Option.map some) r,
      ap (λ q. get_task_any_tenant id q.1) ran
          ∙ ap (λ k. get_task_any_tenant k (save_task clock.after done db1).1)
              (sym (own id row found))
          ∙ read,
      refl,
      refl,
      refl,
      refl,
      ran' ∙ sym ran,
    )
