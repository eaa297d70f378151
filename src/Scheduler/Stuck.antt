-- ===== src/Scheduler/Stuck.antt =====
-- A poll frees the posts that a crashed worker left in `publishing`.
use mathlib.Core.Bool.{false≢true}
use omni_flow.Prelude.{
  ◌+◌, ◌-◌, ◌<◌, ◌≡◌, refl, sym, ap, ◌∙◌, inl, inr, arith, String, Bool, true, false, some, List,
  [], ◌∷◌, map, Among, ◌==◌, ==_iff, string_eq, Bool-cases, lt→ltb,
}
use omni_flow.Schemas.{PublishTask, publishing, status_eq}
use omni_flow.Sql.{select, lookup}
use omni_flow.Store.{Moment, TaskRow, Database}
use omni_flow.Store.Tasks.{row_task, is_recoverable, get_task_any_tenant, list_recoverable_tasks}
use omni_flow.Store.Tasks.Claims.{find_row, kept}
use omni_flow.Scheduler.{Service, Clock, recover_one, recover_all, run_all, poll_once}
use omni_flow.Scheduler.Recovery.{recover_one_cases}
use omni_flow.Scheduler.Wellformed.{
  IsWellFormed, recover_one-IsWellFormed, recover_all-IsWellFormed,
}
use omni_flow.Scheduler.Polls.{
  IsLeft, recovered_ended, recover_one-IsLeft, recover_all-IsLeft, run_all-IsLeft, stuck_tasks,
  freed, due_tasks, leader_poll,
}

abbrev pub IsFree : String → Database → Type 0
IsFree id db =
    (done : PublishTask) × (get_task_any_tenant id db ≡ some done)
    × (status_eq done.status publishing ≡ false)

left-IsFree : (db db' : Database) (id : String) → IsFree id db → IsLeft db db' id → IsFree id db'
left-IsFree db db' id (done, at, ended) (inl same) = (done, same ∙ at, ended)
left-IsFree db db' id free (inr end) = end

-- A row that the query wants is listed.
listed :
    (p : TaskRow → Bool) (id : String) (row : TaskRow) (rows : List TaskRow)
    → lookup (λ (r : TaskRow). r.id) id rows ≡ some row
    → p row ≡ true
    → Among row.payload.id (map (λ (t : PublishTask). t.id) (map row_task (select p rows)))
unfolding lookup select
listed p id row [] found fits = absurd (cc found)
listed p id row (r ∷ rows) found fits = elim (Bool-cases (r.id == id)) [
  | inl here ↦ let e = rw here at found in let same : r ≡ row = cc e in rw same (rw fits (inl refl))
  | inr other ↦
      let rest = listed p id row rows (rw other at found) fits in
      elim (Bool-cases (p r)) [ inl too ↦ rw too (inr rest) | inr not_so ↦ rw not_so rest ]
]

module _ (service : Service) (clock : Clock) where
  recover_one-IsFree :
      (id : String) (row : TaskRow) (db : Database)
      → IsWellFormed db
      → find_row id db ≡ some row
      → row.status ≡ publishing
      → IsFree id (recover_one service clock id db).1
  recover_one-IsFree id row db (unique, own) found stuck =
      elim (recover_one_cases service clock id db unique own) [
        | inr (missing, _) ↦ let e = rw (found, stuck) at missing in absurd (cc e)
        | inl (row', found', _, (done, _, back, at, _)) ↦ (
          done,
          ap (λ k. get_task_any_tenant k (recover_one service clock id db).1)
                (sym (own id row' found'))
              ∙ at,
          recovered_ended service clock row' done back,
        )
      ]

  recover_one-kept :
      (id x : String) (db : Database)
      → IsWellFormed db
      → (x == id) ≡ false
      → find_row x (recover_one service clock id db).1 ≡ find_row x db
  recover_one-kept id x db (unique, own) ne =
      elim (recover_one_cases service clock id db unique own) [
        | inr (_, lost) ↦ rw lost refl
        | inl (row, found, _, (_, _, _, _, others)) ↦
            kept row.payload.id x db (recover_one service clock id db).1 others
              (rw (own id row found) ne)
      ]

  -- A post that is listed is freed at its turn, and stays so.
  recover_all-IsFree :
      (tasks : List PublishTask) (x : String) (row : TaskRow) (db : Database)
      → IsWellFormed db
      → find_row x db ≡ some row
      → row.status ≡ publishing
      → Among x (map (λ (t : PublishTask). t.id) tasks)
      → IsFree x (recover_all service clock tasks db).1
  unfolding recover_all
  recover_all-IsFree [] x row db w found stuck among = absurd among
  recover_all-IsFree (task ∷ tasks) x row db w found stuck among =
      let db' = (recover_one service clock task.id db).1 in
      let ((n, went_on), _) = recover_one-IsLeft service clock task.id x db w in
      let w' = recover_one-IsWellFormed service clock task.id db w in
      rw (went_on, recover_all)
        (elim (Bool-cases (x == task.id)) [
          | inl here ↦
              let same = (==_iff x task.id).0 here in
              let free = recover_one-IsFree x row db w found stuck in
              left-IsFree db' (recover_all service clock tasks db').1 x (rw (← same) free)
                (recover_all-IsLeft service clock tasks x db' w').1
          | inr ne ↦
              recover_all-IsFree tasks x row db' w' (recover_one-kept task.id x db w ne ∙ found)
                stuck
                (elim among [
                  | inl here ↦ absurd (false≢true (sym ne ∙ (==_iff x task.id).1 (sym here)))
                  | inr later ↦ later
                ])
        ])

  -- On a table of unique ids whose payloads carry them, a post that is in `publishing` when a leader
  -- polls, and was last updated longer ago than the time that counts as stale, is on record after the
  -- poll and no longer in `publishing`.
  pub poll_once_frees :
      (id : String) (row : TaskRow) (since : Moment) (db : Database)
      → IsWellFormed db
      → find_row id db ≡ some row
      → row.status ≡ publishing
      → row.updated_at ≡ some since
      → since + service.stale_after < clock.before
      → IsFree id (poll_once service clock true db).1
  unfolding list_recoverable_tasks
  poll_once_frees id row since db w found stuck at old =
      let before = clock.before - service.stale_after in
      let early : since < before = omega (arith, old) in
      let wanted : is_recoverable before row ≡ true =
        rw stuck (rw at (lt→ltb since before early)) in
      let among = listed (is_recoverable before) id row db.tasks found wanted in
      let free =
        recover_all-IsFree (stuck_tasks service clock db) id row db w found stuck
          (rw (← w.1 id row found) among) in
      let w' = recover_all-IsWellFormed service clock (stuck_tasks service clock db) db w in
      rw (leader_poll service clock db w) (
        left-IsFree (freed service clock db)
          (run_all service clock (due_tasks service clock db) (freed service clock db)).1 id free
          (run_all-IsLeft service clock (due_tasks service clock db) id (freed service clock db)
            w').1)
