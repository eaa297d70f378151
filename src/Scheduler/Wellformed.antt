-- ===== src/Scheduler/Wellformed.antt =====
-- The invariant of the table of tasks under everything that a worker does.
use mathlib.Core.Option
use omni_flow.Prelude.{
  ◌≡◌, sym, ap, ◌∙◌, inl, inr, String, Option, none, some, List, [], ◌∷◌, string_eq, Bool-cases,
  Option-cases,
}
use omni_flow.Schemas.{PublishTask, PublishStatus, scheduled, publishing}
use omni_flow.Store.{Moment, TaskRow, Database}
use omni_flow.Store.Tasks.{row_task, claim_task, save_task, get_task_any_tenant}
use omni_flow.Store.Tasks.Claims.{
  find_row, HasUniqueTasks, claimed_row, claim_cases, claim-HasUniqueTasks,
}
use omni_flow.Store.Tasks.Saves.{save_cases, save-HasUniqueTasks}
use omni_flow.Publisher.{Attempt, returned, raised}
use omni_flow.Scheduler.{
  Service, Clock, work, rescue, write_error, checked, settle, log_claim, execute, when_found,
  run_task, recover_fresh, recover_one, recover_all, run_all,
}
use omni_flow.Scheduler.Outcome.{HasOwnPayloads}

-- Ids are unique, and a payload carries its row's id.
abbrev pub IsWellFormed : Database → Type 0
IsWellFormed db = HasUniqueTasks db × HasOwnPayloads db

claim-HasOwnPayloads :
    (now : Moment) (id : String) (expected status : PublishStatus) (db : Database)
    → HasUniqueTasks db
    → HasOwnPayloads db
    → HasOwnPayloads (claim_task now id expected status db).1
claim-HasOwnPayloads now id expected status db unique own x row there =
    elim (claim_cases now id expected status db unique) [
      | inr (_, _, same) ↦ own x row (rw (sym same) there)
      | inl (before, found, _, _, at, others) ↦ elim (others x) [
        | inr k ↦ own x row (sym k ∙ there)
        | inl here ↦
            let moved : some row ≡ some (claimed_row now status before) =
              sym there ∙ ap (λ k. find_row k (claim_task now id expected status db).1) here ∙ at in
            let same : row ≡ claimed_row now status before = cc in
            ap (λ (r : TaskRow). r.payload.id) same ∙ own id before found ∙ sym here
      ]
    ]

save-HasOwnPayloads :
    (now : Moment) (item : PublishTask) (db : Database)
    → HasOwnPayloads db
    → HasOwnPayloads (save_task now item db).1
unfolding get_task_any_tenant
save-HasOwnPayloads now item db own x row there = elim (save_cases now item db) [
  | inl (_, _, same) ↦ own x row (rw (sym same) there)
  | inr (_, r, at, _, others) ↦ elim (others x) [
    | inr k ↦ own x row (sym k ∙ there)
    | inl here ↦
        let stored : some (row_task row) ≡ some (record item { updated_at = some now }) =
          ap (Option.map row_task) (sym there ∙ ap (λ k. find_row k (save_task now item db).1) here)
          ∙ at
          ∙ r in
        let same : row_task row ≡ record item { updated_at = some now } = cc in
        ap (λ (t : PublishTask). t.id) same ∙ sym here
  ]
]

claim-IsWellFormed :
    (now : Moment) (id : String) (expected status : PublishStatus) (db : Database)
    → IsWellFormed db
    → IsWellFormed (claim_task now id expected status db).1
claim-IsWellFormed now id expected status db (unique, own) = (
  claim-HasUniqueTasks now id expected status db unique,
  claim-HasOwnPayloads now id expected status db unique own,
)

save-IsWellFormed :
    (now : Moment) (item : PublishTask) (db : Database)
    → IsWellFormed db
    → IsWellFormed (save_task now item db).1
save-IsWellFormed now item db (unique, own) =
    (save-HasUniqueTasks now item db unique, save-HasOwnPayloads now item db own)

module _ (service : Service) (clock : Clock) where
  rescue-IsWellFormed :
      (e : String) (task : PublishTask) (db : Database)
      → IsWellFormed db
      → IsWellFormed (rescue service clock e task db).1
  unfolding rescue
  rescue-IsWellFormed e task db w = save-IsWellFormed clock.after _ db w

  checked-IsWellFormed :
      (task tried : PublishTask) (p : Option PublishTask × Database)
      → IsWellFormed p.1
      → IsWellFormed (checked service clock task tried p).1
  unfolding checked
  checked-IsWellFormed task tried (some saved, db) w = w
  checked-IsWellFormed task tried (none, db) w =
      rescue-IsWellFormed (write_error service clock tried) task db w

  settle-IsWellFormed :
      (task : PublishTask) (a : Attempt PublishTask) (db : Database)
      → IsWellFormed db
      → IsWellFormed (settle service clock task a db).1
  unfolding settle
  settle-IsWellFormed task (raised e) db w = rescue-IsWellFormed e task db w
  settle-IsWellFormed task (returned done) db w =
      checked-IsWellFormed task done (save_task clock.after done db)
        (save-IsWellFormed clock.after done db w)

  when_found-IsWellFormed :
      (o : Option PublishTask) (db : Database)
      → IsWellFormed db
      → IsWellFormed (when_found service clock o db).1
  unfolding execute
  when_found-IsWellFormed none db w = w
  when_found-IsWellFormed (some task) db w =
      settle-IsWellFormed (log_claim task) (work service clock (log_claim task) db) db w

  pub run_task-IsWellFormed :
      (id : String) (db : Database)
      → IsWellFormed db
      → IsWellFormed (run_task service clock id db).1
  unfolding run_task
  run_task-IsWellFormed id db w =
      let (won, claimed) = claim_task clock.before id scheduled publishing db in
      let w' = claim-IsWellFormed clock.before id scheduled publishing db w in
      elim (Bool-cases won) [
        | inl wins ↦
            rw (wins, run_task)
              (when_found-IsWellFormed (get_task_any_tenant id claimed) claimed w')
        | inr lost ↦ rw (lost, run_task) w'
      ]

  recover_fresh-IsWellFormed :
      (o : Option PublishTask) (db : Database)
      → IsWellFormed db
      → IsWellFormed (recover_fresh service clock o db).1
  recover_fresh-IsWellFormed none db w = w
  recover_fresh-IsWellFormed (some task) db w = save-IsWellFormed clock.before _ db w

  pub recover_one-IsWellFormed :
      (id : String) (db : Database)
      → IsWellFormed db
      → IsWellFormed (recover_one service clock id db).1
  unfolding recover_one
  recover_one-IsWellFormed id db w =
      let (won, claimed) = claim_task clock.before id publishing scheduled db in
      let w' = claim-IsWellFormed clock.before id publishing scheduled db w in
      elim (Bool-cases won) [
        | inl wins ↦
            rw (wins, recover_one)
              (recover_fresh-IsWellFormed (get_task_any_tenant id claimed) claimed w')
        | inr lost ↦ rw (lost, recover_one) w'
      ]

  pub recover_all-IsWellFormed :
      (tasks : List PublishTask) (db : Database)
      → IsWellFormed db
      → IsWellFormed (recover_all service clock tasks db).1
  unfolding recover_all
  recover_all-IsWellFormed [] db w = w
  recover_all-IsWellFormed (task ∷ tasks) db w =
      let w' = recover_one-IsWellFormed task.id db w in
      elim (Option-cases (recover_one service clock task.id db).0) [
        | inl stopped ↦ rw (stopped, recover_all) w'
        | inr (n, went_on) ↦
            rw (went_on, recover_all)
              (recover_all-IsWellFormed tasks (recover_one service clock task.id db).1 w')
      ]

  pub run_all-IsWellFormed :
      (tasks : List PublishTask) (db : Database)
      → IsWellFormed db
      → IsWellFormed (run_all service clock tasks db).1
  unfolding run_all
  run_all-IsWellFormed [] db w = w
  run_all-IsWellFormed (task ∷ tasks) db w =
      let w' = run_task-IsWellFormed task.id db w in
      elim (Option-cases (run_task service clock task.id db).0) [
        | inl stopped ↦ rw (stopped, run_all) w'
        | inr (r, went_on) ↦
            rw (went_on, run_all)
              (run_all-IsWellFormed tasks (run_task service clock task.id db).1 w')
      ]
