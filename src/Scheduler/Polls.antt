-- ===== src/Scheduler/Polls.antt =====
-- What a whole poll leaves behind: the recovery of stuck posts and the run of each due one.
use mathlib.Core.Option
use Prim.Native.Nat.{zero, suc}
use omni_flow.Prelude.{
  ℕ, ◌+◌, ◌-◌, ◌≤◌, ◌≡◌, refl, ap, ◌∙◌, ◌⊎◌, inl, inr, arith, String, Bool, true, false, Option,
  none, some, List, [], ◌∷◌, take, length, map, is_some, if◌then◌else◌,
}
use omni_flow.Schemas.{PublishTask, scheduled, publishing, status_eq}
use omni_flow.Sql.{select, order_by}
use omni_flow.Store.{Moment, TaskRow, Database}
use omni_flow.Store.Tasks.{
  row_task, claimed_task, due_before, is_due, get_task_any_tenant, list_due_tasks,
  list_recoverable_tasks,
}
use omni_flow.Store.Tasks.Claims.{KeepsOthers}
use omni_flow.Scheduler.{
  Service, Clock, run_task, recover_one, recover_all, recover_stuck_tasks, run_all, after_recovery,
  poll_once,
}
use omni_flow.Scheduler.Settled.{IsSettled}
use omni_flow.Scheduler.Outcome.{run_task_cases}
use omni_flow.Scheduler.Recovery.{IsRecovered, recover_one_cases}
use omni_flow.Scheduler.Wellformed.{
  IsWellFormed, run_task-IsWellFormed, run_all-IsWellFormed, recover_one-IsWellFormed,
  recover_all-IsWellFormed,
}

-- A post is as it was, or is not being published.
abbrev pub IsLeft : Database → Database → String → Type 0
IsLeft db db' id =
    (get_task_any_tenant id db' ≡ get_task_any_tenant id db)
    ⊎ ((done : PublishTask) × (get_task_any_tenant id db' ≡ some done)
        × (status_eq done.status publishing ≡ false))

pub IsLeft-then :
    (db db' db'' : Database) (id : String)
    → IsLeft db db' id
    → IsLeft db' db'' id
    → IsLeft db db'' id
IsLeft-then db db' db'' id first (inr end) = inr end
IsLeft-then db db' db'' id (inl kept) (inl kept') = inl (kept' ∙ kept)
IsLeft-then db db' db'' id (inr (done, at, ended)) (inl kept') = inr (done, kept' ∙ at, ended)

-- A step that writes one post.
pub written-IsLeft :
    (db db' : Database) (id x : String) (done : PublishTask)
    → get_task_any_tenant id db' ≡ some done
    → status_eq done.status publishing ≡ false
    → KeepsOthers id db db'
    → IsLeft db db' x
unfolding get_task_any_tenant
written-IsLeft db db' id x done at ended others = elim (others x) [
  | inl same ↦ inr (done, ap (λ k. get_task_any_tenant k db') same ∙ at, ended)
  | inr kept ↦ inl (ap (Option.map row_task) kept)
]

length-batch : (limit : ℕ) (rows : List TaskRow) → length (map row_task (take limit rows)) ≤ limit
length-batch limit [] = omega arith
length-batch zero (r ∷ rows) = omega arith
length-batch (suc limit) (r ∷ rows) = let rest = length-batch limit rows in omega (arith, rest)

module _ (service : Service) (clock : Clock) where
  settled_ended :
      (now : Moment) (task done : PublishTask)
      → IsSettled service now task done
      → status_eq done.status publishing ≡ false
  settled_ended now task done (_, _, _, inl (inl e)) = rw e refl
  settled_ended now task done (_, _, _, inl (inr e)) = rw e refl
  settled_ended now task done (_, _, _, inr (e, _, _)) = rw e refl

  pub recovered_ended :
      (row : TaskRow) (done : PublishTask)
      → IsRecovered service (claimed_task clock.before scheduled row) done
      → status_eq done.status publishing ≡ false
  recovered_ended row done (_, _, _, inl (_, e)) = rw e refl
  recovered_ended row done (_, _, _, inr (_, e)) = rw e refl

  -- One run is not raised.
  run_task-IsLeft :
      (id x : String) (db : Database)
      → IsWellFormed db
      → let (r, db') = run_task service clock id db in
        ((stored : Option PublishTask) × (r ≡ some stored)) × IsLeft db db' x
  run_task-IsLeft id x db (unique, own) = elim (run_task_cases service clock id db unique own) [
    | inr (_, lost) ↦ rw lost ((none, refl), inl refl)
    | inl (row, found, _, (done, r, settled, at, others)) ↦ (
      (some done, r),
      written-IsLeft db (run_task service clock id db).1
          (claimed_task clock.before publishing row).id x done at
          (settled_ended clock.after (claimed_task clock.before publishing row) done settled)
          others,
    )
  ]

  pub recover_one-IsLeft :
      (id x : String) (db : Database)
      → IsWellFormed db
      → let (r, db') = recover_one service clock id db in ((n : ℕ) × (r ≡ some n)) × IsLeft db db' x
  recover_one-IsLeft id x db (unique, own) =
      elim (recover_one_cases service clock id db unique own) [
        | inr (_, lost) ↦ rw lost ((0, refl), inl refl)
        | inl (row, found, _, (done, r, back, at, others)) ↦ (
          (1, r),
          written-IsLeft db (recover_one service clock id db).1
              (claimed_task clock.before scheduled row).id x done at (recovered_ended row done back)
              others,
        )
      ]

  pub recover_all-IsLeft :
      (tasks : List PublishTask) (x : String) (db : Database)
      → IsWellFormed db
      → let (r, db') = recover_all service clock tasks db in
        ((n : ℕ) × (r ≡ some n)) × IsLeft db db' x
  unfolding recover_all
  recover_all-IsLeft [] x db w = ((0, refl), inl refl)
  recover_all-IsLeft (task ∷ tasks) x db w =
      let db' = (recover_one service clock task.id db).1 in
      let ((n, went_on), first) = recover_one-IsLeft task.id x db w in
      let w' = recover_one-IsWellFormed service clock task.id db w in
      let ((m, r), later) = recover_all-IsLeft tasks x db' w' in
      rw (went_on, recover_all)
        (
          (n + m, ap (Option.map (λ m. n + m)) r),
          IsLeft-then db db' (recover_all service clock tasks db').1 x first later,
        )

  pub run_all-IsLeft :
      (tasks : List PublishTask) (x : String) (db : Database)
      → IsWellFormed db
      → let (r, db') = run_all service clock tasks db in
        ((n : ℕ) × (r ≡ some n) × (n ≤ length tasks)) × IsLeft db db' x
  unfolding run_all
  run_all-IsLeft [] x db w = ((0, refl, omega arith), inl refl)
  run_all-IsLeft (task ∷ tasks) x db w =
      let db' = (run_task service clock task.id db).1 in
      let ((stored, went_on), first) = run_task-IsLeft task.id x db w in
      let w' = run_task-IsWellFormed service clock task.id db w in
      let ((m, r, bound), later) = run_all-IsLeft tasks x db' w' in
      rw (went_on, run_all)
        (
          (
            (if is_some stored then m + 1 else m),
            ap (Option.map (λ m. if is_some stored then m + 1 else m)) r,
            ground (arith, bound),
          ),
          IsLeft-then db db' (run_all service clock tasks db').1 x first later,
        )

  due-length :
      (now : Moment) (limit : ℕ) (db : Database) → length (list_due_tasks now limit db) ≤ limit
  unfolding list_due_tasks
  due-length now limit db = length-batch limit (order_by due_before (select (is_due now) db.tasks))

  abbrev pub stuck_tasks : Database → List PublishTask
  stuck_tasks db = list_recoverable_tasks (clock.before - service.stale_after) db

  abbrev pub freed : Database → Database
  freed db = (recover_all service clock (stuck_tasks db) db).1

  abbrev pub due_tasks : Database → List PublishTask
  due_tasks db = list_due_tasks clock.before service.batch_size (freed db)

  -- A leader's poll runs the due posts once the stuck ones are recovered.
  pub leader_poll :
      (db : Database)
      → IsWellFormed db
      → poll_once service clock true db ≡ run_all service clock (due_tasks db) (freed db)
  unfolding poll_once recover_stuck_tasks
  leader_poll db w =
      let ((n, went_on), _) = recover_all-IsLeft (stuck_tasks db) "" db w in
      ap (λ o. after_recovery service clock (o, freed db)) went_on

  -- On a table of unique ids whose payloads carry them, a poll raises no exception and runs at most
  -- as many posts as its batch holds; a worker that is not the leader does nothing. Whatever the
  -- platforms answer, each post reads afterwards as it did before, or it is not in `publishing`:
  -- none that the poll took is left there. Ids stay unique, and payloads keep the ids of their rows.
  pub poll_once_settles :
      (leads : Bool) (db : Database)
      → IsWellFormed db
      → let (r, db') = poll_once service clock leads db in
        ((n : ℕ) × (r ≡ some n) × (n ≤ service.batch_size))
        × ((leads ≡ true) ⊎ ((r ≡ some 0) × (db' ≡ db)))
        × ((id : String) → IsLeft db db' id)
        × IsWellFormed db'
  unfolding poll_once
  poll_once_settles false db w = ((0, refl, omega arith), inr (refl, refl), (λ id. inl refl), w)
  poll_once_settles true db w =
      let w' = recover_all-IsWellFormed service clock (stuck_tasks db) db w in
      let ((m, r, bound), _) = run_all-IsLeft (due_tasks db) "" (freed db) w' in
      let small = due-length clock.before service.batch_size (freed db) in
      rw (leader_poll db w) (
        (m, r, omega (arith, bound, small)),
        inl refl,
        (λ id.
            IsLeft-then db (freed db) (run_all service clock (due_tasks db) (freed db)).1 id
              (recover_all-IsLeft (stuck_tasks db) id db w).1
              (run_all-IsLeft (due_tasks db) id (freed db) w').1),
        run_all-IsWellFormed service clock (due_tasks db) (freed db) w',
      )
