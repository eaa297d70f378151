-- ===== src/Scheduler/Exclusion.antt =====
-- Any number of workers that claim, recover and save posts, in the order in which the database
-- serialises their calls: each of `claim_task` and `save_task` is one transaction.
use omni_flow.Prelude.{
  ℕ, ◌+◌, ◌≤◌, ◌≡◌, ap, ◌∙◌, ◌⊎◌, inl, inr, String, Bool, true, false, Option, none, some, List, [],
  ◌∷◌, arith, ◌==◌, ==_iff, string_eq, ◌&&◌, Bool-cases, is_some, one_if,
}
use mathlib.Core.Option
use omni_flow.Schemas.{PublishStatus, PublishTask, scheduled, publishing, status_eq}
use omni_flow.Store.{Moment, TaskRow, Database}
use omni_flow.Store.Tasks.{claim_task, save_task}
use omni_flow.Store.Tasks.Claims.{find_row, HasUniqueTasks, kept, claim_cases, claim-HasUniqueTasks}
use omni_flow.Store.Tasks.Saves.{save_cases, save-HasUniqueTasks}

-- A worker's call of the store: the claim of `run_task`, the one of `recover_stuck_tasks`, a save.
pub data Event : Type 0 where
  bid : Moment → String → Event
  recover : Moment → String → Event
  write : Moment → PublishTask → Event

-- Whether the event claims the post `id` for publishing, whether it makes the post claimable, and
-- the database after it.
pub record Effect : Type 0 where
  pub wins : Bool
  pub returns : Bool
  pub db : Database

unfoldable pub occur : String → Event → Database → Effect
occur id (bid now claimed) db =
    let (won, db') = claim_task now claimed scheduled publishing db in
    record { wins = won && claimed == id; returns = false; db = db' }
occur id (recover now claimed) db =
    let (won, db') = claim_task now claimed publishing scheduled db in
    record { wins = false; returns = won && claimed == id; db = db' }
occur id (write now task) db =
    let (saved, db') = save_task now task db in
    record {
      wins = false;
      returns = is_some saved && (task.id == id && status_eq task.status scheduled);
      db = db';
    }

unfoldable pub count_wins : String → List Event → Database → ℕ
unfolding occur
count_wins id [] db = 0
count_wins id (event ∷ events) db =
    let effect = occur id event db in one_if effect.wins + count_wins id events effect.db

unfoldable pub count_returns : String → List Event → Database → ℕ
unfolding occur
count_returns id [] db = 0
count_returns id (event ∷ events) db =
    let effect = occur id event db in one_if effect.returns + count_returns id events effect.db

-- 1 if the post has the status.
abbrev row_in : PublishStatus → Option TaskRow → ℕ
row_in status none = 0
row_in status (some row) = one_if (status_eq row.status status)

abbrev pub in_status : PublishStatus → String → Database → ℕ
in_status status id db = row_in status (find_row id db)

same_key : (id claimed : String) → (claimed == id) ≡ true → id ≡ claimed
same_key id claimed h = ground (arith, ==_iff claimed id)

other_key : (id claimed : String) → (claimed == id) ≡ false → (id == claimed) ≡ false
other_key id claimed h = ground (arith, ==_iff claimed id, ==_iff id claimed)

-- What a claim of any post does to the status of `id`.
claim-in_status :
    (id : String) (now : Moment) (claimed : String) (expected status : PublishStatus)
    (db : Database)
    → HasUniqueTasks db
    → let (won, db') = claim_task now claimed expected status db in
      (((won && claimed == id) ≡ true)
        × (in_status expected id db ≡ 1)
        × (in_status scheduled id db' ≡ one_if (status_eq status scheduled)))
      ⊎ (((won && claimed == id) ≡ false)
          × (in_status scheduled id db' ≡ in_status scheduled id db))
claim-in_status id now claimed expected status db u =
    elim (claim_cases now claimed expected status db u) [
      | inr (_, lost, same) ↦ inr (rw lost, rw same)
      | inl (row, found, fits, won, at, others) ↦ elim (Bool-cases (claimed == id)) [
        | inl same ↦ inl (
          rw (won, same),
          rw (same_key id claimed same, found, fits),
          rw (same_key id claimed same, at),
        )
        | inr other ↦ inr (
          rw (won, other),
          rw (
              kept claimed id db (claim_task now claimed expected status db).1 others
                (other_key id claimed other)),
        )
      ]
    ]

row_in_status :
    (o : Option TaskRow) (status : PublishStatus)
    → Option.map (λ (row : TaskRow). row.status) o ≡ some status
    → row_in scheduled o ≡ one_if (status_eq status scheduled)
row_in_status none status e = ground arith
row_in_status (some row) status e = let same : row.status ≡ status = cc in rw same

save-in_status :
    (id : String) (now : Moment) (task : PublishTask) (db : Database)
    → let (saved, db') = save_task now task db in
      in_status scheduled id db'
      ≤ in_status scheduled id db
        + one_if (is_some saved && (task.id == id && status_eq task.status scheduled))
save-in_status id now task db = elim (save_cases now task db) [
  | inl (_, r, same) ↦ rw (r, same) (ground arith)
  | inr (_, r, _, status, others) ↦ elim (Bool-cases (task.id == id)) [
    | inl same ↦
        let k : in_status scheduled id (save_task now task db).1
            ≡ one_if (status_eq task.status scheduled) =
          ap (λ k. in_status scheduled k (save_task now task db).1) (same_key id task.id same)
          ∙ row_in_status _ task.status status in
        rw (k, r, same) (ground arith)
    | inr other ↦
        rw (kept task.id id db (save_task now task db).1 others (other_key id task.id other))
          (ground arith)
  ]
]

occur-HasUniqueTasks :
    (id : String) (event : Event) (db : Database)
    → HasUniqueTasks db
    → HasUniqueTasks (occur id event db).db
unfolding occur
occur-HasUniqueTasks id (bid now claimed) db u =
    claim-HasUniqueTasks now claimed scheduled publishing db u
occur-HasUniqueTasks id (recover now claimed) db u =
    claim-HasUniqueTasks now claimed publishing scheduled db u
occur-HasUniqueTasks id (write now task) db u = save-HasUniqueTasks now task db u

occur_lem :
    (id : String) (event : Event) (db : Database)
    → HasUniqueTasks db
    → let effect = occur id event db in
      one_if effect.wins + in_status scheduled id effect.db
      ≤ in_status scheduled id db + one_if effect.returns
unfolding occur
occur_lem id (bid now claimed) db u =
    elim (claim-in_status id now claimed scheduled publishing db u) [
      | inl (won, before, after) ↦ rw (won, before, after) (ground arith)
      | inr (lost, same) ↦ rw (lost, same) (ground arith)
    ]
occur_lem id (recover now claimed) db u =
    elim (claim-in_status id now claimed publishing scheduled db u) [
      | inl (won, before, after) ↦ rw (won, after) (ground arith)
      | inr (lost, same) ↦ rw (lost, same) (ground arith)
    ]
occur_lem id (write now task) db u = ground (arith, save-in_status id now task db)

-- Whatever the workers do and in whatever order: a post is claimed for publishing at most as often
-- as it was claimable at first or has been made so, by a recovery or by a save as scheduled. So
-- between two of those at most one worker publishes it.
pub claims_need_returns :
    (id : String) (events : List Event) (db : Database)
    → HasUniqueTasks db
    → count_wins id events db ≤ in_status scheduled id db + count_returns id events db
unfolding count_wins count_returns
claims_need_returns id [] db u = ground arith
claims_need_returns id (event ∷ events) db u =
    let here = occur_lem id event db u in
    let rest =
      claims_need_returns id events (occur id event db).db (occur-HasUniqueTasks id event db u) in
    ground arith
