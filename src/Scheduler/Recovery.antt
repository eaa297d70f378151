-- ===== src/Scheduler/Recovery.antt =====
-- The recovery of posts that a crashed worker left in `publishing`.
use mathlib.Core.Option
use omni_flow.Prelude.{
  ℕ, ◌≤◌, ◌<◌, ◌≡◌, refl, ap, ◌∙◌, ◌⊎◌, inl, inr, String, true, Option, none, some, arith,
  string_eq, leb, Bool-cases,
}
use omni_flow.Schemas.{PublishTask, scheduled, publishing, failed, status_eq}
use omni_flow.Sql.Keys.{keep}
use omni_flow.Store.{TaskRow, Database}
use omni_flow.Store.Tasks.{claimed_task, claim_task, get_task_any_tenant}
use omni_flow.Store.Tasks.Claims.{
  find_row, HasUniqueTasks, KeepsOthers, KeepsOthers-then, claimed_row, claim_cases,
}
use omni_flow.Scheduler.{Service, Clock, failing, recovered, recover_fresh, recover_one}
use omni_flow.Scheduler.Outcome.{IsHeld, held-save, HasOwnPayloads}

-- The post after a recovery: failed once it has used up its attempts, and claimable before that.
abbrev pub IsRecovered : Service → PublishTask → PublishTask → Type 0
IsRecovered service task done =
    (done.id ≡ task.id)
    × (done.tenant_id ≡ task.tenant_id)
    × (done.attempts ≡ task.attempts)
    × (((service.max_attempts ≤ task.attempts) × (done.status ≡ failed))
        ⊎ ((task.attempts < service.max_attempts) × (done.status ≡ task.status)))

recovered_lem :
    (service : Service) (clock : Clock) (task : PublishTask)
    → IsRecovered service task (recovered service clock task)
unfolding recovered failing
recovered_lem service clock task = elim (Bool-cases (leb service.max_attempts task.attempts)) [
  | inl spent ↦ rw spent (refl, refl, refl, inl (ground (arith, spent), refl))
  | inr left ↦ rw left (refl, refl, refl, inr (ground (arith, left), refl))
]

abbrev pub IsPutBack : Service → PublishTask → Option ℕ × Database → Database → Type 0
IsPutBack service task (n, db') db =
    (done : PublishTask) × (n ≡ some 1)
    × IsRecovered service task done
    × (get_task_any_tenant task.id db' ≡ some done)
    × KeepsOthers task.id db db'

recover_fresh-IsPutBack :
    (service : Service) (clock : Clock) (task : PublishTask) (db : Database)
    → IsHeld task db
    → IsPutBack service task (recover_fresh service clock (some task) db) db
recover_fresh-IsPutBack service clock task db held =
    let (same_id, same_tenant, same_attempts, end) = recovered_lem service clock task in
    let (r, at, others) =
      held-save clock.before task (recovered service clock task) db held same_id same_tenant in
    (
      record (recovered service clock task) { updated_at = some clock.before },
      ap (Option.map (λ _. 1)) r,
      (same_id, same_tenant, same_attempts, end),
      at,
      others,
    )

-- A recovery either finds that the post is not being published and changes nothing; or the post is
-- stored as failed if its attempts are used up and as scheduled otherwise, with its attempts kept,
-- and no other row changes.
pub recover_one_cases :
    (service : Service) (clock : Clock) (id : String) (db : Database)
    → HasUniqueTasks db
    → HasOwnPayloads db
    → let result = recover_one service clock id db in
      ((row : TaskRow) × (find_row id db ≡ some row)
        × (status_eq row.status publishing ≡ true)
        × IsPutBack service (claimed_task clock.before scheduled row) result db)
      ⊎ ((keep (λ (r : TaskRow). status_eq r.status publishing) (find_row id db) ≡ none)
          × (result ≡ (some 0, db)))
unfolding recover_one get_task_any_tenant
recover_one_cases service clock id db unique own =
    elim (claim_cases clock.before id publishing scheduled db unique) [
      | inr (missing, lost, same) ↦ inr (missing, rw lost (rw same))
      | inl (row, found, fits, won, at, others) ↦
          let db1 = (claim_task clock.before id publishing scheduled db).1 in
          let task = claimed_task clock.before scheduled row in
          let same_id = own id row found in
          let moved : find_row task.id db1 ≡ some (claimed_row clock.before scheduled row) =
            ap (λ k. find_row k db1) same_id ∙ at in
          let stored : get_task_any_tenant id db1 ≡ some task = rw at in
          let (done, r, settled, got, rest) =
            recover_fresh-IsPutBack service clock task db1
              (claimed_row clock.before scheduled row, moved, refl) in
          inl (
            row,
            found,
            fits,
            rw (won, stored, recover_one)
                (
                  done,
                  r,
                  settled,
                  got,
                  KeepsOthers-then id task.id db db1 (recover_fresh service clock (some task) db1).1
                      same_id others rest,
                ),
          )
    ]
