-- ===== src/Store/Tasks/Claims.antt =====
-- The compare-and-swap by which workers claim a scheduled post.
use omni_flow.Prelude.{
  ◌≡◌, refl, sym, ◌∙◌, ◌⊎◌, inl, inr, String, true, false, Option, none, some, ◌==◌, ==_refl,
  ==_iff, string_eq, Bool-cases, Option-cases,
}
use mathlib.Core.Bool.{false≢true}
use omni_flow.Schemas.{PublishStatus, status_eq}
use omni_flow.Sql.{lookup}
use omni_flow.Sql.Keys.{Unique, keep, rowcount_where, lookup-update_where, update-Unique}
use omni_flow.Store.{Moment, TaskRow, Database}
use omni_flow.Store.Tasks.{claimed_task, set_claim, claim_task}

abbrev pub find_row : String → Database → Option TaskRow
find_row id db = lookup (λ (r : TaskRow). r.id) id db.tasks

-- `id` is the primary key of `tasks`.
abbrev pub HasUniqueTasks : Database → Type 0
HasUniqueTasks db = Unique (λ (r : TaskRow). r.id) db.tasks

-- No row but the one of `id` changes.
abbrev pub KeepsOthers : String → Database → Database → Type 0
KeepsOthers id db db' = (x : String) → (x ≡ id) ⊎ (find_row x db' ≡ find_row x db)

pub KeepsOthers-by :
    (id : String) (db db' : Database)
    → ((x : String) → (x == id) ≡ false → find_row x db' ≡ find_row x db)
    → KeepsOthers id db db'
KeepsOthers-by id db db' others x = elim (Bool-cases (x == id)) [
  | inl same ↦ inl ((==_iff x id).0 same)
  | inr ne ↦ inr (others x ne)
]

pub kept :
    (id x : String) (db db' : Database)
    → KeepsOthers id db db'
    → (x == id) ≡ false
    → find_row x db' ≡ find_row x db
kept id x db db' others ne = elim (others x) [
  | inl same ↦ absurd (false≢true (sym ne ∙ (==_iff x id).1 same))
  | inr k ↦ k
]

pub KeepsOthers-then :
    (id j : String) (db db' db'' : Database)
    → j ≡ id
    → KeepsOthers id db db'
    → KeepsOthers j db' db''
    → KeepsOthers j db db''
KeepsOthers-then id j db db' db'' same first second x = elim (second x) [
  | inl e ↦ inl e
  | inr k ↦ elim (first x) [ inl e ↦ inl (e ∙ sym same) | inr k' ↦ inr (k ∙ k') ]
]

-- The row after a claim that won.
abbrev pub claimed_row : Moment → PublishStatus → TaskRow → TaskRow
claimed_row now status row = set_claim now status (claimed_task now status row) row

-- A claim wins exactly if the task's row has the expected status. It then sets the new status on
-- that row, in the column and in the payload, and on no other; one that loses changes nothing.
pub claim_cases :
    (now : Moment) (id : String) (expected status : PublishStatus) (db : Database)
    → HasUniqueTasks db
    → let (won, db') = claim_task now id expected status db in
      ((row : TaskRow) × (find_row id db ≡ some row)
        × (status_eq row.status expected ≡ true)
        × (won ≡ true)
        × (find_row id db' ≡ some (claimed_row now status row))
        × KeepsOthers id db db')
      ⊎ ((keep (λ (r : TaskRow). status_eq r.status expected) (find_row id db) ≡ none)
          × (won ≡ false)
          × (db' ≡ db))
unfolding claim_task
claim_cases now id expected status db u = elim (Option-cases (find_row id db)) [
  | inl missing ↦ inr (rw missing, rw (missing, claim_task), rw (missing, claim_task))
  | inr (row, found) ↦ elim (Bool-cases (status_eq row.status expected)) [
    | inr other ↦
        inr (
          rw found (rw other),
          rw (found, claim_task) (rw other),
          rw (found, claim_task) (rw other),
        )
    | inl fits ↦
        let key = λ (r : TaskRow). r.id in
        let g = λ (r : TaskRow). status_eq r.status expected in
        let f = set_claim now status (claimed_task now status row) in
        inl (
          row,
          found,
          fits,
          rw (found, claim_task)
              (rw fits (rw (rowcount_where key id g db.tasks u) (rw found (rw fits)))),
          rw (found, claim_task)
              (rw fits (
                lookup-update_where key id id g f db.tasks (λ r. refl)
                ∙ rw (==_refl id) (rw found (rw fits)))),
          KeepsOthers-by id db (claim_task now id expected status db).1 (λ x ne.
              rw (found, claim_task)
                (rw fits (lookup-update_where key x id g f db.tasks (λ r. refl) ∙ rw ne))),
        )
  ]
]

pub claim-HasUniqueTasks :
    (now : Moment) (id : String) (expected status : PublishStatus) (db : Database)
    → HasUniqueTasks db
    → HasUniqueTasks (claim_task now id expected status db).1
unfolding claim_task
claim-HasUniqueTasks now id expected status db u = elim (Option-cases (find_row id db)) [
  | inl missing ↦ rw (missing, claim_task) u
  | inr (row, found) ↦ elim (Bool-cases (status_eq row.status expected)) [
    | inr other ↦ rw (found, claim_task) (rw other u)
    | inl fits ↦
        rw (found, claim_task)
          (rw fits (update-Unique (λ (r : TaskRow). r.id) _ _ db.tasks (λ r. refl) u))
  ]
]
