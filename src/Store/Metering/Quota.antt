-- ===== src/Store/Metering/Quota.antt =====
-- What the metering promises: a count never passes its limit, and a run that is given back frees
-- exactly one place.
use omni_flow.Prelude.{
  ℕ, ◌-◌, ◌≤◌, ◌<◌, ◌≡◌, refl, ap, ◌∙◌, inl, inr, String, false, Option, none, some, List, arith,
  ◌==◌, ==_iff, ==_refl, string_eq, ◌&&◌, if◌then◌else◌, ltb, leb, Bool-cases,
}
use mathlib.Core.Option
use omni_flow.Sql.{lookup, insert_or_ignore}
use omni_flow.Sql.Keys.{
  Unique, lookup-insert_or_ignore, find_where, lookup-update_where, update-Unique,
  insert_or_ignore-Unique,
}
use omni_flow.Store.{Moment, Usage, Database}
use omni_flow.Store.Metering.{
  get_usage, new_usage, has_room, take_run, increment_ai_runs, is_releasable, release_ai_run,
}

-- `tenant_id` is the primary key of `usage_tracking`.
abbrev pub HasUniqueUsage : Database → Type 0
HasUniqueUsage db = Unique (λ (u : Usage). u.tenant_id) db.usage_tracking

-- The workspace's row, or the one that a first run would make.
abbrev pub usage_or_new : Moment → String → Database → Usage
usage_or_new now tenant db = elim (get_usage tenant db) [ none ↦ new_usage now tenant | some u ↦ u ]

abbrev seeded : Moment → String → Database → List Usage
seeded now tenant db =
    insert_or_ignore (λ (u : Usage). u.tenant_id) (new_usage now tenant) db.usage_tracking

lookup-seeded :
    (now : Moment) (tenant : String) (db : Database)
    → lookup (λ (u : Usage). u.tenant_id) tenant (seeded now tenant db)
      ≡ some (usage_or_new now tenant db)
unfolding get_usage
lookup-seeded now tenant db =
    lookup-insert_or_ignore (λ (u : Usage). u.tenant_id) tenant (new_usage now tenant)
      db.usage_tracking
    ∙ ground (arith, ==_iff tenant tenant)

take_run-tenant_id : (now : Moment) (u : Usage) → (take_run now u).tenant_id ≡ u.tenant_id
unfolding take_run
take_run-tenant_id now u = ground arith

-- `increment_ai_runs` in terms of the workspace's own row, a fresh one if it has none. If the row
-- has room its count goes up by the rules of `take_run` and is returned; if not, nothing is
-- returned and the row stays. The rows of other workspaces stay.
pub increment_lem :
    (now : Moment) (tenant other : String) (limit : Option ℕ) (db : Database)
    → HasUniqueUsage db
    → let u = usage_or_new now tenant db in
      let (r, db') = increment_ai_runs now tenant limit db in
      (r ≡ (if has_room now limit u then some (take_run now u).ai_runs_count else none))
      × (get_usage tenant db' ≡ some (if has_room now limit u then take_run now u else u))
      × ((other == tenant) ≡ false → get_usage other db' ≡ get_usage other db)
unfolding increment_ai_runs get_usage
increment_lem now tenant other limit db uniq =
    let key = λ (u : Usage). u.tenant_id in
    let rows = seeded now tenant db in
    (
      rw (find_where key tenant (has_room now limit) rows (insert_or_ignore-Unique key _ _ uniq))
          (rw (lookup-seeded now tenant db) (ground arith)),
      rw
          (lookup-update_where key tenant tenant (has_room now limit) (take_run now) rows
            (take_run-tenant_id now))
          (rw (==_refl tenant, lookup-seeded now tenant db)),
      λ ne.
          rw
            (lookup-update_where key other tenant (has_room now limit) (take_run now) rows
              (take_run-tenant_id now))
            (rw ne (
              rw (lookup-insert_or_ignore key other (new_usage now tenant) db.usage_tracking)
                (ground (arith, ==_iff other tenant, ==_iff tenant other)))),
    )

-- A call of `increment_ai_runs` in terms of the rows: if the workspace's row, a fresh one if it has
-- none, has room, its count goes up by the rules of `take_run` and is returned; if not, nothing is
-- returned and that row stays. No other workspace's row changes.
pub increment_rows :
    (now : Moment) (tenant other : String) (limit : Option ℕ) (db : Database)
    → HasUniqueUsage db
    → let u = usage_or_new now tenant db in
      let (r, db') = increment_ai_runs now tenant limit db in
      (r ≡ (if has_room now limit u then some (take_run now u).ai_runs_count else none))
      × (get_usage other db' ≡ (
          if other == tenant
          then some (if has_room now limit u then take_run now u else u)
          else get_usage other db))
increment_rows now tenant other limit db uniq =
    let (r, own, others) = increment_lem now tenant other limit db uniq in
    (
      r,
      elim (Bool-cases (other == tenant)) [
        | inl same ↦
            let k : other ≡ tenant = (==_iff other tenant).0 same in
            rw same (ap (λ t. get_usage t (increment_ai_runs now tenant limit db).1) k ∙ own)
        | inr ne ↦ rw ne (others ne)
      ],
    )

pub increment-HasUniqueUsage :
    (now : Moment) (tenant : String) (limit : Option ℕ) (db : Database)
    → HasUniqueUsage db
    → HasUniqueUsage (increment_ai_runs now tenant limit db).1
unfolding increment_ai_runs
increment-HasUniqueUsage now tenant limit db uniq =
    update-Unique (λ u. u.tenant_id) _ (take_run now) (seeded now tenant db)
      (take_run-tenant_id now)
      (insert_or_ignore-Unique (λ u. u.tenant_id) (new_usage now tenant) db.usage_tracking uniq)

pub release-HasUniqueUsage :
    (now : Moment) (tenant : String) (db : Database)
    → HasUniqueUsage db
    → HasUniqueUsage (release_ai_run now tenant db)
unfolding release_ai_run
release-HasUniqueUsage now tenant db uniq =
    update-Unique (λ u. u.tenant_id) (is_releasable now tenant) _ db.usage_tracking (λ u. refl) uniq

-- `release_ai_run` in terms of the workspace's own row: one run less if there is one and its cycle
-- still runs. The rows of other workspaces stay.
pub release_lem :
    (now : Moment) (tenant other : String) (db : Database)
    → let give = λ (u : Usage).
      if ltb 0 u.ai_runs_count && leb now u.cycle_end
      then record u { ai_runs_count = u.ai_runs_count - 1; updated_at = now }
      else u in
      get_usage other (release_ai_run now tenant db)
      ≡ (if other == tenant then Option.map give (get_usage other db) else get_usage other db)
unfolding release_ai_run get_usage
release_lem now tenant other db =
    lookup-update_where (λ (u : Usage). u.tenant_id) other tenant
      (λ u. ltb 0 u.ai_runs_count && leb now u.cycle_end) _ db.usage_tracking (λ u. refl)

-- Of a limit of one run or more, no call returns a count above it, or a count of 0.
pub increment_within_limit :
    (now : Moment) (tenant : String) (limit n : ℕ) (db : Database)
    → HasUniqueUsage db
    → 0 < limit
    → (increment_ai_runs now tenant (some limit) db).0 ≡ some n
    → (0 < n) × (n ≤ limit)
unfolding has_room take_run
increment_within_limit now tenant limit n db uniq pos h =
    ground (arith, (increment_lem now tenant tenant (some limit) db uniq).0)
