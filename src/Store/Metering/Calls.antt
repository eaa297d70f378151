-- ===== src/Store/Metering/Calls.antt =====
-- Any interleaving of the calls of any number of requests, as a list in the order in which the
-- database serialises them.
use omni_flow.Prelude.{
  ℕ, ◌+◌, ◌≤◌, ◌<◌, ◌≡◌, refl, ◌∙◌, ◌-◌, ◌⊎◌, inl, inr, String, Bool, true, false, Option, some,
  List, [], ◌∷◌, arith, ◌==◌, ==_iff, ==_refl, string_eq, is_some, if◌then◌else◌, ◌&&◌, ltb, leb,
  Bool-cases, All, one_if,
}
use native.Mathlib.Nat.{add-zero}
use omni_flow.Store.{Moment, Usage, Database}
use omni_flow.Store.Metering.{get_usage, has_room, take_run, increment_ai_runs, release_ai_run}
use omni_flow.Store.Metering.Quota.{
  HasUniqueUsage, increment_lem, release_lem, increment-HasUniqueUsage, release-HasUniqueUsage,
}

pub data Kind : Type 0 where
  take give : Kind

-- A call, its moment and its workspace.
pub record Call : Type 0 where
  pub at : Moment
  pub tenant : String
  pub kind : Kind

-- The database after a call, and whether the call took a run.
unfoldable pub perform : Option ℕ → Call → Kind → Database → Bool × Database
perform limit c take db =
    let (r, db') = increment_ai_runs c.at c.tenant limit db in (is_some r, db')
perform limit c give db = (false, release_ai_run c.at c.tenant db)

-- How many calls of `tenant` took a run, how many gave one back, and the database after them all.
pub record Tally : Type 0 where
  pub taken : ℕ
  pub given : ℕ
  pub db : Database

abbrev is_give : Kind → Bool
is_give take = false
is_give give = true

unfoldable pub run_calls : Option ℕ → String → List Call → Tally → Tally
unfolding perform
run_calls limit tenant [] t = t
run_calls limit tenant (c ∷ calls) t =
    let (took, db') = perform limit c c.kind t.db in
    let mine = c.tenant == tenant in
    run_calls limit tenant calls (record {
      taken = t.taken + one_if (mine && took);
      given = t.given + one_if (mine && is_give c.kind);
      db = db';
    })

-- What holds between calls that all fall into one cycle of the workspace.
pub record WithinCycle (limit start : ℕ) (end : Moment) (tenant : String) (t : Tally) : Type 0 where
  pub unique : HasUniqueUsage t.db
  pub usage : Usage
  pub at_tenant : get_usage tenant t.db ≡ some usage
  pub same_cycle : usage.cycle_end ≡ end
  pub capped : usage.ai_runs_count ≤ limit
  pub counted : start + t.taken ≤ usage.ai_runs_count + t.given

-- A call of the workspace while its cycle runs: the count goes up by one if it is below the limit.
take_own :
    (now : Moment) (tenant : String) (limit : ℕ) (db : Database) (u : Usage)
    → HasUniqueUsage db
    → get_usage tenant db ≡ some u
    → now ≤ u.cycle_end
    → let (r, db') = increment_ai_runs now tenant (some limit) db in
      ((u.ai_runs_count < limit)
        × (is_some r ≡ true)
        × (get_usage tenant db'
            ≡ some (record u { ai_runs_count = u.ai_runs_count + 1; updated_at = now })))
      ⊎ ((limit ≤ u.ai_runs_count) × (is_some r ≡ false) × (get_usage tenant db' ≡ some u))
unfolding has_room take_run
take_own now tenant limit db u uniq at running =
    let l = increment_lem now tenant tenant (some limit) db uniq in
    elim (Bool-cases (ltb u.ai_runs_count limit)) [
      | inl room ↦ inl (ground arith, ground (arith, l.0), ground (arith, l.1))
      | inr full ↦ inr (ground arith, ground (arith, l.0), ground (arith, l.1))
    ]

module _ (limit start : ℕ) (end : Moment) (tenant : String) where
  abbrev Holds : ℕ → ℕ → Database → Type 0
  Holds taken given db =
      WithinCycle limit start end tenant (record { taken = taken; given = given; db = db })

  take_mine :
      (now : Moment) (taken given : ℕ) (db : Database)
      → now ≤ end
      → Holds taken given db
      → let (r, db') = increment_ai_runs now tenant (some limit) db in
        Holds (taken + one_if (is_some r)) given db'
  take_mine now taken given db before w =
      let kept = increment-HasUniqueUsage now tenant (some limit) db w.unique in
      elim (take_own now tenant limit db w.usage w.unique w.at_tenant (omega arith)) [
        | inl (room, took, at) ↦ record {
          unique = kept;
          usage = record w.usage { ai_runs_count = w.usage.ai_runs_count + 1; updated_at = now };
          at_tenant = at;
          same_cycle = w.same_cycle;
          capped = omega arith;
          counted = rw took (omega arith);
        }
        | inr (full, refused, at) ↦ record {
          unique = kept;
          usage = w.usage;
          at_tenant = at;
          same_cycle = w.same_cycle;
          capped = w.capped;
          counted = rw refused (omega arith);
        }
      ]

  give_mine :
      (now : Moment) (taken given : ℕ) (db : Database)
      → Holds taken given db
      → Holds taken (given + 1) (release_ai_run now tenant db)
  give_mine now taken given db w =
      let u = w.usage in
      let room = ltb 0 u.ai_runs_count && leb now u.cycle_end in
      record {
        unique = release-HasUniqueUsage now tenant db w.unique;
        usage =
            if room then record u { ai_runs_count = u.ai_runs_count - 1; updated_at = now } else u;
        at_tenant = rw (release_lem now tenant tenant db) (rw (==_refl tenant, w.at_tenant));
        same_cycle = ground arith;
        capped = ground arith;
        counted = ground arith;
      }

  others :
      (taken given : ℕ) (db db' : Database)
      → HasUniqueUsage db'
      → get_usage tenant db' ≡ get_usage tenant db
      → Holds taken given db
      → Holds taken given db'
  others taken given db db' uniq same w = record {
    unique = uniq;
    usage = w.usage;
    at_tenant = same ∙ w.at_tenant;
    same_cycle = w.same_cycle;
    capped = w.capped;
    counted = w.counted;
  }

  swapped : (c : Call) → (c.tenant == tenant) ≡ false → (tenant == c.tenant) ≡ false
  swapped c h = ground (arith, ==_iff c.tenant tenant, ==_iff tenant c.tenant)

  perform-WithinCycle :
      (kind : Kind) (c : Call) (t : Tally)
      → c.at ≤ end
      → WithinCycle limit start end tenant t
      → let (took, db') = perform (some limit) c kind t.db in
        let mine = c.tenant == tenant in
        Holds (t.taken + one_if (mine && took)) (t.given + one_if (mine && is_give kind)) db'
  unfolding perform
  perform-WithinCycle take c t before w = elim (Bool-cases (c.tenant == tenant)) [
    | inl mine ↦
        rw (mine, add-zero, (==_iff c.tenant tenant).0 mine)
          (take_mine c.at t.taken t.given t.db before w)
    | inr not_mine ↦
        rw (not_mine, add-zero, add-zero)
          (others t.taken t.given t.db (increment_ai_runs c.at c.tenant (some limit) t.db).1
            (increment-HasUniqueUsage c.at c.tenant (some limit) t.db w.unique)
            ((increment_lem c.at c.tenant tenant (some limit) t.db w.unique).2 (swapped c not_mine))
            w)
  ]
  perform-WithinCycle give c t before w = elim (Bool-cases (c.tenant == tenant)) [
    | inl mine ↦
        rw (mine, add-zero, (==_iff c.tenant tenant).0 mine) (give_mine c.at t.taken t.given t.db w)
    | inr not_mine ↦
        rw (not_mine, add-zero, add-zero)
          (others t.taken t.given t.db (release_ai_run c.at c.tenant t.db)
            (release-HasUniqueUsage c.at c.tenant t.db w.unique)
            (release_lem c.at c.tenant tenant t.db ∙ rw (swapped c not_mine)) w)
  ]

  pub run_calls-WithinCycle :
      (calls : List Call) (t : Tally)
      → All (λ c. c.at ≤ end) calls
      → WithinCycle limit start end tenant t
      → WithinCycle limit start end tenant (run_calls (some limit) tenant calls t)
  unfolding run_calls
  run_calls-WithinCycle [] t before w = w
  run_calls-WithinCycle (c ∷ calls) t before w =
      run_calls-WithinCycle calls _ before.1 (perform-WithinCycle c.kind c t before.0 w)

-- However the calls of all workspaces interleave within one cycle of a workspace that began with at
-- most `limit` runs used: the runs taken, less those given back, never exceed what was left.
pub taken_within_quota :
    (limit : ℕ) (tenant : String) (u : Usage) (db : Database) (calls : List Call)
    → HasUniqueUsage db
    → get_usage tenant db ≡ some u
    → u.ai_runs_count ≤ limit
    → All (λ c. c.at ≤ u.cycle_end) calls
    → let t = run_calls (some limit) tenant calls (record { taken = 0; given = 0; db = db }) in
      u.ai_runs_count + t.taken ≤ limit + t.given
taken_within_quota limit tenant u db calls uniq at below before =
    let w =
      run_calls-WithinCycle limit u.ai_runs_count u.cycle_end tenant calls
        (record { taken = 0; given = 0; db = db }) before
        (record {
          unique = uniq;
          usage = u;
          at_tenant = at;
          same_cycle = refl;
          capped = below;
          counted = omega arith;
        }) in
    omega arith
