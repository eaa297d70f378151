-- ===== src/Store/Metering.antt =====
-- db/sqlite_store.py, the metering of AI runs. `now` is the call's `utcnow()`. A stored count is a
-- natural number: no statement subtracts from a count that is not above 0.
pub mod Quota
pub mod Calls
use omni_flow.Prelude.{
  ℕ, suc, ◌+◌, ◌-◌, String, Bool, true, Option, none, some, List, ◌==◌, ◌&&◌, ◌||◌, string_eq,
  if◌then◌else◌, ltb, leb,
}
use mathlib.Core.Option
use omni_flow.Sql.{find, update, lookup, insert_or_ignore, upsert}
use omni_flow.Store.{Moment, days, Usage, Database}

abbrev pub ai_usage_cycle_days : ℕ
ai_usage_cycle_days = 30

unfoldable pub get_usage : String → Database → Option Usage
get_usage tenant db = lookup (λ u. u.tenant_id) tenant db.usage_tracking

unfoldable pub save_usage : Moment → String → ℕ → Moment → Moment → Database → Database
save_usage now tenant count start end db =
    let row : Usage = record {
      tenant_id = tenant;
      ai_runs_count = count;
      cycle_start = start;
      cycle_end = end;
      updated_at = now;
    } in
    record db {
      usage_tracking =
          upsert (λ u. u.tenant_id) row
            (λ u. record u {
              ai_runs_count = count;
              cycle_start = start;
              cycle_end = end;
              updated_at = now;
            })
            db.usage_tracking;
    }

-- The row that the INSERT OR IGNORE of `increment_ai_runs` offers.
abbrev pub new_usage : Moment → String → Usage
new_usage now tenant = record {
  tenant_id = tenant;
  ai_runs_count = 0;
  cycle_start = now;
  cycle_end = now + days ai_usage_cycle_days;
  updated_at = now;
}

-- `:limit IS NULL OR :now > cycle_end OR ai_runs_count < :limit`
unfoldable pub has_room : Moment → Option ℕ → Usage → Bool
has_room now none u = true
has_room now (some limit) u = ltb u.cycle_end now || ltb u.ai_runs_count limit

-- The SET clause, with its CASE on the end of the cycle.
unfoldable pub take_run : Moment → Usage → Usage
take_run now u =
    if ltb u.cycle_end now
    then record u {
      ai_runs_count = 1;
      cycle_start = now;
      cycle_end = now + days ai_usage_cycle_days;
      updated_at = now;
    }
    else record u { ai_runs_count = u.ai_runs_count + 1; updated_at = now }

-- The new count, or `none` if the limit was reached, and the database.
unfoldable pub increment_ai_runs : Moment → String → Option ℕ → Database → Option ℕ × Database
increment_ai_runs now tenant limit db =
    let rows =
      insert_or_ignore (λ (u : Usage). u.tenant_id) (new_usage now tenant) db.usage_tracking in
    let chosen = λ (u : Usage). u.tenant_id == tenant && has_room now limit u in
    (
      Option.map (λ u. (take_run now u).ai_runs_count) (find chosen rows),
      record db { usage_tracking = update chosen (take_run now) rows },
    )

abbrev pub is_releasable : Moment → String → Usage → Bool
is_releasable now tenant u = u.tenant_id == tenant && (ltb 0 u.ai_runs_count && leb now u.cycle_end)

unfoldable pub release_ai_run : Moment → String → Database → Database
release_ai_run now tenant db = record db {
  usage_tracking =
      update (is_releasable now tenant)
        (λ u. record u { ai_runs_count = u.ai_runs_count - 1; updated_at = now }) db.usage_tracking;
}
