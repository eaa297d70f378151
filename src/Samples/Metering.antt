-- ===== src/Samples/Metering.antt =====
-- The metering on the workspace of `World`, which has one run left of 300.
use omni_flow.Prelude.{◌+◌, ◌≤◌, ◌≡◌, refl, arith, String, some, List, [], ◌∷◌, All, string_eq}
use omni_flow.Sql.{lookup, find, update, insert_or_ignore}
use omni_flow.Store.Metering.{get_usage, has_room, take_run, increment_ai_runs}
use omni_flow.Store.Metering.Quota.{HasUniqueUsage}
use omni_flow.Store.Metering.Calls.{Call, take, run_calls, taken_within_quota}
use omni_flow.Samples.World.{database, usage, start_of_day}

database-HasUniqueUsage : HasUniqueUsage database
unfolding lookup
database-HasUniqueUsage = (refl, tt)

usage_found : get_usage "shop" database ≡ some usage
unfolding get_usage lookup
usage_found = refl

last_run : (increment_ai_runs start_of_day "shop" (some 300) database).0 ≡ some 300
unfolding increment_ai_runs has_room take_run lookup find update insert_or_ignore
last_run = refl

abbrev at_start : String → Call
at_start tenant = record { at = start_of_day; tenant = tenant; kind = take }

abbrev rush : List Call
rush = at_start "shop" ∷ at_start "other" ∷ at_start "shop" ∷ []

rush_in_cycle : All (λ (c : Call). c.at ≤ usage.cycle_end) rush
rush_in_cycle = (omega arith, (omega arith, (omega arith, tt)))

taken_within_quota_example :
    let t = run_calls (some 300) "shop" rush (record { taken = 0; given = 0; db = database }) in
    usage.ai_runs_count + t.taken ≤ 300 + t.given
taken_within_quota_example =
    taken_within_quota 300 "shop" usage database rush database-HasUniqueUsage usage_found
      (omega arith) rush_in_cycle

abbrev shop_id : String
shop_id = "shop"
