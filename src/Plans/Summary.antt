-- ===== src/Plans/Summary.antt =====
-- app/plans.py, `subscription_summary`: what a workspace is told about its plan. The texts of dates
-- are left out.
use omni_flow.Prelude.{
  ℕ, ◌+◌, ◌-◌, ◌/◌, String, Option, none, some, ◌==◌, string_eq, if◌then◌else◌, ltb, length, map,
}
use omni_flow.TextOps.{TextOps}
use omni_flow.Store.{Moment, days, Subscription, Usage, Database}
use omni_flow.Store.Metering.{get_usage}
use omni_flow.Store.Accounts.{AccountView, list_connected_accounts}
use omni_flow.Plans.{Plan, plan_or_pro, effective_status, current_ai_runs}
use omni_flow.Plans.Trial.{get_or_create_subscription}
use omni_flow.Plans.Channels.{connected_channel_keys}

pub record Summary : Type 0 where
  pub plan : Plan
  pub billing_cycle : String
  pub status : String
  pub current_period_end : Option Moment
  pub days_left : Option ℕ
  pub ai_runs : ℕ
  pub ai_cycle_end : Option Moment
  pub channels : ℕ

-- `max(0, math.ceil((end - now).total_seconds() / 86400))`. Python divides floats: for an end up to
-- 131,072 days ahead that rounds up to the same day as this exact division, and for later ones it
-- may differ by the last fractions of a second.
abbrev pub ceil_days : Moment → Moment → ℕ
ceil_days end now = (end - now + (days 1 - 1)) / days 1

unfoldable pub days_left_of : String → Option Moment → Moment → Option ℕ
days_left_of status none now = none
days_left_of status (some end) now = if status == "expired" then none else some (ceil_days end now)

abbrev pub running_cycle : Option Usage → Moment → Option Moment
running_cycle none now = none
running_cycle (some usage) now = if ltb now usage.cycle_end then some usage.cycle_end else none

abbrev pub summary_of : TextOps → Moment → String → Subscription → Database → Summary
summary_of ops now tenant s db =
    let status = effective_status s now in
    let usage = get_usage tenant db in
    record {
      plan = plan_or_pro s.plan;
      billing_cycle = s.billing_cycle;
      status = status;
      current_period_end = s.current_period_end;
      days_left = days_left_of status s.current_period_end now;
      ai_runs = current_ai_runs usage now;
      ai_cycle_end = running_cycle usage now;
      channels = length (
          connected_channel_keys ops
            (map (λ (v : AccountView). v.account) (list_connected_accounts none tenant db)));
    }

abbrev pub with_subscription :
    TextOps → Moment → String → Option Subscription × Database → Option Summary × Database
with_subscription ops now tenant (none, db) = (none, db)
with_subscription ops now tenant (some s, db) = (some (summary_of ops now tenant s db), db)

-- `none` for the exception if there is no subscription to read.
unfoldable pub subscription_summary :
    TextOps → ℕ → String → Moment → String → Database → Option Summary × Database
unfolding days_left_of
subscription_summary ops days_of_trial uid now tenant db =
    with_subscription ops now tenant (get_or_create_subscription days_of_trial uid now tenant db)
