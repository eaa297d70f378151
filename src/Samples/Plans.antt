-- ===== src/Samples/Plans.antt =====
-- Subscriptions of the sample workspace.
use omni_flow.Prelude.{◌+◌, ◌≡◌, refl, arith, some}
use omni_flow.Store.{Moment, Subscription, days}
use omni_flow.Plans.{pro, monthly, effective_status, paid_period_end}
use omni_flow.Plans.Periods.{paid, paid_period_end_twice}
use omni_flow.Samples.World.{coarse_floats, start_of_day}

abbrev running : Subscription
running = record {
  id = "s-1";
  tenant_id = "shop";
  plan = "pro";
  billing_cycle = "monthly";
  status = "active";
  current_period_end = some (start_of_day + days 10);
  created_at = start_of_day;
  updated_at = start_of_day;
}

abbrev next_month : Moment
next_month = start_of_day + days 30

ended : effective_status running next_month ≡ "expired"
unfolding effective_status
ended = refl

paid_period_end_twice_example :
    let end = paid_period_end coarse_floats (some running) pro monthly 1 start_of_day in
    paid_period_end coarse_floats (some (paid running pro monthly end)) pro monthly 2 start_of_day
    ≡ paid_period_end coarse_floats (some running) pro monthly (1 + 2) start_of_day
paid_period_end_twice_example =
    paid_period_end_twice coarse_floats running pro monthly 1 2 start_of_day (omega arith)
