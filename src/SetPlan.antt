-- ===== src/SetPlan.antt =====
-- scripts/set_plan.py: the operator gives a workspace a plan, or ends its access. `now` is the moment
-- of the call and `uid` gives the `uuid4()` of the rows that are made.
pub mod Access
use omni_flow.Prelude.{ℕ, String, Option, none, some}
use omni_flow.Floats.{Floats}
use omni_flow.Store.{Moment, Subscription, Database}
use omni_flow.Store.Subscriptions.{subscription_row, save_subscription, set_upgrade_requests_status}
use omni_flow.Plans.{PlanId, Cycle, plan_key, cycle_key, paid_period_end}
use omni_flow.Plans.Trial.{get_or_create_subscription}

module _ (days_of_trial : ℕ) (uid : ℕ → String) (now : Moment) where
  -- `activate`, but for the summary that it returns.
  unfoldable pub activate : Floats → String → PlanId → Cycle → ℕ → Database → Database
  activate fl tenant plan cycle periods db =
      let (current, db') = get_or_create_subscription days_of_trial (uid 0) now tenant db in
      let end = paid_period_end fl current plan cycle periods now in
      let row =
        subscription_row (uid 1) now tenant (plan_key plan) (cycle_key cycle) "active" (some end) in
      (set_upgrade_requests_status now "fulfilled" tenant "pending" (save_subscription row db')).1

  abbrev pub expired_row : String → Subscription → Subscription
  expired_row tenant current =
      subscription_row (uid 1) now tenant current.plan current.billing_cycle "expired" (some now)

  -- `expire`, but for the summary.
  unfoldable pub expire : String → Database → Database
  expire tenant db =
      let (current, db') = get_or_create_subscription days_of_trial (uid 0) now tenant db in
      elim current [ none ↦ db' | some s ↦ save_subscription (expired_row tenant s) db' ]
