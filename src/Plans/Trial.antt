-- ===== src/Plans/Trial.antt =====
-- app/plans.py: a workspace's first subscription. `days_of_trial` is `trial_days()`, `now` the
-- moment of the call and `uid` the `uuid4()` of a row that is made.
pub mod First
use omni_flow.Prelude.{ℕ, ◌+◌, String, Option, none, some, ◌==◌, string_eq, if◌then◌else◌}
use omni_flow.Store.{Moment, days, default_tenant_id, Subscription, Database}
use omni_flow.Store.Subscriptions.{get_subscription, subscription_row, ensure_subscription}
use omni_flow.Plans.{pro, agency, monthly, annual, plan_key, cycle_key}

module _ (days_of_trial : ℕ) (uid : String) (now : Moment) where
  -- The Pro trial, and the house account of the shared workspace.
  abbrev pub trial_row : String → Subscription
  trial_row tenant =
      subscription_row uid now tenant (plan_key pro) (cycle_key monthly) "trial"
        (some (now + days days_of_trial))

  abbrev pub house_row : String → Subscription
  house_row tenant =
      subscription_row uid now tenant (plan_key agency) (cycle_key annual) "active" none

  unfoldable pub start_trial : String → Database → Option Subscription × Database
  start_trial tenant db =
      let db' = ensure_subscription (trial_row tenant) db in (get_subscription tenant db', db')

  unfoldable pub start_house_account : String → Database → Option Subscription × Database
  start_house_account tenant db =
      let db' = ensure_subscription (house_row tenant) db in (get_subscription tenant db', db')

  unfoldable pub get_or_create_subscription : String → Database → Option Subscription × Database
  unfolding start_trial start_house_account
  get_or_create_subscription tenant db = elim (get_subscription tenant db) [
    | some subscription ↦ (some subscription, db)
    | none ↦
        if tenant == default_tenant_id then start_house_account tenant db else start_trial tenant db
  ]
