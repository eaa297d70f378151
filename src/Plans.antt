-- ===== src/Plans.antt =====
-- app/plans.py: the price list, the trial, when a subscription is in force, what a payment buys.
-- A call's `utcnow()` is the argument `now`; a key of `PLANS` or `PERIOD_DAYS` is a constructor.
pub mod Status
pub mod Periods
pub mod Trial
pub mod Channels
pub mod Summary
use omni_flow.Prelude.{
  ℕ, suc, ◌+◌, ◌-◌, ◌*◌, String, Bool, true, false, Option, none, some, List, [], ◌∷◌, ◌&&◌, ◌||◌,
  if◌then◌else◌, ltb, leb, ◌==◌, string_eq, is_some,
}
use omni_flow.Floats.{Floats}
use omni_flow.Store.{Moment, days, Subscription, Usage}

pub data PlanId : Type 0 where
  pro agency : PlanId

pub data Cycle : Type 0 where
  monthly annual : Cycle

pub record Plan : Type 0 where
  pub id : PlanId
  pub name : String
  pub prices : Cycle → ℕ
  pub ai_runs : Option ℕ
  pub channels : Option ℕ
  pub storage_gb : ℕ
  pub priority_routing : Bool

abbrev pub pro_prices : Cycle → ℕ
pro_prices monthly = 66
pro_prices annual = 666

abbrev pub agency_prices : Cycle → ℕ
agency_prices monthly = 166
agency_prices annual = 1666

-- The table `PLANS`; a limit of `none` means unlimited.
abbrev pub plans : PlanId → Plan
plans pro = record {
  id = pro;
  name = "Pro Growth";
  prices = pro_prices;
  ai_runs = some 300;
  channels = some 3;
  storage_gb = 5;
  priority_routing = false;
}
plans agency = record {
  id = agency;
  name = "Agency VIP";
  prices = agency_prices;
  ai_runs = none;
  channels = none;
  storage_gb = 50;
  priority_routing = true;
}

-- The keys as they are stored, and `key in PLANS` with the key that it is.
abbrev pub plan_key : PlanId → String
plan_key pro = "pro"
plan_key agency = "agency"

abbrev pub cycle_key : Cycle → String
cycle_key monthly = "monthly"
cycle_key annual = "annual"

unfoldable pub find_plan : String → Option PlanId
find_plan s = if s == "pro" then some pro else if s == "agency" then some agency else none

unfoldable pub find_cycle : String → Option Cycle
find_cycle s = if s == "monthly" then some monthly else if s == "annual" then some annual else none

abbrev pub period_days : Cycle → ℕ
period_days monthly = 30
period_days annual = 365

-- `PLANS.get(subscription.get("plan"), PLANS[PRO])`
unfoldable pub plan_or_pro : String → Plan
unfolding find_plan
plan_or_pro s = elim (find_plan s) [ none ↦ plans pro | some p ↦ plans p ]

-- `status in ACTIVE_STATUSES`
abbrev pub is_active_status : String → Bool
is_active_status s = s == "active" || s == "trial"

unfoldable pub effective_status : Subscription → Moment → String
effective_status subscription now =
    if is_active_status subscription.status
    then elim subscription.current_period_end [
      | none ↦ subscription.status
      | some end ↦ if leb end now then "expired" else subscription.status
    ]
    else "expired"

-- Runs used in the current cycle; `none` is a workspace with no usage row.
unfoldable pub current_ai_runs : Option Usage → Moment → ℕ
current_ai_runs none now = 0
current_ai_runs (some usage) now = if ltb usage.cycle_end now then 0 else usage.ai_runs_count

-- Price in fen.
unfoldable pub price_minor_units : PlanId → Cycle → ℕ
price_minor_units plan cycle = (plans plan).prices cycle * 100

unfoldable pub has_no_end_date : Option Subscription → Bool
has_no_end_date none = false
has_no_end_date (some s) =
    s.status == "active" && (elim s.current_period_end [ none ↦ true | some _ ↦ false ])

module _ (fl : Floats) where
  open fl use {Float, true_div, float_div, scale}

  unfoldable pub daily_price : PlanId → Cycle → Float
  daily_price plan cycle = true_div ((plans plan).prices cycle) (period_days cycle)

  -- `now + (end - now) * (_daily_price(old) / _daily_price(new))`, if the old keys are known.
  unfoldable pub carried_start :
      Option PlanId → Option Cycle → PlanId → Cycle → Moment → Moment → Moment
  unfolding daily_price
  carried_start (some old_plan) (some old_cycle) plan cycle end now =
      now + scale (end - now) (float_div (daily_price old_plan old_cycle) (daily_price plan cycle))
  carried_start _ _ plan cycle end now = now

  -- The start of the period that a payment buys while the subscription runs until `end`.
  unfoldable pub running_start : Subscription → PlanId → Cycle → Moment → Moment → Moment
  unfolding carried_start find_plan find_cycle
  running_start current plan cycle end now =
      if current.plan == plan_key plan
      then end
      else if effective_status current now == "active"
      then carried_start (find_plan current.plan) (find_cycle current.billing_cycle) plan cycle end
          now
      else now

  unfoldable pub period_start : Option Subscription → PlanId → Cycle → Moment → Moment
  period_start none plan cycle now = now
  period_start (some current) plan cycle now = elim current.current_period_end [
    | none ↦ now
    | some end ↦
        if is_active_status (effective_status current now) && ltb now end
        then running_start current plan cycle end now
        else now
  ]

  unfoldable pub paid_period_end : Option Subscription → PlanId → Cycle → ℕ → Moment → Moment
  unfolding period_start
  paid_period_end current plan cycle periods now =
      period_start current plan cycle now + days (period_days cycle * periods)
