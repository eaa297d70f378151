-- ===== src/Plans/Periods.antt =====
-- What a payment buys (`paid_period_end`).
use omni_flow.Prelude.{
  ℕ, ◌+◌, ◌-◌, ◌*◌, ◌≤◌, ◌<◌, ◌≡◌, true, Option, none, some, arith, ap, refl, ◌∙◌, lt→ltb, ==_iff,
  string_eq,
}
use omni_flow.Floats.{Floats}
use omni_flow.Store.{Moment, days, Subscription}
use omni_flow.Plans.Status.{RunsAt, effective_status-RunsAt}
use omni_flow.Plans.{
  PlanId, Cycle, pro, agency, monthly, annual, plans, plan_key, cycle_key, period_days,
  effective_status, is_active_status, find_plan, find_cycle, daily_price, carried_start,
  running_start, period_start, paid_period_end,
}

-- The row that a payment leaves behind.
abbrev pub paid : Subscription → PlanId → Cycle → Moment → Subscription
paid s plan cycle end = record s {
  plan = plan_key plan;
  billing_cycle = cycle_key cycle;
  status = "active";
  current_period_end = some end;
}

days_pos : (cycle : Cycle) → 0 < period_days cycle
days_pos monthly = omega arith
days_pos annual = omega arith

price_pos : (plan : PlanId) (cycle : Cycle) → 0 < (plans plan).prices cycle
price_pos pro monthly = omega arith
price_pos pro annual = omega arith
price_pos agency monthly = omega arith
price_pos agency annual = omega arith

module _ (fl : Floats) where
  carried_start-ge :
      (p : Option PlanId) (c : Option Cycle) (plan : PlanId) (cycle : Cycle) (end now : Moment)
      → now ≤ carried_start fl p c plan cycle end now
  unfolding carried_start
  carried_start-ge (some p) (some c) plan cycle end now = omega arith
  carried_start-ge _ _ plan cycle end now = omega arith

  period_start-ge :
      (current : Option Subscription) (plan : PlanId) (cycle : Cycle) (now : Moment)
      → now ≤ period_start fl current plan cycle now
  unfolding period_start running_start
  period_start-ge none plan cycle now = omega arith
  period_start-ge (some s) plan cycle now = ground (
    arith,
    λ (end : Moment).
        carried_start-ge (find_plan s.plan) (find_cycle s.billing_cycle) plan cycle end now,
  )

  -- Whatever the workspace had before, a payment gives at least the days that were paid for, from
  -- the moment of the payment.
  pub paid_period_end-ge :
      (current : Option Subscription) (plan : PlanId) (cycle : Cycle) (periods : ℕ) (now : Moment)
      → now + days (period_days cycle * periods) ≤ paid_period_end fl current plan cycle periods now
  unfolding paid_period_end
  paid_period_end-ge current plan cycle periods now =
      omega (arith, period_start-ge current plan cycle now)

  -- A running period of the same plan is extended from its end.
  pub period_start_same :
      (s : Subscription) (plan : PlanId) (cycle : Cycle) (now end : Moment)
      → s.plan ≡ plan_key plan
      → s.current_period_end ≡ some end
      → now < end
      → is_active_status s.status ≡ true
      → period_start fl (some s) plan cycle now ≡ end
  unfolding period_start running_start
  period_start_same s plan cycle now end same at later active =
      let runs : RunsAt s.current_period_end now = rw at later in
      ground (
        arith,
        ==_iff s.plan (plan_key plan),
        ap is_active_status (effective_status-RunsAt s now active runs),
      )

  -- A running period of the same plan, paid or trial, is extended from its end by the days paid for.
  pub paid_period_end_same :
      (s : Subscription) (plan : PlanId) (cycle : Cycle) (periods : ℕ) (now end : Moment)
      → s.plan ≡ plan_key plan
      → s.current_period_end ≡ some end
      → now < end
      → is_active_status s.status ≡ true
      → paid_period_end fl (some s) plan cycle periods now
        ≡ end + days (period_days cycle * periods)
  unfolding paid_period_end
  paid_period_end_same s plan cycle periods now end same at later active =
      rw (period_start_same s plan cycle now end same at later active)

  period_pos : (cycle : Cycle) (periods : ℕ) → 0 < periods → 0 < days (period_days cycle * periods)
  period_pos monthly periods h = omega arith
  period_pos annual periods h = omega arith

  periods_add :
      (current : Option Subscription) (plan : PlanId) (cycle : Cycle) (first second : ℕ)
      (now : Moment)
      → paid_period_end fl current plan cycle first now + days (period_days cycle * second)
        ≡ paid_period_end fl current plan cycle (first + second) now
  unfolding paid_period_end
  periods_add current plan monthly first second now = omega arith
  periods_add current plan annual first second now = omega arith

  -- Buying a plan for some periods and then at once for more of them gives the same end as buying
  -- them all in one payment, from whatever the workspace had before.
  pub paid_period_end_twice :
      (s : Subscription) (plan : PlanId) (cycle : Cycle) (first second : ℕ) (now : Moment)
      → 0 < first
      → let end = paid_period_end fl (some s) plan cycle first now in
        paid_period_end fl (some (paid s plan cycle end)) plan cycle second now
        ≡ paid_period_end fl (some s) plan cycle (first + second) now
  paid_period_end_twice s plan cycle first second now h =
      let end = paid_period_end fl (some s) plan cycle first now in
      let later : now < end =
        omega (arith, paid_period_end-ge (some s) plan cycle first now, period_pos cycle first h) in
      rw
        (paid_period_end_same (paid s plan cycle end) plan cycle second now end refl refl later
          refl)
        (periods_add (some s) plan cycle first second now)

  scale_daily-le :
      (t : ℕ) (old plan : PlanId) (old_cycle cycle : Cycle)
      → (plans old).prices old_cycle * period_days cycle
        ≤ (plans plan).prices cycle * period_days old_cycle
      → fl.scale t (fl.float_div (daily_price fl old old_cycle) (daily_price fl plan cycle)) ≤ t
  unfolding daily_price
  scale_daily-le t old plan old_cycle cycle h =
      fl.scale-le t _ _ _ _ (days_pos old_cycle) (price_pos plan cycle) (days_pos cycle) h

  pro_costs_less :
      (old_cycle cycle : Cycle)
      → (plans pro).prices old_cycle * period_days cycle
        ≤ (plans agency).prices cycle * period_days old_cycle
  pro_costs_less monthly monthly = omega arith
  pro_costs_less monthly annual = omega arith
  pro_costs_less annual monthly = omega arith
  pro_costs_less annual annual = omega arith

  find_cycle-key : (cycle : Cycle) → find_cycle (cycle_key cycle) ≡ some cycle
  unfolding find_cycle
  find_cycle-key monthly = refl
  find_cycle-key annual = refl

  running_start-upgrade :
      (s : Subscription) (old_cycle cycle : Cycle) (now end : Moment)
      → s.plan ≡ "pro"
      → s.billing_cycle ≡ cycle_key old_cycle
      → effective_status s now ≡ "active"
      → running_start fl s agency cycle end now
        ≡ carried_start fl (some pro) (some old_cycle) agency cycle end now
  unfolding running_start
  running_start-upgrade s old_cycle cycle now end p c a = rw (a, p, c, find_cycle-key)

  -- Moving from a running paid Pro period to Agency VIP carries no more time over than was left.
  pub upgrade_carries_no_more :
      (s : Subscription) (old_cycle cycle : Cycle) (periods : ℕ) (now end : Moment)
      → s.plan ≡ "pro"
      → s.billing_cycle ≡ cycle_key old_cycle
      → s.status ≡ "active"
      → s.current_period_end ≡ some end
      → now < end
      → paid_period_end fl (some s) agency cycle periods now
        ≤ end + days (period_days cycle * periods)
  unfolding paid_period_end period_start carried_start
  upgrade_carries_no_more s old_cycle cycle periods now end p c a at later =
      let runs : RunsAt s.current_period_end now = rw at later in
      let active : effective_status s now ≡ "active" =
        effective_status-RunsAt s now (rw a) runs ∙ a in
      rw
        (
          at,
          active,
          lt→ltb now end later,
          running_start-upgrade s old_cycle cycle now end p c active,
        )
        (omega (
          arith,
          scale_daily-le (end - now) pro agency old_cycle cycle (pro_costs_less old_cycle cycle),
        ))
