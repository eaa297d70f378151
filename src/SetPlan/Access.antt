-- ===== src/SetPlan/Access.antt =====
-- What the operator's commands do to a workspace's access.
use omni_flow.Prelude.{
  ℕ, ◌+◌, ◌*◌, ◌<◌, ◌≡◌, refl, ap, inl, inr, arith, String, false, Option, none, some, ==_refl,
  string_eq, leb, Option-cases,
}
use omni_flow.Floats.{Floats}
use omni_flow.Store.{Moment, days, Subscription, Database}
use omni_flow.Store.Subscriptions.{
  get_subscription, subscription_row, take_over, save_subscription, set_upgrade_requests_status,
}
use omni_flow.Store.Billing.Once.{get-save_subscription}
use omni_flow.Plans.{
  PlanId, Cycle, plan_key, cycle_key, period_days, effective_status, paid_period_end,
}
use omni_flow.Plans.Trial.{get_or_create_subscription}
use omni_flow.Plans.Trial.First.{get_or_create_lem, first_subscription}
use omni_flow.Plans.Periods.{paid_period_end-ge}
use omni_flow.Limits.{
  PlanGate, is_gate_active, load_plan_gate, require_active, refused, granted, subscription_required,
}
use omni_flow.SetPlan.{activate, expired_row, expire}

-- What matters of a row for access.
abbrev pub IsLike : Subscription → Subscription → Type 0
IsLike row s =
    (s.status ≡ row.status) × (s.plan ≡ row.plan) × (s.current_period_end ≡ row.current_period_end)

saved_columns :
    (row : Subscription) (db : Database)
    → (s : Subscription) × (get_subscription row.tenant_id (save_subscription row db) ≡ some s)
      × IsLike row s
saved_columns row db = rw (get-save_subscription row.tenant_id row db) (
    rw (==_refl row.tenant_id) (elim (Option-cases (get_subscription row.tenant_id db)) [
      | inl missing ↦ (row, rw missing refl, (refl, refl, refl))
      | inr (s, found) ↦ (take_over row s, rw found refl, (refl, refl, refl))
    ]))

-- The gate of a workspace that has a subscription is that subscription's.
abbrev pub gate_for : Moment → String → Subscription → PlanGate
gate_for now tenant s = record {
  tenant_id = tenant;
  subscription = s;
  status = effective_status s now;
  channels = none;
}

get_or_create_found :
    (days_of_trial : ℕ) (uid : String) (now : Moment) (tenant : String) (db : Database)
    (s : Subscription)
    → get_subscription tenant db ≡ some s
    → get_or_create_subscription days_of_trial uid now tenant db ≡ (some s, db)
unfolding get_or_create_subscription
get_or_create_found days_of_trial uid now tenant db s found =
    rw (found, get_or_create_subscription) refl

gate_found :
    (days_of_trial : ℕ) (uid : String) (now : Moment) (tenant : String) (db : Database)
    (s : Subscription)
    → get_subscription tenant db ≡ some s
    → load_plan_gate days_of_trial uid now tenant db ≡ (some (gate_for now tenant s), db)
unfolding load_plan_gate
gate_found days_of_trial uid now tenant db s found =
    let loaded = get_or_create_found days_of_trial uid now tenant db s found in
    rw (ap (λ r. r.0) loaded, load_plan_gate) (rw (ap (λ r. r.1) loaded) refl)

module _ (days_of_trial : ℕ) (uid : ℕ → String) (now : Moment) (tenant : String) where
  abbrev before : Database → Option Subscription × Database
  before db = get_or_create_subscription days_of_trial (uid 0) now tenant db

  expired_subscription :
      (db : Database)
      → (s : Subscription) × (get_subscription tenant (expire days_of_trial uid now tenant db)
          ≡ some s)
        × (s.status ≡ "expired")
  unfolding expire
  expired_subscription db =
      let old = first_subscription days_of_trial (uid 0) now tenant db in
      let (s, found, (status, _, _)) =
        saved_columns (expired_row days_of_trial uid now tenant old) (before db).1 in
      rw ((get_or_create_lem days_of_trial (uid 0) now tenant db).0, expire) (s, found, status)

  activated_subscription :
      (fl : Floats) (plan : PlanId) (cycle : Cycle) (periods : ℕ) (db : Database)
      → let end = paid_period_end fl (before db).0 plan cycle periods now in
        (s : Subscription) × (get_subscription tenant
            (activate days_of_trial uid now fl tenant plan cycle periods db)
          ≡ some s)
        × (s.status ≡ "active")
        × (s.plan ≡ plan_key plan)
        × (s.current_period_end ≡ some end)
  unfolding activate set_upgrade_requests_status get_subscription
  activated_subscription fl plan cycle periods db =
      let end = paid_period_end fl (before db).0 plan cycle periods now in
      let (s, found, (status, bought, until)) =
        saved_columns
          (subscription_row (uid 1) now tenant (plan_key plan) (cycle_key cycle) "active"
            (some end))
          (before db).1 in
      (s, found, status, bought, until)

  ended :
      (s : Subscription) (at : Moment)
      → s.status ≡ "expired"
      → require_active (gate_for at tenant s) ≡ refused subscription_required
  unfolding effective_status require_active is_gate_active
  ended s at status = rw status refl

  running :
      (s : Subscription) (at end : Moment)
      → s.status ≡ "active"
      → s.current_period_end ≡ some end
      → at < end
      → require_active (gate_for at tenant s) ≡ granted
  unfolding effective_status require_active is_gate_active
  running s at end status until early =
      let open_until : leb end at ≡ false = ground (arith, early) in
      rw (status, require_active) (rw until (rw open_until (rw status refl)))

  -- After `expire` no request of the workspace is let in any more, at no moment, whatever plan the
  -- workspace had; the refusal changes nothing.
  pub expire_ends_access :
      (db : Database) (trial : ℕ) (uid' : String) (at : Moment)
      → let db' = expire days_of_trial uid now tenant db in
        let (gate, db'') = load_plan_gate trial uid' at tenant db' in
        (g : PlanGate) × (gate ≡ some g)
        × (require_active g ≡ refused subscription_required)
        × (db'' ≡ db')
  expire_ends_access db trial uid' at =
      let (s, found, status) = expired_subscription db in
      rw (gate_found trial uid' at tenant (expire days_of_trial uid now tenant db) s found)
        (gate_for at tenant s, refl, ended s at status, refl)

  -- After `activate` for a number of periods the workspace has the plan and is let in at every moment
  -- before that many periods have passed, whatever subscription it had before.
  pub activate_gives_access :
      (fl : Floats) (plan : PlanId) (cycle : Cycle) (periods : ℕ) (db : Database) (trial : ℕ)
      (uid' : String) (at : Moment)
      → at < now + days (period_days cycle * periods)
      → let db' = activate days_of_trial uid now fl tenant plan cycle periods db in
        let (gate, db'') = load_plan_gate trial uid' at tenant db' in
        (g : PlanGate) × (gate ≡ some g)
        × (g.subscription.plan ≡ plan_key plan)
        × (require_active g ≡ granted)
        × (db'' ≡ db')
  activate_gives_access fl plan cycle periods db trial uid' at early =
      let db' = activate days_of_trial uid now fl tenant plan cycle periods db in
      let end = paid_period_end fl (before db).0 plan cycle periods now in
      let (s, found, status, bought, until) = activated_subscription fl plan cycle periods db in
      rw (gate_found trial uid' at tenant db' s found) (
        gate_for at tenant s,
        refl,
        bought,
        running s at end status until
            (omega (arith, early, paid_period_end-ge fl (before db).0 plan cycle periods now)),
        refl,
      )
