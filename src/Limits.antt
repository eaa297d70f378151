-- ===== src/Limits.antt =====
-- app/dependencies/limits.py: what a workspace may do on its plan. `now` is the moment of a call.
pub mod Runs
pub mod Slots
use omni_flow.Prelude.{
  ℕ, ◌-◌, String, Bool, true, false, Option, none, some, List, [], ◌∷◌, ◌==◌, string_eq, ◌||◌, not,
  if◌then◌else◌, leb, length, map,
}
use omni_flow.TextOps.{TextOps}
use omni_flow.Store.{Moment, Subscription, Database}
use omni_flow.Store.Metering.{get_usage, increment_ai_runs, release_ai_run}
use omni_flow.Store.Accounts.{AccountView, list_connected_accounts}
use omni_flow.Plans.{Plan, plan_or_pro, is_active_status, effective_status, current_ai_runs}
use omni_flow.Plans.Trial.{get_or_create_subscription}
use omni_flow.Plans.Channels.{ChannelKey, channel_key, connected_channel_keys, has_key, add_key}

-- The HTTP errors: 402, and 403 with the limit in the message.
pub data LimitError : Type 0 where
  subscription_required : LimitError
  ai_limit_reached channel_limit_reached : ℕ → LimitError

pub data Access : Type 0 where
  granted : Access
  refused : LimitError → Access

-- `PlanGate`: `channels` is the cached set of keys.
pub record PlanGate : Type 0 where
  pub tenant_id : String
  pub subscription : Subscription
  pub status : String
  pub channels : Option (List ChannelKey)

unfoldable pub gate_plan : PlanGate → Plan
gate_plan gate = plan_or_pro gate.subscription.plan

unfoldable pub is_gate_active : PlanGate → Bool
is_gate_active gate = is_active_status gate.status

unfoldable pub require_active : PlanGate → Access
unfolding is_gate_active
require_active gate = if is_gate_active gate then granted else refused subscription_required

unfoldable pub check_ai_quota : Moment → PlanGate → Database → Access
unfolding gate_plan
check_ai_quota now gate db = elim (gate_plan gate).ai_runs [
  | none ↦ granted
  | some limit ↦
      if leb limit (current_ai_runs (get_usage gate.tenant_id db) now)
      then refused (ai_limit_reached limit)
      else granted
]

-- `AIRun`: whether the run was given back, with the database.
pub record AiRun : Type 0 where
  pub refunded : Bool
  pub db : Database

unfoldable pub refund : Moment → PlanGate → AiRun → AiRun
refund now gate run =
    if run.refunded
    then run
    else record { refunded = true; db = release_ai_run now gate.tenant_id run.db }

-- What the code inside the `with` block does with the run: `run.refund()`, or `keep_if_ai(result)`
-- with what `produced_ai_output(result)` answers.
pub data RunStep : Type 0 where
  refund_step : Moment → RunStep
  keep_if_ai : Moment → Bool → RunStep

unfoldable pub run_step : PlanGate → RunStep → AiRun → AiRun
unfolding refund
run_step gate (refund_step now) run = refund now gate run
run_step gate (keep_if_ai now produced) run = if produced then run else refund now gate run

unfoldable pub run_steps : PlanGate → List RunStep → AiRun → AiRun
unfolding run_step
run_steps gate [] run = run
run_steps gate (step ∷ steps) run = run_steps gate steps (run_step gate step run)

-- The end of the block: an exception gives the run back.
unfoldable pub end_run : PlanGate → Option Moment → AiRun → AiRun
unfolding refund
end_run gate none run = run
end_run gate (some at) run = refund at gate run

-- The `with gate.ai_run()` block: the steps inside it, and the moment at which it raises, if it
-- does. The result is `none` if no run was left.
unfoldable pub ai_run :
    Moment → PlanGate → List RunStep → Option Moment → Database → Option AiRun × Database
unfolding gate_plan run_steps end_run
ai_run now gate steps raises db =
    let (count, taken) = increment_ai_runs now gate.tenant_id (gate_plan gate).ai_runs db in
    elim count [
      | none ↦ (none, taken)
      | some _ ↦
          let ended =
            end_run gate raises (run_steps gate steps (record { refunded = false; db = taken })) in
          (some ended, ended.db)
    ]

module _ (ops : TextOps) where
  -- The cached set, loaded on first use.
  unfoldable pub channel_keys : PlanGate → Database → List ChannelKey
  channel_keys gate db = elim gate.channels [
    | some keys ↦ keys
    | none ↦
        connected_channel_keys ops
          (map (λ (v : AccountView). v.account) (list_connected_accounts none gate.tenant_id db))
  ]

  unfoldable pub channel_slots_left : PlanGate → Database → Option ℕ
  unfolding gate_plan channel_keys
  channel_slots_left gate db = elim (gate_plan gate).channels [
    | none ↦ none
    | some limit ↦ some (limit - length (channel_keys gate db))
  ]

  unfoldable pub is_connected : String → String → PlanGate → Database → Bool
  unfolding channel_keys
  is_connected platform account gate db =
      has_key (channel_key ops platform account) (channel_keys gate db)

  abbrev with_keys : List ChannelKey → PlanGate → PlanGate
  with_keys keys gate = record gate { channels = some keys }

  -- The answer, and the gate with its set of keys.
  abbrev pub take_slot : ℕ → String → String → PlanGate → Database → Access × PlanGate
  take_slot limit platform account gate db =
      let keys = channel_keys gate db in
      if is_connected platform account gate db
      then (granted, with_keys keys gate)
      else if leb limit (length keys)
      then (refused (channel_limit_reached limit), with_keys keys gate)
      else (granted, with_keys (add_key (channel_key ops platform account) keys) gate)

  unfoldable pub require_channel_slot : String → String → PlanGate → Database → Access × PlanGate
  unfolding gate_plan is_connected
  require_channel_slot platform account gate db = elim (gate_plan gate).channels [
    | none ↦ (granted, gate)
    | some limit ↦ take_slot limit platform account gate db
  ]

unfoldable pub load_plan_gate : ℕ → String → Moment → String → Database → Option PlanGate × Database
load_plan_gate days_of_trial uid now tenant db =
    let (subscription, db') = get_or_create_subscription days_of_trial uid now tenant db in
    elim subscription [
      | none ↦ (none, db')
      | some s ↦ (
        some (record {
          tenant_id = tenant;
          subscription = s;
          status = effective_status s now;
          channels = none;
        }),
        db',
      )
    ]

pub data Feature : Type 0 where
  ai_generation channels : Feature

-- The dependency that `verify_plan_limit(feature)` makes: its checks, in order.
unfoldable pub verify_plan_limit : Feature → Moment → PlanGate → Database → Access
unfolding require_active check_ai_quota
verify_plan_limit feature now gate db = elim (require_active gate) [
  | refused e ↦ refused e
  | granted ↦ elim feature [ ai_generation ↦ check_ai_quota now gate db | channels ↦ granted ]
]
