-- ===== src/Payments.antt =====
-- app/payments.py: what a Stripe Checkout Session does to the workspace that it names. The session
-- comes from Stripe as JSON; a key that is missing is `null`.
pub mod Fulfilment
pub mod Repeats
use omni_flow.Prelude.{
  ℕ, String, Bool, true, false, Option, none, some, ◌==◌, ◌&&◌, ◌||◌, not, string_eq, is_some,
  if◌then◌else◌, option_bind,
}
use package.text.Mathlib.Text.{starts_with}
use omni_flow.Json.{Json, null, text, as_text, is_text, is_int, int_or_zero, truthy}
use omni_flow.TextOps.{TextOps}
use omni_flow.Floats.{Floats}
use omni_flow.Store.{Moment, Subscription, Payment, Database}
use omni_flow.Store.Tenants.{get_tenant}
use omni_flow.Store.Subscriptions.{set_upgrade_requests_status}
use omni_flow.Store.Billing.{PaymentDetails, Activation, apply_payment}
use omni_flow.Plans.{
  PlanId, Cycle, plan_key, cycle_key, find_plan, find_cycle, price_minor_units, has_no_end_date,
  paid_period_end,
}
use omni_flow.Plans.Trial.{get_or_create_subscription}

abbrev pub stripe_currency : String
stripe_currency = "cny"

-- `payment_intent`: a value, or an object of which `id` is read.
pub data Intent : Type 0 where
  value : Json → Intent
  object : Json → Intent

pub record CheckoutSession : Type 0 where
  pub id : Json
  pub mode : Json
  pub client_reference_id : Json
  pub payment_status : Json
  pub amount_total : Json
  pub currency : Json
  pub payment_intent : Intent
  pub workspace_id : Json
  pub plan : Json
  pub cycle : Json

-- What a session asks for once it has passed the checks of a plan purchase.
pub record Order : Type 0 where
  pub session_id : String
  pub tenant_id : String
  pub plan : PlanId
  pub cycle : Cycle

pub data Outcome : Type 0 where
  ignored pending duplicate : Outcome
  review activated : Payment → Outcome

infixl 5 ◌>>=◌ ◌>>◌
abbrev ◌>>=◌ : {A B : Type 0} → Option A → (A → Option B) → Option B
m >>= f = option_bind m f

abbrev ◌>>◌ : {B : Type 0} → Option (Unit {0}) → Option B → Option B
m >> k = option_bind m (λ _. k)

abbrev require : Bool → Option (Unit {0})
require true = some tt
require false = none

unfoldable pub payment_intent_id : CheckoutSession → Option String
payment_intent_id session = elim session.payment_intent [
  | value v ↦ as_text v
  | object v ↦ as_text v
]

-- `client_reference_id not in (None, tenant_id)` is refused.
abbrev pub reference_fits : Json → String → Bool
reference_fits null tenant = true
reference_fits v tenant = is_text v tenant

-- The checks that end in `ignored`, but for the lookup of the workspace.
unfoldable pub read_order : CheckoutSession → Option Order
read_order session = do
  session_id ← as_text session.id
  require (starts_with session_id "cs_")
  require (is_text session.mode "payment")
  tenant_id ← as_text session.workspace_id
  plan ← as_text session.plan >>= find_plan
  cycle ← as_text session.cycle >>= find_cycle
  require (reference_fits session.client_reference_id tenant_id)
  some (record { session_id = session_id; tenant_id = tenant_id; plan = plan; cycle = cycle })

-- The outcome of `apply_payment`; only an activation closes the workspace's upgrade requests.
unfoldable pub finish : Moment → String → Option Payment → Database → Outcome × Database
finish now tenant none db = (duplicate, db)
finish now tenant (some payment) db =
    if payment.status == "paid"
    then (activated payment, (set_upgrade_requests_status now "fulfilled" tenant "pending" db).1)
    else (review payment, db)

module _ (fl : Floats) (ops : TextOps) where
  -- `str(session.get("currency") or "").lower()`
  unfoldable pub currency_of : CheckoutSession → String
  currency_of session =
      ops.lower (if truthy session.currency then ops.show session.currency else "")

  unfoldable pub is_exact_payment : CheckoutSession → Order → Bool
  unfolding currency_of
  is_exact_payment session order =
      is_int session.amount_total (price_minor_units order.plan order.cycle)
      && currency_of session == stripe_currency

  -- The local function `activate`.
  unfoldable pub activate :
      CheckoutSession → Order → Moment → Option Subscription → Option Activation
  activate session order now current =
      if not (is_exact_payment session order)
      then none
      else if has_no_end_date current
      then none
      else some (record {
        plan = plan_key order.plan;
        billing_cycle = cycle_key order.cycle;
        status = "active";
        current_period_end = paid_period_end fl current order.plan order.cycle 1 now;
      })

  unfoldable pub payment_details : CheckoutSession → Order → PaymentDetails
  payment_details session order = record {
    id = order.session_id;
    provider = "stripe";
    plan = plan_key order.plan;
    billing_cycle = cycle_key order.cycle;
    amount = int_or_zero session.amount_total;
    currency = if currency_of session == "" then stripe_currency else currency_of session;
    reference = payment_intent_id session;
  }

  module _ (days_of_trial : ℕ) (uid : ℕ → String) (now : Moment) where
    -- A paid session of a known workspace. The row of the subscription must exist first.
    unfoldable pub fulfill_order : CheckoutSession → Order → Database → Outcome × Database
    fulfill_order session order db =
        let db' = (get_or_create_subscription days_of_trial (uid 0) now order.tenant_id db).1 in
        let (payment, db'') =
          apply_payment (uid 1) now (payment_details session order) order.tenant_id
            (activate session order now) db' in
        finish now order.tenant_id payment db''

    unfoldable pub fulfill_checkout_session : CheckoutSession → Database → Outcome × Database
    unfolding fulfill_order
    fulfill_checkout_session session db = elim (read_order session) [
      | none ↦ (ignored, db)
      | some order ↦
          if not (is_text session.payment_status "paid")
          then (pending, db)
          else if not (is_some (get_tenant order.tenant_id db))
          then (ignored, db)
          else fulfill_order session order db
    ]
