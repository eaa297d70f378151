-- ===== src/Samples/Orders.antt =====
-- Deliveries of a session, a repeated request for a plan, and the operator's commands.
use omni_flow.Prelude.{
  ℕ, ◌+◌, ◌≡◌, refl, ◌⊎◌, arith, String, true, false, none, some, [], ◌∷◌, string_eq, is_some,
}
use omni_flow.Prelude.Int.{pos}
use omni_flow.Json.{num, text}
use omni_flow.Sql.{find, lookup, order_by, select}
use omni_flow.Store.{Subscription, Database, days}
use omni_flow.Store.Tenants.{get_tenant}
use omni_flow.Store.Subscriptions.{list_upgrade_requests, save_upgrade_request}
use omni_flow.Plans.{pro, monthly, annual, find_plan, find_cycle}
use omni_flow.Payments.{CheckoutSession, value, Order, read_order, fulfill_checkout_session}
use omni_flow.Limits.{
  PlanGate, load_plan_gate, require_active, granted, refused, subscription_required,
}
use omni_flow.SetPlan.{activate, expire}
use omni_flow.SetPlan.Access.{expire_ends_access, activate_gives_access}
use omni_flow.Checkout.{
  StripeLibrary, event, stripe_webhook, UpgradeAnswer, recent_request, request_upgrade,
}
use omni_flow.Checkout.Deliveries.{Delivery, deliver_all, delivered_once}
use omni_flow.Checkout.Signed.{IsFulfilled, stripe_webhook_cases}
use omni_flow.Checkout.Upgrades.{requested_again}
use omni_flow.Samples.World.{plain_text, coarse_floats, start_of_day, database}

abbrev session : CheckoutSession
session = record {
  id = text "cs_1";
  mode = text "payment";
  client_reference_id = text "shop";
  payment_status = text "paid";
  amount_total = num (pos 66600);
  currency = text "cny";
  payment_intent = value (text "pi_1");
  workspace_id = text "shop";
  plan = text "pro";
  cycle = text "annual";
}

abbrev order : Order
order = record { session_id = "cs_1"; tenant_id = "shop"; plan = pro; cycle = annual }

abbrev uid : ℕ → String
uid n = "id"

-- Every payload is the event of the session.
abbrev stripe : StripeLibrary
stripe = record {
  verify_header = λ now payload signature secret. true;
  loads = λ payload. event (record { type = "checkout.session.completed"; session = session });
  size = λ payload. 100;
  is_session_id = λ id. true;
}

session_read : read_order session ≡ some order
unfolding read_order find_plan find_cycle
session_read = refl

shop_known : is_some (get_tenant order.tenant_id database) ≡ true
unfolding get_tenant lookup
shop_known = refl

abbrev by_hook : Delivery
by_hook = record {
  by_page = false;
  asynchronous = false;
  days_of_trial = 14;
  uid = uid;
  now = start_of_day;
}

abbrev by_buyer : Delivery
by_buyer = record by_hook { by_page = true; now = start_of_day + 1 }

delivered_once_example :
    deliver_all stripe coarse_floats plain_text session order "cs_1"
      (by_hook ∷ by_buyer ∷ by_hook ∷ [])
      database
    ≡ (fulfill_checkout_session coarse_floats plain_text 14 uid start_of_day session database).1
delivered_once_example =
    delivered_once stripe coarse_floats plain_text session order "cs_1" by_hook
      (by_buyer ∷ by_hook ∷ []) database refl session_read refl shop_known

stripe_webhook_cases_example :
    let db' =
      (stripe_webhook stripe coarse_floats plain_text 14 uid start_of_day "key" "{}" "sig"
        database).1 in
    (db' ≡ database)
    ⊎ IsFulfilled stripe coarse_floats plain_text 14 uid start_of_day "key" "{}" "sig" database db'
stripe_webhook_cases_example =
    stripe_webhook_cases stripe coarse_floats plain_text 14 uid start_of_day "key" "{}" "sig"
      database

abbrev requested : UpgradeAnswer
requested = record {
  id = "r-1";
  plan = "pro";
  billing_cycle = "monthly";
  created_at = start_of_day;
  duplicate = false;
}

abbrev after_request : Database
after_request = record database {
  upgrade_requests =
      record {
        id = "r-1";
        tenant_id = "shop";
        user_id = none;
        plan = "pro";
        billing_cycle = "monthly";
        status = "pending";
        created_at = start_of_day;
        updated_at = start_of_day;
      }
      ∷ [];
}

first_request :
    request_upgrade plain_text 14 false (λ n. "r-1") start_of_day "shop" none pro monthly database
    ≡ (some requested, after_request)
unfolding request_upgrade recent_request list_upgrade_requests save_upgrade_request find order_by
    select
first_request = refl

requested_again_example :
    request_upgrade plain_text 14 true
      (λ n. "r-2")
      (start_of_day + 5)
      "shop"
      (some "u-1")
      pro
      monthly
      after_request
    ≡ (some (record requested { duplicate = true }), after_request)
requested_again_example =
    requested_again "shop" pro monthly plain_text 14 14 false true (λ n. "r-1") (λ n. "r-2")
      start_of_day (start_of_day + 5) none (some "u-1") database after_request requested
      first_request refl (omega arith) (omega arith)

expire_ends_access_example :
    let db' = expire 14 uid start_of_day "shop" database in
    let (gate, db'') = load_plan_gate 14 "id" (start_of_day + 1) "shop" db' in
    (g : PlanGate) × (gate ≡ some g)
    × (require_active g ≡ refused subscription_required)
    × (db'' ≡ db')
expire_ends_access_example =
    expire_ends_access 14 uid start_of_day "shop" database 14 "id" (start_of_day + 1)

activate_gives_access_example :
    let db' = activate 14 uid start_of_day coarse_floats "shop" pro monthly 2 database in
    let (gate, db'') = load_plan_gate 14 "id" (start_of_day + days 59) "shop" db' in
    (g : PlanGate) × (gate ≡ some g)
    × (g.subscription.plan ≡ "pro")
    × (require_active g ≡ granted)
    × (db'' ≡ db')
activate_gives_access_example =
    activate_gives_access 14 uid start_of_day "shop" coarse_floats pro monthly 2 database 14 "id"
      (start_of_day + days 59) (omega arith)

abbrev running : Subscription
running = record {
  id = "s-1";
  tenant_id = "shop";
  plan = "pro";
  billing_cycle = "monthly";
  status = "active";
  current_period_end = some (start_of_day + days 3);
  created_at = 0;
  updated_at = 0;
}
