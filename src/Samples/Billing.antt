-- ===== src/Samples/Billing.antt =====
-- A checkout session that is paid for the sample workspace.
use omni_flow.Prelude.{
  ℕ, ◌+◌, ◌≡◌, refl, ◌⊎◌, String, true, false, Option, none, some, string_eq, is_some,
}
use omni_flow.Prelude.Int.{pos}
use omni_flow.Json.{num, text}
use omni_flow.Sql.{lookup}
use omni_flow.Store.{Subscription}
use omni_flow.Store.Tenants.{get_tenant}
use omni_flow.Store.Billing.{PaymentDetails, Activation}
use omni_flow.Store.Billing.Once.{find_payment}
use omni_flow.Plans.{pro, monthly, find_plan, find_cycle}
use omni_flow.Payments.{CheckoutSession, value, Order, read_order, fulfill_checkout_session}
use omni_flow.Payments.Fulfilment.{IsRepeat, IsReviewed, IsActivated, fulfilled_session}
use omni_flow.Samples.World.{plain_text, coarse_floats, start_of_day, database}

abbrev session : CheckoutSession
session = record {
  id = text "cs_1";
  mode = text "payment";
  client_reference_id = text "shop";
  payment_status = text "paid";
  amount_total = num (pos 6600);
  currency = text "cny";
  payment_intent = value (text "pi_1");
  workspace_id = text "shop";
  plan = text "pro";
  cycle = text "monthly";
}

abbrev order : Order
order = record { session_id = "cs_1"; tenant_id = "shop"; plan = pro; cycle = monthly }

abbrev uid : ℕ → String
uid n = "id"

session_read : read_order session ≡ some order
unfolding read_order find_plan find_cycle
session_read = refl

shop_known : is_some (get_tenant order.tenant_id database) ≡ true
unfolding get_tenant lookup
shop_known = refl

fulfilled_session_example :
    let end =
      fulfill_checkout_session coarse_floats plain_text 14 uid start_of_day session database in
    IsRepeat coarse_floats plain_text 14 uid start_of_day order database end
    ⊎ IsReviewed coarse_floats plain_text 14 uid start_of_day session order database end
    ⊎ IsActivated coarse_floats plain_text 14 uid start_of_day session order database end
fulfilled_session_example =
    fulfilled_session coarse_floats plain_text 14 uid start_of_day session order database
      session_read refl shop_known

abbrev details : PaymentDetails
details = record {
  id = "cs_1";
  provider = "stripe";
  plan = "pro";
  billing_cycle = "monthly";
  amount = pos 6600;
  currency = "cny";
  reference = none;
}

abbrev paid_month : Option Subscription → Option Activation
paid_month s = some (record {
  plan = "pro";
  billing_cycle = "monthly";
  status = "active";
  current_period_end = start_of_day + 9;
})

new_payment : is_some (find_payment details.id database) ≡ false
unfolding lookup
new_payment = refl
