-- ===== src/Store/Billing.antt =====
-- db/sqlite_store.py, `apply_payment` and `list_payments`. `now` is the call's `utcnow()` and `uid`
-- its `uuid4()`. The INSERT takes SQLite's write lock, so the whole method is one step.
pub mod Once
use omni_flow.Prelude.{
  String, Bool, Option, none, some, List, ◌==◌, string_eq, if◌then◌else◌, is_some, leb,
}
use omni_flow.Prelude.Int.{ℤ}
use omni_flow.Sql.{select, update, lookup, insert_or_ignore, upsert, order_by}
use omni_flow.Store.{Moment, Subscription, Payment, Database}
use omni_flow.Store.Subscriptions.{get_subscription, subscription_row, take_over, save_subscription}

-- The argument `payment`, and what `activate` may return.
pub record PaymentDetails : Type 0 where
  pub id : String
  pub provider : String
  pub plan : String
  pub billing_cycle : String
  pub amount : ℤ
  pub currency : String
  pub reference : Option String

pub record Activation : Type 0 where
  pub plan : String
  pub billing_cycle : String
  pub status : String
  pub current_period_end : Moment

-- `payment.get("provider") or "stripe"`
abbrev provider_or_stripe : String → String
provider_or_stripe p = if p == "" then "stripe" else p

abbrev pub inserted_payment : Moment → String → PaymentDetails → Payment
inserted_payment now tenant p = record {
  id = p.id;
  tenant_id = tenant;
  provider = provider_or_stripe p.provider;
  plan = p.plan;
  billing_cycle = p.billing_cycle;
  amount = p.amount;
  currency = p.currency;
  status = "review";
  reference = p.reference;
  period_end = none;
  created_at = now;
  updated_at = now;
}

-- The subscription that the activation writes, if there is one.
unfoldable pub apply_activation : String → Moment → String → Option Activation → Database → Database
apply_activation uid now tenant none db = db
apply_activation uid now tenant (some a) db =
    save_subscription
      (subscription_row uid now tenant a.plan a.billing_cycle a.status (some a.current_period_end))
      db

-- The status and the end of the period that the payment's row is left with.
abbrev pub settle : Option Activation → Payment → Payment
settle none p = record p { status = "review"; period_end = none }
settle (some a) p = record p { status = "paid"; period_end = some a.current_period_end }

-- The rest of `apply_payment` once the row is inserted: the row as it is read back at the end.
unfoldable pub record_payment :
    String
    → Moment
    → PaymentDetails
    → String
    → Option Activation
    → Database
    → Option Payment × Database
record_payment uid now payment tenant change db =
    let row = inserted_payment now tenant payment in
    let activated = apply_activation uid now tenant change db in
    let settled = record activated {
      billing_payments =
          update (λ (p : Payment). p.id == payment.id) (settle change)
            (insert_or_ignore (λ (p : Payment). p.id) row activated.billing_payments);
    } in
    (lookup (λ (p : Payment). p.id) payment.id settled.billing_payments, settled)

-- The payment's row, or `none` for a payment that was recorded before.
unfoldable pub apply_payment :
    String
    → Moment
    → PaymentDetails
    → String
    → (Option Subscription → Option Activation)
    → Database
    → Option Payment × Database
apply_payment uid now payment tenant activate db =
    if is_some (lookup (λ (p : Payment). p.id) payment.id db.billing_payments)
    then (none, db)
    else record_payment uid now payment tenant (activate (get_subscription tenant db)) db

unfoldable pub list_payments : String → Database → List Payment
unfolding order_by
list_payments tenant db =
    order_by (λ p q. leb q.created_at p.created_at)
      (select (λ p. p.tenant_id == tenant) db.billing_payments)
