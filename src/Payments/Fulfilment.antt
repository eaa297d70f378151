-- ===== src/Payments/Fulfilment.antt =====
-- What a fulfilled session means for the workspace: the plan that was bought, for the exact price.
use omni_flow.Prelude.{
  ℕ, ◌≡◌, refl, ◌∙◌, ◌⊎◌, inl, inr, String, true, false, Option, none, some, ==_refl, string_eq,
  is_some, Bool-cases, Option-cases, arith,
}
use omni_flow.Floats.{Floats}
use omni_flow.Json.{is_text}
use omni_flow.TextOps.{TextOps}
use omni_flow.Store.{Moment, Subscription, Payment, Database}
use omni_flow.Store.Tenants.{get_tenant}
use omni_flow.Store.Subscriptions.{
  get_subscription, ensure_subscription, set_upgrade_requests_status,
}
use omni_flow.Store.Billing.{Activation, apply_payment, apply_activation, settle, inserted_payment}
use omni_flow.Store.Billing.Once.{
  find_payment, apply_payment_new, apply_payment_known, get-save_subscription,
}
use omni_flow.Plans.{plan_key, cycle_key, paid_period_end, has_no_end_date}
use omni_flow.Plans.Trial.{get_or_create_subscription}
use omni_flow.Plans.Trial.First.{first_subscription, get_or_create_lem}
use omni_flow.Payments.{
  CheckoutSession, Order, Outcome, duplicate, review, activated, read_order, is_exact_payment,
  activate, payment_details, finish, fulfill_order, fulfill_checkout_session,
}

module _ (fl : Floats) (ops : TextOps) (days_of_trial : ℕ) (uid : ℕ → String) (now : Moment) where
  abbrev pub ensured : Order → Database → Database
  ensured order db = (get_or_create_subscription days_of_trial (uid 0) now order.tenant_id db).1

  abbrev pub first : Order → Database → Subscription
  first order db = first_subscription days_of_trial (uid 0) now order.tenant_id db

  -- A session that is recorded already ends as a duplicate.
  pub fulfill_order_known :
      (session : CheckoutSession) (order : Order) (db : Database)
      → is_some (find_payment order.session_id (ensured order db)) ≡ true
      → fulfill_order fl ops days_of_trial uid now session order db ≡ (duplicate, ensured order db)
  unfolding fulfill_order finish payment_details
  fulfill_order_known session order db known = rw (
      apply_payment_known (uid 1) now (payment_details fl ops session order) order.tenant_id
        (activate fl ops session order now) (ensured order db) known)

  -- The outcome that an activation, or the lack of one, leads to.
  abbrev outcome_of : Option Activation → Payment → Outcome
  outcome_of none row = review row
  outcome_of (some _) row = activated row

  finish-settle :
      (change : Option Activation) (row : Payment) (tenant : String) (db : Database)
      → ((finish now tenant (some (settle change row)) db).0
          ≡ outcome_of change (settle change row))
        × (get_subscription tenant (finish now tenant (some (settle change row)) db).1
            ≡ get_subscription tenant db)
        × ((id : String)
            → find_payment id (finish now tenant (some (settle change row)) db).1
              ≡ find_payment id db)
  unfolding finish set_upgrade_requests_status get_subscription
  finish-settle none row tenant db = (refl, refl, λ id. refl)
  finish-settle (some a) row tenant db = (refl, refl, λ id. refl)

  -- A session that is new is recorded, and acted on by what `activate` makes of the workspace's
  -- subscription.
  fulfill_order_new :
      (session : CheckoutSession) (order : Order) (db : Database)
      → is_some (find_payment order.session_id (ensured order db)) ≡ false
      → let change = activate fl ops session order now (some (first order db)) in
        let row =
          settle change
            (inserted_payment now order.tenant_id (payment_details fl ops session order)) in
        let (outcome, db') = fulfill_order fl ops days_of_trial uid now session order db in
        (outcome ≡ outcome_of change row)
        × (find_payment order.session_id db' ≡ some row)
        × (get_subscription order.tenant_id db'
            ≡ get_subscription order.tenant_id
                (apply_activation (uid 1) now order.tenant_id change (ensured order db)))
  unfolding fulfill_order payment_details
  fulfill_order_new session order db fresh =
      let had = get_or_create_lem days_of_trial (uid 0) now order.tenant_id db in
      let found = had.1 ∙ had.0 in
      let details = payment_details fl ops session order in
      let change = activate fl ops session order now (some (first order db)) in
      let row = settle change (inserted_payment now order.tenant_id details) in
      let result =
        apply_payment (uid 1) now details order.tenant_id (activate fl ops session order now)
          (ensured order db) in
      let new : (result.0 ≡ some row)
          × (find_payment order.session_id result.1 ≡ result.0)
          × (get_subscription order.tenant_id result.1
              ≡ get_subscription order.tenant_id
                  (apply_activation (uid 1) now order.tenant_id change (ensured order db))) =
        rw (← found) (
          apply_payment_new (uid 1) now details order.tenant_id (activate fl ops session order now)
            (ensured order db) fresh) in
      let end =
        finish-settle change (inserted_payment now order.tenant_id details) order.tenant_id
          result.1 in
      rw new.0 (end.0, end.2 order.session_id ∙ new.1 ∙ new.0, end.1 ∙ new.2)

  -- The subscription that a fulfilled order leaves: the workspace's row with the plan and cycle that
  -- were bought, active until the end of the period that the payment buys.
  abbrev pub bought : Order → Subscription → Subscription
  bought order s = record s {
    plan = plan_key order.plan;
    billing_cycle = cycle_key order.cycle;
    status = "active";
    current_period_end = some (paid_period_end fl (some s) order.plan order.cycle 1 now);
    updated_at = now;
  }

  abbrev activation_for : Order → Subscription → Activation
  activation_for order s = record {
    plan = plan_key order.plan;
    billing_cycle = cycle_key order.cycle;
    status = "active";
    current_period_end = paid_period_end fl (some s) order.plan order.cycle 1 now;
  }

  -- `activate` agrees exactly to an exact payment for a subscription that has an end.
  activate-cases :
      (session : CheckoutSession) (order : Order) (s : Subscription)
      → (((is_exact_payment fl ops session order ≡ false) ⊎ (has_no_end_date (some s) ≡ true))
          × (activate fl ops session order now (some s) ≡ none))
        ⊎ ((is_exact_payment fl ops session order ≡ true)
            × (has_no_end_date (some s) ≡ false)
            × (activate fl ops session order now (some s) ≡ some (activation_for order s)))
  unfolding activate
  activate-cases session order s = elim (Bool-cases (is_exact_payment fl ops session order)) [
    | inr inexact ↦ inl (inl inexact, rw inexact)
    | inl exact ↦ elim (Bool-cases (has_no_end_date (some s))) [
      | inl endless ↦ inl (inr endless, rw (exact, endless))
      | inr ends ↦ inr (exact, ends, rw (exact, ends))
    ]
  ]

  get-apply_activation :
      (tenant : String) (change : Option Activation) (s : Subscription) (db : Database)
      → get_subscription tenant db ≡ some s
      → get_subscription tenant (apply_activation (uid 1) now tenant change db)
        ≡ some (elim change [
          | none ↦ s
          | some a ↦ record s {
            plan = a.plan;
            billing_cycle = a.billing_cycle;
            status = a.status;
            current_period_end = some a.current_period_end;
            updated_at = now;
          }
        ])
  unfolding apply_activation
  get-apply_activation tenant none s db found = found
  get-apply_activation tenant (some a) s db found =
      get-save_subscription tenant _ db ∙ rw (==_refl tenant, found)

  ensured_subscription :
      (order : Order) (db : Database)
      → get_subscription order.tenant_id (ensured order db) ≡ some (first order db)
  ensured_subscription order db =
      let had = get_or_create_lem days_of_trial (uid 0) now order.tenant_id db in had.1 ∙ had.0

  -- The payment was on record before, and stays so; the subscription is as it was.
  abbrev pub IsRepeat : Order → Database → Outcome × Database → Type 0
  IsRepeat order db (outcome, db') =
      (is_some (find_payment order.session_id db) ≡ true)
      × (outcome ≡ duplicate)
      × (get_subscription order.tenant_id db' ≡ some (first order db))
      × (find_payment order.session_id db' ≡ find_payment order.session_id db)

  -- The payment is new and not one that `activate` agrees to; the subscription is as it was.
  abbrev pub IsReviewed : CheckoutSession → Order → Database → Outcome × Database → Type 0
  IsReviewed session order db (outcome, db') =
      (p : Payment) × (find_payment order.session_id db ≡ none)
      × ((is_exact_payment fl ops session order ≡ false)
          ⊎ (has_no_end_date (some (first order db)) ≡ true))
      × (outcome ≡ review p)
      × (get_subscription order.tenant_id db' ≡ some (first order db))
      × (find_payment order.session_id db' ≡ some p)

  -- The payment is new and exact; the subscription has an end and is now the one that was bought.
  abbrev pub IsActivated : CheckoutSession → Order → Database → Outcome × Database → Type 0
  IsActivated session order db (outcome, db') =
      (p : Payment) × (find_payment order.session_id db ≡ none)
      × (is_exact_payment fl ops session order ≡ true)
      × (has_no_end_date (some (first order db)) ≡ false)
      × (outcome ≡ activated p)
      × (get_subscription order.tenant_id db' ≡ some (bought order (first order db)))
      × (find_payment order.session_id db' ≡ some p)

  -- That the subscription exists now writes no payment.
  ensured-billing_payments :
      (order : Order) (db : Database) → (ensured order db).billing_payments ≡ db.billing_payments
  unfolding get_or_create_subscription ensure_subscription
  ensured-billing_payments order db = ground arith

  find_payment-ensured :
      (order : Order) (db : Database)
      → find_payment order.session_id (ensured order db) ≡ find_payment order.session_id db
  find_payment-ensured order db = rw (ensured-billing_payments order db) refl

  new_cases :
      (session : CheckoutSession) (order : Order) (db : Database)
      → find_payment order.session_id db ≡ none
      → let end = fulfill_order fl ops days_of_trial uid now session order db in
        IsReviewed session order db end ⊎ IsActivated session order db end
  new_cases session order db fresh =
      let s = first order db in
      let new =
        fulfill_order_new session order db (rw (find_payment-ensured order db, fresh) refl) in
      let base = inserted_payment now order.tenant_id (payment_details fl ops session order) in
      let had = ensured_subscription order db in
      elim (activate-cases session order s) [
        | inl (why, kept) ↦
            let n = rw kept at new in
            inl (
              settle none base,
              fresh,
              why,
              n.0,
              n.2 ∙ get-apply_activation order.tenant_id none s (ensured order db) had,
              n.1,
            )
        | inr (exact, ends, change) ↦
            let n = rw change at new in
            let a = some (activation_for order s) in
            inr (
              settle a base,
              fresh,
              exact,
              ends,
              n.0,
              n.2 ∙ get-apply_activation order.tenant_id a s (ensured order db) had,
              n.1,
            )
      ]

  known_case :
      (session : CheckoutSession) (order : Order) (db : Database) (p : Payment)
      → find_payment order.session_id db ≡ some p
      → IsRepeat order db (fulfill_order fl ops days_of_trial uid now session order db)
  known_case session order db p known =
      let same = find_payment-ensured order db in
      rw (fulfill_order_known session order db (rw (same, known) refl))
        (rw known refl, refl, ensured_subscription order db, same)

  -- What an order does, on every branch.
  fulfill_order_cases :
      (session : CheckoutSession) (order : Order) (db : Database)
      → let end = fulfill_order fl ops days_of_trial uid now session order db in
        IsRepeat order db end ⊎ IsReviewed session order db end ⊎ IsActivated session order db end
  fulfill_order_cases session order db = elim (Option-cases (find_payment order.session_id db)) [
    | inr (p, known) ↦ inl (known_case session order db p known)
    | inl fresh ↦ inr (new_cases session order db fresh)
  ]

  pub fulfill_order_at :
      (session : CheckoutSession) (order : Order) (db : Database)
      → read_order session ≡ some order
      → is_text session.payment_status "paid" ≡ true
      → is_some (get_tenant order.tenant_id db) ≡ true
      → fulfill_checkout_session fl ops days_of_trial uid now session db
        ≡ fulfill_order fl ops days_of_trial uid now session order db
  unfolding fulfill_checkout_session
  fulfill_order_at session order db read paid known =
      rw (read, fulfill_checkout_session) (rw (paid, known))

  -- A session that was paid for a known workspace, when its payment was on record before: the answer
  -- is `duplicate`, and payment and subscription stay as they are. When it was not, it is now, and
  -- the answer says with which row. If the price is not exact in the right currency, or the
  -- subscription has no end date, that is kept for review and the subscription stays as it is.
  -- If both are in order, the plan is activated: the subscription is on the plan and cycle that were
  -- bought until the end of the period that `paid_period_end` computes.
  pub fulfilled_session :
      (session : CheckoutSession) (order : Order) (db : Database)
      → read_order session ≡ some order
      → is_text session.payment_status "paid" ≡ true
      → is_some (get_tenant order.tenant_id db) ≡ true
      → let end = fulfill_checkout_session fl ops days_of_trial uid now session db in
        IsRepeat order db end ⊎ IsReviewed session order db end ⊎ IsActivated session order db end
  fulfilled_session session order db read paid known =
      rw (fulfill_order_at session order db read paid known) (fulfill_order_cases session order db)
