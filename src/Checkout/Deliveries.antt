-- ===== src/Checkout/Deliveries.antt =====
-- The deliveries of one session: by the webhook, and by the page that Stripe sends the buyer back to.
use omni_flow.Prelude.{
  ℕ, ◌≡◌, refl, sym, ap, ◌∙◌, inl, inr, arith, String, Bool, true, Option, none, some, List, [],
  ◌∷◌, ==_refl, string_eq, if◌then◌else◌, is_some, Bool-cases,
}
use omni_flow.Json.{Json, null, flag, num, text, other, as_text, is_text}
use omni_flow.TextOps.{TextOps}
use omni_flow.Floats.{Floats}
use omni_flow.Store.{Moment, Subscription, Database}
use omni_flow.Store.Tenants.{get_tenant}
use omni_flow.Store.Subscriptions.{get_subscription}
use omni_flow.Store.Billing.Once.{find_payment}
use omni_flow.Plans.Trial.{get_or_create_subscription}
use omni_flow.Plans.Trial.First.{get_or_create_kept}
use omni_flow.Plans.Summary.{Summary, with_subscription, subscription_summary}
use omni_flow.Payments.{CheckoutSession, Order, Outcome, read_order, fulfill_checkout_session}
use omni_flow.Payments.Repeats.{fulfill-tenants, recorded_session, fulfilled_on_record}
use omni_flow.Checkout.{
  StripeLibrary, retrieved, with_summary, applied, as_handled, handle_event,
  checkout_session_status,
}

-- A delivery by the page, or by one of the two events that fulfil a session.
pub record Delivery : Type 0 where
  pub by_page : Bool
  pub asynchronous : Bool
  pub days_of_trial : ℕ
  pub uid : ℕ → String
  pub now : Moment

as_text-is : (v : Json) (s : String) → as_text v ≡ some s → is_text v s ≡ true
as_text-is null s h = cc h
as_text-is (flag b) s h = cc h
as_text-is (num i) s h = cc h
as_text-is (text t) s h = let same : t ≡ s = cc h in rw same (==_refl s)
as_text-is other s h = cc h

read_order-workspace :
    (session : CheckoutSession) (order : Order)
    → read_order session ≡ some order
    → is_text session.workspace_id order.tenant_id ≡ true
unfolding read_order
read_order-workspace session order read =
    ground (arith, as_text-is session.workspace_id order.tenant_id, read)

module _ (stripe : StripeLibrary) (fl : Floats) (ops : TextOps) (session : CheckoutSession)
    (order : Order) (id : String) where
  abbrev pub event_type : Bool → String
  event_type asynchronous =
      if asynchronous
      then "checkout.session.async_payment_succeeded"
      else "checkout.session.completed"

  abbrev pub deliver : Delivery → Database → Database
  deliver d db =
      if d.by_page
      then (checkout_session_status stripe fl ops d.days_of_trial d.uid d.now true
          (λ _. retrieved session) order.tenant_id id db).1
      else (handle_event stripe fl ops d.days_of_trial d.uid d.now
          (record { type = event_type d.asynchronous; session = session }) db).1

  abbrev pub deliver_all : List Delivery → Database → Database
  deliver_all [] db = db
  deliver_all (d ∷ later) db = deliver_all later (deliver d db)

  abbrev fulfilled_by : Delivery → Database → Database
  fulfilled_by d db = (fulfill_checkout_session fl ops d.days_of_trial d.uid d.now session db).1

  with_subscription-db :
      (now : Moment) (r : Option Subscription × Database)
      → (with_subscription ops now order.tenant_id r).1 ≡ r.1
  with_subscription-db now (none, db) = refl
  with_subscription-db now (some s, db) = refl

  module _ (d : Delivery) where
    open d use {days_of_trial, uid, now}

    with_summary-db :
        (outcome : Outcome) (r : Option Summary × Database)
        → (with_summary stripe fl ops days_of_trial uid now session outcome r).1 ≡ r.1
    with_summary-db outcome (none, db) = refl
    with_summary-db outcome (some summary, db) = refl

    applied-db :
        (r : Outcome × Database)
        → is_some (get_subscription order.tenant_id r.1) ≡ true
        → (applied stripe fl ops days_of_trial uid now order.tenant_id session r).1 ≡ r.1
    unfolding subscription_summary
    applied-db (outcome, db) has =
        with_summary-db outcome
          (subscription_summary ops days_of_trial (uid 2) now order.tenant_id db)
        ∙ with_subscription-db now
            (get_or_create_subscription days_of_trial (uid 2) now order.tenant_id db)
        ∙ get_or_create_kept days_of_trial (uid 2) now order.tenant_id db has

    as_handled-db :
        (r : Outcome × Database) → (as_handled stripe fl ops days_of_trial uid now r).1 ≡ r.1
    as_handled-db (outcome, db) = refl

  -- Either way the session is fulfilled, and nothing else is changed.
  deliver-fulfill :
      (d : Delivery) (db : Database)
      → stripe.is_session_id id ≡ true
      → read_order session ≡ some order
      → is_text session.payment_status "paid" ≡ true
      → is_some (get_tenant order.tenant_id db) ≡ true
      → deliver d db ≡ fulfilled_by d db
  unfolding handle_event checkout_session_status
  deliver-fulfill d db ok read paid known = elim (Bool-cases d.by_page) [
    | inl page ↦
        let (has, _) =
          fulfilled_on_record fl ops d.days_of_trial d.uid d.now session order db read paid known in
        rw page (
          rw ok (
            rw (read_order-workspace session order read) (
              applied-db d (fulfill_checkout_session fl ops d.days_of_trial d.uid d.now session db)
                has)))
    | inr hook ↦ elim (Bool-cases d.asynchronous) [
      | inl late ↦ rw hook (
          rw late (
            as_handled-db d
              (fulfill_checkout_session fl ops d.days_of_trial d.uid d.now session db)))
      | inr at_once ↦ rw hook (
          rw at_once (
            as_handled-db d
              (fulfill_checkout_session fl ops d.days_of_trial d.uid d.now session db)))
    ]
  ]

  -- Once a payment is on record with its workspace, deliveries change nothing.
  deliver_all_kept :
      (later : List Delivery) (db : Database)
      → stripe.is_session_id id ≡ true
      → read_order session ≡ some order
      → is_text session.payment_status "paid" ≡ true
      → is_some (get_tenant order.tenant_id db) ≡ true
      → is_some (get_subscription order.tenant_id db) ≡ true
      → is_some (find_payment order.session_id db) ≡ true
      → deliver_all later db ≡ db
  deliver_all_kept [] db ok read paid known has recorded = refl
  deliver_all_kept (d ∷ later) db ok read paid known has recorded =
      let same =
        deliver-fulfill d db ok read paid known
        ∙ ap (λ r. r.1)
            (recorded_session fl ops d.days_of_trial d.uid d.now session order db read paid known
              has recorded) in
      ap (deliver_all later) same ∙ deliver_all_kept later db ok read paid known has recorded

  -- A paid session of a known workspace is applied once, in whatever order and however often the
  -- webhook and the buyer's page bring it: what the first delivery leaves is what all of them leave.
  pub delivered_once :
      (first : Delivery) (later : List Delivery) (db : Database)
      → stripe.is_session_id id ≡ true
      → read_order session ≡ some order
      → is_text session.payment_status "paid" ≡ true
      → is_some (get_tenant order.tenant_id db) ≡ true
      → deliver_all (first ∷ later) db
        ≡ (fulfill_checkout_session fl ops first.days_of_trial first.uid first.now session db).1
  unfolding get_tenant
  delivered_once first later db ok read paid known =
      let db' = fulfilled_by first db in
      let (has, recorded) =
        fulfilled_on_record fl ops first.days_of_trial first.uid first.now session order db read
          paid known in
      let known' =
        rw
          (sym (
            fulfill-tenants fl ops first.days_of_trial first.uid first.now session order db read
              paid known))
          at known in
      ap (deliver_all later) (deliver-fulfill first db ok read paid known)
      ∙ deliver_all_kept later db' ok read paid known' has recorded
