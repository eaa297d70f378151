-- ===== src/Payments/Repeats.antt =====
-- Stripe reports a payment more than once: the webhook and the success page both fulfil a session.
use omni_flow.Prelude.{
  ℕ, ◌≡◌, refl, ap, ◌∙◌, inl, inr, String, true, Option, none, some, arith, is_some,
}
use omni_flow.Floats.{Floats}
use omni_flow.Json.{is_text}
use omni_flow.TextOps.{TextOps}
use omni_flow.Store.{Moment, Subscription, Payment, Database}
use omni_flow.Store.Tenants.{get_tenant}
use omni_flow.Store.Subscriptions.{
  get_subscription, ensure_subscription, save_subscription, set_upgrade_requests_status,
}
use omni_flow.Store.Billing.{
  PaymentDetails, Activation, apply_payment, record_payment, apply_activation,
}
use omni_flow.Store.Billing.Once.{find_payment}
use omni_flow.Plans.Trial.{get_or_create_subscription}
use omni_flow.Plans.Trial.First.{get_or_create_kept}
use omni_flow.Payments.{
  CheckoutSession, Order, duplicate, read_order, activate, finish, fulfill_order,
  fulfill_checkout_session,
}
use omni_flow.Payments.Fulfilment.{fulfill_order_known, fulfilled_session, fulfill_order_at}

-- No step of a fulfilment writes to the table of workspaces.
get_or_create-tenants :
    (trial : ℕ) (uid : String) (now : Moment) (tenant : String) (db : Database)
    → (get_or_create_subscription trial uid now tenant db).1.tenants ≡ db.tenants
unfolding get_or_create_subscription ensure_subscription
get_or_create-tenants trial uid now tenant db = ground arith

apply_activation-tenants :
    (uid : String) (now : Moment) (tenant : String) (change : Option Activation) (db : Database)
    → (apply_activation uid now tenant change db).tenants ≡ db.tenants
unfolding apply_activation save_subscription
apply_activation-tenants uid now tenant none db = refl
apply_activation-tenants uid now tenant (some a) db = refl

apply_payment-tenants :
    (uid : String) (now : Moment) (p : PaymentDetails) (tenant : String)
    (activate : Option Subscription → Option Activation) (db : Database)
    → (apply_payment uid now p tenant activate db).1.tenants ≡ db.tenants
unfolding apply_payment record_payment
apply_payment-tenants uid now p tenant activate db =
    ground
      (arith, apply_activation-tenants uid now tenant (activate (get_subscription tenant db)) db)

finish-tenants :
    (now : Moment) (tenant : String) (payment : Option Payment) (db : Database)
    → (finish now tenant payment db).1.tenants ≡ db.tenants
unfolding finish set_upgrade_requests_status
finish-tenants now tenant none db = refl
finish-tenants now tenant (some p) db = ground arith

module _ (fl : Floats) (ops : TextOps) where
  fulfill_order-tenants :
      (trial : ℕ) (uid : ℕ → String) (now : Moment) (session : CheckoutSession) (order : Order)
      (db : Database)
      → (fulfill_order fl ops trial uid now session order db).1.tenants ≡ db.tenants
  unfolding fulfill_order
  fulfill_order-tenants trial uid now session order db =
      finish-tenants now order.tenant_id _ _
      ∙ apply_payment-tenants (uid 1) now _ order.tenant_id (activate fl ops session order now) _
      ∙ get_or_create-tenants trial (uid 0) now order.tenant_id db

  pub fulfill-tenants :
      (trial : ℕ) (uid : ℕ → String) (now : Moment) (session : CheckoutSession) (order : Order)
      (db : Database)
      → read_order session ≡ some order
      → is_text session.payment_status "paid" ≡ true
      → is_some (get_tenant order.tenant_id db) ≡ true
      → (fulfill_checkout_session fl ops trial uid now session db).1.tenants ≡ db.tenants
  fulfill-tenants trial uid now session order db read paid known =
      rw (fulfill_order_at fl ops trial uid now session order db read paid known)
        (fulfill_order-tenants trial uid now session order db)

  -- A session whose payment is recorded, of a workspace that has a subscription, changes nothing.
  pub recorded_session :
      (trial : ℕ) (uid : ℕ → String) (now : Moment) (session : CheckoutSession) (order : Order)
      (db : Database)
      → read_order session ≡ some order
      → is_text session.payment_status "paid" ≡ true
      → is_some (get_tenant order.tenant_id db) ≡ true
      → is_some (get_subscription order.tenant_id db) ≡ true
      → is_some (find_payment order.session_id db) ≡ true
      → fulfill_checkout_session fl ops trial uid now session db ≡ (duplicate, db)
  recorded_session trial uid now session order db read paid known has recorded =
      let same = get_or_create_kept trial (uid 0) now order.tenant_id db has in
      fulfill_order_at fl ops trial uid now session order db read paid known
      ∙ fulfill_order_known fl ops trial uid now session order db (rw same recorded)
      ∙ ap (λ d. (duplicate, d)) same

  -- After a session is fulfilled its payment and the workspace's subscription are on record.
  pub fulfilled_on_record :
      (trial : ℕ) (uid : ℕ → String) (now : Moment) (session : CheckoutSession) (order : Order)
      (db : Database)
      → read_order session ≡ some order
      → is_text session.payment_status "paid" ≡ true
      → is_some (get_tenant order.tenant_id db) ≡ true
      → let db' = (fulfill_checkout_session fl ops trial uid now session db).1 in
        (is_some (get_subscription order.tenant_id db') ≡ true)
        × (is_some (find_payment order.session_id db') ≡ true)
  fulfilled_on_record trial uid now session order db read paid known =
      elim (fulfilled_session fl ops trial uid now session order db read paid known) [
        | inl (known, _, has, same) ↦ (rw has, ap is_some same ∙ known)
        | inr (inl (p, _, _, _, has, recorded)) ↦ (rw has, rw recorded)
        | inr (inr (p, _, _, _, _, has, recorded)) ↦ (rw has, rw recorded)
      ]

  -- A paid session of a known workspace is applied at most once: whenever it is delivered again, with
  -- nothing in between, the answer is `duplicate` and the database stays exactly as it is.
  pub fulfilled_twice :
      (trial trial' : ℕ) (uid uid' : ℕ → String) (now now' : Moment) (session : CheckoutSession)
      (order : Order) (db : Database)
      → read_order session ≡ some order
      → is_text session.payment_status "paid" ≡ true
      → is_some (get_tenant order.tenant_id db) ≡ true
      → let db' = (fulfill_checkout_session fl ops trial uid now session db).1 in
        fulfill_checkout_session fl ops trial' uid' now' session db' ≡ (duplicate, db')
  unfolding get_tenant
  fulfilled_twice trial trial' uid uid' now now' session order db read paid known =
      let on_record = fulfilled_on_record trial uid now session order db read paid known in
      recorded_session trial' uid' now' session order
        (fulfill_checkout_session fl ops trial uid now session db).1 read paid
        (rw (fulfill-tenants trial uid now session order db read paid known) known) on_record.0
        on_record.1
