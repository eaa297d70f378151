-- ===== src/Store/Billing/Once.antt =====
-- A payment is applied once, and what it does to the workspace's subscription.
use omni_flow.Prelude.{
  ◌≡◌, refl, sym, ◌∙◌, inl, inr, Bool-cases, String, true, false, Option, none, some, arith, ◌==◌,
  ==_iff, ==_refl, string_eq, is_some, if◌then◌else◌,
}
use mathlib.Core.Option
use omni_flow.Sql.{lookup, insert_or_ignore}
use omni_flow.Sql.Keys.{lookup-key, lookup-update, lookup-insert_or_ignore, lookup-upsert}
use omni_flow.Store.{Moment, Subscription, Payment, Database}
use omni_flow.Store.Subscriptions.{get_subscription, take_over, save_subscription}
use omni_flow.Store.Billing.{
  PaymentDetails, Activation, inserted_payment, apply_activation, settle, record_payment,
  apply_payment,
}

abbrev pub find_payment : String → Database → Option Payment
find_payment id db = lookup (λ (p : Payment). p.id) id db.billing_payments

-- Saving a subscription replaces what the workspace has, or makes its first row.
pub get-save_subscription :
    (tenant : String) (row : Subscription) (db : Database)
    → get_subscription tenant (save_subscription row db) ≡ (
        if row.tenant_id == tenant
        then elim (get_subscription tenant db) [ none ↦ some row | some s ↦ some (take_over row s) ]
        else get_subscription tenant db)
unfolding get_subscription save_subscription
get-save_subscription tenant row db =
    lookup-upsert (λ (s : Subscription). s.tenant_id) tenant row (take_over row) db.subscriptions
      (λ s. refl)

-- A payment whose id is recorded already changes nothing.
pub apply_payment_known :
    (uid : String) (now : Moment) (p : PaymentDetails) (tenant : String)
    (activate : Option Subscription → Option Activation) (db : Database)
    → is_some (find_payment p.id db) ≡ true
    → apply_payment uid now p tenant activate db ≡ (none, db)
unfolding apply_payment
apply_payment_known uid now p tenant activate db known = rw known

apply_activation-billing_payments :
    (uid : String) (now : Moment) (tenant : String) (change : Option Activation) (db : Database)
    → (apply_activation uid now tenant change db).billing_payments ≡ db.billing_payments
unfolding apply_activation save_subscription
apply_activation-billing_payments uid now tenant none db = refl
apply_activation-billing_payments uid now tenant (some a) db = refl

settle-id : (change : Option Activation) (p : Payment) → (settle change p).id ≡ p.id
settle-id none p = refl
settle-id (some a) p = refl

read_back :
    (uid : String) (now : Moment) (p : PaymentDetails) (tenant : String)
    (change : Option Activation) (db : Database)
    → (record_payment uid now p tenant change db).0
      ≡ find_payment p.id (record_payment uid now p tenant change db).1
unfolding record_payment
read_back uid now p tenant change db = refl

kept_subscription :
    (uid : String) (now : Moment) (p : PaymentDetails) (tenant : String)
    (change : Option Activation) (db : Database)
    → get_subscription tenant (record_payment uid now p tenant change db).1
      ≡ get_subscription tenant (apply_activation uid now tenant change db)
unfolding record_payment get_subscription
kept_subscription uid now p tenant change db = refl

settled_at :
    (id : String) (change : Option Activation) (p : PaymentDetails) (now : Moment) (tenant : String)
    (found : Option Payment)
    → ((q : Payment) → found ≡ some q → q.id ≡ id)
    → is_some (if id == p.id then found else none) ≡ false
    → let row = inserted_payment now tenant p in
      Option.map
        (λ q. if q.id == p.id then settle change q else q)
        (if is_some found then found else if row.id == id then some row else none)
      ≡ (if id == p.id then some (settle change row) else found)
settled_at id change p now tenant none at fresh =
    ground (arith, ==_iff p.id id, ==_iff id p.id, ==_refl p.id)
settled_at id change p now tenant (some q) at fresh =
    ground (arith, at q refl, ==_iff q.id p.id, ==_iff id p.id)

-- Every payment id is found after a call as it was before, but for the one that the call records.
pub record_payment-find :
    (uid : String) (now : Moment) (p : PaymentDetails) (tenant id : String)
    (change : Option Activation) (db : Database)
    → is_some (find_payment p.id db) ≡ false
    → find_payment id (record_payment uid now p tenant change db).1 ≡ (
        if id == p.id
        then some (settle change (inserted_payment now tenant p))
        else find_payment id db)
unfolding record_payment
record_payment-find uid now p tenant id change db fresh =
    let key = λ (q : Payment). q.id in
    let row = inserted_payment now tenant p in
    let stored = (apply_activation uid now tenant change db).billing_payments in
    lookup-update key id (λ q. q.id == p.id) (settle change) (insert_or_ignore key row stored)
      (settle-id change)
    ∙ rw (lookup-insert_or_ignore key id row stored) (
        rw (apply_activation-billing_payments uid now tenant change db) (
          settled_at id change p now tenant (find_payment id db)
            (lookup-key key id db.billing_payments) (fresh_at id p db fresh)))
  where
    fresh_at :
        (id : String) (p : PaymentDetails) (db : Database)
        → is_some (find_payment p.id db) ≡ false
        → is_some (if id == p.id then find_payment id db else none) ≡ false
    fresh_at id p db h = elim (Bool-cases (id == p.id)) [
      | inl same ↦ rw same (rw ((==_iff id p.id).0 same) h)
      | inr other ↦ rw other
    ]

-- A new payment is recorded with the outcome of the activation on the workspace's subscription as
-- it stands, and that row is returned.
pub apply_payment_new :
    (uid : String) (now : Moment) (p : PaymentDetails) (tenant : String)
    (activate : Option Subscription → Option Activation) (db : Database)
    → is_some (find_payment p.id db) ≡ false
    → let change = activate (get_subscription tenant db) in
      let (r, db') = apply_payment uid now p tenant activate db in
      (r ≡ some (settle change (inserted_payment now tenant p)))
      × (find_payment p.id db' ≡ r)
      × (get_subscription tenant db'
          ≡ get_subscription tenant (apply_activation uid now tenant change db))
unfolding apply_payment
apply_payment_new uid now p tenant activate db fresh =
    let change = activate (get_subscription tenant db) in
    let found = record_payment-find uid now p tenant p.id change db fresh ∙ rw (==_refl p.id) in
    rw fresh (
      read_back uid now p tenant change db ∙ found,
      sym (read_back uid now p tenant change db),
      kept_subscription uid now p tenant change db,
    )
