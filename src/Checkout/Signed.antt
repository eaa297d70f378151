-- ===== src/Checkout/Signed.antt =====
-- What a request to the webhook of Stripe can change.
use omni_flow.Prelude.{
  ℕ, ◌≡◌, refl, ap, ◌∙◌, ◌⊎◌, inl, inr, arith, String, true, false, ◌==◌, string_eq, ltb,
  Bool-cases, Option-cases,
}
use omni_flow.Json.{is_text}
use omni_flow.TextOps.{TextOps}
use omni_flow.Floats.{Floats}
use omni_flow.Store.{Moment, Database}
use omni_flow.Payments.{CheckoutSession, Outcome, read_order, fulfill_checkout_session}
use omni_flow.Checkout.{
  StripeEvent, StripeLibrary, Payload, not_json, not_an_event, event, read_payload, Parsed,
  unavailable, invalid_webhook, parsed, Handled, max_payload_bytes, as_received, is_fulfil_event,
  as_handled, handle_event, parse_webhook, after_parse, stripe_webhook,
}

module _ (stripe : StripeLibrary) (fl : Floats) (ops : TextOps) (days_of_trial : ℕ)
    (uid : ℕ → String) (now : Moment) where
  open stripe use {verify_header, loads}

  -- The session of the payload is fulfilled: the payload has a signature by the secret, which is
  -- set, and is an event of a paid session.
  abbrev pub IsFulfilled : String → String → String → Database → Database → Type 0
  IsFulfilled secret payload signature db db' =
      (e : StripeEvent) × ((secret == "") ≡ false)
      × (verify_header now payload signature secret ≡ true)
      × (loads payload ≡ event e)
      × (is_fulfil_event e.type ≡ true)
      × (is_text e.session.payment_status "paid" ≡ true)
      × (db' ≡ (fulfill_checkout_session fl ops days_of_trial uid now e.session db).1)

  unpaid_kept :
      (session : CheckoutSession) (db : Database)
      → is_text session.payment_status "paid" ≡ false
      → (fulfill_checkout_session fl ops days_of_trial uid now session db).1 ≡ db
  unfolding fulfill_checkout_session
  unpaid_kept session db unpaid = elim (Option-cases (read_order session)) [
    | inl unread ↦ rw (unread, fulfill_checkout_session) refl
    | inr (order, read) ↦ rw (read, fulfill_checkout_session) (rw unpaid refl)
  ]

  handled-db : (r : Outcome × Database) → (as_handled stripe fl ops days_of_trial uid now r).1 ≡ r.1
  handled-db (outcome, db) = refl

  handle_event_cases :
      (e : StripeEvent) (db : Database)
      → let db' = (handle_event stripe fl ops days_of_trial uid now e db).1 in
        (db' ≡ db)
        ⊎ ((is_fulfil_event e.type ≡ true)
            × (is_text e.session.payment_status "paid" ≡ true)
            × (db' ≡ (fulfill_checkout_session fl ops days_of_trial uid now e.session db).1))
  unfolding handle_event
  handle_event_cases e db = elim (Bool-cases (is_fulfil_event e.type)) [
    | inr other ↦ elim (Bool-cases (e.type == "checkout.session.async_payment_failed")) [
      | inl failed ↦ inl (rw other (rw failed refl))
      | inr unread ↦ inl (rw other (rw unread refl))
    ]
    | inl due ↦
        let done =
          handled-db (fulfill_checkout_session fl ops days_of_trial uid now e.session db) in
        elim (Bool-cases (is_text e.session.payment_status "paid")) [
          | inl paid ↦ inr (due, paid, rw due done)
          | inr unpaid ↦ inl (rw due (done ∙ unpaid_kept e.session db unpaid))
        ]
  ]

  payload_read : (p : Payload) (e : StripeEvent) → read_payload stripe p ≡ parsed e → p ≡ event e
  payload_read not_json e h = cc h
  payload_read not_an_event e h = cc h
  payload_read (event f) e h = let same : f ≡ e = cc h in ap event same

  as_received-db :
      (type : String) (r : Handled × Database)
      → (as_received stripe fl ops days_of_trial uid now type r).1 ≡ r.1
  as_received-db type (handled, db) = refl

  -- The answers of `parse_webhook`, where an event is only given with a signature that fits.
  parsed_signed :
      (secret payload signature : String) (e : StripeEvent)
      → parse_webhook stripe secret now payload signature ≡ parsed e
      → ((secret == "") ≡ false)
        × (verify_header now payload signature secret ≡ true)
        × (loads payload ≡ event e)
  unfolding parse_webhook
  parsed_signed secret payload signature e read =
      ground (arith, read, payload_read (loads payload) e)

  after_parse_cases :
      (secret payload signature : String) (db : Database) (p : Parsed)
      → parse_webhook stripe secret now payload signature ≡ p
      → let db' = (after_parse stripe fl ops days_of_trial uid now p db).1 in
        (db' ≡ db) ⊎ IsFulfilled secret payload signature db db'
  after_parse_cases secret payload signature db unavailable read = inl refl
  after_parse_cases secret payload signature db invalid_webhook read = inl refl
  after_parse_cases secret payload signature db (parsed e) read =
      let same = as_received-db e.type (handle_event stripe fl ops days_of_trial uid now e db) in
      let (set, signed, loaded) = parsed_signed secret payload signature e read in
      elim (handle_event_cases e db) [
        | inl kept ↦ inl (same ∙ kept)
        | inr (due, paid, done) ↦ inr (e, set, signed, loaded, due, paid, same ∙ done)
      ]

  -- A request to the webhook changes nothing, unless its payload is signed with the secret, which is
  -- set, and holds an event of a paid session: then that session is fulfilled.
  pub stripe_webhook_cases :
      (secret payload signature : String) (db : Database)
      → let db' =
          (stripe_webhook stripe fl ops days_of_trial uid now secret payload signature db).1 in
        (db' ≡ db) ⊎ IsFulfilled secret payload signature db db'
  unfolding stripe_webhook
  stripe_webhook_cases secret payload signature db =
      elim (Bool-cases (ltb max_payload_bytes (stripe.size payload))) [
        | inl large ↦ inl (rw (large, stripe_webhook) refl)
        | inr fits ↦
            rw (fits, stripe_webhook)
              (after_parse_cases secret payload signature db
                (parse_webhook stripe secret now payload signature) refl)
      ]
