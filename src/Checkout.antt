-- ===== src/Checkout.antt =====
-- app/routers/webhook.py, app/routers/billing.py and `parse_webhook` of app/payments.py: how a checkout
-- session of Stripe reaches the program, and requests for a plan without Stripe. The `stripe` package,
-- JSON and the session ids that its regular expression accepts are parameters; `now` is the moment of
-- a request.
pub mod Deliveries
pub mod Upgrades
pub mod Signed
use omni_flow.Prelude.{
  ℕ, ◌+◌, String, Bool, true, false, Option, none, some, List, [], ◌∷◌, ◌==◌, string_eq, ◌&&◌, ◌||◌,
  not, if◌then◌else◌, ltb,
}
use omni_flow.Json.{is_text}
use omni_flow.TextOps.{TextOps}
use omni_flow.Floats.{Floats}
use omni_flow.Sql.{find}
use omni_flow.Store.{Moment, days, UpgradeRequest, Database}
use omni_flow.Store.Subscriptions.{list_upgrade_requests, save_upgrade_request}
use omni_flow.Plans.{PlanId, Cycle, plan_key, cycle_key, has_no_end_date}
use omni_flow.Plans.Trial.{get_or_create_subscription}
use omni_flow.Plans.Summary.{Summary, subscription_summary}
use omni_flow.Payments.{CheckoutSession, Outcome, fulfill_checkout_session}

-- An event as it is read: `session` is its `data.object`, with `null` for what is missing.
pub record StripeEvent : Type 0 where
  pub type : String
  pub session : CheckoutSession

-- What `json.loads` makes of a payload: not JSON, JSON that is no object with a text as `type`, or
-- an event.
pub data Payload : Type 0 where
  not_json not_an_event : Payload
  event : StripeEvent → Payload

-- `verify_header` is `WebhookSignature.verify_header`, with the moment that the tolerance of 300
-- seconds is measured from; `size` is the length of a payload in bytes.
pub record StripeLibrary : Type 0 where
  pub verify_header : Moment → String → String → String → Bool
  pub loads : String → Payload
  pub size : String → ℕ
  pub is_session_id : String → Bool

pub data Parsed : Type 0 where
  unavailable invalid_webhook : Parsed
  parsed : StripeEvent → Parsed

-- The results `fulfil`, `failed` and `ignored` of an event.
pub data Handled : Type 0 where
  fulfilled : Outcome → Handled
  payment_failed unread : Handled

pub data StripeAnswer : Type 0 where
  payload_too_large not_configured invalid_signature : StripeAnswer
  received : (type : String) → Handled → StripeAnswer

abbrev pub max_payload_bytes : ℕ
max_payload_bytes = 524_288

abbrev pub is_fulfil_event : String → Bool
is_fulfil_event type =
    type == "checkout.session.completed" || type == "checkout.session.async_payment_succeeded"

-- `client.v1.checkout.sessions.retrieve`: a session, a 404, or any other failure.
pub data Retrieved : Type 0 where
  retrieved : CheckoutSession → Retrieved
  no_such_session provider_failed : Retrieved

pub record SessionStatus : Type 0 where
  pub paid : Bool
  pub result : Outcome
  pub subscription : Summary

pub data StatusAnswer : Type 0 where
  status : SessionStatus → StatusAnswer
  session_not_found payments_not_configured payment_provider_error internal_error : StatusAnswer

module _ (stripe : StripeLibrary) where
  open stripe use {verify_header, loads, size, is_session_id}

  abbrev pub read_payload : Payload → Parsed
  read_payload (event e) = parsed e
  read_payload not_json = invalid_webhook
  read_payload not_an_event = invalid_webhook

  -- A secret that is not set, and a header that is missing, are the empty text.
  unfoldable pub parse_webhook : String → Moment → String → String → Parsed
  parse_webhook secret now payload signature =
      if secret == ""
      then unavailable
      else if signature == ""
      then invalid_webhook
      else if not (verify_header now payload signature secret)
      then invalid_webhook
      else read_payload (loads payload)

  module _ (fl : Floats) (ops : TextOps) (days_of_trial : ℕ) (uid : ℕ → String) (now : Moment) where
    abbrev pub as_handled : Outcome × Database → Handled × Database
    as_handled (outcome, db) = (fulfilled outcome, db)

    unfoldable pub handle_event : StripeEvent → Database → Handled × Database
    handle_event e db =
        if is_fulfil_event e.type
        then as_handled (fulfill_checkout_session fl ops days_of_trial uid now e.session db)
        else if e.type == "checkout.session.async_payment_failed"
        then (payment_failed, db)
        else (unread, db)

    abbrev pub as_received : String → Handled × Database → StripeAnswer × Database
    as_received type (handled, db) = (received type handled, db)

    abbrev pub after_parse : Parsed → Database → StripeAnswer × Database
    after_parse unavailable db = (not_configured, db)
    after_parse invalid_webhook db = (invalid_signature, db)
    after_parse (parsed e) db = as_received e.type (handle_event e db)

    unfoldable pub stripe_webhook : String → String → String → Database → StripeAnswer × Database
    unfolding parse_webhook handle_event
    stripe_webhook secret payload signature db =
        if ltb max_payload_bytes (size payload)
        then (payload_too_large, db)
        else after_parse (parse_webhook secret now payload signature) db

    abbrev pub with_summary :
        CheckoutSession → Outcome → Option Summary × Database → StatusAnswer × Database
    with_summary session result (none, db) = (internal_error, db)
    with_summary session result (some summary, db) = (
      status (record {
        paid = is_text session.payment_status "paid";
        result = result;
        subscription = summary;
      }),
      db,
    )

    -- `uid 2` is for the summary's call of `get_or_create_subscription`.
    abbrev pub applied : String → CheckoutSession → Outcome × Database → StatusAnswer × Database
    applied tenant session (outcome, db) =
        with_summary session outcome (subscription_summary ops days_of_trial (uid 2) now tenant db)

    abbrev pub check_retrieved : String → Retrieved → Database → StatusAnswer × Database
    check_retrieved tenant no_such_session db = (session_not_found, db)
    check_retrieved tenant provider_failed db = (payment_provider_error, db)
    check_retrieved tenant (retrieved session) db =
        if not (is_text session.workspace_id tenant)
        then (session_not_found, db)
        else applied tenant session
            (fulfill_checkout_session fl ops days_of_trial uid now session db)

    unfoldable pub checkout_session_status :
        Bool → (String → Retrieved) → String → String → Database → StatusAnswer × Database
    checkout_session_status configured retrieve tenant id db =
        if not (is_session_id id)
        then (session_not_found, db)
        else if not configured
        then (payments_not_configured, db)
        else check_retrieved tenant (retrieve id) db

-- What a new session is asked of Stripe for.
pub data SessionRequest : Type 0 where
  unconfigured not_purchasable : SessionRequest
  open_session : (tenant : String) → PlanId → Cycle → SessionRequest

-- The checks of the route `create_checkout_session`, up to the call of Stripe.
unfoldable pub request_session :
    ℕ → String → Moment → Bool → String → PlanId → Cycle → Database → SessionRequest × Database
request_session days_of_trial uid now configured tenant plan cycle db =
    if not configured
    then (unconfigured, db)
    else let (subscription, db') = get_or_create_subscription days_of_trial uid now tenant db in
      (
        (if has_no_end_date subscription then not_purchasable else open_session tenant plan cycle),
        db',
      )

-- `_request_view`, with the texts of names and prices left out.
pub record UpgradeAnswer : Type 0 where
  pub id : String
  pub plan : String
  pub billing_cycle : String
  pub created_at : Moment
  pub duplicate : Bool

abbrev pub duplicate_window : ℕ
duplicate_window = days 1

abbrev pub upgrade_answer : Bool → UpgradeRequest → UpgradeAnswer
upgrade_answer duplicate r = record {
  id = r.id;
  plan = r.plan;
  billing_cycle = r.billing_cycle;
  created_at = r.created_at;
  duplicate = duplicate;
}

-- `same and created and now - created < DUPLICATE_WINDOW`
abbrev pub is_recent : Moment → PlanId → Cycle → UpgradeRequest → Bool
is_recent now plan cycle r =
    r.plan == plan_key plan
    && r.billing_cycle == cycle_key cycle
    && ltb now (r.created_at + duplicate_window)

-- The first of them that the loop meets.
unfoldable pub recent_request :
    Moment → PlanId → Cycle → List UpgradeRequest → Option UpgradeRequest
recent_request now plan cycle requests = find (is_recent now plan cycle) requests

-- What is put together for the message to the operator reads the subscription, and makes it if there
-- is none.
abbrev pub with_notice :
    UpgradeRequest → Option Summary × Database → Option UpgradeAnswer × Database
with_notice r (none, db) = (none, db)
with_notice r (some summary, db) = (some (upgrade_answer false r), db)

module _ (ops : TextOps) (days_of_trial : ℕ) where
  -- `notifies`: `lead_webhook_url()` is set.
  abbrev pub as_new :
      Bool → String → Moment → String → UpgradeRequest × Database → Option UpgradeAnswer × Database
  as_new notifies uid now tenant (r, db) =
      if notifies
      then with_notice r (subscription_summary ops days_of_trial uid now tenant db)
      else (some (upgrade_answer false r), db)

  -- The message to the operator is not sent here; `none` is the exception of the summary. A user that
  -- is not known is `none`. `uid 0` is for the request and `uid 1` for a subscription.
  unfoldable pub request_upgrade :
      Bool
      → (ℕ → String)
      → Moment
      → String
      → Option String
      → PlanId
      → Cycle
      → Database
      → Option UpgradeAnswer × Database
  unfolding recent_request
  request_upgrade notifies uid now tenant user plan cycle db =
      elim (recent_request now plan cycle (list_upgrade_requests tenant (some "pending") db)) [
        | some r ↦ (some (upgrade_answer true r), db)
        | none ↦
            as_new notifies (uid 1) now tenant
              (save_upgrade_request (uid 0) now tenant user (plan_key plan) (cycle_key cycle) "" db)
      ]
