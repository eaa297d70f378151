-- ===== src/Lib.antt =====
-- OmniFlow: a multi-tenant service that writes, schedules and publishes social-media posts, with
-- prepaid plans. This library models the parts that decide about money, access and publishing.
--
-- The program's parts, and the files that model them:
--   * db/sqlite_store.py, the store. Store.antt has the row types and the Database; the child modules
--     have the methods: Store/Tenants, Store/Subscriptions (with upgrade requests), Store/Metering
--     (AI runs), Store/Billing (apply_payment), Store/Codes (one-time codes), Store/Tasks (tasks and
--     the drafts they use), Store/Drafts, Store/Accounts (connected accounts), Store/Comments (page
--     comments), Store/Chat (conversations and messages), Store/Agency (agency applications),
--     Store/Users and Store/Campaigns.
--     Each SQL statement is an operation of Sql.antt on a list of rows in the order of insertion; the
--     modules below Sql have their laws.
--   * app/plans.py: Plans.antt, with Plans/Trial for a workspace's first subscription,
--     Plans/Channels for what counts as a channel and Plans/Summary for what is shown of a plan.
--   * app/dependencies/limits.py: Limits.antt; `ai_run` is the `with gate.ai_run()` block.
--   * app/services.py: Services.antt, the credentials that a post is published with.
--   * app/payments.py: Payments.antt, `fulfill_checkout_session`; `activate` is its local function.
--   * app/routers/webhook.py, app/routers/billing.py: Checkout.antt, how sessions and requests for a
--     plan arrive; scripts/set_plan.py: SetPlan.antt.
--   * app/verification.py: Verification.antt, `issue_code` and `consume_code`.
--   * app/security.py: Security.antt, signed tokens; app/tenancy.py: Tenancy.antt, which workspace a
--     request acts for.
--   * models/schemas.py: Schemas.antt.
--   * db/passwords.py: Passwords.antt; db/base.py: Slugs.antt (slugify, scoped_id).
--   * app/main.py: Signup.antt, the routes under /auth; Publishing.antt, `/publish/schedule`;
--     FacebookPages.antt, `_facebook_credentials`.
--   * app/routers/comments.py: PageWebhook.antt, what Meta reports about pages, with
--     PageWebhook/Replies for replies. Json/Doc.antt is a JSON document as it is read.
--   * app/routers/meta_oauth.py: MetaOauth.antt, the callback that connects pages.
--   * agents/planner.py, and `_resolve_campaign` of app/main.py: Campaigns.antt.
--   * agents/publisher.py: Publisher.antt, `create_tasks` and `publish`, and Publisher/Adapters.
--   * app/scheduler.py: Scheduler.antt, `run_task`, `recover_stuck_tasks` and `poll_once`.
-- The routes call the components, and these the store: the scheduler claims a row of Store/Tasks,
-- calls the publisher with the credentials of Services and saves what comes back; a registration uses
-- up a code, makes a workspace, a user and a trial; plans are read and written through
-- Store/Subscriptions, by payments, by the operator and by the gate that limits a request.
--
-- How the code is read:
--   * State is passed explicitly: an operation takes the Database and returns its result with the new
--     one. A method that is one transaction in the source is one function here, so an interleaving of
--     callers is a list of calls (Store/Metering/Calls, Scheduler/Exclusion).
--   * A moment is a natural number of microseconds. What `utcnow()` and `uuid4()` give in a call is an
--     argument, one moment per call; the settings read from the environment are arguments too.
--   * An exception is a value: `none`, a constructor of CodeError, or `raised` with the text that
--     `describe_exception` makes of it.
--   * A payload that is stored as JSON is stored as the value, since it is read back as it was
--     written.
--   * From outside the repository come, as parameters: `str.lower`, `str.strip`, `str.split` and `str`
--     (TextOps, with the laws that are used), float division and `timedelta * float` (Floats, with the one law
--     that a smaller rate divided by a larger one scales no time up), the HMAC, base64 and
--     JSON of tokens (TokenCodec), PBKDF2 and SHA-256 (PasswordCodec), HMAC, JSON and dates of the
--     webhook (WebOps), the `stripe` package (StripeLibrary), the regular expression of tenant ids, the
--     mail server's answer, Meta's answers (Exchange) and the platform clients (Gateway).
--   * Every loop that is modelled runs over a list, but the search for a free slug in create_tenant:
--     its fuel is two more than the number of workspaces, since each try that fails is the slug of
--     another workspace (Store/Tenants/Fresh).
--
-- Not modelled: the other HTTP routes and the dashboard, the texts and status codes of answers, the
-- PostgreSQL store, the language-model clients, the analytics, the budgets of campaigns, the Graph API and Stripe clients, the files and the mail, redaction, and the event loop with its
-- Redis lock, whose answer `poll_once` takes as a flag.
pub mod Prelude
pub mod Sql
pub mod Schemas
pub mod Passwords
pub mod Store
pub mod Floats
pub mod Json
pub mod TextOps
pub mod Slugs
pub mod Plans
pub mod Payments
pub mod Verification
pub mod Publisher
pub mod Scheduler
pub mod Limits
pub mod Services
pub mod Security
pub mod Tenancy
pub mod SetPlan
pub mod Signup
pub mod Campaigns
pub mod Checkout
pub mod FacebookPages
pub mod MetaOauth
pub mod PageWebhook
pub mod Publishing
mod Samples
