-- ===== src/Signup/Registered.antt =====
-- What a registration that goes through makes.
use omni_flow.Store.Users.Created.{created}
use omni_flow.Prelude.{
  ℕ, ◌≡◌, refl, ap, ◌∙◌, inl, inr, String, false, none, some, [], ◌∷◌, ◌++◌, ◌==◌, string_eq, ◌||◌,
  not, if◌then◌else◌, nat_beq, Bool-cases, is_some,
}
use omni_flow.Passwords.{Splits}
use omni_flow.Sql.{find, lookup}
use omni_flow.Store.{Moment, User, Tenant, Database}
use omni_flow.Store.Subscriptions.{get_subscription, ensure_subscription}
use omni_flow.Store.Codes.{normal}
use omni_flow.Store.Tenants.{has_slug, tenant_row}
use omni_flow.Store.Tenants.Fresh.{create_tenant_lem}
use omni_flow.Store.Users.{UserProfile, profile, get_user_by_email, user_row, authenticate_user}
use omni_flow.Store.Users.Signin.{authenticate_found, created_found}
use omni_flow.Passwords.Checks.{verify-hash}
use omni_flow.Plans.Trial.First.{get-ensure_subscription}
use omni_flow.Plans.Trial.{trial_row, start_trial}
use omni_flow.Verification.{ok}
use omni_flow.Verification.Touched.{TouchesCodes, consume-TouchesCodes}
use omni_flow.Security.{sign_payload}
use omni_flow.Tenancy.{issue_access_token}
use omni_flow.Signup.{
  welcome, accepted, UserRegister, Draws, Deployment, new_user, workspace_name, check_code,
  after_code, auth_response, register_user,
}

-- A workspace that had no subscription has the trial afterwards.
trial_started :
    (days_of_trial : ℕ) (uid : String) (now : Moment) (tenant : String) (db : Database)
    → get_subscription tenant db ≡ none
    → get_subscription tenant (start_trial days_of_trial uid now tenant db).1
      ≡ some (trial_row days_of_trial uid now tenant)
unfolding start_trial
trial_started days_of_trial uid now tenant db missing =
    get-ensure_subscription (trial_row days_of_trial uid now tenant) db missing

module _ (site : Deployment) where
  open site use {
    ops, passwords, tokens, hmac, matches, codes, tenancy, code_required, iterations, days_of_trial,
  }

  -- The row of the user that a registration makes.
  abbrev pub registered : Moment → Draws → UserRegister → User
  registered now draws payload =
      user_row ops passwords draws.user_uid now draws.salt iterations draws.tenant_uid
        (new_user site payload)

  -- The ids that `uuid4` draws are not in use.
  pub record IsFresh (draws : Draws) (db : Database) : Type 0 where
    pub new_tenant : lookup (λ (t : Tenant). t.id) draws.tenant_uid db.tenants ≡ none
    pub new_user_id : find (λ (u : User). u.id == draws.user_uid) db.users ≡ none
    pub new_subscription : get_subscription draws.tenant_uid db ≡ none

  -- The database that a registration leaves, with the slug of the new workspace.
  abbrev pub after_registration : Moment → Draws → UserRegister → String → Database → Database
  after_registration now draws payload slug db =
      (start_trial days_of_trial draws.subscription_uid now draws.tenant_uid (record db {
        tenants =
            db.tenants ++ tenant_row ops draws.tenant_uid (workspace_name site payload) slug ∷ [];
        users = db.users ++ registered now draws payload ∷ [];
      })).1

  code_checked :
      (now : Moment) (payload : UserRegister) (db : Database)
      → TouchesCodes db (check_code site now payload db).1
  unfolding check_code
  code_checked now payload db = elim (Bool-cases (not (payload.code == "") || code_required)) [
    | inl asked ↦
        rw asked (consume-TouchesCodes ops hmac codes now payload.email "register" payload.code db)
    | inr skipped ↦ rw skipped refl
  ]

  account_made :
      (now : Moment) (draws : Draws) (payload : UserRegister) (db : Database)
      → IsFresh draws db
      → get_user_by_email ops passwords payload.email db ≡ none
      → (slug : String) × (after_code site now draws payload (ok tt, db) ≡ (
        auth_response site now (profile (registered now draws payload)),
        after_registration now draws payload slug db,
      ))
        × (is_some (find (has_slug slug) db.tenants) ≡ false)
  unfolding get_user_by_email
  account_made now draws payload db fresh unknown =
      let (slug, made, free) =
        create_tenant_lem ops draws.tenant_uid (workspace_name site payload) db fresh.new_tenant in
      (
        slug,
        rw made (
            ap
              (welcome site now draws
                (tenant_row ops draws.tenant_uid (workspace_name site payload) slug))
              (created ops passwords draws.user_uid now draws.salt iterations draws.tenant_uid
                (new_user site payload)
                (record db {
                  tenants =
                      db.tenants
                      ++ tenant_row ops draws.tenant_uid (workspace_name site payload) slug ∷ [];
                })
                fresh.new_user_id unknown)),
        free,
      )

  pub issued :
      (now : Moment) (user : UserProfile)
      → nat_beq tenancy.ttl_setting 0 ≡ false
      → (token : String) × (auth_response site now user
          ≡ accepted (record { token = token; user = user }))
  unfolding auth_response issue_access_token sign_payload
  issued now user positive = rw positive (_, refl)

  still-IsFresh :
      (draws : Draws) (db db' : Database)
      → TouchesCodes db db'
      → IsFresh draws db
      → IsFresh draws db'
  unfolding get_subscription
  still-IsFresh draws db db' e fresh = record {
    new_tenant = rw (ap (λ d. d.tenants) e) fresh.new_tenant;
    new_user_id = rw (ap (λ d. d.users) e) fresh.new_user_id;
    new_subscription = rw (ap (λ d. d.subscriptions) e) fresh.new_subscription;
  }

  still_unknown :
      (email : String) (db db' : Database)
      → TouchesCodes db db'
      → get_user_by_email ops passwords email db ≡ none
      → get_user_by_email ops passwords email db' ≡ none
  unfolding get_user_by_email
  still_unknown email db db' e unknown = rw (ap (λ d. d.users) e) unknown

  trial_after :
      (now : Moment) (draws : Draws) (payload : UserRegister) (slug : String) (db : Database)
      → get_subscription draws.tenant_uid db ≡ none
      → get_subscription draws.tenant_uid (after_registration now draws payload slug db)
        ≡ some (trial_row days_of_trial draws.subscription_uid now draws.tenant_uid)
  unfolding get_subscription
  trial_after now draws payload slug db missing =
      trial_started days_of_trial draws.subscription_uid now draws.tenant_uid
        (record db {
          tenants =
              db.tenants ++ tenant_row ops draws.tenant_uid (workspace_name site payload) slug ∷ [];
          users = db.users ++ registered now draws payload ∷ [];
        })
        missing

  found_after :
      (now : Moment) (draws : Draws) (payload : UserRegister) (slug : String) (db : Database)
      (email : String)
      → get_user_by_email ops passwords payload.email db ≡ none
      → find (λ (u : User). u.id == draws.user_uid) db.users ≡ none
      → normal ops email ≡ normal ops payload.email
      → get_user_by_email ops passwords email (after_registration now draws payload slug db)
        ≡ some (registered now draws payload)
  unfolding get_user_by_email start_trial ensure_subscription
  found_after now draws payload slug db email unknown fresh same =
      let row = registered now draws payload in
      created_found ops passwords draws.user_uid now draws.salt iterations draws.tenant_uid
        (new_user site payload) db (record db { users = db.users ++ row ∷ [] }) (some (profile row))
        email unknown
        (created ops passwords draws.user_uid now draws.salt iterations draws.tenant_uid
          (new_user site payload) db fresh unknown)
        same

  -- A registration with an email that has no account, and a code that was accepted where one is
  -- needed, goes through: it makes a workspace with a slug that no other had, on the trial, and a
  -- user in it, and answers with a token. The user then signs in, under any spelling of the email,
  -- with the passwords that have the digest of the given one and with no other.
  pub registration_succeeds :
      (now : Moment) (draws : Draws) (payload : UserRegister) (db checked : Database)
      (salt : String) (email password : String)
      → IsFresh draws db
      → get_user_by_email ops passwords payload.email db ≡ none
      → check_code site now payload db ≡ (ok tt, checked)
      → nat_beq tenancy.ttl_setting 0 ≡ false
      → Splits passwords draws.salt iterations payload.password
      → normal ops email ≡ normal ops payload.email
      → let user = registered now draws payload in
        (slug : String) × (token : String) × (register_user site now draws payload db ≡ (
          accepted (record { token = token; user = profile user }),
          after_registration now draws payload slug checked,
        ))
        × (is_some (find (has_slug slug) checked.tenants) ≡ false)
        × (get_subscription draws.tenant_uid (after_registration now draws payload slug checked)
            ≡ some (trial_row days_of_trial draws.subscription_uid now draws.tenant_uid))
        × ((authenticate_user ops passwords salt iterations email password
              (after_registration now draws payload slug checked)).0
            ≡ (if passwords.pbkdf2 password draws.salt iterations
                  == passwords.pbkdf2 payload.password draws.salt iterations
                then some (profile user)
                else none))
  unfolding register_user
  registration_succeeds now draws payload db checked salt email password fresh unknown passed
        positive splits same =
      let touched = rw passed at (code_checked now payload db) in
      let fresh' = still-IsFresh draws db checked touched fresh in
      let unknown' = still_unknown payload.email db checked touched unknown in
      let (slug, made, free) = account_made now draws payload checked fresh' unknown' in
      let (token, response) = issued now (profile (registered now draws payload)) positive in
      (
        slug,
        token,
        rw (unknown, register_user) (rw passed (made ∙ rw response refl)),
        free,
        trial_after now draws payload slug checked fresh'.new_subscription,
        authenticate_found ops passwords salt iterations email password
              (after_registration now draws payload slug checked) (registered now draws payload)
              (found_after now draws payload slug checked email unknown' fresh'.new_user_id same)
            ∙ rw (verify-hash passwords draws.salt iterations payload.password password splits)
                refl,
      )
