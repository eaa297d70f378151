-- ===== src/Signup.antt =====
-- app/main.py, the routes under /auth: codes by mail, registration, signing in, a new password and
-- the user of a token. A route is one moment `now`; what it draws at random is an argument.
pub mod Registered
pub mod Restored
use omni_flow.Prelude.{
  ℕ, String, Bool, true, false, Option, none, some, ◌==◌, string_eq, ◌||◌, ◌&&◌, not, if◌then◌else◌,
}
use omni_flow.TextOps.{TextOps}
use omni_flow.Passwords.{PasswordCodec}
use omni_flow.Security.{TokenCodec}
use omni_flow.Store.{Moment, User, Tenant, Database}
use omni_flow.Store.Tenants.{create_tenant}
use omni_flow.Store.Users.{
  UserProfile, NewUser, get_user_by_id, get_user_by_email, create_user, authenticate_user,
  set_user_password,
}
use omni_flow.Plans.Trial.{start_trial}
use omni_flow.Verification.{
  CodeError, code_expired, Reply, ok, err, Settings, code_ttl_seconds, resend_seconds, Issued,
  issue_code, consume_code,
}
use omni_flow.Tenancy.{TenantContext, TenancySettings, issue_access_token}

-- The HTTP errors: 400 for an email in use, those of the codes, 401, and 500 for any other exception.
pub data AuthError : Type 0 where
  email_exists invalid_credentials account_gone not_signed_in internal_error : AuthError
  code_refused : CodeError → AuthError

pub data Answer {ℓ} (A : Type ℓ) : Type ℓ where
  accepted : A → Answer A
  rejected : AuthError → Answer A

-- `AuthResponse`
pub record AuthResponse : Type 0 where
  pub token : String
  pub user : UserProfile

-- `UserRegister`: a missing code or company is the empty text.
pub record UserRegister : Type 0 where
  pub email : String
  pub password : String
  pub full_name : String
  pub company : String
  pub role : Option String
  pub code : String

-- What one request draws: the ids of the rows that are made, and the salt of a new hash.
pub record Draws : Type 0 where
  pub tenant_uid : String
  pub user_uid : String
  pub subscription_uid : String
  pub salt : String

-- The environment: settings, and the code from outside the repository.
pub record Deployment : Type 0 where
  pub ops : TextOps
  pub passwords : PasswordCodec
  pub tokens : TokenCodec
  pub hmac : String → String
  pub matches : String → Bool
  pub codes : Settings
  pub tenancy : TenancySettings
  pub code_required : Bool
  pub iterations : ℕ
  pub days_of_trial : ℕ

module _ (site : Deployment) where
  open site use {
    ops, passwords, tokens, hmac, matches, codes, tenancy, code_required, iterations, days_of_trial,
  }

  abbrev pub answer_issued : Reply Issued × Database → Answer Issued × Database
  answer_issued (ok timing, db) = (accepted timing, db)
  answer_issued (err e, db) = (rejected (code_refused e), db)

  -- `drawn` is the new code and `delivered` whether the mail server took it.
  unfoldable pub send_register_code :
      Moment → String → Bool → String → Database → Answer Issued × Database
  send_register_code now drawn delivered email db =
      elim (get_user_by_email ops passwords email db) [
        | some _ ↦ (rejected email_exists, db)
        | none ↦ answer_issued (issue_code ops hmac codes now drawn delivered email "register" db)
      ]

  -- The same reply whether or not the email has an account.
  unfoldable pub send_password_reset_code :
      Moment → String → Bool → String → Database → Answer Issued × Database
  send_password_reset_code now drawn delivered email db =
      elim (get_user_by_email ops passwords email db) [
        | some _ ↦
            answer_issued (issue_code ops hmac codes now drawn delivered email "reset_password" db)
        | none ↦ (
          accepted
              (record { expires_in = code_ttl_seconds codes; resend_in = resend_seconds codes }),
          db,
        )
      ]

  abbrev pub with_token : UserProfile → Option String → Answer AuthResponse
  with_token user none = rejected internal_error
  with_token user (some token) = accepted (record { token = token; user = user })

  -- `{"token": issue_access_token(…), "user": user}`
  unfoldable pub auth_response : Moment → UserProfile → Answer AuthResponse
  auth_response now user =
      with_token user (issue_access_token tokens ops matches tenancy now user.id user.tenant_id 0)

  abbrev pub or_default : Option String → String → String
  or_default none default = default
  or_default (some s) default = if s == "" then default else s

  abbrev pub new_user : UserRegister → NewUser
  new_user payload = record {
    email = payload.email;
    full_name = payload.full_name;
    password = payload.password;
    role = or_default payload.role "Brand Director";
    company = ops.strip payload.company;
    avatar_url = "";
  }

  abbrev pub workspace_name : UserRegister → String
  workspace_name payload =
      if ops.strip payload.company == "" then "Workspace" else ops.strip payload.company

  -- The trial, and the token. There is no free tier.
  abbrev pub welcome :
      Moment
      → Draws
      → Tenant
      → Option (Option UserProfile) × Database
      → Answer AuthResponse × Database
  welcome now draws tenant (none, db) = (rejected email_exists, db)
  welcome now draws tenant (some made, db) =
      let db' = (start_trial days_of_trial draws.subscription_uid now tenant.id db).1 in
      (elim made [ none ↦ rejected internal_error | some user ↦ auth_response now user ], db')

  abbrev pub with_tenant :
      Moment → Draws → UserRegister → Option Tenant × Database → Answer AuthResponse × Database
  with_tenant now draws payload (none, db) = (rejected internal_error, db)
  with_tenant now draws payload (some tenant, db) = welcome now draws tenant (
      create_user ops passwords draws.user_uid now draws.salt iterations tenant.id
        (new_user payload) db)

  -- The code, if one is given or needed.
  unfoldable pub check_code : Moment → UserRegister → Database → Reply (Unit {0}) × Database
  check_code now payload db =
      if not (payload.code == "") || code_required
      then consume_code ops hmac codes now payload.email "register" payload.code db
      else (ok tt, db)

  abbrev pub after_code :
      Moment → Draws → UserRegister → Reply (Unit {0}) × Database → Answer AuthResponse × Database
  after_code now draws payload (err e, db) = (rejected (code_refused e), db)
  after_code now draws payload (ok _, db) =
      with_tenant now draws payload (create_tenant ops draws.tenant_uid (workspace_name payload) db)

  unfoldable pub register_user :
      Moment → Draws → UserRegister → Database → Answer AuthResponse × Database
  unfolding check_code auth_response
  register_user now draws payload db = elim (get_user_by_email ops passwords payload.email db) [
    | some _ ↦ (rejected email_exists, db)
    | none ↦ after_code now draws payload (check_code now payload db)
  ]

  abbrev pub signed : Moment → Option UserProfile × Database → Answer AuthResponse × Database
  signed now (none, db) = (rejected invalid_credentials, db)
  signed now (some user, db) = (auth_response now user, db)

  unfoldable pub login_user :
      Moment → String → String → String → Database → Answer AuthResponse × Database
  unfolding auth_response
  login_user now salt email password db =
      signed now (authenticate_user ops passwords salt iterations email password db)

  abbrev pub read_back : Moment → User → Bool × Database → Answer AuthResponse × Database
  read_back now account (false, db) = (rejected (code_refused code_expired), db)
  read_back now account (true, db) = (
    elim (get_user_by_id account.id (some account.tenant_id) db) [
      | none ↦ rejected internal_error
      | some user ↦ auth_response now user
    ],
    db,
  )

  abbrev pub store_password :
      Moment → String → String → Option User → Database → Answer AuthResponse × Database
  store_password now salt new_password none db = (rejected (code_refused code_expired), db)
  store_password now salt new_password (some account) db =
      read_back now account (
        set_user_password ops passwords salt iterations account.id new_password account.tenant_id
          db)

  abbrev pub after_reset_code :
      Moment
      → String
      → String
      → String
      → Reply (Unit {0}) × Database
      → Answer AuthResponse × Database
  after_reset_code now salt email new_password (err e, db) = (rejected (code_refused e), db)
  after_reset_code now salt email new_password (ok _, db) =
      store_password now salt new_password (get_user_by_email ops passwords email db) db

  unfoldable pub reset_password :
      Moment → String → String → String → String → Database → Answer AuthResponse × Database
  unfolding auth_response
  reset_password now salt email code new_password db =
      after_reset_code now salt email new_password
        (consume_code ops hmac codes now email "reset_password" code db)

  unfoldable pub get_current_user : TenantContext → Database → Answer UserProfile
  get_current_user ctx db =
      if not ctx.authenticated then rejected not_signed_in else elim ctx.user_id [
        | none ↦ rejected not_signed_in
        | some id ↦
            if id == ""
            then rejected not_signed_in
            else elim (get_user_by_id id (some ctx.tenant_id) db) [
              | none ↦ rejected account_gone
              | some user ↦ accepted user
            ]
      ]
