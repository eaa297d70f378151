-- ===== src/Samples/People.antt =====
-- A site with one way of hashing, a person who registers, signs in and sets a new password.
use omni_flow.Prelude.{
  ◌+◌, ◌≡◌, refl, ◌⊎◌, String, true, false, none, some, [], ◌∷◌, ◌++◌, ◌==◌, string_eq,
  if◌then◌else◌, is_some,
}
use omni_flow.Passwords.{PasswordCodec, Splits, hash_password, verify_password, needs_rehash}
use omni_flow.Slugs.{scoped_id, slugify}
use omni_flow.Slugs.Scoped.{scoped_id-apart}
use omni_flow.Sql.{upsert, delete, find, lookup}
use omni_flow.Sql.Keys.{Unique}
use omni_flow.Store.{Moment, default_tenant_id, User, Tenant, Database}
use omni_flow.Store.Tenants.{has_slug, tenant_row, create_tenant}
use omni_flow.Store.Tenants.Fresh.{create_tenant_lem}
use omni_flow.Store.Subscriptions.{get_subscription}
use omni_flow.Store.Users.{profile, get_user_by_email, authenticate_user}
use omni_flow.Store.Users.Signin.{signs_in_again}
use omni_flow.Plans.Trial.{trial_row}
use omni_flow.Store.Codes.{get_verification_code, save_verification_code}
use omni_flow.Verification.{
  issue_code, resend_wait, send_code, resend_seconds, code_ttl_seconds, Issued, recently_sent,
  Settings, ok,
}
use omni_flow.Security.{TokenCodec}
use omni_flow.Tenancy.{TenancySettings}
use omni_flow.Signup.{
  Answer, rejected, code_refused, send_password_reset_code, accepted, UserRegister, Draws,
  Deployment, check_code, register_user, reset_password,
}
use omni_flow.Signup.Registered.{IsFresh, registered, after_registration, registration_succeeds}
use omni_flow.Signup.Restored.{IsRefused, IsRestored, consumed, reset_password_cases}
use omni_flow.Samples.World.{plain_text, tally, database, start_of_day}

-- The digest of a password is the password.
abbrev clear : PasswordCodec
clear = record {
  pbkdf2 = λ p s i. p;
  sha256 = λ s. s;
  decimal = tally;
  read_int = λ s. some 3;
  is_ascii = λ s. true;
  split = λ n s. "pbkdf2_sha256" ∷ "111" ∷ "salt" ∷ "secret" ∷ [];
}

abbrev tokens : TokenCodec
tokens = record {
  encode = λ c. "body";
  decode = λ s. none;
  signature = λ s. "sig";
  split_dots = λ s. "body" ∷ "sig" ∷ [];
}

abbrev codes : Settings
codes = record {
  ttl_setting = 600;
  resend_setting = 60;
  attempts_setting = 5;
  production = true;
  mail_configured = true;
}

abbrev tenancy : TenancySettings
tenancy = record {
  allow_tenant_header = false;
  production = true;
  require_auth = true;
  ttl_setting = 3600;
}

abbrev site : Deployment
site = record {
  ops = plain_text;
  passwords = clear;
  tokens = tokens;
  hmac = λ s. s;
  matches = λ s. true;
  codes = codes;
  tenancy = tenancy;
  code_required = false;
  iterations = 3;
  days_of_trial = 14;
}

abbrev draws : Draws
draws = record { tenant_uid = "t-1"; user_uid = "u-1"; subscription_uid = "s-1"; salt = "salt" }

abbrev ann : UserRegister
ann = record {
  email = "ann@b.c";
  password = "secret";
  full_name = "Ann";
  company = "Cafe";
  role = none;
  code = "";
}

ann-IsFresh : IsFresh site draws database
unfolding lookup find get_subscription
ann-IsFresh = record { new_tenant = refl; new_user_id = refl; new_subscription = refl }

ann_unknown : get_user_by_email plain_text clear "ann@b.c" database ≡ none
unfolding get_user_by_email find
ann_unknown = refl

no_code_needed : check_code site start_of_day ann database ≡ (ok tt, database)
unfolding check_code
no_code_needed = refl

clear-Splits : Splits clear "salt" 3 "secret"
clear-Splits = (refl, refl, refl)

registration_succeeds_example :
    let user = registered site start_of_day draws ann in
    let db' = λ (slug : String). after_registration site start_of_day draws ann slug database in
    (slug : String) × (token : String) × (register_user site start_of_day draws ann database
      ≡ (accepted (record { token = token; user = profile user }), db' slug))
    × (is_some (find (has_slug slug) database.tenants) ≡ false)
    × (get_subscription "t-1" (db' slug) ≡ some (trial_row 14 "s-1" start_of_day "t-1"))
    × ((authenticate_user plain_text clear "salt" 3 "ann@b.c" "guess" (db' slug)).0 ≡ (
        if clear.pbkdf2 "guess" "salt" 3 == clear.pbkdf2 "secret" "salt" 3
        then some (profile user)
        else none))
registration_succeeds_example =
    registration_succeeds site start_of_day draws ann database database "salt" "ann@b.c" "guess"
      ann-IsFresh ann_unknown no_code_needed refl clear-Splits refl

abbrev account : User
account = registered site start_of_day draws ann

abbrev with_ann : Database
with_ann = record database { users = account ∷ [] }

ann_signs_in :
    authenticate_user plain_text clear "salt" 3 "ann@b.c" "secret" with_ann
    ≡ (some (profile account), with_ann)
unfolding authenticate_user get_user_by_email verify_password needs_rehash find hash_password
ann_signs_in = refl

signs_in_again_example :
    (authenticate_user plain_text clear "other" 5 "ann@b.c" "secret" with_ann).0
    ≡ some (profile account)
signs_in_again_example =
    signs_in_again plain_text clear "salt" 3 "ann@b.c" "secret" with_ann with_ann (profile account)
      "other" 5 ann_signs_in clear-Splits

ann_alone : Unique (λ (u : User). u.id) with_ann.users
unfolding lookup
ann_alone = (refl, tt)

reset_password_cases_example :
    let checked = consumed site start_of_day "ann@b.c" "123456" with_ann in
    let end = reset_password site start_of_day "salt" "ann@b.c" "123456" "secret" with_ann in
    IsRefused site "ann@b.c" with_ann checked end
    ⊎ IsRestored site "salt" "ann@b.c" "secret" with_ann "guess" "b@b.c" "other" checked end
reset_password_cases_example =
    reset_password_cases site start_of_day "salt" "ann@b.c" "123456" "secret" with_ann "guess"
      "b@b.c" "other" ann_alone refl clear-Splits

-- The slug of the first workspace is taken.
abbrev with_cafe : Database
with_cafe = record database {
  tenants = record { id = "t-0"; name = "Cafe"; slug = some "cafe" } ∷ [];
}

new_id : lookup (λ (t : Tenant). t.id) "t-1" with_cafe.tenants ≡ none
unfolding lookup
new_id = refl

create_tenant_lem_example :
    (slug : String) × (create_tenant plain_text "t-1" "cafe" with_cafe ≡ (
      some (tenant_row plain_text "t-1" "cafe" slug),
      record with_cafe {
        tenants = with_cafe.tenants ++ tenant_row plain_text "t-1" "cafe" slug ∷ [];
      },
    ))
    × (is_some (find (has_slug slug) with_cafe.tenants) ≡ false)
create_tenant_lem_example = create_tenant_lem plain_text "t-1" "cafe" with_cafe new_id

abbrev cafe : String
cafe = "cafe"

cafe_own : (cafe == default_tenant_id) ≡ false
cafe_own = refl

scoped_twice : scoped_id "draft" cafe ≡ scoped_id "cafe:draft" cafe
unfolding scoped_id
scoped_twice = refl

scoped_id-apart_example : cafe ≡ cafe
scoped_id-apart_example =
    scoped_id-apart "draft" "cafe:draft" cafe cafe cafe_own cafe_own refl refl scoped_twice

-- Runs. An id of the shared workspace can be that of another workspace.
shared_id_collides : scoped_id "cafe:draft" "default" ≡ scoped_id "draft" "cafe"
unfolding scoped_id
shared_id_collides = refl

slug_of_two_words : slugify plain_text "  my  cafe! " ≡ "my-cafe"
unfolding slugify
slug_of_two_words = refl

wrong_password : verify_password clear "guess" (hash_password clear "salt" 3 "secret") ≡ false
unfolding verify_password hash_password
wrong_password = refl

abbrev ask : Moment → String → Database → Answer Issued × Database
ask at email db = send_password_reset_code site at "123456" true email db

-- A second request for a code is refused for an email with an account, and for no other.
asked_twice :
    (ask (start_of_day + 5) "ann@b.c" (ask start_of_day "ann@b.c" with_ann).1).0
    ≡ rejected (code_refused (recently_sent 60))
unfolding send_password_reset_code get_user_by_email find issue_code resend_wait
    get_verification_code lookup send_code save_verification_code upsert delete resend_seconds
asked_twice = refl

asked_twice_unknown :
    (ask (start_of_day + 5) "bob@b.c" (ask start_of_day "bob@b.c" with_ann).1).0
    ≡ accepted (record { expires_in = 600; resend_in = 60 })
unfolding send_password_reset_code get_user_by_email find code_ttl_seconds resend_seconds
asked_twice_unknown = refl
