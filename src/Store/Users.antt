-- ===== src/Store/Users.antt =====
-- db/sqlite_store.py, the users. `now` is the call's `utcnow()`, `uid` its `uuid4()`, and `salt` what
-- `secrets.token_hex` draws for a new hash.
pub mod Created
pub mod Signin
use omni_flow.Prelude.{
  ℕ, String, Bool, true, false, Option, none, some, List, [], ◌∷◌, ◌++◌, ◌==◌, ◌&&◌, ◌||◌,
  string_eq, not, if◌then◌else◌, ltb, leb, map, is_some,
}
use mathlib.Core.Option
use omni_flow.TextOps.{TextOps}
use omni_flow.Passwords.{PasswordCodec, hash_password, verify_password, needs_rehash}
use omni_flow.Sql.{select, find, update, rowcount, lookup, order_by}
use omni_flow.Store.{Moment, User, Database}
use omni_flow.Store.Codes.{normal}

-- A row as the methods return it: `password_hash` is dropped.
pub record UserProfile : Type 0 where
  pub id : String
  pub email : String
  pub full_name : String
  pub role : String
  pub company : String
  pub avatar_url : String
  pub created_at : Moment
  pub tenant_id : String

abbrev pub profile : User → UserProfile
profile u = record {
  id = u.id;
  email = u.email;
  full_name = u.full_name;
  role = u.role;
  company = u.company;
  avatar_url = u.avatar_url;
  created_at = u.created_at;
  tenant_id = u.tenant_id;
}

abbrev pub set_hash : String → User → User
set_hash hash u = record u { password_hash = hash }

-- `AND tenant_id = ?`, if a workspace is given.
abbrev pub tenant_fits : Option String → User → Bool
tenant_fits none u = true
tenant_fits (some tenant) u = u.tenant_id == tenant

unfoldable pub get_user_by_id : String → Option String → Database → Option UserProfile
get_user_by_id id tenant db =
    Option.map profile (find (λ (u : User). u.id == id && tenant_fits tenant u) db.users)

unfoldable pub list_users : String → Database → List UserProfile
unfolding order_by
list_users tenant db = map profile (
    order_by (λ (u v : User). leb u.created_at v.created_at)
      (select (λ (u : User). u.tenant_id == tenant) db.users))

-- The arguments of `create_user`.
pub record NewUser : Type 0 where
  pub email : String
  pub full_name : String
  pub password : String
  pub role : String
  pub company : String
  pub avatar_url : String

module _ (ops : TextOps) (codec : PasswordCodec) where
  unfoldable pub get_user_by_email : String → Database → Option User
  get_user_by_email email db =
      find (λ (u : User). ops.sql_lower u.email == normal ops email) db.users

  abbrev pub user_row : String → Moment → String → ℕ → String → NewUser → User
  user_row uid now salt iterations tenant new = record {
    id = uid;
    email = normal ops new.email;
    full_name = ops.strip new.full_name;
    password_hash = hash_password codec salt iterations new.password;
    role = new.role;
    company = new.company;
    avatar_url = new.avatar_url;
    created_at = now;
    tenant_id = tenant;
  }

  -- The PRIMARY KEY and the UNIQUE constraint of the email.
  abbrev pub is_taken : User → User → Bool
  is_taken row u = u.id == row.id || u.email == row.email

  -- `none` for the IntegrityError; else what is read back.
  unfoldable pub create_user :
      String
      → Moment
      → String
      → ℕ
      → String
      → NewUser
      → Database
      → Option (Option UserProfile) × Database
  unfolding get_user_by_id
  create_user uid now salt iterations tenant new db =
      let row = user_row uid now salt iterations tenant new in
      let db' = record db { users = db.users ++ row ∷ [] } in
      if is_some (find (is_taken row) db.users)
      then (none, db)
      else (some (get_user_by_id uid none db'), db')

  -- An UPDATE of the hash of one user.
  abbrev pub store_hash : (User → Bool) → String → Database → Database
  store_hash at hash db = record db { users = update at (set_hash hash) db.users }

  unfoldable pub authenticate_user :
      String → ℕ → String → String → Database → Option UserProfile × Database
  unfolding get_user_by_email
  authenticate_user salt setting email password db = elim (get_user_by_email email db) [
    | none ↦ (none, db)
    | some user ↦ if not (verify_password codec password user.password_hash) then (none, db) else (
      some (profile user),
      if needs_rehash codec setting user.password_hash
          then store_hash (λ (u : User). u.id == user.id)
              (hash_password codec salt setting password) db
          else db,
    )
  ]

  unfoldable pub set_user_password :
      String → ℕ → String → String → String → Database → Bool × Database
  set_user_password salt setting id password tenant db =
      let at = λ (u : User). u.id == id && u.tenant_id == tenant in
      (ltb 0 (rowcount at db.users), store_hash at (hash_password codec salt setting password) db)
