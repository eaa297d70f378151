-- ===== src/Signup/Restored.antt =====
-- What the route for a new password does.
use mathlib.Core.Option
use omni_flow.Prelude.{
  ℕ, ◌≡◌, refl, ap, ◌∙◌, ◌⊎◌, inl, inr, String, Bool, true, false, none, some, ◌==◌, ==_refl,
  string_eq, ◌&&◌, if◌then◌else◌, nat_beq, Option-cases, lt→ltb,
}
use omni_flow.TextOps.{TextOps}
use omni_flow.Passwords.{PasswordCodec, hash_password, Splits}
use omni_flow.Sql.{find, rowcount}
use omni_flow.Sql.Rows.{rowcount-pos, find-update}
use omni_flow.Sql.Keys.{Unique, find_where}
use omni_flow.Sql.Keys.Found.{lookup_of_find}
use omni_flow.Store.{Moment, User, Database}
use omni_flow.Store.Codes.{normal}
use omni_flow.Store.Users.{
  UserProfile, profile, set_hash, get_user_by_id, get_user_by_email, authenticate_user,
  set_user_password,
}
use omni_flow.Store.Users.Signin.{set_password_signs_in}
use omni_flow.Verification.{Reply, ok, err, CodeError, code_expired, consume_code}
use omni_flow.Verification.Touched.{consume-TouchesCodes}
use omni_flow.Signup.{
  Answer, AuthResponse, accepted, rejected, code_refused, Deployment, after_reset_code, read_back,
  store_password, auth_response, reset_password,
}
use omni_flow.Signup.Registered.{issued}

-- The user of an email is written, and read back by its id.
restored :
    (ops : TextOps) (codec : PasswordCodec) (salt : String) (iterations : ℕ) (user : User)
    (new email : String) (db : Database)
    → Unique (λ (u : User). u.id) db.users
    → get_user_by_email ops codec email db ≡ some user
    → let (done, db') = set_user_password ops codec salt iterations user.id new user.tenant_id db in
      (done ≡ true) × (get_user_by_id user.id (some user.tenant_id) db' ≡ some (profile user))
unfolding get_user_by_email set_user_password get_user_by_id
restored ops codec salt iterations user new email db unique found =
    let at = λ (u : User). u.id == user.id && u.tenant_id == user.tenant_id in
    let hash = hash_password codec salt iterations new in
    let by_id =
      lookup_of_find (λ (u : User). u.id) (λ (u : User). ops.sql_lower u.email == normal ops email)
        db.users user unique found in
    let own : find at db.users ≡ some user =
      find_where (λ (u : User). u.id) user.id (λ (u : User). u.tenant_id == user.tenant_id) db.users
        unique
      ∙ rw by_id (rw (==_refl user.tenant_id) refl) in
    (
      lt→ltb 0 (rowcount at db.users) (rowcount-pos at db.users user own),
      rw (find-update at at (set_hash hash) db.users (λ u. refl))
          (rw own (rw (==_refl user.id) (rw (==_refl user.tenant_id) refl))),
    )

module _ (site : Deployment) where
  open site use {ops, passwords, hmac, codes, tenancy, iterations}

  abbrev pub consumed : Moment → String → String → Database → Reply (Unit {0}) × Database
  consumed now email code db = consume_code ops hmac codes now email "reset_password" code db

  -- A code that was refused, or that was accepted for an email without an account: no user changes.
  abbrev pub IsRefused :
      String → Database → Reply (Unit {0}) × Database → Answer AuthResponse × Database → Type 0
  IsRefused email db (reply, checked) (answer, db') =
      (db' ≡ checked)
      × (checked.users ≡ db.users)
      × (((e : CodeError) × (reply ≡ err e) × (answer ≡ rejected (code_refused e)))
          ⊎ ((reply ≡ ok tt)
              × (get_user_by_email ops passwords email db ≡ none)
              × (answer ≡ rejected (code_refused code_expired))))

  -- The account's password is set, and it signs in with the new one; other emails find what they
  -- found, but for an account of the same id.
  abbrev pub IsRestored :
      String
      → String
      → String
      → Database
      → String
      → String
      → String
      → Reply (Unit {0}) × Database
      → Answer AuthResponse × Database
      → Type 0
  IsRestored salt email new db password other salt' (reply, checked) (answer, db') =
      (user : User) × (token : String) × (reply ≡ ok tt)
      × (get_user_by_email ops passwords email db ≡ some user)
      × (answer ≡ accepted (record { token = token; user = profile user }))
      × ((authenticate_user ops passwords salt' iterations email password db').0 ≡ (
          if passwords.pbkdf2 password salt iterations == passwords.pbkdf2 new salt iterations
          then some (profile user)
          else none))
      × (get_user_by_email ops passwords other db'
          ≡ Option.map
              (λ u.
                if u.id == user.id && u.tenant_id == user.tenant_id
                then set_hash (hash_password passwords salt iterations new) u
                else u)
              (get_user_by_email ops passwords other db))

  same_users :
      (email : String) (db db' : Database)
      → db'.users ≡ db.users
      → get_user_by_email ops passwords email db' ≡ get_user_by_email ops passwords email db
  unfolding get_user_by_email
  same_users email db db' e = rw e refl

  read_back_done :
      (now : Moment) (account : User) (set : Bool × Database) (who : UserProfile)
      → set.0 ≡ true
      → get_user_by_id account.id (some account.tenant_id) set.1 ≡ some who
      → read_back site now account set ≡ (auth_response site now who, set.1)
  read_back_done now account (true, db) who done back = rw back refl
  read_back_done now account (false, db) who done back = absurd (cc done)

  -- The branch of an account, with its code accepted.
  account-IsRestored :
      (now : Moment) (salt email new : String) (db checked : Database)
      (password other salt' : String) (user : User)
      → checked.users ≡ db.users
      → Unique (λ (u : User). u.id) db.users
      → nat_beq tenancy.ttl_setting 0 ≡ false
      → Splits passwords salt iterations new
      → get_user_by_email ops passwords email db ≡ some user
      → IsRestored salt email new db password other salt'
          (ok tt, checked)
          (store_password site now salt new (some user) checked)
  account-IsRestored now salt email new db checked password other salt' user same unique positive
        splits found =
      let found' : get_user_by_email ops passwords email checked ≡ some user =
        same_users email db checked same ∙ found in
      let unique' : Unique (λ (u : User). u.id) checked.users = rw same unique in
      let (done, back) =
        restored ops passwords salt iterations user new email checked unique' found' in
      let (signs, others) =
        set_password_signs_in ops passwords salt iterations user new checked salt' iterations email
          password other found' splits in
      let (token, response) = issued site now (profile user) positive in
      let answer =
        read_back_done now user
          (set_user_password ops passwords salt iterations user.id new user.tenant_id checked)
          (profile user) done back
        ∙ ap
            (λ a. (
              a,
              (set_user_password ops passwords salt iterations user.id new user.tenant_id
                  checked).1,
            ))
            response in
      rw answer
        (user, token, refl, found, refl, signs, rw (← same_users other db checked same) others)

  reset_from :
      (now : Moment) (salt email new : String) (db : Database) (password other salt' : String)
      (r : Reply (Unit {0}) × Database)
      → r.1.users ≡ db.users
      → Unique (λ (u : User). u.id) db.users
      → nat_beq tenancy.ttl_setting 0 ≡ false
      → Splits passwords salt iterations new
      → let end = after_reset_code site now salt email new r in
        IsRefused email db r end ⊎ IsRestored salt email new db password other salt' r end
  reset_from now salt email new db password other salt' (err e, checked) same unique positive
        splits =
      inl (refl, same, inl (e, refl, refl))
  reset_from now salt email new db password other salt' (ok _, checked) same unique positive
        splits =
      elim (Option-cases (get_user_by_email ops passwords email db)) [
        | inl unknown ↦ inl (
          rw (same_users email db checked same ∙ unknown) refl,
          same,
          inr (refl, unknown, rw (same_users email db checked same ∙ unknown) refl),
        )
        | inr (user, found) ↦ rw (same_users email db checked same ∙ found) (
            inr (
              account-IsRestored now salt email new db checked password other salt' user same unique
                positive splits found))
      ]

  -- A new password is set only with a code that is accepted and only for the account of its email:
  -- that account then signs in with the new password and no longer with the old one, unless their
  -- digests agree, and is answered with a token. In every other case no user changes.
  pub reset_password_cases :
      (now : Moment) (salt email code new : String) (db : Database) (password other salt' : String)
      → Unique (λ (u : User). u.id) db.users
      → nat_beq tenancy.ttl_setting 0 ≡ false
      → Splits passwords salt iterations new
      → let checked = consumed now email code db in
        let end = reset_password site now salt email code new db in
        IsRefused email db checked end
        ⊎ IsRestored salt email new db password other salt' checked end
  unfolding reset_password
  reset_password_cases now salt email code new db password other salt' unique positive splits =
      reset_from now salt email new db password other salt' (consumed now email code db)
        (ap (λ d. d.users) (consume-TouchesCodes ops hmac codes now email "reset_password" code db))
        unique positive splits
