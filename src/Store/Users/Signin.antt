-- ===== src/Store/Users/Signin.antt =====
-- Which passwords sign a user in, after an account is made, a password is set or a hash is renewed.
use omni_flow.Passwords.Checks.{verify-hash}
use mathlib.Core.Option
use omni_flow.Prelude.{
  ℕ, ◌≡◌, refl, sym, ap, ◌∙◌, ◌≢◌, ◌⊎◌, inl, inr, String, Bool, true, Option, none, some, [], ◌∷◌,
  ◌++◌, ◌==◌, ◌&&◌, ==_iff, ==_refl, string_eq, if◌then◌else◌, Bool-cases, Option-cases, is_some,
}
use omni_flow.TextOps.{TextOps}
use omni_flow.Passwords.{PasswordCodec, hash_password, verify_password, needs_rehash, Splits}
use omni_flow.Sql.{find}
use omni_flow.Sql.Rows.{find-append, find-update}
use omni_flow.Store.{Moment, User, Database}
use omni_flow.Store.Codes.{normal}
use omni_flow.Store.Users.{
  UserProfile, profile, set_hash, NewUser, get_user_by_email, user_row, is_taken, create_user,
  store_hash, authenticate_user, set_user_password,
}

module _ (ops : TextOps) (codec : PasswordCodec) where
  -- Signing in as the user that the email finds takes a password that its hash accepts.
  pub authenticate_found :
      (salt : String) (setting : ℕ) (email password : String) (db : Database) (user : User)
      → get_user_by_email ops codec email db ≡ some user
      → (authenticate_user ops codec salt setting email password db).0
        ≡ (if verify_password codec password user.password_hash then some (profile user) else none)
  unfolding authenticate_user
  authenticate_found salt setting email password db user found =
      rw (found, authenticate_user)
        (elim (Bool-cases (verify_password codec password user.password_hash)) [
          | inl good ↦ rw good refl
          | inr bad ↦ rw bad refl
        ])

  pub created_users :
      (uid : String) (now : Moment) (salt : String) (iterations : ℕ) (tenant : String)
      (new : NewUser) (db db' : Database) (made : Option UserProfile)
      → create_user ops codec uid now salt iterations tenant new db ≡ (some made, db')
      → db' ≡ record db {
        users = db.users ++ user_row ops codec uid now salt iterations tenant new ∷ [];
      }
  unfolding create_user
  created_users uid now salt iterations tenant new db db' made done =
      elim (Bool-cases (
        is_some (
          find (is_taken ops codec (user_row ops codec uid now salt iterations tenant new))
            db.users))) [
              | inl taken ↦ let e = ap (λ r. r.0) done in cc (rw taken at e)
              | inr free ↦ let e = ap (λ r. r.1) done in sym (rw free at e)
            ]

  -- A user whose email was not known before is found by it, in any spelling.
  pub created_found :
      (uid : String) (now : Moment) (salt : String) (iterations : ℕ) (tenant : String)
      (new : NewUser) (db db' : Database) (made : Option UserProfile) (email : String)
      → get_user_by_email ops codec new.email db ≡ none
      → create_user ops codec uid now salt iterations tenant new db ≡ (some made, db')
      → normal ops email ≡ normal ops new.email
      → get_user_by_email ops codec email db'
        ≡ some (user_row ops codec uid now salt iterations tenant new)
  unfolding get_user_by_email find
  created_found uid now salt iterations tenant new db db' made email unknown done same =
      let row = user_row ops codec uid now salt iterations tenant new in
      rw (created_users uid now salt iterations tenant new db db' made done) (
        rw same (
          find-append (λ (u : User). ops.sql_lower u.email == normal ops new.email) db.users
            (row ∷ [])
          ∙ rw unknown rw
              ((==_iff (ops.sql_lower row.email) row.email).1
                (ops.sql_lower-lower (ops.strip new.email)))
              refl))

  -- After an account was made for an email that was not known, it signs in, under any spelling of the
  -- email, with the passwords that have the digest of the given one, and with no other.
  pub created_user_signs_in :
      (uid : String) (now : Moment) (salt : String) (iterations : ℕ) (tenant : String)
      (new : NewUser) (db db' : Database) (made : Option UserProfile) (salt' : String) (setting : ℕ)
      (email password : String)
      → get_user_by_email ops codec new.email db ≡ none
      → create_user ops codec uid now salt iterations tenant new db ≡ (some made, db')
      → Splits codec salt iterations new.password
      → normal ops email ≡ normal ops new.email
      → (authenticate_user ops codec salt' setting email password db').0 ≡ (
          if codec.pbkdf2 password salt iterations == codec.pbkdf2 new.password salt iterations
          then some (profile (user_row ops codec uid now salt iterations tenant new))
          else none)
  created_user_signs_in uid now salt iterations tenant new db db' made salt' setting email password
        unknown done splits same =
      authenticate_found salt' setting email password db'
        (user_row ops codec uid now salt iterations tenant new)
        (created_found uid now salt iterations tenant new db db' made email unknown done same)
      ∙ rw (verify-hash codec salt iterations new.password password splits) refl

  -- A hash that is written does not change which user an email finds.
  pub found-store_hash :
      (at : User → Bool) (hash email : String) (db : Database)
      → get_user_by_email ops codec email (store_hash ops codec at hash db)
        ≡ Option.map
            (λ u. if at u then set_hash hash u else u)
            (get_user_by_email ops codec email db)
  unfolding get_user_by_email
  found-store_hash at hash email db =
      find-update (λ (u : User). ops.sql_lower u.email == normal ops email) at (set_hash hash)
        db.users (λ u. refl)

  -- After a user's password was set, it signs in with the passwords that have the digest of the new
  -- one and with no other, so that the old one is gone; and every other email finds what it found,
  -- unless it finds that same id.
  pub set_password_signs_in :
      (salt : String) (iterations : ℕ) (user : User) (new : String) (db : Database) (salt' : String)
      (setting : ℕ) (email password other : String)
      → get_user_by_email ops codec email db ≡ some user
      → Splits codec salt iterations new
      → let db' = (set_user_password ops codec salt iterations user.id new user.tenant_id db).1 in
        ((authenticate_user ops codec salt' setting email password db').0 ≡ (
          if codec.pbkdf2 password salt iterations == codec.pbkdf2 new salt iterations
          then some (profile user)
          else none))
        × (get_user_by_email ops codec other db'
            ≡ Option.map
                (λ u.
                  if u.id == user.id && u.tenant_id == user.tenant_id
                  then set_hash (hash_password codec salt iterations new) u
                  else u)
                (get_user_by_email ops codec other db))
  unfolding set_user_password
  set_password_signs_in salt iterations user new db salt' setting email password other found
        splits =
      let at = λ (u : User). u.id == user.id && u.tenant_id == user.tenant_id in
      let hash = hash_password codec salt iterations new in
      (
        authenticate_found salt' setting email password (store_hash ops codec at hash db)
              (set_hash hash user)
              (found-store_hash at hash email db
                ∙ rw found (rw (==_refl user.id) (rw (==_refl user.tenant_id) refl)))
            ∙ rw (verify-hash codec salt iterations new password splits) refl,
        found-store_hash at hash other db,
      )

  unknown_refused :
      (salt : String) (setting : ℕ) (email password : String) (db db' : Database)
      (who : UserProfile)
      → get_user_by_email ops codec email db ≡ none
      → authenticate_user ops codec salt setting email password db ≢ (some who, db')
  unfolding authenticate_user
  unknown_refused salt setting email password db db' who unknown done =
      cc (ap (λ r. r.0) (rw (unknown, authenticate_user) at done))

  -- A sign-in that succeeds, for the user that the email finds.
  signed_in :
      (salt : String) (setting : ℕ) (email password : String) (db db' : Database)
      (who : UserProfile) (user : User)
      → get_user_by_email ops codec email db ≡ some user
      → authenticate_user ops codec salt setting email password db ≡ (some who, db')
      → (verify_password codec password user.password_hash ≡ true)
        × (profile user ≡ who)
        × ((db ≡ db')
            ⊎ (store_hash ops codec
                  (λ u. u.id == user.id)
                  (hash_password codec salt setting password)
                  db
                ≡ db'))
  unfolding authenticate_user
  signed_in salt setting email password db db' who user found done =
      elim (Bool-cases (verify_password codec password user.password_hash)) [
        | inl good ↦
            let e = rw (found, authenticate_user) at done in
            let e' = rw good at e in
            elim (Bool-cases (needs_rehash codec setting user.password_hash)) [
              | inl old ↦
                  let f = rw old at e' in (good, cc (ap (λ r. r.0) f), inr (ap (λ r. r.1) f))
              | inr new ↦
                  let f = rw new at e' in (good, cc (ap (λ r. r.0) f), inl (ap (λ r. r.1) f))
            ]
        | inr bad ↦
            let e = rw (found, authenticate_user) at done in
            let e' = rw bad at e in absurd (cc (ap (λ r. r.0) e'))
      ]

  -- Renewing an old hash on a sign-in keeps the password: it signs in again, as the same user.
  pub signs_in_again :
      (salt : String) (setting : ℕ) (email password : String) (db db' : Database)
      (who : UserProfile) (salt' : String) (setting' : ℕ)
      → authenticate_user ops codec salt setting email password db ≡ (some who, db')
      → Splits codec salt setting password
      → (authenticate_user ops codec salt' setting' email password db').0 ≡ some who
  signs_in_again salt setting email password db db' who salt' setting' done splits =
      elim (Option-cases (get_user_by_email ops codec email db)) [
        | inl unknown ↦ absurd (unknown_refused salt setting email password db db' who unknown done)
        | inr (user, found) ↦
            let (good, same, kept) =
              signed_in salt setting email password db db' who user found done in
            let hash = hash_password codec salt setting password in
            elim kept [
              | inl e ↦ rw (sym e) (
                  authenticate_found salt' setting' email password db user found
                  ∙ rw good (ap some same))
              | inr e ↦ rw (sym e) (
                  authenticate_found salt' setting' email password
                    (store_hash ops codec (λ u. u.id == user.id) hash db) (set_hash hash user)
                    (found-store_hash (λ u. u.id == user.id) hash email db
                      ∙ rw found (rw (==_refl user.id) refl))
                  ∙ rw (verify-hash codec salt setting password password splits)
                      (rw (==_refl (codec.pbkdf2 password salt setting)) (ap some same)))
            ]
      ]
