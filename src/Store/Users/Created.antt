-- ===== src/Store/Users/Created.antt =====
-- A user with a new id and an email that is not in use is made.
use omni_flow.Prelude.{
  ℕ, ◌≡◌, refl, ap, ◌∙◌, String, none, some, [], ◌∷◌, ◌++◌, ◌==◌, ==_iff, ==_refl, string_eq, ◌&&◌,
}
use omni_flow.TextOps.{TextOps}
use omni_flow.Passwords.{PasswordCodec}
use omni_flow.Sql.{find}
use omni_flow.Sql.Rows.{find-append, find-either_none, find-and_none}
use omni_flow.Store.{Moment, User, Database}
use omni_flow.Store.Codes.{normal}
use omni_flow.Store.Users.{
  profile, tenant_fits, NewUser, get_user_by_id, get_user_by_email, user_row, is_taken, create_user,
}

module _ (ops : TextOps) (codec : PasswordCodec) where
  -- An id that is new and an email that finds no user: the row can be inserted.
  none_taken :
      (row : User) (email : String) (db : Database)
      → row.email ≡ normal ops email
      → find (λ (u : User). u.id == row.id) db.users ≡ none
      → get_user_by_email ops codec email db ≡ none
      → find (is_taken ops codec row) db.users ≡ none
  unfolding get_user_by_email
  none_taken row email db e fresh unknown =
      find-either_none (λ (u : User). u.id == row.id) (λ (u : User). u.email == row.email)
        (λ (u : User). ops.sql_lower u.email == normal ops email) db.users fresh unknown
        (λ u h.
          let same : u.email ≡ normal ops email = (==_iff u.email row.email).0 h ∙ e in
          rw (ap ops.sql_lower same ∙ ops.sql_lower-lower (ops.strip email))
            (==_refl (normal ops email)))

  pub created :
      (uid : String) (now : Moment) (salt : String) (iterations : ℕ) (tenant : String)
      (new : NewUser) (db : Database)
      → find (λ (u : User). u.id == uid) db.users ≡ none
      → get_user_by_email ops codec new.email db ≡ none
      → let row = user_row ops codec uid now salt iterations tenant new in
        create_user ops codec uid now salt iterations tenant new db
        ≡ (some (some (profile row)), record db { users = db.users ++ row ∷ [] })
  unfolding create_user get_user_by_id find
  created uid now salt iterations tenant new db fresh unknown =
      let row = user_row ops codec uid now salt iterations tenant new in
      rw (none_taken row new.email db refl fresh unknown) (
        rw (find-append (λ (u : User). u.id == uid && tenant_fits none u) db.users (row ∷ [])) (
          rw (find-and_none (λ (u : User). u.id == uid) (tenant_fits none) db.users fresh)
            (rw (==_refl uid) refl)))
