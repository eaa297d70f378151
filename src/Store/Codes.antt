-- ===== src/Store/Codes.antt =====
-- db/sqlite_store.py, the one-time codes. A code's key is `(email, purpose)`, with the email
-- stripped and lowered by each method.
pub mod Pending
use omni_flow.Prelude.{
  ℕ, ◌+◌, String, Bool, true, Option, none, some, ◌==◌, ◌&&◌, string_eq, pair_eq, if◌then◌else◌,
  ltb,
}
use mathlib.Core.Option
use omni_flow.TextOps.{TextOps}
use omni_flow.Sql.{find, update, delete, rowcount, lookup, upsert}
use omni_flow.Store.{Moment, VerificationCode, Database}

abbrev pub code_key : VerificationCode → String × String
code_key c = (c.email, c.purpose)

-- `AND code_hash = ?`, if a hash is given.
abbrev pub hash_fits : Option String → VerificationCode → Bool
hash_fits none c = true
hash_fits (some h) c = c.code_hash == h

-- One more wrong guess.
abbrev pub fail : VerificationCode → VerificationCode
fail c = record c { attempts = c.attempts + 1 }

module _ (ops : TextOps) where
  -- `email.strip().lower()`
  abbrev pub normal : String → String
  normal email = ops.lower (ops.strip email)

  -- Expired codes of every address go, and the new one replaces the pending one.
  unfoldable pub save_verification_code :
      Moment → String → String → String → Moment → Database → Database
  save_verification_code now email purpose code_hash expires_at db =
      let row : VerificationCode = record {
        email = normal email;
        purpose = purpose;
        code_hash = code_hash;
        attempts = 0;
        expires_at = expires_at;
        created_at = now;
      } in
      record db {
        email_verification_codes =
            upsert code_key row
              (λ c. record c {
                code_hash = code_hash;
                attempts = 0;
                expires_at = expires_at;
                created_at = now;
              })
              (delete (λ c. ltb c.expires_at now) db.email_verification_codes);
      }

  unfoldable pub get_verification_code : String → String → Database → Option VerificationCode
  get_verification_code email purpose db =
      lookup code_key (normal email, purpose) db.email_verification_codes

  -- The new number of wrong guesses, 0 with no pending code.
  unfoldable pub record_verification_failure : String → String → Database → ℕ × Database
  record_verification_failure email purpose db =
      let at = λ (c : VerificationCode). code_key c == (normal email, purpose) in
      (
        elim (find at db.email_verification_codes) [ none ↦ 0 | some c ↦ c.attempts + 1 ],
        record db { email_verification_codes = update at fail db.email_verification_codes },
      )

  -- Whether a row went.
  unfoldable pub delete_verification_code :
      String → String → Option String → Database → Bool × Database
  delete_verification_code email purpose code_hash db =
      let at =
        λ (c : VerificationCode). code_key c == (normal email, purpose) && hash_fits code_hash c in
      (
        ltb 0 (rowcount at db.email_verification_codes),
        record db { email_verification_codes = delete at db.email_verification_codes },
      )
