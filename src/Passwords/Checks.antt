-- ===== src/Passwords/Checks.antt =====
-- What a stored hash accepts.
use Prim.Native.String.{◌++◌ as str_append}
use text.Mathlib.TextPositions.{starts_with-append}
use text.Mathlib.TextLemmas.{append-eq-nil_iff}
use omni_flow.Prelude.{ℕ, ◌≡◌, String, false, ◌==◌, ==_iff, ==_ne, string_eq}
use omni_flow.Passwords.{
  PasswordCodec, prefix_dollar, hash_password, verify_password, verify_pbkdf2, Splits,
}

module _ (codec : PasswordCodec) (salt : String) (iterations : ℕ) (password : String) where
  hash_ne_empty : (hash_password codec salt iterations password == "") ≡ false
  unfolding hash_password
  hash_ne_empty =
      ==_ne (hash_password codec salt iterations password) ""
        (λ e. absurd (cc ((==_iff prefix_dollar "").1 (append-eq-nil_iff.0 e).0)))

  -- A hash accepts the passwords with the digest that it holds.
  pub verify-hash :
      (other : String)
      → Splits codec salt iterations password
      → verify_password codec other (hash_password codec salt iterations password)
        ≡ (codec.pbkdf2 other salt iterations == codec.pbkdf2 password salt iterations)
  unfolding verify_password hash_password
  verify-hash other (splits, reads, ascii) =
      rw (hash_ne_empty, verify_password)
        (rw
          (starts_with-append prefix_dollar (
            str_append (codec.decimal iterations) (
              str_append "$"
                (str_append salt (str_append "$" (codec.pbkdf2 password salt iterations))))))
          (rw (splits, verify_pbkdf2) (rw reads (rw ascii))))
