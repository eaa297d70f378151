-- ===== src/Passwords.antt =====
-- db/passwords.py. PBKDF2, SHA-256, base64, `str.split` and `int` come from Python's library, as the
-- parameter `codec`; the settings are arguments.
pub mod Checks
use Prim.Native.String.{◌++◌ as str_append}
use text.Mathlib.Text.{starts_with}
use omni_flow.Prelude.{
  ℕ, max, ◌≡◌, String, Bool, true, false, Option, none, some, List, [], ◌∷◌, ◌==◌, string_eq, not,
  if◌then◌else◌, ltb,
}

-- `pbkdf2` is the base64 text of the digest; `read_int` is `int(…)`, or `none` where it raises or
-- the number is not positive, which no digest can be made with; `split` has the number of cuts of
-- `str.split("$", n)`.
pub record PasswordCodec : Type 0 where
  pub pbkdf2 : String → String → ℕ → String
  pub sha256 : String → String
  pub decimal : ℕ → String
  pub read_int : String → Option ℕ
  pub is_ascii : String → Bool
  pub split : ℕ → String → List String

abbrev pub default_pbkdf2_iterations : ℕ
default_pbkdf2_iterations = 390_000

-- `configured` is the environment's number, a negative one as 0.
unfoldable pub iterations_setting : Bool → ℕ → ℕ
iterations_setting production configured =
    if production then max default_pbkdf2_iterations configured else max 1000 configured

abbrev pub prefix_dollar : String
prefix_dollar = "pbkdf2_sha256$"

module _ (codec : PasswordCodec) where
  open codec use {pbkdf2, sha256, decimal, read_int, is_ascii, split}

  -- With the salt from `secrets.token_hex`.
  unfoldable pub hash_password : String → ℕ → String → String
  hash_password salt iterations password = str_append prefix_dollar (
      str_append (decimal iterations)
        (str_append "$" (str_append salt (str_append "$" (pbkdf2 password salt iterations)))))

  -- What is relied on for a stored hash: it is split into what it was made of.
  abbrev pub Splits : String → ℕ → String → Type 0
  Splits salt iterations password =
      let stored = hash_password salt iterations password in
      (split 3 stored
        ≡ "pbkdf2_sha256" ∷ decimal iterations ∷ salt ∷ pbkdf2 password salt iterations ∷ [])
      × (read_int (decimal iterations) ≡ some iterations)
      × (is_ascii salt ≡ true)

  abbrev pub digest_agrees : String → String → String → Option ℕ → Bool
  digest_agrees password salt encoded none = false
  digest_agrees password salt encoded (some iterations) =
      if not (is_ascii salt) then false else pbkdf2 password salt iterations == encoded

  unfoldable pub verify_pbkdf2 : String → List String → Bool
  verify_pbkdf2 password (_ ∷ iterations ∷ salt ∷ encoded ∷ []) =
      digest_agrees password salt encoded (read_int iterations)
  verify_pbkdf2 password _ = false

  unfoldable pub verify_legacy : String → List String → Bool
  verify_legacy password (salt ∷ hashed ∷ []) = hashed == sha256 (str_append salt password)
  verify_legacy password _ = false

  unfoldable pub verify_password : String → String → Bool
  unfolding verify_pbkdf2 verify_legacy
  verify_password password stored =
      if stored == ""
      then false
      else if starts_with stored prefix_dollar
      then verify_pbkdf2 password (split 3 stored)
      else verify_legacy password (split 1 stored)

  abbrev is_below : ℕ → Option ℕ → Bool
  is_below setting none = true
  is_below setting (some iterations) = ltb iterations setting

  abbrev pub iterations_of : List String → Option ℕ
  iterations_of (_ ∷ iterations ∷ _) = read_int iterations
  iterations_of _ = none

  unfoldable pub needs_rehash : ℕ → String → Bool
  needs_rehash setting stored =
      if not (starts_with stored prefix_dollar)
      then true
      else is_below setting (iterations_of (split 2 stored))
