-- ===== src/Verification.antt =====
-- app/verification.py: one-time codes for sign-up and password reset. Settings, the mail server and
-- the HMAC come from outside; a call's `utcnow()` is the argument `now`.
pub mod Guesses
pub mod Attempts
pub mod Issue
pub mod Touched
use Prim.Native.String.{◌++◌ as str_append}
use omni_flow.Prelude.{
  ℕ, ◌+◌, ◌-◌, ◌/◌, String, Bool, true, false, Option, none, some, ◌==◌, ◌&&◌, ◌||◌, not, string_eq,
  if◌then◌else◌, ltb, leb, max,
}
use omni_flow.TextOps.{TextOps}
use omni_flow.Store.{Moment, seconds, VerificationCode, Database}
use omni_flow.Store.Codes.{
  normal, save_verification_code, get_verification_code, record_verification_failure,
  delete_verification_code,
}

-- The errors that are raised; `unknown_purpose` is the ValueError of `issue_code`.
pub data CodeError : Type 0 where
  recently_sent : (wait : ℕ) → CodeError
  code_required code_invalid code_expired attempts_exceeded : CodeError
  unknown_purpose email_not_configured email_delivery_failed : CodeError

pub data Reply {ℓ} (A : Type ℓ) : Type ℓ where
  ok : A → Reply A
  err : CodeError → Reply A

-- The environment variables as they are read, a negative number as 0, and the bounds that the
-- functions put on them.
pub record Settings : Type 0 where
  pub ttl_setting : ℕ
  pub resend_setting : ℕ
  pub attempts_setting : ℕ
  pub production : Bool
  pub mail_configured : Bool

unfoldable pub code_ttl_seconds : Settings → ℕ
code_ttl_seconds s = max 60 s.ttl_setting

unfoldable pub resend_seconds : Settings → ℕ
resend_seconds s = s.resend_setting

unfoldable pub max_attempts : Settings → ℕ
max_attempts s = max 1 s.attempts_setting

abbrev pub is_purpose : String → Bool
is_purpose purpose = purpose == "register" || purpose == "reset_password"

pub record Issued : Type 0 where
  pub expires_in : ℕ
  pub resend_in : ℕ

-- Seconds until `end`, rounded up as `math.ceil` does.
abbrev pub ceil_seconds : Moment → Moment → ℕ
ceil_seconds end now = (end - now + 999_999) / 1_000_000

-- A pending code was sent less than `resend_seconds()` ago.
unfoldable pub resend_wait : Settings → Moment → Option VerificationCode → Option ℕ
resend_wait settings now none = none
resend_wait settings now (some pending) =
    let again = pending.created_at + seconds (resend_seconds settings) in
    if ltb now again then some (ceil_seconds again now) else none

module _ (ops : TextOps) (hmac : String → String) where
  -- The HMAC of `f"{purpose}:{normalize_email(email)}:{code.strip()}"`.
  unfoldable pub hash_code : String → String → String → String
  hash_code email purpose code = hmac (
      str_append purpose
        (str_append ":" (str_append (normal ops email) (str_append ":" (ops.strip code)))))

  -- Storing and sending a code; `drawn` is the code from `generate_code()` and `delivered` whether
  -- the mail server took the message.
  unfoldable pub send_code :
      Settings → Moment → String → Bool → String → String → Database → Reply Issued × Database
  send_code settings now drawn delivered email purpose db =
      let code_hash = hash_code email purpose drawn in
      let saved =
        save_verification_code ops now email purpose code_hash
          (now + seconds (code_ttl_seconds settings)) db in
      if settings.mail_configured && not delivered
      then (
        err email_delivery_failed,
        (delete_verification_code ops email purpose (some code_hash) saved).1,
      )
      else (
        ok (record { expires_in = code_ttl_seconds settings; resend_in = resend_seconds settings }),
        saved,
      )

  unfoldable pub issue_code :
      Settings → Moment → String → Bool → String → String → Database → Reply Issued × Database
  issue_code settings now drawn delivered address purpose db =
      let email = normal ops address in
      if not (is_purpose purpose)
      then (err unknown_purpose, db)
      else if settings.production && not settings.mail_configured
      then (err email_not_configured, db)
      else elim (resend_wait settings now (get_verification_code ops email purpose db)) [
        | some wait ↦ (err (recently_sent wait), db)
        | none ↦ send_code settings now drawn delivered email purpose db
      ]

  -- A wrong guess is counted; the last one that is allowed ends the code.
  unfoldable pub count_failure : Settings → String → String → Database → Reply (Unit {0}) × Database
  count_failure settings email purpose db =
      let (attempts, db') = record_verification_failure ops email purpose db in
      (
        if leb (max_attempts settings) attempts then err attempts_exceeded else err code_invalid,
        db',
      )

  -- Delete-if-unchanged.
  unfoldable pub use_up : String → String → String → Database → Reply (Unit {0}) × Database
  use_up email purpose code_hash db =
      let (gone, db') = delete_verification_code ops email purpose (some code_hash) db in
      (if gone then ok tt else err code_expired, db')

  unfoldable pub check_pending :
      Settings
      → Moment
      → String
      → String
      → String
      → VerificationCode
      → Database
      → Reply (Unit {0}) × Database
  check_pending settings now email purpose code pending db =
      if leb pending.expires_at now
      then (
        err code_expired,
        (delete_verification_code ops email purpose (some pending.code_hash) db).1,
      )
      else if leb (max_attempts settings) pending.attempts
      then (err attempts_exceeded, db)
      else if not (pending.code_hash == hash_code email purpose code)
      then count_failure settings email purpose db
      else use_up email purpose pending.code_hash db

  unfoldable pub consume_code :
      Settings → Moment → String → String → String → Database → Reply (Unit {0}) × Database
  consume_code settings now address purpose given db =
      let email = normal ops address in
      let code = ops.strip given in
      if code == ""
      then (err code_required, db)
      else elim (get_verification_code ops email purpose db) [
        | none ↦ (err code_expired, db)
        | some pending ↦ check_pending settings now email purpose code pending db
      ]
