-- ===== src/Samples/Codes.antt =====
-- A code that is sent to an address, and guesses at it.
use omni_flow.Prelude.{
  ◌+◌, ◌≤◌, ◌<◌, ◌≡◌, refl, arith, String, true, false, none, some, List, [], ◌∷◌, string_eq,
}
use omni_flow.Sql.{lookup, find, update, delete, rowcount, upsert}
use omni_flow.Store.{VerificationCode, Database, empty_database, seconds}
use omni_flow.Store.Codes.{
  normal, get_verification_code, save_verification_code, record_verification_failure,
  delete_verification_code,
}
use omni_flow.Store.Codes.Pending.{HasUniqueCodes}
use omni_flow.Verification.{
  Settings, ok, err, email_delivery_failed, code_ttl_seconds, resend_seconds, max_attempts,
  hash_code, resend_wait, send_code, issue_code, check_pending, count_failure, use_up, consume_code,
}
use omni_flow.Verification.Guesses.{is_ok}
use omni_flow.Verification.Attempts.{Guess, successes, incorrect, guesses_bounded}
use omni_flow.Verification.Issue.{issued_code_accepted, undelivered_code_dropped}
use omni_flow.Samples.World.{plain_text, start_of_day}

abbrev settings : Settings
settings = record {
  ttl_setting = 600;
  resend_setting = 60;
  attempts_setting = 5;
  production = true;
  mail_configured = true;
}

-- A hash that keeps texts apart.
abbrev hmac : String → String
hmac s = s

abbrev pending : VerificationCode
pending = record {
  email = "a@b.c";
  purpose = "register";
  code_hash = "register:a@b.c:123456";
  attempts = 0;
  expires_at = start_of_day + seconds 600;
  created_at = start_of_day;
}

abbrev waiting : Database
waiting = record empty_database { email_verification_codes = pending ∷ [] }

abbrev address : String
address = "a@b.c"

abbrev purpose : String
purpose = "register"

empty-HasUniqueCodes : HasUniqueCodes empty_database
empty-HasUniqueCodes = tt

waiting-HasUniqueCodes : HasUniqueCodes waiting
unfolding lookup
waiting-HasUniqueCodes = (refl, tt)

pending_found :
    get_verification_code plain_text (normal plain_text address) purpose waiting ≡ some pending
unfolding get_verification_code lookup
pending_found = refl

attempts_left : pending.attempts < max_attempts settings
unfolding max_attempts
attempts_left = omega arith

abbrev guess : String → Guess
guess code = record { at = start_of_day + seconds 5; given = code }

abbrev guesses : List Guess
guesses = guess "000000" ∷ guess "123456" ∷ guess "123456" ∷ []

two_of_three : successes plain_text hmac settings address purpose guesses waiting ≡ 1
unfolding successes consume_code check_pending count_failure use_up hash_code max_attempts
    get_verification_code record_verification_failure delete_verification_code lookup find update
    delete rowcount
two_of_three = refl

guesses_bounded_example :
    (successes plain_text hmac settings address purpose guesses waiting ≤ 1)
    × (incorrect plain_text hmac settings address purpose guesses waiting + pending.attempts
        < max_attempts settings)
guesses_bounded_example =
    guesses_bounded plain_text hmac settings address purpose guesses pending waiting
      waiting-HasUniqueCodes pending_found attempts_left

right_code :
    is_ok (consume_code plain_text hmac settings start_of_day address purpose "123456" waiting).0
    ≡ true
unfolding consume_code check_pending use_up hash_code max_attempts get_verification_code
    delete_verification_code lookup find update delete rowcount
right_code = refl

sent_code :
    is_ok
      (issue_code plain_text hmac settings start_of_day "123456" true address purpose
        empty_database).0
    ≡ true
unfolding issue_code send_code resend_wait hash_code code_ttl_seconds resend_seconds
    get_verification_code save_verification_code lookup upsert
sent_code = refl

before_end : start_of_day + seconds 5 < start_of_day + seconds (code_ttl_seconds settings)
unfolding code_ttl_seconds
before_end = omega arith

within_resend : start_of_day + seconds 5 < start_of_day + seconds (resend_seconds settings)
unfolding resend_seconds
within_resend = omega arith

issued_code_accepted_example :
    let db' =
      (issue_code plain_text hmac settings start_of_day "123456" true address purpose
        empty_database).1 in
    (consume_code plain_text hmac settings
      (start_of_day + seconds 5)
      address
      purpose
      "123456"
      db').0
    ≡ ok tt
issued_code_accepted_example =
    issued_code_accepted plain_text hmac settings settings start_of_day (start_of_day + seconds 5)
      "123456" true address purpose empty_database empty-HasUniqueCodes refl before_end sent_code

lost_code :
    (issue_code plain_text hmac settings start_of_day "123456" false address purpose
      empty_database).0
    ≡ err email_delivery_failed
unfolding issue_code send_code resend_wait hash_code code_ttl_seconds resend_seconds
    get_verification_code save_verification_code lookup upsert
lost_code = refl

undelivered_code_dropped_example :
    let db' =
      (issue_code plain_text hmac settings start_of_day "123456" false address purpose
        empty_database).1 in
    get_verification_code plain_text (normal plain_text address) purpose db' ≡ none
undelivered_code_dropped_example =
    undelivered_code_dropped plain_text hmac settings start_of_day "123456" false address purpose
      empty_database empty-HasUniqueCodes lost_code
