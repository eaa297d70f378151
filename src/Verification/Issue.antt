-- ===== src/Verification/Issue.antt =====
-- Sending a code (`issue_code`): the code that was sent is accepted, a second is not sent too soon,
-- and one that did not reach the inbox is dropped.
use omni_flow.Prelude.{
  ◌+◌, ◌<◌, ◌≡◌, refl, sym, ap, ◌∙◌, ◌⊎◌, inl, inr, String, Bool, true, false, none, some, arith,
  ◌==◌, ==_iff, ==_refl, ◌&&◌, string_eq, not, leb, Bool-cases, Option-cases,
}
use mathlib.Core.Bool.{false≢true}
use omni_flow.TextOps.{TextOps}
use omni_flow.Store.{Moment, seconds, VerificationCode, Database}
use omni_flow.Store.Codes.{
  normal, get_verification_code, save_verification_code, delete_verification_code,
}
use omni_flow.Store.Codes.Pending.{
  HasUniqueCodes, get-save_verification_code, save-HasUniqueCodes, delete-HasUniqueCodes,
  delete_code_lem,
}
use omni_flow.Verification.{
  Reply, ok, err, email_delivery_failed, Settings, Issued, is_purpose, code_ttl_seconds,
  resend_seconds, max_attempts, hash_code, resend_wait, send_code, issue_code, check_pending,
  use_up, consume_code,
}
use omni_flow.Verification.Guesses.{is_ok}

max_attempts_pos : (settings : Settings) → 0 < max_attempts settings
unfolding max_attempts
max_attempts_pos settings = omega arith

-- The reply says that the message was not delivered.
abbrev is_lost : Reply Issued → Bool
is_lost (err email_delivery_failed) = true
is_lost _ = false

module _ (ops : TextOps) (hmac : String → String) where
  -- The pending code after a code was sent.
  abbrev sent : Settings → Moment → String → String → String → VerificationCode
  sent settings now drawn email purpose = record {
    email = normal ops email;
    purpose = purpose;
    code_hash = hash_code ops hmac email purpose drawn;
    attempts = 0;
    expires_at = now + seconds (code_ttl_seconds settings);
    created_at = now;
  }

  send_code-ok :
      (settings : Settings) (now : Moment) (drawn : String) (delivered : Bool)
      (email purpose : String) (db : Database)
      → let (r, db') = send_code ops hmac settings now drawn delivered email purpose db in
        is_ok r ≡ true
        → get_verification_code ops email purpose db' ≡ some (sent settings now drawn email purpose)
  unfolding send_code
  send_code-ok settings now drawn delivered email purpose db h =
      elim (Bool-cases (settings.mail_configured && not delivered)) [
        | inl failed ↦ absurd (false≢true (rw failed at h))
        | inr arrived ↦ rw arrived (get-save_verification_code ops now email purpose _ _ db)
      ]

  -- A request either sends a code, no code having been sent too shortly before, or is refused and
  -- changes nothing.
  issue_code-cases :
      (settings : Settings) (now : Moment) (drawn : String) (delivered : Bool)
      (address purpose : String) (db : Database)
      → let result = issue_code ops hmac settings now drawn delivered address purpose db in
        let email = normal ops address in
        ((result ≡ send_code ops hmac settings now drawn delivered email purpose db)
          × (resend_wait settings now (get_verification_code ops email purpose db) ≡ none))
        ⊎ ((is_ok result.0 ≡ false) × (is_lost result.0 ≡ false) × (result.1 ≡ db))
  unfolding issue_code
  issue_code-cases settings now drawn delivered address purpose db =
      elim (Bool-cases (is_purpose purpose)) [
        | inr unknown ↦ inr (rw unknown (refl, refl, refl))
        | inl known ↦ elim (Bool-cases (settings.production && not settings.mail_configured)) [
          | inl unable ↦ inr (rw (known, unable) (refl, refl, refl))
          | inr able ↦
              let email = normal ops address in
              elim (Option-cases
                (resend_wait settings now (get_verification_code ops email purpose db))) [
                  | inl free ↦ inl (rw (known, able) (rw (free, issue_code)), free)
                  | inr (wait, soon) ↦
                      inr (rw (known, able) (rw (soon, issue_code) (refl, refl, refl)))
                ]
        ]
      ]

  -- A request that succeeds leaves the code that was drawn as the pending one.
  pub issue_code-ok :
      (settings : Settings) (now : Moment) (drawn : String) (delivered : Bool)
      (address purpose : String) (db : Database)
      → let (r, db') = issue_code ops hmac settings now drawn delivered address purpose db in
        is_ok r ≡ true
        → get_verification_code ops (normal ops address) purpose db'
          ≡ some (sent settings now drawn (normal ops address) purpose)
  issue_code-ok settings now drawn delivered address purpose db h =
      elim (issue_code-cases settings now drawn delivered address purpose db) [
        | inr (refused, _, _) ↦ absurd (false≢true (sym refused ∙ h))
        | inl (same, _) ↦ rw same (
            send_code-ok settings now drawn delivered (normal ops address) purpose db
              (rw same at h))
      ]

  send_code-HasUniqueCodes :
      (settings : Settings) (now : Moment) (drawn : String) (delivered : Bool)
      (email purpose : String) (db : Database)
      → HasUniqueCodes db
      → HasUniqueCodes (send_code ops hmac settings now drawn delivered email purpose db).1
  unfolding send_code
  send_code-HasUniqueCodes settings now drawn delivered email purpose db u =
      let h = hash_code ops hmac email purpose drawn in
      let saved =
        save_verification_code ops now email purpose h (now + seconds (code_ttl_seconds settings))
          db in
      let kept =
        save-HasUniqueCodes ops now email purpose h (now + seconds (code_ttl_seconds settings)) db
          u in
      ground (arith, kept, delete-HasUniqueCodes ops email purpose (some h) saved kept)

  pub issue-HasUniqueCodes :
      (settings : Settings) (now : Moment) (drawn : String) (delivered : Bool)
      (address purpose : String) (db : Database)
      → HasUniqueCodes db
      → HasUniqueCodes (issue_code ops hmac settings now drawn delivered address purpose db).1
  issue-HasUniqueCodes settings now drawn delivered address purpose db u =
      elim (issue_code-cases settings now drawn delivered address purpose db) [
        | inr (_, _, same) ↦ rw same u
        | inl (same, _) ↦ rw same (
            send_code-HasUniqueCodes settings now drawn delivered (normal ops address) purpose db u)
      ]

  hash_code-strip :
      (email purpose code : String)
      → hash_code ops hmac email purpose (ops.strip code) ≡ hash_code ops hmac email purpose code
  unfolding hash_code
  hash_code-strip email purpose code = rw (ops.strip_twice code)

  -- The pending code is accepted before it expires, if no attempts are used up.
  right_guess :
      (settings : Settings) (now : Moment) (address purpose given : String) (c : VerificationCode)
      (db : Database)
      → HasUniqueCodes db
      → get_verification_code ops (normal ops address) purpose db ≡ some c
      → (ops.strip given == "") ≡ false
      → now < c.expires_at
      → c.attempts < max_attempts settings
      → c.code_hash ≡ hash_code ops hmac (normal ops address) purpose (ops.strip given)
      → (consume_code ops hmac settings now address purpose given db).0 ≡ ok tt
  unfolding consume_code check_pending use_up
  right_guess settings now address purpose given c db u pending filled running below same =
      let email = normal ops address in
      let l = delete_code_lem ops email purpose (some c.code_hash) db u in
      let gone : (delete_verification_code ops email purpose (some c.code_hash) db).0 ≡ true =
        l.0 ∙ rw pending (rw (==_refl c.code_hash)) in
      let open_yet : leb c.expires_at now ≡ false = ground arith in
      let tries : leb (max_attempts settings) c.attempts ≡ false = ground arith in
      let right : (c.code_hash == hash_code ops hmac email purpose (ops.strip given)) ≡ true =
        (==_iff c.code_hash _).1 same in
      rw filled
        (rw (pending, consume_code) (rw (open_yet, check_pending) (rw tries (rw right (rw gone)))))

  -- The code of a request that succeeded is accepted until it expires.
  pub issued_code_accepted :
      (settings settings' : Settings) (now later : Moment) (drawn : String) (delivered : Bool)
      (address purpose : String) (db : Database)
      → HasUniqueCodes db
      → (ops.strip drawn == "") ≡ false
      → later < now + seconds (code_ttl_seconds settings)
      → is_ok (issue_code ops hmac settings now drawn delivered address purpose db).0 ≡ true
      → let db' = (issue_code ops hmac settings now drawn delivered address purpose db).1 in
        (consume_code ops hmac settings' later address purpose drawn db').0 ≡ ok tt
  issued_code_accepted settings settings' now later drawn delivered address purpose db u filled
        running h =
      right_guess settings' later address purpose drawn
        (sent settings now drawn (normal ops address) purpose) _
        (issue-HasUniqueCodes settings now drawn delivered address purpose db u)
        (issue_code-ok settings now drawn delivered address purpose db h) filled running
        (max_attempts_pos settings') (sym (hash_code-strip (normal ops address) purpose drawn))

  -- After a code was sent, a request that follows within the resend interval is refused and changes
  -- nothing: the pending code stays.
  pub no_second_code :
      (settings settings' : Settings) (now later : Moment) (drawn drawn' : String)
      (delivered delivered' : Bool) (address purpose : String) (db : Database)
      → later < now + seconds (resend_seconds settings')
      → is_ok (issue_code ops hmac settings now drawn delivered address purpose db).0 ≡ true
      → let db' = (issue_code ops hmac settings now drawn delivered address purpose db).1 in
        let (r', db'') =
          issue_code ops hmac settings' later drawn' delivered' address purpose db' in
        (is_ok r' ≡ false) × (db'' ≡ db')
  unfolding resend_wait
  no_second_code settings settings' now later drawn drawn' delivered delivered' address purpose db
        soon h =
      elim (issue_code-cases settings' later drawn' delivered' address purpose
        (issue_code ops hmac settings now drawn delivered address purpose db).1) [
          | inr (refused, _, same) ↦ (refused, same)
          | inl (_, free) ↦
              let pending = issue_code-ok settings now drawn delivered address purpose db h in
              absurd (ground (arith, rw pending at free))
        ]

  send_code-lost :
      (settings : Settings) (now : Moment) (drawn : String) (delivered : Bool)
      (email purpose : String) (db : Database)
      → HasUniqueCodes db
      → let (r, db') = send_code ops hmac settings now drawn delivered email purpose db in
        is_lost r ≡ true → get_verification_code ops email purpose db' ≡ none
  unfolding send_code
  send_code-lost settings now drawn delivered email purpose db u h =
      let hash = hash_code ops hmac email purpose drawn in
      let end = now + seconds (code_ttl_seconds settings) in
      let saved = save_verification_code ops now email purpose hash end db in
      let l =
        (delete_code_lem ops email purpose (some hash) saved
          (save-HasUniqueCodes ops now email purpose hash end db u)).1
        ∙ rw (get-save_verification_code ops now email purpose hash end db) (rw (==_refl hash)) in
      elim (Bool-cases (settings.mail_configured && not delivered)) [
        | inl failed ↦ rw failed l
        | inr arrived ↦ absurd (false≢true (rw arrived at h))
      ]

  -- A code that the mail server did not take is not pending afterwards, so that another can be asked
  -- for at once.
  pub undelivered_code_dropped :
      (settings : Settings) (now : Moment) (drawn : String) (delivered : Bool)
      (address purpose : String) (db : Database)
      → HasUniqueCodes db
      → (issue_code ops hmac settings now drawn delivered address purpose db).0
        ≡ err email_delivery_failed
      → let db' = (issue_code ops hmac settings now drawn delivered address purpose db).1 in
        get_verification_code ops (normal ops address) purpose db' ≡ none
  undelivered_code_dropped settings now drawn delivered address purpose db u h =
      let lost = ap is_lost h in
      elim (issue_code-cases settings now drawn delivered address purpose db) [
        | inr (_, kept, _) ↦ absurd (false≢true (sym kept ∙ lost))
        | inl (same, _) ↦ rw same (
            send_code-lost settings now drawn delivered (normal ops address) purpose db u
              (rw same at lost))
      ]
