-- ===== src/Verification/Guesses.antt =====
-- Guessing a code (`consume_code`): what a success takes, and what a guess leaves of the code.
use omni_flow.Prelude.{
  ◌+◌, ◌≤◌, ◌<◌, ◌≡◌, refl, ◌∙◌, ◌⊎◌, inl, inr, String, Bool, true, false, Option, none, some,
  arith, ◌==◌, ==_iff, ==_refl, string_eq, leb, leb→le, Bool-cases,
}
use omni_flow.TextOps.{TextOps}
use omni_flow.Store.{Moment, VerificationCode, Database}
use omni_flow.Store.Codes.{normal, fail, get_verification_code, delete_verification_code}
use omni_flow.Store.Codes.Pending.{HasUniqueCodes, record_failure_lem, delete_code_lem}
use omni_flow.Verification.{
  code_invalid, code_expired, attempts_exceeded, Reply, ok, err, Settings, max_attempts, hash_code,
  count_failure, use_up, check_pending, consume_code,
}

abbrev pub is_ok {ℓ} : {A : Type ℓ} → Reply A → Bool
is_ok (ok _) = true
is_ok (err _) = false

abbrev pub is_invalid {ℓ} : {A : Type ℓ} → Reply A → Bool
is_invalid (err code_invalid) = true
is_invalid _ = false

module _ (ops : TextOps) (hmac : String → String) (settings : Settings) (purpose : String) where
  -- What one guess does to the pending code `c`, by its reply: a success and an expiry leave no
  -- code, a wrong guess is counted, and every other reply leaves the code as it is.
  abbrev pub After :
      Moment
      → String
      → String
      → VerificationCode
      → Reply (Unit {0})
      → Option VerificationCode
      → Type 0
  After now email code c (ok _) left =
      (now < c.expires_at)
      × (c.attempts < max_attempts settings)
      × (c.code_hash ≡ hash_code ops hmac email purpose code)
      × (left ≡ none)
  After now email code c (err code_invalid) left =
      (c.attempts + 1 < max_attempts settings) × (left ≡ some (fail c))
  After now email code c (err attempts_exceeded) left =
      (max_attempts settings ≤ c.attempts) × (left ≡ some c)
      ⊎ (max_attempts settings ≤ c.attempts + 1) × (left ≡ some (fail c))
  After now email code c (err code_expired) left = left ≡ none
  After now email code c (err _) left = left ≡ some c

  count_failure-After :
      (now : Moment) (email code : String) (c : VerificationCode) (db : Database)
      → get_verification_code ops email purpose db ≡ some c
      → let (r, db') = count_failure ops hmac settings email purpose db in
        After now email code c r (get_verification_code ops email purpose db')
  unfolding count_failure
  count_failure-After now email code c db pending =
      let l = record_failure_lem ops email purpose db in
      rw (l.0, l.1, pending)
        (elim (Bool-cases (leb (max_attempts settings) (c.attempts + 1))) [
          | inl last ↦ rw last (inr (leb→le _ _ last, refl))
          | inr more ↦ rw more (ground arith, refl)
        ])

  deleted :
      (email : String) (c : VerificationCode) (db : Database)
      → HasUniqueCodes db
      → get_verification_code ops email purpose db ≡ some c
      → let (gone, db') = delete_verification_code ops email purpose (some c.code_hash) db in
        (gone ≡ true) × (get_verification_code ops email purpose db' ≡ none)
  deleted email c db u pending =
      let l = delete_code_lem ops email purpose (some c.code_hash) db u in
      let same = ==_refl c.code_hash in (l.0 ∙ rw pending (rw same), l.1 ∙ rw pending (rw same))

  use_up-After :
      (now : Moment) (email code : String) (c : VerificationCode) (db : Database)
      → HasUniqueCodes db
      → get_verification_code ops email purpose db ≡ some c
      → now < c.expires_at
      → c.attempts < max_attempts settings
      → c.code_hash ≡ hash_code ops hmac email purpose code
      → let (r, db') = use_up ops hmac email purpose c.code_hash db in
        After now email code c r (get_verification_code ops email purpose db')
  unfolding use_up
  use_up-After now email code c db u pending running below same =
      let d = deleted email c db u pending in rw (d.0, d.1) (running, below, same, refl)

  check_pending-After :
      (now : Moment) (email code : String) (c : VerificationCode) (db : Database)
      → HasUniqueCodes db
      → get_verification_code ops email purpose db ≡ some c
      → let (r, db') = check_pending ops hmac settings now email purpose code c db in
        After now email code c r (get_verification_code ops email purpose db')
  unfolding check_pending
  check_pending-After now email code c db u pending = elim (Bool-cases (leb c.expires_at now)) [
    | inl late ↦ rw late (deleted email c db u pending).1
    | inr running ↦ rw running (elim (Bool-cases (leb (max_attempts settings) c.attempts)) [
      | inl spent ↦ rw spent (inl (leb→le _ _ spent, pending))
      | inr below ↦
          rw below (elim (Bool-cases (c.code_hash == hash_code ops hmac email purpose code)) [
            | inr wrong ↦ rw wrong (count_failure-After now email code c db pending)
            | inl right ↦ rw right (
                use_up-After now email code c db u pending (ground arith) (ground arith)
                  ((==_iff c.code_hash _).0 right))
          ])
    ])
  ]

  -- One guess against a pending code, on every branch (`After` above says it by the reply).
  pub consume-After :
      (now : Moment) (address given : String) (c : VerificationCode) (db : Database)
      → HasUniqueCodes db
      → get_verification_code ops (normal ops address) purpose db ≡ some c
      → let (r, db') = consume_code ops hmac settings now address purpose given db in
        After now
          (normal ops address)
          (ops.strip given)
          c
          r
          (get_verification_code ops (normal ops address) purpose db')
  unfolding consume_code
  consume-After now address given c db u pending = elim (Bool-cases (ops.strip given == "")) [
    | inl blank ↦ rw blank pending
    | inr filled ↦ rw filled (
        rw (pending, consume_code)
          (check_pending-After now (normal ops address) (ops.strip given) c db u pending))
  ]

  -- With no pending code a guess fails and changes nothing.
  pub consume-none :
      (now : Moment) (address given : String) (db : Database)
      → get_verification_code ops (normal ops address) purpose db ≡ none
      → let (r, db') = consume_code ops hmac settings now address purpose given db in
        (is_ok r ≡ false) × (is_invalid r ≡ false) × (db' ≡ db)
  unfolding consume_code
  consume-none now address given db missing = elim (Bool-cases (ops.strip given == "")) [
    | inl blank ↦ rw blank (refl, refl, refl)
    | inr filled ↦ rw filled (rw (missing, consume_code) (refl, refl, refl))
  ]
