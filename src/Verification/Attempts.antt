-- ===== src/Verification/Attempts.antt =====
-- Any number of guesses, one after the other, at the codes of one address and purpose while no new
-- code is sent.
use omni_flow.Prelude.{
  ℕ, ◌+◌, ◌≤◌, ◌<◌, ◌≡◌, refl, ◌⊎◌, inl, inr, String, Option, none, some, List, [], ◌∷◌, arith,
  Option-cases, Bool-cases, one_if, ◌==◌, string_eq,
}
use omni_flow.TextOps.{TextOps}
use omni_flow.Store.{Moment, VerificationCode, Database}
use omni_flow.Store.Codes.{normal, get_verification_code}
use omni_flow.Store.Codes.Pending.{HasUniqueCodes, failure-HasUniqueCodes, delete-HasUniqueCodes}
use omni_flow.Verification.{
  Reply, ok, err, code_invalid, code_expired, code_required, attempts_exceeded, Settings,
  max_attempts, count_failure, use_up, check_pending, consume_code,
}
use omni_flow.Verification.Guesses.{is_ok, is_invalid, After, consume-After, consume-none}

pub record Guess : Type 0 where
  pub at : Moment
  pub given : String

module _ (ops : TextOps) (hmac : String → String) (settings : Settings)
    (address purpose : String) where
  abbrev reply : Guess → Database → Reply (Unit {0}) × Database
  reply g db = consume_code ops hmac settings g.at address purpose g.given db

  -- How many guesses succeed, and how many are answered as incorrect.
  unfoldable pub successes : List Guess → Database → ℕ
  successes [] db = 0
  successes (g ∷ gs) db = let (r, db') = reply g db in one_if (is_ok r) + successes gs db'

  unfoldable pub incorrect : List Guess → Database → ℕ
  incorrect [] db = 0
  incorrect (g ∷ gs) db = let (r, db') = reply g db in one_if (is_invalid r) + incorrect gs db'

  abbrev pending : Database → Option VerificationCode
  pending db = get_verification_code ops (normal ops address) purpose db

  check_pending-HasUniqueCodes :
      (now : Moment) (email code : String) (c : VerificationCode) (db : Database)
      → HasUniqueCodes db
      → HasUniqueCodes (check_pending ops hmac settings now email purpose code c db).1
  unfolding check_pending count_failure use_up
  check_pending-HasUniqueCodes now email code c db u = ground (
    arith,
    failure-HasUniqueCodes ops email purpose db u,
    delete-HasUniqueCodes ops email purpose (some c.code_hash) db u,
  )

  pub consume-HasUniqueCodes :
      (g : Guess) (db : Database) → HasUniqueCodes db → HasUniqueCodes (reply g db).1
  unfolding consume_code
  consume-HasUniqueCodes g db u = elim (Bool-cases (ops.strip g.given == "")) [
    | inl blank ↦ rw blank u
    | inr filled ↦ rw filled (elim (Option-cases (pending db)) [
      | inl missing ↦ rw (missing, consume_code) u
      | inr (c, found) ↦
          rw (found, consume_code)
            (check_pending-HasUniqueCodes g.at (normal ops address) (ops.strip g.given) c db u)
    ])
  ]

  -- What bounds the replies to come, by the pending code.
  abbrev Bounded : Option VerificationCode → ℕ → ℕ → Type 0
  Bounded none wins wrong = (wins ≡ 0) × (wrong ≡ 0)
  Bounded (some c) wins wrong =
      (wins ≤ 1) × (wrong + c.attempts < max_attempts settings ⊎ (wins ≡ 0) × (wrong ≡ 0))

  Bounded-step :
      (now : Moment) (email code : String) (c : VerificationCode) (r : Reply (Unit {0}))
      (left : Option VerificationCode) (wins wrong : ℕ)
      → After ops hmac settings purpose now email code c r left
      → Bounded left wins wrong
      → Bounded (some c) (one_if (is_ok r) + wins) (one_if (is_invalid r) + wrong)
  Bounded-step now email code c (ok _) left wins wrong a b = ground arith
  Bounded-step now email code c (err code_invalid) left wins wrong a b = ground arith
  Bounded-step now email code c (err attempts_exceeded) left wins wrong a b = ground arith
  Bounded-step now email code c (err code_expired) left wins wrong a b = ground arith
  Bounded-step now email code c (err code_required) left wins wrong a b = ground arith
  Bounded-step now email code c (err _) left wins wrong a b = ground arith

  guesses-Bounded :
      (gs : List Guess) (db : Database)
      → HasUniqueCodes db
      → Bounded (pending db) (successes gs db) (incorrect gs db)
  unfolding successes incorrect
  guesses-Bounded [] db u = ground arith
  guesses-Bounded (g ∷ gs) db u =
      let (r, db') = reply g db in
      let later = guesses-Bounded gs db' (consume-HasUniqueCodes g db u) in
      elim (Option-cases (pending db)) [
        | inl missing ↦
            let no = consume-none ops hmac settings purpose g.at address g.given db missing in
            let b = rw (no.2, missing) at later in
            rw (missing, no.0, no.1) (rw no.2 (rw (b.0, b.1) (refl, refl)))
        | inr (c, found) ↦ rw found (
            Bounded-step g.at (normal ops address) (ops.strip g.given) c r (pending db')
              (successes gs db') (incorrect gs db')
              (consume-After ops hmac settings purpose g.at address g.given c db u found) later)
      ]

-- Against one pending code that has attempts left, however many guesses are made: at most one
-- succeeds, and fewer are answered as incorrect than the attempts that are left.
pub guesses_bounded :
    (ops : TextOps) (hmac : String → String) (settings : Settings) (address purpose : String)
    (gs : List Guess) (c : VerificationCode) (db : Database)
    → HasUniqueCodes db
    → get_verification_code ops (normal ops address) purpose db ≡ some c
    → c.attempts < max_attempts settings
    → (successes ops hmac settings address purpose gs db ≤ 1)
      × (incorrect ops hmac settings address purpose gs db + c.attempts < max_attempts settings)
guesses_bounded ops hmac settings address purpose gs c db u found below =
    let b = rw found at (guesses-Bounded ops hmac settings address purpose gs db u) in
    (b.0, omega arith)
