-- ===== src/Verification/Touched.antt =====
-- A guess changes the table of codes and nothing else.
use omni_flow.Prelude.{
  ◌≡◌, refl, arith, String, inl, inr, Option-cases, Bool-cases, ◌==◌, string_eq,
}
use omni_flow.TextOps.{TextOps}
use omni_flow.Store.{Moment, VerificationCode, Database}
use omni_flow.Store.Codes.{
  normal, get_verification_code, record_verification_failure, delete_verification_code,
}
use omni_flow.Verification.{Settings, count_failure, use_up, check_pending, consume_code}

abbrev pub TouchesCodes : Database → Database → Type 0
TouchesCodes db db' = db' ≡ record db { email_verification_codes = db'.email_verification_codes }

module _ (ops : TextOps) (hmac : String → String) where
  check-TouchesCodes :
      (settings : Settings) (now : Moment) (email purpose code : String)
      (pending : VerificationCode) (db : Database)
      → TouchesCodes db (check_pending ops hmac settings now email purpose code pending db).1
  unfolding check_pending count_failure use_up record_verification_failure delete_verification_code
  check-TouchesCodes settings now email purpose code pending db = ground arith

  pub consume-TouchesCodes :
      (settings : Settings) (now : Moment) (address purpose given : String) (db : Database)
      → TouchesCodes db (consume_code ops hmac settings now address purpose given db).1
  unfolding consume_code
  consume-TouchesCodes settings now address purpose given db =
      elim (Bool-cases (ops.strip given == "")) [
        | inl blank ↦ rw blank refl
        | inr code ↦
            rw code
              (elim (Option-cases (get_verification_code ops (normal ops address) purpose db)) [
                | inl missing ↦ rw missing refl
                | inr (pending, found) ↦ rw found (
                    check-TouchesCodes settings now (normal ops address) purpose (ops.strip given)
                      pending db)
              ])
      ]
