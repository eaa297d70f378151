-- ===== src/Store/Codes/Pending.antt =====
-- The pending code of an address and purpose under each method.
use omni_flow.Prelude.{
  ◌+◌, ◌≡◌, refl, ◌∙◌, String, true, false, Option, none, some, arith, ◌==◌, ◌&&◌, ==_iff, ==_refl,
  string_eq, pair_eq, is_some, if◌then◌else◌, ltb, lt→ltb, List, Option-cases, inl, inr,
}
use mathlib.Core.Option
use omni_flow.TextOps.{TextOps}
use omni_flow.Sql.{find, delete, rowcount, lookup}
use omni_flow.Sql.Rows.{rowcount-pos, rowcount-none}
use omni_flow.Sql.Keys.{
  Unique, keep, lookup-key, lookup-upsert, lookup-delete, find_key, find_where, lookup-update_key,
  update-Unique, delete-Unique, upsert-Unique,
}
use omni_flow.Store.{Moment, VerificationCode, Database}
use omni_flow.Store.Codes.{
  code_key, normal, save_verification_code, get_verification_code, record_verification_failure,
  hash_fits, fail, delete_verification_code,
}

-- The primary key of the table.
abbrev pub HasUniqueCodes : Database → Type 0
HasUniqueCodes db = Unique code_key db.email_verification_codes

kept_at :
    (k : String × String) (h : Option String) (found : Option VerificationCode)
    → ((c : VerificationCode) → found ≡ some c → code_key c ≡ k)
    → keep (λ c. if code_key c == k && hash_fits h c then false else true) found
      ≡ keep (λ c. if hash_fits h c then false else true) found
kept_at k h none at = refl
kept_at k h (some c) at = rw ((==_iff (code_key c) k).1 (at c refl))

gone_at :
    (k : String × String) (h : Option String) (rows : List VerificationCode)
    → Unique code_key rows
    → ltb 0 (rowcount (λ c. code_key c == k && hash_fits h c) rows)
      ≡ is_some (keep (hash_fits h) (lookup code_key k rows))
gone_at k h rows u =
    let p = λ (c : VerificationCode). code_key c == k && hash_fits h c in
    let at = find_where code_key k (hash_fits h) rows u in
    elim (Option-cases (find p rows)) [
      | inl missing ↦ rw (rowcount-none p rows missing, ← at, missing)
      | inr (c, found) ↦ rw (← at, found) (lt→ltb 0 _ (rowcount-pos p rows c found))
    ]

module _ (ops : TextOps) where
  -- A saved code is the pending one, with no wrong guesses yet.
  pub get-save_verification_code :
      (now : Moment) (email purpose code_hash : String) (expires_at : Moment) (db : Database)
      → get_verification_code ops email purpose
          (save_verification_code ops now email purpose code_hash expires_at db)
        ≡ some (record {
          email = normal ops email;
          purpose = purpose;
          code_hash = code_hash;
          attempts = 0;
          expires_at = expires_at;
          created_at = now;
        })
  unfolding get_verification_code save_verification_code
  get-save_verification_code now email purpose code_hash expires_at db =
      let rows =
        delete (λ (c : VerificationCode). ltb c.expires_at now) db.email_verification_codes in
      let k : String × String = (normal ops email, purpose) in
      lookup-upsert code_key k _ _ rows (λ c. refl)
      ∙ rw (==_refl k) (elim (Option-cases (lookup code_key k rows)) [
        | inl missing ↦ rw missing
        | inr (c, found) ↦ rw found (ground (arith, lookup-key code_key k rows c found))
      ])

  pub save-HasUniqueCodes :
      (now : Moment) (email purpose code_hash : String) (expires_at : Moment) (db : Database)
      → HasUniqueCodes db
      → HasUniqueCodes (save_verification_code ops now email purpose code_hash expires_at db)
  unfolding save_verification_code
  save-HasUniqueCodes now email purpose code_hash expires_at db u =
      upsert-Unique code_key _ _ _ (λ c. refl)
        (delete-Unique code_key _ db.email_verification_codes u)

  -- A wrong guess is counted on the pending code, and the new count is returned.
  pub record_failure_lem :
      (email purpose : String) (db : Database)
      → let (attempts, db') = record_verification_failure ops email purpose db in
        (attempts ≡ elim (get_verification_code ops email purpose db) [
          | none ↦ 0
          | some c ↦ c.attempts + 1
        ])
        × (get_verification_code ops email purpose db'
            ≡ Option.map fail (get_verification_code ops email purpose db))
  unfolding record_verification_failure get_verification_code
  record_failure_lem email purpose db =
      let k : String × String = (normal ops email, purpose) in
      (
        rw (record_verification_failure, find_key code_key k db.email_verification_codes),
        lookup-update_key code_key k k _ db.email_verification_codes (λ c. refl) ∙ rw (==_refl k),
      )

  pub delete-HasUniqueCodes :
      (email purpose : String) (h : Option String) (db : Database)
      → HasUniqueCodes db
      → HasUniqueCodes (delete_verification_code ops email purpose h db).1
  unfolding delete_verification_code
  delete-HasUniqueCodes email purpose h db u =
      delete-Unique code_key _ db.email_verification_codes u

  pub failure-HasUniqueCodes :
      (email purpose : String) (db : Database)
      → HasUniqueCodes db
      → HasUniqueCodes (record_verification_failure ops email purpose db).1
  unfolding record_verification_failure
  failure-HasUniqueCodes email purpose db u =
      update-Unique code_key _ _ db.email_verification_codes (λ c. refl) u

  -- A deletion takes the pending code, if its hash fits, and reports whether it took one.
  pub delete_code_lem :
      (email purpose : String) (h : Option String) (db : Database)
      → HasUniqueCodes db
      → let pending = get_verification_code ops email purpose db in
        let (gone, db') = delete_verification_code ops email purpose h db in
        (gone ≡ is_some (keep (hash_fits h) pending))
        × (get_verification_code ops email purpose db'
            ≡ keep (λ c. if hash_fits h c then false else true) pending)
  unfolding delete_verification_code get_verification_code
  delete_code_lem email purpose h db u =
      let k : String × String = (normal ops email, purpose) in
      let rows = db.email_verification_codes in
      (
        gone_at k h rows u,
        lookup-delete code_key k (λ c. code_key c == k && hash_fits h c) rows u
            ∙ kept_at k h (lookup code_key k rows) (lookup-key code_key k rows),
      )
