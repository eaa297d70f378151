-- ===== src/Sql/Keys/Found.antt =====
-- A row that any WHERE clause finds is the row of its key.
use omni_flow.Prelude.{
  ◌≡◌, refl, ap, inl, inr, arith, Bool, none, some, List, [], ◌∷◌, KeyType, ◌==◌, ==_iff, ==_refl,
  Bool-cases, ◌≢◌, Among,
}
use omni_flow.Sql.{find, lookup}
use omni_flow.Sql.Keys.{Unique}

module _ {ℓ κ} {A : Type ℓ} {K : Type κ} ⦃e : KeyType K⦄ (key : A → K) where
  absent_not_found :
      (p : A → Bool) (rows : List A) (r : A) → lookup key (key r) rows ≡ none → find p rows ≢ some r
  unfolding find lookup
  absent_not_found p [] r missing h = cc
  absent_not_found p (s ∷ rows) r missing h =
      ground (arith, ==_iff (key s) (key r), absent_not_found p rows r, ap key)

  pub lookup_of_find :
      (p : A → Bool) (rows : List A) (r : A)
      → Unique key rows
      → find p rows ≡ some r
      → lookup key (key r) rows ≡ some r
  unfolding find lookup
  lookup_of_find p [] r u h = cc
  lookup_of_find p (s ∷ rows) r u h = elim (Bool-cases (p s)) [
    | inl here ↦
        let f : some s ≡ some r = rw here at h in
        let same : s ≡ r = cc f in rw same (rw (==_refl (key r)) refl)
    | inr later ↦
        let found : find p rows ≡ some r = rw later at h in
        elim (Bool-cases (key s == key r)) [
          | inl same ↦
              let missing : lookup key (key r) rows ≡ none =
                rw ((==_iff (key s) (key r)).0 same) at u.0 in
              absurd (absent_not_found p rows r missing found)
          | inr other ↦ rw other (lookup_of_find p rows r u.1 found)
        ]
  ]

-- The same for a row of the table.
pub lookup-Among :
    {A : Type 0} {K : Type 0} ⦃e : KeyType K⦄ (key : A → K) (rows : List A) (r : A)
    → Unique key rows
    → Among r rows
    → lookup key (key r) rows ≡ some r
unfolding lookup
lookup-Among key [] r u h = absurd h
lookup-Among key (s ∷ rows) r u (inl same) = rw same (rw (==_refl (key r)) refl)
lookup-Among key (s ∷ rows) r u (inr later) =
    let rest = lookup-Among key rows r u.1 later in
    elim (Bool-cases (key s == key r)) [
      | inl here ↦
          let missing : lookup key (key r) rows ≡ none =
            rw ((==_iff (key s) (key r)).0 here) at u.0 in
          absurd (cc (rest, missing))
      | inr other ↦ rw other rest
    ]
