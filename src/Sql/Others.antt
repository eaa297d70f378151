-- ===== src/Sql/Others.antt =====
-- Changes of a table that a SELECT does not see.
use omni_flow.Prelude.{
  ◌≡◌, refl, inl, inr, arith, Bool, true, false, List, [], ◌∷◌, ◌++◌, ◌==◌, is_some, Bool-cases,
  KeyType,
}
use omni_flow.Sql.{select, update, lookup, upsert}

module _ {A : Type 0} {K : Type 0} ⦃eq : KeyType K⦄ (key : A → K) (p : A → Bool) where
  select-append_other :
      (rows : List A) (r : A) → p r ≡ false → select p (rows ++ r ∷ []) ≡ select p rows
  unfolding select
  select-append_other [] r not_so = rw not_so
  select-append_other (s ∷ rows) r not_so = ground (arith, select-append_other rows r not_so)

  -- An UPDATE that keeps the rows that a SELECT sees, and makes no other visible to it.
  select-update_other :
      (q : A → Bool) (f : A → A) (rows : List A)
      → ((s : A) → p s ≡ true → f s ≡ s)
      → ((s : A) → p (f s) ≡ p s)
      → select p (update q f rows) ≡ select p rows
  unfolding select update
  select-update_other q f [] kept same = refl
  select-update_other q f (s ∷ rows) kept same =
      let rest = select-update_other q f rows kept same in
      elim (Bool-cases (q s)) [
        | inr out ↦ rw out (rw rest refl)
        | inl hit ↦ elim (Bool-cases (p s)) [
          | inl seen ↦ rw hit (rw (kept s seen) (rw rest refl))
          | inr unseen ↦ rw hit (rw (same s) (rw unseen rest))
        ]
      ]

  pub select-upsert_other :
      (r : A) (merge : A → A) (rows : List A)
      → p r ≡ false
      → ((s : A) → p s ≡ true → merge s ≡ s)
      → ((s : A) → p (merge s) ≡ p s)
      → select p (upsert key r merge rows) ≡ select p rows
  unfolding upsert
  select-upsert_other r merge rows not_so kept same =
      elim (Bool-cases (is_some (lookup key (key r) rows))) [
        | inl there ↦ rw there (select-update_other (λ s. key s == key r) merge rows kept same)
        | inr new ↦ rw new (select-append_other rows r not_so)
      ]
