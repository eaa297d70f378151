-- ===== src/Sql/Again.antt =====
-- An upsert that is repeated changes nothing.
use omni_flow.Prelude.{
  ◌≡◌, refl, ap, Bool, none, List, [], ◌∷◌, ◌++◌, arith, Option-cases, Bool-cases, inl, inr,
  KeyType, ◌==◌, ==_refl,
}
use omni_flow.Sql.{update, lookup, upsert}
use omni_flow.Sql.Keys.{lookup-append, lookup-update}

update_again :
    {A : Type 0} (p : A → Bool) (f : A → A) (rows : List A)
    → ((r : A) → f (f r) ≡ f r)
    → ((r : A) → p (f r) ≡ p r)
    → update p f (update p f rows) ≡ update p f rows
unfolding update
update_again p f [] same kept = refl
update_again p f (r ∷ rows) same kept = elim (Bool-cases (p r)) [
  | inl fits ↦
      rw fits
        (rw (kept r) (rw fits (rw (same r) (ap (◌∷◌ (f r)) (update_again p f rows same kept)))))
  | inr not_so ↦ rw not_so (rw not_so (ap (◌∷◌ r) (update_again p f rows same kept)))
]

module _ {A K : Type 0} ⦃e : KeyType K⦄ (key : A → K) where
  update_missing :
      (k : K) (f : A → A) (rows : List A) (r : A)
      → lookup key k rows ≡ none
      → key r ≡ k
      → f r ≡ r
      → update (λ s. key s == k) f (rows ++ r ∷ []) ≡ rows ++ r ∷ []
  unfolding update lookup
  update_missing k f [] r missing at same = rw (at, same) (rw (==_refl k))
  update_missing k f (s ∷ rows) r missing at same = elim (Bool-cases (key s == k)) [
    | inl here ↦ ground (arith, here, missing)
    | inr other ↦ rw other (ap (◌∷◌ s) (update_missing k f rows r (rw other at missing) at same))
  ]

  pub upsert_again :
      (r r' : A) (merge : A → A) (rows : List A)
      → ((s : A) → key (merge s) ≡ key s)
      → ((s : A) → merge (merge s) ≡ merge s)
      → merge r ≡ r
      → key r' ≡ key r
      → upsert key r' merge (upsert key r merge rows) ≡ upsert key r merge rows
  unfolding upsert
  upsert_again r r' merge rows keeps idem same at = elim (Option-cases (lookup key (key r) rows)) [
    | inl missing ↦
        rw (missing, upsert)
          (rw (at, lookup-append key (key r) rows r, missing)
            (rw (==_refl (key r)) (update_missing (key r) merge rows r missing refl same)))
    | inr (s, found) ↦
        rw (found, upsert)
          (rw (at, lookup-update key (key r) (λ s. key s == key r) merge rows keeps, found)
            (update_again (λ s. key s == key r) merge rows idem (λ s. rw (keeps s))))
  ]
