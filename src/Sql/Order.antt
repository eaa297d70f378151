-- ===== src/Sql/Order.antt =====
-- ORDER BY keeps the rows of a SELECT, and puts them in order.
use omni_flow.Prelude.{
  ◌≡◌, refl, ◌∙◌, Bool, true, false, List, [], ◌∷◌, arith, Bool-cases, inl, inr, All, Among, ◌&&◌,
}
use omni_flow.Sql.{select, rowcount, insert_ordered, order_by}

module _ {ℓ} {A : Type ℓ} where
  pub select-All :
      (P : A → Type 0) (p : A → Bool) (rows : List A)
      → ((r : A) → p r ≡ true → P r)
      → All P (select p rows)
  unfolding select
  select-All P p [] h = tt
  select-All P p (r ∷ rows) h = elim (Bool-cases (p r)) [
    | inl fits ↦ rw fits (h r fits, select-All P p rows h)
    | inr not_so ↦ rw not_so (select-All P p rows h)
  ]

  pub rowcount-select :
      (p q : A → Bool) (rows : List A)
      → rowcount q (select p rows) ≡ rowcount (λ r. p r && q r) rows
  unfolding select rowcount
  rowcount-select p q [] = refl
  rowcount-select p q (r ∷ rows) = ground (arith, rowcount-select p q rows)

-- What a SELECT finds meets its WHERE clause, and comes from the table.
pub select-Among :
    {A : Type 0} (p : A → Bool) (rows table : List A)
    → ((r : A) → Among r rows → Among r table)
    → All (λ r. (p r ≡ true) × Among r table) (select p rows)
unfolding select
select-Among p [] table into = tt
select-Among p (r ∷ rows) table into = elim (Bool-cases (p r)) [
  | inl fits ↦
      rw fits ((fits, into r (inl refl)), select-Among p rows table (λ s h. into s (inr h)))
  | inr not_so ↦ rw not_so (select-Among p rows table (λ s h. into s (inr h)))
]

module _ {ℓ} {A : Type ℓ} (before : A → A → Bool) where
  -- Each row comes before all that follow it.
  abbrev pub Sorted : List A → Type 0
  Sorted [] = Unit
  Sorted (r ∷ rows) = All (λ s. before r s ≡ true) rows × Sorted rows

  insert_ordered-All :
      (P : A → Type 0) (r : A) (rows : List A)
      → P r
      → All P rows
      → All P (insert_ordered before r rows)
  unfolding insert_ordered
  insert_ordered-All P r [] h all = (h, tt)
  insert_ordered-All P r (s ∷ rows) h all = elim (Bool-cases (before r s)) [
    | inl first ↦ rw first (h, all)
    | inr later ↦ rw later (all.0, insert_ordered-All P r rows h all.1)
  ]

  pub order_by-All : (P : A → Type 0) (rows : List A) → All P rows → All P (order_by before rows)
  unfolding order_by
  order_by-All P [] all = tt
  order_by-All P (r ∷ rows) all =
      insert_ordered-All P r (order_by before rows) all.0 (order_by-All P rows all.1)

  rowcount-insert_ordered :
      (q : A → Bool) (r : A) (rows : List A)
      → rowcount q (insert_ordered before r rows) ≡ rowcount q (r ∷ rows)
  unfolding insert_ordered rowcount
  rowcount-insert_ordered q r [] = refl
  rowcount-insert_ordered q r (s ∷ rows) = ground (arith, rowcount-insert_ordered q r rows)

  pub rowcount-order_by :
      (q : A → Bool) (rows : List A) → rowcount q (order_by before rows) ≡ rowcount q rows
  unfolding order_by rowcount
  rowcount-order_by q [] = refl
  rowcount-order_by q (r ∷ rows) =
      rowcount-insert_ordered q r (order_by before rows) ∙ ground (arith, rowcount-order_by q rows)

  module _ (total : (r s : A) → before r s ≡ false → before s r ≡ true)
      (trans : (r s t : A) → before r s ≡ true → before s t ≡ true → before r t ≡ true) where
    All-before :
        (r s : A) (rows : List A)
        → before r s ≡ true
        → All (λ t. before s t ≡ true) rows
        → All (λ t. before r t ≡ true) rows
    All-before r s [] h all = tt
    All-before r s (t ∷ rows) h all = (trans r s t h all.0, All-before r s rows h all.1)

    insert_ordered-Sorted :
        (r : A) (rows : List A) → Sorted rows → Sorted (insert_ordered before r rows)
    unfolding insert_ordered
    insert_ordered-Sorted r [] sorted = (tt, tt)
    insert_ordered-Sorted r (s ∷ rows) sorted = elim (Bool-cases (before r s)) [
      | inl first ↦ rw first ((first, All-before r s rows first sorted.0), sorted)
      | inr later ↦ rw later (
        insert_ordered-All (λ t. before s t ≡ true) r rows (total r s later) sorted.0,
        insert_ordered-Sorted r rows sorted.1,
      )
    ]

    pub order_by-Sorted : (rows : List A) → Sorted (order_by before rows)
    unfolding order_by
    order_by-Sorted [] = tt
    order_by-Sorted (r ∷ rows) =
        insert_ordered-Sorted r (order_by before rows) (order_by-Sorted rows)

-- A sort loses no row.
insert_ordered-Among :
    {A : Type 0} (before : A → A → Bool) (a r : A) (rows : List A)
    → Among a (r ∷ rows)
    → Among a (insert_ordered before r rows)
unfolding insert_ordered
insert_ordered-Among before a r [] among = among
insert_ordered-Among before a r (s ∷ rows) among = elim (Bool-cases (before r s)) [
  | inl first ↦ rw first among
  | inr later ↦
      let after = insert_ordered-Among before a r rows in
      rw later (elim among [
        | inl here ↦ inr (after (inl here))
        | inr (inl next) ↦ inl next
        | inr (inr far) ↦ inr (after (inr far))
      ])
]

pub order_by-Among :
    {A : Type 0} (before : A → A → Bool) (a : A) (rows : List A)
    → Among a rows
    → Among a (order_by before rows)
unfolding order_by
order_by-Among before a [] among = absurd among
order_by-Among before a (r ∷ rows) (inl here) =
    insert_ordered-Among before a r (order_by before rows) (inl here)
order_by-Among before a (r ∷ rows) (inr later) =
    insert_ordered-Among before a r (order_by before rows)
      (inr (order_by-Among before a rows later))

pub among-select :
    {A : Type 0} (p : A → Bool) (a : A) (rows : List A)
    → p a ≡ true
    → Among a rows
    → Among a (select p rows)
unfolding select
among-select p a [] fits among = absurd among
among-select p a (r ∷ rows) fits (inl here) = rw (here, fits, select) (inl refl)
among-select p a (r ∷ rows) fits (inr later) =
    let rest = among-select p a rows fits later in
    elim (Bool-cases (p r)) [ inl too ↦ rw too (inr rest) | inr not_so ↦ rw not_so rest ]
