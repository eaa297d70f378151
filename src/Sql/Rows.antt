-- ===== src/Sql/Rows.antt =====
-- What a WHERE clause selects and what the other statements leave of it.
use mathlib.Core.Option
use omni_flow.Prelude.{
  ◌+◌, ◌<◌, ◌≡◌, refl, inl, inr, Bool-cases, Bool, true, ◌||◌, ◌&&◌, ltb, none, some, List, [], ◌∷◌,
  ◌++◌, arith, if◌then◌else◌, All, length, is_some,
}
use omni_flow.Sql.{select, find, update, delete, rowcount}

module _ {ℓ} {A : Type ℓ} (p : A → Bool) where
  pub select-All : (rows : List A) → All (λ r. p r ≡ true) (select p rows)
  unfolding select
  select-All [] = tt
  select-All (r ∷ rows) = ground (arith, select-All rows)

  pub find-holds : (rows : List A) (r : A) → find p rows ≡ some r → p r ≡ true
  unfolding find
  find-holds [] r h = ground arith
  find-holds (s ∷ rows) r h = ground (arith, find-holds rows r)

  pub find-append :
      (rows rest : List A)
      → find p (rows ++ rest) ≡ (if is_some (find p rows) then find p rows else find p rest)
  unfolding find
  find-append [] rest = refl
  find-append (r ∷ rows) rest = ground (arith, find-append rows rest)

  pub rowcount-eq-length : (rows : List A) → rowcount p rows ≡ length (select p rows)
  unfolding rowcount select
  rowcount-eq-length [] = refl
  rowcount-eq-length (r ∷ rows) = ground (arith, rowcount-eq-length rows)

  pub rowcount-pos : (rows : List A) (r : A) → find p rows ≡ some r → 0 < rowcount p rows
  unfolding rowcount find
  rowcount-pos [] r h = ground arith
  rowcount-pos (s ∷ rows) r h = ground (arith, rowcount-pos rows r)

  pub rowcount-none : (rows : List A) → find p rows ≡ none → rowcount p rows ≡ 0
  unfolding rowcount find
  rowcount-none [] h = refl
  rowcount-none (s ∷ rows) h = ground (arith, rowcount-none rows)

  pub delete-find : (rows : List A) → find p (delete p rows) ≡ none
  unfolding find delete
  delete-find [] = refl
  delete-find (r ∷ rows) = ground (arith, delete-find rows)

  pub length-delete : (rows : List A) → length (delete p rows) + rowcount p rows ≡ length rows
  unfolding delete rowcount
  length-delete [] = omega arith
  length-delete (r ∷ rows) = ground (arith, length-delete rows)

  -- An UPDATE that the WHERE clause of a SELECT does not see.
  pub find-update :
      (q : A → Bool) (f : A → A) (rows : List A)
      → ((r : A) → p (f r) ≡ p r)
      → find p (update q f rows) ≡ Option.map (λ r. if q r then f r else r) (find p rows)
  unfolding find update
  find-update q f [] same = refl
  find-update q f (r ∷ rows) same = ground (arith, same r, find-update q f rows same)

  pub rowcount-found : (rows : List A) → 0 < rowcount p rows → (r : A) × (find p rows ≡ some r)
  unfolding rowcount find
  rowcount-found [] h = absurd (omega arith)
  rowcount-found (r ∷ rows) h = elim (Bool-cases (p r)) [
    | inl fits ↦ (r, rw fits)
    | inr not_so ↦
        rw not_so (rowcount-found rows (let k : 0 < rowcount p (r ∷ rows) = h in rw not_so at k))
  ]

  -- A WHERE clause of two parts, each of which fails everywhere.
  pub find-either_none :
      (q q' : A → Bool) (rows : List A)
      → find p rows ≡ none
      → find q' rows ≡ none
      → ((r : A) → q r ≡ true → q' r ≡ true)
      → find (λ r. p r || q r) rows ≡ none
  unfolding find
  find-either_none q q' [] h k only = refl
  find-either_none q q' (r ∷ rows) h k only = ground (arith, only r, find-either_none q q' rows)

  pub find-and_none :
      (q : A → Bool) (rows : List A) → find p rows ≡ none → find (λ r. p r && q r) rows ≡ none
  unfolding find
  find-and_none q [] h = refl
  find-and_none q (r ∷ rows) h = ground (arith, find-and_none q rows)

  pub is_some-find : (rows : List A) → is_some (find p rows) ≡ ltb 0 (rowcount p rows)
  unfolding find rowcount
  is_some-find [] = refl
  is_some-find (r ∷ rows) = ground (arith, is_some-find rows)

pub rowcount-append :
    {A : Type 0} (q : A → Bool) (rows : List A) (r : A)
    → rowcount q (rows ++ r ∷ []) ≡ rowcount q rows + rowcount q (r ∷ [])
unfolding rowcount
rowcount-append q [] r = ground arith
rowcount-append q (s ∷ rows) r = ground (arith, rowcount-append q rows r)
