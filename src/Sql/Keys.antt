-- ===== src/Sql/Keys.antt =====
-- Rows found by a key: how each statement changes what is found, and that keys stay unique.
pub mod Found
use omni_flow.Prelude.{
  ◌≡◌, refl, ◌∙◌, ◌&&◌, Bool, true, false, Option, none, some, List, [], ◌∷◌, ◌++◌, arith,
  if◌then◌else◌, Option-cases, inl, inr, KeyType, ◌==◌, ==_iff, is_some,
}
use mathlib.Core.Option
use omni_flow.Sql.{find, update, delete, rowcount, lookup, insert_or_ignore, upsert}

-- A row that is found, if it meets the test too.
abbrev pub keep {ℓ} : {A : Type ℓ} → (A → Bool) → Option A → Option A
keep p none = none
keep p (some r) = if p r then some r else none

module _ {ℓ κ} {A : Type ℓ} {K : Type κ} ⦃e : KeyType K⦄ (key : A → K) where
  -- No two rows have one key: a PRIMARY KEY or UNIQUE constraint.
  abbrev pub Unique : List A → Type (ℓ)
  Unique [] = Unit
  Unique (r ∷ rows) = (lookup key (key r) rows ≡ none) × Unique rows

  pub lookup-key : (k : K) (rows : List A) (r : A) → lookup key k rows ≡ some r → key r ≡ k
  unfolding lookup
  lookup-key k [] r h = ground arith
  lookup-key k (s ∷ rows) r h = ground (arith, ==_iff (key s) k, lookup-key k rows r)

  pub lookup-append :
      (k : K) (rows : List A) (r : A)
      → lookup key k (rows ++ r ∷ []) ≡ (
          if is_some (lookup key k rows)
          then lookup key k rows
          else if key r == k
          then some r
          else none)
  unfolding lookup
  lookup-append k [] r = refl
  lookup-append k (s ∷ rows) r = ground (arith, lookup-append k rows r)

  -- An UPDATE that leaves the keys alone changes the rows that meet its WHERE clause and no others.
  pub lookup-update :
      (k : K) (p : A → Bool) (f : A → A) (rows : List A)
      → ((r : A) → key (f r) ≡ key r)
      → lookup key k (update p f rows)
        ≡ Option.map (λ r. if p r then f r else r) (lookup key k rows)
  unfolding lookup update
  lookup-update k p f [] same = refl
  lookup-update k p f (r ∷ rows) same = ground (arith, same r, lookup-update k p f rows same)

  pub lookup-insert_or_ignore :
      (k : K) (r : A) (rows : List A)
      → lookup key k (insert_or_ignore key r rows) ≡ (
          if is_some (lookup key k rows)
          then lookup key k rows
          else if key r == k
          then some r
          else none)
  unfolding insert_or_ignore
  lookup-insert_or_ignore k r rows = ground (arith, lookup-append k rows r, ==_iff (key r) k)

  pub lookup-upsert :
      (k : K) (r : A) (merge : A → A) (rows : List A)
      → ((s : A) → key (merge s) ≡ key s)
      → lookup key k (upsert key r merge rows) ≡ (
          if key r == k
          then elim (lookup key k rows) [ none ↦ some r | some s ↦ some (merge s) ]
          else lookup key k rows)
  unfolding upsert
  lookup-upsert k r merge rows same = elim (Option-cases (lookup key k rows)) [
    | inl missing ↦ ground (
      arith,
      missing,
      ==_iff (key r) k,
      lookup-append k rows r,
      lookup-update k (λ s. key s == key r) merge rows same,
    )
    | inr (s, found) ↦ ground (
      arith,
      found,
      ==_iff (key r) k,
      ==_iff (key s) (key r),
      lookup-key k rows s found,
      lookup-append k rows r,
      lookup-update k (λ s. key s == key r) merge rows same,
    )
  ]

  lookup-delete-none :
      (k : K) (p : A → Bool) (rows : List A)
      → lookup key k rows ≡ none
      → lookup key k (delete p rows) ≡ none
  unfolding lookup delete
  lookup-delete-none k p [] h = refl
  lookup-delete-none k p (r ∷ rows) h = ground (arith, lookup-delete-none k p rows)

  pub lookup-delete :
      (k : K) (p : A → Bool) (rows : List A)
      → Unique rows
      → lookup key k (delete p rows) ≡ keep (λ r. if p r then false else true) (lookup key k rows)
  unfolding lookup delete
  lookup-delete k p [] u = refl
  lookup-delete k p (r ∷ rows) u =
      ground
        (arith, ==_iff (key r) k, lookup-delete k p rows u.1, lookup-delete-none (key r) p rows)

  find-none :
      (k : K) (p : A → Bool) (rows : List A)
      → ((r : A) → p r ≡ true → key r ≡ k)
      → lookup key k rows ≡ none
      → find p rows ≡ none
  unfolding lookup find
  find-none k p [] at h = refl
  find-none k p (r ∷ rows) at h = ground (arith, at r, ==_iff (key r) k, find-none k p rows at)

  -- A WHERE clause that fixes the key selects the row of that key, or nothing.
  pub find_by_key :
      (k : K) (p : A → Bool) (rows : List A)
      → ((r : A) → p r ≡ true → key r ≡ k)
      → Unique rows
      → find p rows ≡ keep p (lookup key k rows)
  unfolding lookup find
  find_by_key k p [] at u = refl
  find_by_key k p (r ∷ rows) at u =
      ground (arith, at r, ==_iff (key r) k, find_by_key k p rows at u.1, find-none k p rows at)

  key_kept :
      (p : A → Bool) (f : A → A) (r : A)
      → ((s : A) → key (f s) ≡ key s)
      → key (if p r then f r else r) ≡ key r
  key_kept p f r same = ground (arith, same r)

  pub update-Unique :
      (p : A → Bool) (f : A → A) (rows : List A)
      → ((r : A) → key (f r) ≡ key r)
      → Unique rows
      → Unique (update p f rows)
  unfolding update
  update-Unique p f [] same u = tt
  update-Unique p f (r ∷ rows) same u = (
    rw (key_kept p f r same) (rw (lookup-update (key r) p f rows same, u.0)),
    update-Unique p f rows same u.1,
  )

  pub delete-Unique : (p : A → Bool) (rows : List A) → Unique rows → Unique (delete p rows)
  unfolding delete
  delete-Unique p [] u = tt
  delete-Unique p (r ∷ rows) u =
      ground (arith, delete-Unique p rows u.1, lookup-delete-none (key r) p rows)

  pub append-Unique :
      (r : A) (rows : List A)
      → lookup key (key r) rows ≡ none
      → Unique rows
      → Unique (rows ++ r ∷ [])
  unfolding lookup
  append-Unique r [] h u = (refl, tt)
  append-Unique r (s ∷ rows) h u = ground (
    arith,
    append-Unique r rows,
    lookup-append (key s) rows r,
    ==_iff (key s) (key r),
    ==_iff (key r) (key s),
  )

  pub insert_or_ignore-Unique :
      (r : A) (rows : List A) → Unique rows → Unique (insert_or_ignore key r rows)
  unfolding insert_or_ignore
  insert_or_ignore-Unique r rows u = ground (arith, append-Unique r rows)

  pub upsert-Unique :
      (r : A) (merge : A → A) (rows : List A)
      → ((s : A) → key (merge s) ≡ key s)
      → Unique rows
      → Unique (upsert key r merge rows)
  unfolding upsert
  upsert-Unique r merge rows same u =
      ground (arith, append-Unique r rows, update-Unique (λ s. key s == key r) merge rows same u)

  -- WHERE key = k AND …
  pub find_where :
      (k : K) (g : A → Bool) (rows : List A)
      → Unique rows
      → find (λ r. key r == k && g r) rows ≡ keep g (lookup key k rows)
  find_where k g rows u =
      find_by_key k (λ r. key r == k && g r) rows (λ r h. ground (arith, ==_iff (key r) k)) u
      ∙ keep_at (lookup key k rows) refl
    where
      keep_at :
          (found : Option A)
          → lookup key k rows ≡ found
          → keep (λ r. key r == k && g r) found ≡ keep g found
      keep_at none at = refl
      keep_at (some r) at = ground (arith, lookup-key k rows r at, ==_iff (key r) k)

  pub lookup-update_where :
      (j k : K) (g : A → Bool) (f : A → A) (rows : List A)
      → ((r : A) → key (f r) ≡ key r)
      → lookup key j (update (λ r. key r == k && g r) f rows) ≡ (
          if j == k
          then Option.map (λ r. if g r then f r else r) (lookup key j rows)
          else lookup key j rows)
  lookup-update_where j k g f rows same =
      lookup-update j (λ r. key r == k && g r) f rows same ∙ map_at (lookup key j rows) refl
    where
      map_at :
          (found : Option A)
          → lookup key j rows ≡ found
          → Option.map (λ r. if key r == k && g r then f r else r) found
            ≡ (if j == k then Option.map (λ r. if g r then f r else r) found else found)
      map_at none at = ground arith
      map_at (some r) at = ground (arith, lookup-key j rows r at, ==_iff (key r) k, ==_iff j k)

  -- WHERE key = k and no more
  pub find_key : (k : K) (rows : List A) → find (λ r. key r == k) rows ≡ lookup key k rows
  unfolding find lookup
  find_key k [] = refl
  find_key k (r ∷ rows) = ground (arith, find_key k rows)

  pub lookup-update_key :
      (j k : K) (f : A → A) (rows : List A)
      → ((r : A) → key (f r) ≡ key r)
      → lookup key j (update (λ r. key r == k) f rows)
        ≡ (if j == k then Option.map f (lookup key j rows) else lookup key j rows)
  unfolding lookup update
  lookup-update_key j k f [] same = ground arith
  lookup-update_key j k f (r ∷ rows) same = ground (
    arith,
    same r,
    ==_iff (key r) k,
    ==_iff (key r) j,
    ==_iff j k,
    lookup-update_key j k f rows same,
  )

  rowcount_absent :
      (k : K) (g : A → Bool) (rows : List A)
      → lookup key k rows ≡ none
      → rowcount (λ r. key r == k && g r) rows ≡ 0
  unfolding rowcount lookup
  rowcount_absent k g [] h = refl
  rowcount_absent k g (r ∷ rows) h = ground (arith, rowcount_absent k g rows)

  -- A WHERE clause that fixes the key meets one row or none.
  pub rowcount_where :
      (k : K) (g : A → Bool) (rows : List A)
      → Unique rows
      → rowcount (λ r. key r == k && g r) rows
        ≡ (if is_some (keep g (lookup key k rows)) then 1 else 0)
  unfolding rowcount lookup
  rowcount_where k g [] u = refl
  rowcount_where k g (r ∷ rows) u =
      ground (arith, ==_iff (key r) k, rowcount_absent k g rows, rowcount_where k g rows u.1)
