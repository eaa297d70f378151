-- ===== src/Sql.antt =====
-- What the SQL statements of db/sqlite_store.py do to a table: a list of rows in rowid order, on
-- which a statement reads or writes the rows that meet its WHERE clause.
pub mod Rows
pub mod Others
pub mod Keys
pub mod Order
pub mod Again
use omni_flow.Prelude.{
  ℕ, suc, Bool, true, false, Option, none, some, List, [], ◌∷◌, ◌++◌, if◌then◌else◌, KeyType, ◌==◌,
  is_some,
}

module _ {ℓ} {A : Type ℓ} where
  -- SELECT … WHERE p: the rows in order, and the first of them (`fetchone`).
  unfoldable pub select : (A → Bool) → List A → List A
  select p [] = []
  select p (r ∷ rows) = if p r then r ∷ select p rows else select p rows

  unfoldable pub find : (A → Bool) → List A → Option A
  find p [] = none
  find p (r ∷ rows) = if p r then some r else find p rows

  -- UPDATE … SET … WHERE p
  unfoldable pub update : (A → Bool) → (A → A) → List A → List A
  update p f [] = []
  update p f (r ∷ rows) = (if p r then f r else r) ∷ update p f rows

  -- DELETE FROM … WHERE p
  unfoldable pub delete : (A → Bool) → List A → List A
  delete p [] = []
  delete p (r ∷ rows) = if p r then delete p rows else r ∷ delete p rows

  -- `cursor.rowcount` of an UPDATE or a DELETE with that WHERE clause.
  unfoldable pub rowcount : (A → Bool) → List A → ℕ
  rowcount p [] = 0
  rowcount p (r ∷ rows) = if p r then suc (rowcount p rows) else rowcount p rows

module _ {ℓ κ} {A : Type ℓ} {K : Type κ} ⦃e : KeyType K⦄ (key : A → K) where
  -- SELECT … WHERE key = k
  unfoldable pub lookup : K → List A → Option A
  lookup k [] = none
  lookup k (r ∷ rows) = if key r == k then some r else lookup k rows

  -- INSERT OR IGNORE INTO …, with `key` unique.
  unfoldable pub insert_or_ignore : A → List A → List A
  unfolding lookup
  insert_or_ignore r rows = if is_some (lookup (key r) rows) then rows else rows ++ r ∷ []

  -- INSERT INTO … ON CONFLICT (key) DO UPDATE SET …: `merge` maps the stored row to its new value.
  unfoldable pub upsert : A → (A → A) → List A → List A
  unfolding lookup update
  upsert r merge rows =
      if is_some (lookup (key r) rows)
      then update (λ s. key s == key r) merge rows
      else rows ++ r ∷ []

-- ORDER BY: a stable insertion sort by a test that holds of rows in their order.
module _ {ℓ} {A : Type ℓ} (before : A → A → Bool) where
  unfoldable pub insert_ordered : A → List A → List A
  insert_ordered r [] = r ∷ []
  insert_ordered r (s ∷ rows) =
      let rest = insert_ordered r rows in if before r s then r ∷ s ∷ rows else s ∷ rest

  unfoldable pub order_by : List A → List A
  unfolding insert_ordered
  order_by [] = []
  order_by (r ∷ rows) = insert_ordered r (order_by rows)
