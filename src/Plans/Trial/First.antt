-- ===== src/Plans/Trial/First.antt =====
-- Every workspace has a subscription after `get_or_create_subscription`, and keeps the one it had.
use omni_flow.Prelude.{
  ℕ, ◌≡◌, refl, ◌∙◌, String, true, none, some, arith, ◌==◌, ==_refl, string_eq, is_some,
  if◌then◌else◌, Option-cases, Bool-cases, inl, inr, ◌⊎◌,
}
use omni_flow.Sql.Keys.{lookup-insert_or_ignore}
use omni_flow.Store.{Moment, default_tenant_id, Subscription, Database}
use omni_flow.Store.Subscriptions.{get_subscription, ensure_subscription}
use omni_flow.Plans.Trial.{trial_row, house_row, get_or_create_subscription}

pub get-ensure_subscription :
    (row : Subscription) (db : Database)
    → get_subscription row.tenant_id db ≡ none
    → get_subscription row.tenant_id (ensure_subscription row db) ≡ some row
unfolding get_subscription ensure_subscription
get-ensure_subscription row db missing =
    lookup-insert_or_ignore (λ (s : Subscription). s.tenant_id) row.tenant_id row db.subscriptions
    ∙ rw (missing, ==_refl row.tenant_id)

-- The subscription that a workspace has once it is asked for: the one it had, or the house account
-- for the shared workspace and a Pro trial for any other.
unfoldable pub first_subscription : ℕ → String → Moment → String → Database → Subscription
first_subscription trial uid now tenant db = elim (get_subscription tenant db) [
  | some s ↦ s
  | none ↦
      if tenant == default_tenant_id
      then house_row trial uid now tenant
      else trial_row trial uid now tenant
]

-- `get_or_create_subscription` returns the workspace's subscription, which is found afterwards too;
-- if there was one the database stays as it was.
pub get_or_create_lem :
    (trial : ℕ) (uid : String) (now : Moment) (tenant : String) (db : Database)
    → let (s, db') = get_or_create_subscription trial uid now tenant db in
      (s ≡ some (first_subscription trial uid now tenant db))
      × (get_subscription tenant db' ≡ s)
      × ((get_subscription tenant db ≡ none) ⊎ (db' ≡ db))
unfolding get_or_create_subscription first_subscription
get_or_create_lem trial uid now tenant db = elim (Option-cases (get_subscription tenant db)) [
  | inr (s, found) ↦
      rw (found, get_or_create_subscription, first_subscription) (refl, found, inr refl)
  | inl missing ↦
      rw (missing, get_or_create_subscription, first_subscription)
        (elim (Bool-cases (tenant == default_tenant_id)) [
          | inl shared ↦
              rw shared (
                get-ensure_subscription (house_row trial uid now tenant) db missing,
                refl,
                inl refl,
              )
          | inr own ↦
              rw own (
                get-ensure_subscription (trial_row trial uid now tenant) db missing,
                refl,
                inl refl,
              )
        ])
]

pub get_or_create_kept :
    (trial : ℕ) (uid : String) (now : Moment) (tenant : String) (db : Database)
    → is_some (get_subscription tenant db) ≡ true
    → (get_or_create_subscription trial uid now tenant db).1 ≡ db
get_or_create_kept trial uid now tenant db has =
    elim (get_or_create_lem trial uid now tenant db).2 [
      | inl missing ↦ ground (arith, has, missing)
      | inr same ↦ same
    ]
