-- ===== src/Services/Isolation.antt =====
-- Tenants publish with their own pages only.
use omni_flow.Prelude.{
  ◌≡◌, refl, ◌⊎◌, inl, inr, String, true, false, none, some, List, [], ◌∷◌, arith, ◌==◌, ==_iff,
  string_eq, All, Among, ◌&&◌, Option, Option-cases, Bool-cases,
}
use mathlib.Core.Option
use omni_flow.TextOps.{TextOps}
use omni_flow.Sql.Order.{select-Among, order_by-All}
use omni_flow.Schemas.{PublishTask}
use omni_flow.Store.{ConnectedAccount, Database, default_tenant_id}
use omni_flow.Store.Accounts.{
  AccountView, account_view, account_fits, newer, head, get_connected_account,
}
use omni_flow.Services.{resolve_task_credentials}

-- A row of the table that is an account of the workspace on the platform.
abbrev pub IsOwn : TextOps → String → String → Database → ConnectedAccount → Type 0
IsOwn ops tenant platform db r =
    Among r db.connected_accounts × (r.tenant_id ≡ tenant) × (r.platform ≡ ops.lower platform)

head_all :
    (P : ConnectedAccount → Type 0) (rows : List ConnectedAccount) (v : AccountView)
    → All P rows
    → Option.map account_view (head rows) ≡ some v
    → P v.account
unfolding account_view
head_all P [] v all h = ground arith
head_all P (r ∷ rows) v all h = let same : r ≡ v.account = cc in rw same at all.0

pub get_connected_account-IsOwn :
    (ops : TextOps) (platform tenant : String) (account : Option String) (db : Database)
    (v : AccountView)
    → get_connected_account ops none platform tenant account db ≡ some v
    → IsOwn ops tenant platform db v.account
unfolding get_connected_account
get_connected_account-IsOwn ops platform tenant account db v h =
    let p = λ (r : ConnectedAccount).
      r.tenant_id == tenant && r.platform == ops.lower platform && true && account_fits account r in
    let (fits, there) =
      head_all (λ r. (p r ≡ true) × Among r db.connected_accounts) _ v
        (order_by-All newer (λ r. (p r ≡ true) × Among r db.connected_accounts) _
          (select-Among p db.connected_accounts db.connected_accounts (λ r among. among)))
        h in
    (
      there,
      ground (arith, ==_iff v.account.tenant_id tenant),
      ground (arith, ==_iff v.account.platform (ops.lower platform)),
    )

-- A post of any workspace but the shared one is published in isolation, and either without a page or
-- with the page and token of a connected account of that same workspace.
pub resolved_for_tenant :
    (ops : TextOps) (db : Database) (task : PublishTask)
    → (task.tenant_id == default_tenant_id) ≡ false
    → let creds = resolve_task_credentials ops db task in
      (creds.isolated ≡ true)
      × (((creds.page_id ≡ none) × (creds.access_token ≡ none))
          ⊎ ((r : ConnectedAccount) × IsOwn ops task.tenant_id "meta" db r
              × (r.status ≡ "connected")
              × (creds.page_id ≡ some r.account_id)
              × (creds.access_token ≡ some r.access_token)))
unfolding resolve_task_credentials
resolved_for_tenant ops db task other =
    rw (other, resolve_task_credentials)
      (elim (Option-cases (get_connected_account ops none "meta" task.tenant_id none db)) [
        | inl missing ↦ rw missing (refl, inl (refl, refl))
        | inr (v, found) ↦ elim (Bool-cases (v.account.status == "connected")) [
          | inl live ↦ rw found (
              rw live (
                refl,
                inr (
                  v.account,
                  get_connected_account-IsOwn ops "meta" task.tenant_id none db v found,
                  (==_iff v.account.status "connected").0 live,
                  refl,
                  refl,
                ),
              ))
          | inr dead ↦ rw found (rw dead (refl, inl (refl, refl)))
        ]
      ])
