-- ===== src/FacebookPages/Own.antt =====
-- A workspace uses its own pages only.
use omni_flow.Prelude.{
  ◌≡◌, refl, ◌⊎◌, ◌∙◌, inl, inr, String, false, none, some, ◌==◌, string_eq, Bool-cases,
  Option-cases,
}
use omni_flow.TextOps.{TextOps}
use omni_flow.Store.{ConnectedAccount, Database, default_tenant_id}
use omni_flow.Store.Accounts.{AccountView, get_connected_account}
use omni_flow.Services.Isolation.{IsOwn, get_connected_account-IsOwn}
use omni_flow.FacebookPages.{SharedPage, chosen_account, facebook_credentials}

chosen-IsOwn :
    (ops : TextOps) (tenant page_id : String) (db : Database) (v : AccountView)
    → chosen_account ops tenant page_id db ≡ some v
    → IsOwn ops tenant "meta" db v.account
unfolding chosen_account
chosen-IsOwn ops tenant page_id db v h = elim (Bool-cases (page_id == "")) [
  | inl any ↦ get_connected_account-IsOwn ops "meta" tenant none db v (rw any at h)
  | inr one ↦ elim (Option-cases (get_connected_account ops none "meta" tenant (some page_id) db)) [
    | inl missing ↦
        let e = rw one at h in
        get_connected_account-IsOwn ops "meta" tenant none db v (rw missing at e)
    | inr (w, found) ↦
        let e = rw one at h in
        get_connected_account-IsOwn ops "meta" tenant (some page_id) db v (found ∙ rw found at e)
  ]
]

-- Any workspace but the shared one gets a token only from one of its own rows, with the page of that
-- row, whatever page is asked for and whatever the environment holds.
pub facebook_credentials-IsOwn :
    (ops : TextOps) (shared : SharedPage) (tenant page_id : String) (db : Database)
    → (tenant == default_tenant_id) ≡ false
    → let (page, token) = facebook_credentials ops shared tenant page_id db in
      ((page ≡ page_id) × (token ≡ none))
      ⊎ ((r : ConnectedAccount) × IsOwn ops tenant "meta" db r
          × (page ≡ r.account_id)
          × (token ≡ some r.access_token))
unfolding facebook_credentials
facebook_credentials-IsOwn ops shared tenant page_id db other =
    rw (other, facebook_credentials)
      (elim (Option-cases (chosen_account ops tenant page_id db)) [
        | inl missing ↦ rw missing (inl (refl, refl))
        | inr (v, found) ↦
            rw found (inr (v.account, chosen-IsOwn ops tenant page_id db v found, refl, refl))
      ])
