-- ===== src/PageWebhook/Owners.antt =====
-- The workspaces that get the comments of a page.
use omni_flow.Prelude.{
  ◌≡◌, refl, sym, ap, ◌∙◌, inl, inr, arith, String, Bool, true, false, List, [], ◌∷◌, ◌==◌, ==_iff,
  ==_refl, string_eq, pair_eq, ◌&&◌, ◌||◌, if◌then◌else◌, Bool-cases, is_some, map, ltb,
}
use omni_flow.TextOps.{TextOps}
use omni_flow.Sql.Rows.{is_some-find}
use omni_flow.Sql.Order.{rowcount-select, rowcount-order_by}
use omni_flow.Sql.{select, find, insert_ordered, order_by}
use omni_flow.Store.{default_tenant_id, ConnectedAccount, Database}
use omni_flow.Store.Accounts.{AccountView, newer, account_view, list_connected_accounts_any_tenant}
use omni_flow.PageWebhook.{
  WebOps, WebhookSettings, has_tenant, add_tenant, distinct, before_text, tenant_of,
  tenants_for_page,
}

-- A row that makes a page one of a workspace's connected channels.
abbrev pub connects : TextOps → String → String → ConnectedAccount → Bool
connects ops tenant page r =
    (r.platform == ops.lower "meta" && r.account_id == page)
    && (r.status == "connected" && r.tenant_id == tenant)

abbrev pub owns_page : TextOps → WebhookSettings → String → String → Database → Bool
owns_page ops settings tenant page db =
    is_some (find (connects ops tenant page) db.connected_accounts)
    || page == settings.facebook_page && default_tenant_id == tenant

has-add :
    (t s : String) (l : List String) → has_tenant t (add_tenant s l) ≡ (s == t || has_tenant t l)
unfolding has_tenant
has-add t s l = elim (Bool-cases (has_tenant s l)) [
  | inl there ↦ rw there (elim (Bool-cases (s == t)) [
    | inl same ↦ rw (← (==_iff s t).0 same) (rw there (rw (==_refl s) refl))
    | inr other ↦ rw other refl
  ])
  | inr new ↦ rw new refl
]

has-distinct : (t : String) (l : List String) → has_tenant t (distinct l) ≡ has_tenant t l
unfolding has_tenant distinct
has-distinct t [] = refl
has-distinct t (s ∷ l) = has-add t s (distinct l) ∙ rw (has-distinct t l) refl

has-insert :
    (before : String → String → Bool) (t s : String) (l : List String)
    → has_tenant t (insert_ordered before s l) ≡ (s == t || has_tenant t l)
unfolding has_tenant insert_ordered
has-insert before t s [] = refl
has-insert before t s (u ∷ l) = ground (arith, has-insert before t s l)

has-order_by :
    (before : String → String → Bool) (t : String) (l : List String)
    → has_tenant t (order_by before l) ≡ has_tenant t l
unfolding has_tenant order_by
has-order_by before t [] = refl
has-order_by before t (s ∷ l) =
    has-insert before t s (order_by before l) ∙ rw (has-order_by before t l) refl

has-owners :
    (t : String) (rows : List ConnectedAccount)
    → has_tenant t (
        map tenant_of
          (select (λ (v : AccountView). v.account.status == "connected") (map account_view rows)))
      ≡ is_some (find (λ (r : ConnectedAccount). r.status == "connected" && r.tenant_id == t) rows)
unfolding has_tenant select find account_view
has-owners t [] = refl
has-owners t (r ∷ rows) = ground (arith, has-owners t rows)

has-with_shared :
    (shared : Bool) (l : List String) (t : String)
    → has_tenant t (order_by before_text (if shared then add_tenant default_tenant_id l else l))
      ≡ (has_tenant t l || shared && default_tenant_id == t)
has-with_shared true l t =
    has-order_by before_text t (add_tenant default_tenant_id l)
    ∙ has-add t default_tenant_id l
    ∙ ground arith
has-with_shared false l t = has-order_by before_text t l ∙ ground arith

-- A page belongs to the workspaces that connected it, and the page of the environment to the shared
-- workspace too.
pub tenants_for_page_lem :
    (web : WebOps) (settings : WebhookSettings) (page tenant : String) (db : Database)
    → has_tenant tenant (tenants_for_page web settings page db)
      ≡ owns_page web.ops settings tenant page db
unfolding tenants_for_page list_connected_accounts_any_tenant
tenants_for_page_lem web settings page tenant db =
    let q = λ (r : ConnectedAccount). r.platform == web.ops.lower "meta" && r.account_id == page in
    let g = λ (r : ConnectedAccount). r.status == "connected" && r.tenant_id == tenant in
    let rows = select q db.connected_accounts in
    let owners =
      has-owners tenant (order_by newer rows)
      ∙ is_some-find g (order_by newer rows)
      ∙ ap (ltb 0) (rowcount-order_by newer g rows ∙ rowcount-select q g db.connected_accounts)
      ∙ sym (is_some-find (connects web.ops tenant page) db.connected_accounts) in
    has-with_shared (page == settings.facebook_page)
      (distinct (
        map tenant_of (
          select (λ (v : AccountView). v.account.status == "connected")
            (map account_view (order_by newer rows)))))
      tenant
    ∙ rw
        (has-distinct tenant (
            map tenant_of (
              select (λ (v : AccountView). v.account.status == "connected")
                (map account_view (order_by newer rows))))
          ∙ owners)
        refl
