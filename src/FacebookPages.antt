-- ===== src/FacebookPages.antt =====
-- app/main.py, `_facebook_credentials`: the page and token that a workspace publishes to Facebook with
-- directly. `shared` is what the environment and the publisher's client give the shared workspace.
pub mod Own
use mathlib.Core.Option
use omni_flow.Prelude.{
  String, Bool, true, false, Option, none, some, ◌==◌, string_eq, not, if◌then◌else◌,
}
use omni_flow.TextOps.{TextOps}
use omni_flow.Store.{default_tenant_id, Database}
use omni_flow.Store.Accounts.{AccountView, get_connected_account}

-- What the environment and the client hold: FACEBOOK_PAGE_ID, FACEBOOK_PAGE_ACCESS_TOKEN,
-- `resolve_page_token` and `access_token`, where the empty text is none.
pub record SharedPage : Type 0 where
  pub env_page : String
  pub env_token : String
  pub page_token : String → String
  pub client_token : String

abbrev or_text : String → String → String
or_text s t = if s == "" then t else s

abbrev pub token_or_none : String → Option String
token_or_none s = if s == "" then none else some s

unfoldable pub shared_credentials : SharedPage → String → String × Option String
shared_credentials shared page_id =
    let page = or_text page_id shared.env_page in
    (
      page,
      token_or_none
          (or_text shared.env_token (or_text (shared.page_token page) shared.client_token)),
    )

-- The account of the page that is asked for, if one is; else the newest of the workspace.
unfoldable pub chosen_account : TextOps → String → String → Database → Option AccountView
chosen_account ops tenant page_id db =
    let newest = get_connected_account ops none "meta" tenant none db in
    if page_id == ""
    then newest
    else elim (get_connected_account ops none "meta" tenant (some page_id) db) [
      | some view ↦ some view
      | none ↦ newest
    ]

-- A page that is not given is the empty text.
unfoldable pub facebook_credentials :
    TextOps → SharedPage → String → String → Database → String × Option String
unfolding shared_credentials chosen_account
facebook_credentials ops shared tenant page_id db =
    if tenant == default_tenant_id
    then shared_credentials shared page_id
    else elim (chosen_account ops tenant page_id db) [
      | none ↦ (page_id, none)
      | some view ↦ (view.account.account_id, some view.account.access_token)
    ]
