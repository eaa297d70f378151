-- ===== src/Store/Accounts.antt =====
-- db/sqlite_store.py, the connected accounts. `now` is the call's `utcnow()` and `uid` its `uuid4()`.
pub mod Channels
pub mod Saved
use Prim.Native.String.{◌++◌ as str_append, slice, len}
use mathlib.Core.Option
use omni_flow.Prelude.{
  ℕ, ◌-◌, String, Bool, true, Option, none, some, List, [], ◌∷◌, ◌++◌, ◌==◌, ◌&&◌, ◌||◌, string_eq,
  if◌then◌else◌, ltb, leb, map,
}
use omni_flow.TextOps.{TextOps}
use omni_flow.Sql.{select, find, update, delete, rowcount, order_by}
use omni_flow.Store.{Moment, ConnectedAccount, Database}

-- Of a token of single-byte characters.
unfoldable pub mask_token : String → String
mask_token token =
    if ltb 10 (len token)
    then str_append (slice token 0 6) (str_append "..." (slice token (len token - 4) (len token)))
    else "***"

-- A row as the methods return it.
pub record AccountView : Type 0 where
  pub account : ConnectedAccount
  pub masked_token : String

unfoldable pub account_view : ConnectedAccount → AccountView
unfolding mask_token
account_view row = record { account = row; masked_token = mask_token row.access_token }

-- `ORDER BY updated_at DESC`
abbrev pub newer : ConnectedAccount → ConnectedAccount → Bool
newer r s = leb s.updated_at r.updated_at

-- `AND (user_id = ? OR user_id = 'global')`, and `AND account_id = ?`, where a value is given.
abbrev pub user_fits : Option String → ConnectedAccount → Bool
user_fits none r = true
user_fits (some user) r = r.user_id == user || r.user_id == "global"

abbrev pub account_fits : Option String → ConnectedAccount → Bool
account_fits none r = true
account_fits (some account) r = r.account_id == account

abbrev pub head : List ConnectedAccount → Option ConnectedAccount
head [] = none
head (r ∷ _) = some r

-- `permissions or [...]`
abbrev permissions_or_default : List String → List String
permissions_or_default [] = "publish_posts" ∷ "read_insights" ∷ []
permissions_or_default permissions = permissions

abbrev pub account_row :
    String
    → Moment
    → String
    → String
    → String
    → String
    → String
    → String
    → String
    → List String
    → ConnectedAccount
account_row uid now tenant user platform account name token status permissions = record {
  id = uid;
  user_id = user;
  platform = platform;
  account_id = account;
  account_name = name;
  access_token = token;
  status = status;
  permissions = permissions_or_default permissions;
  updated_at = now;
  created_at = now;
  tenant_id = tenant;
}

-- SET …: the columns that a refreshed account takes over.
abbrev pub refresh : ConnectedAccount → ConnectedAccount → ConnectedAccount
refresh row stored = record stored {
  user_id = row.user_id;
  account_name = row.account_name;
  access_token = row.access_token;
  status = row.status;
  permissions = row.permissions;
  updated_at = row.updated_at;
}

abbrev pub is_channel : String → String → String → ConnectedAccount → Bool
is_channel tenant platform account r =
    r.tenant_id == tenant && r.platform == platform && r.account_id == account

unfoldable pub put_account : ConnectedAccount → List ConnectedAccount → List ConnectedAccount
put_account row rows = elim (find (is_channel row.tenant_id row.platform row.account_id) rows) [
  | none ↦ rows ++ row ∷ []
  | some stored ↦ update (λ r. r.id == stored.id && r.tenant_id == row.tenant_id) (refresh row) rows
]

module _ (ops : TextOps) where
  unfoldable pub get_connected_account :
      Option String → String → String → Option String → Database → Option AccountView
  unfolding account_view order_by
  get_connected_account user platform tenant account db = Option.map account_view (
      head (
        order_by newer (
          select
            (λ r.
              r.tenant_id == tenant
              && r.platform == ops.lower platform
              && user_fits user r
              && account_fits account r)
            db.connected_accounts)))

  unfoldable pub save_connected_account :
      String
      → Moment
      → String
      → String
      → String
      → String
      → String
      → String
      → String
      → List String
      → Database
      → Option AccountView × Database
  unfolding put_account get_connected_account
  save_connected_account uid now tenant user platform account name token status permissions db =
      let row =
        account_row uid now tenant user (ops.lower platform) account name token status
          permissions in
      let db' = record db { connected_accounts = put_account row db.connected_accounts } in
      (get_connected_account (some user) (ops.lower platform) tenant (some account) db', db')

  unfoldable pub delete_connected_accounts_for_platform : String → String → Database → ℕ × Database
  delete_connected_accounts_for_platform platform tenant db =
      let at =
        λ (r : ConnectedAccount). r.tenant_id == tenant && r.platform == ops.lower platform in
      (
        rowcount at db.connected_accounts,
        record db { connected_accounts = delete at db.connected_accounts },
      )

  unfoldable pub list_connected_accounts_any_tenant : String → String → Database → List AccountView
  unfolding account_view order_by
  list_connected_accounts_any_tenant platform account db = map account_view (
      order_by newer (
        select (λ r. r.platform == ops.lower platform && r.account_id == account)
          db.connected_accounts))

unfoldable pub list_connected_accounts : Option String → String → Database → List AccountView
unfolding account_view order_by
list_connected_accounts user tenant db =
    map account_view (
      order_by newer
        (select (λ r. r.tenant_id == tenant && user_fits user r) db.connected_accounts))

unfoldable pub delete_connected_account : String → String → Database → Bool × Database
delete_connected_account id tenant db =
    let at = λ (r : ConnectedAccount). r.id == id && r.tenant_id == tenant in
    (
      ltb 0 (rowcount at db.connected_accounts),
      record db { connected_accounts = delete at db.connected_accounts },
    )
