-- ===== src/Services.antt =====
-- app/services.py: the credentials that a post is published with.
pub mod Isolation
use omni_flow.Prelude.{
  String, Bool, true, false, Option, none, some, ◌==◌, string_eq, not, if◌then◌else◌,
}
use omni_flow.TextOps.{TextOps}
use omni_flow.Schemas.{PublishTask}
use omni_flow.Store.{default_tenant_id, Database}
use omni_flow.Store.Accounts.{AccountView, get_connected_account}
use omni_flow.Publisher.{Credentials}
use omni_flow.Scheduler.{no_credentials}

abbrev pub isolated_without_page : Credentials
isolated_without_page = record { page_id = none; access_token = none; isolated = true }

abbrev pub page_credentials : Option AccountView → Credentials
page_credentials none = isolated_without_page
page_credentials (some view) =
    if not (view.account.status == "connected") then isolated_without_page else record {
      page_id = some view.account.account_id;
      access_token = some view.account.access_token;
      isolated = true;
    }

unfoldable pub resolve_task_credentials : TextOps → Database → PublishTask → Credentials
resolve_task_credentials ops db task =
    if task.tenant_id == default_tenant_id
    then no_credentials
    else page_credentials (get_connected_account ops none "meta" task.tenant_id none db)
