-- ===== src/Store/Subscriptions.antt =====
-- db/sqlite_store.py, the subscription and upgrade-request methods. `now` is the call's `utcnow()`
-- and `uid` its `uuid4()`.
use omni_flow.Prelude.{
  ℕ, String, Bool, true, leb, Option, none, some, List, [], ◌∷◌, ◌++◌, ◌==◌, ◌&&◌, string_eq,
  if◌then◌else◌,
}
use omni_flow.Sql.{select, update, rowcount, lookup, insert_or_ignore, upsert, order_by}
use omni_flow.Store.{Moment, Subscription, UpgradeRequest, Database}

unfoldable pub get_subscription : String → Database → Option Subscription
get_subscription tenant db = lookup (λ s. s.tenant_id) tenant db.subscriptions

-- The values of one row, and what ON CONFLICT takes over from them.
abbrev pub subscription_row :
    String → Moment → String → String → String → String → Option Moment → Subscription
subscription_row uid now tenant plan cycle status end = record {
  id = uid;
  tenant_id = tenant;
  plan = plan;
  billing_cycle = cycle;
  status = status;
  current_period_end = end;
  created_at = now;
  updated_at = now;
}

abbrev pub take_over : Subscription → Subscription → Subscription
take_over excluded stored = record stored {
  plan = excluded.plan;
  billing_cycle = excluded.billing_cycle;
  status = excluded.status;
  current_period_end = excluded.current_period_end;
  updated_at = excluded.updated_at;
}

-- The new database; the method then returns `get_subscription` of it.
unfoldable pub ensure_subscription : Subscription → Database → Database
ensure_subscription row db = record db {
  subscriptions = insert_or_ignore (λ s. s.tenant_id) row db.subscriptions;
}

unfoldable pub save_subscription : Subscription → Database → Database
save_subscription row db = record db {
  subscriptions = upsert (λ s. s.tenant_id) row (take_over row) db.subscriptions;
}

-- `request.get("status") or "pending"`, with a missing status as the empty text.
unfoldable pub save_upgrade_request :
    String
    → Moment
    → String
    → Option String
    → String
    → String
    → String
    → Database
    → UpgradeRequest × Database
save_upgrade_request uid now tenant user plan cycle status db =
    let row : UpgradeRequest = record {
      id = uid;
      tenant_id = tenant;
      user_id = user;
      plan = plan;
      billing_cycle = cycle;
      status = if status == "" then "pending" else status;
      created_at = now;
      updated_at = now;
    } in
    (row, record db { upgrade_requests = db.upgrade_requests ++ row ∷ [] })

abbrev pub is_request_of : String → String → UpgradeRequest → Bool
is_request_of tenant status r = r.tenant_id == tenant && r.status == status

-- `AND status = ?`, if a status is given.
abbrev status_fits : Option String → UpgradeRequest → Bool
status_fits none r = true
status_fits (some status) r = if status == "" then true else r.status == status

unfoldable pub list_upgrade_requests : String → Option String → Database → List UpgradeRequest
unfolding order_by
list_upgrade_requests tenant status db =
    order_by (λ r s. leb s.created_at r.created_at)
      (select (λ r. r.tenant_id == tenant && status_fits status r) db.upgrade_requests)

unfoldable pub list_upgrade_requests_any_tenant : Option String → Database → List UpgradeRequest
unfolding order_by
list_upgrade_requests_any_tenant status db =
    order_by (λ r s. leb r.created_at s.created_at)
      (select (status_fits status) db.upgrade_requests)

-- The new database and how many rows changed.
unfoldable pub set_upgrade_requests_status :
    Moment → String → String → String → Database → ℕ × Database
set_upgrade_requests_status now status tenant from db = (
  rowcount (is_request_of tenant from) db.upgrade_requests,
  record db {
    upgrade_requests =
        update (is_request_of tenant from) (λ r. record r { status = status; updated_at = now })
          db.upgrade_requests;
  },
)
