-- ===== src/Store/Campaigns.antt =====
-- db/sqlite_store.py, the campaigns. `now` is the call's `utcnow()`.
use mathlib.Core.List.{reverse}
use mathlib.Core.Option
use omni_flow.Prelude.{
  String, Bool, false, Option, none, some, List, ◌==◌, ◌&&◌, string_eq, not, if◌then◌else◌, map,
}
use omni_flow.Schemas.{Campaign}
use omni_flow.Sql.{select, find, lookup, upsert}
use omni_flow.Store.{Moment, CampaignRow, Database}

abbrev pub row_campaign : CampaignRow → Campaign
row_campaign row = record row.payload { tenant_id = row.tenant_id }

abbrev pub campaign_row : Moment → Campaign → CampaignRow
campaign_row now item = record {
  id = item.id;
  tenant_id = item.tenant_id;
  payload = record item { updated_at = now };
  created_at = item.created_at;
  updated_at = now;
}

-- ON CONFLICT(id) DO UPDATE … WHERE campaigns.tenant_id = excluded.tenant_id
abbrev pub overwrite_campaign : CampaignRow → CampaignRow → CampaignRow
overwrite_campaign excluded stored =
    if stored.tenant_id == excluded.tenant_id
    then record stored { payload = excluded.payload; updated_at = excluded.updated_at }
    else stored

unfoldable pub is_foreign_campaign : Campaign → Database → Bool
is_foreign_campaign item db = elim (lookup (λ (r : CampaignRow). r.id) item.id db.campaigns) [
  | none ↦ false
  | some stored ↦ not (stored.tenant_id == item.tenant_id)
]

-- The saved item, or `none` for the CrossTenantWriteError.
unfoldable pub save_campaign : Moment → Campaign → Database → Option Campaign × Database
unfolding is_foreign_campaign
save_campaign now item db = if is_foreign_campaign item db then (none, db) else (
  some (record item { updated_at = now }),
  record db {
    campaigns =
        upsert (λ (r : CampaignRow). r.id) (campaign_row now item)
          (overwrite_campaign (campaign_row now item)) db.campaigns;
  },
)

unfoldable pub get_campaign : String → String → Database → Option Campaign
get_campaign id tenant db =
    Option.map row_campaign (find (λ r. r.id == id && r.tenant_id == tenant) db.campaigns)

-- ORDER BY rowid DESC
unfoldable pub list_campaigns : String → Database → List Campaign
list_campaigns tenant db =
    map row_campaign (reverse (select (λ r. r.tenant_id == tenant) db.campaigns))
