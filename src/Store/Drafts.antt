-- ===== src/Store/Drafts.antt =====
-- db/sqlite_store.py, the drafts. The columns of a new row are those of the draft.
use mathlib.Core.List.{reverse}
use mathlib.Core.Option
use omni_flow.Prelude.{
  String, Bool, false, Option, none, some, List, ◌==◌, ◌&&◌, string_eq, not, if◌then◌else◌, map,
}
use omni_flow.Schemas.{ContentDraft}
use omni_flow.Sql.{select, find, lookup, upsert}
use omni_flow.Store.{DraftRow, Database}
use omni_flow.Store.Tasks.{row_draft}

abbrev pub draft_row : ContentDraft → DraftRow
draft_row item = record {
  id = item.id;
  tenant_id = item.tenant_id;
  campaign_id = item.campaign_id;
  payload = item;
  created_at = item.created_at;
}

-- ON CONFLICT(id) DO UPDATE … WHERE drafts.tenant_id = excluded.tenant_id
abbrev pub overwrite_draft : DraftRow → DraftRow → DraftRow
overwrite_draft excluded stored =
    if stored.tenant_id == excluded.tenant_id
    then record stored { payload = excluded.payload; campaign_id = excluded.campaign_id }
    else stored

unfoldable pub is_foreign_draft : ContentDraft → Database → Bool
is_foreign_draft item db = elim (lookup (λ (r : DraftRow). r.id) item.id db.drafts) [
  | none ↦ false
  | some stored ↦ not (stored.tenant_id == item.tenant_id)
]

-- The saved item, or `none` for the CrossTenantWriteError.
unfoldable pub save_draft : ContentDraft → Database → Option ContentDraft × Database
unfolding is_foreign_draft
save_draft item db = if is_foreign_draft item db then (none, db) else (
  some item,
  record db {
    drafts =
        upsert (λ (r : DraftRow). r.id) (draft_row item) (overwrite_draft (draft_row item))
          db.drafts;
  },
)

unfoldable pub get_draft : String → String → Database → Option ContentDraft
get_draft id tenant db =
    Option.map row_draft (find (λ r. r.id == id && r.tenant_id == tenant) db.drafts)

-- ORDER BY rowid DESC
unfoldable pub list_drafts : String → Database → List ContentDraft
list_drafts tenant db = map row_draft (reverse (select (λ r. r.tenant_id == tenant) db.drafts))
