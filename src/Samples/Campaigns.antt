-- ===== src/Samples/Campaigns.antt =====
-- A workspace's first campaign.
use omni_flow.Prelude.{◌≡◌, refl, ◌⊎◌, String, some, [], ◌∷◌, string_eq}
use omni_flow.Sql.{find, select, lookup}
use omni_flow.Schemas.{Campaign}
use omni_flow.Store.Campaigns.{is_foreign_campaign, save_campaign, get_campaign, list_campaigns}
use omni_flow.Campaigns.{
  build_strategy, content_pillars, contains, new_campaign, default_campaign, resolve_campaign,
}
use omni_flow.Campaigns.Owned.{resolve_campaign-owned}
use omni_flow.Slugs.{scoped_id}
use omni_flow.Samples.World.{plain_text, database, start_of_day}

abbrev demo : Campaign
demo =
    build_strategy plain_text start_of_day
      (new_campaign (scoped_id "demo" "shop") start_of_day "shop" default_campaign)

demo_made : (resolve_campaign plain_text "c-1" start_of_day "shop" "demo" database).0 ≡ some demo
unfolding resolve_campaign save_campaign get_campaign list_campaigns find lookup is_foreign_campaign
    build_strategy select
demo_made = refl

resolve_campaign-owned_example :
    (demo.tenant_id ≡ "shop")
    × (((resolve_campaign plain_text "c-1" start_of_day "shop" "demo" database).1 ≡ database)
        ⊎ (list_campaigns "shop" database ≡ []))
resolve_campaign-owned_example =
    resolve_campaign-owned plain_text "c-1" start_of_day "shop" "demo" database demo demo_made

abbrev sale : String
sale = "summer sale"

-- Runs.
sale_first :
    content_pillars plain_text sale "shoes"
    ≡ "offer & conversion" ∷ "education" ∷ "social proof" ∷ "product value" ∷ "community engagement"
      ∷ []
unfolding content_pillars contains
sale_first = refl
