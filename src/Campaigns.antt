-- ===== src/Campaigns.antt =====
-- agents/planner.py, and what app/main.py does with campaigns. `now` is the moment of a request and
-- `uid` the `uuid4()` of a new campaign. Budgets are floats and are left out.
pub mod Owned
use Prim.Native.String.{String, ◌++◌ as str_append}
use text.Mathlib.Text.{starts_with}
use omni_flow.Prelude.{
  ℕ, Bool, true, false, Option, none, some, List, [], ◌∷◌, ◌==◌, string_eq, ◌||◌, if◌then◌else◌,
}
use omni_flow.TextOps.{TextOps}
use omni_flow.Slugs.{scoped_id}
use omni_flow.Schemas.{
  Platform, meta, instagram, tiktok, x, xiaohongshu, douyin, wechat, platform_value, draft, planned,
  PlatformPlan, Strategy, Campaign,
}
use omni_flow.Store.{Moment, Database}
use omni_flow.Store.Campaigns.{save_campaign, get_campaign, list_campaigns}

-- `PLATFORM_BEST_PRACTICE`, which has every platform: how often a day, and in which formats.
abbrev pub best_practice : Platform → ℕ × List String
best_practice instagram = (1, "reel" ∷ "carousel" ∷ "story" ∷ [])
best_practice meta = (1, "feed" ∷ "reel" ∷ "story" ∷ [])
best_practice tiktok = (1, "short_video" ∷ [])
best_practice x = (2, "text" ∷ "image" ∷ "thread" ∷ [])
best_practice xiaohongshu = (1, "note" ∷ "image" ∷ "short_video" ∷ [])
best_practice douyin = (1, "short_video" ∷ [])
best_practice wechat = (1, "article" ∷ "video" ∷ [])

abbrev pub plan_of : List String → Platform → PlatformPlan
plan_of languages p = record {
  recommended_frequency_per_day = (best_practice p).0;
  formats = (best_practice p).1;
  language_priority = languages;
}

-- `d[key] = value`: a key that is there keeps its place.
unfoldable pub put_plan :
    String → PlatformPlan → List (String × PlatformPlan) → List (String × PlatformPlan)
put_plan key plan [] = (key, plan) ∷ []
put_plan key plan ((k, old) ∷ rest) =
    let later = put_plan key plan rest in if k == key then (key, plan) ∷ rest else (k, old) ∷ later

unfoldable pub platform_plans :
    List String → List Platform → List (String × PlatformPlan) → List (String × PlatformPlan)
unfolding put_plan
platform_plans languages [] plans = plans
platform_plans languages (p ∷ platforms) plans =
    platform_plans languages platforms (put_plan (platform_value p) (plan_of languages p) plans)

-- `word in s`
unfoldable pub contains : String → String → Bool
contains String.[] word = word == ""
contains (String.◌∷◌ c s) word = starts_with (String.◌∷◌ c s) word || contains s word

unfoldable pub content_pillars : TextOps → String → String → List String
unfolding contains
content_pillars ops objective product =
    let s = ops.lower (str_append objective (str_append " " product)) in
    let base = "education" ∷ "social proof" ∷ "product value" ∷ "community engagement" ∷ [] in
    if contains s "sale" || contains s "sales" || contains s "revenue" || contains s "conversion"
    then "offer & conversion" ∷ base
    else base

unfoldable pub build_strategy : TextOps → Moment → Campaign → Campaign
unfolding platform_plans content_pillars
build_strategy ops now campaign = record campaign {
  strategy = some (record {
    objective = campaign.objective;
    platform_plan = platform_plans campaign.languages campaign.platforms [];
    content_pillars = content_pillars ops campaign.objective campaign.product_description;
    measurement = "views" ∷ "engagement_rate" ∷ "clicks" ∷ "followers_gained" ∷ "spend" ∷ [];
  });
  status = planned;
  updated_at = now;
}

-- The fields of `CampaignCreate` that the model has.
pub record CampaignCreate : Type 0 where
  pub name : String
  pub objective : String
  pub platforms : List Platform
  pub languages : List String
  pub product_description : String

abbrev pub default_campaign : CampaignCreate
default_campaign = record {
  name = "Global Growth Campaign";
  objective = "Increase product awareness and conversions across target channels";
  platforms = meta ∷ instagram ∷ tiktok ∷ xiaohongshu ∷ [];
  languages = "en" ∷ [];
  product_description = "A modern cross-border gift and fashion collection";
}

abbrev pub new_campaign : String → Moment → String → CampaignCreate → Campaign
new_campaign id now tenant payload = record {
  id = id;
  tenant_id = tenant;
  name = payload.name;
  objective = payload.objective;
  platforms = payload.platforms;
  languages = payload.languages;
  product_description = payload.product_description;
  status = draft;
  strategy = none;
  created_at = now;
  updated_at = now;
}

module _ (ops : TextOps) (uid : String) (now : Moment) (tenant : String) where
  -- `none` for an exception of the store.
  unfoldable pub create_campaign : CampaignCreate → Database → Option Campaign × Database
  unfolding build_strategy
  create_campaign payload db =
      save_campaign now (build_strategy ops now (new_campaign uid now tenant payload)) db

  abbrev pub newest_or_demo : String → List Campaign → Database → Option Campaign × Database
  newest_or_demo campaign_id [] db =
      let id = scoped_id (if campaign_id == "" then uid else campaign_id) tenant in
      save_campaign now (build_strategy ops now (new_campaign id now tenant default_campaign)) db
  newest_or_demo campaign_id (campaign ∷ rest) db = (some campaign, db)

  abbrev pub requested : String → Database → Option Campaign
  requested campaign_id db = if campaign_id == "" then none else get_campaign campaign_id tenant db

  -- The campaign that is asked for, else the newest, else a new one; no id is the empty text.
  unfoldable pub resolve_campaign : String → Database → Option Campaign × Database
  resolve_campaign campaign_id db = elim (requested campaign_id db) [
    | some campaign ↦ (some campaign, db)
    | none ↦ newest_or_demo campaign_id (list_campaigns tenant db) db
  ]
