-- ===== src/Schemas.antt =====
-- models/schemas.py: the enumerations and the records that the scheduler and the publisher pass on.
use omni_flow.Prelude.{ℕ, String, Bool, true, false, Option, List, if◌then◌else◌, ◌==◌, string_eq}

pub data Platform : Type 0 where
  meta instagram tiktok x xiaohongshu douyin wechat : Platform

pub data PublishStatus : Type 0 where
  scheduled publishing published failed cancelled : PublishStatus

pub Platform-discrete : Discrete Platform
Platform-discrete = hlevel

-- The values of `class Platform(str, Enum)`.
abbrev pub platform_value : Platform → String
platform_value meta = "meta"
platform_value instagram = "instagram"
platform_value tiktok = "tiktok"
platform_value x = "x"
platform_value xiaohongshu = "xiaohongshu"
platform_value douyin = "douyin"
platform_value wechat = "wechat"

-- `mapping.get(s, Platform.META)`, on the stripped and lowered text.
unfoldable pub normalize_platform : String → Platform
normalize_platform s =
    if s == "facebook"
    then meta
    else if s == "meta"
    then meta
    else if s == "instagram"
    then instagram
    else if s == "ig"
    then instagram
    else if s == "tiktok"
    then tiktok
    else if s == "x"
    then x
    else if s == "twitter"
    then x
    else if s == "xiaohongshu"
    then xiaohongshu
    else if s == "red"
    then xiaohongshu
    else if s == "douyin"
    then douyin
    else if s == "wechat"
    then wechat
    else if s == "weixin"
    then wechat
    else meta

abbrev pub status_eq : PublishStatus → PublishStatus → Bool
status_eq scheduled scheduled = true
status_eq publishing publishing = true
status_eq published published = true
status_eq failed failed = true
status_eq cancelled cancelled = true
status_eq _ _ = false

-- `data` of a log entry, as far as it is read back: the scheduler reads `mode`.
pub record PublishLog : Type 0 where
  pub level : String
  pub message : String
  pub mode : Option String

pub record PublishTask : Type 0 where
  pub id : String
  pub tenant_id : String
  pub campaign_id : String
  pub content_draft_id : String
  pub platform : Platform
  pub status : PublishStatus
  pub scheduled_at : Option ℕ
  pub published_at : Option ℕ
  pub external_post_id : Option String
  pub post_url : Option String
  pub confirmation_badge : Option String
  pub image_base64 : Option String
  pub error : Option String
  pub attempts : ℕ
  pub updated_at : Option ℕ
  pub logs : List PublishLog

-- Its `metadata`, a free dictionary, is left out.
pub record ContentDraft : Type 0 where
  pub id : String
  pub tenant_id : String
  pub campaign_id : String
  pub platform : Platform
  pub language : String
  pub title : Option String
  pub body : String
  pub hashtags : List String
  pub media_links : List String
  pub image_base64 : Option String
  pub call_to_action : Option String
  pub scheduled_at : Option ℕ
  pub created_at : ℕ

pub data CampaignStatus : Type 0 where
  draft planned active completed paused : CampaignStatus

-- What `build_strategy` plans for one platform; the target audience, which it copies, is left out.
pub record PlatformPlan : Type 0 where
  pub recommended_frequency_per_day : ℕ
  pub formats : List String
  pub language_priority : List String

-- Its `budget_allocation`, in floats, is left out.
pub record Strategy : Type 0 where
  pub objective : String
  pub platform_plan : List (String × PlatformPlan)
  pub content_pillars : List String
  pub measurement : List String

-- The schedule window, the audience and the budget are left out; `strategy` is `none` for the empty
-- dictionary of a new campaign.
pub record Campaign : Type 0 where
  pub id : String
  pub tenant_id : String
  pub name : String
  pub objective : String
  pub platforms : List Platform
  pub languages : List String
  pub product_description : String
  pub status : CampaignStatus
  pub strategy : Option Strategy
  pub created_at : ℕ
  pub updated_at : ℕ
