-- ===== src/Publishing.antt =====
-- app/main.py, the route `/publish/schedule` with `_publish_direct_photo`. `now` is the moment of a
-- request and `uid` gives the `uuid4()` of the rows that are made, by their place; a field of the
-- request that is not given is the empty text.
pub mod Apart
pub mod Later
pub mod Saved
use Prim.Native.String.{◌++◌ as str_append}
use omni_flow.Prelude.{
  ℕ, suc, String, Bool, true, false, Option, none, some, List, [], ◌∷◌, ◌==◌, string_eq, ◌&&◌, not,
  if◌then◌else◌,
}
use omni_flow.TextOps.{TextOps}
use omni_flow.Slugs.{scoped_id}
use omni_flow.Schemas.{
  Platform, meta, published, PublishLog, PublishTask, ContentDraft, Campaign, normalize_platform,
}
use omni_flow.Store.{Moment, Database}
use omni_flow.Store.Campaigns.{list_campaigns}
use omni_flow.Store.Drafts.{get_draft, list_drafts, save_draft}
use omni_flow.Store.Tasks.{save_task}
use omni_flow.Publisher.{Gateway, Credentials, create_tasks, publish}
use omni_flow.Services.{resolve_task_credentials}
use omni_flow.FacebookPages.{SharedPage, facebook_credentials}

pub record PublishRequest : Type 0 where
  pub content_draft_ids : List String
  pub publish_now : Bool
  pub scheduled_at : Option Moment
  pub campaign_id : String
  pub channel : String
  pub image_base64 : String
  pub copy_text : String
  pub caption : String
  pub page_id : String
  pub media_links : List String

-- What the Graph API client answers for a photo or a post: the id is `post_id or id`.
pub record PhotoReply : Type 0 where
  pub success : Bool
  pub id : String
  pub mode : Option String
  pub error : Option String

pub data PublishAnswer : Type 0 where
  photo_posted : (id url : String) → PublishAnswer
  photo_refused : (error : String) (token_expired : Bool) → PublishAnswer
  tasks_made : List PublishTask → PublishAnswer
  internal_error : PublishAnswer

abbrev or_else : String → String → String
or_else s t = if s == "" then t else s

abbrev first_or : List String → String → String
first_or [] default = default
first_or (id ∷ ids) default = id

abbrev is_mode : Option String → String → Bool
is_mode none s = false
is_mode (some t) s = t == s

abbrev error_or : Option String → String → String
error_or none default = default
error_or (some s) default = or_else s default

-- The environment of the route: the Graph API client posts a caption to a page with a token.
pub record Publishing : Type 0 where
  pub ops : TextOps
  pub gateway : Gateway
  pub shared : SharedPage
  pub photo : String → String → Option String → PhotoReply

module _ (site : Publishing) (uid : ℕ → String) (now : Moment) (tenant : String)
    (payload : PublishRequest) where
  open site use {ops, gateway, shared, photo}

  abbrev pub direct_task : String → PublishTask
  direct_task id = record {
    id = uid 0;
    tenant_id = tenant;
    campaign_id = or_else payload.campaign_id "direct-facebook";
    content_draft_id = first_or payload.content_draft_ids "direct-fb";
    platform = meta;
    status = published;
    scheduled_at = none;
    published_at = some now;
    external_post_id = some id;
    post_url = some (str_append "https://facebook.com/" id);
    confirmation_badge = some "Published to Facebook 🟢";
    image_base64 = none;
    error = none;
    attempts = 0;
    updated_at = none;
    logs = record { level = "INFO"; message = "Photo published to Facebook"; mode = none } ∷ [];
  }

  abbrev pub as_posted : String → Option PublishTask × Database → PublishAnswer × Database
  as_posted id (none, db) = (internal_error, db)
  as_posted id (some task, db) = (photo_posted id (str_append "https://facebook.com/" id), db)

  abbrev pub after_photo : PhotoReply → Database → PublishAnswer × Database
  after_photo reply db =
      if reply.success then as_posted reply.id (save_task now (direct_task reply.id) db) else (
        photo_refused (error_or reply.error "Facebook publish failed")
            (is_mode reply.mode "token_expired"),
        db,
      )

  -- `_publish_direct_photo`; an empty caption does not come here.
  unfoldable pub publish_direct_photo : Database → PublishAnswer × Database
  publish_direct_photo db =
      let (page, token) = facebook_credentials ops shared tenant payload.page_id db in
      after_photo (photo payload.caption page token) db

  -- A draft for an id that is not there, in a workspace without drafts.
  abbrev pub campaign_for_draft : List Campaign → String
  campaign_for_draft [] = scoped_id "demo-campaign" tenant
  campaign_for_draft (campaign ∷ rest) = campaign.id

  abbrev pub new_draft : ℕ → String → Database → ContentDraft
  new_draft n draft_id db = record {
    id =
        scoped_id (if not (draft_id == "") && not (draft_id == "string") then draft_id else uid n)
          tenant;
    tenant_id = tenant;
    campaign_id = campaign_for_draft (list_campaigns tenant db);
    platform = meta;
    language = "en";
    title = some "Product Launch Showcase";
    body =
        or_else payload.copy_text
          "Discover modern craftsmanship and high-performance design engineered for global lifestyles.";
    hashtags = "#digitalmarketing" ∷ "#brand" ∷ "#content" ∷ "#innovation" ∷ [];
    media_links = [];
    image_base64 = if payload.image_base64 == "" then none else some payload.image_base64;
    call_to_action = some "Explore Collection";
    scheduled_at = none;
    created_at = now;
  }

  abbrev pub newest_or_new :
      ℕ → String → List ContentDraft → Database → Option ContentDraft × Database
  newest_or_new n draft_id [] db = save_draft (new_draft n draft_id db) db
  newest_or_new n draft_id (draft ∷ rest) db = (some draft, db)

  -- The draft of an id: that one, the workspace's newest, or a new one.
  unfoldable pub draft_for : ℕ → String → Database → Option ContentDraft × Database
  draft_for n draft_id db = elim (get_draft draft_id tenant db) [
    | some draft ↦ (some draft, db)
    | none ↦ newest_or_new n draft_id (list_drafts tenant db) db
  ]

  -- The fields of the request that replace those of a draft.
  abbrev pub with_copy : ContentDraft → ContentDraft
  with_copy d = if payload.copy_text == "" then d else record d { body = payload.copy_text }

  abbrev pub with_image : ContentDraft → ContentDraft
  with_image d =
      if payload.image_base64 == ""
      then d
      else record d { image_base64 = some payload.image_base64 }

  abbrev pub with_links : ContentDraft → ContentDraft
  with_links d = elim payload.media_links [
    | [] ↦ d
    | link ∷ links ↦ record d { media_links = link ∷ links }
  ]

  abbrev pub and_more :
      Option ContentDraft → Option (List ContentDraft) → Option (List ContentDraft)
  and_more none rest = none
  and_more (some d) none = none
  and_more (some d) (some drafts) = some (with_links (with_image (with_copy d)) ∷ drafts)

  -- The loop over the ids; `none` for an exception.
  unfoldable pub gather : ℕ → List String → Database → Option (List ContentDraft) × Database
  unfolding draft_for
  gather n [] db = (some [], db)
  gather n (draft_id ∷ ids) db =
      let (found, db') = draft_for n draft_id db in
      let (rest, db'') = gather (suc n) ids db' in
      elim found [ none ↦ (none, db') | some d ↦ (and_more (some d) rest, db'') ]

  -- A task as it is saved first.
  unfoldable pub prepared : PublishTask → PublishTask
  prepared task = record task {
    tenant_id = tenant;
    platform =
        if payload.channel == ""
        then task.platform
        else normalize_platform (ops.lower (ops.strip payload.channel));
    image_base64 =
        if payload.image_base64 == "" then task.image_base64 else some payload.image_base64;
  }

  -- `next((d for d in drafts if d.id == …), drafts[0])`
  abbrev pub draft_of : String → ContentDraft → List ContentDraft → ContentDraft
  draft_of id first [] = first
  draft_of id first (d ∷ drafts) = if d.id == id then d else draft_of id first drafts

  abbrev pub for_channel : PublishTask → ContentDraft → ContentDraft
  for_channel task d =
      let d' = with_copy (with_image d) in
      if payload.channel == "" then d' else record d' { platform = task.platform }

  abbrev pub publish_saved :
      ContentDraft → List ContentDraft → PublishTask → Database → Option PublishTask × Database
  publish_saved first drafts task db =
      let draft = for_channel task (draft_of task.content_draft_id first drafts) in
      save_task now (publish gateway now task draft (resolve_task_credentials ops db task)) db

  abbrev pub after_save :
      ContentDraft
      → List ContentDraft
      → Option PublishTask × Database
      → Option PublishTask × Database
  after_save first drafts (none, db) = (none, db)
  after_save first drafts (some task, db) =
      if payload.publish_now then publish_saved first drafts task db else (some task, db)

  unfoldable pub run_one :
      ContentDraft → List ContentDraft → PublishTask → Database → Option PublishTask × Database
  unfolding prepared
  run_one first drafts task db = after_save first drafts (save_task now (prepared task) db)

  abbrev pub task_and_more :
      PublishTask → Option (List PublishTask) × Database → Option (List PublishTask) × Database
  task_and_more task (none, db) = (none, db)
  task_and_more task (some rest, db) = (some (task ∷ rest), db)

  -- The loop over the tasks.
  unfoldable pub run_tasks :
      ContentDraft
      → List ContentDraft
      → List PublishTask
      → Database
      → Option (List PublishTask) × Database
  unfolding run_one
  run_tasks first drafts [] db = (some [], db)
  run_tasks first drafts (task ∷ tasks) db =
      let (done, db') = run_one first drafts task db in
      let rest = run_tasks first drafts tasks db' in
      elim done [ none ↦ (none, db') | some result ↦ task_and_more result rest ]

  abbrev pub as_answer : Option (List PublishTask) × Database → PublishAnswer × Database
  as_answer (none, db) = (internal_error, db)
  as_answer (some tasks, db) = (tasks_made tasks, db)

  -- With no drafts there are no tasks either.
  abbrev pub after_gather : Option (List ContentDraft) × Database → PublishAnswer × Database
  after_gather (none, db) = (internal_error, db)
  after_gather (some [], db) = (tasks_made [], db)
  after_gather (some (first ∷ rest), db) = as_answer (
      run_tasks first (first ∷ rest)
        (create_tasks uid 0 payload.publish_now payload.scheduled_at (first ∷ rest)) db)

  -- `uid` of a new draft is asked for after those of the tasks, from the number of ids on.
  unfoldable pub schedule_publish : ℕ → Database → PublishAnswer × Database
  unfolding gather run_tasks publish_direct_photo
  schedule_publish drawn db =
      if payload.caption == ""
      then after_gather (gather drawn payload.content_draft_ids db)
      else publish_direct_photo db
