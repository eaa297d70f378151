-- ===== src/Publisher.antt =====
-- agents/publisher.py: drafts become tasks, and a task is driven to `published` or `failed`. The
-- platform clients are the parameter `gateway`: what they return, or the text of what they raise.
pub mod Adapters
unfoldable pub use Adapters.*
pub mod Truthful
use Prim.Native.String.{◌++◌ as str_append, slice}
use package.text.Mathlib.Text.{starts_with}
use omni_flow.Prelude.{
  ℕ, suc, String, Bool, true, false, Option, none, some, List, [], ◌∷◌, ◌++◌, ◌==◌, ◌&&◌, ◌||◌, not,
  string_eq, if◌then◌else◌, is_some, map,
}
use omni_flow.Schemas.{
  Platform, meta, instagram, tiktok, x, xiaohongshu, douyin, wechat, platform_value, PublishStatus,
  scheduled, publishing, published, failed, PublishLog, PublishTask, ContentDraft,
}
use omni_flow.Store.{Moment}

unfoldable pub create_task : String → Bool → Option Moment → ContentDraft → PublishTask
create_task uid publish_now at draft = record {
  id = uid;
  tenant_id = draft.tenant_id;
  campaign_id = draft.campaign_id;
  content_draft_id = draft.id;
  platform = draft.platform;
  status = if publish_now then publishing else scheduled;
  scheduled_at = if publish_now then none else if is_some at then at else draft.scheduled_at;
  published_at = none;
  external_post_id = none;
  post_url = none;
  confirmation_badge = none;
  image_base64 = none;
  error = none;
  attempts = 0;
  updated_at = none;
  logs = record { level = "INFO"; message = "Task created"; mode = none } ∷ [];
}

unfoldable pub create_tasks :
    (ℕ → String) → ℕ → Bool → Option Moment → List ContentDraft → List PublishTask
unfolding create_task
create_tasks uid n publish_now at [] = []
create_tasks uid n publish_now at (draft ∷ drafts) =
    create_task (uid n) publish_now at draft ∷ create_tasks uid (suc n) publish_now at drafts

abbrev pub failed_badge : String
failed_badge = "Publish Failed 🔴"

-- The task after an adapter raised, failed, or succeeded.
unfoldable pub after_raise : String → PublishTask → PublishTask
after_raise e task =
    append_log "ERROR" "Publish failed with an unexpected error" none
      (record task { status = failed; error = some e; confirmation_badge = some failed_badge })

unfoldable pub after_failure : PublishResult → PublishTask → PublishTask
after_failure result task = append_log "ERROR" "Publish failed" result.mode (record task {
  status = failed;
  error = some (text_or result.error "Publish failed");
  confirmation_badge = some (text_or result.confirmation_badge failed_badge);
})

abbrev pub is_live_facebook : PublishResult → Bool
is_live_facebook result = elim result.mode [ none ↦ false | some m ↦ m == "live_facebook" ]

unfoldable pub after_success : Moment → PublishResult → PublishTask → PublishTask
after_success now result task =
    let post_id = text_or (or_text result.external_post_id result.id) (
      str_append "pub-"
        (str_append (platform_value task.platform) (str_append "-" (short task.id)))) in
    append_log "INFO"
      (if is_live_facebook result then "Publish succeeded" else "Publish completed (simulated)")
      result.mode
      (record task {
        status = published;
        published_at = some now;
        error = if is_text_given result.error then result.error else none;
        external_post_id = some post_id;
        post_url =
            if is_text_given result.post_url
            then result.post_url
            else if is_live_facebook result
            then some (str_append "https://www.facebook.com/" post_id)
            else task.post_url;
        confirmation_badge =
            if is_text_given result.confirmation_badge
            then result.confirmation_badge
            else task.confirmation_badge;
      })

unfoldable pub conclude : Moment → Attempt PublishResult → PublishTask → PublishTask
unfolding after_raise after_failure after_success
conclude now (raised e) task = after_raise e task
conclude now (returned result) task =
    if result.failed then after_failure result task else after_success now result task

abbrev pub start : PublishTask → PublishTask
start task = append_log "INFO" "Publishing started" none (record task { status = publishing })

unfoldable pub publish : Gateway → Moment → PublishTask → ContentDraft → Credentials → PublishTask
unfolding adapter conclude
publish gateway now task draft creds =
    let image = or_text task.image_base64 draft.image_base64 in
    conclude now (adapter gateway task.platform draft image creds) (start task)
