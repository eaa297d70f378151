-- ===== src/Publisher/Adapters.antt =====
-- agents/publisher.py: the adapters, one for each platform, and what they return. The platform clients
-- are the parameter `gateway`: what they return, or the text of what they raise.
use Prim.Native.String.{◌++◌ as str_append, slice}
use package.text.Mathlib.Text.{starts_with}
use omni_flow.Prelude.{
  String, Bool, true, false, Option, none, some, List, [], ◌∷◌, ◌++◌, ◌==◌, ◌&&◌, ◌||◌, not,
  string_eq, if◌then◌else◌,
}
use omni_flow.Schemas.{
  Platform, meta, instagram, tiktok, x, platform_value, PublishTask, ContentDraft,
}

pub data Attempt (A : Type 0) : Type 0 where
  returned : A → Attempt A
  raised : String → Attempt A

-- The dictionary that an adapter returns.
pub record PublishResult : Type 0 where
  pub failed : Bool
  pub id : Option String
  pub external_post_id : Option String
  pub post_url : Option String
  pub confirmation_badge : Option String
  pub mode : Option String
  pub error : Option String

-- What `MetaAPIClient` returns for a Facebook post.
pub record GraphReply : Type 0 where
  pub success : Bool
  pub post_id : String
  pub post_url : Option String
  pub confirmation_badge : Option String
  pub mode : Option String
  pub error : Option String

pub record Gateway : Type 0 where
  pub has_facebook_credentials : Bool
  pub facebook : ContentDraft → Option String → Option String → Option String → Attempt GraphReply
  pub instagram_ready : Bool
  pub create_container : ContentDraft → Attempt (Option String)
  pub publish_media : String → Attempt (Option String)

pub record Credentials : Type 0 where
  pub page_id : Option String
  pub access_token : Option String
  pub isolated : Bool

-- The truth value of an optional text, and `a or b`.
abbrev pub is_text_given : Option String → Bool
is_text_given none = false
is_text_given (some s) = not (s == "")

abbrev pub text_or : Option String → String → String
text_or none d = d
text_or (some s) d = if s == "" then d else s

-- `d.get(key, default)`
abbrev pub get_or : Option String → String → String
get_or none d = d
get_or (some s) d = s

abbrev pub or_text : Option String → Option String → Option String
or_text a b = if is_text_given a then a else b

abbrev pub append_log : String → String → Option String → PublishTask → PublishTask
append_log level message mode task = record task {
  logs = task.logs ++ (record { level = level; message = message; mode = mode } ∷ []);
}

-- `item_id[:8]`, of ids whose characters are single bytes.
abbrev pub short : String → String
short s = slice s 0 8

-- An adapter's answer without a live post, and one that failed.
abbrev pub simulated_result : String → PublishResult
simulated_result id = record {
  failed = false;
  id = some id;
  external_post_id = none;
  post_url = none;
  confirmation_badge = none;
  mode = some "simulated";
  error = none;
}

abbrev pub failed_result : String → String → String → PublishResult
failed_result badge mode error = record {
  failed = true;
  id = none;
  external_post_id = none;
  post_url = none;
  confirmation_badge = some badge;
  mode = some mode;
  error = some error;
}

unfoldable pub publish_placeholder : ContentDraft → PublishResult
publish_placeholder draft = simulated_result (
    str_append "demo-"
      (str_append (platform_value draft.platform) (str_append "-" (short draft.id))))

unfoldable pub publish_rpa_placeholder : ContentDraft → PublishResult
publish_rpa_placeholder draft = simulated_result (
    str_append "demo-rpa-"
      (str_append (platform_value draft.platform) (str_append "-" (short draft.id))))

-- The dictionary made of a Graph API reply.
unfoldable pub facebook_result : GraphReply → PublishResult
facebook_result res =
    if res.success
    then record {
      failed = false;
      id = some res.post_id;
      external_post_id = some res.post_id;
      post_url = some (text_or res.post_url (str_append "https://www.facebook.com/" res.post_id));
      confirmation_badge = some (get_or res.confirmation_badge "Published to Facebook 🟢");
      mode = some "live_facebook";
      error = none;
    }
    else let mode = get_or res.mode "api_error" in
      failed_result
        (text_or res.confirmation_badge
          (if mode == "token_expired" then "Token Expired 🟡" else "Gateway Fallback 🟡"))
        mode (text_or res.error "Facebook publish failed")

abbrev pub missing_credentials : ContentDraft → PublishResult
missing_credentials draft = record {
  failed = false;
  id = some (str_append "demo-meta-" (short draft.id));
  external_post_id = none;
  post_url = none;
  confirmation_badge = some "Credentials Missing 🟡";
  mode = some "simulated";
  error = some "FACEBOOK_PAGE_ID or FACEBOOK_PAGE_ACCESS_TOKEN not found in .env";
}

abbrev pub instagram_result : String → PublishResult
instagram_result id = record {
  failed = false;
  id = some id;
  external_post_id = some id;
  post_url = some (str_append "https://www.instagram.com/p/" id);
  confirmation_badge = some "Published to Instagram 🟢";
  mode = some "live_instagram";
  error = none;
}

abbrev pub first_link_is_http : List String → Bool
first_link_is_http [] = false
first_link_is_http (link ∷ _) = starts_with link "http"

module _ (gateway : Gateway) where
  -- Whether a page and its token are at hand: the caller's, or the process-wide ones unless the
  -- tenant is isolated.
  unfoldable pub has_credentials : Credentials → Bool
  has_credentials creds =
      let own = is_text_given creds.page_id && is_text_given creds.access_token in
      if creds.isolated then own else own || gateway.has_facebook_credentials

  abbrev lift_reply : Attempt GraphReply → Attempt PublishResult
  lift_reply (returned res) = returned (facebook_result res)
  lift_reply (raised e) = raised e

  unfoldable pub publish_facebook :
      ContentDraft → Option String → Credentials → Attempt PublishResult
  unfolding has_credentials facebook_result
  publish_facebook draft image creds =
      if not (has_credentials creds)
      then returned (missing_credentials draft)
      else lift_reply (gateway.facebook draft image creds.page_id creds.access_token)

  -- The published media, named by its own id or by the container's.
  abbrev finish_instagram : String → Attempt (Option String) → PublishResult
  finish_instagram creation_id (returned id) = instagram_result (text_or id creation_id)
  finish_instagram creation_id (raised e) =
      failed_result "Gateway Fallback 🟡" "api_error" (str_append "Instagram API exception: " e)

  abbrev use_container : Attempt (Option String) → PublishResult
  use_container (raised e) =
      failed_result "Gateway Fallback 🟡" "api_error" (str_append "Instagram API exception: " e)
  use_container (returned none) =
      failed_result "Gateway Fallback 🟡" "api_error" "Instagram media container was not created"
  use_container (returned (some creation_id)) =
      if creation_id == ""
      then failed_result "Gateway Fallback 🟡" "api_error"
          "Instagram media container was not created"
      else finish_instagram creation_id (gateway.publish_media creation_id)

  unfoldable pub publish_instagram : ContentDraft → Credentials → PublishResult
  publish_instagram draft creds =
      if not creds.isolated && (gateway.instagram_ready && first_link_is_http draft.media_links)
      then use_container (gateway.create_container draft)
      else simulated_result (str_append "demo-meta-" (short draft.id))

  -- The adapter for the task's platform.
  unfoldable pub adapter :
      Platform → ContentDraft → Option String → Credentials → Attempt PublishResult
  unfolding publish_facebook publish_instagram publish_placeholder publish_rpa_placeholder
  adapter meta draft image creds = publish_facebook draft image creds
  adapter instagram draft image creds = returned (publish_instagram draft creds)
  adapter x draft image creds = returned (publish_placeholder draft)
  adapter tiktok draft image creds = returned (publish_placeholder draft)
  adapter _ draft image creds = returned (publish_rpa_placeholder draft)
