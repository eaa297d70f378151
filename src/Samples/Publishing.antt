-- ===== src/Samples/Publishing.antt =====
-- Publishing and scheduling in the sample workspace.
use omni_flow.Prelude.{
  ◌≡◌, refl, String, true, false, none, some, List, [], ◌∷◌, ◌==◌, string_eq, All, length,
}
use omni_flow.Sql.{find, lookup}
use omni_flow.Schemas.{PublishTask}
use omni_flow.Store.Drafts.{get_draft}
use omni_flow.Store.{Database}
use omni_flow.FacebookPages.{SharedPage}
use omni_flow.Publishing.{
  PublishRequest, PhotoReply, Publishing, tasks_made, draft_for, gather, schedule_publish,
}
use omni_flow.Publishing.Apart.{schedule_publish-IsApart}
use omni_flow.Store.Tasks.Apart.{IsApart}
use omni_flow.Publishing.Later.{scheduled_for_later}
use omni_flow.Publishing.Saved.{IsWaiting}
use omni_flow.Samples.World.{plain_text, tally, tally_inj, answering, draft, database, start_of_day}

abbrev shared : SharedPage
shared = record { env_page = "9"; env_token = "t"; page_token = λ p. ""; client_token = "" }

abbrev posted : PhotoReply
posted = record { success = true; id = "42"; mode = none; error = none }

abbrev site : Publishing
site = record {
  ops = plain_text;
  gateway = answering;
  shared = shared;
  photo = λ caption page token. posted;
}

abbrev request : PublishRequest
request = record {
  content_draft_ids = "draft-1" ∷ "draft-1" ∷ [];
  publish_now = false;
  scheduled_at = some start_of_day;
  campaign_id = "";
  channel = "instagram";
  image_base64 = "";
  copy_text = "New";
  caption = "";
  page_id = "";
  media_links = [];
}

abbrev shop : String
shop = "shop"

abbrev other : String
other = "other"

two_workspaces : (shop == other) ≡ false
two_workspaces = refl

schedule_publish-IsApart_example :
    IsApart "other" database (schedule_publish site tally start_of_day "shop" request 2 database).1
schedule_publish-IsApart_example =
    schedule_publish-IsApart site tally start_of_day "shop" request "other" two_workspaces 2
      database

abbrev no_posts : Database
no_posts = record database { tasks = [] }

edited :
    gather site tally start_of_day "shop" request 2 request.content_draft_ids no_posts
    ≡ (some (record draft { body = "New" } ∷ record draft { body = "New" } ∷ []), no_posts)
unfolding gather draft_for get_draft find
edited = refl

scheduled_for_later_example :
    let (answer, db') = schedule_publish site tally start_of_day "shop" request 2 no_posts in
    (tasks : List PublishTask) × (answer ≡ tasks_made tasks)
    × (length tasks ≡ 2)
    × All (IsWaiting site tally start_of_day "shop" request db') tasks
unfolding lookup
scheduled_for_later_example =
    scheduled_for_later site tally start_of_day "shop" request 2 no_posts no_posts
      (record draft { body = "New" } ∷ record draft { body = "New" } ∷ []) refl refl edited
      tally_inj (λ m le. refl)
