-- ===== src/Samples/Pages.antt =====
-- Pages that a workspace connects, and what is reported on them.
use omni_flow.Prelude.{
  ◌≤◌, max, ◌≡◌, refl, ◌⊎◌, String, true, false, none, some, List, [], ◌∷◌, length, ◌==◌, string_eq,
}
use omni_flow.Json.{null, text}
use omni_flow.Json.Doc.{Doc, Fields}
use omni_flow.Sql.{lookup}
use omni_flow.Store.{Database, default_tenant_id, seconds}
use omni_flow.Store.Accounts.{account_row}
use omni_flow.Store.Comments.{CommentInput}
use omni_flow.Security.{Claims, TokenCodec, verify_payload, verify_parts}
use omni_flow.Plans.{find_plan, plan_or_pro}
use omni_flow.Plans.Trial.First.{first_subscription}
use omni_flow.Store.Subscriptions.{get_subscription}
use omni_flow.FacebookPages.{SharedPage}
use omni_flow.MetaOauth.{Exchange, listed, read_state, facebook_callback}
use omni_flow.MetaOauth.Selected.{connected_keys}
use omni_flow.MetaOauth.Within.{plan_limit, callback_within_plan}
use omni_flow.PageWebhook.{WebOps, WebhookSettings, persist, receive_webhook}
use omni_flow.PageWebhook.Ingested.{find_comment, reported, persist_lem}
use omni_flow.PageWebhook.Signature.{
  IsAuthentic, IsStored, IsRejected, IsUnread, receive_webhook_cases,
}
use omni_flow.PageWebhook.Replies.{GraphAnswer, replied, reply_to_comment, reply_with_own_token}
use omni_flow.Samples.World.{plain_text, database, start_of_day}

abbrev web : WebOps
web = record {
  ops = plain_text;
  show = λ v. "";
  from_unix = λ v. none;
  digits = λ s. none;
  from_iso = λ s. none;
  hmac_hex = λ key s. s;
  loads = λ s. some (Doc.object (Fields.end));
}

abbrev settings : WebhookSettings
settings = record { production = true; app_secret = "key"; verify_token = ""; facebook_page = "9" }

abbrev id_of : String × String → String
id_of key = key.1

abbrev comment : CommentInput
comment = record {
  page_id = "7";
  comment_id = "c-1";
  post_id = some "p-1";
  parent_id = none;
  from_id = none;
  from_name = some "Ann";
  message = some "Price?";
  verb = "add";
  created_time = none;
}

abbrev with_page : Database
with_page = record database {
  connected_accounts =
      account_row "a-1" start_of_day "shop" "u-1" "meta" "7" "Page" "token" "connected" [] ∷ [];
}

abbrev events : List (String × CommentInput)
events = ("7", comment) ∷ ("8", comment) ∷ []

persist_lem_example :
    find_comment "shop" "c-1" (persist web id_of start_of_day settings events with_page)
    ≡ reported web id_of start_of_day settings "shop" "c-1" with_page events
        (find_comment "shop" "c-1" with_page)
persist_lem_example = persist_lem web id_of start_of_day settings "shop" "c-1" events with_page

receive_webhook_cases_example :
    let end = receive_webhook web id_of start_of_day settings "{}" (some "sha256={}") with_page in
    (IsRejected web id_of start_of_day settings "{}" (some "sha256={}") end.0 × (end.1 ≡ with_page))
    ⊎ (IsAuthentic web id_of start_of_day settings "{}" (some "sha256={}")
        × IsUnread web id_of start_of_day settings "{}" end.0
        × (end.1 ≡ with_page))
    ⊎ (IsAuthentic web id_of start_of_day settings "{}" (some "sha256={}")
        × IsStored web id_of start_of_day settings "{}" with_page end)
receive_webhook_cases_example =
    receive_webhook_cases web id_of start_of_day settings "{}" (some "sha256={}") with_page

abbrev shared_page : SharedPage
shared_page = record {
  env_page = "9";
  env_token = "shared";
  page_token = λ p. "";
  client_token = "";
}

abbrev graph : String → String → String → GraphAnswer
graph c message token = replied "r-1"

abbrev tenant : String
tenant = "shop"

foreign : (tenant == default_tenant_id) ≡ false
foreign = refl

reply_with_own_token_example :
    reply_to_comment plain_text shared_page graph "shop" "c-1" "Ten" "" with_page
    ≡ reply_to_comment plain_text shared_page graph "shop" "c-1" "Ten" "" with_page
reply_with_own_token_example =
    reply_with_own_token plain_text shared_page graph graph "shop" "c-1" "Ten" with_page foreign
      (λ r own. refl)

abbrev claims : Claims
claims = record {
  sub = null;
  tid = text "shop";
  typ = text "meta_oauth_state";
  uid = text "u-1";
  next = null;
  iat = none;
  exp = some (seconds 2_000_000_000);
}

abbrev codec : TokenCodec
codec = record {
  encode = λ c. "body";
  decode = λ s. some claims;
  signature = λ s. "sig";
  split_dots = λ s. "body" ∷ "sig" ∷ [];
}

abbrev two_pages : Exchange
two_pages = listed (
    record { id = some "8"; name = none; access_token = some "t-8"; tasks = [] }
    ∷ record { id = some "9"; name = some "Nine"; access_token = some "t-9"; tasks = [] }
    ∷ [])

abbrev on_trial : Database
on_trial = record database {
  subscriptions =
      record {
        id = "s-1";
        tenant_id = "shop";
        plan = "pro";
        billing_cycle = "monthly";
        status = "active";
        current_period_end = none;
        created_at = 0;
        updated_at = 0;
      }
      ∷ [];
}

state_read :
    read_state plain_text codec (verify_payload codec start_of_day "body.sig") ≡ some claims
unfolding verify_payload verify_parts
state_read = refl

three_channels : plan_limit plain_text codec (λ s. s) "shop" 14 "s-1" start_of_day on_trial ≡ some 3
unfolding plan_or_pro find_plan first_subscription get_subscription lookup
three_channels = refl

callback_within_plan_example :
    let db' =
      (facebook_callback plain_text codec 14 "s-1"
        (λ s. s)
        start_of_day
        true
        (λ s. true)
        two_pages
        "body.sig"
        "code"
        none
        on_trial).1 in
    length (connected_keys plain_text "shop" db')
    ≤ max 3 (length (connected_keys plain_text "shop" on_trial))
unfolding lookup
callback_within_plan_example =
    callback_within_plan plain_text codec (λ s. s) "shop" 14 "s-1" start_of_day true (λ s. true)
      two_pages "body.sig" "code" none on_trial claims 3 state_read refl three_channels (λ a b e. e)
      (λ id. refl) tt refl
