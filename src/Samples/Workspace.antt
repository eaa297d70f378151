-- ===== src/Samples/Workspace.antt =====
-- Channels, runs, comments and chats of the sample workspace.
use omni_flow.Prelude.{
  ◌+◌, ◌≡◌, refl, ◌⊎◌, String, true, false, none, some, List, [], ◌∷◌, ◌==◌, string_eq, pair_eq,
  triple_eq, is_some,
}
use omni_flow.Sql.{rowcount}
use omni_flow.Store.{Subscription, ConnectedAccount, ChatMessage, Database, user}
use omni_flow.Store.Metering.{increment_ai_runs}
use omni_flow.Store.Accounts.{account_row}
use omni_flow.Store.Comments.{CommentInput}
use omni_flow.Store.Chat.{get_conversation, list_messages, add_message}
use omni_flow.Store.Chat.Owners.{add_message_cases}
use omni_flow.Plans.{find_plan, plan_or_pro}
use omni_flow.Limits.{PlanGate, gate_plan, AiRun, keep_if_ai, ai_run}
use omni_flow.Limits.Runs.{IsGivenOnce, ai_run_cases}
use omni_flow.Services.{resolve_task_credentials}
use omni_flow.Services.Isolation.{IsOwn, resolved_for_tenant}
use omni_flow.Store.{default_tenant_id}
use omni_flow.Samples.World.{plain_text, database, post, start_of_day}

abbrev page : ConnectedAccount
page = account_row "a-1" start_of_day "shop" "u-1" "meta" "7" "Page" "token" "connected" []

abbrev renewed : ConnectedAccount
renewed =
    account_row "a-2" (start_of_day + 1) "shop" "u-1" "meta" "7" "Page" "token-2" "connected" []

abbrev accounts : List ConnectedAccount
accounts = page ∷ []

abbrev elsewhere : String × String × String
elsewhere = ("other", "meta", "7")

abbrev connected_database : Database
connected_database = record database { connected_accounts = accounts }

foreign_post : (post.tenant_id == default_tenant_id) ≡ false
foreign_post = refl

resolved_for_tenant_example :
    let creds = resolve_task_credentials plain_text connected_database post in
    (creds.isolated ≡ true)
    × (((creds.page_id ≡ none) × (creds.access_token ≡ none))
        ⊎ ((r : ConnectedAccount) × IsOwn plain_text post.tenant_id "meta" connected_database r
            × (r.status ≡ "connected")
            × (creds.page_id ≡ some r.account_id)
            × (creds.access_token ≡ some r.access_token)))
resolved_for_tenant_example = resolved_for_tenant plain_text connected_database post foreign_post

abbrev subscription : Subscription
subscription = record {
  id = "s-1";
  tenant_id = "shop";
  plan = "pro";
  billing_cycle = "monthly";
  status = "active";
  current_period_end = none;
  created_at = 0;
  updated_at = 0;
}

abbrev gate : PlanGate
gate = record {
  tenant_id = "shop";
  subscription = subscription;
  status = "active";
  channels = none;
}

ai_run_cases_example :
    let (count, taken) = increment_ai_runs start_of_day "shop" (gate_plan gate).ai_runs database in
    let (result, db') =
      ai_run start_of_day gate (keep_if_ai start_of_day false ∷ []) (some start_of_day) database in
    ((count ≡ none) × (result ≡ none) × (db' ≡ taken))
    ⊎ ((is_some count ≡ true)
        × (run : AiRun) × (result ≡ some run)
        × (db' ≡ run.db)
        × IsGivenOnce gate taken run
        × ((some start_of_day ≡ none) ⊎ (run.refunded ≡ true)))
ai_run_cases_example =
    ai_run_cases start_of_day gate (keep_if_ai start_of_day false ∷ []) (some start_of_day) database

three_channels : (gate_plan gate).channels ≡ some 3
unfolding gate_plan plan_or_pro find_plan
three_channels = refl

abbrev comment : CommentInput
comment = record {
  page_id = "7";
  comment_id = "c-1";
  post_id = some "p-1";
  parent_id = none;
  from_id = none;
  from_name = some "Ann";
  message = some "Price?";
  verb = "";
  created_time = none;
}

abbrev comment_id : String × String
comment_id = ("shop", "c-1")

abbrev talking : Database
talking = record database {
  conversations =
      record {
        id = "v-1";
        tenant_id = "shop";
        user_id = "u-1";
        title = "";
        created_at = 0;
        updated_at = 0;
      }
      ∷ [];
}

add_message_cases_example :
    let (r, db') =
      add_message plain_text "m-1" start_of_day "v-1" "u-1" "shop" user "Hello" talking in
    ((get_conversation "v-1" "u-1" "shop" talking ≡ none)
      × (list_messages "v-1" "u-1" "shop" talking ≡ [])
      × (r ≡ none)
      × (db' ≡ talking))
    ⊎ ((message : ChatMessage) × (r ≡ some message)
        × (message.content ≡ "Hello")
        × (rowcount (λ m. m.id == "m-1") (list_messages "v-1" "u-1" "shop" db')
            ≡ rowcount (λ m. m.id == "m-1") (list_messages "v-1" "u-1" "shop" talking)
              + rowcount (λ m. m.id == "m-1") (message ∷ [])))
add_message_cases_example =
    add_message_cases plain_text "m-1" start_of_day "v-1" "u-1" "shop" user "Hello"
      (λ m. m.id == "m-1") talking
