-- ===== src/Store/Chat.antt =====
-- db/sqlite_store.py, the chat history. `now` is the `created_at` that pydantic sets and `uid` the
-- `uuid4()` of a new row.
pub mod Owners
use Prim.Native.String.{compare as compare_text}
use Prim.Native.Nat.{Ordering}
use omni_flow.Prelude.{
  ℕ, String, Bool, true, false, Option, none, some, List, [], ◌∷◌, ◌++◌, ◌==◌, ◌&&◌, string_eq,
  nat_eq, if◌then◌else◌, ltb, is_some,
}
use omni_flow.TextOps.{TextOps}
use omni_flow.Slugs.{first_chars}
use omni_flow.Sql.{select, find, update, order_by}
use omni_flow.Store.{Moment, Conversation, ChatMessage, Role, user, assistant, Database}

abbrev pub text_leb : String → String → Bool
text_leb a b = elim (compare_text a b) [ Ordering.gt ↦ false | _ ↦ true ]

-- `ORDER BY created_at ASC, id ASC` and `ORDER BY updated_at DESC, id DESC`.
abbrev pub earlier : ChatMessage → ChatMessage → Bool
earlier m n =
    if m.created_at == n.created_at then text_leb m.id n.id else ltb m.created_at n.created_at

abbrev pub fresher : Conversation → Conversation → Bool
fresher c d =
    if c.updated_at == d.updated_at then text_leb d.id c.id else ltb d.updated_at c.updated_at

abbrev pub is_owned : String → String → String → Conversation → Bool
is_owned id tenant owner c = c.id == id && c.tenant_id == tenant && c.user_id == owner

unfoldable pub get_conversation : String → String → String → Database → Option Conversation
get_conversation id owner tenant db = find (is_owned id tenant owner) db.conversations

unfoldable pub list_conversations : String → String → Database → List Conversation
unfolding order_by
list_conversations owner tenant db =
    order_by fresher (select (λ c. c.tenant_id == tenant && c.user_id == owner) db.conversations)

-- The JOIN: the messages of a conversation that the user owns.
unfoldable pub list_messages : String → String → String → Database → List ChatMessage
unfolding get_conversation order_by
list_messages id owner tenant db =
    if is_some (get_conversation id owner tenant db)
    then order_by earlier (select (λ m. m.conversation_id == id) db.messages)
    else []

abbrev is_user : Role → Bool
is_user user = true
is_user assistant = false

abbrev pub touch : Moment → Conversation → Conversation
touch now c = record c { updated_at = now }

module _ (ops : TextOps) where
  -- `" ".join(content.split())[:72]`
  unfoldable pub conversation_title : String → String
  unfolding first_chars
  conversation_title content = first_chars 72 (ops.join_words content)

  unfoldable pub create_conversation :
      String → Moment → String → String → String → Database → Conversation × Database
  create_conversation uid now owner tenant title db =
      let row : Conversation = record {
        id = uid;
        tenant_id = tenant;
        user_id = owner;
        title = first_chars 200 (ops.strip title);
        created_at = now;
        updated_at = now;
      } in
      (row, record db { conversations = db.conversations ++ row ∷ [] })

  -- The first message of the user names a conversation that has no title.
  abbrev pub new_title : Role → String → Conversation → String
  new_title role content c =
      if is_user role && ops.strip c.title == "" then conversation_title content else ""

  abbrev pub retitle : Moment → String → Conversation → Conversation
  retitle now title c =
      if title == "" then touch now c else record c { title = title; updated_at = now }

  abbrev pub store_message : ChatMessage → String → Database → Database
  store_message message title db = record db {
    messages = db.messages ++ message ∷ [];
    conversations =
        update (λ c. c.id == message.conversation_id) (retitle message.created_at title)
          db.conversations;
  }

  -- The message, or `none` for the CrossTenantWriteError.
  unfoldable pub add_message :
      String
      → Moment
      → String
      → String
      → String
      → Role
      → String
      → Database
      → Option ChatMessage × Database
  unfolding get_conversation conversation_title
  add_message uid now id owner tenant role content db = elim (get_conversation id owner tenant db) [
    | none ↦ (none, db)
    | some conversation ↦
        let message : ChatMessage = record {
          id = uid;
          conversation_id = id;
          role = role;
          content = content;
          created_at = now;
        } in
        (some message, store_message message (new_title role content conversation) db)
  ]
