-- ===== src/Store/Chat/Owners.antt =====
-- Only the owner of a conversation writes to it and reads it.
use omni_flow.Prelude.{
  ◌+◌, ◌≡◌, refl, ap, ◌∙◌, ◌⊎◌, inl, inr, String, Bool, true, none, some, List, [], ◌∷◌, ◌++◌,
  arith, ◌==◌, ==_refl, string_eq, ◌&&◌, Bool-cases, Option-cases, is_some,
}
use omni_flow.TextOps.{TextOps}
use omni_flow.Sql.{select, find, update, rowcount, order_by}
use omni_flow.Sql.Order.{rowcount-select, rowcount-order_by}
use omni_flow.Sql.Rows.{rowcount-append}
use omni_flow.Store.{Moment, Conversation, ChatMessage, Role, Database}
use omni_flow.Store.Chat.{
  is_owned, earlier, get_conversation, list_messages, new_title, retitle, store_message,
  add_message,
}

find-update-is_owned :
    (id tenant owner : String) (p : Conversation → Bool) (f : Conversation → Conversation)
    (rows : List Conversation)
    → ((c : Conversation) → is_owned id tenant owner (f c) ≡ is_owned id tenant owner c)
    → is_some (find (is_owned id tenant owner) (update p f rows))
      ≡ is_some (find (is_owned id tenant owner) rows)
unfolding find update
find-update-is_owned id tenant owner p f [] kept = refl
find-update-is_owned id tenant owner p f (c ∷ rows) kept =
    ground (arith, kept c, find-update-is_owned id tenant owner p f rows kept)

retitle-is_owned :
    (ops : TextOps) (now : Moment) (title id tenant owner : String) (c : Conversation)
    → is_owned id tenant owner (retitle ops now title c) ≡ is_owned id tenant owner c
retitle-is_owned ops now title id tenant owner c = elim (Bool-cases (title == "")) [
  | inl blank ↦ rw blank
  | inr filled ↦ rw filled
]

-- The messages of a conversation, counted by a test.
listed :
    (q : ChatMessage → Bool) (id : String) (rows : List ChatMessage)
    → rowcount q (order_by earlier (select (λ m. m.conversation_id == id) rows))
      ≡ rowcount (λ m. m.conversation_id == id && q m) rows
listed q id rows =
    rowcount-order_by earlier q (select (λ m. m.conversation_id == id) rows)
    ∙ rowcount-select (λ m. m.conversation_id == id) q rows

one_more :
    (q : ChatMessage → Bool) (m : ChatMessage)
    → rowcount (λ n. n.conversation_id == m.conversation_id && q n) (m ∷ []) ≡ rowcount q (m ∷ [])
unfolding rowcount
one_more q m = rw (==_refl m.conversation_id)

stored_listed :
    (ops : TextOps) (q : ChatMessage → Bool) (message : ChatMessage) (owner tenant title : String)
    (db : Database)
    → is_some (get_conversation message.conversation_id owner tenant db) ≡ true
    → rowcount q
        (list_messages message.conversation_id owner tenant (store_message ops message title db))
      ≡ rowcount q (list_messages message.conversation_id owner tenant db)
        + rowcount q (message ∷ [])
unfolding list_messages get_conversation
stored_listed ops q message owner tenant title db owned =
    let id = message.conversation_id in
    let owned' : is_some (get_conversation id owner tenant (store_message ops message title db))
        ≡ true =
      find-update-is_owned id tenant owner (λ c. c.id == id) (retitle ops message.created_at title)
        db.conversations (retitle-is_owned ops message.created_at title id tenant owner)
      ∙ owned in
    rw (owned', owned, list_messages)
      (rw (listed q id (db.messages ++ message ∷ []), listed q id db.messages)
        (rowcount-append (λ m. m.conversation_id == id && q m) db.messages message
          ∙ ap (λ n. rowcount (λ m. m.conversation_id == id && q m) db.messages + n)
              (one_more q message)))

unowned :
    (id owner tenant : String) (db : Database)
    → get_conversation id owner tenant db ≡ none
    → list_messages id owner tenant db ≡ []
unfolding list_messages
unowned id owner tenant db missing = rw missing

-- A message is refused, with nothing changed, unless the user owns the conversation in that
-- workspace. If it is accepted, the owner's list of messages afterwards is the one before with this
-- message in addition: each entry stands in it as often.
pub add_message_cases :
    (ops : TextOps) (uid : String) (now : Moment) (id owner tenant : String) (role : Role)
    (content : String) (q : ChatMessage → Bool) (db : Database)
    → let (r, db') = add_message ops uid now id owner tenant role content db in
      ((get_conversation id owner tenant db ≡ none)
        × (list_messages id owner tenant db ≡ [])
        × (r ≡ none)
        × (db' ≡ db))
      ⊎ ((message : ChatMessage) × (r ≡ some message)
          × (message.content ≡ content)
          × (rowcount q (list_messages id owner tenant db')
              ≡ rowcount q (list_messages id owner tenant db) + rowcount q (message ∷ [])))
unfolding add_message
add_message_cases ops uid now id owner tenant role content q db =
    elim (Option-cases (get_conversation id owner tenant db)) [
      | inl missing ↦ inl (
        missing,
        unowned id owner tenant db missing,
        rw (missing, add_message),
        rw (missing, add_message),
      )
      | inr (c, found) ↦
          let message : ChatMessage = record {
            id = uid;
            conversation_id = id;
            role = role;
            content = content;
            created_at = now;
          } in
          inr (
            message,
            rw (found, add_message),
            refl,
            rw (found, add_message)
                (stored_listed ops q message owner tenant (new_title ops role content c) db
                  (rw found)),
          )
    ]
