-- ===== src/PageWebhook/Replies.antt =====
-- app/routers/comments.py, replies to comments. `graph` is what the Graph API answers to a comment, a
-- message and a token.
use omni_flow.Prelude.{
  ℕ, ◌≡◌, refl, inl, inr, String, false, Option, none, some, ◌==◌, string_eq, ◌&&◌, ltb, leb,
  if◌then◌else◌,
}
use omni_flow.TextOps.{TextOps}
use omni_flow.Store.{ConnectedAccount, Database, default_tenant_id}
use omni_flow.Store.Comments.{get_page_comment}
use omni_flow.Services.Isolation.{IsOwn}
use omni_flow.FacebookPages.{SharedPage, facebook_credentials}
use omni_flow.FacebookPages.Own.{facebook_credentials-IsOwn}

-- `raised` is a failure of the network.
pub data GraphAnswer : Type 0 where
  replied : (id : String) → GraphAnswer
  refused : (status : ℕ) (message : String) → GraphAnswer
  raised : GraphAnswer

-- 400 twice, with different texts, and 502 twice.
pub data ReplyAnswer : Type 0 where
  posted : (id : String) → ReplyAnswer
  no_page bad_gateway : ReplyAnswer
  rejected_request rejected_upstream : (message : String) → ReplyAnswer

unfoldable pub reply_answer : GraphAnswer → ReplyAnswer
reply_answer (replied id) = posted id
reply_answer (refused status message) =
    if leb 400 status && ltb status 500 then rejected_request message else rejected_upstream message
reply_answer raised = bad_gateway

abbrev pub page_of : String → String → Database → String
page_of comment tenant db = elim (get_page_comment comment tenant db) [
  | none ↦ ""
  | some stored ↦ stored.page_id
]

-- The token of the request, or that of the page that received the comment. A token that is not given
-- is the empty text.
unfoldable pub reply_token :
    TextOps → SharedPage → String → String → String → Database → Option String
reply_token ops shared tenant comment page_token db =
    if page_token == ""
    then (facebook_credentials ops shared tenant (page_of comment tenant db) db).1
    else some page_token

abbrev pub with_token : (String → GraphAnswer) → Option String → ReplyAnswer
with_token call none = no_page
with_token call (some token) = if token == "" then no_page else reply_answer (call token)

unfoldable pub reply_to_comment :
    TextOps
    → SharedPage
    → (String → String → String → GraphAnswer)
    → String
    → String
    → String
    → String
    → Database
    → ReplyAnswer
unfolding reply_token reply_answer
reply_to_comment ops shared graph tenant comment message page_token db =
    with_token (graph comment message) (reply_token ops shared tenant comment page_token db)

-- A reply of any workspace but the shared one that names no token is sent with the token of one of
-- the workspace's own rows or not at all: what the Graph API would answer to any other token, the
-- one of the environment too, makes no difference.
pub reply_with_own_token :
    (ops : TextOps) (shared : SharedPage) (graph graph' : String → String → String → GraphAnswer)
    (tenant comment message : String) (db : Database)
    → (tenant == default_tenant_id) ≡ false
    → ((r : ConnectedAccount)
        → IsOwn ops tenant "meta" db r
        → graph comment message r.access_token ≡ graph' comment message r.access_token)
    → reply_to_comment ops shared graph tenant comment message "" db
      ≡ reply_to_comment ops shared graph' tenant comment message "" db
unfolding reply_to_comment
reply_with_own_token ops shared graph graph' tenant comment message db other agree =
    elim (facebook_credentials-IsOwn ops shared tenant (page_of comment tenant db) db other) [
      | inl (page, missing) ↦ rw missing refl
      | inr (r, own, page, found) ↦ rw found (rw (agree r own) refl)
    ]
