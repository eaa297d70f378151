-- ===== src/PageWebhook.antt =====
-- app/routers/comments.py: the comments that Meta reports through the webhook of a page, and replies
-- to them. `now` is the moment of a request; HMAC, JSON and the reading of dates come from Python's
-- library, and the Graph API is a parameter.
pub mod Owners
pub mod Events
unfoldable pub use Events.*
pub mod Ingested
pub mod Signature
pub mod Replies
use Prim.Native.String.{◌++◌ as str_append}
use Prim.Native.String.{compare}
use package.text.Mathlib.Text.{is_le}
use omni_flow.Prelude.{
  ℕ, ◌+◌, String, Bool, true, false, Option, none, some, List, [], ◌∷◌, ◌++◌, ◌==◌, string_eq, ◌&&◌,
  ◌||◌, not, if◌then◌else◌, map,
}
use omni_flow.Prelude.Int.{ℤ}
use omni_flow.Json.Doc.{
  Doc, null, flag, num, fraction, text, array, object, Fields, end, get, truthy, object_items,
  as_object, as_text, is_text, is_null,
}
use omni_flow.TextOps.{TextOps}
use omni_flow.Slugs.{first_chars}
use omni_flow.Sql.{select, order_by}
use omni_flow.Store.{Moment, default_tenant_id, ConnectedAccount, Database}
use omni_flow.Store.Accounts.{AccountView, list_connected_accounts_any_tenant}
use omni_flow.Store.Comments.{CommentInput, save_page_comment}

-- The environment: an empty text is a variable that is not set.
pub record WebhookSettings : Type 0 where
  pub production : Bool
  pub app_secret : String
  pub verify_token : String
  pub facebook_page : String

pub data WebhookAnswer : Type 0 where
  challenge_echoed : String → WebhookAnswer
  event_received verification_failed not_configured invalid_signature : WebhookAnswer
  not_json not_an_object internal_error : WebhookAnswer

unfoldable pub expected_verify_token : WebhookSettings → String
expected_verify_token settings =
    if not (settings.verify_token == "")
    then settings.verify_token
    else if settings.production
    then ""
    else "omniflow_verify_token"

abbrev pub is_given : Option String → String → Bool
is_given none s = false
is_given (some t) s = t == s

unfoldable pub verify_webhook :
    WebhookSettings → Option String → Option String → Option String → WebhookAnswer
unfolding expected_verify_token
verify_webhook settings mode none token = verification_failed
verify_webhook settings mode (some challenge) token =
    let expected = expected_verify_token settings in
    if is_given mode "subscribe" && not (expected == "") && is_given token expected
    then challenge_echoed challenge
    else verification_failed

-- A signature that is missing or blank, and one that is not the expected one.
unfoldable pub signature_fits : TextOps → Option String → String → Bool
signature_fits ops none expected = false
signature_fits ops (some header) expected =
    if header == "" then false else ops.strip header == expected

unfoldable pub has_tenant : String → List String → Bool
has_tenant t [] = false
has_tenant t (s ∷ tenants) = s == t || has_tenant t tenants

abbrev pub add_tenant : String → List String → List String
add_tenant t tenants = if has_tenant t tenants then tenants else t ∷ tenants

-- A set of texts, each once.
unfoldable pub distinct : List String → List String
unfolding has_tenant
distinct [] = []
distinct (t ∷ tenants) = add_tenant t (distinct tenants)

abbrev pub before_text : String → String → Bool
before_text s t = is_le (compare s t)

abbrev pub tenant_of : AccountView → String
tenant_of v = v.account.tenant_id

module _ (web : WebOps) where
  open web use {ops, show, from_unix, digits, from_iso, hmac_hex, loads}

  -- `none` if the event may be read.
  unfoldable pub check_signature : WebhookSettings → String → Option String → Option WebhookAnswer
  unfolding signature_fits
  check_signature settings body header =
      if settings.app_secret == ""
      then (if settings.production then some not_configured else none)
      else if signature_fits ops header (str_append "sha256=" (hmac_hex settings.app_secret body))
      then none
      else some invalid_signature

  unfoldable pub tenants_for_page : WebhookSettings → String → Database → List String
  unfolding distinct order_by
  tenants_for_page settings page db =
      let owners = distinct (
        map tenant_of (
          select (λ (v : AccountView). v.account.status == "connected")
            (list_connected_accounts_any_tenant ops "meta" page db))) in
      order_by before_text
        (if page == settings.facebook_page then add_tenant default_tenant_id owners else owners)

  -- `uid` gives the `uuid4()` of the row that a workspace and a comment may need.
  unfoldable pub store_for :
      (String × String → String) → Moment → CommentInput → List String → Database → Database
  store_for uid now c [] db = db
  store_for uid now c (tenant ∷ tenants) db =
      store_for uid now c tenants (save_page_comment (uid (tenant, c.comment_id)) now tenant c db).1

  unfoldable pub persist :
      (String × String → String)
      → Moment
      → WebhookSettings
      → List (String × CommentInput)
      → Database
      → Database
  unfolding tenants_for_page store_for
  persist uid now settings [] db = db
  persist uid now settings ((page, c) ∷ events) db =
      persist uid now settings events (store_for uid now c (tenants_for_page settings page db) db)

  abbrev pub after_events :
      (String × String → String)
      → Moment
      → WebhookSettings
      → Option (List (String × CommentInput))
      → Database
      → WebhookAnswer × Database
  after_events uid now settings none db = (internal_error, db)
  after_events uid now settings (some events) db =
      (event_received, persist uid now settings events db)

  abbrev pub after_body :
      (String × String → String)
      → Moment
      → WebhookSettings
      → Option Doc
      → Database
      → WebhookAnswer × Database
  after_body uid now settings none db = (not_json, db)
  after_body uid now settings (some (object payload)) db =
      after_events uid now settings (iter_comment_events web payload) db
  after_body uid now settings (some _) db = (not_an_object, db)

  unfoldable pub receive_webhook :
      (String × String → String)
      → Moment
      → WebhookSettings
      → String
      → Option String
      → Database
      → WebhookAnswer × Database
  unfolding check_signature iter_comment_events persist
  receive_webhook uid now settings body header db = elim (check_signature settings body header) [
    | some refusal ↦ (refusal, db)
    | none ↦ after_body uid now settings (loads body) db
  ]
