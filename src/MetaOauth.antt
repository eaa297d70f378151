-- ===== src/MetaOauth.antt =====
-- app/routers/meta_oauth.py: connecting Facebook pages. The Meta client's answers are arguments;
-- `now` is the moment of a request and `uid` gives the `uuid4()` of the row that a page may need.
pub mod Selected
pub mod Within
pub mod Connected
use Prim.Native.Char.{code}
use Prim.Native.String.{String}
use package.text.Mathlib.Text.{starts_with}
use mathlib.Core.List.{reverse}
use omni_flow.Prelude.{
  ℕ, suc, Bool, true, false, Option, none, some, List, [], ◌∷◌, ◌++◌, ◌==◌, string_eq, ◌&&◌, ◌||◌,
  not, if◌then◌else◌, nat_beq, length, map,
}
use omni_flow.Json.{Json, null, text, is_text, as_text, truthy}
use omni_flow.TextOps.{TextOps}
use omni_flow.Store.{Moment, Database}
use omni_flow.Store.Accounts.{save_connected_account}
use omni_flow.Limits.{
  Access, granted, refused, PlanGate, is_gate_active, load_plan_gate, require_channel_slot,
}
use omni_flow.Security.{Claims, TokenCodec, Verified, valid, invalid, sign_payload, verify_payload}

-- A page that Meta lists: `id` and `access_token` are `none` where they are missing or empty.
pub record MetaPage : Type 0 where
  pub id : Option String
  pub name : Option String
  pub access_token : Option String
  pub tasks : List String

-- `exchange_code_for_user_token` and `list_managed_pages`: the pages, a MetaOAuthError, or a failure
-- of the network.
pub data Exchange : Type 0 where
  listed : List MetaPage → Exchange
  rejected : (message : String) → Exchange
  unreachable : Exchange

pub record SavedPage : Type 0 where
  pub id : String
  pub name : String
  pub webhook_subscribed : Bool

pub data CallbackAnswer : Type 0 where
  missing_state invalid_state missing_code not_configured internal_error : CallbackAnswer
  denied : (detail : String) → CallbackAnswer
  subscription_ended : CallbackAnswer
  facebook_rejected : (message : String) → CallbackAnswer
  facebook_unreachable : CallbackAnswer
  connected : List SavedPage → (skipped : ℕ) → CallbackAnswer

abbrev pub has_code : ℕ → String → Bool
has_code n String.[] = false
has_code n (String.◌∷◌ c s) = nat_beq (code c) n || has_code n s

-- A missing value is the empty text.
unfoldable pub safe_next : String → Option String
safe_next value =
    if starts_with value "/" && not (starts_with value "//") && not (has_code 92 value)
    then some value
    else none

-- A page that can be used: its id, its name and its token.
pub record UsablePage : Type 0 where
  pub id : String
  pub name : String
  pub token : String
  pub tasks : List String

abbrev pub named_page : Option String → Option String → MetaPage → Option UsablePage
named_page none _ page = none
named_page (some id) none page = none
named_page (some id) (some token) page = some (record {
  id = id;
  name = elim page.name [ none ↦ id | some name ↦ name ];
  token = token;
  tasks = elim page.tasks [ [] ↦ "CREATE_CONTENT" ∷ [] | t ∷ ts ↦ t ∷ ts ];
})

-- `p for p in pages if p.get("id") and p.get("access_token")`
unfoldable pub complete_pages : List MetaPage → List UsablePage
complete_pages [] = []
complete_pages (page ∷ rest) = elim (named_page page.id page.access_token page) [
  | none ↦ complete_pages rest
  | some usable ↦ usable ∷ complete_pages rest
]

-- The pages that have a slot, how many have none, and the gate with its slots taken.
pub record Selection : Type 0 where
  pub usable : List UsablePage
  pub skipped : ℕ
  pub gate : PlanGate

abbrev pub admit : UsablePage → Access → Selection → Selection
admit page granted s = record s { usable = page ∷ s.usable }
admit page (refused e) s = record s { skipped = suc s.skipped }

module _ (ops : TextOps) (codec : TokenCodec) where
  -- The loop over the pages, in the order in which Meta lists them.
  unfoldable pub select_pages : Database → List UsablePage → PlanGate → Selection
  select_pages db [] gate = record { usable = []; skipped = 0; gate = gate }
  select_pages db (page ∷ rest) gate =
      let (answer, gate') = require_channel_slot ops "meta" page.id gate db in
      admit page answer (select_pages db rest gate')

  unfoldable pub save_page :
      (String → String) → Moment → String → String → UsablePage → Database → Database
  save_page uid now tenant user page db =
      (save_connected_account ops (uid page.id) now tenant user "meta" page.id page.name page.token
        "connected" page.tasks db).1

  unfoldable pub save_pages :
      (String → String) → Moment → String → String → List UsablePage → Database → Database
  unfolding save_page
  save_pages uid now tenant user [] db = db
  save_pages uid now tenant user (page ∷ rest) db =
      save_pages uid now tenant user rest (save_page uid now tenant user page db)

  -- In reverse, so that the first page is the newest.
  unfoldable pub connect_pages :
      (String → String) → Moment → String → String → List UsablePage → Database → Database
  unfolding save_pages
  connect_pages uid now tenant user usable db = save_pages uid now tenant user (reverse usable) db

  -- `subscribes` is whether Meta subscribed a page to the webhooks.
  abbrev pub saved_page : (String → Bool) → UsablePage → SavedPage
  saved_page subscribes page = record {
    id = page.id;
    name = page.name;
    webhook_subscribed = subscribes page.id;
  }

  abbrev pub after_exchange :
      (String → String)
      → Moment
      → String
      → String
      → (String → Bool)
      → PlanGate
      → Exchange
      → Database
      → CallbackAnswer × Database
  after_exchange uid now tenant user subscribes gate (rejected message) db =
      (facebook_rejected message, db)
  after_exchange uid now tenant user subscribes gate unreachable db = (facebook_unreachable, db)
  after_exchange uid now tenant user subscribes gate (listed found) db =
      let s = select_pages db (complete_pages found) gate in
      (
        connected (map (saved_page subscribes) s.usable) s.skipped,
        connect_pages uid now tenant user s.usable db,
      )

  -- `str(claims.get("tid") or "default")`
  abbrev pub claim_or : Json → String → String
  claim_or v default = if truthy v then ops.show v else default

  abbrev pub read_state : Verified Claims → Option Claims
  read_state (invalid e) = none
  read_state (valid claims) = if is_text claims.typ "meta_oauth_state" then some claims else none

  abbrev pub with_gate :
      (String → String)
      → Moment
      → Claims
      → Bool
      → (String → Bool)
      → Exchange
      → Option PlanGate × Database
      → CallbackAnswer × Database
  with_gate uid now claims configured subscribes exchange (none, db) = (internal_error, db)
  with_gate uid now claims configured subscribes exchange (some gate, db) =
      if not (is_gate_active gate)
      then (subscription_ended, db)
      else if not configured
      then (not_configured, db)
      else after_exchange uid now (claim_or claims.tid "default") (claim_or claims.uid "global")
          subscribes gate exchange db

  -- The workspace is the one of the signed state. A parameter of the query that is missing is the
  -- empty text; `denial` is `error_description or error_reason or error`, where Meta reports one.
  unfoldable pub facebook_callback :
      ℕ
      → String
      → (String → String)
      → Moment
      → Bool
      → (String → Bool)
      → Exchange
      → String
      → String
      → Option String
      → Database
      → CallbackAnswer × Database
  facebook_callback days_of_trial subscription_uid uid now configured subscribes exchange state
        given denial db =
      if state == ""
      then (missing_state, db)
      else elim (read_state (verify_payload codec now state)) [
        | none ↦ (invalid_state, db)
        | some claims ↦ elim denial [
          | some detail ↦ (denied detail, db)
          | none ↦
              if given == ""
              then (missing_code, db)
              else with_gate uid now claims configured subscribes exchange (
                  load_plan_gate days_of_trial subscription_uid now (claim_or claims.tid "default")
                    db)
        ]
      ]
