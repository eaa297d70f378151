-- ===== src/Samples/World.antt =====
-- A small world: texts of lower-case letters, exact quotients, a platform that answers, and a
-- database with one workspace.
use Prim.Native.String.{◌++◌ as str_append, len}
use package.text.Mathlib.TextPositions.{len-append}
use omni_flow.Prelude.{
  ℕ, zero, suc, ◌≡◌, ap, ◌+◌, refl, arith, String, true, false, none, some, [], ◌∷◌,
}
use omni_flow.Json.{Json, text}
use omni_flow.TextOps.{TextOps}
use omni_flow.Floats.{Floats}
use omni_flow.Schemas.{meta, scheduled, PublishTask, ContentDraft}
use omni_flow.Store.{Moment, Tenant, Usage, TaskRow, Database, empty_database, seconds, days}
use omni_flow.Publisher.{returned, GraphReply, Gateway, Credentials}
use omni_flow.Scheduler.{Wording, Service, Clock}

abbrev show_json : Json → String
show_json (text s) = s
show_json _ = ""

-- A number as so many strokes.
abbrev pub tally : ℕ → String
tally zero = ""
tally (suc n) = str_append "1" (tally n)

len-tally : (n : ℕ) → len (tally n) ≡ n
len-tally zero = refl
len-tally (suc n) = omega (arith, len-append "1" (tally n), len-tally n)

pub tally_inj : (m n : ℕ) → tally m ≡ tally n → m ≡ n
tally_inj m n e = omega (arith, len-tally m, len-tally n, ap len e)

abbrev pub plain_text : TextOps
plain_text = record {
  lower = λ s. s;
  strip = λ s. s;
  show = show_json;
  join_words = λ s. s;
  sql_lower = λ s. s;
  decimal = tally;
  strip_twice = λ s. refl;
  normal_twice = λ s. refl;
  show-text = λ s. refl;
  sql_lower-lower = λ s. refl;
  decimal_inj = tally_inj;
}

-- Every quotient is rounded down to 0.
abbrev pub coarse_floats : Floats
coarse_floats = record {
  Float = ℕ;
  true_div = λ a b. 0;
  float_div = λ a b. 0;
  scale = λ t q. 0;
  scale-le = λ t a b c d hb hc hd h. omega arith;
}

abbrev pub start_of_day : Moment
start_of_day = 1_800_000_000_000_000

abbrev pub draft : ContentDraft
draft = record {
  id = "draft-1";
  tenant_id = "shop";
  campaign_id = "c-1";
  platform = meta;
  language = "en";
  title = none;
  call_to_action = none;
  created_at = 0;
  body = "Hello";
  hashtags = [];
  media_links = [];
  image_base64 = none;
  scheduled_at = none;
}

abbrev pub post : PublishTask
post = record {
  id = "task-1";
  tenant_id = "shop";
  campaign_id = "c-1";
  content_draft_id = "draft-1";
  platform = meta;
  status = scheduled;
  scheduled_at = some start_of_day;
  published_at = none;
  external_post_id = none;
  post_url = none;
  confirmation_badge = none;
  image_base64 = none;
  error = none;
  attempts = 0;
  updated_at = none;
  logs = [];
}

abbrev pub post_row : TaskRow
post_row = record {
  id = "task-1";
  tenant_id = "shop";
  campaign_id = "c-1";
  payload = post;
  status = scheduled;
  scheduled_at = some start_of_day;
  created_at = 0;
  updated_at = none;
}

abbrev pub usage : Usage
usage = record {
  tenant_id = "shop";
  ai_runs_count = 299;
  cycle_start = start_of_day;
  cycle_end = start_of_day + days 30;
  updated_at = start_of_day;
}

abbrev pub shop : Tenant
shop = record { id = "shop"; name = "Shop"; slug = none }

abbrev pub database : Database
database = record empty_database {
  tenants = shop ∷ [];
  usage_tracking = usage ∷ [];
  tasks = post_row ∷ [];
  drafts =
      record {
        id = "draft-1";
        tenant_id = "shop";
        campaign_id = "c-1";
        payload = draft;
        created_at = 0;
      }
      ∷ [];
}

abbrev pub live_reply : GraphReply
live_reply = record {
  success = true;
  post_id = "42";
  post_url = none;
  confirmation_badge = none;
  mode = none;
  error = none;
}

abbrev pub answering : Gateway
answering = record {
  has_facebook_credentials = true;
  facebook = λ d image page token. returned live_reply;
  instagram_ready = false;
  create_container = λ d. returned none;
  publish_media = λ id. returned none;
}

-- The platform's client fails on the network.
abbrev pub unreachable : Gateway
unreachable = record answering {
  facebook = λ d image page token.
      returned (record live_reply { success = false; mode = some "network_exception" });
}

abbrev pub own_page : Credentials
own_page = record { page_id = some "7"; access_token = some "t"; isolated = true }

abbrev pub no_page : Credentials
no_page = record { page_id = none; access_token = none; isolated = true }

abbrev pub wording : Wording
wording = record { str_int = λ n. "n"; isoformat = λ t. "t"; describe = λ e. e }

abbrev pub service : Service
service = record {
  gateway = answering;
  wording = wording;
  resolver = none;
  batch_size = 20;
  max_attempts = 3;
  max_late = seconds 3600;
  stale_after = seconds 300;
  retry_base = seconds 60;
}

abbrev pub clock : Clock
clock = record { before = start_of_day + 5; after = start_of_day + 9 }
