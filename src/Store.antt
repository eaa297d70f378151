-- ===== src/Store.antt =====
-- The tables of db/sqlite_store.py: one record for each row type of `_BASE_SCHEMA`. Timestamps are
-- the moments that the sortable texts of `iso_utc` stand for, in microseconds; NULL is `none`.
pub mod Subscriptions
pub mod Metering
pub mod Tasks
pub mod Codes
pub mod Tenants
pub mod Users
pub mod Campaigns
pub mod Billing
pub mod Accounts
pub mod Comments
pub mod Chat
pub mod Drafts
pub mod Agency
use omni_flow.Prelude.{ℕ, ◌*◌, String, Option, List, []}
use omni_flow.Prelude.Int.{ℤ}
use omni_flow.Schemas.{PublishTask, ContentDraft, PublishStatus, Campaign}

abbrev pub Moment : Type 0
Moment = ℕ

-- `timedelta(seconds=n)` and `timedelta(days=n)`
abbrev pub seconds : ℕ → ℕ
seconds n = n * 1_000_000

abbrev pub days : ℕ → ℕ
days n = n * 86_400_000_000

abbrev pub default_tenant_id : String
default_tenant_id = "default"

pub record Tenant : Type 0 where
  pub id : String
  pub name : String
  pub slug : Option String

pub record User : Type 0 where
  pub id : String
  pub email : String
  pub full_name : String
  pub password_hash : String
  pub role : String
  pub company : String
  pub avatar_url : String
  pub created_at : Moment
  pub tenant_id : String

pub record CampaignRow : Type 0 where
  pub id : String
  pub tenant_id : String
  pub payload : Campaign
  pub created_at : Moment
  pub updated_at : Moment

pub record Subscription : Type 0 where
  pub id : String
  pub tenant_id : String
  pub plan : String
  pub billing_cycle : String
  pub status : String
  pub current_period_end : Option Moment
  pub created_at : Moment
  pub updated_at : Moment

pub record Usage : Type 0 where
  pub tenant_id : String
  pub ai_runs_count : ℕ
  pub cycle_start : Moment
  pub cycle_end : Moment
  pub updated_at : Moment

pub record UpgradeRequest : Type 0 where
  pub id : String
  pub tenant_id : String
  pub user_id : Option String
  pub plan : String
  pub billing_cycle : String
  pub status : String
  pub created_at : Moment
  pub updated_at : Moment

pub record Payment : Type 0 where
  pub id : String
  pub tenant_id : String
  pub provider : String
  pub plan : String
  pub billing_cycle : String
  pub amount : ℤ
  pub currency : String
  pub status : String
  pub reference : Option String
  pub period_end : Option Moment
  pub created_at : Moment
  pub updated_at : Moment

pub record VerificationCode : Type 0 where
  pub email : String
  pub purpose : String
  pub code_hash : String
  pub attempts : ℕ
  pub expires_at : Moment
  pub created_at : Moment

pub record ConnectedAccount : Type 0 where
  pub id : String
  pub user_id : String
  pub platform : String
  pub account_id : String
  pub account_name : String
  pub access_token : String
  pub status : String
  pub permissions : List String
  pub updated_at : Moment
  pub created_at : Moment
  pub tenant_id : String

-- The columns beside `payload` repeat parts of it, for the WHERE clauses.
pub record TaskRow : Type 0 where
  pub id : String
  pub tenant_id : String
  pub campaign_id : String
  pub payload : PublishTask
  pub status : PublishStatus
  pub scheduled_at : Option Moment
  pub created_at : Moment
  pub updated_at : Option Moment

pub record DraftRow : Type 0 where
  pub id : String
  pub tenant_id : String
  pub campaign_id : String
  pub payload : ContentDraft
  pub created_at : Moment

pub record AgencyApplication : Type 0 where
  pub id : String
  pub tenant_id : String
  pub user_id : Option String
  pub company_name : String
  pub credit_code : String
  pub store_url : String
  pub contact : String
  pub remarks : Option String
  pub business_license_path : Option String
  pub status : String
  pub created_at : Moment
  pub updated_at : Moment

pub record PageComment : Type 0 where
  pub id : String
  pub tenant_id : String
  pub page_id : String
  pub comment_id : String
  pub post_id : Option String
  pub parent_id : Option String
  pub from_id : Option String
  pub from_name : Option String
  pub message : Option String
  pub verb : String
  pub created_time : Option Moment
  pub created_at : Moment
  pub updated_at : Moment

pub record Conversation : Type 0 where
  pub id : String
  pub tenant_id : String
  pub user_id : String
  pub title : String
  pub created_at : Moment
  pub updated_at : Moment

-- `role` is "user" or "assistant".
pub data Role : Type 0 where
  user assistant : Role

pub record ChatMessage : Type 0 where
  pub id : String
  pub conversation_id : String
  pub role : Role
  pub content : String
  pub created_at : Moment

pub record Database : Type 0 where
  pub tenants : List Tenant
  pub users : List User
  pub campaigns : List CampaignRow
  pub subscriptions : List Subscription
  pub usage_tracking : List Usage
  pub upgrade_requests : List UpgradeRequest
  pub billing_payments : List Payment
  pub email_verification_codes : List VerificationCode
  pub connected_accounts : List ConnectedAccount
  pub tasks : List TaskRow
  pub drafts : List DraftRow
  pub agency_applications : List AgencyApplication
  pub page_comments : List PageComment
  pub conversations : List Conversation
  pub messages : List ChatMessage

abbrev pub empty_database : Database
empty_database = record {
  tenants = [];
  users = [];
  campaigns = [];
  subscriptions = [];
  usage_tracking = [];
  upgrade_requests = [];
  billing_payments = [];
  email_verification_codes = [];
  connected_accounts = [];
  tasks = [];
  drafts = [];
  agency_applications = [];
  page_comments = [];
  conversations = [];
  messages = [];
}
