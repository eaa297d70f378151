-- ===== src/Tenancy.antt =====
-- app/tenancy.py: which workspace a request acts for. `matches` is `_TENANT_ID_RE.match`.
pub mod Context
use omni_flow.Prelude.{
  ℕ, String, Bool, true, false, Option, none, some, ◌==◌, string_eq, ◌&&◌, not, if◌then◌else◌,
  nat_beq,
}
use omni_flow.Json.{Json, null, text, is_text, as_text, truthy}
use omni_flow.TextOps.{TextOps}
use omni_flow.Store.{Moment, default_tenant_id}
use omni_flow.Security.{Claims, TokenCodec, Verified, valid, invalid, sign_payload, verify_payload}

pub record TenantContext : Type 0 where
  pub tenant_id : String
  pub user_id : Option String
  pub authenticated : Bool

-- The HTTP answers: 401, twice with different texts, and 400.
pub data Resolution : Type 0 where
  context : TenantContext → Resolution
  invalid_token authentication_required invalid_tenant_header : Resolution

-- The headers that are read: `authorization` as its parts before and after the first space, and
-- `x-tenant-id`; a header that is missing is the empty text.
pub record Headers : Type 0 where
  pub scheme : String
  pub value : String
  pub x_tenant_id : String

pub record TenancySettings : Type 0 where
  pub allow_tenant_header : Bool
  pub production : Bool
  pub require_auth : Bool
  pub ttl_setting : ℕ

module _ (codec : TokenCodec) (ops : TextOps) (matches : String → Bool) where
  unfoldable pub is_valid_tenant_id : String → Bool
  is_valid_tenant_id value = not (value == "") && matches value

  abbrev pub access_claims : String → String → Claims
  access_claims user_id tenant_id = record {
    sub = text user_id;
    tid = text tenant_id;
    typ = text "access";
    uid = null;
    next = null;
    iat = none;
    exp = none;
  }

  -- `ttl_seconds or env_int(…)`
  unfoldable pub issue_access_token : TenancySettings → Moment → String → String → ℕ → Option String
  issue_access_token settings now user_id tenant_id ttl =
      sign_payload codec now (if nat_beq ttl 0 then settings.ttl_setting else ttl)
        (access_claims user_id tenant_id)

  abbrev user_of : Json → Option String
  user_of sub = if truthy sub then some (ops.show sub) else none

  -- `none` for the InvalidTokenError.
  abbrev pub context_of : Claims → Option String → Option TenantContext
  context_of claims none = none
  context_of claims (some tenant) =
      if is_valid_tenant_id tenant
      then some (record { tenant_id = tenant; user_id = user_of claims.sub; authenticated = true })
      else none

  abbrev pub read_access : Verified Claims → Option TenantContext
  read_access (invalid e) = none
  read_access (valid claims) =
      if not (is_text claims.typ "access") then none else context_of claims (as_text claims.tid)

  unfoldable pub decode_access_token : Moment → String → Option TenantContext
  unfolding is_valid_tenant_id
  decode_access_token now token = read_access (verify_payload codec now token)

  unfoldable pub bearer_token : Headers → Option String
  bearer_token headers =
      if not (ops.lower headers.scheme == "bearer")
      then none
      else if ops.strip headers.value == ""
      then none
      else some (ops.strip headers.value)

  abbrev pub or_unauthorized : Option TenantContext → Resolution
  or_unauthorized none = invalid_token
  or_unauthorized (some ctx) = context ctx

  abbrev pub anonymous : String → TenantContext
  anonymous tenant = record { tenant_id = tenant; user_id = none; authenticated = false }

  -- The steps of a request without a bearer token.
  unfoldable pub resolve_anonymous : TenancySettings → Headers → Resolution
  unfolding is_valid_tenant_id
  resolve_anonymous settings headers =
      let header = ops.strip headers.x_tenant_id in
      if settings.allow_tenant_header && not settings.production && not (header == "")
      then (if is_valid_tenant_id header then context (anonymous header) else invalid_tenant_header)
      else if settings.require_auth
      then authentication_required
      else context (anonymous default_tenant_id)

  unfoldable pub get_tenant_context : TenancySettings → Moment → Headers → Resolution
  unfolding bearer_token decode_access_token resolve_anonymous
  get_tenant_context settings now headers = elim (bearer_token headers) [
    | some token ↦ or_unauthorized (decode_access_token now token)
    | none ↦ resolve_anonymous settings headers
  ]

  unfoldable pub require_authenticated : Resolution → Resolution
  require_authenticated (context ctx) =
      if not ctx.authenticated then authentication_required else context ctx
  require_authenticated r = r
