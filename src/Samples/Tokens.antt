-- ===== src/Samples/Tokens.antt =====
-- A token of a user of the sample workspace, and requests that bear it.
use omni_flow.Prelude.{◌+◌, ◌≤◌, ◌≡◌, refl, arith, String, Bool, true, none, some, [], ◌∷◌}
use omni_flow.Json.{null, text}
use omni_flow.Store.{Moment, seconds}
use omni_flow.Security.{
  Claims, TokenCodec, valid, whole_second, sign_payload, verify_parts, verify_payload,
}
use omni_flow.Security.Tokens.{IsSigned, verify_payload-IsSigned}
use omni_flow.Tenancy.{
  TenantContext, context, Headers, TenancySettings, is_valid_tenant_id, issue_access_token,
  bearer_token, decode_access_token, get_tenant_context,
}
use omni_flow.Tenancy.Context.{IsTokenFor, issued_token_resolves, authenticated_by_token}
use omni_flow.Samples.World.{plain_text}

abbrev signed_at : Moment
signed_at = 1_800_000_000_000_000

abbrev bare : Claims
bare = record {
  sub = text "u-1";
  tid = text "shop";
  typ = text "access";
  uid = null;
  next = null;
  iat = none;
  exp = none;
}

abbrev signed_claims : Claims
signed_claims = record bare { iat = some signed_at; exp = some (signed_at + seconds 3600) }

-- A codec that knows one token.
abbrev one_token : TokenCodec
one_token = record {
  encode = λ c. "body";
  decode = λ s. some signed_claims;
  signature = λ s. "sig";
  split_dots = λ s. "body" ∷ "sig" ∷ [];
}

abbrev token : String
token = "body.sig"

one_token_signs : sign_payload one_token signed_at 3600 bare ≡ some token
unfolding sign_payload
one_token_signs = refl

still_valid : signed_at + 5 ≤ whole_second one_token signed_at + seconds 3600
still_valid = omega arith

token_valid : verify_payload one_token signed_at token ≡ valid signed_claims
unfolding verify_payload verify_parts
token_valid = refl

verify_payload-IsSigned_example :
    IsSigned one_token signed_at signed_claims (one_token.split_dots token)
verify_payload-IsSigned_example =
    verify_payload-IsSigned one_token signed_at token signed_claims token_valid

abbrev any_text : String → Bool
any_text s = true

abbrev strict : TenancySettings
strict = record {
  allow_tenant_header = true;
  production = true;
  require_auth = true;
  ttl_setting = 3600;
}

abbrev headers : Headers
headers = record { scheme = "bearer"; value = "body.sig"; x_tenant_id = "other" }

issued :
    issue_access_token one_token plain_text any_text strict signed_at "u-1" "shop" 0 ≡ some token
unfolding issue_access_token sign_payload
issued = refl

shop_valid : is_valid_tenant_id one_token plain_text any_text "shop" ≡ true
unfolding is_valid_tenant_id
shop_valid = refl

bears : bearer_token one_token plain_text any_text headers ≡ some token
unfolding bearer_token
bears = refl

issued_token_resolves_example :
    get_tenant_context one_token plain_text any_text strict (signed_at + 5) headers
    ≡ context (record { tenant_id = "shop"; user_id = some "u-1"; authenticated = true })
issued_token_resolves_example =
    issued_token_resolves one_token plain_text any_text strict strict signed_at (signed_at + 5)
      "u-1" "shop" 0 token headers (refl, refl) issued shop_valid refl bears still_valid

abbrev shop_user : TenantContext
shop_user = record { tenant_id = "shop"; user_id = some "u-1"; authenticated = true }

resolved_request :
    get_tenant_context one_token plain_text any_text strict signed_at headers ≡ context shop_user
unfolding get_tenant_context bearer_token decode_access_token is_valid_tenant_id verify_payload
    verify_parts
resolved_request = refl

authenticated_by_token_example :
    IsTokenFor one_token plain_text any_text signed_at shop_user headers
authenticated_by_token_example =
    authenticated_by_token one_token plain_text any_text strict signed_at headers shop_user
      resolved_request refl
