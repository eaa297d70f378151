-- ===== src/Tenancy/Context.antt =====
-- Who a request is taken for.
use omni_flow.Prelude.{
  ℕ, ◌+◌, ◌≤◌, ◌≡◌, refl, sym, ap, ◌∙◌, inl, inr, String, Bool, true, false, Option, none, some,
  arith, ◌==◌, string_eq, if◌then◌else◌, nat_beq, Bool-cases, Option-cases,
}
use omni_flow.Json.{is_text, as_text}
use omni_flow.TextOps.{TextOps}
use omni_flow.Store.{Moment, seconds}
use omni_flow.Security.{
  Claims, TokenCodec, RoundTrips, Verified, valid, invalid, whole_second, stamped, verify_payload,
}
use omni_flow.Security.Tokens.{signed_verified}
use omni_flow.Tenancy.{
  TenantContext, context, Headers, TenancySettings, is_valid_tenant_id, access_claims,
  issue_access_token, context_of, or_unauthorized, read_access, decode_access_token, bearer_token,
  resolve_anonymous, get_tenant_context,
}

module _ (codec : TokenCodec) (ops : TextOps) (matches : String → Bool) where
  abbrev pub lifetime : TenancySettings → ℕ → ℕ
  lifetime settings ttl = if nat_beq ttl 0 then settings.ttl_setting else ttl

  -- A token that was issued for a user of a workspace makes a request act for that user and
  -- workspace, as an authenticated one, until its lifetime is over.
  pub issued_token_resolves :
      (settings settings' : TenancySettings) (now later : Moment) (user_id tenant_id : String)
      (ttl : ℕ) (token : String) (headers : Headers)
      → RoundTrips codec (
          stamped codec now
            (lifetime settings ttl)
            (access_claims codec ops matches user_id tenant_id))
      → issue_access_token codec ops matches settings now user_id tenant_id ttl ≡ some token
      → is_valid_tenant_id codec ops matches tenant_id ≡ true
      → (user_id == "") ≡ false
      → bearer_token codec ops matches headers ≡ some token
      → later ≤ whole_second codec now + seconds (lifetime settings ttl)
      → get_tenant_context codec ops matches settings' later headers
        ≡ context (record { tenant_id = tenant_id; user_id = some user_id; authenticated = true })
  unfolding issue_access_token get_tenant_context decode_access_token
  issued_token_resolves settings settings' now later user_id tenant_id ttl token headers trips
        issued fits named bears soon =
      rw (bears, get_tenant_context)
        (rw
          (signed_verified codec now later (lifetime settings ttl)
            (access_claims codec ops matches user_id tenant_id) token trips issued soon)
          (rw fits (rw named (rw (ops.show-text user_id)))))

  -- The token that a workspace was read from.
  abbrev pub IsTokenFor : Moment → TenantContext → Headers → Type 0
  IsTokenFor now ctx headers =
      (token : String) × (claims : Claims) × (bearer_token codec ops matches headers ≡ some token)
      × (verify_payload codec now token ≡ valid claims)
      × (is_text claims.typ "access" ≡ true)
      × (as_text claims.tid ≡ some ctx.tenant_id)
      × (is_valid_tenant_id codec ops matches ctx.tenant_id ≡ true)

  read_access_cases :
      (v : Verified Claims) (ctx : TenantContext)
      → read_access codec ops matches v ≡ some ctx
      → (claims : Claims) × (v ≡ valid claims)
        × (is_text claims.typ "access" ≡ true)
        × (as_text claims.tid ≡ some ctx.tenant_id)
        × (is_valid_tenant_id codec ops matches ctx.tenant_id ≡ true)
  read_access_cases (invalid e) ctx h = ground arith
  read_access_cases (valid claims) ctx h = elim (Bool-cases (is_text claims.typ "access")) [
    | inr other ↦ ground (arith, rw other at h)
    | inl access ↦ elim (Option-cases (as_text claims.tid)) [
      | inl missing ↦ ground (arith, rw (access, missing) at h)
      | inr (tenant, there) ↦ elim (Bool-cases (is_valid_tenant_id codec ops matches tenant)) [
        | inr unfit ↦ ground (arith, rw unfit at (rw (access, there) at h))
        | inl fits ↦
            let h' = rw fits at (rw (access, there) at h) in
            let same : tenant ≡ ctx.tenant_id = ground (arith, h') in
            (claims, refl, access, there ∙ ap some same, rw (sym same) fits)
      ]
    ]
  ]

  accepted_by :
      (o : Option TenantContext) (ctx : TenantContext)
      → or_unauthorized codec ops matches o ≡ context ctx
      → o ≡ some ctx
  accepted_by none ctx h = ground arith
  accepted_by (some c) ctx h = ground arith

  context_of_auth :
      (claims : Claims) (tid : Option String) (ctx : TenantContext)
      → context_of codec ops matches claims tid ≡ some ctx
      → ctx.authenticated ≡ true
  context_of_auth claims none ctx h = ground arith
  context_of_auth claims (some tenant) ctx h = ground arith

  read_access_auth :
      (v : Verified Claims) (ctx : TenantContext)
      → read_access codec ops matches v ≡ some ctx
      → ctx.authenticated ≡ true
  read_access_auth (invalid e) ctx h = ground arith
  read_access_auth (valid claims) ctx h = elim (Bool-cases (is_text claims.typ "access")) [
    | inr other ↦ ground (arith, rw other at h)
    | inl access ↦ context_of_auth claims (as_text claims.tid) ctx (rw access at h)
  ]

  resolve_anonymous_cases :
      (settings : TenancySettings) (headers : Headers) (ctx : TenantContext)
      → resolve_anonymous codec ops matches settings headers ≡ context ctx
      → ctx.authenticated ≡ false
  unfolding resolve_anonymous
  resolve_anonymous_cases settings headers ctx h = ground arith

  -- A request counts as authenticated only by a valid access token, and then acts for the workspace
  -- that the token names.
  pub authenticated_by_token :
      (settings : TenancySettings) (now : Moment) (headers : Headers) (ctx : TenantContext)
      → get_tenant_context codec ops matches settings now headers ≡ context ctx
      → ctx.authenticated ≡ true
      → IsTokenFor now ctx headers
  unfolding get_tenant_context decode_access_token
  authenticated_by_token settings now headers ctx h auth =
      elim (Option-cases (bearer_token codec ops matches headers)) [
        | inl missing ↦ ground (
          arith,
          auth,
          resolve_anonymous_cases settings headers ctx (rw (missing, get_tenant_context) at h),
        )
        | inr (token, bears) ↦
            let (claims, v, access, tid, fits) =
              read_access_cases (verify_payload codec now token) ctx
                (accepted_by _ ctx (rw (bears, get_tenant_context) at h)) in
            (token, claims, bears, v, access, tid, fits)
      ]

  -- In production with authentication required, every request that is let through is authenticated.
  pub production_authenticates :
      (settings : TenancySettings) (now : Moment) (headers : Headers) (ctx : TenantContext)
      → settings.production ≡ true
      → settings.require_auth ≡ true
      → get_tenant_context codec ops matches settings now headers ≡ context ctx
      → IsTokenFor now ctx headers × (ctx.authenticated ≡ true)
  unfolding get_tenant_context decode_access_token resolve_anonymous
  production_authenticates settings now headers ctx live required h =
      elim (Option-cases (bearer_token codec ops matches headers)) [
        | inl missing ↦ ground (arith, live, required, rw (missing, get_tenant_context) at h)
        | inr (token, bears) ↦
            let auth =
              read_access_auth (verify_payload codec now token) ctx
                (accepted_by _ ctx (rw (bears, get_tenant_context) at h)) in
            (authenticated_by_token settings now headers ctx h auth, auth)
      ]
