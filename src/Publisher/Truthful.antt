-- ===== src/Publisher/Truthful.antt =====
-- The truthfulness rules of the publisher's class comment.
use omni_flow.Prelude.{
  ◌≡◌, refl, ◌⊎◌, inl, inr, String, true, false, Option, some, arith, ◌==◌, string_eq,
  if◌then◌else◌, Bool-cases, ◌&&◌,
}
use omni_flow.Schemas.{
  Platform, PublishTask, ContentDraft, published, failed, meta, instagram, x, tiktok,
}
use omni_flow.Store.{Moment}
use omni_flow.Publisher.{
  start, Attempt, is_text_given, returned, raised, PublishResult, GraphReply, Gateway, Credentials,
  adapter, conclude, publish, has_credentials, facebook_result,
}

adapter_isolated :
    (gateway gateway' : Gateway) (platform : Platform) (draft : ContentDraft)
    (image : Option String) (creds : Credentials)
    → creds.isolated ≡ true
    → (is_text_given creds.page_id && is_text_given creds.access_token) ≡ false
    → adapter gateway platform draft image creds ≡ adapter gateway' platform draft image creds
unfolding adapter
adapter_isolated gateway gateway' meta draft image creds alone no_page = rw (alone, no_page)
adapter_isolated gateway gateway' instagram draft image creds alone no_page = rw alone
adapter_isolated gateway gateway' x draft image creds alone no_page = refl
adapter_isolated gateway gateway' tiktok draft image creds alone no_page = refl
adapter_isolated gateway gateway' _ draft image creds alone no_page = refl

-- The task that comes back: published or failed, and the same task otherwise.
abbrev pub IsFinal : PublishTask → PublishTask → Type 0
IsFinal done task =
    ((done.status ≡ published) ⊎ (done.status ≡ failed))
    × (done.id ≡ task.id)
    × (done.tenant_id ≡ task.tenant_id)
    × (done.attempts ≡ task.attempts)

conclude-IsFinal :
    (now : Moment) (a : Attempt PublishResult) (task : PublishTask)
    → IsFinal (conclude now a task) task
unfolding conclude
conclude-IsFinal now (raised e) task = (inr refl, refl, refl, refl)
conclude-IsFinal now (returned r) task = elim (Bool-cases r.failed) [
  | inl bad ↦ rw bad (inr refl, refl, refl, refl)
  | inr good ↦ rw good (inl refl, refl, refl, refl)
]

-- Whatever the platform does, a task that was handed to the publisher comes back as published or
-- failed, and as the same task: its id, tenant and attempts are kept.
pub publish-IsFinal :
    (gateway : Gateway) (now : Moment) (task : PublishTask) (draft : ContentDraft)
    (creds : Credentials)
    → IsFinal (publish gateway now task draft creds) task
unfolding publish
publish-IsFinal gateway now task draft creds =
    let c = conclude-IsFinal now (adapter gateway task.platform draft _ creds) _ in
    (c.0, c.1, c.2, c.3)

-- A tenant that is isolated and has no page of its own publishes without the process-wide
-- credentials: the task that comes back is the same whatever the platform clients would answer.
pub isolated_never_live :
    (gateway gateway' : Gateway) (now : Moment) (task : PublishTask) (draft : ContentDraft)
    (creds : Credentials)
    → creds.isolated ≡ true
    → (is_text_given creds.page_id && is_text_given creds.access_token) ≡ false
    → publish gateway now task draft creds ≡ publish gateway' now task draft creds
unfolding publish
isolated_never_live gateway gateway' now task draft creds alone no_page =
    rw (adapter_isolated gateway gateway' task.platform draft _ creds alone no_page)

adapter_facebook :
    (gateway : Gateway) (platform : Platform) (draft : ContentDraft) (image : Option String)
    (creds : Credentials) (reply : GraphReply)
    → platform ≡ meta
    → has_credentials gateway creds ≡ true
    → gateway.facebook draft image creds.page_id creds.access_token ≡ returned reply
    → adapter gateway platform draft image creds ≡ returned (facebook_result reply)
unfolding adapter
adapter_facebook gateway meta draft image creds reply on_meta able answer = ground arith
adapter_facebook gateway _ draft image creds reply on_meta able answer = ground arith

facebook_concluded :
    (now : Moment) (reply : GraphReply) (task : PublishTask)
    → (reply.post_id == "") ≡ false
    → let done = conclude now (returned (facebook_result reply)) task in
      if reply.success
      then (done.status ≡ published) × (done.external_post_id ≡ some reply.post_id)
      else done.status ≡ failed
unfolding conclude facebook_result
facebook_concluded now reply task named = elim (Bool-cases reply.success) [
  | inl good ↦ rw good (refl, rw named (rw named refl))
  | inr bad ↦ rw bad refl
]

-- A Facebook post with credentials at hand is reported as published exactly if the Graph API call
-- succeeded, under the id of the post that it made.
pub facebook_post_truthful :
    (gateway : Gateway) (now : Moment) (task : PublishTask) (draft : ContentDraft)
    (creds : Credentials) (reply : GraphReply)
    → task.platform ≡ meta
    → has_credentials gateway creds ≡ true
    → ((image : Option String)
        → gateway.facebook draft image creds.page_id creds.access_token ≡ returned reply)
    → (reply.post_id == "") ≡ false
    → let done = publish gateway now task draft creds in
      if reply.success
      then (done.status ≡ published) × (done.external_post_id ≡ some reply.post_id)
      else done.status ≡ failed
unfolding publish
facebook_post_truthful gateway now task draft creds reply on_meta able answer named =
    rw (adapter_facebook gateway task.platform draft _ creds reply on_meta able (answer _))
      (facebook_concluded now reply (start task) named)
