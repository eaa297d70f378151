-- ===== src/Scheduler/Settled.antt =====
-- What a run of a post ends in, before it is saved.
use omni_flow.Prelude.{
  ◌+◌, ◌<◌, ◌≡◌, refl, ◌⊎◌, inl, inr, String, Option, none, some, arith, string_eq, Bool-cases,
  Option-cases,
}
use omni_flow.Schemas.{PublishTask, ContentDraft, scheduled, published, failed}
use omni_flow.Store.{Moment, Database}
use omni_flow.Store.Tasks.{get_draft_any_tenant}
use omni_flow.Publisher.{Attempt, returned, raised, Credentials}
use omni_flow.Publisher.Truthful.{IsFinal, publish-IsFinal}
use omni_flow.Scheduler.{
  Service, Clock, failing, may_retry, retry_delay, finalized, missed_due, resolved, use_credentials,
  publish_draft, work,
}

-- Where a claimed post can end: published, failed, or scheduled again while attempts are left.
abbrev pub IsSettled : Service → Moment → PublishTask → PublishTask → Type 0
IsSettled service now task done =
    (done.id ≡ task.id)
    × (done.tenant_id ≡ task.tenant_id)
    × (done.attempts ≡ task.attempts)
    × (((done.status ≡ published) ⊎ (done.status ≡ failed))
        ⊎ ((done.status ≡ scheduled)
            × (task.attempts < service.max_attempts)
            × (done.scheduled_at ≡ some (now + retry_delay service task.attempts))))

failing-IsSettled :
    (service : Service) (now : Moment) (e : String) (task : PublishTask)
    → IsSettled service now task (failing e task)
unfolding failing
failing-IsSettled service now e task = (refl, refl, refl, inl (inr refl))

finalized-IsSettled :
    (service : Service) (now : Moment) (task done : PublishTask)
    → IsFinal done task
    → IsSettled service now task (finalized service now done)
unfolding finalized may_retry
finalized-IsSettled service now task done (end, same_id, same_tenant, same_attempts) =
    elim (Bool-cases (may_retry service done)) [
      | inl again ↦ rw again (
        same_id,
        same_tenant,
        same_attempts,
        inr (refl, ground (arith, again), rw same_attempts refl),
      )
      | inr stop ↦ rw stop (same_id, same_tenant, same_attempts, inl end)
    ]

-- What the body of the `try` yields.
abbrev pub Yields : Service → Clock → PublishTask → Attempt PublishTask → Type 0
Yields service clock task result =
    ((e : String) × (result ≡ raised e))
    ⊎ ((done : PublishTask) × (result ≡ returned done) × IsSettled service clock.after task done)

failing-Yields :
    (service : Service) (clock : Clock) (e : String) (task : PublishTask)
    → Yields service clock task (returned (failing e task))
failing-Yields service clock e task =
    inr (failing e task, refl, failing-IsSettled service clock.after e task)

use_credentials-Yields :
    (service : Service) (clock : Clock) (task : PublishTask) (draft : ContentDraft)
    (a : Attempt Credentials)
    → Yields service clock task (use_credentials service clock task draft a)
unfolding use_credentials
use_credentials-Yields service clock task draft (raised e) = inl (e, refl)
use_credentials-Yields service clock task draft (returned creds) = inr (
  _,
  refl,
  finalized-IsSettled service clock.after task _
      (publish-IsFinal service.gateway clock.after task draft creds),
)

publish_draft-Yields :
    (service : Service) (clock : Clock) (task : PublishTask) (o : Option ContentDraft)
    → Yields service clock task (publish_draft service clock task o)
unfolding publish_draft
publish_draft-Yields service clock task none = failing-Yields service clock _ task
publish_draft-Yields service clock task (some draft) =
    use_credentials-Yields service clock task draft (resolved service.resolver task)

pub work-Yields :
    (service : Service) (clock : Clock) (task : PublishTask) (db : Database)
    → Yields service clock task (work service clock task db)
unfolding work
work-Yields service clock task db = elim (Option-cases (missed_due service clock.before task)) [
  | inr (due, late) ↦ rw (late, work) (failing-Yields service clock _ task)
  | inl in_time ↦
      rw (in_time, work)
        (publish_draft-Yields service clock task (get_draft_any_tenant task.content_draft_id db))
]
