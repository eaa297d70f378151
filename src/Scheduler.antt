-- ===== src/Scheduler.antt =====
-- app/scheduler.py: a worker claims a due post, publishes it and stores the outcome; posts that a
-- crashed worker left behind are recovered. `clock` is what `now_fn()` gives before and after the
-- publishing, and the moment of the store's writes.
pub mod Settled
pub mod Outcome
pub mod Lateness
pub mod Exclusion
pub mod Recovery
pub mod Wellformed
pub mod Polls
pub mod Stuck
use Prim.Native.String.{◌++◌ as str_append}
use mathlib.Core.List.{reverse}
use mathlib.Core.Option
use omni_flow.Prelude.{
  ℕ, ◌+◌, ◌-◌, ◌*◌, ◌/◌, ◌^◌, min, String, Bool, true, false, Option, none, some, List, [], ◌∷◌,
  ◌==◌, ◌&&◌, not, string_eq, if◌then◌else◌, ltb, leb, is_some, option_bind,
}
use omni_flow.Schemas.{
  PublishTask, ContentDraft, PublishStatus, PublishLog, scheduled, publishing, failed, status_eq,
}
use omni_flow.Store.{Moment, Database, seconds}
use omni_flow.Store.Tasks.{
  claim_task, get_task_any_tenant, get_draft_any_tenant, save_task, list_due_tasks,
  list_recoverable_tasks,
}
use omni_flow.Publisher.{
  Attempt, returned, raised, Gateway, Credentials, text_or, is_text_given, append_log, failed_badge,
  publish,
}

-- Python's formatting, and the redacted text that `describe_exception` makes of an exception.
pub record Wording : Type 0 where
  pub str_int : ℕ → String
  pub isoformat : Moment → String
  pub describe : String → String

-- The settings of `SchedulerService.__init__`, with the lengths of time in microseconds.
pub record Service : Type 0 where
  pub gateway : Gateway
  pub wording : Wording
  pub resolver : Option (PublishTask → Attempt Credentials)
  pub batch_size : ℕ
  pub max_attempts : ℕ
  pub max_late : ℕ
  pub stale_after : ℕ
  pub retry_base : ℕ

pub record Clock : Type 0 where
  pub before : Moment
  pub after : Moment

-- What `_fail` and `_finalize` hand to the store.
unfoldable pub failing : String → PublishTask → PublishTask
failing message task = append_log "ERROR" message none (record task {
  status = failed;
  error = some message;
  confirmation_badge = some (text_or task.confirmation_badge failed_badge);
})

-- The newest entry with a mode decides.
unfoldable pub newest_mode_is_network : List PublishLog → Bool
newest_mode_is_network [] = false
newest_mode_is_network (log ∷ older) =
    let rest = newest_mode_is_network older in
    elim log.mode [
      | none ↦ rest
      | some mode ↦ if mode == "" then rest else mode == "network_exception"
    ]

unfoldable pub is_transient : PublishTask → Bool
unfolding newest_mode_is_network
is_transient task = newest_mode_is_network (reverse task.logs)

-- `min(retry_base_seconds * (2 ** max(0, attempts - 1)), 3600.0)`
unfoldable pub retry_delay : Service → ℕ → ℕ
retry_delay service attempts = min (service.retry_base * 2 ^ (attempts - 1)) (seconds 3600)

unfoldable pub may_retry : Service → PublishTask → Bool
may_retry service task =
    status_eq task.status failed && (is_transient task && ltb task.attempts service.max_attempts)

unfoldable pub finalized : Service → Moment → PublishTask → PublishTask
unfolding may_retry retry_delay
finalized service now task =
    if may_retry service task
    then append_log "WARNING" "Transient failure; will retry" none (record task {
      status = scheduled;
      scheduled_at = some (now + retry_delay service task.attempts);
    })
    else task

-- The due time of a post that is later than the grace window allows.
unfoldable pub missed_due : Service → Moment → PublishTask → Option Moment
missed_due service now task =
    option_bind task.scheduled_at
      (λ due. if ltb (due + service.max_late) now then some due else none)

abbrev pub missed_message : Service → Moment → Moment → String
missed_message service now due =
    let w = service.wording in
    str_append "Missed schedule window: due " (
      str_append (w.isoformat due) (
        str_append ", " (
          str_append (w.str_int ((now - due) / 1_000_000)) (
            str_append "s late (limit "
              (str_append (w.str_int (service.max_late / 1_000_000)) "s)")))))

abbrev pub no_credentials : Credentials
no_credentials = record { page_id = none; access_token = none; isolated = false }

abbrev pub resolved : Option (PublishTask → Attempt Credentials) → PublishTask → Attempt Credentials
resolved none task = returned no_credentials
resolved (some f) task = f task

abbrev pub log_claim : PublishTask → PublishTask
log_claim = append_log "INFO" "Claimed by scheduler" none

-- A run that was not raised answers with what it stored.
abbrev pub as_run : Option PublishTask × Database → Option (Option PublishTask) × Database
as_run (stored, db) = (Option.map some stored, db)

module _ (service : Service) (clock : Clock) where
  unfoldable pub use_credentials :
      PublishTask → ContentDraft → Attempt Credentials → Attempt PublishTask
  unfolding finalized
  use_credentials task draft (raised e) = raised e
  use_credentials task draft (returned creds) =
      returned
        (finalized service clock.after (publish service.gateway clock.after task draft creds))

  unfoldable pub publish_draft : PublishTask → Option ContentDraft → Attempt PublishTask
  unfolding use_credentials failing
  publish_draft task none =
      returned (failing (str_append "Draft " (str_append task.content_draft_id " not found")) task)
  publish_draft task (some draft) = use_credentials task draft (resolved service.resolver task)

  abbrev unless_missed : PublishTask → Database → Option Moment → Attempt PublishTask
  unless_missed task db none = publish_draft task (get_draft_any_tenant task.content_draft_id db)
  unless_missed task db (some due) =
      returned (failing (missed_message service clock.before due) task)

  -- The body of the `try`, up to the save that each of its branches ends with.
  unfoldable pub work : PublishTask → Database → Attempt PublishTask
  unfolding missed_due publish_draft failing
  work task db = unless_missed task db (missed_due service clock.before task)

  -- The `except`: the stored task, or the one at hand, is failed.
  abbrev pub or_task : Option PublishTask → PublishTask → PublishTask
  or_task none task = task
  or_task (some fresh) task = fresh

  unfoldable pub rescue : String → PublishTask → Database → Option PublishTask × Database
  unfolding failing
  rescue e task db =
      save_task clock.after
        (failing (str_append "Unexpected scheduler error: " e)
          (or_task (get_task_any_tenant task.id db) task))
        db

  abbrev pub write_error : PublishTask → String
  write_error task = service.wording.describe (
      str_append "CrossTenantWriteError: tasks row " (
        str_append task.id (
          str_append " belongs to another tenant (writer tenant=" (str_append task.tenant_id ")"))))

  unfoldable pub checked :
      PublishTask → PublishTask → Option PublishTask × Database → Option PublishTask × Database
  unfolding rescue
  checked task tried (some saved, db) = (some saved, db)
  checked task tried (none, db) = rescue (write_error tried) task db

  unfoldable pub settle :
      PublishTask → Attempt PublishTask → Database → Option PublishTask × Database
  unfolding rescue checked
  settle task (raised e) db = rescue e task db
  settle task (returned done) db = checked task done (save_task clock.after done db)

  unfoldable pub execute : PublishTask → Database → Option PublishTask × Database
  unfolding work settle
  execute task db = let logged = log_claim task in settle logged (work logged db) db

  abbrev pub when_found : Option PublishTask → Database → Option (Option PublishTask) × Database
  when_found none db = (some none, db)
  when_found (some task) db = as_run (execute task db)

  -- `none` for the exception of a save that the `except` makes and the store refuses; `some none`
  -- where the code returns None.
  unfoldable pub run_task : String → Database → Option (Option PublishTask) × Database
  unfolding execute
  run_task id db =
      let (won, claimed) = claim_task clock.before id scheduled publishing db in
      if not won then (some none, claimed) else when_found (get_task_any_tenant id claimed) claimed

  abbrev gave_up : PublishTask → String
  gave_up task =
      str_append "Publishing interrupted; gave up after "
        (str_append (service.wording.str_int task.attempts) " attempts")

  unfoldable pub recovered : PublishTask → PublishTask
  unfolding failing
  recovered task =
      if leb service.max_attempts task.attempts
      then failing (gave_up task) task
      else append_log "WARNING" "Recovered task stuck in 'publishing' (worker restart?)" none task

  -- One round of the loop; `none` for the exception of a refused save, which ends the loop.
  abbrev pub recover_fresh : Option PublishTask → Database → Option ℕ × Database
  recover_fresh none db = (some 0, db)
  recover_fresh (some fresh) db =
      let (saved, db') = save_task clock.before (recovered fresh) db in
      (Option.map (λ _. 1) saved, db')

  unfoldable pub recover_one : String → Database → Option ℕ × Database
  unfolding recovered
  recover_one id db =
      let (won, claimed) = claim_task clock.before id publishing scheduled db in
      if not won then (some 0, claimed) else recover_fresh (get_task_any_tenant id claimed) claimed

  unfoldable pub recover_all : List PublishTask → Database → Option ℕ × Database
  unfolding recover_one
  recover_all [] db = (some 0, db)
  recover_all (task ∷ tasks) db =
      let (n, db') = recover_one task.id db in
      let (m, db'') = recover_all tasks db' in
      elim n [ none ↦ (none, db') | some n ↦ (Option.map (λ m. n + m) m, db'') ]

  unfoldable pub recover_stuck_tasks : Database → Option ℕ × Database
  unfolding recover_all
  recover_stuck_tasks db =
      recover_all (list_recoverable_tasks (clock.before - service.stale_after) db) db

  -- The number of posts that this worker executed; an exception ends the loop.
  unfoldable pub run_all : List PublishTask → Database → Option ℕ × Database
  unfolding run_task
  run_all [] db = (some 0, db)
  run_all (task ∷ tasks) db =
      let (result, db') = run_task task.id db in
      let (n, db'') = run_all tasks db' in
      elim result [
        | none ↦ (none, db')
        | some stored ↦ (Option.map (λ n. if is_some stored then n + 1 else n) n, db'')
      ]

  abbrev pub after_recovery : Option ℕ × Database → Option ℕ × Database
  after_recovery (none, db) = (none, db)
  after_recovery (some _, db) = run_all (list_due_tasks clock.before service.batch_size db) db

  -- `leads` is what the leader lock answers, true without one.
  unfoldable pub poll_once : Bool → Database → Option ℕ × Database
  unfolding recover_stuck_tasks run_all
  poll_once leads db = if not leads then (some 0, db) else after_recovery (recover_stuck_tasks db)
