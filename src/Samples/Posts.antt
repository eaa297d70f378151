-- ===== src/Samples/Posts.antt =====
-- A scheduled post of the sample workspace, and its publishing.
use omni_flow.Prelude.{
  ℕ, ◌+◌, ◌≤◌, ◌≡◌, refl, ◌⊎◌, arith, String, true, false, none, some, List, [], ◌∷◌, string_eq,
  if◌then◌else◌, ==_iff,
}
use mathlib.Core.Option
use omni_flow.Sql.{lookup, update, rowcount, upsert}
use omni_flow.Sql.Keys.{keep}
use omni_flow.Schemas.{PublishTask, scheduled, publishing, published, failed, status_eq}
use omni_flow.Store.{TaskRow, Database, seconds}
use omni_flow.Store.Tasks.{
  is_foreign, claim_task, save_task, get_task_any_tenant, get_draft_any_tenant, claimed_task,
}
use omni_flow.Store.Tasks.Claims.{find_row, HasUniqueTasks, KeepsOthers, claimed_row}
use omni_flow.Store.Tasks.Saves.{save_cases}
use omni_flow.Publisher.{
  publish, has_credentials, adapter, publish_facebook, facebook_result, conclude, after_success,
  after_failure,
}
use omni_flow.Publisher.Truthful.{isolated_never_live, facebook_post_truthful}
use omni_flow.Scheduler.{
  Clock, missed_message, work, run_task, recover_one, recovered, execute, missed_due, publish_draft,
  use_credentials, finalized, may_retry, is_transient, newest_mode_is_network, retry_delay, settle,
  checked,
}
use omni_flow.Scheduler.Outcome.{HasOwnPayloads, IsRun, run_task_cases}
use omni_flow.Scheduler.Lateness.{overdue_never_published}
use omni_flow.Scheduler.Exclusion.{
  Event, bid, recover, count_wins, count_returns, in_status, claims_need_returns,
}
use omni_flow.Scheduler.Recovery.{IsPutBack, recover_one_cases}
use omni_flow.Scheduler.{poll_once}
use omni_flow.Scheduler.Wellformed.{IsWellFormed}
use omni_flow.Scheduler.Polls.{IsLeft, poll_once_settles}
use omni_flow.Scheduler.Stuck.{IsFree, poll_once_frees}
use omni_flow.Scheduler.Exclusion.{occur, write}
use omni_flow.Samples.World.{
  database, post, post_row, draft, answering, unreachable, own_page, no_page, live_reply, service,
  clock, start_of_day,
}

database-HasUniqueTasks : HasUniqueTasks database
unfolding lookup
database-HasUniqueTasks = (refl, tt)

post_found : find_row "task-1" database ≡ some post_row
unfolding lookup
post_found = refl

database-HasOwnPayloads : HasOwnPayloads database
unfolding lookup
database-HasOwnPayloads id row found = ground (arith, ==_iff "task-1" id)

save_cases_example :
    let (r, db') = save_task start_of_day post database in
    ((is_foreign post database ≡ true) × (r ≡ none) × (db' ≡ database))
    ⊎ ((is_foreign post database ≡ false)
        × (r ≡ some (record post { updated_at = some start_of_day }))
        × (get_task_any_tenant post.id db' ≡ r)
        × (Option.map (λ (row : TaskRow). row.status) (find_row post.id db') ≡ some post.status)
        × KeepsOthers post.id database db')
save_cases_example = save_cases start_of_day post database

isolated_never_live_example :
    publish answering start_of_day post draft no_page
    ≡ publish unreachable start_of_day post draft no_page
isolated_never_live_example =
    isolated_never_live answering unreachable start_of_day post draft no_page refl refl

page_usable : has_credentials answering own_page ≡ true
unfolding has_credentials
page_usable = refl

facebook_post_truthful_example :
    let done = publish answering start_of_day post draft own_page in
    if live_reply.success
    then (done.status ≡ published) × (done.external_post_id ≡ some live_reply.post_id)
    else done.status ≡ failed
facebook_post_truthful_example =
    facebook_post_truthful answering start_of_day post draft own_page live_reply refl page_usable
      (λ image. refl) refl

run_task_cases_example :
    let result = run_task service clock "task-1" database in
    ((row : TaskRow) × (find_row "task-1" database ≡ some row)
      × (status_eq row.status scheduled ≡ true)
      × IsRun service clock.after (claimed_task clock.before publishing row) result database)
    ⊎ ((keep (λ (r : TaskRow). status_eq r.status scheduled) (find_row "task-1" database) ≡ none)
        × (result ≡ (some none, database)))
run_task_cases_example =
    run_task_cases service clock "task-1" database database-HasUniqueTasks database-HasOwnPayloads

abbrev late_clock : Clock
late_clock = record { before = start_of_day + seconds 7200; after = start_of_day + seconds 7201 }

overdue_never_published_example :
    let (r, db') = run_task service late_clock "task-1" database in
    (done : PublishTask) × (r ≡ some (some done))
    × (get_task_any_tenant "task-1" db' ≡ some done)
    × (done.status ≡ failed)
    × (done.error ≡ some (missed_message service late_clock.before start_of_day))
    × (done.published_at ≡ post_row.payload.published_at)
    × (done.external_post_id ≡ post_row.payload.external_post_id)
    × (run_task
          (record service { gateway = unreachable; resolver = none })
          late_clock
          "task-1"
          database
        ≡ (r, db'))
overdue_never_published_example =
    overdue_never_published service unreachable none late_clock start_of_day post_row "task-1"
      database database-HasUniqueTasks database-HasOwnPayloads post_found refl refl (omega arith)

-- Two workers at once, the recovery of the first one's claim, and the second worker again.
abbrev contest : List Event
contest =
    bid start_of_day "task-1"
    ∷ bid (start_of_day + 1) "task-1"
    ∷ recover (start_of_day + 2) "task-1"
    ∷ bid (start_of_day + 3) "task-1"
    ∷ []

two_wins : count_wins "task-1" contest database ≡ 2
unfolding count_wins claim_task lookup update rowcount
two_wins = refl

claims_need_returns_example :
    count_wins "task-1" contest database
    ≤ in_status scheduled "task-1" database + count_returns "task-1" contest database
claims_need_returns_example = claims_need_returns "task-1" contest database database-HasUniqueTasks

-- The post as a worker left it that crashed while publishing.
abbrev stuck : Database
stuck = (claim_task start_of_day "task-1" scheduled publishing database).1

abbrev stuck_row : TaskRow
stuck_row = claimed_row start_of_day publishing post_row

stuck-HasUniqueTasks : HasUniqueTasks stuck
unfolding claim_task lookup update
stuck-HasUniqueTasks = (refl, tt)

stuck-HasOwnPayloads : HasOwnPayloads stuck
unfolding claim_task lookup update
stuck-HasOwnPayloads id row found = ground (arith, ==_iff "task-1" id)

stuck_found : find_row "task-1" stuck ≡ some stuck_row
unfolding claim_task lookup update
stuck_found = refl

recover_one_cases_example :
    let result = recover_one service clock "task-1" stuck in
    ((row : TaskRow) × (find_row "task-1" stuck ≡ some row)
      × (status_eq row.status publishing ≡ true)
      × IsPutBack service (claimed_task clock.before scheduled row) result stuck)
    ⊎ ((keep (λ (r : TaskRow). status_eq r.status publishing) (find_row "task-1" stuck) ≡ none)
        × (result ≡ (some 0, stuck)))
recover_one_cases_example =
    recover_one_cases service clock "task-1" stuck stuck-HasUniqueTasks stuck-HasOwnPayloads

put_back : (recover_one service clock "task-1" stuck).0 ≡ some 1
unfolding recover_one recovered claim_task save_task is_foreign get_task_any_tenant lookup update
    upsert rowcount
put_back = refl

posted :
    Option.map
      (Option.map (λ (t : PublishTask). t.status))
      (run_task service clock "task-1" database).0
    ≡ some (some published)
unfolding run_task execute work missed_due publish_draft use_credentials finalized may_retry settle
    checked claim_task get_task_any_tenant get_draft_any_tenant save_task is_foreign publish adapter
    publish_facebook has_credentials facebook_result conclude after_success lookup update upsert
    rowcount
posted = refl

retried :
    Option.map
      (Option.map (λ (t : PublishTask). t.status))
      (run_task (record service { gateway = unreachable }) clock "task-1" database).0
    ≡ some (some scheduled)
unfolding run_task execute work missed_due publish_draft use_credentials finalized may_retry
    is_transient newest_mode_is_network retry_delay settle checked claim_task get_task_any_tenant
    get_draft_any_tenant save_task is_foreign publish adapter publish_facebook has_credentials
    facebook_result conclude after_failure lookup update upsert rowcount
retried = refl

poll_once_settles_example :
    let (r, db') = poll_once service clock true database in
    ((n : ℕ) × (r ≡ some n) × (n ≤ service.batch_size))
    × ((true ≡ true) ⊎ ((r ≡ some 0) × (db' ≡ database)))
    × ((id : String) → IsLeft database db' id)
    × IsWellFormed db'
poll_once_settles_example =
    poll_once_settles service clock true database (database-HasUniqueTasks, database-HasOwnPayloads)

poll_once_frees_example : IsFree "task-1" (poll_once service late_clock true stuck).1
poll_once_frees_example =
    poll_once_frees service late_clock "task-1" stuck_row start_of_day stuck
      (stuck-HasUniqueTasks, stuck-HasOwnPayloads) stuck_found refl refl (omega arith)

-- What a worker that recovers the post reads after its own claim.
abbrev stale : PublishTask
stale = record post { attempts = 1; status = scheduled; updated_at = some (start_of_day + 1) }

stale_read :
    get_task_any_tenant "task-1"
      (claim_task (start_of_day + 1) "task-1" publishing scheduled stuck).1
    ≡ some stale
unfolding get_task_any_tenant claim_task lookup update
stale_read = refl

-- The recovering worker saves what it read after another worker has claimed the post: the post is
-- claimed a third time, by a third worker, while the second still publishes it.
abbrev race : List Event
race =
    bid start_of_day "task-1"
    ∷ recover (start_of_day + 1) "task-1"
    ∷ bid (start_of_day + 2) "task-1"
    ∷ write (start_of_day + 3) stale
    ∷ bid (start_of_day + 4) "task-1"
    ∷ []

three_wins : count_wins "task-1" race database ≡ 3
unfolding count_wins occur claim_task save_task is_foreign lookup update upsert rowcount
three_wins = refl
