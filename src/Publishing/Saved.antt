-- ===== src/Publishing/Saved.antt =====
-- The loop over the posts of a request, where none is published at once.
use mathlib.Core.Option
use omni_flow.Prelude.{
  ℕ, suc, ◌≤◌, ◌≡◌, refl, ap, ◌∙◌, ◌≢◌, arith, String, false, Option, none, some, List, [], ◌∷◌,
  ==_ne, string_eq, All, length,
}
use omni_flow.Schemas.{scheduled, PublishTask, ContentDraft}
use omni_flow.Store.{Moment, Database}
use omni_flow.Store.Tasks.{row_task, is_foreign, save_task, get_task_any_tenant}
use omni_flow.Store.Tasks.Claims.{find_row}
use omni_flow.Store.Tasks.Saves.{find-save, find-save_self, own_row}
use omni_flow.Publisher.{create_task, create_tasks}
use omni_flow.Publishing.{PublishRequest, Publishing, prepared, run_one, run_tasks, task_and_more}

new_is_own :
    (item : PublishTask) (db : Database) → find_row item.id db ≡ none → is_foreign item db ≡ false
unfolding is_foreign
new_is_own item db fresh = rw (fresh, is_foreign) refl

module _ (site : Publishing) (uid : ℕ → String) (now : Moment) (tenant : String)
    (payload : PublishRequest) where
  -- A post that the store gives back as it is, waiting for its time.
  abbrev pub IsWaiting : Database → PublishTask → Type 0
  IsWaiting db t =
      (get_task_any_tenant t.id db ≡ some t) × (t.status ≡ scheduled) × (t.tenant_id ≡ tenant)

  -- The ids that will be drawn are not in use.
  abbrev pub AreFresh : ℕ → Database → Type 0
  AreFresh n db = (m : ℕ) → n ≤ m → find_row (uid m) db ≡ none

  abbrev item_of : ℕ → ContentDraft → PublishTask
  item_of n d =
      prepared site uid now tenant payload
        (create_task (uid n) payload.publish_now payload.scheduled_at d)

  abbrev saved_item : ℕ → ContentDraft → PublishTask
  saved_item n d = record (item_of n d) { updated_at = some now }

  item-id : (n : ℕ) (d : ContentDraft) → (item_of n d).id ≡ uid n
  unfolding prepared create_task
  item-id n d = refl

  item-tenant : (n : ℕ) (d : ContentDraft) → (item_of n d).tenant_id ≡ tenant
  unfolding prepared
  item-tenant n d = refl

  item-status :
      (n : ℕ) (d : ContentDraft) → payload.publish_now ≡ false → (item_of n d).status ≡ scheduled
  unfolding prepared create_task
  item-status n d late = rw late refl

  one_saved :
      (first : ContentDraft) (drafts : List ContentDraft) (n : ℕ) (d : ContentDraft) (db : Database)
      → payload.publish_now ≡ false
      → find_row (uid n) db ≡ none
      → run_one site uid now tenant payload first drafts
          (create_task (uid n) payload.publish_now payload.scheduled_at d)
          db
        ≡ (some (saved_item n d), (save_task now (item_of n d) db).1)
  unfolding run_one save_task
  one_saved first drafts n d db late fresh =
      let own = new_is_own (item_of n d) db (rw (item-id n d) fresh) in
      rw (own, run_one) (rw late refl)

  found_saved :
      (n : ℕ) (d : ContentDraft) (db : Database)
      → find_row (uid n) db ≡ none
      → Option.map row_task (find_row (uid n) (save_task now (item_of n d) db).1)
        ≡ some (saved_item n d)
  unfolding prepared create_task
  found_saved n d db fresh =
      let own = new_is_own (item_of n d) db fresh in
      ap (Option.map row_task) (find-save_self now (item_of n d) db own)
      ∙ ap some (own_row now (item_of n d) db own).0

  other_row :
      (n : ℕ) (d : ContentDraft) (db : Database) (id : String)
      → find_row (uid n) db ≡ none
      → uid n ≢ id
      → find_row id (save_task now (item_of n d) db).1 ≡ find_row id db
  unfolding prepared create_task
  other_row n d db id fresh ne =
      find-save now (item_of n d) id db (new_is_own (item_of n d) db fresh)
      ∙ rw (==_ne (uid n) id ne) refl

  still-AreFresh :
      (n : ℕ) (d : ContentDraft) (db : Database)
      → ((i j : ℕ) → uid i ≡ uid j → i ≡ j)
      → AreFresh n db
      → AreFresh (suc n) (save_task now (item_of n d) db).1
  still-AreFresh n d db inj fresh m le =
      other_row n d db (uid m) (fresh n (omega arith)) (λ e. absurd (omega (arith, inj n m e)))
      ∙ fresh m (omega arith)

  -- What the loop over the tasks leaves.
  abbrev AreStored :
      ℕ → List ContentDraft → Database → Option (List PublishTask) × Database → Type 0
  AreStored n drafts db (made, db') =
      (tasks : List PublishTask) × (made ≡ some tasks)
      × (length tasks ≡ length drafts)
      × All (IsWaiting db') tasks
      × ((id : String) → ((m : ℕ) → n ≤ m → uid m ≢ id) → find_row id db' ≡ find_row id db)

  task_and_more-some :
      (t : PublishTask) (r : Option (List PublishTask) × Database) (tasks : List PublishTask)
      → r.0 ≡ some tasks
      → task_and_more site uid now tenant payload t r ≡ (some (t ∷ tasks), r.1)
  task_and_more-some t (none, db) tasks made = cc made
  task_and_more-some t (some rest, db) tasks made =
      let same : rest ≡ tasks = cc made in ap (λ ts. (some (t ∷ ts), db)) same

  step_taken :
      (first : ContentDraft) (all : List ContentDraft) (task t : PublishTask)
      (tasks : List PublishTask) (db db' : Database)
      → run_one site uid now tenant payload first all task db ≡ (some t, db')
      → run_tasks site uid now tenant payload first all (task ∷ tasks) db
        ≡ task_and_more site uid now tenant payload t
            (run_tasks site uid now tenant payload first all tasks db')
  unfolding run_tasks
  step_taken first all task t tasks db db' one =
      rw (ap (λ r. r.0) one, run_tasks) (rw (ap (λ r. r.1) one) refl)

  first-IsWaiting :
      (n : ℕ) (d : ContentDraft) (db db' : Database)
      → payload.publish_now ≡ false
      → find_row (uid n) db ≡ none
      → find_row (uid n) db' ≡ find_row (uid n) (save_task now (item_of n d) db).1
      → IsWaiting db' (saved_item n d)
  unfolding prepared create_task get_task_any_tenant
  first-IsWaiting n d db db' late fresh here =
      (ap (Option.map row_task) here ∙ found_saved n d db fresh, item-status n d late, refl)

  create_step :
      (n : ℕ) (d : ContentDraft) (drafts : List ContentDraft)
      → create_tasks uid n payload.publish_now payload.scheduled_at (d ∷ drafts)
        ≡ create_task (uid n) payload.publish_now payload.scheduled_at d
          ∷ create_tasks uid (suc n) payload.publish_now payload.scheduled_at drafts
  unfolding create_tasks
  create_step n d drafts = refl

  pub run_stored :
      (first : ContentDraft) (all drafts : List ContentDraft) (n : ℕ) (db : Database)
      → ((i j : ℕ) → uid i ≡ uid j → i ≡ j)
      → payload.publish_now ≡ false
      → AreFresh n db
      → AreStored n drafts db (
          run_tasks site uid now tenant payload first all
            (create_tasks uid n payload.publish_now payload.scheduled_at drafts)
            db)
  unfolding run_tasks create_tasks
  run_stored first all [] n db inj late fresh = ([], refl, refl, tt, λ id other. refl)
  run_stored first all (d ∷ drafts) n db inj late fresh =
      let db1 = (save_task now (item_of n d) db).1 in
      let one = one_saved first all n d db late (fresh n (omega arith)) in
      let (tasks, made, count, waiting, kept) =
        run_stored first all drafts (suc n) db1 inj late (still-AreFresh n d db inj fresh) in
      let rest =
        run_tasks site uid now tenant payload first all
          (create_tasks uid (suc n) payload.publish_now payload.scheduled_at drafts) db1 in
      let here : find_row (uid n) rest.1 ≡ find_row (uid n) db1 =
        kept (uid n) (λ m le e. absurd (omega (arith, inj m n e))) in
      let step =
        step_taken first all (create_task (uid n) payload.publish_now payload.scheduled_at d)
          (saved_item n d)
          (create_tasks uid (suc n) payload.publish_now payload.scheduled_at drafts) db db1 one
        ∙ task_and_more-some (saved_item n d) rest tasks made in
      rw (create_step n d drafts) (
        rw step (
          saved_item n d ∷ tasks,
          refl,
          ap suc count,
          (first-IsWaiting n d db rest.1 late (fresh n (omega arith)) here, waiting),
          λ id other.
              kept id (λ m le. other m (omega arith))
              ∙ other_row n d db id (fresh n (omega arith)) (other n (omega arith)),
        ))
