-- ===== src/Publishing/Later.antt =====
-- Posts that are scheduled for later are on record.
use omni_flow.Prelude.{
  ℕ, suc, ◌≡◌, refl, sym, ap, ◌∙◌, inl, inr, String, false, Option, none, some, List, [], ◌∷◌,
  string_eq, All, length, Option-cases,
}
use omni_flow.Schemas.{PublishTask, ContentDraft}
use omni_flow.Store.{Moment, Database}
use omni_flow.Publisher.{create_tasks}
use omni_flow.Publishing.Saved.{IsWaiting, AreFresh, run_stored}
use omni_flow.Publishing.{
  PublishRequest, tasks_made, Publishing, gather, run_tasks, after_gather, schedule_publish,
  and_more, draft_for, as_answer,
}

module _ (site : Publishing) (uid : ℕ → String) (now : Moment) (tenant : String)
    (payload : PublishRequest) where
  more_length :
      (d : ContentDraft) (rest : Option (List ContentDraft)) (drafts : List ContentDraft) (k : ℕ)
      → ((ds : List ContentDraft) → rest ≡ some ds → length ds ≡ k)
      → and_more site uid now tenant payload (some d) rest ≡ some drafts
      → length drafts ≡ suc k
  more_length d none drafts k count made = cc made
  more_length d (some ds) drafts k count made =
      let how_many : Option (List ContentDraft) → ℕ =
        λ o. elim o [ none ↦ 0 | some xs ↦ length xs ] in
      ap how_many (sym made) ∙ ap suc (count ds refl)

  -- One draft for each id.
  gather-length :
      (n : ℕ) (ids : List String) (db : Database) (drafts : List ContentDraft)
      → (gather site uid now tenant payload n ids db).0 ≡ some drafts
      → length drafts ≡ length ids
  unfolding gather
  gather-length n [] db drafts made = let same : [] ≡ drafts = cc made in ap length (sym same)
  gather-length n (id ∷ ids) db drafts made =
      let found = draft_for site uid now tenant payload n id db in
      elim (Option-cases found.0) [
        | inl failed ↦ let e = rw (failed, gather) at made in cc e
        | inr (d, good) ↦
            more_length d (gather site uid now tenant payload (suc n) ids found.1).0 drafts
              (length ids) (gather-length (suc n) ids found.1) (rw (good, gather) at made)
      ]

  answer_of :
      (r : Option (List PublishTask) × Database) (tasks : List PublishTask)
      → r.0 ≡ some tasks
      → as_answer site uid now tenant payload r ≡ (tasks_made tasks, r.1)
  answer_of (none, db) tasks made = cc made
  answer_of (some made_now, db) tasks made =
      let same : made_now ≡ tasks = cc made in ap (λ ts. (tasks_made ts, db)) same

  after_found :
      (drafts : List ContentDraft) (db : Database) (k : ℕ)
      → length drafts ≡ k
      → payload.publish_now ≡ false
      → ((i j : ℕ) → uid i ≡ uid j → i ≡ j)
      → AreFresh site uid now tenant payload 0 db
      → let (answer, db') = after_gather site uid now tenant payload (some drafts, db) in
        (tasks : List PublishTask) × (answer ≡ tasks_made tasks)
        × (length tasks ≡ k)
        × All (IsWaiting site uid now tenant payload db') tasks
  after_found [] db k count late inj fresh = ([], refl, count, tt)
  after_found (d ∷ drafts) db k count late inj fresh =
      let made = create_tasks uid 0 payload.publish_now payload.scheduled_at (d ∷ drafts) in
      let (tasks, done, as_many, waiting, _) =
        run_stored site uid now tenant payload d (d ∷ drafts) (d ∷ drafts) 0 db inj late fresh in
      rw (answer_of (run_tasks site uid now tenant payload d (d ∷ drafts) made db) tasks done)
        (tasks, refl, as_many ∙ count, waiting)

  -- A request to publish later, whose drafts were found: it is answered with one post for each id,
  -- and each of them is on record as it was answered, scheduled, and of the workspace.
  pub scheduled_for_later :
      (drawn : ℕ) (db checked : Database) (drafts : List ContentDraft)
      → payload.caption ≡ ""
      → payload.publish_now ≡ false
      → gather site uid now tenant payload drawn payload.content_draft_ids db
        ≡ (some drafts, checked)
      → ((i j : ℕ) → uid i ≡ uid j → i ≡ j)
      → AreFresh site uid now tenant payload 0 checked
      → let (answer, db') = schedule_publish site uid now tenant payload drawn db in
        (tasks : List PublishTask) × (answer ≡ tasks_made tasks)
        × (length tasks ≡ length payload.content_draft_ids)
        × All (IsWaiting site uid now tenant payload db') tasks
  unfolding schedule_publish
  scheduled_for_later drawn db checked drafts batch late found inj fresh =
      let count = gather-length drawn payload.content_draft_ids db drafts (ap (λ r. r.0) found) in
      rw batch (
        rw found
          (after_found drafts checked (length payload.content_draft_ids) count late inj fresh))
