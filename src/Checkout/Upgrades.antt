-- ===== src/Checkout/Upgrades.antt =====
-- A request for a plan that is repeated.
use omni_flow.Prelude.{
  ℕ, ◌+◌, ◌≤◌, ◌<◌, ◌≡◌, refl, sym, ap, ◌∙◌, inl, inr, arith, String, Bool, true, false, Option,
  none, some, List, [], ◌∷◌, ◌++◌, ◌==◌, ==_refl, string_eq, ◌&&◌, All, leb, Bool-cases,
  Option-cases, lt→ltb,
}
use omni_flow.Sql.{find, select, rowcount, order_by}
use omni_flow.Sql.Rows.{find-holds, rowcount-found, rowcount-none, rowcount-append}
use omni_flow.Sql.Order.{rowcount-select, rowcount-order_by, order_by-All}
use omni_flow.TextOps.{TextOps}
use omni_flow.Store.{Moment, Subscription, UpgradeRequest, Database}
use omni_flow.Store.Subscriptions.{list_upgrade_requests, save_upgrade_request, ensure_subscription}
use omni_flow.Plans.Trial.{get_or_create_subscription}
use omni_flow.Plans.Summary.{Summary, with_subscription, subscription_summary}
use omni_flow.Plans.{PlanId, Cycle, plan_key, cycle_key}
use omni_flow.Checkout.{
  duplicate_window, UpgradeAnswer, upgrade_answer, is_recent, recent_request, with_notice, as_new,
  request_upgrade,
}

module _ {A : Type 0} (P : A → Type 0) (pend wanted : A → Bool) (row : A) where
  find_All : (p : A → Bool) (rows : List A) (r : A) → All P rows → find p rows ≡ some r → P r
  unfolding find
  find_All p [] r all h = cc h
  find_All p (s ∷ rows) r all h = elim (Bool-cases (p s)) [
    | inl fits ↦ let e = rw fits at h in let same : s ≡ r = cc e in rw same at all.0
    | inr not_so ↦ find_All p rows r all.1 (rw not_so at h)
  ]

  -- The rows that are selected, where none is wanted, and a new one.
  selected_or_new :
      (rows : List A)
      → ((r : A) → wanted r ≡ false → P r)
      → P row
      → rowcount (λ r. pend r && wanted r) rows ≡ 0
      → All P (select pend (rows ++ row ∷ []))
  unfolding select rowcount
  selected_or_new [] other new h = elim (Bool-cases (pend row)) [
    | inl fits ↦ rw fits (new, tt)
    | inr not_so ↦ rw not_so tt
  ]
  selected_or_new (r ∷ rows) other new h = elim (Bool-cases (pend r)) [
    | inr not_so ↦ rw not_so (selected_or_new rows other new (rw not_so at h))
    | inl fits ↦ elim (Bool-cases (wanted r)) [
      | inl hit ↦ absurd (let e = rw fits at h in let e' = rw hit at e in omega arith)
      | inr miss ↦
          rw fits
            (other r miss, selected_or_new rows other new (let e = rw fits at h in rw miss at e))
    ]
  ]

get_or_create-upgrade_requests :
    (trial : ℕ) (uid : String) (now : Moment) (tenant : String) (db : Database)
    → (get_or_create_subscription trial uid now tenant db).1.upgrade_requests ≡ db.upgrade_requests
unfolding get_or_create_subscription ensure_subscription
get_or_create-upgrade_requests trial uid now tenant db = ground arith

read_only :
    (ops : TextOps) (now : Moment) (tenant : String) (p : Option Subscription × Database)
    → (with_subscription ops now tenant p).1 ≡ p.1
read_only ops now tenant (none, db) = refl
read_only ops now tenant (some s, db) = refl

module _ (tenant : String) (plan : PlanId) (cycle : Cycle) where
  abbrev pend : UpgradeRequest → Bool
  pend r = r.tenant_id == tenant && r.status == "pending"

  -- The row of a new request.
  abbrev pub request_row : String → Moment → Option String → Database → UpgradeRequest
  request_row uid now user db =
      (save_upgrade_request uid now tenant user (plan_key plan) (cycle_key cycle) "" db).0

  abbrev pub with_request : UpgradeRequest → Database → Database
  with_request row db = record db { upgrade_requests = db.upgrade_requests ++ row ∷ [] }

  module _ (ops : TextOps) (days_of_trial : ℕ) where
    -- The summary for the operator leaves the requests as they are.
    subscription_summary-upgrade_requests :
        (uid : String) (now : Moment) (db : Database)
        → (subscription_summary ops days_of_trial uid now tenant db).1.upgrade_requests
          ≡ db.upgrade_requests
    unfolding subscription_summary
    subscription_summary-upgrade_requests uid now db =
        ap (λ (d : Database). d.upgrade_requests)
          (read_only ops now tenant (get_or_create_subscription days_of_trial uid now tenant db))
        ∙ get_or_create-upgrade_requests days_of_trial uid now tenant db

    noticed :
        (row : UpgradeRequest) (p : Option Summary × Database) (a : UpgradeAnswer) (db' : Database)
        → with_notice row p ≡ (some a, db')
        → (a ≡ upgrade_answer false row) × (db'.upgrade_requests ≡ p.1.upgrade_requests)
    noticed row (none, d) a db' e = absurd (let e' : none ≡ some a = ap (λ q. q.0) e in cc e')
    noticed row (some summary, d) a db' e =
        let answer : some (upgrade_answer false row) ≡ some a = ap (λ q. q.0) e in
        (cc answer, ap (λ q. q.1.upgrade_requests) (sym e))

    as_new_cases :
        (notifies : Bool) (uid : String) (now : Moment) (row : UpgradeRequest) (db db' : Database)
        (a : UpgradeAnswer)
        → as_new ops days_of_trial notifies uid now tenant (row, db) ≡ (some a, db')
        → (a ≡ upgrade_answer false row) × (db'.upgrade_requests ≡ db.upgrade_requests)
    as_new_cases false uid now row db db' a e =
        let answer : some (upgrade_answer false row) ≡ some a = ap (λ q. q.0) e in
        (cc answer, ap (λ q. q.1.upgrade_requests) (sym e))
    as_new_cases true uid now row db db' a e =
        let (answer, same) =
          noticed row (subscription_summary ops days_of_trial uid now tenant db) a db' e in
        (answer, same ∙ subscription_summary-upgrade_requests uid now db)

    -- One request asks for what no pending one asked for within the last day.
    new_request :
        (notifies : Bool) (uid : ℕ → String) (now : Moment) (user : Option String)
        (db db' : Database) (a : UpgradeAnswer)
        → request_upgrade ops days_of_trial notifies uid now tenant user plan cycle db
          ≡ (some a, db')
        → a.duplicate ≡ false
        → (recent_request now plan cycle (list_upgrade_requests tenant (some "pending") db) ≡ none)
          × (a ≡ upgrade_answer false (request_row (uid 0) now user db))
          × (db'.upgrade_requests
              ≡ (with_request (request_row (uid 0) now user db) db).upgrade_requests)
    unfolding request_upgrade save_upgrade_request
    new_request notifies uid now user db db' a done new =
        elim (Option-cases
          (recent_request now plan cycle (list_upgrade_requests tenant (some "pending") db))) [
            | inr (r, found) ↦
                let e = rw (found, request_upgrade) at done in
                let answer : some (upgrade_answer true r) ≡ some a = ap (λ q. q.0) e in
                let same : upgrade_answer true r ≡ a = cc answer in
                absurd (cc (ap (λ (q : UpgradeAnswer). q.duplicate) same ∙ new))
            | inl missing ↦
                let e = rw (missing, request_upgrade) at done in
                let row = request_row (uid 0) now user db in
                let (answer, stored) =
                  as_new_cases notifies (uid 1) now row (with_request row db) db' a e in
                (missing, answer, stored)
          ]

  earlier_recent :
      (now later : Moment) (r : UpgradeRequest)
      → now ≤ later
      → is_recent now plan cycle r ≡ false
      → is_recent later plan cycle r ≡ false
  earlier_recent now later r le old = ground (arith, le, old)

  row_recent :
      (uid : String) (now later : Moment) (user : Option String) (db : Database)
      → later < now + duplicate_window
      → is_recent later plan cycle (request_row uid now user db) ≡ true
  unfolding save_upgrade_request
  row_recent uid now later user db early =
      rw (==_refl (plan_key plan))
        (rw (==_refl (cycle_key cycle)) (lt→ltb later (now + duplicate_window) early))

  -- It is among the pending ones.
  row_counted :
      (uid : String) (now later : Moment) (user : Option String) (db : Database)
      (rows : List UpgradeRequest)
      → later < now + duplicate_window
      → 0
        < rowcount
            (λ r. pend r && is_recent later plan cycle r)
            (rows ++ request_row uid now user db ∷ [])
  unfolding save_upgrade_request rowcount
  row_counted uid now later user db rows early =
      let row = request_row uid now user db in
      let counted = λ (r : UpgradeRequest). pend r && is_recent later plan cycle r in
      let one : rowcount counted (row ∷ []) ≡ 1 =
        rw (==_refl tenant) (rw (row_recent uid now later user db early) refl) in
      rw (rowcount-append counted rows row) (omega (arith, one))

  -- The only recent request of the plan is then the new one.
  found_again :
      (uid : String) (now later : Moment) (user : Option String) (db : Database)
      → recent_request now plan cycle (list_upgrade_requests tenant (some "pending") db) ≡ none
      → now ≤ later
      → later < now + duplicate_window
      → let row = request_row uid now user db in
        recent_request later plan cycle
          (list_upgrade_requests tenant (some "pending") (with_request row db))
        ≡ some row
  unfolding recent_request list_upgrade_requests
  found_again uid now later user db missing le early =
      let row = request_row uid now user db in
      let rows = db.upgrade_requests in
      let before = λ (r s : UpgradeRequest). leb s.created_at r.created_at in
      let wanted = is_recent now plan cycle in
      let wanted' = is_recent later plan cycle in
      let none_before : rowcount (λ r. pend r && wanted r) rows ≡ 0 =
        sym (rowcount-order_by before wanted (select pend rows) ∙ rowcount-select pend wanted rows)
        ∙ rowcount-none wanted (order_by before (select pend rows)) missing in
      let all =
        order_by-All before (λ r. wanted' r ≡ true → r ≡ row) (select pend (rows ++ row ∷ []))
          (selected_or_new (λ r. wanted' r ≡ true → r ≡ row) pend wanted row rows
            (λ r old recent. absurd (cc (sym recent ∙ earlier_recent now later r le old)))
            (λ recent. refl) none_before) in
      let (r, found) = rowcount-found wanted' (order_by before (select pend (rows ++ row ∷ []))) (
        rw (rowcount-order_by before wanted' (select pend (rows ++ row ∷ []))) (
          rw (rowcount-select pend wanted' (rows ++ row ∷ []))
            (row_counted uid now later user db rows early))) in
      let same : r ≡ row =
        find_All (λ r. wanted' r ≡ true → r ≡ row) pend wanted row wanted'
          (order_by before (select pend (rows ++ row ∷ []))) r all found
          (find-holds wanted' (order_by before (select pend (rows ++ row ∷ []))) r found) in
      found ∙ ap some same

  pending_same :
      (db db' : Database)
      → db'.upgrade_requests ≡ db.upgrade_requests
      → list_upgrade_requests tenant (some "pending") db'
        ≡ list_upgrade_requests tenant (some "pending") db
  unfolding list_upgrade_requests
  pending_same db db' same = rw same refl

  -- A request that was new is answered from the record when it is made again within a day, by
  -- whichever user of the workspace: the answer is the first request, marked as a duplicate, and
  -- nothing is stored, be the operator notified or not.
  pub requested_again :
      (ops : TextOps) (trial trial' : ℕ) (notifies notifies' : Bool) (uid uid' : ℕ → String)
      (now later : Moment) (user user' : Option String) (db db' : Database) (a : UpgradeAnswer)
      → request_upgrade ops trial notifies uid now tenant user plan cycle db ≡ (some a, db')
      → a.duplicate ≡ false
      → now ≤ later
      → later < now + duplicate_window
      → request_upgrade ops trial' notifies' uid' later tenant user' plan cycle db'
        ≡ (some (record a { duplicate = true }), db')
  unfolding request_upgrade
  requested_again ops trial trial' notifies notifies' uid uid' now later user user' db db' a done
        new le early =
      let (missing, answer, stored) =
        new_request ops trial notifies uid now user db db' a done new in
      let row = request_row (uid 0) now user db in
      let found =
        ap (recent_request later plan cycle) (pending_same (with_request row db) db' stored)
        ∙ found_again (uid 0) now later user db missing le early in
      rw (found, request_upgrade) (rw answer refl)
