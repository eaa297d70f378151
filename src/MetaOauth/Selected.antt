-- ===== src/MetaOauth/Selected.antt =====
-- The pages that have a slot: the gate counts each of them, within the cap of the plan.
use omni_flow.Prelude.{
  ℕ, max, ◌≤◌, ◌≡◌, refl, sym, ap, ◌∙◌, inl, inr, arith, String, Bool, true, false, none, some,
  List, [], ◌∷◌, ◌==◌, string_eq, triple_eq, ◌&&◌, ◌||◌, Bool-cases, is_some, length, map, ltb, leb,
  All,
}
use omni_flow.TextOps.{TextOps}
use omni_flow.Sql.{select, find, order_by}
use omni_flow.Sql.Rows.{is_some-find}
use omni_flow.Sql.Order.{rowcount-select, rowcount-order_by}
use omni_flow.Store.{ConnectedAccount, Database}
use omni_flow.Store.Accounts.{AccountView, account_view, newer, user_fits, list_connected_accounts}
use omni_flow.Store.Accounts.Saved.{counts_in}
use omni_flow.Plans.{plan_or_pro}
use omni_flow.Plans.Channels.{ChannelKey, channel_eq, channel_key, has_key, connected_channel_keys}
use omni_flow.Plans.Channels.Sets.{counts, has-connected, has-add_key}
use omni_flow.Limits.{
  Access, granted, refused, PlanGate, gate_plan, channel_keys, is_connected, require_channel_slot,
}
use omni_flow.Limits.Slots.{channel_slot_cases}
use omni_flow.Security.{TokenCodec}
use omni_flow.MetaOauth.{UsablePage, Selection, admit, select_pages}

-- The channels that a workspace has connected.
abbrev pub connected_keys : TextOps → String → Database → List ChannelKey
connected_keys ops tenant db =
    connected_channel_keys ops
      (map (λ (v : AccountView). v.account) (list_connected_accounts none tenant db))

views_of :
    (rows : List ConnectedAccount)
    → map (λ (v : AccountView). v.account) (map account_view rows) ≡ rows
unfolding account_view
views_of [] = refl
views_of (r ∷ rows) = ap (◌∷◌ r) (views_of rows)

has-views :
    (ops : TextOps) (k : ChannelKey) (rows : List ConnectedAccount)
    → has_key k
        (connected_channel_keys ops (map (λ (v : AccountView). v.account) (map account_view rows)))
      ≡ is_some (find (counts ops k) rows)
has-views ops k rows = rw (views_of rows) (has-connected ops k rows)

pub has-connected_keys :
    (ops : TextOps) (tenant : String) (k : ChannelKey) (db : Database)
    → has_key k (connected_keys ops tenant db)
      ≡ is_some (find (counts_in ops tenant k) db.connected_accounts)
unfolding list_connected_accounts
has-connected_keys ops tenant k db =
    let q = λ (r : ConnectedAccount). r.tenant_id == tenant && user_fits none r in
    let rows = select q db.connected_accounts in
    has-views ops k (order_by newer rows)
    ∙ is_some-find (counts ops k) (order_by newer rows)
    ∙ ap (ltb 0) (
        rowcount-order_by newer (counts ops k) rows
        ∙ rowcount-select q (counts ops k) db.connected_accounts)
    ∙ sym (is_some-find (counts_in ops tenant k) db.connected_accounts)

or_true : (b : Bool) → (b || true) ≡ true
or_true true = refl
or_true false = refl

module _ (ops : TextOps) (codec : TokenCodec) (db : Database) where
  abbrev pub page_key : UsablePage → ChannelKey
  page_key page = channel_key ops "meta" page.id

  -- One page: the gate is that of the same subscription, and its set of keys grows by that page or
  -- stays.
  slot_step :
      (limit : ℕ) (account : String) (gate : PlanGate)
      → (gate_plan gate).channels ≡ some limit
      → let gate' = (require_channel_slot ops "meta" account gate db).1 in
        (gate'.subscription ≡ gate.subscription)
        × ((k : ChannelKey)
            → has_key k (channel_keys ops gate db) ≡ true
            → has_key k (channel_keys ops gate' db) ≡ true)
  unfolding require_channel_slot channel_keys is_connected
  slot_step limit account gate capped =
      let keys = channel_keys ops gate db in
      let new = channel_key ops "meta" account in
      rw (capped, require_channel_slot)
        (elim (Bool-cases (has_key new keys)) [
          | inl there ↦ rw there (refl, λ k h. h)
          | inr absent ↦ elim (Bool-cases (leb limit (length keys))) [
            | inl full ↦ rw absent (rw full (refl, λ k h. h))
            | inr room ↦ rw absent (
                rw room (
                  refl,
                  λ k h.
                      rw (has-add_key k new keys)
                        (let h' : has_key k keys ≡ true = h in rw h' (or_true (new == k))),
                ))
          ]
        ])

  -- What the loop over the pages leaves: the keys grew within the cap, and hold those of the pages
  -- that may be used.
  pub record IsSelected (limit : ℕ) (gate : PlanGate) (s : Selection) : Type 0 where
    pub within : length (channel_keys ops s.gate db) ≤ max limit (length (channel_keys ops gate db))
    pub grows :
        (k : ChannelKey)
        → has_key k (channel_keys ops gate db) ≡ true
        → has_key k (channel_keys ops s.gate db) ≡ true
    pub usable_in : All (λ p. has_key (page_key p) (channel_keys ops s.gate db) ≡ true) s.usable

  admit-IsSelected :
      (limit : ℕ) (gate : PlanGate) (page : UsablePage) (answer : Access) (s : Selection)
      → length (channel_keys ops s.gate db) ≤ max limit (length (channel_keys ops gate db))
      → ((k : ChannelKey)
          → has_key k (channel_keys ops gate db) ≡ true
          → has_key k (channel_keys ops s.gate db) ≡ true)
      → All (λ p. has_key (page_key p) (channel_keys ops s.gate db) ≡ true) s.usable
      → (answer ≡ granted → has_key (page_key page) (channel_keys ops s.gate db) ≡ true)
      → IsSelected limit gate (admit page answer s)
  admit-IsSelected limit gate page granted s w g u new = record {
    within = w;
    grows = g;
    usable_in = (new refl, u);
  }
  admit-IsSelected limit gate page (refused e) s w g u new = record {
    within = w;
    grows = g;
    usable_in = u;
  }

  pub select-IsSelected :
      (limit : ℕ) (pages : List UsablePage) (gate : PlanGate)
      → (gate_plan gate).channels ≡ some limit
      → IsSelected limit gate (select_pages ops codec db pages gate)
  unfolding select_pages gate_plan is_connected
  select-IsSelected limit [] gate capped = record {
    within = omega arith;
    grows = λ k h. h;
    usable_in = tt;
  }
  select-IsSelected limit (page ∷ pages) gate capped =
      let r = require_channel_slot ops "meta" page.id gate db in
      let (same, grown) = slot_step limit page.id gate capped in
      let capped' : (gate_plan r.1).channels ≡ some limit =
        ap (λ u. (plan_or_pro u.plan).channels) same ∙ capped in
      let rest = select-IsSelected limit pages r.1 capped' in
      let (bound, cases) = channel_slot_cases ops limit "meta" page.id gate db capped in
      admit-IsSelected limit gate page r.0 (select_pages ops codec db pages r.1)
        (let later = rest.within in omega (arith, bound, later)) (λ k h. rest.grows k (grown k h))
        rest.usable_in
        (λ yes_granted. rest.grows (page_key page) (elim cases [
          | inl (h, there) ↦ there
          | inr (h, absent, full, kept) ↦ absurd (cc (h, yes_granted))
        ]))
