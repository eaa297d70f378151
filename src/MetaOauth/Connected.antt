-- ===== src/MetaOauth/Connected.antt =====
-- The channels that a workspace has once the pages that were selected are saved.
use mathlib.Core.List.{reverse, reverse-cons}
use omni_flow.Prelude.{
  ℕ, max, ◌≤◌, ◌≡◌, refl, sym, ◌∙◌, ◌⊎◌, inl, inr, arith, String, true, none, some, List, [], ◌∷◌,
  ◌++◌, ◌==◌, ==_iff, string_eq, triple_eq, Bool-cases, is_some, length, map, All,
}
use omni_flow.TextOps.{TextOps}
use omni_flow.Sql.{find, lookup}
use omni_flow.Sql.Keys.{Unique}
use omni_flow.Store.{Moment, ConnectedAccount, Database}
use omni_flow.Store.Accounts.{
  AccountView, list_connected_accounts, account_row, put_account, save_connected_account,
}
use omni_flow.Store.Accounts.Channels.{find_channel, put_own}
use omni_flow.Store.Accounts.Saved.{
  row_id, counts_in, put_counts, put-Unique_ids, put_keeps_channel, put_keeps_fresh,
}
use omni_flow.Plans.Channels.{ChannelKey, channel_eq, channel_key, has_key}
use omni_flow.Plans.Channels.Sets.{connected-Distinct, subset-length}
use omni_flow.Limits.{PlanGate, gate_plan, channel_keys}
use omni_flow.Security.{TokenCodec}
use omni_flow.MetaOauth.{UsablePage, select_pages, save_pages, connect_pages}
use omni_flow.MetaOauth.Selected.{connected_keys, has-connected_keys, select-IsSelected}

module _ (ops : TextOps) (codec : TokenCodec) (uid : String → String) (tenant : String) where
  -- A row that is drawn is new, or is not needed since the page has one.
  abbrev pub IsReady : UsablePage → List ConnectedAccount → Type 0
  IsReady page rows =
      (lookup row_id (uid page.id) rows ≡ none)
      ⊎ (is_some (find_channel (tenant, ops.lower "meta", page.id) rows) ≡ true)

  abbrev pub AllReady : List UsablePage → List ConnectedAccount → Type 0
  AllReady pages rows = All (λ p. IsReady p rows) pages

  abbrev pub IsPageKey : ChannelKey → List UsablePage → Type 0
  IsPageKey k [] = ⊥
  IsPageKey k (page ∷ pages) = (channel_key ops (ops.lower "meta") page.id ≡ k) ⊎ IsPageKey k pages

  abbrev pub page_row : Moment → String → UsablePage → ConnectedAccount
  page_row now user page =
      account_row (uid page.id) now tenant user (ops.lower "meta") page.id page.name page.token
        "connected" page.tasks

  still_ready :
      (now : Moment) (user : String) (page : UsablePage) (rows : List ConnectedAccount)
      (pages : List UsablePage)
      → ((a b : String) → uid a ≡ uid b → a ≡ b)
      → AllReady pages rows
      → AllReady pages (put_account (page_row now user page) rows)
  still_ready now user page rows [] inj ready = tt
  still_ready now user page rows (p ∷ pages) inj ready = (
    elim (Bool-cases (uid page.id == uid p.id)) [
      | inl same ↦
          let e : page.id ≡ p.id = inj page.id p.id ((==_iff (uid page.id) (uid p.id)).0 same) in
          inr (rw (← e) (rw (put_own (page_row now user page) rows) refl))
      | inr apart ↦ elim ready.0 [
        | inl fresh ↦ inl (put_keeps_fresh (page_row now user page) (uid p.id) rows apart fresh)
        | inr there ↦
            inr (
              put_keeps_channel (page_row now user page) (tenant, ops.lower "meta", p.id) rows
                there)
      ]
    ],
    still_ready now user page rows pages inj ready.1,
  )

  -- Every channel that counts afterwards counted before, or is one of the pages.
  saved_keys :
      (now : Moment) (user : String) (k : ChannelKey) (pages : List UsablePage) (db : Database)
      → ((a b : String) → uid a ≡ uid b → a ≡ b)
      → Unique row_id db.connected_accounts
      → AllReady pages db.connected_accounts
      → is_some (
          find
            (counts_in ops tenant k)
            (save_pages ops codec uid now tenant user pages db).connected_accounts)
        ≡ true
      → (is_some (find (counts_in ops tenant k) db.connected_accounts) ≡ true) ⊎ IsPageKey k pages
  unfolding save_pages save_connected_account
  saved_keys now user k [] db inj u ready h = inl h
  saved_keys now user k (page ∷ pages) db inj u ready h =
      let rows = db.connected_accounts in
      let row = page_row now user page in
      elim (saved_keys now user k pages (record db { connected_accounts = put_account row rows })
        inj (put-Unique_ids row rows u ready.0) (still_ready now user page rows pages inj ready.1)
        h) [
          | inr later ↦ inr (inr later)
          | inl now_there ↦ elim (put_counts ops tenant k row rows u now_there) [
            | inl before ↦ inl before
            | inr same ↦ inr (inl same)
          ]
        ]

  IsPageKey-append :
      (k : ChannelKey) (pages : List UsablePage) (page : UsablePage)
      → IsPageKey k (pages ++ page ∷ [])
      → IsPageKey k (page ∷ pages)
  IsPageKey-append k [] page h = h
  IsPageKey-append k (p ∷ pages) page (inl here) = inr (inl here)
  IsPageKey-append k (p ∷ pages) page (inr later) = elim (IsPageKey-append k pages page later) [
    | inl last ↦ inl last
    | inr there ↦ inr (inr there)
  ]

  IsPageKey-reverse :
      (k : ChannelKey) (pages : List UsablePage) → IsPageKey k (reverse pages) → IsPageKey k pages
  IsPageKey-reverse k [] h = h
  IsPageKey-reverse k (page ∷ pages) h =
      elim (IsPageKey-append k (reverse pages) page (rw (reverse-cons page pages) at h)) [
        | inl here ↦ inl here
        | inr later ↦ inr (IsPageKey-reverse k pages later)
      ]

  all_ready :
      (pages : List UsablePage) (rows : List ConnectedAccount)
      → ((id : String) → lookup row_id (uid id) rows ≡ none)
      → AllReady pages rows
  all_ready [] rows fresh = tt
  all_ready (page ∷ pages) rows fresh = (inl (fresh page.id), all_ready pages rows fresh)

  page_key_in :
      (k : ChannelKey) (pages : List UsablePage) (keys : List ChannelKey)
      → ops.lower "meta" ≡ "meta"
      → All (λ (p : UsablePage). has_key (channel_key ops "meta" p.id) keys ≡ true) pages
      → IsPageKey k pages
      → has_key k keys ≡ true
  page_key_in k [] keys plain all h = absurd h
  page_key_in k (page ∷ pages) keys plain all (inl here) = rw (← here) (rw plain all.0)
  page_key_in k (page ∷ pages) keys plain all (inr later) =
      page_key_in k pages keys plain all.1 later

  loaded_keys :
      (gate : PlanGate) (db : Database)
      → gate.channels ≡ none
      → gate.tenant_id ≡ tenant
      → channel_keys ops gate db ≡ connected_keys ops tenant db
  unfolding channel_keys
  loaded_keys gate db unloaded same = rw (unloaded, channel_keys) (rw same refl)

  -- The pages that have a slot, saved: the channels stay within the cap.
  pub connected_within :
      (now : Moment) (user : String) (limit : ℕ) (pages : List UsablePage) (gate : PlanGate)
      (db : Database)
      → (gate_plan gate).channels ≡ some limit
      → gate.channels ≡ none
      → gate.tenant_id ≡ tenant
      → ((a b : String) → uid a ≡ uid b → a ≡ b)
      → ((id : String) → lookup row_id (uid id) db.connected_accounts ≡ none)
      → Unique row_id db.connected_accounts
      → ops.lower "meta" ≡ "meta"
      → let usable = (select_pages ops codec db pages gate).usable in
        length (connected_keys ops tenant (connect_pages ops codec uid now tenant user usable db))
        ≤ max limit (length (connected_keys ops tenant db))
  unfolding connect_pages
  connected_within now user limit pages gate db capped unloaded same inj fresh u plain =
      let s = select_pages ops codec db pages gate in
      let chosen = select-IsSelected ops codec db limit pages gate capped in
      let db' = save_pages ops codec uid now tenant user (reverse s.usable) db in
      let loaded : channel_keys ops gate db ≡ connected_keys ops tenant db =
        loaded_keys gate db unloaded same in
      let bound =
        subset-length (connected_keys ops tenant db') (channel_keys ops s.gate db)
          (connected-Distinct ops
            (map (λ (v : AccountView). v.account) (list_connected_accounts none tenant db')))
          (λ k h.
            elim (saved_keys now user k (reverse s.usable) db inj u
              (all_ready (reverse s.usable) db.connected_accounts fresh)
              (sym (has-connected_keys ops tenant k db') ∙ h)) [
                | inl before ↦
                    chosen.grows k (rw loaded (has-connected_keys ops tenant k db ∙ before))
                | inr page ↦
                    page_key_in k s.usable (channel_keys ops s.gate db) plain chosen.usable_in
                      (IsPageKey-reverse k s.usable page)
              ]) in
      let within = rw loaded at chosen.within in omega (arith, bound, within)
