-- ===== src/Campaigns/Owned.antt =====
-- The campaign that a request works on.
use mathlib.Core.List.{reverse, reverse-cons}
use omni_flow.Prelude.{
  ◌≡◌, refl, sym, ap, ◌∙◌, ◌⊎◌, inl, inr, arith, String, some, List, [], ◌∷◌, ◌++◌, All, map, ◌==◌,
  ==_iff, string_eq, ◌&&◌, if◌then◌else◌, Bool-cases, Option-cases,
}
use omni_flow.TextOps.{TextOps}
use omni_flow.Slugs.{scoped_id}
use omni_flow.Schemas.{Campaign}
use omni_flow.Store.{Moment, CampaignRow, Database}
use omni_flow.Store.Campaigns.{
  row_campaign, is_foreign_campaign, save_campaign, get_campaign, list_campaigns,
}
use omni_flow.Sql.{find, select}
use omni_flow.Sql.Rows.{find-holds}
use omni_flow.Sql.Order.{select-All}
use omni_flow.Campaigns.{
  build_strategy, new_campaign, default_campaign, newest_or_demo, requested, resolve_campaign,
}

module _ (ops : TextOps) (uid : String) (now : Moment) (tenant : String) where
  found_own :
      (id : String) (db : Database) (c : Campaign)
      → get_campaign id tenant db ≡ some c
      → c.tenant_id ≡ tenant
  unfolding get_campaign
  found_own id db c found =
      let at = λ (r : CampaignRow). r.id == id && r.tenant_id == tenant in
      elim (Option-cases (find at db.campaigns)) [
        | inl missing ↦ cc (rw missing at found)
        | inr (row, there) ↦
            let e = rw there at found in
            let same : row_campaign row ≡ c = cc e in
            sym (ap (λ (d : Campaign). d.tenant_id) same)
            ∙ ground (arith, ==_iff row.tenant_id tenant, find-holds at db.campaigns row there)
      ]

  All-append :
      (rows : List CampaignRow) (r : CampaignRow)
      → All (λ (s : CampaignRow). s.tenant_id ≡ tenant) rows
      → r.tenant_id ≡ tenant
      → All (λ (s : CampaignRow). s.tenant_id ≡ tenant) (rows ++ r ∷ [])
  All-append [] r all own = (own, tt)
  All-append (s ∷ rows) r all own = (all.0, All-append rows r all.1 own)

  All-reverse :
      (rows : List CampaignRow)
      → All (λ (s : CampaignRow). s.tenant_id ≡ tenant) rows
      → All (λ (s : CampaignRow). s.tenant_id ≡ tenant) (reverse rows)
  All-reverse [] all = tt
  All-reverse (r ∷ rows) all =
      rw (reverse-cons r rows) (All-append (reverse rows) r (All-reverse rows all.1) all.0)

  head_own :
      (rows : List CampaignRow) (c : Campaign) (rest : List Campaign)
      → All (λ (s : CampaignRow). s.tenant_id ≡ tenant) rows
      → map row_campaign rows ≡ c ∷ rest
      → c.tenant_id ≡ tenant
  head_own [] c rest all listed = cc listed
  head_own (r ∷ rows) c rest all listed =
      let same : row_campaign r ≡ c = cc listed in
      sym (ap (λ (d : Campaign). d.tenant_id) same) ∙ all.0

  newest_own :
      (db : Database) (c : Campaign) (rest : List Campaign)
      → list_campaigns tenant db ≡ c ∷ rest
      → c.tenant_id ≡ tenant
  unfolding list_campaigns
  newest_own db c rest listed =
      let mine = select (λ (r : CampaignRow). r.tenant_id == tenant) db.campaigns in
      head_own (reverse mine) c rest
        (All-reverse mine (
          select-All (λ (r : CampaignRow). r.tenant_id ≡ tenant)
            (λ (r : CampaignRow). r.tenant_id == tenant) db.campaigns
            (λ r h. (==_iff r.tenant_id tenant).0 h)))
        listed

  saved_own :
      (item c : Campaign) (db : Database)
      → item.tenant_id ≡ tenant
      → (save_campaign now item db).0 ≡ some c
      → c.tenant_id ≡ tenant
  unfolding save_campaign
  saved_own item c db own done = elim (Bool-cases (is_foreign_campaign item db)) [
    | inl foreign ↦ let e = rw (foreign, save_campaign) at done in cc e
    | inr mine ↦
        let e : some (record item { updated_at = now }) ≡ some c =
          rw (mine, save_campaign) at done in
        let same : record item { updated_at = now } ≡ c = cc e in
        sym (ap (λ (d : Campaign). d.tenant_id) same) ∙ own
  ]

  asked_own :
      (id : String) (db : Database) (c : Campaign)
      → requested ops uid now tenant id db ≡ some c
      → c.tenant_id ≡ tenant
  asked_own id db c found = elim (Bool-cases (id == "")) [
    | inl blank ↦ let e = rw blank at found in cc e
    | inr given ↦ found_own id db c (rw given at found)
  ]

  newest_or_demo-owned :
      (id : String) (db : Database) (c : Campaign) (listed : List Campaign)
      → list_campaigns tenant db ≡ listed
      → let end = newest_or_demo ops uid now tenant id listed db in
        end.0 ≡ some c → (c.tenant_id ≡ tenant) × ((end.1 ≡ db) ⊎ (list_campaigns tenant db ≡ []))
  unfolding build_strategy
  newest_or_demo-owned id db c [] listed done =
      let id' = scoped_id (if id == "" then uid else id) tenant in
      (
        saved_own (build_strategy ops now (new_campaign id' now tenant default_campaign)) c db refl
            done,
        inr listed,
      )
  newest_or_demo-owned id db c (newest ∷ rest) listed done =
      let same : newest ≡ c = cc done in
      (rw (sym same) (newest_own db newest rest listed), inl refl)

  -- The campaign that a request works on is the workspace's own, whatever id is asked for; nothing is
  -- stored unless the workspace has no campaign at all.
  pub resolve_campaign-owned :
      (id : String) (db : Database) (c : Campaign)
      → (resolve_campaign ops uid now tenant id db).0 ≡ some c
      → (c.tenant_id ≡ tenant)
        × (((resolve_campaign ops uid now tenant id db).1 ≡ db) ⊎ (list_campaigns tenant db ≡ []))
  unfolding resolve_campaign
  resolve_campaign-owned id db c done = elim (Option-cases (requested ops uid now tenant id db)) [
    | inl missing ↦
        rw (missing, resolve_campaign)
          (newest_or_demo-owned id db c (list_campaigns tenant db) refl
            (rw (missing, resolve_campaign) at done))
    | inr (asked, found) ↦
        let e = rw (found, resolve_campaign) at done in
        let same : asked ≡ c = cc e in
        rw (found, resolve_campaign) (rw (sym same) (asked_own id db asked found), inl refl)
  ]
