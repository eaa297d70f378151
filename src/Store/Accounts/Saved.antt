-- ===== src/Store/Accounts/Saved.antt =====
-- Which channels of a workspace count after an account was saved.
use mathlib.Core.Option
use omni_flow.Prelude.{
  ◌≡◌, refl, sym, ap, ◌∙◌, ◌⊎◌, inl, inr, arith, String, Bool, true, false, Option, none, some,
  List, [], ◌∷◌, ◌==◌, ==_iff, string_eq, triple_eq, ◌&&◌, Bool-cases, Option-cases, is_some, Among,
}
use omni_flow.TextOps.{TextOps}
use omni_flow.Sql.{find, lookup, update}
use omni_flow.Sql.Rows.{find-append, find-holds}
use omni_flow.Sql.Keys.{Unique, lookup-append, lookup-update, append-Unique, update-Unique}
use omni_flow.Sql.Keys.Found.{lookup_of_find, lookup-Among}
use omni_flow.Store.{ConnectedAccount}
use omni_flow.Store.Accounts.{is_channel, refresh, put_account}
use omni_flow.Store.Accounts.Channels.{channel_of, find_channel, find-is_channel}
use omni_flow.Plans.Channels.{ChannelKey, channel_eq, channel_key, is_counted}
use omni_flow.Plans.Channels.Sets.{counts}

abbrev pub row_id : ConnectedAccount → String
row_id r = r.id

-- A row that counts as a channel of the workspace.
abbrev pub counts_in : TextOps → String → ChannelKey → ConnectedAccount → Bool
counts_in ops tenant k r = (r.tenant_id == tenant && true) && counts ops k r

second : (a : Bool) {b : Bool} → (a && b) ≡ true → b ≡ true
second true h = h
second false h = absurd (cc h)

counts_key :
    (ops : TextOps) (tenant : String) (k : ChannelKey) (r : ConnectedAccount)
    → counts_in ops tenant k r ≡ true
    → channel_key ops r.platform r.account_id ≡ k
counts_key ops tenant k r h =
    (==_iff (channel_key ops r.platform r.account_id) k).0
      (second (is_counted ops r) (second (r.tenant_id == tenant && true) h))

parts_of :
    (row stored : ConnectedAccount)
    → is_channel row.tenant_id row.platform row.account_id stored ≡ true
    → (stored.platform ≡ row.platform) × (stored.account_id ≡ row.account_id)
parts_of row stored h = (
  ground (arith, ==_iff stored.platform row.platform),
  ground (arith, ==_iff stored.account_id row.account_id),
)

module _ (ops : TextOps) (tenant : String) (k : ChannelKey) where
  updated_counts :
      (q : ConnectedAccount → Bool) (row : ConnectedAccount) (rows : List ConnectedAccount)
      → ((r : ConnectedAccount)
          → Among r rows
          → q r ≡ true
          → channel_key ops r.platform r.account_id ≡ channel_key ops row.platform row.account_id)
      → is_some (find (counts_in ops tenant k) (update q (refresh row) rows)) ≡ true
      → (is_some (find (counts_in ops tenant k) rows) ≡ true)
        ⊎ (channel_key ops row.platform row.account_id ≡ k)
  unfolding find update
  updated_counts q row [] own h = ground arith
  updated_counts q row (r ∷ rows) own h = elim (Bool-cases (counts_in ops tenant k r)) [
    | inl counted ↦ rw counted (inl refl)
    | inr not_so ↦ rw not_so (elim (Bool-cases (q r)) [
      | inl fits ↦
          let h' = rw fits at h in
          elim (Bool-cases (counts_in ops tenant k (refresh row r))) [
            | inl now_counted ↦
                inr (
                  sym (own r (inl refl) fits) ∙ counts_key ops tenant k (refresh row r) now_counted)
            | inr still ↦ updated_counts q row rows (λ s among. own s (inr among)) (rw still at h')
          ]
      | inr other ↦
          let h' = rw other at h in
          updated_counts q row rows (λ s among. own s (inr among)) (rw not_so at h')
    ])
  ]

  pub put_counts :
      (row : ConnectedAccount) (rows : List ConnectedAccount)
      → Unique row_id rows
      → is_some (find (counts_in ops tenant k) (put_account row rows)) ≡ true
      → (is_some (find (counts_in ops tenant k) rows) ≡ true)
        ⊎ (channel_key ops row.platform row.account_id ≡ k)
  unfolding put_account find
  put_counts row rows u h =
      let at = is_channel row.tenant_id row.platform row.account_id in
      elim (Option-cases (find at rows)) [
        | inl missing ↦
            let e = rw (missing, put_account) at h in
            let e' = rw (find-append (counts_in ops tenant k) rows (row ∷ [])) at e in
            elim (Bool-cases (is_some (find (counts_in ops tenant k) rows))) [
              | inl before ↦ inl before
              | inr new ↦
                  let e'' = rw new at e' in
                  elim (Bool-cases (counts_in ops tenant k row)) [
                    | inl counted ↦ inr (counts_key ops tenant k row counted)
                    | inr not_so ↦ absurd (cc (rw not_so at e''))
                  ]
            ]
        | inr (stored, found) ↦
            let e = rw (found, put_account) at h in
            updated_counts (λ r. r.id == stored.id && r.tenant_id == row.tenant_id) row rows
              (λ r among fits.
                let same_id : r.id ≡ stored.id = (==_iff r.id stored.id).0 (ground arith) in
                let one = lookup_of_find row_id at rows stored u found in
                let two = lookup-Among row_id rows r u among in
                let same : r ≡ stored =
                  let two' : lookup row_id stored.id rows ≡ some r =
                    ap (λ i. lookup row_id i rows) (sym same_id) ∙ two in
                  cc (one, two') in
                rw same (
                  rw (parts_of row stored (find-holds at rows stored found)).0
                    (rw (parts_of row stored (find-holds at rows stored found)).1 refl)))
              e
      ]

is_some-map :
    (f : ConnectedAccount → ConnectedAccount) (o : Option ConnectedAccount)
    → is_some o ≡ true
    → is_some (Option.map f o) ≡ true
is_some-map f none h = h
is_some-map f (some r) h = refl

-- Saving keeps ids apart, if the row brings a new one or its channel has a row already.
pub put-Unique_ids :
    (row : ConnectedAccount) (rows : List ConnectedAccount)
    → Unique row_id rows
    → (lookup row_id row.id rows ≡ none) ⊎ (is_some (find_channel (channel_of row) rows) ≡ true)
    → Unique row_id (put_account row rows)
unfolding put_account
put-Unique_ids row rows u ready =
    elim (Option-cases (find (is_channel row.tenant_id row.platform row.account_id) rows)) [
      | inr (stored, found) ↦
          rw (found, put_account)
            (update-Unique row_id (λ r. r.id == stored.id && r.tenant_id == row.tenant_id)
              (refresh row) rows (λ r. refl) u)
      | inl missing ↦
          rw (missing, put_account)
            (append-Unique row_id row rows
              (elim ready [
                | inl fresh ↦ fresh
                | inr there ↦
                    let e =
                      rw
                        (sym (find-is_channel row.tenant_id row.platform row.account_id rows)
                          ∙ missing)
                        at there in
                    absurd (cc e)
              ])
              u)
    ]

-- A channel that has a row keeps one.
pub put_keeps_channel :
    (row : ConnectedAccount) (c : String × String × String) (rows : List ConnectedAccount)
    → is_some (find_channel c rows) ≡ true
    → is_some (find_channel c (put_account row rows)) ≡ true
unfolding put_account
put_keeps_channel row c rows there =
    elim (Option-cases (find (is_channel row.tenant_id row.platform row.account_id) rows)) [
      | inl missing ↦
          rw (missing, put_account) (rw (lookup-append channel_of c rows row) (rw there there))
      | inr (stored, found) ↦
          rw (found, put_account)
            (rw
              (lookup-update channel_of c (λ r. r.id == stored.id && r.tenant_id == row.tenant_id)
                (refresh row) rows (λ r. refl))
              (is_some-map _ (find_channel c rows) there))
    ]

-- An id that no row has, other than the one of the row, still has none.
pub put_keeps_fresh :
    (row : ConnectedAccount) (id : String) (rows : List ConnectedAccount)
    → (row.id == id) ≡ false
    → lookup row_id id rows ≡ none
    → lookup row_id id (put_account row rows) ≡ none
unfolding put_account
put_keeps_fresh row id rows apart fresh =
    elim (Option-cases (find (is_channel row.tenant_id row.platform row.account_id) rows)) [
      | inl missing ↦
          rw (missing, put_account) (lookup-append row_id id rows row ∙ rw fresh (rw apart refl))
      | inr (stored, found) ↦
          rw (found, put_account)
            (lookup-update row_id id (λ r. r.id == stored.id && r.tenant_id == row.tenant_id)
                (refresh row) rows (λ r. refl)
              ∙ rw fresh refl)
    ]
