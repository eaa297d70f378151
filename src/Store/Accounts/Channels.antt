-- ===== src/Store/Accounts/Channels.antt =====
-- Connecting an account: a workspace has one row for each channel, and no other workspace's row is
-- touched.
use omni_flow.Prelude.{
  ◌≡◌, refl, ap, ◌∙◌, ◌⊎◌, inl, inr, String, false, Option, none, some, List, [], ◌∷◌, arith, ◌==◌,
  ==_iff, ==_refl, string_eq, triple_eq, ◌&&◌, Option-cases, Bool-cases,
}
use omni_flow.Sql.{find, lookup}
use omni_flow.Sql.Keys.{
  Unique, lookup-key, lookup-append, lookup-update, append-Unique, update-Unique,
}
use omni_flow.Store.{ConnectedAccount}
use omni_flow.Store.Accounts.{is_channel, refresh, put_account}

abbrev pub channel_of : ConnectedAccount → String × String × String
channel_of r = (r.tenant_id, r.platform, r.account_id)

-- The rows of `connected_accounts` by channel.
abbrev pub find_channel : String × String × String → List ConnectedAccount → Option ConnectedAccount
find_channel = lookup channel_of

pub find-is_channel :
    (tenant platform account : String) (rows : List ConnectedAccount)
    → find (is_channel tenant platform account) rows ≡ find_channel (tenant, platform, account) rows
unfolding find lookup
find-is_channel tenant platform account [] = refl
find-is_channel tenant platform account (r ∷ rows) =
    ground (arith, find-is_channel tenant platform account rows)

abbrev pub connected : ConnectedAccount → Option ConnectedAccount → ConnectedAccount
connected row none = row
connected row (some stored) = refresh row stored

pub put_own :
    (row : ConnectedAccount) (rows : List ConnectedAccount)
    → find_channel (channel_of row) (put_account row rows)
      ≡ some (connected row (find_channel (channel_of row) rows))
unfolding put_account
put_own row rows = elim (Option-cases (find_channel (channel_of row) rows)) [
  | inl missing ↦
      rw (find-is_channel row.tenant_id row.platform row.account_id rows, missing, put_account)
        (lookup-append channel_of (channel_of row) rows row
          ∙ rw (missing, ==_refl (channel_of row)))
  | inr (stored, found) ↦
      let same = lookup-key channel_of (channel_of row) rows stored found in
      rw (find-is_channel row.tenant_id row.platform row.account_id rows, found, put_account)
        (lookup-update channel_of (channel_of row)
            (λ r. r.id == stored.id && r.tenant_id == row.tenant_id) (refresh row) rows (λ r. refl)
          ∙ rw found (
              rw (==_refl stored.id)
                (rw ((==_iff stored.tenant_id row.tenant_id).1 (ap (λ k. k.0) same)))))
]

put_other :
    (row : ConnectedAccount) (other : String × String × String) (rows : List ConnectedAccount)
    → (other.0 == row.tenant_id) ≡ false
    → find_channel other (put_account row rows) ≡ find_channel other rows
unfolding put_account
put_other row other rows ne = elim (Option-cases (find_channel (channel_of row) rows)) [
  | inl missing ↦
      rw (find-is_channel row.tenant_id row.platform row.account_id rows, missing, put_account)
        (lookup-append channel_of other rows row
          ∙ ground (arith, ==_iff row.tenant_id other.0, ==_iff other.0 row.tenant_id))
  | inr (stored, found) ↦
      rw (find-is_channel row.tenant_id row.platform row.account_id rows, found, put_account)
        (lookup-update channel_of other (λ r. r.id == stored.id && r.tenant_id == row.tenant_id)
            (refresh row) rows (λ r. refl)
          ∙ elim (Option-cases (find_channel other rows)) [
            | inl none_there ↦ rw none_there
            | inr (r, there) ↦
                let same = ap (λ k. k.0) (lookup-key channel_of other rows r there) in
                rw there (
                  ground
                    (arith, ==_iff r.tenant_id row.tenant_id, ==_iff other.0 row.tenant_id, same))
          ])
]

-- Connecting an account leaves its channel with the new name, token and status, on the row that it
-- had if there was one, and leaves the channels of other workspaces as they are.
pub put_account_lem :
    (row : ConnectedAccount) (other : String × String × String) (rows : List ConnectedAccount)
    → let rows' = put_account row rows in
      (find_channel (channel_of row) rows'
        ≡ some (connected row (find_channel (channel_of row) rows)))
      × ((other.0 ≡ row.tenant_id) ⊎ (find_channel other rows' ≡ find_channel other rows))
put_account_lem row other rows = (
  put_own row rows,
  elim (Bool-cases (other.0 == row.tenant_id)) [
    | inl same ↦ inl ((==_iff other.0 row.tenant_id).0 same)
    | inr ne ↦ inr (put_other row other rows ne)
  ],
)

-- The constraint that a channel has one row is kept.
pub put_account-Unique :
    (row : ConnectedAccount) (rows : List ConnectedAccount)
    → Unique channel_of rows
    → Unique channel_of (put_account row rows)
unfolding put_account
put_account-Unique row rows u = elim (Option-cases (find_channel (channel_of row) rows)) [
  | inl missing ↦
      rw (find-is_channel row.tenant_id row.platform row.account_id rows, missing, put_account)
        (append-Unique channel_of row rows missing u)
  | inr (stored, found) ↦
      rw (find-is_channel row.tenant_id row.platform row.account_id rows, found, put_account)
        (update-Unique channel_of (λ r. r.id == stored.id && r.tenant_id == row.tenant_id)
          (refresh row) rows (λ r. refl) u)
]
