-- ===== src/Plans/Channels/Sets.antt =====
-- The set of a workspace's channels: what is in it, and how large it is.
use omni_flow.Prelude.{
  suc, ◌≤◌, ◌≡◌, refl, ◌∙◌, arith, Bool, true, false, List, [], ◌∷◌, ◌==◌, ==_iff, ==_refl, ◌&&◌,
  ◌||◌, if◌then◌else◌, Bool-cases, inl, inr, is_some, length,
}
use omni_flow.TextOps.{TextOps}
use omni_flow.Sql.{find}
use omni_flow.Store.{ConnectedAccount}
use omni_flow.Plans.Channels.{
  ChannelKey, channel_eq, has_key, add_key, channel_key, is_counted, connected_channel_keys,
}

abbrev pub Distinct : List ChannelKey → Type 0
Distinct [] = Unit
Distinct (k ∷ keys) = (has_key k keys ≡ false) × Distinct keys

-- A row that counts as the channel of a key.
abbrev pub counts : TextOps → ChannelKey → ConnectedAccount → Bool
counts ops k r = is_counted ops r && channel_key ops r.platform r.account_id == k

pub has-add_key :
    (j k : ChannelKey) (keys : List ChannelKey)
    → has_key j (add_key k keys) ≡ (k == j || has_key j keys)
unfolding has_key add_key
has-add_key j k keys = elim (Bool-cases (has_key k keys)) [
  | inl there ↦ rw there (elim (Bool-cases (k == j)) [
    | inl same ↦ rw (← (==_iff k j).0 same) (rw there (rw (==_refl k) refl))
    | inr other ↦ rw other refl
  ])
  | inr new ↦ rw new refl
]

pub has-connected :
    (ops : TextOps) (k : ChannelKey) (rows : List ConnectedAccount)
    → has_key k (connected_channel_keys ops rows) ≡ is_some (find (counts ops k) rows)
unfolding connected_channel_keys find has_key
has-connected ops k [] = refl
has-connected ops k (r ∷ rows) = elim (Bool-cases (is_counted ops r)) [
  | inl counted ↦ rw counted (
      has-add_key k (channel_key ops r.platform r.account_id) (connected_channel_keys ops rows)
      ∙ ground (arith, has-connected ops k rows))
  | inr skipped ↦ rw skipped (has-connected ops k rows)
]

add-Distinct : (k : ChannelKey) (keys : List ChannelKey) → Distinct keys → Distinct (add_key k keys)
unfolding add_key
add-Distinct k keys d = elim (Bool-cases (has_key k keys)) [
  | inl there ↦ rw there d
  | inr new ↦ rw new (new, d)
]

pub connected-Distinct :
    (ops : TextOps) (rows : List ConnectedAccount) → Distinct (connected_channel_keys ops rows)
unfolding connected_channel_keys
connected-Distinct ops [] = tt
connected-Distinct ops (r ∷ rows) = elim (Bool-cases (is_counted ops r)) [
  | inl counted ↦ rw counted (
      add-Distinct (channel_key ops r.platform r.account_id) (connected_channel_keys ops rows)
        (connected-Distinct ops rows))
  | inr skipped ↦ rw skipped (connected-Distinct ops rows)
]

remove : ChannelKey → List ChannelKey → List ChannelKey
remove k [] = []
remove k (j ∷ keys) = if j == k then keys else j ∷ remove k keys

length-remove :
    (k : ChannelKey) (keys : List ChannelKey)
    → has_key k keys ≡ true
    → suc (length (remove k keys)) ≡ length keys
unfolding has_key remove
length-remove k [] h = ground arith
length-remove k (j ∷ keys) h = ground (arith, length-remove k keys)

has-remove :
    (j k : ChannelKey) (keys : List ChannelKey)
    → (k == j) ≡ false
    → has_key j keys ≡ true
    → has_key j (remove k keys) ≡ true
unfolding has_key remove
has-remove j k [] ne h = h
has-remove j k (i ∷ keys) ne h = elim (Bool-cases (i == k)) [
  | inl here ↦
      let apart : (i == j) ≡ false = rw ((==_iff i k).0 here) ne in
      rw here (let h' : (i == j || has_key j keys) ≡ true = h in rw apart at h')
  | inr on ↦ rw on (elim (Bool-cases (i == j)) [
    | inl first ↦ rw first refl
    | inr later ↦
        let h' : (i == j || has_key j keys) ≡ true = h in
        rw later (has-remove j k keys ne (rw later at h'))
  ])
]

has-other :
    (j k : ChannelKey) (keys : List ChannelKey)
    → has_key k keys ≡ false
    → has_key j keys ≡ true
    → (k == j) ≡ false
has-other j k keys missing there = elim (Bool-cases (k == j)) [
  | inl same ↦ let gone : has_key j keys ≡ false = rw ((==_iff k j).0 same) at missing in cc
  | inr other ↦ other
]

or_later : (b : Bool) {c : Bool} → c ≡ true → (b || c) ≡ true
or_later true h = refl
or_later false h = h

-- A set within a list is no longer than it.
pub subset-length :
    (small big : List ChannelKey)
    → Distinct small
    → ((k : ChannelKey) → has_key k small ≡ true → has_key k big ≡ true)
    → length small ≤ length big
unfolding has_key
subset-length [] big d within = omega arith
subset-length (k ∷ small) big d within =
    let there = within k (rw (==_refl k) refl) in
    let rest =
      subset-length small (remove k big) d.1
        (λ j h. has-remove j k big (has-other j k small d.0 h) (within j (or_later (k == j) h))) in
    omega (arith, length-remove k big there, rest)
