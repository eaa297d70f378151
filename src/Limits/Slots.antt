-- ===== src/Limits/Slots.antt =====
-- The cap on connected channels.
use omni_flow.Prelude.{
  ℕ, suc, ◌≤◌, max, ◌≡◌, refl, ◌⊎◌, inl, inr, String, true, false, some, List, arith, ==_refl,
  Bool-cases, leb, length,
}
use omni_flow.TextOps.{TextOps}
use omni_flow.Store.{Database}
use omni_flow.Plans.Channels.{ChannelKey, channel_eq, channel_key, has_key, add_key}
use omni_flow.Limits.{
  granted, refused, channel_limit_reached, PlanGate, gate_plan, channel_keys, is_connected,
  require_channel_slot,
}

has_key-add_key : (k : ChannelKey) (keys : List ChannelKey) → has_key k (add_key k keys) ≡ true
unfolding add_key has_key
has_key-add_key k keys = elim (Bool-cases (has_key k keys)) [
  | inl there ↦ rw there there
  | inr new ↦ rw new (rw (==_refl k))
]

length-add_key :
    (k : ChannelKey) (keys : List ChannelKey) → length (add_key k keys) ≤ suc (length keys)
unfolding add_key
length-add_key k keys = ground arith

-- On a plan with a cap: a channel that is asked for is either granted, and counted from then on, or
-- refused, as it is not connected and the cap is reached. The channels counted never exceed the cap,
-- or the number that was connected before if that is larger.
pub channel_slot_cases :
    (ops : TextOps) (limit : ℕ) (platform account : String) (gate : PlanGate) (db : Database)
    → (gate_plan gate).channels ≡ some limit
    → let (answer, gate') = require_channel_slot ops platform account gate db in
      let before = channel_keys ops gate db in
      let after = channel_keys ops gate' db in
      (length after ≤ max limit (length before))
      × (((answer ≡ granted) × (is_connected ops platform account gate' db ≡ true))
          ⊎ ((answer ≡ refused (channel_limit_reached limit))
              × (is_connected ops platform account gate db ≡ false)
              × (limit ≤ length before)
              × (after ≡ before)))
unfolding require_channel_slot is_connected channel_keys
channel_slot_cases ops limit platform account gate db capped =
    let keys = channel_keys ops gate db in
    let k = channel_key ops platform account in
    rw (capped, require_channel_slot)
      (elim (Bool-cases (has_key k keys)) [
        | inl there ↦ rw there (omega arith, inl (refl, there))
        | inr new ↦ elim (Bool-cases (leb limit (length keys))) [
          | inl full ↦ rw new (rw full (omega arith, inr (refl, refl, ground arith, refl)))
          | inr room ↦
              rw new (
                rw room (ground (arith, length-add_key k keys), inl (refl, has_key-add_key k keys)))
        ]
      ])
