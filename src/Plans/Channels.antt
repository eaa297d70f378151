-- ===== src/Plans/Channels.antt =====
-- app/plans.py: which connected accounts count as a channel. A set of keys is a list without
-- duplicates.
pub mod Sets
use omni_flow.Prelude.{
  ◌≡◌, ◌↔◌, String, Bool, true, false, List, [], ◌∷◌, arith, ◌==◌, ==_iff, string_eq, KeyType, ◌||◌,
  if◌then◌else◌,
}
use omni_flow.TextOps.{TextOps}
use omni_flow.Store.{ConnectedAccount}

-- `(platform, account_id)` or `(platform,)`.
pub data ChannelKey : Type 0 where
  of_account : String → String → ChannelKey
  of_platform : String → ChannelKey

abbrev pub channel_agrees : ChannelKey → ChannelKey → Bool
channel_agrees (of_account p a) (of_account q b) = if p == q then a == b else false
channel_agrees (of_platform p) (of_platform q) = p == q
channel_agrees _ _ = false

pub channel_agrees_iff : (j k : ChannelKey) → (channel_agrees j k ≡ true) ↔ (j ≡ k)
channel_agrees_iff (of_account p a) (of_account q b) = ground (arith, ==_iff p q, ==_iff a b)
channel_agrees_iff (of_platform p) (of_platform q) = ground (arith, ==_iff p q)
channel_agrees_iff (of_account p a) (of_platform q) = ground arith
channel_agrees_iff (of_platform p) (of_account q b) = ground arith

instance abbrev pub channel_eq : KeyType ChannelKey
channel_eq = record { agree_iff = channel_agrees_iff; agree = channel_agrees }

-- `platform in MULTI_ACCOUNT_PLATFORMS`
abbrev pub is_multi_account : String → Bool
is_multi_account platform =
    platform == "meta" || (platform == "instagram" || platform == "meta_ads")

abbrev pub is_no_channel : String → Bool
is_no_channel platform = platform == "webhook"

-- `key in keys` and `keys.add(key)`.
unfoldable pub has_key : ChannelKey → List ChannelKey → Bool
has_key k [] = false
has_key k (j ∷ keys) = j == k || has_key k keys

unfoldable pub add_key : ChannelKey → List ChannelKey → List ChannelKey
unfolding has_key
add_key k keys = if has_key k keys then keys else k ∷ keys

module _ (ops : TextOps) where
  unfoldable pub channel_key : String → String → ChannelKey
  channel_key platform account =
      if is_multi_account (ops.lower platform)
      then of_account (ops.lower platform) account
      else of_platform (ops.lower platform)

  abbrev pub is_counted : ConnectedAccount → Bool
  is_counted account =
      if is_no_channel (ops.lower account.platform) then false else account.status == "connected"

  unfoldable pub connected_channel_keys : List ConnectedAccount → List ChannelKey
  unfolding channel_key add_key
  connected_channel_keys [] = []
  connected_channel_keys (account ∷ accounts) =
      let keys = connected_channel_keys accounts in
      if is_counted account
      then add_key (channel_key account.platform account.account_id) keys
      else keys
