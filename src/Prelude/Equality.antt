-- ===== src/Prelude/Equality.antt =====
-- Equality tests as an interface: numbers, texts and pairs of these are keys of tables.
use Prim.Native.Nat.{ℕ}
use Prim.Native.String.{String}
use mathlib.Core.Path.{◌≡◌, refl}
use mathlib.Core.Logic.{◌↔◌, ◌≢◌}
use mathlib.Core.Bool.{Bool, true, false, ◌&&◌}
use native.Mathlib.Omega.{arith}
use text.Mathlib.Text.{◌==◌ as str_eq}
use text.Mathlib.TextEquality.{eq_iff}
use omni_flow.Prelude.Tests.{nat_beq, nat_beq_iff}

-- A type whose values can be the key of a table.
pub record KeyType {ℓ} (K : Type ℓ) : Type ℓ where
  pub agree : K → K → Bool
  pub agree_iff : (j k : K) → (agree j k ≡ true) ↔ (j ≡ k)

abbrev pub ◌==◌ {ℓ} : {K : Type ℓ} ⦃key : KeyType K⦄ → K → K → Bool
◌==◌ ⦃key⦄ j k = key.agree j k

infix 50 ◌==◌
instance abbrev pub string_eq : KeyType String
string_eq = record { agree_iff = eq_iff; agree = str_eq }

pub ==_iff {ℓ} : {A : Type ℓ} ⦃e : KeyType A⦄ (a b : A) → ((a == b) ≡ true) ↔ (a ≡ b)
==_iff ⦃e⦄ = e.agree_iff

pub ==_refl {ℓ} : {A : Type ℓ} ⦃e : KeyType A⦄ (a : A) → (a == a) ≡ true
==_refl a = (==_iff a a).1 refl

pub ==_ne {ℓ} : {A : Type ℓ} ⦃e : KeyType A⦄ (a b : A) → a ≢ b → (a == b) ≡ false
==_ne a b h = ground (arith, ==_iff a b)

abbrev pub both_agree : String × String → String × String → Bool
both_agree (a, b) (c, d) = str_eq a c && str_eq b d

pub both_agree_iff : (p q : String × String) → (both_agree p q ≡ true) ↔ (p ≡ q)
both_agree_iff (a, b) (c, d) = ground (arith, eq_iff a c, eq_iff b d)

-- The composite keys of the schema: `(email, purpose)` and `(tenant_id, comment_id)`.
instance abbrev pub pair_eq : KeyType (String × String)
pair_eq = record { agree_iff = both_agree_iff; agree = both_agree }

abbrev pub all_agree : String × String × String → String × String × String → Bool
all_agree (a, b, c) (d, e, f) = str_eq a d && str_eq b e && str_eq c f

pub all_agree_iff : (p q : String × String × String) → (all_agree p q ≡ true) ↔ (p ≡ q)
all_agree_iff (a, b, c) (d, e, f) = ground (arith, eq_iff a d, eq_iff b e, eq_iff c f)

-- A channel: `(tenant_id, platform, account_id)`.
instance abbrev pub triple_eq : KeyType (String × String × String)
triple_eq = record { agree_iff = all_agree_iff; agree = all_agree }

-- The counts that rows are compared by.
instance abbrev pub nat_eq : KeyType ℕ
nat_eq = record { agree_iff = nat_beq_iff; agree = nat_beq }
