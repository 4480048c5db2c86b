-- ===== src/Prelude/Classes.antt =====
-- Equality tests by instance: the keys of maps are numbers or texts.
use Prim.Native.Nat.{ℕ}
use Prim.Native.String.{String}
use mathlib.Core.Path.{◌≡◌, refl}
use mathlib.Core.Logic.{◌↔◌}
use mathlib.Core.Bool.{Bool, true}
use text.Mathlib.Text.{◌==◌ as str_beq}
use text.Mathlib.TextEquality.{eq_iff}
use velocidb.Prelude.Tests.{nat_beq, nat_beq_iff}

-- What `HashMap` needs of its keys: an equality test that decides equality.
pub record Key {ℓ} (K : Type ℓ) : Type ℓ where
  pub same_key : K → K → Bool
  pub same_key_iff : (j k : K) → (same_key j k ≡ true) ↔ (j ≡ k)

instance abbrev pub string_eq : Key String
string_eq = record { same_key = str_beq; same_key_iff = eq_iff }

instance abbrev pub nat_eq : Key ℕ
nat_eq = record { same_key = nat_beq; same_key_iff = nat_beq_iff }

module _ {ℓ} {K : Type ℓ} ⦃keys : Key K⦄ where
  infix 50 ◌==◌
  abbrev pub ◌==◌ : K → K → Bool
  j == k = keys.same_key j k

  pub ==_iff : (j k : K) → ((j == k) ≡ true) ↔ (j ≡ k)
  ==_iff j k = keys.same_key_iff j k

  pub ==_refl : (k : K) → (k == k) ≡ true
  ==_refl k = (keys.same_key_iff k k).1 refl
