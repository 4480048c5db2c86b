-- ===== src/Prelude/Int.antt =====
-- The signed integers over the native numbers: keys of rows (`i64`), with their equality and order.
use Prim.Native.Nat.{ℕ}
use mathlib.Core.Path.{◌≡◌}
use mathlib.Core.Logic.{◌↔◌}
use mathlib.Core.Bool.{Bool, true, false}
use native.Mathlib.Omega.{arith}
use velocidb.Prelude.Tests.{ltb, nat_beq, nat_beq_iff}
use velocidb.Prelude.Classes.{Key}

pub data ℤ : Type 0 where
  pos negsuc : ℕ → ℤ

unfoldable pub int_beq : ℤ → ℤ → Bool
int_beq (pos m) (pos n) = nat_beq m n
int_beq (negsuc m) (negsuc n) = nat_beq m n
int_beq _ _ = false

unfoldable pub int_ltb : ℤ → ℤ → Bool
int_ltb (pos m) (pos n) = ltb m n
int_ltb (negsuc m) (negsuc n) = ltb n m
int_ltb (negsuc m) (pos n) = true
int_ltb (pos m) (negsuc n) = false

pub int_beq_iff : (a b : ℤ) → (int_beq a b ≡ true) ↔ (a ≡ b)
unfolding int_beq
int_beq_iff (pos m) (pos n) = ground (arith, nat_beq_iff m n)
int_beq_iff (negsuc m) (negsuc n) = ground (arith, nat_beq_iff m n)
int_beq_iff (pos m) (negsuc n) = ground arith
int_beq_iff (negsuc m) (pos n) = ground arith

instance abbrev pub int_eq : Key ℤ
int_eq = record { same_key = int_beq; same_key_iff = int_beq_iff }
