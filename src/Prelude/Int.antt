-- ===== src/Prelude/Int.antt =====
-- Signed integers over the native numbers, as far as the program compares and multiplies them, and
-- the wrap-around of int64.
use Prim.Native.Nat.{ℕ, suc, ◌+◌, ◌-◌, ◌*◌, ◌%◌, ◌^◌, ◌≤◌}
use mathlib.Core.Path.{◌≡◌}
use mathlib.Core.Bool.{Bool, false}
use native.Mathlib.Omega.{arith}
use lctk.Prelude.Tests.{ltb, leb, if◌then◌else◌}

-- `negsuc n` is -(n + 1).
pub data ℤ : Type 0 where
  pos : ℕ → ℤ
  negsuc : ℕ → ℤ

abbrev pub pos_part : ℤ → ℕ
pos_part (pos n) = n
pos_part (negsuc n) = 0

abbrev pub neg_part : ℤ → ℕ
neg_part (pos n) = 0
neg_part (negsuc n) = suc n

infix 50 ◌≤ℤ◌
abbrev pub ◌≤ℤ◌ : ℤ → ℤ → Type 0
a ≤ℤ b = pos_part a + neg_part b ≤ pos_part b + neg_part a

abbrev pub ltb_ℤ : ℤ → ℤ → Bool
ltb_ℤ a b = ltb (pos_part a + neg_part b) (pos_part b + neg_part a)

abbrev pub is_zero : ℤ → Bool
is_zero (pos n) = ltb n 1
is_zero (negsuc n) = false

-- The int64 that a product of `a` and a positive constant wraps round to.
unfoldable pub mul_i64 : ℤ → ℕ → ℤ
mul_i64 (pos n) k =
    let r = n * k % 2 ^ 64 in if ltb r (2 ^ 63) then pos r else negsuc (2 ^ 64 - r - 1)
mul_i64 (negsuc n) k =
    let r = suc n * k % 2 ^ 64 in
    if ltb r 1 then pos 0 else if leb r (2 ^ 63) then negsuc (r - 1) else pos (2 ^ 64 - r)

pub mul_i64-small : (n k : ℕ) → n * k ≤ 2 ^ 63 - 1 → mul_i64 (pos n) k ≡ pos (n * k)
unfolding mul_i64
mul_i64-small n k h = ground arith
