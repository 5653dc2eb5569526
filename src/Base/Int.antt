-- ===== src/Base/Int.antt =====
-- Integers over the native numbers: `negsuc n` is -(n + 1).
use Prim.Native.Nat.{ℕ, zero, suc, ◌+◌, ◌-◌, ◌^◌}
use spoofdb.Base.Tests.{ltb, leb, if◌then◌else◌}

pub data ℤ : Type 0 where
  pos : ℕ → ℤ
  negsuc : ℕ → ℤ

-- -n
abbrev pub neg : ℕ → ℤ
neg zero = pos 0
neg (suc n) = negsuc n

-- a - b, as an integer
abbrev pub sub_ℕ : ℕ → ℕ → ℤ
sub_ℕ m n = if leb n m then pos (m - n) else negsuc (n - m - 1)

infixl 65 ◌-ℤ◌
abbrev pub ◌-ℤ◌ : ℤ → ℤ → ℤ
pos m -ℤ pos n = sub_ℕ m n
pos m -ℤ negsuc n = pos (m + n + 1)
negsuc m -ℤ pos n = negsuc (m + n)
negsuc m -ℤ negsuc n = sub_ℕ n m

-- the nearest `int64`
abbrev pub clamp64 : ℤ → ℤ
clamp64 (pos n) = if ltb n (2 ^ 63) then pos n else pos (2 ^ 63 - 1)
clamp64 (negsuc n) = if ltb n (2 ^ 63) then negsuc n else negsuc (2 ^ 63 - 1)
