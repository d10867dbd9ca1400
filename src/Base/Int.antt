-- ===== src/Base/Int.antt =====
-- Signed integers over the native numbers: `negsuc n` is -(n + 1).
use Prim.Native.Nat.{ℕ, ◌-◌, ◌%◌, ◌^◌}
use jobmaster.Base.Tests.{ltb, if◌then◌else◌}

pub data ℤ : Type 0 where
  pos : ℕ → ℤ
  negsuc : ℕ → ℤ

-- The two's complement pattern of w bits, read as a signed number.
signed_of : ℕ → ℕ → ℤ
signed_of w n = if ltb n (2 ^ (w - 1)) then pos n else negsuc (2 ^ w - n - 1)

-- Go's conversion to int32 keeps the low 32 bits.
unfoldable pub to_int32 : ℤ → ℤ
unfolding signed_of
to_int32 (pos n) = signed_of 32 (n % 2 ^ 32)
to_int32 (negsuc n) = signed_of 32 (2 ^ 32 - n % 2 ^ 32 - 1)
