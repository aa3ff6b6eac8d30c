-- ===== src/Common/Int.antt =====
-- Signed integers over the native numbers, under the library's names.
use canopen_asyncio.Common.Tests.{leb, if◌then◌else◌}
use Prim.Native.Nat.{ℕ, ◌+◌, ◌-◌, ◌*◌, ◌/◌, ◌%◌, ◌^◌, bit_and, bit_or}

-- `negsuc n` is -(n + 1).
pub data ℤ : Type 0 where
  pos : ℕ → ℤ
  negsuc : ℕ → ℤ

-- `a - b`
unfoldable pub difference : ℕ → ℕ → ℤ
difference a b = if leb b a then pos (a - b) else negsuc (b - a - 1)

-- `z >> n`: a negative number is rounded down.
unfoldable pub shift_right : ℤ → ℕ → ℤ
shift_right (pos x) n = pos (x / 2 ^ n)
shift_right (negsuc x) n = negsuc (x / 2 ^ n)

-- `z << n`
unfoldable pub shift_left : ℤ → ℕ → ℤ
shift_left (pos x) n = pos (x * 2 ^ n)
shift_left (negsuc x) n = negsuc ((x + 1) * 2 ^ n - 1)

-- `z & ((1 << n) - 1)`, of a number in two's complement.
unfoldable pub low_bits : ℤ → ℕ → ℕ
low_bits (pos x) n = x % 2 ^ n
low_bits (negsuc x) n = 2 ^ n - 1 - x % 2 ^ n

-- `z | c`, for a c that is not negative.
unfoldable pub or_bits : ℤ → ℕ → ℤ
or_bits (pos x) c = pos (bit_or x c)
or_bits (negsuc x) c = negsuc (x - bit_and x c)
