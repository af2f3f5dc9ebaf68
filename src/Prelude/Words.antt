-- ===== src/Prelude/Words.antt =====
-- Machine words as native numbers, and the C type `int`.
-- A cast to a width is a remainder, `x & (2^k - 1)` is `% 2 ^ k`, `x >> k` is `/ 2 ^ k`.
use Prim.Native.Nat.{ℕ, ◌*◌, ◌/◌, ◌%◌, ◌^◌, ◌-◌, ◌<◌}
use mathlib.Core.Bool.{Bool, true, not}
use modbus_protocol.Prelude.Tests.{◌==◌}

abbrev pub u8 : ℕ → ℕ
u8 n = n % 2 ^ 8

abbrev pub u16 : ℕ → ℕ
u16 n = n % 2 ^ 16

abbrev pub u32 : ℕ → ℕ
u32 n = n % 2 ^ 32

infixl 72 ◌<<<◌ ◌>>>◌
abbrev pub ◌<<<◌ : ℕ → ℕ → ℕ
x <<< k = x * 2 ^ k

abbrev pub ◌>>>◌ : ℕ → ℕ → ℕ
x >>> k = x / 2 ^ k

-- `x & (2^k - 1)`.
abbrev pub low_bits : ℕ → ℕ → ℕ
low_bits x k = x % 2 ^ k

abbrev pub IsByte : ℕ → Type 0
IsByte b = b < 256

abbrev pub IsU16 : ℕ → Type 0
IsU16 v = v < 65536

-- `negsuc n` is -(n + 1).
pub data ℤ : Type 0 where
  pos : ℕ → ℤ
  negsuc : ℕ → ℤ

-- `rc != 0`
abbrev pub failed : ℤ → Bool
failed (pos rc) = not (rc == 0)
failed (negsuc _) = true

-- The cast of an `int` to `unsigned`.
abbrev pub unsigned : ℤ → ℕ
unsigned (pos n) = u32 n
unsigned (negsuc n) = 2 ^ 32 - 1 - u32 n
