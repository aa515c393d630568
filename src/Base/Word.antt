-- ===== src/Base/Word.antt =====
-- Machine words as native numbers. A size_t is a number below 2 ^ 64. A signed integer is its
-- bit pattern in two's complement, and signed tests compare patterns with the sign bit flipped.
use Prim.Native.Nat.{ℕ, ◌+◌, ◌-◌, ◌/◌, ◌%◌, ◌^◌, ◌<◌}
use mathlib.Core.Bool.{Bool}
use wee.Base.Tests.{ltb, leb, if◌then◌else◌}

abbrev pub add_size : ℕ → ℕ → ℕ
add_size a b = (a + b) % 2 ^ 64

abbrev pub sub_size : ℕ → ℕ → ℕ
sub_size a b = (a + 2 ^ 64 - b) % 2 ^ 64

-- Buffers and packets are kept below half the address space.
abbrev pub max_size : ℕ
max_size = 2 ^ 63

abbrev pub IsByte : ℕ → Type 0
IsByte b = b < 256

-- a <= b at int32_t
abbrev pub sle32 : ℕ → ℕ → Bool
sle32 a b = leb ((a + 2 ^ 31) % 2 ^ 32) ((b + 2 ^ 31) % 2 ^ 32)

-- the pattern of -n at int32_t, for 0 < n
abbrev pub neg32 : ℕ → ℕ
neg32 n = 2 ^ 32 - n

-- x >> 8 and x >> 16 at int32_t keep the sign.
abbrev pub sar8 : ℕ → ℕ
sar8 x = if ltb x (2 ^ 31) then x / 2 ^ 8 else x / 2 ^ 8 + (2 ^ 32 - 2 ^ 24)

abbrev pub sar16 : ℕ → ℕ
sar16 x = if ltb x (2 ^ 31) then x / 2 ^ 16 else x / 2 ^ 16 + (2 ^ 32 - 2 ^ 16)

-- A conversion of int32_t to size_t keeps the sign; so does one of int16_t.
abbrev pub size_of_int32 : ℕ → ℕ
size_of_int32 x = if ltb x (2 ^ 31) then x else x + (2 ^ 64 - 2 ^ 32)

abbrev pub size_of_int16 : ℕ → ℕ
size_of_int16 x = if ltb x (2 ^ 15) then x else x + (2 ^ 64 - 2 ^ 16)

abbrev pub int32_of_int16 : ℕ → ℕ
int32_of_int16 x = if ltb x (2 ^ 15) then x else x + (2 ^ 32 - 2 ^ 16)
