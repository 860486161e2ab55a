-- ===== src/Prelude/Words.antt =====
-- Machine words as native numbers: a w-bit word is its bit pattern, below 2 ^ w, and every
-- operation writes its wrap-around out.
mod BitBound
use Prim.Native.Nat.{ℕ, zero, suc, ◌+◌, ◌-◌, ◌*◌, ◌/◌, ◌%◌, ◌^◌, ◌≤◌, ◌<◌}
use mathlib.Core.Path.{◌≡◌, refl}
use mathlib.Core.Bool.{Bool, true, false}
use native.Mathlib.Omega.{arith}
use bpfabric.Prelude.Tests.{ltb, if◌then◌else◌}
pub use BitBound.{bit_and-lt, bit_or-lt, bit_xor-lt}

abbrev pub u8_mod : ℕ
u8_mod = 0x100

abbrev pub u16_mod : ℕ
u16_mod = 0x1_0000

abbrev pub u32_mod : ℕ
u32_mod = 0x1_0000_0000

abbrev pub u64_mod : ℕ
u64_mod = 0x1_0000_0000_0000_0000

-- The conversions `int16_t` and `int32_t` to `uint64_t`: the sign bit is extended.
unfoldable pub sext16 : ℕ → ℕ
sext16 x = if ltb x 0x8000 then x else x + (u64_mod - u16_mod)

unfoldable pub sext32 : ℕ → ℕ
sext32 x = if ltb x 0x8000_0000 then x else x + (u64_mod - u32_mod)

-- Order of `int64_t`: flipping the sign bit makes it the order of the patterns.
unfoldable pub bias64 : ℕ → ℕ
bias64 x = (x + 0x8000_0000_0000_0000) % u64_mod

unfoldable pub add64 : ℕ → ℕ → ℕ
add64 a b = (a + b) % u64_mod

unfoldable pub sub64 : ℕ → ℕ → ℕ
sub64 a b = (a + (u64_mod - b)) % u64_mod

unfoldable pub mul64 : ℕ → ℕ → ℕ
mul64 a b = a * b % u64_mod

pub sext16-lt : (x : ℕ) → x < u16_mod → sext16 x < u64_mod
unfolding sext16
sext16-lt x h = ground arith

pub sext32-lt : (x : ℕ) → x < u32_mod → sext32 x < u64_mod
unfolding sext32
sext32-lt x h = ground arith

pub add64-lt : (a b : ℕ) → add64 a b < u64_mod
unfolding add64
add64-lt a b = omega arith

pub sub64-lt : (a b : ℕ) → sub64 a b < u64_mod
unfolding sub64
sub64-lt a b = omega arith

pub mul64-lt : (a b : ℕ) → mul64 a b < u64_mod
unfolding mul64
mul64-lt a b = omega arith
