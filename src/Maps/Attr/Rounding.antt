-- ===== src/Maps/Attr/Rounding.antt =====
-- The rounding macro and the 32-bit keys of bpfmap/bpfmap.h as arithmetic.
use Prim.Native.Nat.{bit_or, bit_or-bitwise, digits, max}
use bpfabric.Prelude.{ℕ, zero, suc, ◌+◌, ◌-◌, ◌*◌, ◌/◌, ◌%◌, ◌≤◌, ◌<◌, ◌≡◌, refl, arith}
use bpfabric.Prelude.Words.{u32_mod}
use bpfabric.Maps.Attr.{round_up, u32_of, bytes_of}

abbrev or_digits : ℕ → ℕ → ℕ → ℕ
or_digits n a b = digits (λ c. c) max n a b

or_digits-zero : (n a : ℕ) → a ≤ n → or_digits n a 0 ≡ a
or_digits-zero zero zero h = refl
or_digits-zero zero (suc a) h = absurd (omega arith)
or_digits-zero (suc n) zero h = refl
or_digits-zero (suc n) (suc a) h = omega (arith, or_digits-zero n (suc a / 2) (omega arith))

or_digits-one : (n a : ℕ) → a ≤ n → or_digits n a 1 ≡ a / 2 * 2 + 1
or_digits-one zero zero h = refl
or_digits-one zero (suc a) h = absurd (omega arith)
or_digits-one (suc n) zero h = refl
or_digits-one (suc n) (suc a) h = omega (arith, or_digits-zero n (suc a / 2) (omega arith))

or_digits_three : (n a : ℕ) → a ≤ n → or_digits n a 3 ≡ a / 4 * 4 + 3
or_digits_three zero zero h = refl
or_digits_three zero (suc a) h = absurd (omega arith)
or_digits_three (suc n) zero h = refl
or_digits_three (suc n) (suc a) h = omega (arith, or_digits-one n (suc a / 2) (omega arith))

or_digits_seven : (n a : ℕ) → a ≤ n → or_digits n a 7 ≡ a / 8 * 8 + 7
or_digits_seven zero zero h = refl
or_digits_seven zero (suc a) h = absurd (omega arith)
or_digits_seven (suc n) zero h = refl
or_digits_seven (suc n) (suc a) h = omega (arith, or_digits_three n (suc a / 2) (omega arith))

bit_or_seven : (a : ℕ) → bit_or a 7 ≡ a / 8 * 8 + 7
bit_or_seven a = rw bit_or-bitwise (or_digits_seven a a (omega arith))

-- Rounding a size up gives the least multiple of 8 that holds it, unless it wraps.
pub round_up_lem : (x : ℕ) → 0 < x → x ≤ u32_mod - 8 → round_up x ≡ (x + 7) / 8 * 8
unfolding round_up
round_up_lem x pos small = omega (arith, bit_or_seven ((x + (u32_mod - 1)) % u32_mod))

pub le-round_up : (x : ℕ) → 0 < x → x ≤ u32_mod - 8 → x ≤ round_up x
le-round_up x pos small = omega (arith, round_up_lem x pos small)

-- The bytes of a 32-bit key read back as the key.
pub u32_of-bytes_of : (x : ℕ) → x < u32_mod → u32_of (bytes_of x) ≡ x
unfolding u32_of bytes_of
u32_of-bytes_of x h = omega arith
