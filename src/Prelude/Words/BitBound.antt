-- ===== src/Prelude/Words/BitBound.antt =====
-- The bitwise operations of two w-bit words give a w-bit word.
use Prim.Native.Nat.{ℕ, zero, suc, ◌/◌, ◌%◌, ◌^◌, ◌≤◌, ◌<◌, min, max}
use Prim.Native.Nat.{bit_and, bit_or, bit_xor, digits, differ}
use Prim.Native.Nat.{bit_and-bitwise, bit_or-bitwise, bit_xor-bitwise}
use native.Mathlib.Nat.{pow-suc}
use native.Mathlib.Omega.{arith}

module _ (z : ℕ → ℕ) (f : ℕ → ℕ → ℕ) where
  digits-lt :
      ((b : ℕ) → z b ≤ b)
      → ((a b : ℕ) → f (a % 2) (b % 2) ≤ 1)
      → (k fuel a b : ℕ) → a < 2 ^ k
      → b < 2 ^ k
      → digits z f fuel a b < 2 ^ k
  digits-lt hz hf k zero a b p q = omega (arith, hz b)
  digits-lt hz hf k (suc n) zero b p q = omega (arith, hz b)
  digits-lt hz hf zero (suc n) (suc a) b p q = absurd (omega arith)
  digits-lt hz hf (suc k) (suc n) (suc a) b p q = omega (
    arith,
    pow-suc 2 k,
    hf (suc a) b,
    digits-lt hz hf k n (suc a / 2) (b / 2) (omega (arith, pow-suc 2 k))
        (omega (arith, pow-suc 2 k)),
  )

pub bit_and-lt : (k a b : ℕ) → a < 2 ^ k → b < 2 ^ k → bit_and a b < 2 ^ k
bit_and-lt k a b p q =
    rw bit_and-bitwise
      (digits-lt (λ _. zero) min (λ b'. omega arith) (λ a' b'. omega arith) k a a b p q)

pub bit_or-lt : (k a b : ℕ) → a < 2 ^ k → b < 2 ^ k → bit_or a b < 2 ^ k
bit_or-lt k a b p q =
    rw bit_or-bitwise
      (digits-lt (λ b'. b') max (λ b'. omega arith) (λ a' b'. omega arith) k a a b p q)

differ-le-one : (a b : ℕ) → a ≤ 1 → b ≤ 1 → differ a b ≤ 1
differ-le-one zero b h k = k
differ-le-one (suc a) zero h k = h
differ-le-one (suc a) (suc b) h k = differ-le-one a b (omega arith) (omega arith)

pub bit_xor-lt : (k a b : ℕ) → a < 2 ^ k → b < 2 ^ k → bit_xor a b < 2 ^ k
bit_xor-lt k a b p q = rw bit_xor-bitwise (
    digits-lt (λ b'. b') differ (λ b'. omega arith)
      (λ a' b'. differ-le-one (a' % 2) (b' % 2) (omega arith) (omega arith)) k a a b p q)
