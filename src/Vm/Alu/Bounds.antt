-- ===== src/Vm/Alu/Bounds.antt =====
-- What the arithmetic cases of `ubpf_exec` can leave in a register, and how they can stop.
use bpfabric.Prelude.{ℕ, ◌*◌, ◌/◌, ◌%◌, ◌^◌, ◌<◌, ◌≡◌, refl, arith}
use bpfabric.Prelude.{ltb, ◌==◌, Bool-cases, inl, inr}
use bpfabric.Prelude.Words.{
  u32_mod, u64_mod, add64-lt, sub64-lt, mul64-lt, bit_and-lt, bit_or-lt, bit_xor-lt,
}
use bpfabric.Ebpf.{
  Operand, imm, reg, Width, alu32, alu64, BinOp, add, sub, mul, div, bor, band, lsh, rsh, modulo,
  xor, mov, arsh,
}
use bpfabric.Vm.Outcome.{Halt, error, fault, division_by_zero, division_trap, shift_undefined, Post}
use bpfabric.Vm.Alu.{
  u32, asr32, asr64, shift, check_divisor, divide, remainder, exec_alu32, exec_alu64, exec_alu,
}

-- The ways in which an arithmetic instruction can stop: shifts by too much; a register divisor of
-- zero; and a 32-bit division by a register.
abbrev pub StopsAlu : Width → BinOp → Operand → Halt → Type 0
StopsAlu w lsh s h = h ≡ fault shift_undefined
StopsAlu w rsh s h = h ≡ fault shift_undefined
StopsAlu w arsh s h = h ≡ fault shift_undefined
StopsAlu alu32 div reg (error division_by_zero) = Unit
StopsAlu alu32 div reg (fault division_trap) = Unit
StopsAlu alu32 modulo reg (error division_by_zero) = Unit
StopsAlu alu32 modulo reg (fault division_trap) = Unit
StopsAlu alu64 div reg (error division_by_zero) = Unit
StopsAlu alu64 modulo reg (error division_by_zero) = Unit
StopsAlu _ _ _ _ = ⊥

shift-Post :
    (w k n : ℕ) (f : ℕ → ℕ)
    → f k < n
    → Post (λ r. r < n) (λ h. h ≡ fault shift_undefined) (shift w k f)
unfolding shift
shift-Post w k n f h = elim (Bool-cases (ltb k w)) [ inl e ↦ rw e h | inr e ↦ rw e refl ]

asr32-lt : (x k : ℕ) → asr32 x k < u32_mod
unfolding asr32
asr32-lt x k = ground arith

asr64-lt : (x k : ℕ) → asr64 x k < u64_mod
unfolding asr64
asr64-lt x k = ground arith

div-lt_of_lt : (a b n : ℕ) → a < n → a / b < n
div-lt_of_lt a b n h = grind arith

mod-lt_of_lt : (a b n : ℕ) → a < n → a % b < n
mod-lt_of_lt a b n h = grind arith

-- `validate` refuses an immediate divisor of 0.
abbrev pub DivisorOk : BinOp → Operand → ℕ → Type 0
DivisorOk div imm v = 0 < u32 v
DivisorOk modulo imm v = 0 < u32 v
DivisorOk _ _ _ = Unit

module _ (d v : ℕ) (hd : d < u64_mod) (hv : v < u64_mod) where
  alu32-lsh :
      (s : Operand)
      → Post (λ r. r < u32_mod) (λ h. h ≡ fault shift_undefined) (exec_alu32 lsh s d v)
  unfolding exec_alu32 shift
  alu32-lsh s = elim (Bool-cases (ltb v 64)) [ inl e ↦ rw e (omega arith) | inr e ↦ rw e refl ]

  alu32-rsh :
      (s : Operand)
      → Post (λ r. r < u32_mod) (λ h. h ≡ fault shift_undefined) (exec_alu32 rsh s d v)
  unfolding exec_alu32 shift
  alu32-rsh s = elim (Bool-cases (ltb v 32)) [ inl e ↦ rw e (omega arith) | inr e ↦ rw e refl ]

  alu32-arsh :
      (s : Operand)
      → Post (λ r. r < u32_mod) (λ h. h ≡ fault shift_undefined) (exec_alu32 arsh s d v)
  unfolding exec_alu32 shift
  alu32-arsh s = elim (Bool-cases (ltb (u32 v) 32)) [
    | inl e ↦ rw e (omega arith)
    | inr e ↦ rw e refl
  ]

  alu32-div :
      (s : Operand)
      → DivisorOk div s v
      → Post (λ r. r < u32_mod) (StopsAlu alu32 div s) (exec_alu32 div s d v)
  unfolding exec_alu32 check_divisor divide
  alu32-div imm h = elim (Bool-cases (u32 v == 0)) [
    | inl e ↦ absurd (ground arith)
    | inr e ↦ rw e (omega arith)
  ]
  alu32-div reg h = elim (Bool-cases (v == 0)) [
    | inl z ↦ rw z tt
    | inr z ↦ rw z (elim (Bool-cases (u32 v == 0)) [ inl e ↦ rw e tt | inr e ↦ rw e (omega arith) ])
  ]

  alu32-modulo :
      (s : Operand)
      → DivisorOk modulo s v
      → Post (λ r. r < u32_mod) (StopsAlu alu32 modulo s) (exec_alu32 modulo s d v)
  unfolding exec_alu32 check_divisor remainder
  alu32-modulo imm h = elim (Bool-cases (u32 v == 0)) [
    | inl e ↦ absurd (ground arith)
    | inr e ↦ rw e (omega arith)
  ]
  alu32-modulo reg h = elim (Bool-cases (v == 0)) [
    | inl z ↦ rw z tt
    | inr z ↦ rw z (elim (Bool-cases (u32 v == 0)) [
      | inl e ↦ rw e tt
      | inr e ↦ rw e (mod-lt_of_lt _ _ _ (omega arith))
    ])
  ]

  alu32-Post :
      (o : BinOp) (s : Operand)
      → DivisorOk o s v
      → Post (λ r. r < u32_mod) (StopsAlu alu32 o s) (exec_alu32 o s d v)
  alu32-Post div s h = alu32-div s h
  alu32-Post modulo s h = alu32-modulo s h
  alu32-Post lsh s h = alu32-lsh s
  alu32-Post rsh s h = alu32-rsh s
  alu32-Post arsh s h = alu32-arsh s
  alu32-Post _ s h = unfold exec_alu32 in omega arith

  alu64-div :
      (s : Operand)
      → DivisorOk div s v
      → Post (λ r. r < u64_mod) (StopsAlu alu64 div s) (exec_alu64 div s d v)
  unfolding exec_alu64 check_divisor divide
  alu64-div imm h = elim (Bool-cases (v == 0)) [
    | inl e ↦ absurd (ground arith)
    | inr e ↦ rw e (div-lt_of_lt _ _ _ hd)
  ]
  alu64-div reg h = elim (Bool-cases (v == 0)) [
    | inl e ↦ rw e tt
    | inr e ↦ rw (e, e) (div-lt_of_lt _ _ _ hd)
  ]

  alu64-modulo :
      (s : Operand)
      → DivisorOk modulo s v
      → Post (λ r. r < u64_mod) (StopsAlu alu64 modulo s) (exec_alu64 modulo s d v)
  unfolding exec_alu64 check_divisor remainder
  alu64-modulo imm h = elim (Bool-cases (v == 0)) [
    | inl e ↦ absurd (ground arith)
    | inr e ↦ rw e (mod-lt_of_lt _ _ _ hd)
  ]
  alu64-modulo reg h = elim (Bool-cases (v == 0)) [
    | inl e ↦ rw e tt
    | inr e ↦ rw (e, e) (mod-lt_of_lt _ _ _ hd)
  ]

  alu64-Post :
      (o : BinOp) (s : Operand)
      → DivisorOk o s v
      → Post (λ r. r < u64_mod) (StopsAlu alu64 o s) (exec_alu64 o s d v)
  unfolding exec_alu64
  alu64-Post div s h = alu64-div s h
  alu64-Post modulo s h = alu64-modulo s h
  alu64-Post lsh s h = shift-Post 64 v u64_mod (λ k. d * 2 ^ k % u64_mod) (omega arith)
  alu64-Post rsh s h = shift-Post 64 v u64_mod (λ k. d / 2 ^ k) (div-lt_of_lt d (2 ^ v) _ hd)
  alu64-Post arsh s h = shift-Post 64 v u64_mod (λ k. asr64 d k) (asr64-lt d v)
  alu64-Post add s h = add64-lt d v
  alu64-Post sub s h = sub64-lt d v
  alu64-Post mul s h = mul64-lt d v
  alu64-Post bor s h = bit_or-lt 64 d v hd hv
  alu64-Post band s h = bit_and-lt 64 d v hd hv
  alu64-Post xor s h = bit_xor-lt 64 d v hd hv
  alu64-Post mov s h = hv

abbrev pub alu_mod : Width → ℕ
alu_mod alu32 = u32_mod
alu_mod alu64 = u64_mod

-- An arithmetic instruction on 64-bit words that is no division or modulo by an immediate whose low
-- 32 bits are 0 leaves a word of its own width (the 32-bit forms clear the upper half), or
-- stops in one of the ways that `StopsAlu` lists for it.
pub exec_alu-Post :
    (w : Width) (o : BinOp) (s : Operand) (d v : ℕ)
    → d < u64_mod
    → v < u64_mod
    → DivisorOk o s v
    → Post (λ r. r < alu_mod w) (StopsAlu w o s) (exec_alu w o s d v)
unfolding exec_alu
exec_alu-Post alu32 o s d v hd hv h = alu32-Post d v hd hv o s h
exec_alu-Post alu64 o s d v hd hv h = alu64-Post d v hd hv o s h
