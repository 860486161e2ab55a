-- ===== src/Vm/Alu.antt =====
-- The arithmetic cases of `ubpf_exec`. `d` is `reg[inst.dst]`; `v` is `reg[inst.src]`, or the
-- immediate converted to `uint64_t`.
pub mod Bounds
use Prim.Native.Nat.{bit_and, bit_or, bit_xor}
use bpfabric.Prelude.{ℕ, zero, suc, ◌+◌, ◌-◌, ◌*◌, ◌/◌, ◌%◌, ◌^◌, Bool, ltb, ◌==◌, if◌then◌else◌}
use bpfabric.Prelude.Words.{u16_mod, u32_mod, u64_mod, sext32, add64, sub64, mul64}
use bpfabric.Ebpf.{
  Operand, imm, reg, Width, alu32, alu64, BinOp, add, sub, mul, div, bor, band, lsh, rsh, modulo,
  xor, mov, arsh,
}
use bpfabric.Vm.Outcome.{
  Run, ok, halt, error, fault, division_by_zero, division_trap, shift_undefined, ◌>>=◌,
}

-- `u32(x)`
abbrev pub u32 : ℕ → ℕ
u32 x = x % u32_mod

-- `x >> k` of an `int32_t`, then of an `int64_t`: the sign bit is shifted in.
unfoldable pub asr32 : ℕ → ℕ → ℕ
asr32 x k = if ltb x 0x8000_0000 then x / 2 ^ k else u32_mod - 1 - (u32_mod - 1 - x) / 2 ^ k

unfoldable pub asr64 : ℕ → ℕ → ℕ
asr64 x k =
    if ltb x 0x8000_0000_0000_0000 then x / 2 ^ k else u64_mod - 1 - (u64_mod - 1 - x) / 2 ^ k

-- A shift by `w` or more is undefined in C.
unfoldable pub shift : ℕ → ℕ → (ℕ → ℕ) → Run ℕ
shift w k f = if ltb k w then ok (f k) else halt (fault shift_undefined)

-- The register forms of division test the whole register for 0; the immediate forms test nothing.
unfoldable pub check_divisor : Operand → ℕ → Run ℕ
check_divisor imm v = ok v
check_divisor reg v = if v == 0 then halt (error division_by_zero) else ok v

-- The division itself traps on 0.
unfoldable pub divide : ℕ → ℕ → Run ℕ
divide a b = if b == 0 then halt (fault division_trap) else ok (a / b)

unfoldable pub remainder : ℕ → ℕ → Run ℕ
remainder a b = if b == 0 then halt (fault division_trap) else ok (a % b)

unfoldable pub exec_alu32 : BinOp → Operand → ℕ → ℕ → Run ℕ
unfolding shift check_divisor divide remainder asr32 add64 sub64 mul64 sext32
exec_alu32 add s d v = ok (u32 (add64 d v))
exec_alu32 sub s d v = ok (u32 (sub64 d v))
exec_alu32 mul s d v = ok (u32 (mul64 d v))
exec_alu32 div s d v = do v' ← check_divisor s v; q ← divide (u32 d) (u32 v'); ok (u32 q)
exec_alu32 bor s d v = ok (u32 (bit_or d v))
exec_alu32 band s d v = ok (u32 (bit_and d v))
exec_alu32 lsh s d v = do r ← shift 64 v (λ k. d * 2 ^ k % u64_mod); ok (u32 r)
exec_alu32 rsh s d v = do r ← shift 32 v (λ k. u32 d / 2 ^ k); ok (u32 r)
exec_alu32 modulo imm d v = do r ← remainder (u32 d) (u32 v); ok (u32 r)
exec_alu32 modulo reg d v = do v' ← check_divisor reg v; remainder (u32 d) (u32 v')
exec_alu32 xor s d v = ok (u32 (bit_xor d v))
exec_alu32 mov s d v = ok (u32 v)
exec_alu32 arsh s d v = do r ← shift 32 (u32 v) (λ k. sext32 (asr32 (u32 d) k)); ok (u32 r)

unfoldable pub exec_alu64 : BinOp → Operand → ℕ → ℕ → Run ℕ
unfolding shift check_divisor divide remainder asr64 add64 sub64 mul64
exec_alu64 add s d v = ok (add64 d v)
exec_alu64 sub s d v = ok (sub64 d v)
exec_alu64 mul s d v = ok (mul64 d v)
exec_alu64 div s d v = do v' ← check_divisor s v; divide d v'
exec_alu64 bor s d v = ok (bit_or d v)
exec_alu64 band s d v = ok (bit_and d v)
exec_alu64 lsh s d v = shift 64 v (λ k. d * 2 ^ k % u64_mod)
exec_alu64 rsh s d v = shift 64 v (λ k. d / 2 ^ k)
exec_alu64 modulo s d v = do v' ← check_divisor s v; remainder d v'
exec_alu64 xor s d v = ok (bit_xor d v)
exec_alu64 mov s d v = ok v
exec_alu64 arsh s d v = shift 64 v (λ k. asr64 d k)

unfoldable pub exec_alu : Width → BinOp → Operand → ℕ → ℕ → Run ℕ
unfolding exec_alu32 exec_alu64
exec_alu alu32 = exec_alu32
exec_alu alu64 = exec_alu64

-- `-reg[inst.dst]`, masked in the 32-bit case
unfoldable pub exec_neg : Width → ℕ → ℕ
unfolding sub64
exec_neg alu32 d = u32 (sub64 0 d)
exec_neg alu64 d = sub64 0 d

-- The low `n` bytes of `x` in the opposite order, above those of `acc`.
unfoldable pub swap_bytes : ℕ → ℕ → ℕ → ℕ
swap_bytes zero x acc = acc
swap_bytes (suc n) x acc = swap_bytes n (x / 256) (acc * 256 + x % 256)

-- `htole16`, `htole32` and `htole64` on a little-endian host: the argument's type truncates.
unfoldable pub exec_le : ℕ → ℕ → ℕ
exec_le w d = if w == 16 then d % u16_mod else if w == 32 then u32 d else d

-- `htobe16`, `htobe32` and `htobe64` on a little-endian host.
unfoldable pub exec_be : ℕ → ℕ → ℕ
unfolding swap_bytes
exec_be w d =
    if w == 16
    then swap_bytes 2 (d % u16_mod) 0
    else if w == 32
    then swap_bytes 4 (u32 d) 0
    else if w == 64
    then swap_bytes 8 d 0
    else d
