-- ===== src/Vm/Jit/Emit.antt =====
-- ubpf/ubpf_jit_x86_64.h: the generic x86-64 code generation functions. The fields that a byte is put
-- together from are disjoint, so their `|` is a sum; `r & 7` is `r % 8`, and `!!(r & 8)` is
-- `r / 8 % 2`. A displacement is the 32-bit pattern of an `int32_t`.
use bpfabric.Prelude.{
  ℕ, ◌+◌, ◌-◌, ◌*◌, ◌/◌, ◌%◌, Bool, true, false, not, ◌&&◌, ◌||◌, ltb, leb, ◌==◌, if◌then◌else◌,
}
use bpfabric.Prelude.Words.{u32_mod, u64_mod}
use bpfabric.Vm.Jit.State.{
  Emitter, ◌and_next◌, nothing, require, emit1, emit2, emit4, emit8, emit_jump_offset,
}

abbrev pub rax : ℕ
rax = 0

abbrev pub rcx : ℕ
rcx = 1

abbrev pub rdx : ℕ
rdx = 2

abbrev pub rbx : ℕ
rbx = 3

abbrev pub rsp : ℕ
rsp = 4

abbrev pub rbp : ℕ
rbp = 5

abbrev pub rsi : ℕ
rsi = 6

abbrev pub rdi : ℕ
rdi = 7

abbrev pub r13 : ℕ
r13 = 13

abbrev pub r14 : ℕ
r14 = 14

abbrev pub r15 : ℕ
r15 = 15

-- `enum operand_size`
pub data OperandSize : Type 0 where
  s8 s16 s32 s64 : OperandSize

-- `r & 7` and `!!(r & 8)`
abbrev pub low_bits : ℕ → ℕ
low_bits r = r % 8

abbrev pub top_bit : ℕ → ℕ
top_bit r = r / 8 % 2

unfoldable pub emit_modrm : ℕ → ℕ → ℕ → Emitter
unfolding ◌and_next◌ require emit1
emit_modrm mod_bits r m =
    require (mod_bits % 0x40 == 0 && ltb mod_bits 0x100)
    and_next emit1 (mod_bits + 8 * low_bits r + low_bits m)

unfoldable pub emit_modrm_reg2reg : ℕ → ℕ → Emitter
unfolding emit_modrm
emit_modrm_reg2reg r m = emit_modrm 0xc0 r m

-- `d >= -128 && d <= 127`
unfoldable pub is_int8 : ℕ → Bool
is_int8 d = leb (u32_mod - 0x80) d || leb d 0x7f

unfoldable pub emit_modrm_and_displacement : ℕ → ℕ → ℕ → Emitter
unfolding emit_modrm is_int8 emit1 emit4 ◌and_next◌
emit_modrm_and_displacement r m d =
    if d == 0 && not (low_bits m == rbp)
    then emit_modrm 0x00 r m
    else if is_int8 d
    then emit_modrm 0x40 r m and_next emit1 d
    else (emit_modrm 0x80 r m and_next emit4 d)

unfoldable pub emit_rex : ℕ → ℕ → ℕ → ℕ → Emitter
unfolding ◌and_next◌ require emit1
emit_rex w r x b =
    require (ltb w 2)
    and_next require (ltb r 2)
    and_next require (ltb x 2)
    and_next require (ltb b 2)
    and_next emit1 (0x40 + 8 * w + 4 * r + 2 * x + b)

unfoldable pub emit_basic_rex : ℕ → ℕ → ℕ → Emitter
unfolding emit_rex nothing
emit_basic_rex w src dst =
    if not (w == 0) || (not (top_bit src == 0) || not (top_bit dst == 0))
    then emit_rex w (top_bit src) 0 (top_bit dst)
    else nothing

unfoldable pub emit_push : ℕ → Emitter
unfolding ◌and_next◌ emit_basic_rex emit1
emit_push r = emit_basic_rex 0 0 r and_next emit1 (0x50 + low_bits r)

unfoldable pub emit_pop : ℕ → Emitter
unfolding ◌and_next◌ emit_basic_rex emit1
emit_pop r = emit_basic_rex 0 0 r and_next emit1 (0x58 + low_bits r)

unfoldable pub emit_alu32 : ℕ → ℕ → ℕ → Emitter
unfolding ◌and_next◌ emit_basic_rex emit1 emit_modrm_reg2reg
emit_alu32 op src dst =
    emit_basic_rex 0 src dst and_next emit1 op and_next emit_modrm_reg2reg src dst

unfoldable pub emit_alu32_imm32 : ℕ → ℕ → ℕ → ℕ → Emitter
unfolding ◌and_next◌ emit_alu32 emit4
emit_alu32_imm32 op src dst imm = emit_alu32 op src dst and_next emit4 imm

unfoldable pub emit_alu32_imm8 : ℕ → ℕ → ℕ → ℕ → Emitter
unfolding ◌and_next◌ emit_alu32 emit1
emit_alu32_imm8 op src dst imm = emit_alu32 op src dst and_next emit1 imm

unfoldable pub emit_alu64 : ℕ → ℕ → ℕ → Emitter
unfolding ◌and_next◌ emit_basic_rex emit1 emit_modrm_reg2reg
emit_alu64 op src dst =
    emit_basic_rex 1 src dst and_next emit1 op and_next emit_modrm_reg2reg src dst

unfoldable pub emit_alu64_imm32 : ℕ → ℕ → ℕ → ℕ → Emitter
unfolding ◌and_next◌ emit_alu64 emit4
emit_alu64_imm32 op src dst imm = emit_alu64 op src dst and_next emit4 imm

unfoldable pub emit_alu64_imm8 : ℕ → ℕ → ℕ → ℕ → Emitter
unfolding ◌and_next◌ emit_alu64 emit1
emit_alu64_imm8 op src dst imm = emit_alu64 op src dst and_next emit1 imm

unfoldable pub emit_mov : ℕ → ℕ → Emitter
unfolding emit_alu64
emit_mov src dst = emit_alu64 0x89 src dst

unfoldable pub emit_cmp_imm32 : ℕ → ℕ → Emitter
unfolding emit_alu64_imm32
emit_cmp_imm32 dst imm = emit_alu64_imm32 0x81 7 dst imm

unfoldable pub emit_cmp : ℕ → ℕ → Emitter
unfolding emit_alu64
emit_cmp src dst = emit_alu64 0x39 src dst

unfoldable pub emit_jcc : ℕ → ℕ → Emitter
unfolding ◌and_next◌ emit1 emit_jump_offset
emit_jcc code target_pc = emit1 0x0f and_next emit1 code and_next emit_jump_offset target_pc

-- `size == S64`
abbrev pub rex_w : OperandSize → ℕ
rex_w s64 = 1
rex_w _ = 0

-- The opcode bytes of `emit_load`
unfoldable pub load_opcode : OperandSize → Emitter
unfolding ◌and_next◌ emit1
load_opcode s8 = emit1 0x0f and_next emit1 0xb6
load_opcode s16 = emit1 0x0f and_next emit1 0xb7
load_opcode s32 = emit1 0x8b
load_opcode s64 = emit1 0x8b

unfoldable pub emit_load : OperandSize → ℕ → ℕ → ℕ → Emitter
unfolding ◌and_next◌ emit_basic_rex load_opcode emit_modrm_and_displacement
emit_load size src dst offset =
    emit_basic_rex (rex_w size) dst src
    and_next load_opcode size
    and_next emit_modrm_and_displacement dst src offset

-- `imm >= INT32_MIN && imm <= INT32_MAX`, on the pattern of an `int64_t`
unfoldable pub is_int32 : ℕ → Bool
is_int32 imm = leb (u64_mod - 0x8000_0000) imm || leb imm 0x7fff_ffff

unfoldable pub emit_load_imm : ℕ → ℕ → Emitter
unfolding is_int32 emit_alu64_imm32 ◌and_next◌ emit_basic_rex emit1 emit8
emit_load_imm dst imm =
    if is_int32 imm
    then emit_alu64_imm32 0xc7 0 dst imm
    else (emit_basic_rex 1 0 dst and_next emit1 (0xb8 + low_bits dst) and_next emit8 imm)

-- `if (size == S16) { emit1(state, 0x66); }`
unfoldable pub emit_override : OperandSize → Emitter
unfolding emit1 nothing
emit_override s16 = emit1 0x66
emit_override _ = nothing

abbrev pub is_s8 : OperandSize → Bool
is_s8 s8 = true
is_s8 _ = false

unfoldable pub emit_store : OperandSize → ℕ → ℕ → ℕ → Emitter
unfolding ◌and_next◌ emit_override emit_rex nothing emit1 emit_modrm_and_displacement
emit_store size src dst offset =
    emit_override size
    and_next (if not (rex_w size == 0)
          || (not (top_bit src == 0) || (not (top_bit dst == 0) || is_s8 size))
        then emit_rex (rex_w size) (top_bit src) 0 (top_bit dst)
        else nothing)
    and_next emit1 (if is_s8 size then 0x88 else 0x89)
    and_next emit_modrm_and_displacement src dst offset

-- The immediate of `emit_store_imm32`
unfoldable pub store_immediate : OperandSize → ℕ → Emitter
unfolding emit1 emit2 emit4
store_immediate s8 imm = emit1 imm
store_immediate s16 imm = emit2 imm
store_immediate s32 imm = emit4 imm
store_immediate s64 imm = emit4 imm

unfoldable pub emit_store_imm32 : OperandSize → ℕ → ℕ → ℕ → Emitter
unfolding ◌and_next◌ emit_override emit_basic_rex emit1 emit_modrm_and_displacement store_immediate
emit_store_imm32 size dst offset imm =
    emit_override size
    and_next emit_basic_rex (rex_w size) 0 dst
    and_next emit1 (if is_s8 size then 0xc6 else 0xc7)
    and_next emit_modrm_and_displacement 0 dst offset
    and_next store_immediate size imm

unfoldable pub emit_call : ℕ → Emitter
unfolding ◌and_next◌ emit_load_imm emit1
emit_call target = emit_load_imm rax target and_next emit1 0xff and_next emit1 0xd0

unfoldable pub emit_jmp : ℕ → Emitter
unfolding ◌and_next◌ emit1 emit_jump_offset
emit_jmp target_pc = emit1 0xe9 and_next emit_jump_offset target_pc
