-- ===== src/Vm/Jit/Cases.antt =====
-- ubpf/ubpf_jit_x86_64.c: the register map, `muldivmod`, and the cases of the switch of `translate`.
use bpfabric.Prelude.{
  ℕ, ◌+◌, ◌*◌, ◌/◌, ◌%◌, Bool, true, false, not, ◌||◌, Option, none, some, List, [], ◌∷◌, length,
  get_elem?, ltb, ◌==◌, if◌then◌else◌,
}
use bpfabric.Prelude.Words.{u32_mod, u64_mod, sext16, sext32}
use bpfabric.Ebpf.{
  Inst, alu32, alu64, BinOp, add, sub, mul, div, bor, band, lsh, rsh, modulo, xor, mov, arsh,
  Operand, imm, reg, Cond, jeq, jgt, jge, jset, jne, jsgt, jsge, Size, word, half, byte, double, Op,
  alu, neg, to_le, to_be, ldx, st, stx, lddw, ja, call, exit, jump,
}
use bpfabric.Vm.Validate.{max_ext_funcs}
use bpfabric.Vm.Jit.State.{Result, ok, stop, aborted, wild, Emitter, ◌and_next◌, nothing, emit1}
use bpfabric.Vm.Jit.Emit.{
  OperandSize, s8, s16, s32, s64, rax, rcx, rdx, rbx, rsi, rdi, rbp, r13, r14, r15, low_bits,
  emit_push, emit_pop, emit_basic_rex, emit_rex, emit_alu32, emit_alu32_imm32, emit_alu32_imm8,
  emit_alu64, emit_alu64_imm32, emit_alu64_imm8, emit_mov, emit_cmp, emit_cmp_imm32, emit_jcc,
  emit_load, emit_load_imm, emit_store, emit_store_imm32, emit_call, emit_jmp,
}

-- TARGET_PC_EXIT and TARGET_PC_DIV_BY_ZERO, as `uint32_t`
abbrev pub target_pc_exit : ℕ
target_pc_exit = 0xffff_ffff

abbrev pub target_pc_div_by_zero : ℕ
target_pc_div_by_zero = 0xffff_fffe

abbrev pub register_map_size : ℕ
register_map_size = 11

-- `register_map`
abbrev pub register_map : List ℕ
register_map = rax ∷ rdi ∷ rsi ∷ rdx ∷ 9 ∷ 8 ∷ rbx ∷ r13 ∷ r14 ∷ r15 ∷ rbp ∷ []

unfoldable pub entry : Option ℕ → Result ℕ
entry none = stop wild
entry (some r) = ok r

unfoldable pub map_register : ℕ → Result ℕ
unfolding entry
map_register r =
    if ltb r register_map_size
    then entry (get_elem? register_map (r % register_map_size))
    else stop aborted

unfoldable pub emit_if : Bool → Emitter → Emitter
unfolding nothing
emit_if true f = f
emit_if false f = nothing

-- `(opcode & EBPF_ALU_OP_MASK) == field`
abbrev pub has_alu_op : ℕ → ℕ → Bool
has_alu_op opcode field = opcode / 0x10 * 0x10 == field

-- `muldivmod`, whose `pc` only code that is commented out reads
unfoldable pub muldivmod : ℕ → ℕ → ℕ → ℕ → Emitter
unfolding ◌and_next◌ emit_if emit_push emit_pop emit_load_imm emit_mov emit_alu32 emit_rex sext32
muldivmod opcode src dst value =
    let is_mul = has_alu_op opcode 0x20 in
    let is_div = has_alu_op opcode 0x30 in
    let is_mod = has_alu_op opcode 0x90 in
    let is64 = opcode % 8 == 7 in
    emit_if (not (dst == rax)) (emit_push rax)
    and_next emit_if (not (dst == rdx)) (emit_push rdx)
    and_next (if not (value == 0) then emit_load_imm rcx (sext32 value) else emit_mov src rcx)
    and_next emit_mov dst rax
    and_next emit_if (is_div || is_mod) (emit_alu32 0x31 rdx rdx)
    and_next emit_if is64 (emit_rex 1 0 0 0)
    and_next emit_alu32 0xf7 (if is_mul then 4 else 6) rcx
    and_next emit_if (not (dst == rdx)) (emit_if is_mod (emit_mov rdx dst) and_next emit_pop rdx)
    and_next emit_if (not (dst == rax))
        (emit_if (is_div || is_mul) (emit_mov rax dst) and_next emit_pop rax)

-- EBPF_OP_ADD_IMM to EBPF_OP_ARSH_REG
unfoldable pub alu32_case : BinOp → Operand → ℕ → ℕ → Inst → Emitter
unfolding ◌and_next◌ emit_alu32 emit_alu32_imm32 emit_alu32_imm8 emit_mov muldivmod
alu32_case add imm src dst inst = emit_alu32_imm32 0x81 0 dst inst.imm
alu32_case add reg src dst inst = emit_alu32 0x01 src dst
alu32_case sub imm src dst inst = emit_alu32_imm32 0x81 5 dst inst.imm
alu32_case sub reg src dst inst = emit_alu32 0x29 src dst
alu32_case mul o src dst inst = muldivmod inst.opcode src dst inst.imm
alu32_case div o src dst inst = muldivmod inst.opcode src dst inst.imm
alu32_case modulo o src dst inst = muldivmod inst.opcode src dst inst.imm
alu32_case bor imm src dst inst = emit_alu32_imm32 0x81 1 dst inst.imm
alu32_case bor reg src dst inst = emit_alu32 0x09 src dst
alu32_case band imm src dst inst = emit_alu32_imm32 0x81 4 dst inst.imm
alu32_case band reg src dst inst = emit_alu32 0x21 src dst
alu32_case lsh imm src dst inst = emit_alu32_imm8 0xc1 4 dst inst.imm
alu32_case lsh reg src dst inst = emit_mov src rcx and_next emit_alu32 0xd3 4 dst
alu32_case rsh imm src dst inst = emit_alu32_imm8 0xc1 5 dst inst.imm
alu32_case rsh reg src dst inst = emit_mov src rcx and_next emit_alu32 0xd3 5 dst
alu32_case xor imm src dst inst = emit_alu32_imm32 0x81 6 dst inst.imm
alu32_case xor reg src dst inst = emit_alu32 0x31 src dst
alu32_case mov imm src dst inst = emit_alu32_imm32 0xc7 0 dst inst.imm
alu32_case mov reg src dst inst = emit_mov src dst
alu32_case arsh imm src dst inst = emit_alu32_imm8 0xc1 7 dst inst.imm
alu32_case arsh reg src dst inst = emit_mov src rcx and_next emit_alu32 0xd3 7 dst

-- EBPF_OP_ADD64_IMM to EBPF_OP_ARSH64_REG
unfoldable pub alu64_case : BinOp → Operand → ℕ → ℕ → Inst → Emitter
unfolding ◌and_next◌ emit_alu64 emit_alu64_imm32 emit_alu64_imm8 emit_mov emit_load_imm muldivmod
    sext32
alu64_case add imm src dst inst = emit_alu64_imm32 0x81 0 dst inst.imm
alu64_case add reg src dst inst = emit_alu64 0x01 src dst
alu64_case sub imm src dst inst = emit_alu64_imm32 0x81 5 dst inst.imm
alu64_case sub reg src dst inst = emit_alu64 0x29 src dst
alu64_case mul o src dst inst = muldivmod inst.opcode src dst inst.imm
alu64_case div o src dst inst = muldivmod inst.opcode src dst inst.imm
alu64_case modulo o src dst inst = muldivmod inst.opcode src dst inst.imm
alu64_case bor imm src dst inst = emit_alu64_imm32 0x81 1 dst inst.imm
alu64_case bor reg src dst inst = emit_alu64 0x09 src dst
alu64_case band imm src dst inst = emit_alu64_imm32 0x81 4 dst inst.imm
alu64_case band reg src dst inst = emit_alu64 0x21 src dst
alu64_case lsh imm src dst inst = emit_alu64_imm8 0xc1 4 dst inst.imm
alu64_case lsh reg src dst inst = emit_mov src rcx and_next emit_alu64 0xd3 4 dst
alu64_case rsh imm src dst inst = emit_alu64_imm8 0xc1 5 dst inst.imm
alu64_case rsh reg src dst inst = emit_mov src rcx and_next emit_alu64 0xd3 5 dst
alu64_case xor imm src dst inst = emit_alu64_imm32 0x81 6 dst inst.imm
alu64_case xor reg src dst inst = emit_alu64 0x31 src dst
alu64_case mov imm src dst inst = emit_load_imm dst (sext32 inst.imm)
alu64_case mov reg src dst inst = emit_mov src dst
alu64_case arsh imm src dst inst = emit_alu64_imm8 0xc1 7 dst inst.imm
alu64_case arsh reg src dst inst = emit_mov src rcx and_next emit_alu64 0xd3 7 dst

-- EBPF_OP_BE
unfoldable pub be_case : ℕ → ℕ → Emitter
unfolding ◌and_next◌ emit1 emit_alu32_imm8 emit_alu32_imm32 emit_basic_rex nothing
be_case dst value =
    if value == 16
    then emit1 0x66
      and_next emit_alu32_imm8 0xc1 0 dst 8
      and_next emit_alu32_imm32 0x81 4 dst 0xffff
    else if value == 32 || value == 64
    then emit_basic_rex (if value == 64 then 1 else 0) 0 dst
      and_next emit1 0x0f
      and_next emit1 (0xc8 + low_bits dst)
    else nothing

-- The comparison of a conditional jump
unfoldable pub compare_case : Cond → Operand → ℕ → ℕ → Inst → Emitter
unfolding emit_cmp_imm32 emit_cmp emit_alu64_imm32 emit_alu64
compare_case jset imm src dst inst = emit_alu64_imm32 0xf7 0 dst inst.imm
compare_case jset reg src dst inst = emit_alu64 0x85 src dst
compare_case c imm src dst inst = emit_cmp_imm32 dst inst.imm
compare_case c reg src dst inst = emit_cmp src dst

-- The opcode of its `jcc`
unfoldable pub jump_code : Cond → ℕ
jump_code jeq = 0x84
jump_code jgt = 0x87
jump_code jge = 0x83
jump_code jset = 0x85
jump_code jne = 0x85
jump_code jsgt = 0x8f
jump_code jsge = 0x8d

-- S32 for EBPF_OP_LDXW, EBPF_OP_STW and EBPF_OP_STXW, and so on
abbrev pub operand_size : Size → OperandSize
operand_size word = s32
operand_size half = s16
operand_size byte = s8
operand_size double = s64

-- `inst.offset` as an `int32_t`
unfoldable pub displacement : Inst → ℕ
unfolding sext16
displacement inst = sext16 inst.offset % u32_mod

-- `uint32_t target_pc = i + inst.offset + 1;`
unfoldable pub target_of : ℕ → Inst → ℕ
unfolding sext16
target_of i inst = (i + sext16 inst.offset + 1) % u32_mod

-- EBPF_OP_LDDW, with the second slot where there is one
unfoldable pub lddw_case : ℕ → Inst → Option Inst → Emitter
unfolding emit_load_imm sext32
lddw_case dst inst none s = stop wild
lddw_case dst inst (some inst2) s =
    emit_load_imm dst (inst.imm + sext32 inst2.imm * u32_mod % u64_mod) s

-- EBPF_OP_CALL: `address` has the pointers of `vm->ext_funcs`.
unfoldable pub call_case : (ℕ → ℕ) → Inst → Emitter
unfolding ◌and_next◌ emit_mov emit_call
call_case address inst s =
    if ltb inst.imm max_ext_funcs
    then (emit_mov 9 rcx and_next emit_call (address inst.imm)) s
    else stop wild

module _ (address : ℕ → ℕ) (insts : List Inst) where
  -- The switch of `translate` for the instruction with index `i`.
  unfoldable pub emit_op : Op → ℕ → Inst → ℕ → ℕ → Emitter
  unfolding ◌and_next◌ nothing alu32_case alu64_case be_case compare_case jump_code emit_alu32
      emit_alu64 emit_jcc emit_jmp emit_load emit_store emit_store_imm32 emit_if displacement
      target_of lddw_case call_case
  emit_op (alu alu32 o s) i inst src dst = alu32_case o s src dst inst
  emit_op (alu alu64 o s) i inst src dst = alu64_case o s src dst inst
  emit_op (neg alu32) i inst src dst = emit_alu32 0xf7 3 dst
  emit_op (neg alu64) i inst src dst = emit_alu64 0xf7 3 dst
  emit_op to_le i inst src dst = nothing
  emit_op to_be i inst src dst = be_case dst inst.imm
  emit_op ja i inst src dst = emit_jmp (target_of i inst)
  emit_op (jump c s) i inst src dst =
      compare_case c s src dst inst and_next emit_jcc (jump_code c) (target_of i inst)
  emit_op call i inst src dst = call_case address inst
  emit_op exit i inst src dst = emit_if (not (i + 1 == length insts)) (emit_jmp target_pc_exit)
  emit_op (ldx z) i inst src dst = emit_load (operand_size z) src dst (displacement inst)
  emit_op (st z) i inst src dst = emit_store_imm32 (operand_size z) dst (displacement inst) inst.imm
  emit_op (stx z) i inst src dst = emit_store (operand_size z) src dst (displacement inst)
  emit_op lddw i inst src dst = lddw_case dst inst (get_elem? insts (i + 1))
