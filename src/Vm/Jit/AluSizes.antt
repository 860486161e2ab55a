-- ===== src/Vm/Jit/AluSizes.antt =====
-- The cases of `translate` of ubpf/ubpf_jit_x86_64.c for arithmetic: how much they emit at most.
use bpfabric.Prelude.{
  ℕ, ◌%◌, ◌<◌, ◌≡◌, refl, arith, Bool, true, false, not, ◌||◌, leb, leb→le, ◌==◌, if◌then◌else◌,
}
use bpfabric.Prelude.Words.{u32_mod, sext32}
use bpfabric.Ebpf.{
  Inst, BinOp, add, sub, mul, div, bor, band, lsh, rsh, modulo, xor, mov, arsh, Operand, imm, reg,
}
use bpfabric.Vm.Jit.State.{Emitter, ◌and_next◌}
use bpfabric.Vm.Jit.Emit.{rax, rcx, rdx, is_int32, emit_mov, emit_alu32, emit_alu64}
use bpfabric.Vm.Jit.Cases.{emit_if, muldivmod, has_alu_op, alu32_case, alu64_case}
use bpfabric.Vm.Jit.Extends.{Emits, Emits-le, Emits-if, nothing-Emits, ◌before◌}
use bpfabric.Vm.Jit.Sizes.{
  emit_rex-Emits, emit_push-Emits, emit_pop-Emits, emit_alu32-Emits, emit_alu32_imm32-Emits,
  emit_alu32_imm8-Emits, emit_alu64-Emits, emit_alu64_imm32-Emits, emit_alu64_imm8-Emits,
  emit_mov-Emits, emit_load_imm-Emits, emit_load_imm-short,
}

-- The most bytes that an instruction takes
abbrev pub inst_bytes : ℕ
inst_bytes = 31

sext32-is_int32 : (x : ℕ) → x < u32_mod → is_int32 (sext32 x) ≡ true
unfolding is_int32 sext32
sext32-is_int32 x h = ground arith

module _ (P : ℕ → Type 0) where
  -- Fewer bytes and jumps than an instruction may take.
  pub at_most :
      {n k : ℕ} {f : Emitter}
      → Emits P n k f
      → leb n inst_bytes ≡ true
      → leb k 1 ≡ true
      → Emits P inst_bytes 1 f
  at_most e a b = Emits-le P (leb→le _ _ a) (leb→le _ _ b) e

  pub emit_if-Emits : {n k : ℕ} (b : Bool) {f : Emitter} → Emits P n k f → Emits P n k (emit_if b f)
  unfolding emit_if
  emit_if-Emits true e = e
  emit_if-Emits false e = Emits-le P (omega arith) (omega arith) (nothing-Emits P)

  muldivmod-Emits : (opcode src dst v : ℕ) → v < u32_mod → Emits P 31 0 (muldivmod opcode src dst v)
  unfolding muldivmod
  muldivmod-Emits opcode src dst v h =
      let is_mul = has_alu_op opcode 0x20 in
      let is_div = has_alu_op opcode 0x30 in
      let is_mod = has_alu_op opcode 0x90 in
      emit_if-Emits (not (dst == rax)) (emit_push-Emits P rax)
      before emit_if-Emits (not (dst == rdx)) (emit_push-Emits P rdx)
      before Emits-if P (not (v == 0)) (emit_load_imm-short P rcx (sext32 v) (sext32-is_int32 v h))
          (Emits-le P (omega arith) (omega arith) (emit_mov-Emits P src rcx))
      before emit_mov-Emits P dst rax
      before emit_if-Emits (is_div || is_mod) (emit_alu32-Emits P 0x31 rdx rdx)
      before emit_if-Emits (opcode % 8 == 7)
          (emit_rex-Emits P 1 0 0 0 (omega arith) (omega arith) (omega arith) (omega arith))
      before emit_alu32-Emits P 0xf7 (if is_mul then 4 else 6) rcx
      before emit_if-Emits (not (dst == rdx))
          (emit_if-Emits is_mod (emit_mov-Emits P rdx dst) before emit_pop-Emits P rdx)
      before emit_if-Emits (not (dst == rax))
          (emit_if-Emits (is_div || is_mul) (emit_mov-Emits P rax dst) before emit_pop-Emits P rax)

  shift32-Emits :
      (ext src dst : ℕ) → Emits P inst_bytes 1 (emit_mov src rcx and_next emit_alu32 0xd3 ext dst)
  shift32-Emits ext src dst =
      at_most (emit_mov-Emits P src rcx before emit_alu32-Emits P 0xd3 ext dst) refl refl

  pub alu32_case-Emits :
      (o : BinOp) (s : Operand) (src dst : ℕ) (inst : Inst)
      → inst.imm < u32_mod
      → Emits P inst_bytes 1 (alu32_case o s src dst inst)
  unfolding alu32_case
  alu32_case-Emits add imm src dst inst h =
      at_most (emit_alu32_imm32-Emits P 0x81 0 dst inst.imm) refl refl
  alu32_case-Emits add reg src dst inst h = at_most (emit_alu32-Emits P 0x1 src dst) refl refl
  alu32_case-Emits sub imm src dst inst h =
      at_most (emit_alu32_imm32-Emits P 0x81 5 dst inst.imm) refl refl
  alu32_case-Emits sub reg src dst inst h = at_most (emit_alu32-Emits P 0x29 src dst) refl refl
  alu32_case-Emits mul s src dst inst h =
      at_most (muldivmod-Emits inst.opcode src dst inst.imm h) refl refl
  alu32_case-Emits div s src dst inst h =
      at_most (muldivmod-Emits inst.opcode src dst inst.imm h) refl refl
  alu32_case-Emits modulo s src dst inst h =
      at_most (muldivmod-Emits inst.opcode src dst inst.imm h) refl refl
  alu32_case-Emits bor imm src dst inst h =
      at_most (emit_alu32_imm32-Emits P 0x81 1 dst inst.imm) refl refl
  alu32_case-Emits bor reg src dst inst h = at_most (emit_alu32-Emits P 0x9 src dst) refl refl
  alu32_case-Emits band imm src dst inst h =
      at_most (emit_alu32_imm32-Emits P 0x81 4 dst inst.imm) refl refl
  alu32_case-Emits band reg src dst inst h = at_most (emit_alu32-Emits P 0x21 src dst) refl refl
  alu32_case-Emits lsh imm src dst inst h =
      at_most (emit_alu32_imm8-Emits P 0xc1 4 dst inst.imm) refl refl
  alu32_case-Emits lsh reg src dst inst h = shift32-Emits 4 src dst
  alu32_case-Emits rsh imm src dst inst h =
      at_most (emit_alu32_imm8-Emits P 0xc1 5 dst inst.imm) refl refl
  alu32_case-Emits rsh reg src dst inst h = shift32-Emits 5 src dst
  alu32_case-Emits xor imm src dst inst h =
      at_most (emit_alu32_imm32-Emits P 0x81 6 dst inst.imm) refl refl
  alu32_case-Emits xor reg src dst inst h = at_most (emit_alu32-Emits P 0x31 src dst) refl refl
  alu32_case-Emits mov imm src dst inst h =
      at_most (emit_alu32_imm32-Emits P 0xc7 0 dst inst.imm) refl refl
  alu32_case-Emits mov reg src dst inst h = at_most (emit_mov-Emits P src dst) refl refl
  alu32_case-Emits arsh imm src dst inst h =
      at_most (emit_alu32_imm8-Emits P 0xc1 7 dst inst.imm) refl refl
  alu32_case-Emits arsh reg src dst inst h = shift32-Emits 7 src dst

  shift64-Emits :
      (ext src dst : ℕ) → Emits P inst_bytes 1 (emit_mov src rcx and_next emit_alu64 0xd3 ext dst)
  shift64-Emits ext src dst =
      at_most (emit_mov-Emits P src rcx before emit_alu64-Emits P 0xd3 ext dst) refl refl

  pub alu64_case-Emits :
      (o : BinOp) (s : Operand) (src dst : ℕ) (inst : Inst)
      → inst.imm < u32_mod
      → Emits P inst_bytes 1 (alu64_case o s src dst inst)
  unfolding alu64_case
  alu64_case-Emits add imm src dst inst h =
      at_most (emit_alu64_imm32-Emits P 0x81 0 dst inst.imm) refl refl
  alu64_case-Emits add reg src dst inst h = at_most (emit_alu64-Emits P 0x1 src dst) refl refl
  alu64_case-Emits sub imm src dst inst h =
      at_most (emit_alu64_imm32-Emits P 0x81 5 dst inst.imm) refl refl
  alu64_case-Emits sub reg src dst inst h = at_most (emit_alu64-Emits P 0x29 src dst) refl refl
  alu64_case-Emits mul s src dst inst h =
      at_most (muldivmod-Emits inst.opcode src dst inst.imm h) refl refl
  alu64_case-Emits div s src dst inst h =
      at_most (muldivmod-Emits inst.opcode src dst inst.imm h) refl refl
  alu64_case-Emits modulo s src dst inst h =
      at_most (muldivmod-Emits inst.opcode src dst inst.imm h) refl refl
  alu64_case-Emits bor imm src dst inst h =
      at_most (emit_alu64_imm32-Emits P 0x81 1 dst inst.imm) refl refl
  alu64_case-Emits bor reg src dst inst h = at_most (emit_alu64-Emits P 0x9 src dst) refl refl
  alu64_case-Emits band imm src dst inst h =
      at_most (emit_alu64_imm32-Emits P 0x81 4 dst inst.imm) refl refl
  alu64_case-Emits band reg src dst inst h = at_most (emit_alu64-Emits P 0x21 src dst) refl refl
  alu64_case-Emits lsh imm src dst inst h =
      at_most (emit_alu64_imm8-Emits P 0xc1 4 dst inst.imm) refl refl
  alu64_case-Emits lsh reg src dst inst h = shift64-Emits 4 src dst
  alu64_case-Emits rsh imm src dst inst h =
      at_most (emit_alu64_imm8-Emits P 0xc1 5 dst inst.imm) refl refl
  alu64_case-Emits rsh reg src dst inst h = shift64-Emits 5 src dst
  alu64_case-Emits xor imm src dst inst h =
      at_most (emit_alu64_imm32-Emits P 0x81 6 dst inst.imm) refl refl
  alu64_case-Emits xor reg src dst inst h = at_most (emit_alu64-Emits P 0x31 src dst) refl refl
  alu64_case-Emits mov imm src dst inst h =
      at_most (emit_load_imm-Emits P dst (sext32 inst.imm)) refl refl
  alu64_case-Emits mov reg src dst inst h = at_most (emit_mov-Emits P src dst) refl refl
  alu64_case-Emits arsh imm src dst inst h =
      at_most (emit_alu64_imm8-Emits P 0xc1 7 dst inst.imm) refl refl
  alu64_case-Emits arsh reg src dst inst h = shift64-Emits 7 src dst
