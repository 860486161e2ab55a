-- ===== src/Vm/Jit/Ops.antt =====
-- The cases of `translate` of ubpf/ubpf_jit_x86_64.c on an instruction that `validate` has accepted.
use bpfabric.Prelude.{
  ℕ, ◌+◌, ◌*◌, ◌%◌, ◌<◌, ◌≡◌, ◌⊎◌, refl, arith, Bool, not, ◌||◌, inl, inr, Option, none, some, List,
  length, get_elem?, get_elem?-some, ltb→lt, lt→ltb, ◌==◌, if◌then◌else◌,
}
use bpfabric.Prelude.Words.{u16_mod, u32_mod, u64_mod, sext16, sext32}
use bpfabric.Ebpf.{
  Inst, alu32, alu64, Operand, imm, reg, Cond, jset, Op, alu, neg, to_le, to_be, ldx, st, stx, lddw,
  ja, call, exit, jump,
}
use bpfabric.Vm.Validate.{max_ext_funcs, accept, validate, check_op, check_jump, jump_target}
use bpfabric.Vm.Validate.Sound.{Starts, and_then-accept, require-accept, length-lt_max}
use bpfabric.Vm.Validate.Targets.{check_jump-accept, op-Extent, Starts-of_nonzero}
use bpfabric.Vm.Jit.Emit.{rcx, low_bits}
use bpfabric.Vm.Jit.Cases.{
  target_pc_exit, be_case, compare_case, jump_code, operand_size, displacement, target_of,
  lddw_case, call_case, emit_op,
}
use bpfabric.Vm.Jit.Extends.{Emits, Emits-le, Emits-if, nothing-Emits, ◌before◌}
use bpfabric.Vm.Jit.Sizes.{
  emit1-Emits, emit_basic_rex-Emits, emit_alu32-Emits, emit_alu32_imm32-Emits,
  emit_alu32_imm8-Emits, emit_alu64-Emits, emit_alu64_imm32-Emits, emit_mov-Emits,
  emit_cmp_imm32-Emits, emit_cmp-Emits, emit_jcc-Emits, emit_jmp-Emits, emit_load-Emits,
  emit_load_imm-Emits, emit_store-Emits, emit_store_imm32-Emits, emit_call-Emits,
}
use bpfabric.Vm.Jit.AluSizes.{
  inst_bytes, at_most, emit_if-Emits, alu32_case-Emits, alu64_case-Emits,
}

module _ (P : ℕ → Type 0) where
  be_case-Emits : (dst v : ℕ) → Emits P 12 0 (be_case dst v)
  unfolding be_case
  be_case-Emits dst v =
      Emits-if P (v == 16)
        (emit1-Emits P 0x66
          before emit_alu32_imm8-Emits P 0xc1 0 dst 8
          before emit_alu32_imm32-Emits P 0x81 4 dst 0xffff)
        (Emits-if P (v == 32 || v == 64)
          (Emits-le P (omega arith) (omega arith) (
            emit_basic_rex-Emits P (if v == 64 then 1 else 0) 0 dst (ground arith)
            before emit1-Emits P 0x0f
            before emit1-Emits P (0xc8 + low_bits dst)))
          (Emits-le P (omega arith) (omega arith) (nothing-Emits P)))

  compare_case-Emits :
      (c : Cond) (s : Operand) (src dst : ℕ) (inst : Inst)
      → Emits P 7 0 (compare_case c s src dst inst)
  unfolding compare_case
  compare_case-Emits jset imm src dst inst = emit_alu64_imm32-Emits P 0xf7 0 dst inst.imm
  compare_case-Emits jset reg src dst inst =
      Emits-le P (omega arith) (omega arith) (emit_alu64-Emits P 0x85 src dst)
  compare_case-Emits _ imm src dst inst = emit_cmp_imm32-Emits P dst inst.imm
  compare_case-Emits _ reg src dst inst =
      Emits-le P (omega arith) (omega arith) (emit_cmp-Emits P src dst)

  call_case-Emits :
      (address : ℕ → ℕ) (inst : Inst)
      → inst.imm < max_ext_funcs
      → Emits P 15 0 (call_case address inst)
  unfolding call_case
  call_case-Emits address inst h s r =
      let known = lt→ltb inst.imm max_ext_funcs h in
      let (s', e, x, kept) =
        (emit_mov-Emits P 9 rcx before emit_call-Emits P (address inst.imm)) s r in
      (s', rw known e, x, kept)

  lddw_case-Emits :
      (dst : ℕ) (inst : Inst) (o : Option Inst) (inst2 : Inst)
      → o ≡ some inst2
      → Emits P 10 0 (lddw_case dst inst o)
  unfolding lddw_case
  lddw_case-Emits dst inst none inst2 e = absurd (cc)
  lddw_case-Emits dst inst (some inst2) _ e =
      emit_load_imm-Emits P dst (inst.imm + sext32 inst2.imm * u32_mod % u64_mod)

-- Where a jump of the translation leads: to the exit, or to the beginning of an instruction.
abbrev pub IsTarget : List Inst → ℕ → Type 0
IsTarget insts t = (t ≡ target_pc_exit) ⊎ (Starts insts 0 t × (t < length insts))

-- `target_pc` is the target that `validate` computed.
target_of-eq :
    (i t : ℕ) (inst : Inst)
    → jump_target i inst ≡ some t
    → t < u16_mod
    → i + 1 < u16_mod
    → inst.offset < u16_mod
    → target_of i inst ≡ t
unfolding jump_target target_of sext16
target_of-eq i t inst h lt li lo = ground arith

module _ (registered : ℕ → Bool) (insts : List Inst)
    (valid : validate registered insts ≡ accept) where
  target_of-IsTarget :
      (i : ℕ) (inst : Inst)
      → check_jump registered insts i inst ≡ accept
      → i < length insts
      → inst.offset < u16_mod
      → IsTarget insts (target_of i inst)
  target_of-IsTarget i inst h lt small =
      let (t, e, below, nz) = check_jump-accept registered insts i inst h in
      let count = length-lt_max registered insts valid in
      let same =
        target_of-eq i t inst e (omega (arith, count, below)) (omega (arith, count, lt)) small in
      rw same (inr (Starts-of_nonzero registered insts t valid below nz, below))

  lddw_slot :
      (i : ℕ) (inst : Inst)
      → check_op registered insts lddw i inst ≡ accept
      → (inst2 : Inst) × (get_elem? insts (i + 1) ≡ some inst2)
  lddw_slot i inst h = elim (op-Extent registered insts i lddw inst h) [
    | inl e ↦ absurd (omega (arith, e))
    | inr (e, lt, z) ↦ get_elem?-some insts (i + 1) lt
  ]

  -- Every case of the switch emits at most 31 bytes and one jump, which leads to the exit or to an
  -- instruction, on an instruction that has passed the checks of `validate`.
  pub emit_op-Emits :
      (address : ℕ → ℕ) (op : Op) (i : ℕ) (inst : Inst) (src dst : ℕ)
      → check_op registered insts op i inst ≡ accept
      → i < length insts
      → inst.offset < u16_mod
      → inst.imm < u32_mod
      → Emits (IsTarget insts) inst_bytes 1 (emit_op address insts op i inst src dst)
  unfolding emit_op check_op check_jump
  emit_op-Emits address (alu alu32 o s) i inst src dst h lt small fits =
      alu32_case-Emits _ o s src dst inst fits
  emit_op-Emits address (alu alu64 o s) i inst src dst h lt small fits =
      alu64_case-Emits _ o s src dst inst fits
  emit_op-Emits address (neg alu32) i inst src dst h lt small fits =
      at_most _ (emit_alu32-Emits _ 0xf7 3 dst) refl refl
  emit_op-Emits address (neg alu64) i inst src dst h lt small fits =
      at_most _ (emit_alu64-Emits _ 0xf7 3 dst) refl refl
  emit_op-Emits address to_le i inst src dst h lt small fits = at_most _ (nothing-Emits _) refl refl
  emit_op-Emits address to_be i inst src dst h lt small fits =
      at_most _ (be_case-Emits _ dst inst.imm) refl refl
  emit_op-Emits address ja i inst src dst h lt small fits =
      at_most _ (emit_jmp-Emits _ (target_of i inst) (target_of-IsTarget i inst h lt small)) refl
        refl
  emit_op-Emits address (jump c s) i inst src dst h lt small fits =
      at_most _
        (compare_case-Emits _ c s src dst inst
          before emit_jcc-Emits _ (jump_code c) (target_of i inst)
              (target_of-IsTarget i inst h lt small))
        refl refl
  emit_op-Emits address call i inst src dst h lt small fits =
      let known = ltb→lt _ _ (require-accept _ _ (and_then-accept _ _ h).0) in
      at_most _ (call_case-Emits _ address inst known) refl refl
  emit_op-Emits address exit i inst src dst h lt small fits =
      at_most _
        (emit_if-Emits _ (not (i + 1 == length insts)) (emit_jmp-Emits _ target_pc_exit (inl refl)))
        refl refl
  emit_op-Emits address (ldx z) i inst src dst h lt small fits =
      at_most _ (emit_load-Emits _ (operand_size z) src dst (displacement inst)) refl refl
  emit_op-Emits address (st z) i inst src dst h lt small fits =
      at_most _ (emit_store_imm32-Emits _ (operand_size z) dst (displacement inst) inst.imm) refl
        refl
  emit_op-Emits address (stx z) i inst src dst h lt small fits =
      at_most _ (emit_store-Emits _ (operand_size z) src dst (displacement inst)) refl refl
  emit_op-Emits address lddw i inst src dst h lt small fits =
      let (inst2, e) = lddw_slot i inst h in
      at_most _ (lddw_case-Emits _ dst inst (get_elem? insts (i + 1)) inst2 e) refl refl
