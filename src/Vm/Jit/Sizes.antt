-- ===== src/Vm/Jit/Sizes.antt =====
-- How much the functions of ubpf/ubpf_jit_x86_64.h emit at most.
use bpfabric.Prelude.{ℕ, ◌/◌, ◌%◌, ◌<◌, ◌≡◌, refl, arith, true, ◌∷◌, [], ◌++◌, lt→ltb}
use bpfabric.Prelude.Words.{u32_mod}
use bpfabric.Maps.Attr.{bytes_of}
use bpfabric.Vm.Jit.State.{emit1, emit2, emit4, emit8}
use bpfabric.Vm.Jit.Emit.{
  OperandSize, s8, s16, s32, s64, rax, top_bit, emit_modrm, emit_modrm_reg2reg,
  emit_modrm_and_displacement, emit_rex, emit_basic_rex, emit_push, emit_pop, emit_alu32,
  emit_alu32_imm32, emit_alu32_imm8, emit_alu64, emit_alu64_imm32, emit_alu64_imm8, emit_mov,
  emit_cmp, emit_cmp_imm32, emit_jcc, rex_w, load_opcode, emit_override, store_immediate, emit_load,
  emit_load_imm, emit_store, emit_store_imm32, emit_call, emit_jmp, is_int32,
}
use bpfabric.Vm.Jit.Extends.{
  Emits, Emits-le, Emits-if, nothing-Emits, require-Emits, emit_bytes-Emits, emit_jump_offset-Emits,
  ◌before◌,
}

module _ (P : ℕ → Type 0) where
  pub emit1-Emits : (x : ℕ) → Emits P 1 0 (emit1 x)
  unfolding emit1
  emit1-Emits x = emit_bytes-Emits P (x % 0x100 ∷ [])

  emit2-Emits : (x : ℕ) → Emits P 2 0 (emit2 x)
  unfolding emit2
  emit2-Emits x = emit_bytes-Emits P (x % 0x100 ∷ x / 0x100 % 0x100 ∷ [])

  emit4-Emits : (x : ℕ) → Emits P 4 0 (emit4 x)
  unfolding emit4
  emit4-Emits x = emit_bytes-Emits P (bytes_of (x % u32_mod))

  emit8-Emits : (x : ℕ) → Emits P 8 0 (emit8 x)
  unfolding emit8
  emit8-Emits x = emit_bytes-Emits P (bytes_of (x % u32_mod) ++ bytes_of (x / u32_mod % u32_mod))

  emit_modrm-Emits :
      (mod_bits r m : ℕ)
      → mod_bits % 0x40 ≡ 0
      → mod_bits < 0x100
      → Emits P 1 0 (emit_modrm mod_bits r m)
  unfolding emit_modrm
  emit_modrm-Emits mod_bits r m a b = require-Emits P _ (ground arith) before emit1-Emits _

  emit_modrm_reg2reg-Emits : (r m : ℕ) → Emits P 1 0 (emit_modrm_reg2reg r m)
  unfolding emit_modrm_reg2reg
  emit_modrm_reg2reg-Emits r m = emit_modrm-Emits 0xc0 r m refl (omega arith)

  emit_modrm_and_displacement-Emits : (r m d : ℕ) → Emits P 5 0 (emit_modrm_and_displacement r m d)
  unfolding emit_modrm_and_displacement
  emit_modrm_and_displacement-Emits r m d =
      Emits-if P _
        (Emits-le P (omega arith) (omega arith) (emit_modrm-Emits 0x00 r m refl (omega arith)))
        (Emits-if P _
          (Emits-le P (omega arith) (omega arith)
            (emit_modrm-Emits 0x40 r m refl (omega arith) before emit1-Emits d))
          (emit_modrm-Emits 0x80 r m refl (omega arith) before emit4-Emits d))

  pub emit_rex-Emits :
      (w r x b : ℕ) → w < 2 → r < 2 → x < 2 → b < 2 → Emits P 1 0 (emit_rex w r x b)
  unfolding emit_rex
  emit_rex-Emits w r x b hw hr hx hb =
      require-Emits P _ (lt→ltb _ _ hw)
      before require-Emits P _ (lt→ltb _ _ hr)
      before require-Emits P _ (lt→ltb _ _ hx)
      before require-Emits P _ (lt→ltb _ _ hb)
      before emit1-Emits _

  pub emit_basic_rex-Emits : (w src dst : ℕ) → w < 2 → Emits P 1 0 (emit_basic_rex w src dst)
  unfolding emit_basic_rex
  emit_basic_rex-Emits w src dst h =
      Emits-if P _
        (emit_rex-Emits w (top_bit src) 0 (top_bit dst) h (omega arith) (omega arith) (omega arith))
        (Emits-le P (omega arith) (omega arith) (nothing-Emits P))

  pub emit_push-Emits : (r : ℕ) → Emits P 2 0 (emit_push r)
  unfolding emit_push
  emit_push-Emits r = emit_basic_rex-Emits 0 0 r (omega arith) before emit1-Emits _

  pub emit_pop-Emits : (r : ℕ) → Emits P 2 0 (emit_pop r)
  unfolding emit_pop
  emit_pop-Emits r = emit_basic_rex-Emits 0 0 r (omega arith) before emit1-Emits _

  pub emit_alu32-Emits : (op src dst : ℕ) → Emits P 3 0 (emit_alu32 op src dst)
  unfolding emit_alu32
  emit_alu32-Emits op src dst =
      emit_basic_rex-Emits 0 src dst (omega arith)
      before emit1-Emits op
      before emit_modrm_reg2reg-Emits src dst

  pub emit_alu32_imm32-Emits : (op src dst v : ℕ) → Emits P 7 0 (emit_alu32_imm32 op src dst v)
  unfolding emit_alu32_imm32
  emit_alu32_imm32-Emits op src dst v = emit_alu32-Emits op src dst before emit4-Emits v

  pub emit_alu32_imm8-Emits : (op src dst v : ℕ) → Emits P 4 0 (emit_alu32_imm8 op src dst v)
  unfolding emit_alu32_imm8
  emit_alu32_imm8-Emits op src dst v = emit_alu32-Emits op src dst before emit1-Emits v

  pub emit_alu64-Emits : (op src dst : ℕ) → Emits P 3 0 (emit_alu64 op src dst)
  unfolding emit_alu64
  emit_alu64-Emits op src dst =
      emit_basic_rex-Emits 1 src dst (omega arith)
      before emit1-Emits op
      before emit_modrm_reg2reg-Emits src dst

  pub emit_alu64_imm32-Emits : (op src dst v : ℕ) → Emits P 7 0 (emit_alu64_imm32 op src dst v)
  unfolding emit_alu64_imm32
  emit_alu64_imm32-Emits op src dst v = emit_alu64-Emits op src dst before emit4-Emits v

  pub emit_alu64_imm8-Emits : (op src dst v : ℕ) → Emits P 4 0 (emit_alu64_imm8 op src dst v)
  unfolding emit_alu64_imm8
  emit_alu64_imm8-Emits op src dst v = emit_alu64-Emits op src dst before emit1-Emits v

  pub emit_mov-Emits : (src dst : ℕ) → Emits P 3 0 (emit_mov src dst)
  unfolding emit_mov
  emit_mov-Emits src dst = emit_alu64-Emits 0x89 src dst

  pub emit_cmp_imm32-Emits : (dst v : ℕ) → Emits P 7 0 (emit_cmp_imm32 dst v)
  unfolding emit_cmp_imm32
  emit_cmp_imm32-Emits dst v = emit_alu64_imm32-Emits 0x81 7 dst v

  pub emit_cmp-Emits : (src dst : ℕ) → Emits P 3 0 (emit_cmp src dst)
  unfolding emit_cmp
  emit_cmp-Emits src dst = emit_alu64-Emits 0x39 src dst

  pub emit_jcc-Emits : (code t : ℕ) → P t → Emits P 6 1 (emit_jcc code t)
  unfolding emit_jcc
  emit_jcc-Emits code t p =
      emit1-Emits 0x0f before emit1-Emits code before emit_jump_offset-Emits P t p

  pub emit_jmp-Emits : (t : ℕ) → P t → Emits P 5 1 (emit_jmp t)
  unfolding emit_jmp
  emit_jmp-Emits t p = emit1-Emits 0xe9 before emit_jump_offset-Emits P t p

  load_opcode-Emits : (size : OperandSize) → Emits P 2 0 (load_opcode size)
  unfolding load_opcode
  load_opcode-Emits s8 = emit1-Emits 0x0f before emit1-Emits 0xb6
  load_opcode-Emits s16 = emit1-Emits 0x0f before emit1-Emits 0xb7
  load_opcode-Emits s32 = Emits-le P (omega arith) (omega arith) (emit1-Emits 0x8b)
  load_opcode-Emits s64 = Emits-le P (omega arith) (omega arith) (emit1-Emits 0x8b)

  rex_w-lt : (size : OperandSize) → rex_w size < 2
  rex_w-lt s64 = omega arith
  rex_w-lt _ = omega arith

  pub emit_load-Emits :
      (size : OperandSize) (src dst d : ℕ) → Emits P 8 0 (emit_load size src dst d)
  unfolding emit_load
  emit_load-Emits size src dst d =
      emit_basic_rex-Emits (rex_w size) dst src (rex_w-lt size)
      before load_opcode-Emits size
      before emit_modrm_and_displacement-Emits dst src d

  pub emit_load_imm-Emits : (dst v : ℕ) → Emits P 10 0 (emit_load_imm dst v)
  unfolding emit_load_imm
  emit_load_imm-Emits dst v =
      Emits-if P (is_int32 v)
        (Emits-le P (omega arith) (omega arith) (emit_alu64_imm32-Emits 0xc7 0 dst v))
        (emit_basic_rex-Emits 1 0 dst (omega arith) before emit1-Emits _ before emit8-Emits v)

  -- A sign-extended 32-bit immediate takes the short form.
  pub emit_load_imm-short : (dst v : ℕ) → is_int32 v ≡ true → Emits P 7 0 (emit_load_imm dst v)
  unfolding emit_load_imm
  emit_load_imm-short dst v h = rw h (emit_alu64_imm32-Emits 0xc7 0 dst v)

  emit_override-Emits : (size : OperandSize) → Emits P 1 0 (emit_override size)
  unfolding emit_override
  emit_override-Emits s16 = emit1-Emits 0x66
  emit_override-Emits _ = Emits-le P (omega arith) (omega arith) (nothing-Emits P)

  pub emit_store-Emits :
      (size : OperandSize) (src dst d : ℕ) → Emits P 8 0 (emit_store size src dst d)
  unfolding emit_store
  emit_store-Emits size src dst d =
      emit_override-Emits size
      before Emits-if P _
          (emit_rex-Emits (rex_w size) (top_bit src) 0 (top_bit dst) (rex_w-lt size) (omega arith)
            (omega arith) (omega arith))
          (Emits-le P (omega arith) (omega arith) (nothing-Emits P))
      before emit1-Emits _
      before emit_modrm_and_displacement-Emits src dst d

  store_immediate-Emits : (size : OperandSize) (v : ℕ) → Emits P 4 0 (store_immediate size v)
  unfolding store_immediate
  store_immediate-Emits s8 v = Emits-le P (omega arith) (omega arith) (emit1-Emits v)
  store_immediate-Emits s16 v = Emits-le P (omega arith) (omega arith) (emit2-Emits v)
  store_immediate-Emits s32 v = emit4-Emits v
  store_immediate-Emits s64 v = emit4-Emits v

  pub emit_store_imm32-Emits :
      (size : OperandSize) (dst d v : ℕ) → Emits P 12 0 (emit_store_imm32 size dst d v)
  unfolding emit_store_imm32
  emit_store_imm32-Emits size dst d v =
      emit_override-Emits size
      before emit_basic_rex-Emits (rex_w size) 0 dst (rex_w-lt size)
      before emit1-Emits _
      before emit_modrm_and_displacement-Emits 0 dst d
      before store_immediate-Emits size v

  pub emit_call-Emits : (target : ℕ) → Emits P 12 0 (emit_call target)
  unfolding emit_call
  emit_call-Emits target =
      emit_load_imm-Emits rax target before emit1-Emits 0xff before emit1-Emits 0xd0
