-- ===== src/Vm/Jit/Frame.antt =====
-- The code of ubpf/ubpf_jit_x86_64.c around the instructions: how much it emits at most.
use bpfabric.Prelude.{ℕ, ◌-◌, ◌≡◌, refl, inl, List, length, ◌==◌, not}
use bpfabric.Prelude.Words.{u64_mod}
use bpfabric.Ebpf.{Inst}
use bpfabric.Vm.Jit.State.{Jit, ok, ◌and_next◌}
use bpfabric.Vm.Jit.Emit.{rax, rcx, rdx, rbx, rsp, rbp, rsi, rdi, r13, r14, r15}
use bpfabric.Vm.Jit.Cases.{map_register, target_pc_exit}
use bpfabric.Vm.Jit.Translate.{
  Addresses, mark_exit, mark_div_by_zero, prologue, epilogue, div_by_zero_handler, stack_size,
}
use bpfabric.Vm.Jit.Extends.{Extends, Emits, HasRoom, ◌before◌}
use bpfabric.Vm.Jit.Sizes.{
  emit1-Emits, emit_push-Emits, emit_pop-Emits, emit_alu64_imm32-Emits, emit_mov-Emits,
  emit_load_imm-Emits, emit_call-Emits, emit_jmp-Emits,
}
use bpfabric.Vm.Jit.AluSizes.{emit_if-Emits}
use bpfabric.Vm.Jit.Ops.{IsTarget}

module _ (insts : List Inst) where
  -- Setting a location adds nothing.
  as_Extends :
      {n k : ℕ} {exit_loc div_by_zero_loc : ℕ} (s s' : Jit)
      → Extends
          (IsTarget insts)
          n
          k
          (record s { exit_loc = exit_loc; div_by_zero_loc = div_by_zero_loc })
          s'
      → Extends (IsTarget insts) n k s s'
  as_Extends s s' x = record {
    bytes = x.bytes;
    js = x.js;
    code = x.code;
    jumps = x.jumps;
    size = x.size;
    few_bytes = x.few_bytes;
    few_jumps = x.few_jumps;
    between = x.between;
  }

  pub prologue-Emits : Emits (IsTarget insts) 23 0 prologue
  unfolding prologue map_register
  prologue-Emits =
      let P = IsTarget insts in
      emit_push-Emits P rbp
      before emit_push-Emits P rbx
      before emit_push-Emits P r13
      before emit_push-Emits P r14
      before emit_push-Emits P r15
      before emit_if-Emits P (not (rdi == rdi)) (emit_mov-Emits P rdi rdi)
      before emit_mov-Emits P rsp rbp
      before emit_alu64_imm32-Emits P 0x81 5 rsp stack_size

  -- What the code from `exit_loc` on adds, and what it leaves.
  pub epilogue_lem :
      (s : Jit)
      → HasRoom 21 0 s
      → (s' : Jit) × (epilogue s ≡ ok s')
        × Extends (IsTarget insts) 21 0 s s'
        × (s'.pc_locs ≡ s.pc_locs)
        × (s'.exit_loc ≡ length s.code)
  unfolding epilogue mark_exit map_register ◌and_next◌
  epilogue_lem s r =
      let P = IsTarget insts in
      let (s', e, x, kept) =
        (emit_if-Emits P (not (rax == rax)) (emit_mov-Emits P rax rax)
            before emit_alu64_imm32-Emits P 0x81 0 rsp stack_size
            before emit_pop-Emits P r15
            before emit_pop-Emits P r14
            before emit_pop-Emits P r13
            before emit_pop-Emits P rbx
            before emit_pop-Emits P rbp
            before emit1-Emits P 0xc3)
          (record s { exit_loc = length s.code })
          (record { small = r.small; bytes_fit = r.bytes_fit; jumps_fit = r.jumps_fit }) in
      (s', e, as_Extends s s' x, kept.0, kept.1)

  module _ (at : Addresses) where
    pub div_by_zero_handler_lem :
        (s : Jit)
        → HasRoom 50 1 s
        → (s' : Jit) × (div_by_zero_handler at s ≡ ok s')
          × Extends (IsTarget insts) 50 1 s s'
          × (s'.pc_locs ≡ s.pc_locs)
          × (s'.exit_loc ≡ s.exit_loc)
    unfolding div_by_zero_handler mark_div_by_zero map_register ◌and_next◌
    div_by_zero_handler_lem s r =
        let P = IsTarget insts in
        let (s', e, x, kept) =
          (emit_load_imm-Emits P rdi at.stderr
              before emit_load_imm-Emits P rsi at.div_by_zero_fmt
              before emit_mov-Emits P rcx rdx
              before emit_call-Emits P at.fprintf
              before emit_load_imm-Emits P rax (u64_mod - 1)
              before emit_jmp-Emits P target_pc_exit (inl refl))
            (record s { div_by_zero_loc = length s.code })
            (record { small = r.small; bytes_fit = r.bytes_fit; jumps_fit = r.jumps_fit }) in
        (s', e, as_Extends s s' x, kept.0, kept.1)
