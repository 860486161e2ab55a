-- ===== src/Vm/Jit/Translate.antt =====
-- ubpf/ubpf_jit_x86_64.c: `translate` and `resolve_jumps`.
use bpfabric.Prelude.{
  ℕ, zero, suc, ◌+◌, ◌-◌, ◌%◌, not, Option, none, some, List, [], ◌∷◌, length, get_elem?, leb, ◌==◌,
  if◌then◌else◌,
}
use bpfabric.Prelude.Words.{u32_mod, u64_mod}
use bpfabric.Prelude.Bytes.{write_at}
use bpfabric.Maps.Attr.{bytes_of}
use bpfabric.Ebpf.{Inst, Op, decode}
use bpfabric.Vm.Validate.{max_insts, slots}
use bpfabric.Vm.Jit.State.{
  Jump, Jit, Result, ok, stop, wild, unknown_instruction, ◌>>=◌, Emitter, ◌and_next◌, nothing,
  emit1, rel_size,
}
use bpfabric.Vm.Jit.Emit.{
  rax, rcx, rdx, rbx, rsp, rbp, rsi, rdi, r13, r14, r15, emit_push, emit_pop, emit_mov,
  emit_alu64_imm32, emit_load_imm, emit_call, emit_jmp,
}
use bpfabric.Vm.Jit.Cases.{map_register, emit_if, emit_op, target_pc_exit, target_pc_div_by_zero}

-- STACK_SIZE of ubpf/ubpf_int.h
abbrev pub stack_size : ℕ
stack_size = 16384

-- What the translation takes from the process: the pointers in `vm->ext_funcs`, `stderr`, the format
-- string and `fprintf`.
pub record Addresses : Type 0 where
  pub ext_funcs : ℕ → ℕ
  pub stderr : ℕ
  pub div_by_zero_fmt : ℕ
  pub fprintf : ℕ

-- `state.exit_loc = state.offset`, and likewise for the other locations
unfoldable pub mark_exit : Emitter
mark_exit s = ok (record s { exit_loc = length s.code })

unfoldable pub mark_div_by_zero : Emitter
mark_div_by_zero s = ok (record s { div_by_zero_loc = length s.code })

unfoldable pub mark_pc : ℕ → Emitter
mark_pc i s = ok (record s { pc_locs = λ j. if j == i then length s.code else s.pc_locs j })

-- The slots that the loop advances by
abbrev pub slots_of : Option Op → ℕ
slots_of none = 1
slots_of (some op) = slots op

-- The code before the loop
unfoldable pub prologue : Emitter
unfolding ◌and_next◌ emit_push emit_if emit_mov emit_alu64_imm32 map_register
prologue =
    emit_push rbp
    and_next emit_push rbx
    and_next emit_push r13
    and_next emit_push r14
    and_next emit_push r15
    and_next (λ s. map_register 1 >>= λ r. emit_if (not (r == rdi)) (emit_mov rdi r) s)
    and_next (λ s. map_register 10 >>= λ r. emit_mov rsp r s)
    and_next emit_alu64_imm32 0x81 5 rsp stack_size

-- From `state->exit_loc = state->offset` to the `ret`
unfoldable pub epilogue : Emitter
unfolding ◌and_next◌ mark_exit map_register emit_if emit_mov emit_alu64_imm32 emit_pop emit1
epilogue =
    mark_exit
    and_next (λ s. map_register 0 >>= λ r. emit_if (not (r == rax)) (emit_mov r rax) s)
    and_next emit_alu64_imm32 0x81 0 rsp stack_size
    and_next emit_pop r15
    and_next emit_pop r14
    and_next emit_pop r13
    and_next emit_pop rbx
    and_next emit_pop rbp
    and_next emit1 0xc3

module _ (at : Addresses) where
  -- The division by zero handler
  unfoldable pub div_by_zero_handler : Emitter
  unfolding ◌and_next◌ mark_div_by_zero emit_load_imm emit_mov emit_call map_register emit_jmp
  div_by_zero_handler =
      mark_div_by_zero
      and_next emit_load_imm rdi at.stderr
      and_next emit_load_imm rsi at.div_by_zero_fmt
      and_next emit_mov rcx rdx
      and_next emit_call at.fprintf
      and_next (λ s. map_register 0 >>= λ r. emit_load_imm r (u64_mod - 1) s)
      and_next emit_jmp target_pc_exit

  module _ (insts : List Inst) where
    unfoldable pub emit_decoded : ℕ → Inst → ℕ → ℕ → Option Op → Emitter
    unfolding emit_op
    emit_decoded i inst src dst none s = stop (unknown_instruction i inst.opcode)
    emit_decoded i inst src dst (some op) s = emit_op at.ext_funcs insts op i inst src dst s

    -- The body of the loop
    unfoldable pub emit_inst : ℕ → Inst → Emitter
    unfolding map_register emit_decoded decode
    emit_inst i inst s = map_register inst.dst >>= λ dst.
        map_register inst.src >>= λ src. emit_decoded i inst src dst (decode inst.opcode) s

    unfoldable pub translate_at : (ℕ → Emitter) → ℕ → Option Inst → Emitter
    unfolding ◌and_next◌ nothing mark_pc emit_inst decode
    translate_at k i none = nothing
    translate_at k i (some inst) =
        mark_pc i and_next emit_inst i inst and_next k (i + slots_of (decode inst.opcode))

    -- The loop from index `i`, which ends past the last instruction: as many rounds as there are
    -- instructions are enough.
    unfoldable pub translate_from : ℕ → ℕ → Emitter
    unfolding nothing translate_at
    translate_from zero i = nothing
    translate_from (suc rounds) i = translate_at (translate_from rounds) i (get_elem? insts i)

    unfoldable pub translate : Emitter
    unfolding ◌and_next◌ prologue translate_from epilogue div_by_zero_handler
    translate =
        prologue
        and_next translate_from (length insts) 0
        and_next epilogue
        and_next div_by_zero_handler

-- `target_loc` of a jump
unfoldable pub target_loc : Jit → ℕ → Result ℕ
target_loc s target_pc =
    if target_pc == target_pc_exit
    then ok s.exit_loc
    else if target_pc == target_pc_div_by_zero
    then ok s.div_by_zero_loc
    else if leb target_pc max_insts
    then ok (s.pc_locs target_pc)
    else stop wild

-- `rel`, and its copy into the code
unfoldable pub relative : ℕ → ℕ → ℕ
relative loc offset_loc = (loc + (u32_mod - (offset_loc + rel_size) % u32_mod)) % u32_mod

unfoldable pub patch : ℕ → ℕ → List ℕ → List ℕ
unfolding write_at bytes_of relative
patch offset_loc loc code = write_at offset_loc (bytes_of (relative loc offset_loc)) code

-- The loop of `resolve_jumps` over the remaining jumps, on the bytes of `state->buf`
unfoldable pub resolve : Jit → List Jump → List ℕ → Result (List ℕ)
unfolding target_loc patch
resolve s [] code = ok code
resolve s (j ∷ js) code =
    target_loc s j.target_pc >>= λ loc. resolve s js (patch j.offset_loc loc code)

unfoldable pub resolve_jumps : Jit → Result (List ℕ)
unfolding resolve
resolve_jumps s = resolve s s.jumps s.code
