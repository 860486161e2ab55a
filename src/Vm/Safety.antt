-- ===== src/Vm/Safety.antt =====
-- Where an instruction of `ubpf_exec` leaves the program counter.
pub mod Contained
use bpfabric.Prelude.{
  ℕ, zero, suc, ◌+◌, ◌-◌, ◌%◌, ◌≤◌, ◌<◌, ◌≡◌, ◌≢◌, refl, sym, ap, ◌∙◌, arith, ◌⊎◌, inl, inr,
}
use bpfabric.Prelude.{
  Bool, true, false, Option, none, some, List, get_elem?, length, Bool-cases, get_elem?-lt, ◌==◌,
  if◌then◌else◌,
}
use bpfabric.Prelude.Words.{u16_mod, u32_mod, u64_mod}
use bpfabric.Ebpf.{
  Inst, Operand, imm, reg, Op, alu, neg, to_le, to_be, ldx, st, stx, lddw, ja, call, exit, jump,
  decode, encode,
}
use bpfabric.Ebpf.Codec.{decode-encode}
use bpfabric.Vm.Outcome.{
  Run, ok, halt, Halt, returned, error, fault, no_instruction, null_call, ◌>>=◌, Post, Post-bind,
  Post-mono,
}
use bpfabric.Vm.Exec.{
  ExtFunc, Program, Machine, exec_op, dispatch, execute, step, run, holds, cond_operand, operand,
  load_wide, call_function, store_at, checked_address,
}
use bpfabric.Vm.Alu.{exec_alu}
use bpfabric.Vm.Exec.Registers.{IsWord, Keeps, FuncsFit, Registered, Stops, exec_op-Post}
use bpfabric.Vm.Validate.{
  accept, slots, validate, opcode_is_zero, check_inst, check_op, check_jump, jump_target,
}
use bpfabric.Vm.Validate.Sound.{
  IsChecked, Starts, Starts-next, validate-IsChecked, length-lt_max, one-le-slots,
}
use bpfabric.Vm.Validate.Targets.{
  checked_op, op-Extent, Starts-of_nonzero, check_jump-accept, branch-eq-target,
}

-- The bit fields of the instructions are in range, as their C types make them.
pub record FieldsFit (insts : List Inst) : Type 0 where
  pub offset_fits : (j : ℕ) (i : Inst) → get_elem? insts j ≡ some i → i.offset < u16_mod
  pub imm_fits : (j : ℕ) (i : Inst) → get_elem? insts j ≡ some i → i.imm < u32_mod

abbrev pub IsJump : Op → Type 0
IsJump ja = Unit
IsJump (jump c s) = Unit
IsJump _ = ⊥

-- Where an instruction at index `k` leaves the program counter.
abbrev pub Lands : Op → ℕ → Inst → Machine → Type 0
Lands op k i m =
    ((op ≢ exit) × (m.pc ≡ k + slots op)) ⊎ (IsJump op × (m.pc ≡ (k + 1 + i.offset) % u16_mod))

abbrev pub Any : Halt → Type 0
Any h = Unit

load_wide-Lands :
    (k : ℕ) (i : Inst) (o : Option Inst) (m : Machine)
    → m.pc ≡ k + 1
    → k + 2 < u16_mod
    → Post (Lands lddw k i) Any (load_wide i o m)
unfolding load_wide
load_wide-Lands k i none m e h = tt
load_wide-Lands k i (some i') m e h = inl ((λ q. cc), omega arith)

call_function-Lands :
    (p : Program) (k : ℕ) (i : Inst) (o : Option ExtFunc) (m : Machine)
    → m.pc ≡ k + 1
    → Post (Lands call k i) Any (call_function p o m)
unfolding call_function
call_function-Lands p k i none m e = tt
call_function-Lands p k i (some f) m e = inl ((λ q. cc), e)

Post-Any {ℓ} : {A : Type ℓ} (r : Run A) → Post (λ _. Unit {0}) Any r
Post-Any (ok a) = tt
Post-Any (halt h) = tt

pub exec_op-Lands :
    (p : Program) (op : Op) (k : ℕ) (i : Inst) (m : Machine)
    → m.pc ≡ k + 1
    → k + slots op < u16_mod
    → Post (Lands op k i) Any (exec_op p op i m)
unfolding exec_op
exec_op-Lands p (alu w o s) k i m e h =
    Post-bind (λ _. Unit {0}) _ Any (exec_alu w o s (m.regs i.dst) (operand s i m)) _ (Post-Any _)
      λ v _. inl ((λ q. cc), e)
exec_op-Lands p (ldx z) k i m e h =
    Post-bind (λ _. Unit {0}) _ Any (checked_address p (m.regs i.src) i z) _ (Post-Any _)
      λ a _. inl ((λ q. cc), e)
exec_op-Lands p (st z) k i m e h =
    unfold store_at in
    Post-bind (λ _. Unit {0}) _ Any (checked_address p (m.regs i.dst) i z) _ (Post-Any _)
      λ a _. inl ((λ q. cc), e)
exec_op-Lands p (stx z) k i m e h =
    unfold store_at in
    Post-bind (λ _. Unit {0}) _ Any (checked_address p (m.regs i.dst) i z) _ (Post-Any _)
      λ a _. inl ((λ q. cc), e)
exec_op-Lands p lddw k i m e h = load_wide-Lands k i (get_elem? p.insts m.pc) m e h
exec_op-Lands p (jump c s) k i m e h =
    elim (Bool-cases (holds c (m.regs i.dst) (cond_operand c s i m))) [
      | inl t ↦ rw t (inr (tt, rw e refl))
      | inr t ↦ rw t (inl ((λ q. cc), e))
    ]
exec_op-Lands p ja k i m e h = inr (tt, rw e refl)
exec_op-Lands p call k i m e h = call_function-Lands p k i (p.ext_funcs i.imm) m e
exec_op-Lands p exit k i m e h = tt
exec_op-Lands p _ k i m e h = inl ((λ q. cc), e)
