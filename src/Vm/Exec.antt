-- ===== src/Vm/Exec.antt =====
-- `ubpf_exec` of ubpf/ubpf_vm.c: one iteration of its loop, and the loop on fuel.
pub mod Registers
pub mod Sandbox
use Prim.Native.Nat.{bit_and}
use bpfabric.Prelude.{ℕ, zero, suc, ◌+◌, ◌-◌, ◌*◌, ◌%◌, Bool, not, Option, none, some, List}
use bpfabric.Prelude.{ltb, leb, ◌==◌, if◌then◌else◌, get_elem?}
use bpfabric.Prelude.Words.{u16_mod, u32_mod, u64_mod, sext16, sext32, bias64, add64}
use bpfabric.Ebpf.{
  Inst, Operand, imm, reg, Op, alu, neg, to_le, to_be, ldx, st, stx, lddw, ja, call, exit, jump,
  Cond, jeq, jgt, jge, jset, jne, jsgt, jsge, Size, decode,
}
use bpfabric.Vm.Outcome.{
  Run, ok, halt, Halt, returned, error, fault, out_of_bounds, no_instruction, null_call, ◌>>=◌,
}
use bpfabric.Vm.Alu.{exec_alu, exec_neg, exec_le, exec_be}
use bpfabric.Vm.Memory.{Memory, Regions, size_bytes, load, store, bounds_check, stack_size}

-- A registered function: five arguments and the memory give a result and the memory after it.
abbrev pub ExtFunc : Type 0
ExtFunc = ℕ → ℕ → ℕ → ℕ → ℕ → Memory → ℕ × Memory

-- What stays fixed during a run: the code, the array `ext_funcs`, and the memory regions.
pub record Program : Type 0 where
  pub insts : List Inst
  pub ext_funcs : ℕ → Option ExtFunc
  pub regions : Regions

-- The variables of the loop. A register is one of `reg[0]` to `reg[15]`.
pub record Machine : Type 0 where
  pub pc : ℕ
  pub regs : ℕ → ℕ
  pub memory : Memory

unfoldable pub write_reg : (ℕ → ℕ) → ℕ → ℕ → ℕ → ℕ
write_reg regs d v r = if d == r then v else regs r

abbrev pub set_reg : Machine → ℕ → ℕ → Machine
set_reg m d v = record m { regs = write_reg m.regs d v }

-- The second operand: `reg[inst.src]`, or `inst.imm` converted to `uint64_t`.
unfoldable pub operand : Operand → Inst → Machine → ℕ
unfolding sext32
operand imm i m = sext32 i.imm
operand reg i m = m.regs i.src

-- JGT_IMM and JGE_IMM convert `inst.imm` to `uint32_t`, the other conditions to 64 bits.
unfoldable pub cond_operand : Cond → Operand → Inst → Machine → ℕ
unfolding operand
cond_operand jgt imm i m = i.imm
cond_operand jge imm i m = i.imm
cond_operand _ s i m = operand s i m

unfoldable pub holds : Cond → ℕ → ℕ → Bool
unfolding bias64
holds jeq d v = d == v
holds jgt d v = ltb v d
holds jge d v = leb v d
holds jset d v = not (bit_and d v == 0)
holds jne d v = not (d == v)
holds jsgt d v = ltb (bias64 v) (bias64 d)
holds jsge d v = leb (bias64 v) (bias64 d)

-- `pc += inst.offset` on the `uint16_t` program counter
abbrev pub branch : Inst → Machine → Machine
branch i m = record m { pc = (m.pc + i.offset) % u16_mod }

-- EBPF_OP_LDDW, with the instruction slot that `insts[pc++]` reads
unfoldable pub load_wide : Inst → Option Inst → Machine → Run Machine
unfolding write_reg
load_wide i none m = halt (fault no_instruction)
load_wide i (some i') m = ok (record m {
  pc = (m.pc + 1) % u16_mod;
  regs = write_reg m.regs i.dst (i.imm + i'.imm * u32_mod);
})

module _ (p : Program) where
  -- `(void *)reg[r] + inst.offset` behind BOUNDS_CHECK_LOAD or BOUNDS_CHECK_STORE
  unfoldable pub checked_address : ℕ → Inst → Size → Run ℕ
  unfolding bounds_check size_bytes add64 sext16
  checked_address base i z =
      let addr = add64 base (sext16 i.offset) in
      if bounds_check p.regions addr (size_bytes z) then ok addr else halt (error out_of_bounds)

  unfoldable pub store_at : Inst → Size → ℕ → Machine → Run Machine
  unfolding checked_address store size_bytes
  store_at i z v m = do
    addr ← checked_address (m.regs i.dst) i z
    ok (record m { memory = store (size_bytes z) m.memory addr v })

  unfoldable pub call_function : Option ExtFunc → Machine → Run Machine
  call_function none m = halt (fault null_call)
  call_function (some f) m =
      let (r, memory) = f (m.regs 1) (m.regs 2) (m.regs 3) (m.regs 4) (m.regs 5) m.memory in
      ok (record m { regs = write_reg m.regs 0 r; memory = memory })

  -- The switch of the loop; `pc` has been advanced past the instruction.
  unfoldable pub exec_op : Op → Inst → Machine → Run Machine
  unfolding operand cond_operand holds write_reg exec_alu exec_neg exec_le exec_be checked_address
      store_at call_function load load_wide sext32
  exec_op (alu w o s) i m = do
    v ← exec_alu w o s (m.regs i.dst) (operand s i m)
    ok (set_reg m i.dst v)
  exec_op (neg w) i m = ok (set_reg m i.dst (exec_neg w (m.regs i.dst)))
  exec_op to_le i m = ok (set_reg m i.dst (exec_le i.imm (m.regs i.dst)))
  exec_op to_be i m = ok (set_reg m i.dst (exec_be i.imm (m.regs i.dst)))
  exec_op (ldx z) i m = do
    addr ← checked_address (m.regs i.src) i z
    ok (set_reg m i.dst (load (size_bytes z) m.memory addr))
  exec_op (st z) i m = store_at i z (sext32 i.imm) m
  exec_op (stx z) i m = store_at i z (m.regs i.src) m
  exec_op lddw i m = load_wide i (get_elem? p.insts m.pc) m
  exec_op ja i m = ok (branch i m)
  exec_op (jump c s) i m =
      if holds c (m.regs i.dst) (cond_operand c s i m) then ok (branch i m) else ok m
  exec_op call i m = call_function (p.ext_funcs i.imm) m
  exec_op exit i m = halt (returned (m.regs 0))

  -- An opcode without a case in the switch does nothing.
  unfoldable pub dispatch : Option Op → Inst → Machine → Run Machine
  unfolding exec_op
  dispatch none i m = ok m
  dispatch (some op) i m = exec_op op i m

  -- One iteration: fetch, advance `pc`, switch.
  unfoldable pub execute : Option Inst → Machine → Run Machine
  unfolding dispatch decode
  execute none m = halt (fault no_instruction)
  execute (some i) m = dispatch (decode i.opcode) i (record m { pc = (m.pc + 1) % u16_mod })

  unfoldable pub step : Machine → Run Machine
  unfolding execute
  step m = execute (get_elem? p.insts m.pc) m

  -- The loop for at most `fuel` iterations: `ok` is a run that has not stopped yet.
  unfoldable pub run : ℕ → Machine → Run Machine
  unfolding step
  run zero m = ok m
  run (suc fuel) m = step m >>= run fuel

-- `reg[1] = mem; reg[10] = stack + sizeof(stack);` the other registers hold what the C stack held.
unfoldable pub start : Program → (ℕ → ℕ) → Memory → Machine
unfolding write_reg
start p garbage memory = record {
  pc = 0;
  regs = write_reg (write_reg garbage 1 p.regions.mem) 10 (add64 p.regions.stack stack_size);
  memory = memory;
}

-- What `ubpf_exec` returns for a way to stop, `none` where the C code faults.
unfoldable pub result : Halt → Option ℕ
result (returned v) = some v
result (error e) = some (u64_mod - 1)
result (fault f) = none
