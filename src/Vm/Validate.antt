-- ===== src/Vm/Validate.antt =====
-- `validate` of ubpf/ubpf_vm.c: the checks on a program before it is loaded.
pub mod Sound
pub mod Targets
pub mod Complete
pub mod Rules
use bpfabric.Prelude.{ℕ, zero, suc, ◌+◌, ◌-◌, ◌≡◌, Bool, true, false, not, ◌&&◌, ◌||◌}
use bpfabric.Prelude.{Option, none, some, List, ltb, leb, ◌==◌, if◌then◌else◌, get_elem?, length}
use bpfabric.Prelude.Words.{u16_mod}
use bpfabric.Ebpf.{
  Inst, Operand, imm, reg, Op, alu, neg, to_le, to_be, ldx, st, stx, lddw, ja, call, exit, jump,
  BinOp, div, modulo, decode,
}

-- MAX_INSTS, MAX_EXT_FUNCS
abbrev pub max_insts : ℕ
max_insts = 65536

abbrev pub max_ext_funcs : ℕ
max_ext_funcs = 64

-- The messages, with the instruction's index where the source prints it.
pub data Message : Type 0 where
  too_many_instructions : Message
  invalid_endian_immediate incomplete_lddw infinite_loop jump_out_of_bounds jump_to_middle_of_lddw
        invalid_call_immediate nonexistent_function division_by_zero unknown_opcode
        invalid_source_register invalid_destination_register :
      ℕ → Message

pub data Verdict : Type 0 where
  accept : Verdict
  reject : Message → Verdict

infixl 5 ◌and_then◌
abbrev pub ◌and_then◌ : Verdict → Verdict → Verdict
accept and_then k = k
reject e and_then k = reject e

-- `if (!b) { *errmsg = e; return false; }`
abbrev pub require : Bool → Message → Verdict
require true e = accept
require false e = reject e

-- `new_pc = i + 1 + inst.offset` as an `int`; `none` where it is negative.
unfoldable pub jump_target : ℕ → Inst → Option ℕ
jump_target i inst =
    if ltb inst.offset 0x8000
    then some (i + 1 + inst.offset)
    else if ltb (i + 1 + inst.offset) u16_mod
    then none
    else some (i + 1 + inst.offset - u16_mod)

-- The opcode that stands at an index, which the caller has tested against `num_insts`.
abbrev pub opcode_is_zero : Option Inst → Bool
opcode_is_zero none = false
opcode_is_zero (some i) = i.opcode == 0

-- EBPF_OP_DIV_IMM, EBPF_OP_MOD_IMM and their 64-bit forms
abbrev pub is_division : BinOp → Bool
is_division div = true
is_division modulo = true
is_division _ = false

abbrev pub is_store : Op → Bool
is_store (st z) = true
is_store (stx z) = true
is_store _ = false

-- The slots that an instruction takes.
abbrev pub slots : Op → ℕ
slots lddw = 2
slots _ = 1

module _ (registered : ℕ → Bool) (insts : List Inst) where
  unfoldable pub check_target : ℕ → Option ℕ → Verdict
  check_target i none = reject (jump_out_of_bounds i)
  check_target i (some new_pc) =
      require (ltb new_pc (length insts)) (jump_out_of_bounds i)
      and_then require (not (opcode_is_zero (get_elem? insts new_pc))) (jump_to_middle_of_lddw i)

  unfoldable pub check_jump : ℕ → Inst → Verdict
  unfolding check_target jump_target
  check_jump i inst =
      require (not (inst.offset == 0xffff)) (infinite_loop i)
      and_then check_target i (jump_target i inst)

  -- The switch of `validate` at the instruction with index `i`.
  unfoldable pub check_op : Op → ℕ → Inst → Verdict
  unfolding check_jump
  check_op to_le i inst =
      require (inst.imm == 16 || inst.imm == 32 || inst.imm == 64) (invalid_endian_immediate i)
  check_op to_be i inst =
      require (inst.imm == 16 || inst.imm == 32 || inst.imm == 64) (invalid_endian_immediate i)
  check_op lddw i inst =
      require (ltb (i + 1) (length insts) && opcode_is_zero (get_elem? insts (i + 1)))
        (incomplete_lddw i)
  check_op ja i inst = check_jump i inst
  check_op (jump c s) i inst = check_jump i inst
  check_op call i inst =
      require (ltb inst.imm max_ext_funcs) (invalid_call_immediate i)
      and_then require (registered inst.imm) (nonexistent_function i)
  check_op (alu w o imm) i inst =
      require (not (is_division o && inst.imm == 0)) (division_by_zero i)
  check_op _ i inst = accept

  -- The register checks after the switch; they print the index of the instruction, or for an
  -- `lddw` that of its second slot.
  unfoldable pub check_registers : Op → ℕ → Inst → Verdict
  check_registers op i inst =
      require (leb inst.src 10) (invalid_source_register i)
      and_then require (leb inst.dst 9 || is_store op && inst.dst == 10)
          (invalid_destination_register i)

  unfoldable pub check_inst : Op → ℕ → Inst → Verdict
  unfolding check_op check_registers
  check_inst op i inst = check_op op i inst and_then check_registers op (i + (slots op - 1)) inst

  -- The body of the loop at index `i`; `k` is the loop from a later index.
  unfoldable pub check_decoded : (ℕ → Verdict) → ℕ → Inst → Option Op → Verdict
  unfolding check_inst
  check_decoded k i inst none = reject (unknown_opcode i)
  check_decoded k i inst (some op) = check_inst op i inst and_then k (i + slots op)

  unfoldable pub check_at : (ℕ → Verdict) → ℕ → Option Inst → Verdict
  unfolding check_decoded decode
  check_at k i none = accept
  check_at k i (some inst) = check_decoded k i inst (decode inst.opcode)

  -- The loop from index `i`, which ends past the last instruction. An iteration advances by the
  -- slots of its instruction, so as many rounds as there are instructions are enough.
  unfoldable pub check_from : ℕ → ℕ → Verdict
  unfolding check_at
  check_from zero i = accept
  check_from (suc rounds) i = check_at (check_from rounds) i (get_elem? insts i)

  unfoldable pub validate : Verdict
  unfolding check_from
  validate =
      require (ltb (length insts) max_insts) too_many_instructions
      and_then check_from (length insts) 0
