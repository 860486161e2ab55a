-- ===== src/Vm/Validate/Rules.antt =====
-- The rules of `validate` in ubpf/ubpf_vm.c for one instruction, as propositions.
use bpfabric.Prelude.{
  ℕ, ◌+◌, ◌≤◌, ◌<◌, ◌≡◌, ◌≢◌, ◌⊎◌, ◌↔◌, sym, ap, ◌-◌, lt→ltb, ltb→lt, inl, inr, refl, arith, Bool,
  true, false, not, ◌&&◌, ◌||◌, Bool-cases, Option, some, List, ltb, leb, ◌==◌, get_elem?,
  get_elem?-lt, get_elem?-some,
}
use bpfabric.Prelude.Words.{u16_mod}
use bpfabric.Ebpf.{
  Inst, imm, reg, Op, alu, to_le, to_be, st, stx, lddw, ja, call, jump, div, modulo,
}
use bpfabric.Vm.Validate.{
  Message, Verdict, accept, reject, ◌and_then◌, require, opcode_is_zero, check_target, check_jump,
  jump_target, infinite_loop, invalid_source_register, invalid_destination_register, check_op,
  check_registers, check_inst, slots, is_store,
}
use bpfabric.Vm.Validate.Sound.{and_then-accept, require-accept}
use bpfabric.Vm.Validate.Targets.{and-true, check_jump-accept}

-- The signed offset leads from behind instruction `i` to instruction `t`.
abbrev pub LeadsTo : ℕ → ℕ → ℕ → Type 0
LeadsTo i offset t =
    ((offset < 0x8000) × (t ≡ i + 1 + offset))
    ⊎ ((0x8000 ≤ offset) × (t + 0x1_0000 ≡ i + 1 + offset))

-- The destination may be the frame pointer in a store only.
abbrev pub DstAllowed : Op → ℕ → Type 0
DstAllowed (st z) dst = dst ≤ 10
DstAllowed (stx z) dst = dst ≤ 10
DstAllowed _ dst = dst ≤ 9

dst_sound : (op : Op) (dst : ℕ) → (leb dst 9 || is_store op && dst == 10) ≡ true → DstAllowed op dst
dst_sound (st z) dst h = ground (arith, h)
dst_sound (stx z) dst h = ground (arith, h)
dst_sound _ dst h = ground (arith, h)

dst_complete :
    (op : Op) (dst : ℕ) → DstAllowed op dst → (leb dst 9 || is_store op && dst == 10) ≡ true
dst_complete (st z) dst h = ground (arith, h)
dst_complete (stx z) dst h = ground (arith, h)
dst_complete _ dst h = ground (arith, h)

pub require-true : (b : Bool) (e : Message) → b ≡ true → require b e ≡ accept
require-true true e h = refl
require-true _ e h = absurd (cc)

pub both-accept : (a b : Verdict) → a ≡ accept → b ≡ accept → (a and_then b) ≡ accept
both-accept accept b h k = k
both-accept (reject e) b h k = absurd (cc)

jump_target-LeadsTo :
    (i t : ℕ) (inst : Inst) → jump_target i inst ≡ some t → LeadsTo i inst.offset t
unfolding jump_target
jump_target-LeadsTo i t inst h = elim (Bool-cases (ltb inst.offset 0x8000)) [
  | inl low ↦
      let h' : some (i + 1 + inst.offset) ≡ some t = rw low at h in
      let e : i + 1 + inst.offset ≡ t = cc in inl (ground (arith, low), sym e)
  | inr high ↦ elim (Bool-cases (ltb (i + 1 + inst.offset) u16_mod)) [
    | inl out ↦ let h' = rw (high, out) at h in absurd (cc)
    | inr inside ↦
        let h' : some (i + 1 + inst.offset - u16_mod) ≡ some t = rw (high, inside) at h in
        let e : i + 1 + inst.offset - u16_mod ≡ t = cc in
        inr (ground (arith, high), ground (arith, inside, e))
  ]
]

LeadsTo-jump_target :
    (i t : ℕ) (inst : Inst) → LeadsTo i inst.offset t → jump_target i inst ≡ some t
unfolding jump_target
LeadsTo-jump_target i t inst (inl (low, e)) =
    let l : ltb inst.offset 0x8000 ≡ true = ground (arith, low) in rw l (ap some (sym e))
LeadsTo-jump_target i t inst (inr (high, e)) =
    let h : ltb inst.offset 0x8000 ≡ false = ground (arith, high) in
    let l : ltb (i + 1 + inst.offset) u16_mod ≡ false = ground (arith, e) in
    rw (h, l) (ap some (omega (arith, e)))

zero-opcode : (o : Option Inst) (t : Inst) → o ≡ some t → t.opcode ≡ 0 → opcode_is_zero o ≡ true
zero-opcode o t e z = rw (e, z) refl

nonzero-opcode : (o : Option Inst) (t : Inst) → o ≡ some t → t.opcode ≢ 0 → opcode_is_zero o ≡ false
nonzero-opcode o t e n = rw e (ground (arith, n))

module _ (registered : ℕ → Bool) (insts : List Inst) where
  -- A jump does not lead to the jump itself, but to an instruction that is not the second half of an LDDW.
  abbrev pub JumpAllowed : ℕ → Inst → Type 0
  JumpAllowed i inst =
      (inst.offset ≢ 0xffff)
      × ((t : ℕ) × (target : Inst) × LeadsTo i inst.offset t
          × (get_elem? insts t ≡ some target)
          × (target.opcode ≢ 0))

  abbrev pub OpAllowed : Op → ℕ → Inst → Type 0
  OpAllowed to_le i inst = (inst.imm ≡ 16) ⊎ ((inst.imm ≡ 32) ⊎ (inst.imm ≡ 64))
  OpAllowed to_be i inst = (inst.imm ≡ 16) ⊎ ((inst.imm ≡ 32) ⊎ (inst.imm ≡ 64))
  OpAllowed lddw i inst =
      (second : Inst) × (get_elem? insts (i + 1) ≡ some second) × (second.opcode ≡ 0)
  OpAllowed ja i inst = JumpAllowed i inst
  OpAllowed (jump c s) i inst = JumpAllowed i inst
  OpAllowed call i inst = (inst.imm < 64) × (registered inst.imm ≡ true)
  OpAllowed (alu w div imm) i inst = inst.imm ≢ 0
  OpAllowed (alu w modulo imm) i inst = inst.imm ≢ 0
  OpAllowed _ i inst = Unit

  -- What `validate` requires of the instruction `inst` with the operation `op` at the index `i`.
  pub record Allowed (op : Op) (i : ℕ) (inst : Inst) : Type 0 where
    pub operands : OpAllowed op i inst
    pub source : inst.src ≤ 10
    pub destination : DstAllowed op inst.dst

  jump_sound :
      (i : ℕ) (inst : Inst) → check_jump registered insts i inst ≡ accept → JumpAllowed i inst
  unfolding check_jump
  jump_sound i inst h =
      let (a, _) =
        and_then-accept (require (not (inst.offset == 0xffff)) (infinite_loop i))
          (check_target registered insts i (jump_target i inst)) h in
      let (t, leads, lt, nz) = check_jump-accept registered insts i inst h in
      let (target, at) = get_elem?-some insts t lt in
      let nz' : opcode_is_zero (some target) ≡ false = rw at at nz in
      let b : not (inst.offset == 0xffff) ≡ true = require-accept _ _ a in
      (ground (arith, b), (t, target, jump_target-LeadsTo i t inst leads, at, ground (arith, nz')))

  jump_complete :
      (i : ℕ) (inst : Inst) → JumpAllowed i inst → check_jump registered insts i inst ≡ accept
  unfolding check_jump check_target
  jump_complete i inst (other, (t, target, leads, at, nz)) =
      let a : not (inst.offset == 0xffff) ≡ true = ground (arith, other) in
      let lt = lt→ltb _ _ (get_elem?-lt insts t at) in
      let n : not (opcode_is_zero (get_elem? insts t)) ≡ true =
        rw (nonzero-opcode _ target at nz) refl in
      rw (a, LeadsTo-jump_target i t inst leads, lt, n) refl

  op_sound :
      (op : Op) (i : ℕ) (inst : Inst)
      → check_op registered insts op i inst ≡ accept
      → OpAllowed op i inst
  unfolding check_op
  op_sound to_le i inst h = ground (arith, require-accept _ _ h)
  op_sound to_be i inst h = ground (arith, require-accept _ _ h)
  op_sound lddw i inst h =
      let (a, b) = and-true _ _ (require-accept _ _ h) in
      let (second, at) = get_elem?-some insts (i + 1) (ltb→lt _ _ a) in
      let z : opcode_is_zero (some second) ≡ true = rw at at b in (second, at, ground (arith, z))
  op_sound ja i inst h = jump_sound i inst h
  op_sound (jump c s) i inst h = jump_sound i inst h
  op_sound call i inst h =
      let (a, b) = and_then-accept _ _ h in
      (ltb→lt _ _ (require-accept _ _ a), require-accept _ _ b)
  op_sound (alu w div imm) i inst h = ground (arith, require-accept _ _ h)
  op_sound (alu w modulo imm) i inst h = ground (arith, require-accept _ _ h)
  op_sound _ i inst h = tt

  op_complete :
      (op : Op) (i : ℕ) (inst : Inst)
      → OpAllowed op i inst
      → check_op registered insts op i inst ≡ accept
  unfolding check_op
  op_complete to_le i inst h = require-true _ _ (ground (arith, h))
  op_complete to_be i inst h = require-true _ _ (ground (arith, h))
  op_complete lddw i inst (second, at, z) =
      let lt = lt→ltb _ _ (get_elem?-lt insts (i + 1) at) in rw (lt, zero-opcode _ second at z) refl
  op_complete ja i inst h = jump_complete i inst h
  op_complete (jump c s) i inst h = jump_complete i inst h
  op_complete call i inst (small, known) = rw (lt→ltb _ _ small, known) refl
  op_complete (alu w div imm) i inst h = require-true _ _ (ground (arith, h))
  op_complete (alu w modulo imm) i inst h = require-true _ _ (ground (arith, h))
  op_complete (alu w o reg) i inst h = refl
  op_complete (alu w _ imm) i inst h = refl
  op_complete _ i inst h = refl

  registers-accept :
      (op : Op) (i : ℕ) (inst : Inst)
      → check_registers registered insts op i inst ≡ accept
      → (inst.src ≤ 10) × DstAllowed op inst.dst
  unfolding check_registers
  registers-accept op i inst h =
      let (a, b) =
        and_then-accept (require (leb inst.src 10) (invalid_source_register i))
          (require (leb inst.dst 9 || is_store op && inst.dst == 10)
            (invalid_destination_register i))
          h in
      let s : leb inst.src 10 ≡ true = require-accept _ _ a in
      (ground (arith, s), dst_sound op inst.dst (require-accept _ _ b))

  pub check_inst-Allowed :
      (op : Op) (i : ℕ) (inst : Inst)
      → (check_inst registered insts op i inst ≡ accept) ↔ Allowed op i inst
  unfolding check_inst check_registers
  check_inst-Allowed op i inst = (
    λ h.
        let (a, b) =
          and_then-accept (check_op registered insts op i inst)
            (check_registers registered insts op (i + (slots op - 1)) inst) h in
        let (s, d) = registers-accept op (i + (slots op - 1)) inst b in
        record { operands = op_sound op i inst a; source = s; destination = d },
    λ r. both-accept _ _ (op_complete op i inst r.operands) (
        both-accept _ _ (require-true _ _ (ground (arith, r.source)))
          (require-true _ _ (dst_complete op inst.dst r.destination))),
  )
