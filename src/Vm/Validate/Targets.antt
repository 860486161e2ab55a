-- ===== src/Vm/Validate/Targets.antt =====
-- Where the control flow of an accepted program can go: every jump and every fall-through reaches
-- the first slot of an instruction or, for a fall-through, the end of the code.
use bpfabric.Prelude.{ℕ, zero, suc, ◌+◌, ◌%◌, ◌≤◌, ◌<◌, ◌≡◌, refl, Bool, true, false, arith}
use bpfabric.Prelude.{
  not, ◌&&◌, Option, none, some, List, get_elem?, length, ltb→lt, Bool-cases, ◌==◌,
}
use bpfabric.Prelude.{◌⊎◌, inl, inr, ==_iff}
use bpfabric.Prelude.Words.{u16_mod}
use bpfabric.Ebpf.{Inst, Op, lddw}
use bpfabric.Vm.Validate.{
  accept, slots, check_inst, check_op, check_jump, check_target, jump_target, check_from, validate,
  opcode_is_zero,
}
use bpfabric.Vm.Validate.Sound.{
  and_then-accept, require-accept, IsChecked, check_from-suc, Starts, here, Starts-next,
  one-le-slots, check_from_all,
}

pub and-true : (a b : Bool) → (a && b) ≡ true → (a ≡ true) × (b ≡ true)
and-true true b h = (refl, h)
and-true false b h = absurd (cc)

not-true : (a : Bool) → not a ≡ true → a ≡ false
not-true true h = absurd (cc)
not-true false h = refl

module _ (registered : ℕ → Bool) (insts : List Inst) where
  pub checked_op :
      {i : ℕ} (c : IsChecked registered insts i) → check_op registered insts c.op i c.inst ≡ accept
  unfolding check_inst
  checked_op c = (and_then-accept _ _ c.checked).0

  -- The slots of a checked instruction: the second slot of an `lddw` has opcode 0.
  abbrev pub Extent : ℕ → Op → Type 0
  Extent i op =
      (slots op ≡ 1)
      ⊎ ((slots op ≡ 2)
          × (i + 1 < length insts)
          × (opcode_is_zero (get_elem? insts (i + 1)) ≡ true))

  pub op-Extent :
      (i : ℕ) (op : Op) (inst : Inst) → check_op registered insts op i inst ≡ accept → Extent i op
  unfolding check_op
  op-Extent i lddw inst h =
      let (a, b) = and-true _ _ (require-accept _ _ h) in inr (refl, ltb→lt _ _ a, b)
  op-Extent i _ inst h = inl refl

  past :
      (i t : ℕ) (op : Op)
      → Extent i op
      → (i == t) ≡ false
      → i ≤ t
      → opcode_is_zero (get_elem? insts t) ≡ false
      → i + slots op ≤ t
  past i t op (inl e) ne le nz = ground arith
  past i t op (inr (e, lt, z)) ne le nz = elim (Bool-cases (i + 1 == t)) [
    | inl same ↦
        let eq : i + 1 ≡ t = (==_iff (i + 1) t).0 same in
        let z' : opcode_is_zero (get_elem? insts t) ≡ true = rw (← eq) z in absurd (cc)
    | inr other ↦ ground arith
  ]

  Starts-from :
      (rounds i t : ℕ)
      → check_from registered insts rounds i ≡ accept
      → length insts ≤ i + rounds
      → Starts insts 0 i
      → i ≤ t
      → t < length insts
      → opcode_is_zero (get_elem? insts t) ≡ false
      → Starts insts 0 t
  Starts-from zero i t h enough s le lt nz = absurd (omega arith)
  Starts-from (suc rounds) i t h enough s le lt nz = elim (Bool-cases (i == t)) [
    | inl e ↦ let eq : i ≡ t = (==_iff i t).0 e in rw (← eq) s
    | inr ne ↦
        let (c, later) = check_from-suc registered insts rounds i h (omega arith) in
        let extent = op-Extent i c.op c.inst (checked_op c) in
        let s' = Starts-next c.inst c.op s c.fetched c.decoded in
        Starts-from rounds (i + slots c.op) t later (omega (arith, one-le-slots c.op)) s'
          (past i t c.op extent ne le nz) lt nz
  ]

  -- A jump target has been checked, and it is where an instruction begins.
  pub Starts-of_nonzero :
      (t : ℕ)
      → validate registered insts ≡ accept
      → t < length insts
      → opcode_is_zero (get_elem? insts t) ≡ false
      → Starts insts 0 t
  Starts-of_nonzero t h lt nz =
      Starts-from (length insts) 0 t (check_from_all registered insts h) (omega arith) here
        (omega arith) lt nz

  check_target-accept :
      (i : ℕ) (o : Option ℕ)
      → check_target registered insts i o ≡ accept
      → (t : ℕ) × (o ≡ some t) × (t < length insts) × (opcode_is_zero (get_elem? insts t) ≡ false)
  unfolding check_target
  check_target-accept i none h = absurd (cc)
  check_target-accept i (some t) h =
      let (a, b) = and_then-accept _ _ h in
      (t, refl, ltb→lt _ _ (require-accept _ _ a), not-true _ (require-accept _ _ b))

  pub check_jump-accept :
      (i : ℕ) (inst : Inst)
      → check_jump registered insts i inst ≡ accept
      → (t : ℕ) × (jump_target i inst ≡ some t)
        × (t < length insts)
        × (opcode_is_zero (get_elem? insts t) ≡ false)
  unfolding check_jump
  check_jump-accept i inst h = check_target-accept i _ (and_then-accept _ _ h).1

-- The `uint16_t` arithmetic of the interpreter reaches the target that `validate` computed as an
-- `int`.
pub branch-eq-target :
    (i t : ℕ) (inst : Inst)
    → jump_target i inst ≡ some t
    → t < u16_mod
    → i + 1 < u16_mod
    → inst.offset < u16_mod
    → (i + 1 + inst.offset) % u16_mod ≡ t
unfolding jump_target
branch-eq-target i t inst h lt li lo = ground arith
