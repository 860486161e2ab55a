-- ===== src/Vm/Safety/Contained.antt =====
-- Execution of a program that `validate` accepted: control flow stays on instruction boundaries
-- inside the code, the frame pointer stays, and no fetch or call goes astray.
use bpfabric.Prelude.{
  ℕ, zero, suc, ◌+◌, ◌-◌, ◌%◌, ◌≤◌, ◌<◌, ◌≡◌, ◌≢◌, refl, sym, ap, ◌∙◌, arith, inl, inr,
}
use bpfabric.Prelude.{Bool, some, List, get_elem?, length, ◌==◌}
use bpfabric.Prelude.Words.{u16_mod}
use bpfabric.Ebpf.{
  Inst, Op, alu, ldx, st, stx, ja, exit, jump, decode, encode, Width, alu32, alu64, BinOp, div,
  modulo, lsh, rsh, arsh, Operand, reg,
}
use bpfabric.Vm.Alu.Bounds.{StopsAlu}
use bpfabric.Ebpf.Codec.{decode-encode}
use bpfabric.Vm.Outcome.{
  Halt, returned, error, fault, no_instruction, null_call, division_trap, shift_undefined, Post,
  Post-bind, Post-mono, Post-both,
}
use bpfabric.Vm.Exec.{Program, Machine, exec_op, dispatch, execute, step, run}
use bpfabric.Vm.Exec.Registers.{IsWord, Keeps, FuncsFit, Registered, Stops, exec_op-Post}
use bpfabric.Vm.Validate.{accept, slots, validate, opcode_is_zero, check_op, check_jump}
use bpfabric.Vm.Validate.Sound.{IsChecked, Starts, Starts-next, validate-IsChecked, length-lt_max}
use bpfabric.Vm.Validate.Targets.{
  checked_op, op-Extent, Extent, Starts-of_nonzero, check_jump-accept, branch-eq-target,
}
use bpfabric.Vm.Safety.{FieldsFit, IsJump, Lands, Any, exec_op-Lands}

-- The program counter is at the first slot of an instruction that execution in order reaches, or
-- at the end of the code; registers hold words.
pub record OnCode (insts : List Inst) (m : Machine) : Type 0 where
  pub starts : Starts insts 0 m.pc
  pub within : m.pc ≤ length insts
  pub fits : IsWord m

-- All that a program must have to run: `validate` accepted it, its fields are in range, and the
-- functions it may call are there.
pub record IsLoaded (registered : ℕ → Bool) (p : Program) : Type 0 where
  pub accepted : validate registered p.insts ≡ accept
  pub fields : FieldsFit p.insts
  pub known : Registered registered p
  pub funcs : FuncsFit p

-- A stop other than a fetch outside the code or a call through a null pointer.
abbrev pub IsContained : Halt → Type 0
IsContained (fault no_instruction) = ⊥
IsContained (fault null_call) = ⊥
IsContained _ = Unit

StopsAlu-IsContained :
    (w : Width) (o : BinOp) (s : Operand) (h : Halt) → StopsAlu w o s h → IsContained h
StopsAlu-IsContained w lsh s h e = rw e tt
StopsAlu-IsContained w rsh s h e = rw e tt
StopsAlu-IsContained w arsh s h e = rw e tt
StopsAlu-IsContained alu32 div reg (fault no_instruction) e = e
StopsAlu-IsContained alu32 div reg (fault null_call) e = e
StopsAlu-IsContained alu32 modulo reg (fault no_instruction) e = e
StopsAlu-IsContained alu32 modulo reg (fault null_call) e = e
StopsAlu-IsContained alu64 div reg (fault no_instruction) e = e
StopsAlu-IsContained alu64 div reg (fault null_call) e = e
StopsAlu-IsContained alu64 modulo reg (fault no_instruction) e = e
StopsAlu-IsContained alu64 modulo reg (fault null_call) e = e
StopsAlu-IsContained w o s (returned v) e = tt
StopsAlu-IsContained w o s (error x) e = tt
StopsAlu-IsContained w o s (fault division_trap) e = tt
StopsAlu-IsContained w o s (fault shift_undefined) e = tt
StopsAlu-IsContained w o s h e = absurd e

Stops-IsContained : (op : Op) (h : Halt) → Stops op h → IsContained h
Stops-IsContained (alu w o s) h e = StopsAlu-IsContained w o s h e
Stops-IsContained (ldx z) h e = rw e tt
Stops-IsContained (st z) h e = rw e tt
Stops-IsContained (stx z) h e = rw e tt
Stops-IsContained exit (returned v) e = tt
Stops-IsContained op h e = absurd e

jump-check :
    (registered : ℕ → Bool) (insts : List Inst) (op : Op) (i : ℕ) (inst : Inst)
    → IsJump op
    → check_op registered insts op i inst ≡ accept
    → check_jump registered insts i inst ≡ accept
unfolding check_op
jump-check registered insts ja i inst j h = h
jump-check registered insts (jump c s) i inst j h = h
jump-check registered insts _ i inst j h = absurd j

-- The last instruction slot holds EBPF_OP_EXIT: the test that `validate` has commented out.
pub record EndsInExit (insts : List Inst) : Type 0 where
  pub last : Inst
  pub found : get_elem? insts (length insts - 1) ≡ some last
  pub is_exit : decode last.opcode ≡ some exit

exit-opcode : (i : Inst) → decode i.opcode ≡ some exit → i.opcode ≡ 0x95
unfolding encode
exit-opcode i h = sym ((decode-encode i.opcode exit).0 h)

Extent-le :
    (registered : ℕ → Bool) (insts : List Inst) (k : ℕ) (op : Op)
    → Extent registered insts k op
    → k < length insts
    → k + slots op ≤ length insts
Extent-le registered insts k op (inl e) lt = omega arith
Extent-le registered insts k op (inr (e, h, z)) lt = omega arith

module _ (registered : ℕ → Bool) (p : Program) (loaded : IsLoaded registered p) where
  -- One instruction, already fetched and decoded.
  op-OnCode :
      (k : ℕ) (c : IsChecked registered p.insts k) (m' : Machine)
      → Starts p.insts 0 k
      → k < length p.insts
      → Lands c.op k c.inst m'
      → IsWord m'
      → OnCode p.insts m'
  op-OnCode k c m' s lt (inl (_, e)) w = record {
    starts = rw e (Starts-next c.inst c.op s c.fetched c.decoded);
    within = omega (
      arith,
      e,
      Extent-le registered p.insts k c.op
          (op-Extent registered p.insts k c.op c.inst (checked_op registered p.insts c)) lt,
    );
    fits = w;
  }
  op-OnCode k c m' s lt (inr (j, e)) w =
      let small = length-lt_max registered p.insts loaded.accepted in
      let (t, target, inside, nonzero) =
        check_jump-accept registered p.insts k c.inst
          (jump-check registered p.insts c.op k c.inst j (checked_op registered p.insts c)) in
      let lands : m'.pc ≡ t =
        e
        ∙ branch-eq-target k t c.inst target (omega arith) (omega arith)
            (loaded.fields.offset_fits k c.inst c.fetched) in
      record {
        starts = rw lands (Starts-of_nonzero registered p.insts t loaded.accepted inside nonzero);
        within = omega arith;
        fits = w;
      }

  op-inside :
      (k : ℕ) (c : IsChecked registered p.insts k) (m' : Machine)
      → k < length p.insts
      → Lands c.op k c.inst m'
      → OnCode p.insts m'
      → EndsInExit p.insts
      → m'.pc < length p.insts
  op-inside k c m' lt (inl (other, e)) on ends =
      elim (op-Extent registered p.insts k c.op c.inst (checked_op registered p.insts c)) [
        | inl one ↦
            let not_last : k ≢ length p.insts - 1 = λ same.
              let f : some c.inst ≡ some ends.last =
                sym c.fetched ∙ (ap (get_elem? p.insts) same ∙ ends.found) in
              let g : c.inst ≡ ends.last = cc in
              let d : some c.op ≡ some exit =
                sym c.decoded ∙ (ap (λ t. decode t.opcode) g ∙ ends.is_exit) in
              other (cc) in
            omega arith
        | inr (two, room, z) ↦
            let not_last : k + 1 ≢ length p.insts - 1 = λ same.
              let z1 = ap (λ j. opcode_is_zero (get_elem? p.insts j)) same in
              let z2 = ap opcode_is_zero ends.found in
              let z3 = ap (λ (j : ℕ). j == 0) (exit-opcode ends.last ends.is_exit) in cc in
            omega arith
      ]
  op-inside k c m' lt (inr (j, e)) on ends =
      let small = length-lt_max registered p.insts loaded.accepted in
      let (t, target, inside, nonzero) =
        check_jump-accept registered p.insts k c.inst
          (jump-check registered p.insts c.op k c.inst j (checked_op registered p.insts c)) in
      omega (
        arith,
        e,
        branch-eq-target k t c.inst target (omega arith) (omega arith)
            (loaded.fields.offset_fits k c.inst c.fetched),
      )

  step-exec_op :
      (m : Machine) (c : IsChecked registered p.insts m.pc)
      → step p m ≡ exec_op p c.op c.inst (record m { pc = (m.pc + 1) % u16_mod })
  unfolding step
  step-exec_op m c = rw (c.fetched, execute, c.decoded, dispatch) refl

  abbrev After : Machine → Machine → Type 0
  After m m' =
      OnCode p.insts m' × (m'.regs 10 ≡ m.regs 10) × (EndsInExit p.insts → m'.pc < length p.insts)

  -- One iteration at an instruction inside a loaded program (`IsLoaded`) leads to an instruction or to
  -- the end of the code, and not to the end if the program ends in EXIT; it keeps the registers
  -- words, memory bytes and the frame pointer; or it stops in another way than by a fetch outside
  -- the code or a call through a null pointer.
  pub step-Post :
      (m : Machine)
      → OnCode p.insts m
      → m.pc < length p.insts
      → Post (After m) IsContained (step p m)
  step-Post m on lt =
      let c = validate-IsChecked registered p.insts loaded.accepted on.starts lt in
      let small = length-lt_max registered p.insts loaded.accepted in
      let room =
        Extent-le registered p.insts m.pc c.op
          (op-Extent registered p.insts m.pc c.op c.inst (checked_op registered p.insts c)) lt in
      let m1 : Machine = record m { pc = (m.pc + 1) % u16_mod } in
      let pc1 : m1.pc ≡ m.pc + 1 = omega arith in
      let lands = exec_op-Lands p c.op m.pc c.inst m1 pc1 (omega arith) in
      let keeps =
        exec_op-Post registered p c.op m.pc c.inst m1
          (record { regs_fit = on.fits.regs_fit; bytes_fit = on.fits.bytes_fit })
          (loaded.fields.imm_fits m.pc c.inst c.fetched) loaded.known loaded.funcs
          loaded.fields.imm_fits pc1 c.checked in
      rw (step-exec_op m c) (
        Post-mono _ (After m) _ IsContained (exec_op p c.op c.inst m1)
          (λ m' b.
            let on' = op-OnCode m.pc c m' on.starts lt b.0 b.1.0 in
            (on', b.1.1, op-inside m.pc c m' lt b.0 on'))
          (λ h b. Stops-IsContained c.op h b.1)
          (Post-both (Lands c.op m.pc c.inst) (Keeps m1) Any (Stops c.op) _ lands keeps))

  -- A loaded program (`IsLoaded`: accepted by `validate`, its functions there) that ends in EXIT, run
  -- for any number of iterations from an instruction inside the code, has by then stopped in another
  -- way than by a fetch outside the code or a call through a null pointer, or stands at an
  -- instruction inside the code with its frame pointer unchanged.
  pub run-IsContained :
      (fuel : ℕ) (m : Machine)
      → EndsInExit p.insts
      → OnCode p.insts m
      → m.pc < length p.insts
      → Post
          (λ m'. OnCode p.insts m' × (m'.regs 10 ≡ m.regs 10) × (m'.pc < length p.insts))
          IsContained
          (run p fuel m)
  unfolding run
  run-IsContained zero m ends on lt = (on, refl, lt)
  run-IsContained (suc fuel) m ends on lt =
      Post-bind (After m) _ IsContained (step p m) (run p fuel) (step-Post m on lt) λ m' a.
        Post-mono _ _ IsContained IsContained (run p fuel m') (λ m'' b. (b.0, b.1 ∙ a.1, b.2))
          (λ h b. b) (run-IsContained fuel m' ends a.0 (a.2 ends))
