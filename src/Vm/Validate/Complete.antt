-- ===== src/Vm/Validate/Complete.antt =====
-- Which programs `validate` accepts: an equivalent description without its loop.
use bpfabric.Prelude.{
  ℕ, zero, suc, ◌+◌, ◌<◌, ◌≡◌, ◌↔◌, refl, sym, ap, ◌∙◌, Bool, Option, none, some, List,
}
use bpfabric.Prelude.{get_elem?, get_elem?-lt, length, lt→ltb}
use bpfabric.Ebpf.{Inst, Op, decode}
use bpfabric.Vm.Validate.{
  Verdict, accept, slots, check_inst, check_decoded, check_at, check_from, validate, max_insts,
}
use bpfabric.Vm.Validate.Sound.{IsChecked, Starts, here, next, length-lt_max, validate-IsChecked}
use bpfabric.Vm.Validate.Rules.{Allowed, check_inst-Allowed, require-true, both-accept}

module _ (registered : ℕ → Bool) (insts : List Inst) where
  check_decoded_complete :
      (k : ℕ → Verdict) (i : ℕ) (inst : Inst) (op : Op)
      → check_inst registered insts op i inst ≡ accept
      → k (i + slots op) ≡ accept
      → check_decoded registered insts k i inst (some op) ≡ accept
  unfolding check_decoded
  check_decoded_complete k i inst op now later = both-accept _ _ now later

  check_at_complete :
      (k : ℕ → Verdict) (i : ℕ) (o : Option Inst)
      → get_elem? insts i ≡ o
      → (i < length insts → IsChecked registered insts i)
      → ((inst : Inst) (op : Op)
          → get_elem? insts i ≡ some inst
          → decode inst.opcode ≡ some op
          → k (i + slots op) ≡ accept)
      → check_at registered insts k i o ≡ accept
  unfolding check_at
  check_at_complete k i none e checked later = refl
  check_at_complete k i (some inst) e checked later =
      let c = checked (get_elem?-lt insts i e) in
      let f : some c.inst ≡ some inst = sym c.fetched ∙ e in
      let same : c.inst ≡ inst = cc in
      let d : decode inst.opcode ≡ some c.op = ap (λ t. decode t.opcode) (sym same) ∙ c.decoded in
      ap (check_decoded registered insts k i inst) d
      ∙ check_decoded_complete k i inst c.op (rw (← same) c.checked) (later inst c.op e d)

  check_from_complete :
      (rounds i : ℕ)
      → ((j : ℕ) → Starts insts i j → j < length insts → IsChecked registered insts j)
      → check_from registered insts rounds i ≡ accept
  unfolding check_from
  check_from_complete zero i all = refl
  check_from_complete (suc rounds) i all =
      check_at_complete (check_from registered insts rounds) i _ refl (λ lt. all i here lt)
        λ inst op e d.
          check_from_complete rounds (i + slots op) (λ j s lt. all j (next inst op e d s) lt)

  -- At this index there is an instruction with a known operation, and the rules allow it.
  pub record IsAllowed (i : ℕ) : Type 0 where
    pub inst : Inst
    pub op : Op
    pub fetched : get_elem? insts i ≡ some inst
    pub decoded : decode inst.opcode ≡ some op
    pub allowed : Allowed registered insts op i inst

  IsChecked-IsAllowed : (i : ℕ) → IsChecked registered insts i ↔ IsAllowed i
  IsChecked-IsAllowed i = (
    λ c. record {
      inst = c.inst;
      op = c.op;
      fetched = c.fetched;
      decoded = c.decoded;
      allowed = (check_inst-Allowed registered insts c.op i c.inst).0 c.checked;
    },
    λ a. record {
      inst = a.inst;
      op = a.op;
      fetched = a.fetched;
      decoded = a.decoded;
      checked = (check_inst-Allowed registered insts a.op i a.inst).1 a.allowed;
    },
  )

  -- `validate` accepts a program exactly when it has fewer than MAX_INSTS instruction slots, and at
  -- every index where an instruction begins, in order from the first, the opcode is known and the
  -- rules allow the instruction: its source register is at most 10, its destination at most 9, or 10
  -- in a store; a byte swap has 16, 32 or 64 bits; an LDDW is followed by a slot with opcode 0; a jump
  -- does not lead to itself, but to an index of the program whose opcode is not 0; a call is of a
  -- registered function below 64; and a division or modulo by an immediate has one other than 0.
  pub validate_iff :
      (validate registered insts ≡ accept)
      ↔ ((length insts < max_insts) × ((j : ℕ) → Starts insts 0 j → j < length insts → IsAllowed j))
  unfolding validate
  validate_iff = (
    λ h. (
      length-lt_max registered insts h,
      λ j s lt. (IsChecked-IsAllowed j).0 (validate-IsChecked registered insts h s lt),
    ),
    λ (small, all).
        both-accept _ _ (require-true _ _ (lt→ltb _ _ small))
          (check_from_complete (length insts) 0 λ j s lt. (IsChecked-IsAllowed j).1 (all j s lt)),
  )
