-- ===== src/Vm/Validate/Sound.antt =====
-- What acceptance by `validate` says of the instructions that execution can reach in order.
use bpfabric.Prelude.{ℕ, zero, suc, ◌+◌, ◌≤◌, ◌<◌, ◌≡◌, refl, Bool, true, false, arith}
use bpfabric.Prelude.{Option, none, some, List, get_elem?, length, get_elem?-some}
use bpfabric.Prelude.{get_elem?-lt, ltb→lt, ◌∙◌, sym, ap}
use bpfabric.Ebpf.{Inst, Op, decode, lddw}
use bpfabric.Vm.Validate.{
  Message, Verdict, accept, reject, ◌and_then◌, require, slots, check_inst, check_from, check_at,
  check_decoded, validate, max_insts,
}

pub and_then-accept : (a b : Verdict) → (a and_then b) ≡ accept → (a ≡ accept) × (b ≡ accept)
and_then-accept accept b h = (refl, h)
and_then-accept (reject e) b h = absurd (cc)

pub require-accept : (b : Bool) (e : Message) → require b e ≡ accept → b ≡ true
require-accept true e h = refl
require-accept false e h = absurd (cc)

pub one-le-slots : (op : Op) → 1 ≤ slots op
one-le-slots lddw = omega arith
one-le-slots _ = omega arith

module _ (registered : ℕ → Bool) (insts : List Inst) where
  -- An index from which `validate` has checked an instruction.
  pub record IsChecked (i : ℕ) : Type 0 where
    pub inst : Inst
    pub op : Op
    pub fetched : get_elem? insts i ≡ some inst
    pub decoded : decode inst.opcode ≡ some op
    pub checked : check_inst registered insts op i inst ≡ accept

  check_decoded-accept :
      (k : ℕ → Verdict) (i : ℕ) (inst : Inst) (o : Option Op)
      → get_elem? insts i ≡ some inst
      → decode inst.opcode ≡ o
      → check_decoded registered insts k i inst o ≡ accept
      → (c : IsChecked i) × (k (i + slots c.op) ≡ accept)
  unfolding check_decoded
  check_decoded-accept k i inst none fetched decoded h = absurd (cc)
  check_decoded-accept k i inst (some op) fetched decoded h =
      let (now, later) = and_then-accept _ _ h in
      (record { inst = inst; op = op; fetched = fetched; decoded = decoded; checked = now }, later)

  check_at-accept :
      (k : ℕ → Verdict) (i : ℕ) (o : Option Inst)
      → get_elem? insts i ≡ o
      → check_at registered insts k i o ≡ accept
      → i < length insts
      → (c : IsChecked i) × (k (i + slots c.op) ≡ accept)
  unfolding check_at
  check_at-accept k i none e h lt = let (_, found) = get_elem?-some insts i lt in absurd (cc)
  check_at-accept k i (some inst) e h lt = check_decoded-accept k i inst _ e refl h

  -- One round of the loop.
  pub check_from-suc :
      (rounds i : ℕ)
      → check_from registered insts (suc rounds) i ≡ accept
      → i < length insts
      → (c : IsChecked i) × (check_from registered insts rounds (i + slots c.op) ≡ accept)
  unfolding check_from
  check_from-suc rounds i h lt = check_at-accept (check_from registered insts rounds) i _ refl h lt

-- `Starts insts i j`: going through the code in order from an instruction at `i`, an instruction
-- begins at `j` (or `j` is the end of the code).
pub data Starts (insts : List Inst) : ℕ → ℕ → Type 0 where
  here : {i : ℕ} → Starts insts i i
  next :
      {i j : ℕ} (inst : Inst) (op : Op)
      → get_elem? insts i ≡ some inst
      → decode inst.opcode ≡ some op
      → Starts insts (i + slots op) j
      → Starts insts i j

pub Starts-le : {insts : List Inst} {i j : ℕ} → Starts insts i j → i ≤ j
Starts-le here = omega arith
Starts-le (next inst op e d s) = omega (arith, Starts-le s, one-le-slots op)

pub Starts-next :
    {insts : List Inst} {i j : ℕ} (inst : Inst) (op : Op)
    → Starts insts i j
    → get_elem? insts j ≡ some inst
    → decode inst.opcode ≡ some op
    → Starts insts i (j + slots op)
Starts-next inst op here e d = next inst op e d here
Starts-next inst op (next inst' op' e' d' s) e d = next inst' op' e' d' (Starts-next inst op s e d)

module _ (registered : ℕ → Bool) (insts : List Inst) where
  pub same_op :
      {i : ℕ} (c : IsChecked registered insts i) (inst : Inst) (op : Op)
      → get_elem? insts i ≡ some inst
      → decode inst.opcode ≡ some op
      → c.op ≡ op
  same_op c inst op e d =
      let f : some c.inst ≡ some inst = sym c.fetched ∙ e in
      let g : c.inst ≡ inst = cc in
      let h : some c.op ≡ some op = sym c.decoded ∙ (ap (λ t. decode t.opcode) g ∙ d) in cc

  check_from-IsChecked :
      (rounds : ℕ) {i j : ℕ}
      → check_from registered insts rounds i ≡ accept
      → length insts ≤ i + rounds
      → Starts insts i j
      → j < length insts
      → IsChecked registered insts j
  check_from-IsChecked zero h enough s lt = absurd (omega (arith, Starts-le s))
  check_from-IsChecked (suc rounds) h enough here lt =
      (check_from-suc registered insts rounds _ h lt).0
  check_from-IsChecked (suc rounds) {i} {j} h enough (next inst op e d s) lt =
      let (c, later) = check_from-suc registered insts rounds i h (get_elem?-lt insts i e) in
      let same = same_op c inst op e d in
      check_from-IsChecked rounds (rw (← same) later) (omega (arith, one-le-slots op)) s lt

  pub length-lt_max : validate registered insts ≡ accept → length insts < max_insts
  unfolding validate
  length-lt_max h = ltb→lt _ _ (require-accept _ _ (and_then-accept _ _ h).0)

  pub check_from_all :
      validate registered insts ≡ accept → check_from registered insts (length insts) 0 ≡ accept
  unfolding validate
  check_from_all h = (and_then-accept _ _ h).1

  -- Every instruction that execution in order can reach has been checked.
  pub validate-IsChecked :
      {j : ℕ}
      → validate registered insts ≡ accept
      → Starts insts 0 j
      → j < length insts
      → IsChecked registered insts j
  validate-IsChecked h s lt =
      check_from-IsChecked (length insts) (check_from_all h) (omega arith) s lt
