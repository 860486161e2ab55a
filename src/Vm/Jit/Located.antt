-- ===== src/Vm/Jit/Located.antt =====
-- The loop of `translate` of ubpf/ubpf_jit_x86_64.c on a program that `validate` has accepted, and
-- where the code of each instruction stands.
use bpfabric.Prelude.{
  ℕ, zero, suc, ◌+◌, ◌-◌, ◌*◌, ◌≤◌, ◌<◌, ◌≡◌, ◌⊎◌, refl, ap, ◌∙◌, arith, Bool, inl, inr, none, some,
  List, [], ◌++◌, length, get_elem?, get_elem?-some, get_elem?-lt, ◌∷◌, ◌%◌, leb→le, lt→ltb, ◌==◌,
  if◌then◌else◌, Option-cases,
}
use bpfabric.Ebpf.{Inst, Op, decode}
use bpfabric.Vm.Safety.{FieldsFit}
use bpfabric.Vm.Validate.{accept, validate, check_inst, check_registers, slots}
use bpfabric.Vm.Validate.Sound.{
  Starts, Starts-le, here, next, Starts-next, IsChecked, same_op, validate-IsChecked,
  and_then-accept, require-accept, one-le-slots,
}
use bpfabric.Vm.Jit.State.{Jit, ok, ◌and_next◌, nothing}
use bpfabric.Vm.Jit.Cases.{map_register, register_map, register_map_size}
use bpfabric.Vm.Jit.Translate.{
  Addresses, mark_pc, emit_decoded, emit_inst, translate_at, translate_from,
}
use bpfabric.Vm.Jit.Extends.{
  Extends, HasRoom, KeepsLocs, Emits, Extends-refl, Extends-le, Extends-trans, HasRoom-Extends,
}
use bpfabric.Vm.Jit.AluSizes.{inst_bytes}
use bpfabric.Vm.Jit.Ops.{IsTarget, emit_op-Emits}

-- The state once `pc_locs[i]` has been set.
abbrev marked : ℕ → Jit → Jit
marked i s = record s { pc_locs = λ j. if j == i then length s.code else s.pc_locs j }

marked_here : (i : ℕ) (s : Jit) → (marked i s).pc_locs i ≡ length s.code
marked_here i s = ground arith

marked_other : (i j : ℕ) (s : Jit) → j < i → (marked i s).pc_locs j ≡ s.pc_locs j
marked_other i j s h = ground arith

le_of_none : (insts : List Inst) (i : ℕ) → get_elem? insts i ≡ none → length insts ≤ i
le_of_none [] i e = omega arith
le_of_none (x ∷ xs) zero e = absurd (cc)
le_of_none (x ∷ xs) (suc i) e = omega (arith, le_of_none xs i e)

-- The register map has every register of an accepted instruction.
map_register-ok : (r : ℕ) → r ≤ 10 → (x : ℕ) × (map_register r ≡ ok x)
unfolding map_register
map_register-ok r h =
    let (x, e) = get_elem?-some register_map (r % register_map_size) (omega arith) in
    (x, rw (lt→ltb r register_map_size (omega arith), e))

module _ (at : Addresses) (insts : List Inst) where
  -- The code of instruction `j` stands in the final code at `pc_locs[j]`: it is what the body of the
  -- loop added to the code before it.
  pub record IsLocated (final : Jit) (j : ℕ) : Type 0 where
    pub inst : Inst
    pub fetched : get_elem? insts j ≡ some inst
    pub before_it : Jit
    pub after_it : Jit
    pub emitted : emit_inst at insts j inst before_it ≡ ok after_it
    pub placed : final.pc_locs j ≡ length before_it.code
    pub rest : List ℕ
    pub follows : final.code ≡ after_it.code ++ rest

Starts-inv :
    {insts : List Inst} {i j : ℕ}
    → Starts insts i j
    → (i ≡ j)
      ⊎ ((inst : Inst) × (op : Op) × (get_elem? insts i ≡ some inst)
          × (decode inst.opcode ≡ some op)
          × Starts insts (i + slots op) j)
Starts-inv here = inl refl
Starts-inv (next inst op e d s) = inr (inst, op, e, d, s)

module _ (at : Addresses) (registered : ℕ → Bool) (insts : List Inst)
    (valid : validate registered insts ≡ accept) (fits : FieldsFit insts) where
  registers-le :
      (op : Op) (i : ℕ) (inst : Inst)
      → check_registers registered insts op i inst ≡ accept
      → (inst.src ≤ 10) × (inst.dst ≤ 10)
  unfolding check_registers
  registers-le op i inst h =
      let (a, b) = and_then-accept _ _ h in
      let low = require-accept _ _ a in
      let high = require-accept _ _ b in (leb→le _ _ low, ground arith)

  emit_inst-Emits :
      (i : ℕ) (c : IsChecked registered insts i)
      → i < length insts
      → Emits (IsTarget insts) inst_bytes 1 (emit_inst at insts i c.inst)
  unfolding emit_inst emit_decoded check_inst
  emit_inst-Emits i c lt s r =
      let (checked, regs) = and_then-accept _ _ c.checked in
      let (src_le, dst_le) = registers-le c.op _ c.inst regs in
      let (dst, ed) = map_register-ok c.inst.dst dst_le in
      let (src, es) = map_register-ok c.inst.src src_le in
      let (s', e, x, kept) =
        emit_op-Emits registered insts valid at.ext_funcs c.op i c.inst src dst checked lt
          (fits.offset_fits i c.inst c.fetched) (fits.imm_fits i c.inst c.fetched) s r in
      (s', rw (ed, es, c.decoded) e, x, kept)

  -- What the loop has done from index `i` on.
  pub record IsTranslated (i : ℕ) (s s' : Jit) : Type 0 where
    pub extends : Extends (IsTarget insts) (inst_bytes * (length insts - i)) (length insts - i) s s'
    pub located : (j : ℕ) → Starts insts i j → j < length insts → IsLocated at insts s' j
    pub earlier : (j : ℕ) → j < i → s'.pc_locs j ≡ s.pc_locs j

  ends-IsTranslated : (i : ℕ) (s : Jit) → length insts ≤ i → IsTranslated i s s
  ends-IsTranslated i s h = record {
    extends =
        Extends-le (IsTarget insts) 0 0 _ _ s s (omega arith) (omega arith)
          (Extends-refl (IsTarget insts) s);
    located = λ j st lt. absurd (omega (arith, Starts-le st));
    earlier = λ j lt. refl;
  }

  inst-IsTranslated :
      (i : ℕ) (c : IsChecked registered insts i) (s s2 s3 : Jit)
      → i < length insts
      → emit_inst at insts i c.inst (marked i s) ≡ ok s2
      → Extends (IsTarget insts) inst_bytes 1 (marked i s) s2
      → KeepsLocs (marked i s) s2
      → IsTranslated (i + slots c.op) s2 s3
      → IsTranslated i s s3
  inst-IsTranslated i c s s2 s3 lt e x kept t =
      let P = IsTarget insts in
      let n = length insts - (i + slots c.op) in
      let slot = one-le-slots c.op in
      let both : Extends P (inst_bytes + inst_bytes * n) (1 + n) (marked i s) s3 =
        Extends-trans P inst_bytes 1 (inst_bytes * n) n (marked i s) s2 s3 x t.extends in
      let all =
        Extends-le P _ _ (inst_bytes * (length insts - i)) (length insts - i) (marked i s) s3
          (omega (arith, slot, lt)) (omega (arith, slot, lt)) both in
      record {
        extends = record {
          bytes = all.bytes;
          js = all.js;
          code = all.code;
          jumps = all.jumps;
          size = all.size;
          few_bytes = all.few_bytes;
          few_jumps = all.few_jumps;
          between = all.between;
        };
        located = λ j st below. elim (Starts-inv st) [
          | inl same ↦ rw (← same) (record {
            inst = c.inst;
            fetched = c.fetched;
            before_it = marked i s;
            after_it = s2;
            emitted = e;
            placed = t.earlier i (omega (arith, slot)) ∙ (ap (λ f. f i) kept.0 ∙ marked_here i s);
            rest = t.extends.bytes;
            follows = t.extends.code;
          })
          | inr (inst, op, f, d, later) ↦
              let same = same_op registered insts c inst op f d in t.located j (rw same later) below
        ];
        earlier = λ j below.
            t.earlier j (omega (arith, slot, below))
            ∙ (ap (λ f. f j) kept.0 ∙ marked_other i j s below);
      }

  room_for :
      (i : ℕ) (s : Jit)
      → i < length insts
      → HasRoom (inst_bytes * (length insts - i)) (length insts - i) s
      → HasRoom inst_bytes 1 (marked i s)
  room_for i s lt room = record {
    small = room.small;
    bytes_fit = omega (arith, room.bytes_fit, lt);
    jumps_fit = omega (arith, room.jumps_fit, lt);
  }

  room_after :
      (i : ℕ) (c : IsChecked registered insts i) (s s2 : Jit)
      → i < length insts
      → HasRoom (inst_bytes * (length insts - i)) (length insts - i) s
      → Extends (IsTarget insts) inst_bytes 1 (marked i s) s2
      → HasRoom
          (inst_bytes * (length insts - (i + slots c.op)))
          (length insts - (i + slots c.op))
          s2
  room_after i c s s2 lt room x =
      let slot = one-le-slots c.op in
      let n = length insts - (i + slots c.op) in
      HasRoom-Extends (IsTarget insts) inst_bytes 1 (inst_bytes * n) n (marked i s) s2
        (record {
          small = room.small;
          bytes_fit = omega (arith, room.bytes_fit, lt, slot);
          jumps_fit = omega (arith, room.jumps_fit, lt, slot);
        })
        x

  pub translate_from-IsTranslated :
      (rounds i : ℕ) (s : Jit)
      → Starts insts 0 i
      → length insts ≤ i + rounds
      → HasRoom (inst_bytes * (length insts - i)) (length insts - i) s
      → (s' : Jit) × (translate_from at insts rounds i s ≡ ok s') × IsTranslated i s s'
  unfolding translate_from translate_at nothing ◌and_next◌ mark_pc
  translate_from-IsTranslated zero i s st enough room =
      (s, refl, ends-IsTranslated i s (omega (arith, enough)))
  translate_from-IsTranslated (suc rounds) i s st enough room =
      elim (Option-cases (get_elem? insts i)) [
        | inl e ↦ (s, rw e refl, ends-IsTranslated i s (le_of_none insts i e))
        | inr (inst, f) ↦
            let lt = get_elem?-lt insts i f in
            let c = validate-IsChecked registered insts valid st lt in
            let m = length insts - (i + slots c.op) in
            let slot = one-le-slots c.op in
            let (s2, e2, x2, kept) = emit_inst-Emits i c lt (marked i s) (room_for i s lt room) in
            let (s3, e3, t) =
              translate_from-IsTranslated rounds (i + slots c.op) s2
                (Starts-next c.inst c.op st c.fetched c.decoded) (omega (arith, slot, enough))
                (room_after i c s s2 lt room x2) in
            (s3, rw (c.fetched, e2, c.decoded) e3, inst-IsTranslated i c s s2 s3 lt e2 x2 kept t)
      ]
