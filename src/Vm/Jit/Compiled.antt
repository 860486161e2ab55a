-- ===== src/Vm/Jit/Compiled.antt =====
-- What `ubpf_compile` of ubpf/ubpf_jit_x86_64.c makes of a program that `validate` has accepted.
use mathlib.Core.List.{append_assoc}
use bpfabric.Prelude.{
  ℕ, ◌+◌, ◌*◌, ◌≤◌, ◌<◌, ◌≡◌, refl, ap, ◌∙◌, arith, inl, inr, Bool, some, none, if◌then◌else◌, List,
  ◌++◌, length,
}
use bpfabric.Ebpf.{Inst}
use bpfabric.Maps.Registry.{done}
use bpfabric.Vm.Safety.{FieldsFit}
use bpfabric.Vm.Validate.{accept, validate, max_insts}
use bpfabric.Vm.Validate.Sound.{Starts, here, length-lt_max}
use bpfabric.Vm.Jit.State.{Jit, ok, ◌and_next◌}
use bpfabric.Vm.Jit.Cases.{target_pc_exit}
use bpfabric.Vm.Jit.Translate.{
  Addresses, prologue, epilogue, div_by_zero_handler, translate_from, translate, target_loc,
  resolve_jumps,
}
use bpfabric.Vm.Jit.Extends.{
  Between, Extends, HasRoom, Extends-le, Extends-trans, HasRoom-Extends, HasRoom-le, and_next-ok,
  length-Extends, Extends-jumps,
}
use bpfabric.Vm.Jit.AluSizes.{inst_bytes}
use bpfabric.Vm.Jit.Ops.{IsTarget}
use bpfabric.Vm.Jit.Located.{IsLocated, translate_from-IsTranslated}
use bpfabric.Vm.Jit.Resolve.{IsResolved, resolve-IsResolved}
use bpfabric.Vm.Jit.Whole.{fresh, buffer_size, mapped, translate_all, translation}
use bpfabric.Vm.Jit.Frame.{prologue-Emits, epilogue_lem, div_by_zero_handler_lem}

-- The most bytes that the code before and behind the instructions takes
abbrev pub frame_bytes : ℕ
frame_bytes = 94

module _ (at : Addresses) (insts : List Inst) where
  -- The epilogue's code stands in the final code at `exit_loc`.
  pub record HasExit (final : Jit) : Type 0 where
    pub before_it : Jit
    pub after_it : Jit
    pub emitted : epilogue before_it ≡ ok after_it
    pub placed : final.exit_loc ≡ length before_it.code
    pub rest : List ℕ
    pub follows : final.code ≡ after_it.code ++ rest

  -- The state that the translation ends in.
  pub record IsWhole (final : Jit) : Type 0 where
    pub translated : translate at insts fresh ≡ ok final
    pub size_le : length final.code ≤ inst_bytes * length insts + frame_bytes
    pub located : (j : ℕ) → Starts insts 0 j → j < length insts → IsLocated at insts final j
    pub exit : HasExit final
    pub targets : Between (IsTarget insts) 0 (length final.code) final.jumps

  IsLocated-later :
      (s s' : Jit) (j : ℕ) (bytes : List ℕ)
      → s'.code ≡ s.code ++ bytes
      → s'.pc_locs j ≡ s.pc_locs j
      → IsLocated at insts s j
      → IsLocated at insts s' j
  IsLocated-later s s' j bytes code loc l = record {
    inst = l.inst;
    fetched = l.fetched;
    before_it = l.before_it;
    after_it = l.after_it;
    emitted = l.emitted;
    placed = loc ∙ l.placed;
    rest = l.rest ++ bytes;
    follows = code ∙ (ap (λ c. c ++ bytes) l.follows ∙ append_assoc l.after_it.code l.rest bytes);
  }

  fresh_room :
      inst_bytes * length insts + frame_bytes ≤ buffer_size
      → HasRoom (23 + (inst_bytes * length insts + 71)) (0 + (length insts + 1)) fresh
  fresh_room small = record {
    small = omega arith;
    bytes_fit = omega (arith, small);
    jumps_fit = omega (arith, small);
  }

  translate-ok :
      (s1 s2 s3 s4 : Jit)
      → prologue fresh ≡ ok s1
      → translate_from at insts (length insts) 0 s1 ≡ ok s2
      → epilogue s2 ≡ ok s3
      → div_by_zero_handler at s3 ≡ ok s4
      → translate at insts fresh ≡ ok s4
  unfolding translate
  translate-ok s1 s2 s3 s4 e1 e2 e3 e4 =
      let loop = translate_from at insts (length insts) 0 in
      let last = epilogue and_next div_by_zero_handler at in
      and_next-ok prologue (loop and_next last) fresh s1 e1
      ∙ (and_next-ok loop last s1 s2 e2
          ∙ (and_next-ok epilogue (div_by_zero_handler at) s2 s3 e3 ∙ e4))

  -- The four parts put together.
  parts-IsWhole :
      (s1 s2 s3 s4 : Jit)
      → prologue fresh ≡ ok s1
      → Extends (IsTarget insts) 23 0 fresh s1
      → translate_from at insts (length insts) 0 s1 ≡ ok s2
      → Extends (IsTarget insts) (inst_bytes * length insts) (length insts) s1 s2
      → ((j : ℕ) → Starts insts 0 j → j < length insts → IsLocated at insts s2 j)
      → epilogue s2 ≡ ok s3
      → Extends (IsTarget insts) 21 0 s2 s3
      → s3.pc_locs ≡ s2.pc_locs
      → s3.exit_loc ≡ length s2.code
      → div_by_zero_handler at s3 ≡ ok s4
      → Extends (IsTarget insts) 50 1 s3 s4
      → s4.pc_locs ≡ s3.pc_locs
      → s4.exit_loc ≡ s3.exit_loc
      → IsWhole s4
  parts-IsWhole s1 s2 s3 s4 e1 x1 e2 x2 located e3 x3 locs3 exit3 e4 x4 locs4 exit4 =
      let P = IsTarget insts in
      let n = length insts in
      let x34 = Extends-trans P 21 0 50 1 s2 s3 s4 x3 x4 in
      let x24 = Extends-trans P (inst_bytes * n) n 71 1 s1 s2 s4 x2 x34 in
      let whole = Extends-trans P 23 0 (inst_bytes * n + 71) (n + 1) fresh s1 s4 x1 x24 in
      record {
        translated = translate-ok s1 s2 s3 s4 e1 e2 e3 e4;
        size_le = omega (arith, length-Extends P _ _ fresh s4 whole);
        located = λ j st lt.
            IsLocated-later s2 s4 j x34.bytes x34.code (ap (λ f. f j) (locs4 ∙ locs3))
              (located j st lt);
        exit = record {
          before_it = s2;
          after_it = s3;
          emitted = e3;
          placed = exit4 ∙ exit3;
          rest = x4.bytes;
          follows = x4.code;
        };
        targets = Extends-jumps P _ _ fresh s4 refl whole;
      }

  translate-IsWhole :
      (registered : ℕ → Bool)
      → validate registered insts ≡ accept
      → FieldsFit insts
      → inst_bytes * length insts + frame_bytes ≤ buffer_size
      → (final : Jit) × IsWhole final
  translate-IsWhole registered valid fits small =
      let P = IsTarget insts in
      let n = length insts in
      let all = inst_bytes * n in
      let room = fresh_room small in
      let (s1, e1, x1, kept1) =
        prologue-Emits insts fresh (
          HasRoom-le 23 0 (23 + (all + 71)) (0 + (n + 1)) fresh (omega arith) (omega arith) room) in
      let room1 = HasRoom-Extends P 23 0 (all + 71) (n + 1) fresh s1 room x1 in
      let (s2, e2, t) =
        translate_from-IsTranslated at registered insts valid fits n 0 s1 here (omega arith)
          (HasRoom-le _ _ (all + 71) (n + 1) s1 (omega arith) (omega arith) room1) in
      let x2 : Extends P all n s1 s2 =
        Extends-le P _ _ all n s1 s2 (omega arith) (omega arith) t.extends in
      let room2 = HasRoom-Extends P all n 71 1 s1 s2 room1 x2 in
      let (s3, e3, x3, locs3, exit3) =
        epilogue_lem insts s2 (HasRoom-le 21 0 71 1 s2 (omega arith) (omega arith) room2) in
      let room3 = HasRoom-Extends P 21 0 50 1 s2 s3 room2 x3 in
      let (s4, e4, x4, locs4, exit4) = div_by_zero_handler_lem insts at s3 room3 in
      (s4, parts-IsWhole s1 s2 s3 s4 e1 x1 e2 x2 t.located e3 x3 locs3 exit3 e4 x4 locs4 exit4)

target_loc-exit : (s : Jit) → target_loc s target_pc_exit ≡ ok s.exit_loc
unfolding target_loc
target_loc-exit s = refl

-- A program's index is no special value, and its location is read inside `pc_locs`.
target_loc-pc : (s : Jit) (t : ℕ) → t < max_insts → target_loc s t ≡ ok (s.pc_locs t)
unfolding target_loc
target_loc-pc s t h = ground arith

known_target :
    {insts : List Inst} (s : Jit) (t : ℕ)
    → (t < length insts → target_loc s t ≡ ok (s.pc_locs t))
    → IsTarget insts t
    → (loc : ℕ) × (target_loc s t ≡ ok loc)
known_target s t pc (inl e) = (s.exit_loc, rw e (target_loc-exit s))
known_target s t pc (inr (st, lt)) = (s.pc_locs t, pc lt)

module _ (at : Addresses) (insts : List Inst) where
  -- What is known of the code: where each part stands, and where its jumps lead.
  pub record IsCompiled (code : List ℕ) : Type 0 where
    pub final : Jit
    pub whole : IsWhole at insts final
    pub resolved : IsResolved final final.jumps final.code code
    pub exit_target : target_loc final target_pc_exit ≡ ok final.exit_loc
    pub pc_target : (t : ℕ) → t < length insts → target_loc final t ≡ ok (final.pc_locs t)

  -- A program that `validate` accepts, of at most 2111 slots whose fields are in range, is translated
  -- without a failing assertion, an access outside an array or an unknown instruction. Its code takes
  -- at most 31 bytes for each slot and 94 bytes more. The code of each instruction stands at its
  -- location, that of the epilogue at the exit location. The fields of the jumps stand apart in the
  -- code, every jump's target is the exit or the index of an instruction, and the offset in its field
  -- leads to the location of this target. The other bytes are those that were emitted. `ubpf_compile`
  -- returns this code unless `mmap` or `mprotect` fails, when it returns null.
  pub translation-IsCompiled :
      (registered : ℕ → Bool) (room : Bool)
      → validate registered insts ≡ accept
      → FieldsFit insts
      → length insts ≤ 2111
      → (code : List ℕ) × (translation at room insts ≡ done (if room then some code else none))
        × (length code ≤ inst_bytes * length insts + frame_bytes)
        × IsCompiled code
  unfolding translation mapped translate_all resolve_jumps
  translation-IsCompiled registered room valid fits small =
      let (final, whole) =
        translate-IsWhole at insts registered valid fits (omega (arith, small)) in
      let count = length-lt_max registered insts valid in
      let pc =
        λ (t : ℕ) (lt : t < length insts). target_loc-pc final t (omega (arith, count, lt)) in
      let known = λ (t : ℕ) (h : IsTarget insts t). known_target final t (λ lt. pc t lt) h in
      let (code, e, r) =
        resolve-IsResolved (IsTarget insts) final known 0 (length final.code) final.jumps final.code
          whole.targets (omega arith) in
      (
        code,
        rw (whole.translated, e) refl,
        omega (arith, r.same_length, whole.size_le),
        record {
          final = final;
          whole = whole;
          resolved = r;
          exit_target = target_loc-exit final;
          pc_target = pc;
        },
      )
