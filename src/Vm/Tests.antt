-- ===== src/Vm/Tests.antt =====
-- The properties of the virtual machine at concrete programs.
use bpfabric.Prelude.{ℕ, zero, suc, ◌+◌, ◌%◌, ◌<◌, ◌≡◌, ◌↔◌, refl, arith, inl}
use bpfabric.Prelude.{true, none, some, List, [], ◌∷◌, length, replicate, set}
use bpfabric.Prelude.Words.{u64_mod, add64, sext16}
use bpfabric.Ebpf.{Inst, stx, byte, alu32, div, imm, decode}
use bpfabric.Vm.Outcome.{Post}
use bpfabric.Vm.Alu.{exec_alu}
use bpfabric.Vm.Alu.Bounds.{StopsAlu, DivisorOk, alu_mod, exec_alu-Post}
use bpfabric.Vm.Memory.{Memory, Regions, stack_size, size_bytes}
use bpfabric.Vm.Memory.Bounds.{IsPlaced}
use bpfabric.Vm.Exec.{ExtFunc, Machine, write_reg, start, run, exec_op}
use bpfabric.Vm.Exec.Registers.{FuncsFit}
use bpfabric.Vm.Exec.Sandbox.{NoWrap, exec_op-outside}
use bpfabric.Vm.Validate.{accept, validate, max_insts, max_ext_funcs, unknown_opcode}
use bpfabric.Vm.Validate.Sound.{Starts, here}
use bpfabric.Vm.Validate.Complete.{IsAllowed, validate_iff}
use bpfabric.Vm.Safety.Contained.{OnCode, IsLoaded, IsContained, EndsInExit, run-IsContained}
use bpfabric.Vm.Code
use bpfabric.Vm.Code.{
  Vm, null, live, freed, Name, insts_of, function_at, registered, register, is_named, LoadError,
  invalid, loaded, failed, double_free, program_of, exec, lookup_registered_function,
}
use bpfabric.Prelude.Bytes.{bytes_eq}
use bpfabric.Vm.Code.Load.{
  AreBytes, IsStored, load-IsStored, load-freed, load-run, insts_of-FieldsFit,
}

-- r0 = 7; if r1 == 0 skip one; *(r10 - 1) = r0; exit
abbrev four_insts : List ℕ
four_insts =
    0xb7 ∷ 0 ∷ 0 ∷ 0 ∷ 7 ∷ 0 ∷ 0 ∷ 0 ∷ 0x15 ∷ 1 ∷ 1 ∷ 0 ∷ 0 ∷ 0 ∷ 0 ∷ 0 ∷ 0x73 ∷ 10 ∷ 0xff ∷ 0xff
    ∷ 0 ∷ 0 ∷ 0 ∷ 0 ∷ 0x95 ∷ 0 ∷ 0 ∷ 0 ∷ 0 ∷ 0 ∷ 0 ∷ 0 ∷ []

abbrev empty_vm : Vm
empty_vm = record {
  code = null;
  num_insts = 0;
  ext_funcs = replicate max_ext_funcs none;
  ext_func_names = replicate max_ext_funcs none;
  tables = 0;
}

abbrev four_vm : Vm
four_vm = record empty_vm { code = live (insts_of four_insts); num_insts = 4 }

four-load : Code.load true four_insts empty_vm ≡ loaded four_vm
unfolding Code.load validate
four-load = refl

four-IsStored : IsStored four_insts empty_vm four_vm
four-IsStored = load-IsStored true four_insts empty_vm four_vm four-load

abbrev regions : Regions
regions = record { mem = 0x1000; mem_len = 100; stack = 0x10_0000 }

no_function : (n k : ℕ) (f : ExtFunc) → function_at (replicate n none) k ≡ some f → ⊥
unfolding function_at
no_function zero k f e = absurd (cc)
no_function (suc n) zero f e = absurd (cc)
no_function (suc n) (suc k) f e = no_function n k f e

four-FuncsFit : FuncsFit (program_of four_vm (insts_of four_insts) regions)
four-FuncsFit k f e = absurd (no_function max_ext_funcs k f e)

four-EndsInExit : EndsInExit (insts_of four_insts)
unfolding insts_of decode
four-EndsInExit = record {
  last = record { opcode = 0x95; dst = 0; src = 0; offset = 0; imm = 0 };
  found = refl;
  is_exit = refl;
}

four-AreBytes : AreBytes four_insts
four-AreBytes = ground arith

load-run_example :
    Post
      (λ m.
        OnCode (insts_of four_insts) m
        × (m.pc < length (insts_of four_insts))
        × (m.regs 10 ≡ (0x10_0000 + stack_size) % u64_mod))
      IsContained
      (run
        (program_of four_vm (insts_of four_insts) regions)
        100
        (start (program_of four_vm (insts_of four_insts) regions) (λ r. 0) (λ a. 0)))
load-run_example =
    load-run four_insts empty_vm four_vm regions (λ r. 0) (λ a. 0) 100 four-load four-AreBytes
      four-FuncsFit four-EndsInExit (omega arith) (λ r. omega arith) (λ a. omega arith)

no_registered : (n k : ℕ) → registered (replicate n none) k ≡ true → ⊥
unfolding registered
no_registered zero k e = absurd (cc)
no_registered (suc n) zero e = absurd (cc)
no_registered (suc n) (suc k) e = no_registered n k e

four-IsLoaded :
    IsLoaded (registered empty_vm.ext_funcs) (program_of four_vm (insts_of four_insts) regions)
four-IsLoaded = record {
  accepted = four-IsStored.accepted;
  fields = insts_of-FieldsFit four_insts four-AreBytes;
  known = λ k e. absurd (no_registered max_ext_funcs k e);
  funcs = four-FuncsFit;
}

-- The entry of the program.
abbrev entry : Machine
entry = start (program_of four_vm (insts_of four_insts) regions) (λ r. 0) (λ a. 0)

entry-OnCode : OnCode (insts_of four_insts) entry
unfolding start insts_of write_reg add64
entry-OnCode = record {
  starts = here;
  within = omega arith;
  fits = record { regs_fit = λ r. ground arith; bytes_fit = λ a. omega arith };
}

run-IsContained_example :
    Post
      (λ m.
        OnCode (insts_of four_insts) m
        × (m.regs 10 ≡ entry.regs 10)
        × (m.pc < length (insts_of four_insts)))
      IsContained
      (run (program_of four_vm (insts_of four_insts) regions) 3 entry)
unfolding start insts_of
run-IsContained_example =
    run-IsContained (registered empty_vm.ext_funcs)
      (program_of four_vm (insts_of four_insts) regions) four-IsLoaded 3 entry four-EndsInExit
      entry-OnCode (omega arith)

validate_iff_example : (validate (registered empty_vm.ext_funcs) (insts_of four_insts) ≡ accept) ↔ (
    (length (insts_of four_insts) < max_insts)
    × ((j : ℕ)
        → Starts (insts_of four_insts) 0 j
        → j < length (insts_of four_insts)
        → IsAllowed (registered empty_vm.ext_funcs) (insts_of four_insts) j))
validate_iff_example = validate_iff (registered empty_vm.ext_funcs) (insts_of four_insts)

seven-DivisorOk : DivisorOk div imm 7
seven-DivisorOk = omega arith

exec_alu-Post_example :
    Post (λ r. r < alu_mod alu32) (StopsAlu alu32 div imm) (exec_alu alu32 div imm 100 7)
exec_alu-Post_example =
    exec_alu-Post alu32 div imm 100 7 (omega arith) (omega arith) seven-DivisorOk

-- *(r10 - 1) = r0
abbrev push : Inst
push = record { opcode = 0x73; dst = 10; src = 0; offset = 0xffff; imm = 0 }

push-NoWrap : NoWrap (stx byte) push entry
unfolding start write_reg add64 sext16 size_bytes
push-NoWrap = omega arith

regions-IsPlaced : IsPlaced regions
regions-IsPlaced = record { mem_fits = omega arith; stack_fits = omega arith }

exec_op-outside_example :
    Post
      (λ m. m.memory 5 ≡ entry.memory 5)
      (λ h. Unit)
      (exec_op (program_of four_vm (insts_of four_insts) regions) (stx byte) push entry)
exec_op-outside_example =
    exec_op-outside (program_of four_vm (insts_of four_insts) regions) regions-IsPlaced 5
      (inl (omega arith), inl (omega arith)) (stx byte) push entry push-NoWrap

abbrev answer : ExtFunc
answer a b c d e mem = (42, mem)

abbrev named_vm : Vm
named_vm = record empty_vm {
  ext_funcs = set empty_vm.ext_funcs 5 (some answer);
  ext_func_names = set empty_vm.ext_func_names 5 (some (102 ∷ 111 ∷ []));
}

named-register : register empty_vm 5 (102 ∷ 111 ∷ []) answer ≡ some named_vm
unfolding register
named-register = refl

named-lookup : lookup_registered_function named_vm (102 ∷ 111 ∷ []) ≡ some 5
unfolding lookup_registered_function bytes_eq
named-lookup = refl

-- A program with an instruction that does not exist, loaded over the first one.
abbrev bad_insts : List ℕ
bad_insts = 0xff ∷ 0 ∷ 0 ∷ 0 ∷ 0 ∷ 0 ∷ 0 ∷ 0 ∷ []

bad-load :
    Code.load true bad_insts four_vm
    ≡ failed (invalid (unknown_opcode 0)) (record four_vm { code = freed })
unfolding Code.load validate
bad-load = refl

load-freed_example :
    (freed ≡ freed)
    × (Code.load true four_insts (record four_vm { code = freed }) ≡ double_free)
    × ((fuel : ℕ) (r : Regions) (g : ℕ → ℕ) (m : Memory)
        → exec fuel (record four_vm { code = freed }) r g m ≡ none)
load-freed_example =
    load-freed true true bad_insts four_insts four_vm (record four_vm { code = freed })
      (insts_of four_insts) (invalid (unknown_opcode 0)) refl bad-load (λ e. cc)
