-- ===== src/Vm/Code.antt =====
-- `struct ubpf_vm` of ubpf/ubpf_int.h, with `ubpf_create`, `ubpf_register`,
-- `ubpf_lookup_registered_function`, `ubpf_load` and the entry of `ubpf_exec` of ubpf/ubpf_vm.c.
pub mod Names
pub mod Load
use bpfabric.Prelude.{ℕ, zero, suc, ◌+◌, ◌*◌, ◌/◌, ◌%◌, ◌-◌, Bool, true, false, Option, none, some}
use bpfabric.Prelude.{
  List, [], ◌∷◌, length, get_elem?, set, replicate, flat, leb, ◌==◌, if◌then◌else◌,
}
use bpfabric.Prelude.Words.{u16_mod, u64_mod}
use bpfabric.Prelude.Bytes.{bytes_eq}
use bpfabric.Ebpf.{Inst}
use bpfabric.Vm.Outcome.{Run, ok, halt}
use bpfabric.Vm.Memory.{Memory, Regions}
use bpfabric.Vm.Exec.{ExtFunc, Program, Machine, run, start, result}
use bpfabric.Vm.Validate.{Message, Verdict, accept, reject, validate, max_ext_funcs}

-- A C string without its terminator.
abbrev pub Name : Type 0
Name = List ℕ

-- The pointer `insts`: null, to an array, or to an array that has been freed.
pub data CodePtr : Type 0 where
  null freed : CodePtr
  live : List Inst → CodePtr

-- `jitted` and `jitted_size` belong to the compiler and are left out.
pub record Vm : Type 0 where
  pub code : CodePtr
  pub num_insts : ℕ
  pub ext_funcs : List (Option ExtFunc)
  pub ext_func_names : List (Option Name)
  pub tables : ℕ

-- `ubpf_create` where the allocations succeed; `tables` is the number of the new table map.
unfoldable pub create : ℕ → Vm
create tables = record {
  code = null;
  num_insts = 0;
  ext_funcs = replicate max_ext_funcs none;
  ext_func_names = replicate max_ext_funcs none;
  tables = tables;
}

-- `ubpf_register`; `none` is the result -1.
unfoldable pub register : Vm → ℕ → Name → ExtFunc → Option Vm
register vm idx name fn =
    if leb max_ext_funcs idx
    then none
    else some (record vm {
      ext_funcs = set vm.ext_funcs idx (some fn);
      ext_func_names = set vm.ext_func_names idx (some name);
    })

-- `other && !strcmp(other, name)`
unfoldable pub is_named : Name → Option Name → Bool
is_named name none = false
is_named name (some other) = bytes_eq other name

-- The loop of `ubpf_lookup_registered_function` from index `i`; `none` is the result -1.
unfoldable pub find_name : Name → ℕ → List (Option Name) → Option ℕ
unfolding is_named
find_name name i [] = none
find_name name i (o ∷ names) = if is_named name o then some i else find_name name (i + 1) names

unfoldable pub lookup_registered_function : Vm → Name → Option ℕ
unfolding find_name
lookup_registered_function vm name = find_name name 0 vm.ext_func_names

-- A byte buffer read as an array of `struct ebpf_inst`, little-endian.
unfoldable pub insts_of : List ℕ → List Inst
insts_of (b0 ∷ b1 ∷ b2 ∷ b3 ∷ b4 ∷ b5 ∷ b6 ∷ b7 ∷ rest) =
    record {
      opcode = b0;
      dst = b1 % 16;
      src = b1 / 16;
      offset = b2 + 0x100 * b3;
      imm = b4 + 0x100 * b5 + 0x1_0000 * b6 + 0x100_0000 * b7;
    }
    ∷ insts_of rest
insts_of _ = []

-- `vm->ext_funcs[idx]`, null outside the array
unfoldable pub function_at : List (Option ExtFunc) → ℕ → Option ExtFunc
function_at fs idx = flat (get_elem? fs idx)

abbrev pub is_some {ℓ} : {A : Type ℓ} → Option A → Bool
is_some none = false
is_some (some a) = true

unfoldable pub registered : List (Option ExtFunc) → ℕ → Bool
unfolding function_at
registered fs idx = is_some (function_at fs idx)

pub data LoadError : Type 0 where
  bad_code_len out_of_memory : LoadError
  invalid : Message → LoadError

-- A load succeeds, returns -1 with a message, or frees an array for the second time.
pub data LoadResult : Type 0 where
  loaded : Vm → LoadResult
  failed : LoadError → Vm → LoadResult
  double_free : LoadResult

-- `ubpf_load` from the result of `validate`; `room` says whether `malloc` succeeds.
unfoldable pub install : Bool → List ℕ → Vm → Verdict → LoadResult
unfolding insts_of
install room code vm (reject e) = failed (invalid e) vm
install false code vm accept = failed out_of_memory (record vm { code = null })
install true code vm accept =
    loaded (record vm { code = live (insts_of code); num_insts = length code / 8 % u16_mod })

-- `ubpf_load` once the old array has been freed.
unfoldable pub load_code : Bool → List ℕ → Vm → LoadResult
unfolding install registered
load_code room code vm =
    if length code % 8 == 0
    then install room code vm (validate (registered vm.ext_funcs) (insts_of code))
    else failed bad_code_len vm

-- `ubpf_load`: `if (vm->insts) { free(vm->insts); }`, then the checks.
unfoldable pub load_from : Bool → List ℕ → Vm → CodePtr → LoadResult
unfolding load_code
load_from room code vm null = load_code room code vm
load_from room code vm (live insts) = load_code room code (record vm { code = freed })
load_from room code vm freed = double_free

unfoldable pub load : Bool → List ℕ → Vm → LoadResult
unfolding load_from
load room code vm = load_from room code vm vm.code

-- The program that a loaded machine runs over the given memory regions.
abbrev pub program_of : Vm → List Inst → Regions → Program
program_of vm insts regions = record {
  insts = insts;
  ext_funcs = function_at vm.ext_funcs;
  regions = regions;
}

-- `ubpf_exec` for at most `fuel` iterations: `none` where it has not returned or has no defined
-- behaviour, as when `insts` points to a freed array.
unfoldable pub exec_code : ℕ → Vm → Regions → (ℕ → ℕ) → Memory → CodePtr → Option ℕ
unfolding run start result
exec_code fuel vm regions garbage memory null = some (u64_mod - 1)
exec_code fuel vm regions garbage memory freed = none
exec_code fuel vm regions garbage memory (live insts) =
    let p = program_of vm insts regions in
    elim (run p fuel (start p garbage memory)) [ ok m ↦ none | halt h ↦ result h ]

unfoldable pub exec : ℕ → Vm → Regions → (ℕ → ℕ) → Memory → Option ℕ
unfolding exec_code
exec fuel vm regions garbage memory = exec_code fuel vm regions garbage memory vm.code
