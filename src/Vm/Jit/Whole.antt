-- ===== src/Vm/Jit/Whole.antt =====
-- ubpf/ubpf_jit_x86_64.c: what `ubpf_compile` does with an array of instructions: the state it sets up,
-- `translate`, `resolve_jumps`, and the copy of the code into executable memory.
use bpfabric.Prelude.{ℕ, Bool, Option, none, some, List, [], if◌then◌else◌}
use bpfabric.Ebpf.{Inst}
use bpfabric.Maps.Registry.{Call, done, crash}
use bpfabric.Vm.Jit.State.{Jit, Result, ok, stop, ◌>>=◌, aborted, wild, unknown_instruction}
use bpfabric.Vm.Jit.Translate.{Addresses, translate, resolve_jumps}

-- `state.size`
abbrev pub buffer_size : ℕ
buffer_size = 65536

-- The state before the translation, where the allocations succeed
abbrev pub fresh : Jit
fresh = record {
  code = [];
  size = buffer_size;
  pc_locs = λ i. 0;
  exit_loc = 0;
  div_by_zero_loc = 0;
  jumps = [];
}

-- The result of `ubpf_compile` from that of the translation; `room` says whether `mmap` and
-- `mprotect` succeed.
unfoldable pub mapped : Bool → Result (List ℕ) → Call (Option (List ℕ))
mapped room (ok code) = done (if room then some code else none)
mapped room (stop aborted) = crash
mapped room (stop wild) = crash
mapped room (stop (unknown_instruction i opcode)) = done none

module _ (at : Addresses) where
  unfoldable pub translate_all : List Inst → Result (List ℕ)
  unfolding translate resolve_jumps
  translate_all insts = translate at insts fresh >>= resolve_jumps

  unfoldable pub translation : Bool → List Inst → Call (Option (List ℕ))
  unfolding mapped translate_all
  translation room insts = mapped room (translate_all insts)
