-- ===== src/Vm/Jit.antt =====
-- ubpf/ubpf_jit_x86_64.c, `ubpf_compile`: when the code is translated, and which function it returns.
-- What it makes of an array of instructions is a parameter here, and `translation` of Jit/Whole.
pub mod State
pub mod Emit
pub mod Cases
pub mod Translate
pub mod Extends
pub mod Sizes
pub mod AluSizes
pub mod Ops
pub mod Located
pub mod Resolve
pub mod Whole
pub mod Frame
pub mod Compiled
pub mod Encoding
mod Tests
use bpfabric.Prelude.{Option, none, some, List}
use bpfabric.Ebpf.{Inst}
use bpfabric.Maps.Registry.{Call, done, crash}
use bpfabric.Vm.Code.{CodePtr, null, freed, live}

module _ {Fn : Type 0} (translate : List Inst → Call (Option Fn)) where
  -- `ubpf_compile` where no function is in `vm->jitted`: `translate` reads the array `insts`.
  unfoldable pub compile_code : CodePtr → Call (Option Fn)
  compile_code null = done none
  compile_code freed = crash
  compile_code (live insts) = translate insts

  -- `ubpf_compile`; the result is stored in `vm->jitted` too, which stays null where it is null.
  unfoldable pub compile : CodePtr → Option Fn → Call (Option Fn)
  unfolding compile_code
  compile code (some f) = done (some f)
  compile code none = compile_code code
