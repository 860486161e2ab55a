-- ===== src/Vm.antt =====
-- ubpf/ubpf_vm.c: the eBPF virtual machine.
pub mod Outcome
pub mod Alu
pub mod Memory
pub mod Exec
pub mod Validate
pub mod Safety
pub mod Code
pub mod Jit
mod Tests
