-- ===== src/Vm/Memory.antt =====
-- The memory that an eBPF program reads and writes, and `bounds_check` of ubpf/ubpf_vm.c.
-- Memory is a byte for each 64-bit address; a pointer is an address, and pointer arithmetic wraps
-- as on the machine.
pub mod Bounds
use bpfabric.Prelude.{ℕ, zero, suc, ◌+◌, ◌*◌, ◌/◌, ◌%◌, Bool, not, ◌&&◌, ◌||◌}
use bpfabric.Prelude.{leb, ◌==◌, if◌then◌else◌}
use bpfabric.Prelude.Words.{add64}
use bpfabric.Ebpf.{Size, word, half, byte, double}

abbrev pub Memory : Type 0
Memory = ℕ → ℕ

-- STACK_SIZE
abbrev pub stack_size : ℕ
stack_size = 16384

-- The arguments `mem` and `mem_len` of `ubpf_exec`, and the address of its array `stack`.
pub record Regions : Type 0 where
  pub mem : ℕ
  pub mem_len : ℕ
  pub stack : ℕ

unfoldable pub size_bytes : Size → ℕ
size_bytes word = 4
size_bytes half = 2
size_bytes byte = 1
size_bytes double = 8

unfoldable pub poke : Memory → ℕ → ℕ → Memory
poke m a v b = if a == b then v else m b

-- A little-endian read and write of `n` bytes at `a`.
unfoldable pub load : ℕ → Memory → ℕ → ℕ
load zero m a = 0
load (suc n) m a = m a + 256 * load n m (add64 a 1)

unfoldable pub store : ℕ → Memory → ℕ → ℕ → Memory
unfolding poke
store zero m a v = m
store (suc n) m a v = store n (poke m a (v % 256)) (add64 a 1) (v / 256)

-- `bounds_check(addr, size, ...)`
unfoldable pub bounds_check : Regions → ℕ → ℕ → Bool
unfolding add64
bounds_check r addr size =
    (not (r.mem == 0) && (leb r.mem addr && leb (add64 addr size) (add64 r.mem r.mem_len)))
    || (leb r.stack addr && leb (add64 addr size) (add64 r.stack stack_size))
