-- ===== src/Vm/Exec/Sandbox.antt =====
-- Which bytes of memory an iteration of `ubpf_exec` can change.
use bpfabric.Prelude.{
  ℕ, ◌+◌, ◌≤◌, ◌<◌, ◌≡◌, refl, arith, ◌⊎◌, inl, inr, true, Bool-cases, Option, none, some,
}
use bpfabric.Prelude.Words.{u64_mod, sext16, add64}
use bpfabric.Ebpf.{Inst, Op, alu, ldx, st, stx, lddw, call, exit, jump, Size}
use bpfabric.Vm.Outcome.{Run, ok, halt, Halt, Post, Post-bind}
use bpfabric.Vm.Memory.{Regions, stack_size, size_bytes, bounds_check}
use bpfabric.Vm.Memory.Bounds.{IsPlaced, Inside, bounds_check_iff, store_outside}
use bpfabric.Vm.Alu.{exec_alu}
use bpfabric.Vm.Exec.{
  Program, Machine, operand, checked_address, store_at, exec_op, holds, cond_operand, load_wide,
}

-- A byte that belongs to neither the packet nor the stack.
abbrev pub Outside : Regions → ℕ → Type 0
Outside r b = ((b < r.mem) ⊎ (r.mem + r.mem_len ≤ b)) × ((b < r.stack) ⊎ (r.stack + stack_size ≤ b))

-- The address that a store instruction computes.
abbrev pub address : Inst → Machine → ℕ
address i m = add64 (m.regs i.dst) (sext16 i.offset)

-- A store whose bytes do not run past the end of the address space; other instructions but CALL.
abbrev pub NoWrap : Op → Inst → Machine → Type 0
NoWrap (st z) i m = address i m + size_bytes z < u64_mod
NoWrap (stx z) i m = address i m + size_bytes z < u64_mod
NoWrap call i m = ⊥
NoWrap _ i m = Unit

abbrev Always : Halt → Type 0
Always h = Unit

module _ (p : Program) (placed : IsPlaced p.regions) (b : ℕ) (outside : Outside p.regions b) where
  apart : (a n : ℕ) → Inside p.regions a n → (b < a) ⊎ (a + n ≤ b)
  apart a n (inl h) = ground arith
  apart a n (inr h) = ground arith

  checked_address-Post :
      (base : ℕ) (i : Inst) (z : Size)
      → Post
          (λ a.
            (a ≡ add64 base (sext16 i.offset)) × (bounds_check p.regions a (size_bytes z) ≡ true))
          Always
          (checked_address p base i z)
  unfolding checked_address
  checked_address-Post base i z =
      elim (Bool-cases (bounds_check p.regions (add64 base (sext16 i.offset)) (size_bytes z))) [
        | inl e ↦ rw e (refl, e)
        | inr e ↦ rw e tt
      ]

  store_at-outside :
      (i : Inst) (z : Size) (v : ℕ) (m : Machine)
      → address i m + size_bytes z < u64_mod
      → Post (λ m'. m'.memory b ≡ m.memory b) Always (store_at p i z v m)
  unfolding store_at
  store_at-outside i z v m h =
      Post-bind _ (λ m'. m'.memory b ≡ m.memory b) Always (checked_address p (m.regs i.dst) i z) _
        (checked_address-Post (m.regs i.dst) i z)
        λ a c.
          let fits : a + size_bytes z < u64_mod = omega (arith, c.0) in
          store_outside (size_bytes z) m.memory a v b fits (
            apart a (size_bytes z)
              ((bounds_check_iff p.regions a (size_bytes z) placed fits).0 c.1))

  load_wide-outside :
      (i : Inst) (o : Option Inst) (m : Machine)
      → Post (λ m'. m'.memory b ≡ m.memory b) Always (load_wide i o m)
  unfolding load_wide
  load_wide-outside i none m = tt
  load_wide-outside i (some i') m = refl

  always {ℓ} : {A : Type ℓ} (r : Run A) → Post (λ _. Unit {0}) Always r
  always (ok a) = tt
  always (halt h) = tt

  -- With the packet and the stack inside the address space, an instruction other than CALL that, if it
  -- is a store, has an address plus size below 2 ^ 64, leaves every byte outside the packet and the
  -- stack unchanged.
  pub exec_op-outside :
      (op : Op) (i : Inst) (m : Machine)
      → NoWrap op i m
      → Post (λ m'. m'.memory b ≡ m.memory b) Always (exec_op p op i m)
  unfolding exec_op
  exec_op-outside (alu w o s) i m h =
      Post-bind (λ _. Unit {0}) _ Always (exec_alu w o s (m.regs i.dst) (operand s i m)) _
        (always (exec_alu w o s (m.regs i.dst) (operand s i m))) λ v _. refl
  exec_op-outside (ldx z) i m h =
      Post-bind (λ _. Unit {0}) _ Always (checked_address p (m.regs i.src) i z) _
        (always (checked_address p (m.regs i.src) i z)) λ a _. refl
  exec_op-outside (st z) i m h = store_at-outside i z _ m h
  exec_op-outside (stx z) i m h = store_at-outside i z _ m h
  exec_op-outside lddw i m h = load_wide-outside i _ m
  exec_op-outside (jump c s) i m h =
      elim (Bool-cases (holds c (m.regs i.dst) (cond_operand c s i m))) [
        | inl t ↦ rw t refl
        | inr t ↦ rw t refl
      ]
  exec_op-outside call i m h = absurd h
  exec_op-outside exit i m h = tt
  exec_op-outside _ i m h = refl
