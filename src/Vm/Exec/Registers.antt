-- ===== src/Vm/Exec/Registers.antt =====
-- What one iteration of `ubpf_exec` may do to the registers and the bytes of memory, and how a
-- checked instruction can stop.
use bpfabric.Prelude.{ℕ, ◌+◌, ◌-◌, ◌%◌, ◌≤◌, ◌<◌, ◌≡◌, ◌≢◌, refl, arith}
use bpfabric.Prelude.{
  Bool, true, false, Option, none, some, get_elem?, length, inl, inr, Bool-cases,
}
use bpfabric.Prelude.{get_elem?-some}
use bpfabric.Prelude.Words.{u16_mod, u32_mod, u64_mod, sext16, add64, sext32, sext32-lt}
use bpfabric.Ebpf.{
  Inst, Operand, imm, reg, Width, alu32, alu64, BinOp, div, modulo, Op, alu, neg, to_le, to_be, ldx,
  st, stx, lddw, ja, call, exit, jump, Size, word, half, byte, double,
}
use bpfabric.Vm.Outcome.{Halt, returned, error, out_of_bounds, Post, Post-bind}
use bpfabric.Vm.Alu.{u32, exec_alu, exec_neg, exec_le, exec_be, swap_bytes}
use bpfabric.Vm.Alu.Bounds.{StopsAlu, DivisorOk, exec_alu-Post, alu_mod}
use bpfabric.Vm.Memory.{Memory, size_bytes, load, bounds_check}
use bpfabric.Vm.Memory.Bounds.{load-lt, store-byte}
use bpfabric.Vm.Validate.{accept, slots, is_store, check_inst, check_op, check_registers}
use bpfabric.Vm.Validate.Sound.{and_then-accept, require-accept}
use bpfabric.Vm.Exec.{
  ExtFunc, Program, Machine, write_reg, set_reg, operand, checked_address, store_at, call_function,
  load_wide, exec_op, holds, cond_operand,
}

-- Registers hold 64-bit words, and memory holds bytes.
pub record IsWord (m : Machine) : Type 0 where
  pub regs_fit : (r : ℕ) → m.regs r < u64_mod
  pub bytes_fit : (a : ℕ) → m.memory a < 256

-- The frame pointer stays, and the machine is well formed.
abbrev pub Keeps : Machine → Machine → Type 0
Keeps m m' = IsWord m' × (m'.regs 10 ≡ m.regs 10)

-- The registered functions return a word and leave bytes in memory.
abbrev pub FuncsFit : Program → Type 0
FuncsFit p =
    (k : ℕ) (f : ExtFunc)
    → p.ext_funcs k ≡ some f
    → (a b c d e : ℕ) (mem : Memory) → ((x : ℕ) → mem x < 256)
    → ((f a b c d e mem).0 < u64_mod) × ((x : ℕ) → (f a b c d e mem).1 x < 256)

-- Every function that `validate` saw registered is there when the program runs.
abbrev pub Registered : (ℕ → Bool) → Program → Type 0
Registered registered p = (k : ℕ) → registered k ≡ true → (f : ExtFunc) × (p.ext_funcs k ≡ some f)

-- The ways in which a checked instruction can stop the loop.
abbrev pub Stops : Op → Halt → Type 0
Stops (alu w o s) h = StopsAlu w o s h
Stops (ldx z) h = h ≡ error out_of_bounds
Stops (st z) h = h ≡ error out_of_bounds
Stops (stx z) h = h ≡ error out_of_bounds
Stops exit (returned v) = Unit
Stops _ h = ⊥

write_reg-lt :
    (regs : ℕ → ℕ) (d v r : ℕ)
    → ((x : ℕ) → regs x < u64_mod)
    → v < u64_mod
    → write_reg regs d v r < u64_mod
unfolding write_reg
write_reg-lt regs d v r h k = ground (arith, h r)

write_reg-ne : (regs : ℕ → ℕ) (d v r : ℕ) → d ≢ r → write_reg regs d v r ≡ regs r
unfolding write_reg
write_reg-ne regs d v r h = ground arith

set_reg-Keeps : (m : Machine) (d v : ℕ) → IsWord m → d ≤ 9 → v < u64_mod → Keeps m (set_reg m d v)
set_reg-Keeps m d v w h k = (
  record { regs_fit = λ r. write_reg-lt m.regs d v r w.regs_fit k; bytes_fit = w.bytes_fit },
  write_reg-ne m.regs d v 10 (omega arith),
)

operand-lt :
    (s : Operand) (i : Inst) (m : Machine) → IsWord m → i.imm < u32_mod → operand s i m < u64_mod
unfolding operand
operand-lt imm i m w h = sext32-lt i.imm h
operand-lt reg i m w h = w.regs_fit i.src

exec_neg-lt : (w : Width) (d : ℕ) → exec_neg w d < u64_mod
unfolding exec_neg
exec_neg-lt alu32 d = omega arith
exec_neg-lt alu64 d = omega arith

exec_le-lt : (k d : ℕ) → d < u64_mod → exec_le k d < u64_mod
unfolding exec_le
exec_le-lt k d h = ground arith

swap_two-lt : (x : ℕ) → swap_bytes 2 x 0 < u64_mod
unfolding swap_bytes
swap_two-lt x = omega arith

swap_four-lt : (x : ℕ) → swap_bytes 4 x 0 < u64_mod
unfolding swap_bytes
swap_four-lt x = omega arith

swap_eight-lt : (x : ℕ) → swap_bytes 8 x 0 < u64_mod
unfolding swap_bytes
swap_eight-lt x = omega arith

exec_be-lt : (k d : ℕ) → d < u64_mod → exec_be k d < u64_mod
unfolding exec_be
exec_be-lt k d h = ground (arith, swap_two-lt (d % u16_mod), swap_four-lt (u32 d), swap_eight-lt d)

load_size-lt :
    (z : Size) (m : Memory) (a : ℕ) → ((b : ℕ) → m b < 256) → load (size_bytes z) m a < u64_mod
unfolding size_bytes
load_size-lt word m a h = omega (arith, load-lt 4 m a h)
load_size-lt half m a h = omega (arith, load-lt 2 m a h)
load_size-lt byte m a h = omega (arith, load-lt 1 m a h)
load_size-lt double m a h = omega (arith, load-lt 8 m a h)

DivisorOk-reg : (o : BinOp) (v : ℕ) → DivisorOk o reg v
DivisorOk-reg div v = tt
DivisorOk-reg _ v = tt

lddw-Post :
    (i : Inst) (o : Option Inst) (m : Machine)
    → IsWord m
    → i.dst ≤ 9
    → i.imm < u32_mod
    → ((i' : Inst) → o ≡ some i' → i'.imm < u32_mod)
    → (i' : Inst) × (o ≡ some i')
    → Post (Keeps m) (λ _. ⊥) (load_wide i o m)
unfolding load_wide
lddw-Post i none m fits small hi imms (i', e) = cc
lddw-Post i (some i') m fits small hi imms _ = (
  record {
    regs_fit = λ r. write_reg-lt m.regs i.dst _ r fits.regs_fit (omega (arith, imms i' refl));
    bytes_fit = fits.bytes_fit;
  },
  write_reg-ne m.regs i.dst _ 10 (omega arith),
)

module _ (registered : ℕ → Bool) (p : Program) where
  checked_address-Post :
      (base : ℕ) (i : Inst) (z : Size)
      → Post (λ _. Unit {0}) (λ h. h ≡ error out_of_bounds) (checked_address p base i z)
  unfolding checked_address
  checked_address-Post base i z =
      elim (Bool-cases (bounds_check p.regions (add64 base (sext16 i.offset)) (size_bytes z))) [
        | inl e ↦ rw e tt
        | inr e ↦ rw e refl
      ]

  store_at-Post :
      (i : Inst) (z : Size) (v : ℕ) (m : Machine)
      → IsWord m
      → Post (Keeps m) (λ h. h ≡ error out_of_bounds) (store_at p i z v m)
  unfolding store_at
  store_at-Post i z v m w =
      Post-bind (λ _. Unit {0}) (Keeps m) _ (checked_address p (m.regs i.dst) i z) _
        (checked_address-Post (m.regs i.dst) i z)
        λ a _. (
          record {
            regs_fit = w.regs_fit;
            bytes_fit = store-byte (size_bytes z) m.memory a v w.bytes_fit;
          },
          refl,
        )

  DivisorOk-checked :
      (w : Width) (o : BinOp) (s : Operand) (k : ℕ) (i : Inst) (m : Machine)
      → i.imm < u32_mod
      → check_op registered p.insts (alu w o s) k i ≡ accept
      → DivisorOk o s (operand s i m)
  unfolding check_op operand sext32
  DivisorOk-checked w div imm k i m h c = let b = require-accept _ _ c in ground arith
  DivisorOk-checked w modulo imm k i m h c = let b = require-accept _ _ c in ground arith
  DivisorOk-checked w o reg k i m h c = DivisorOk-reg o (m.regs i.src)
  DivisorOk-checked w o imm k i m h c = tt

  op_checked :
      (op : Op) (k : ℕ) (i : Inst)
      → check_inst registered p.insts op k i ≡ accept
      → check_op registered p.insts op k i ≡ accept
  unfolding check_inst
  op_checked op k i c =
      (and_then-accept (check_op registered p.insts op k i)
        (check_registers registered p.insts op (k + (slots op - 1)) i) c).0

  dst_small :
      (op : Op) (k : ℕ) (i : Inst)
      → is_store op ≡ false
      → check_inst registered p.insts op k i ≡ accept
      → i.dst ≤ 9
  unfolding check_inst check_registers
  dst_small op k i e c =
      let regs =
        (and_then-accept (check_op registered p.insts op k i)
          (check_registers registered p.insts op (k + (slots op - 1)) i) c).1 in
      ground arith

  call-Post :
      (m : Machine) (o : Option ExtFunc)
      → IsWord m
      → (f : ExtFunc) × (o ≡ some f)
      → ((f : ExtFunc)
          → o ≡ some f
          → (a b c d e : ℕ) (mem : Memory) → ((x : ℕ) → mem x < 256)
          → ((f a b c d e mem).0 < u64_mod) × ((x : ℕ) → (f a b c d e mem).1 x < 256))
      → Post (Keeps m) (λ _. ⊥) (call_function p o m)
  unfolding call_function
  call-Post m none w (f, e) fit = cc
  call-Post m (some f) w (_, e) fit =
      let ext =
        fit f refl (m.regs 1) (m.regs 2) (m.regs 3) (m.regs 4) (m.regs 5) m.memory w.bytes_fit in
      (
        record { regs_fit = λ r. write_reg-lt m.regs 0 _ r w.regs_fit ext.0; bytes_fit = ext.1 },
        write_reg-ne m.regs 0 _ 10 (omega arith),
      )

  lddw_room :
      (k : ℕ) (i : Inst) → check_inst registered p.insts lddw k i ≡ accept → k + 1 < length p.insts
  unfolding check_inst check_op
  lddw_room k i c = ground arith

  call_registered :
      (k : ℕ) (i : Inst) → check_inst registered p.insts call k i ≡ accept → registered i.imm ≡ true
  unfolding check_inst check_op
  call_registered k i c = ground arith

  alu_mod-le : (w : Width) (v : ℕ) → v < alu_mod w → v < u64_mod
  alu_mod-le alu32 v h = omega arith
  alu_mod-le alu64 v h = h

  -- A checked instruction keeps the frame pointer r10 and leaves words in the registers, or stops
  -- in one of the ways that `Stops` lists for it: none of these is a fetch past the code or a call
  -- through a null pointer.
  pub exec_op-Post :
      (op : Op) (k : ℕ) (i : Inst) (m : Machine)
      → IsWord m
      → i.imm < u32_mod
      → Registered registered p
      → FuncsFit p
      → ((j : ℕ) (inst : Inst) → get_elem? p.insts j ≡ some inst → inst.imm < u32_mod)
      → m.pc ≡ k + 1
      → check_inst registered p.insts op k i ≡ accept
      → Post (Keeps m) (Stops op) (exec_op p op i m)
  unfolding exec_op
  exec_op-Post (alu w o s) k i m fits hi known fit imms pc c =
      Post-bind (λ r. r < alu_mod w) (Keeps m) _ (exec_alu w o s (m.regs i.dst) (operand s i m)) _
        (exec_alu-Post w o s (m.regs i.dst) (operand s i m) (fits.regs_fit i.dst)
          (operand-lt s i m fits hi)
          (DivisorOk-checked w o s k i m hi (op_checked (alu w o s) k i c)))
        λ v hv. set_reg-Keeps m i.dst v fits (dst_small (alu w o s) k i refl c) (alu_mod-le w v hv)
  exec_op-Post (neg w) k i m fits hi known fit imms pc c =
      set_reg-Keeps m i.dst _ fits (dst_small (neg w) k i refl c) (exec_neg-lt w (m.regs i.dst))
  exec_op-Post to_le k i m fits hi known fit imms pc c =
      set_reg-Keeps m i.dst _ fits (dst_small to_le k i refl c)
        (exec_le-lt i.imm (m.regs i.dst) (fits.regs_fit i.dst))
  exec_op-Post to_be k i m fits hi known fit imms pc c =
      set_reg-Keeps m i.dst _ fits (dst_small to_be k i refl c)
        (exec_be-lt i.imm (m.regs i.dst) (fits.regs_fit i.dst))
  exec_op-Post (ldx z) k i m fits hi known fit imms pc c =
      Post-bind (λ _. Unit {0}) (Keeps m) _ (checked_address p (m.regs i.src) i z) _
        (checked_address-Post (m.regs i.src) i z)
        λ a _.
          set_reg-Keeps m i.dst _ fits (dst_small (ldx z) k i refl c)
            (load_size-lt z m.memory a fits.bytes_fit)
  exec_op-Post (st z) k i m fits hi known fit imms pc c = store_at-Post i z (sext32 i.imm) m fits
  exec_op-Post (stx z) k i m fits hi known fit imms pc c = store_at-Post i z (m.regs i.src) m fits
  exec_op-Post lddw k i m fits hi known fit imms pc c =
      let small = dst_small lddw k i refl c in
      let there = lddw_room k i c in
      lddw-Post i (get_elem? p.insts m.pc) m fits small hi (imms m.pc)
        (get_elem?-some p.insts m.pc (omega arith))
  exec_op-Post ja k i m fits hi known fit imms pc c =
      (record { regs_fit = fits.regs_fit; bytes_fit = fits.bytes_fit }, refl)
  exec_op-Post (jump cond s) k i m fits hi known fit imms pc c =
      elim (Bool-cases (holds cond (m.regs i.dst) (cond_operand cond s i m))) [
        | inl e ↦ rw e (record { regs_fit = fits.regs_fit; bytes_fit = fits.bytes_fit }, refl)
        | inr e ↦ rw e (fits, refl)
      ]
  exec_op-Post call k i m fits hi known fit imms pc c =
      call-Post m (p.ext_funcs i.imm) fits (known i.imm (call_registered k i c)) (fit i.imm)
  exec_op-Post exit k i m fits hi known fit imms pc c = tt
