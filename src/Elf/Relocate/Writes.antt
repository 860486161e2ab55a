-- ===== src/Elf/Relocate/Writes.antt =====
-- The writes of the relocations into the copy of the text, in terms of its instructions.
use bpfabric.Prelude.{ℕ, zero, suc, ◌+◌, ◌*◌, ◌/◌, ◌%◌, ◌≤◌, ◌≡◌, arith, refl, ap}
use bpfabric.Prelude.{
  List, [], ◌∷◌, some, length, get_elem?, set, leb, leb→le, Bool-cases, inl, inr,
}
use bpfabric.Prelude.Words.{u32_mod}
use bpfabric.Prelude.Bytes.{overlay, write_at}
use bpfabric.Ebpf.{Inst}
use bpfabric.Maps.Attr.{bytes_of}
use bpfabric.Vm.Code.{insts_of}
use bpfabric.Elf.{fine}
use bpfabric.Elf.Parts.{fine-injective}
use bpfabric.Elf.Relocate.{poke}

pub some-injective {ℓ} : {A : Type ℓ} {a b : A} → some a ≡ some b → a ≡ b
some-injective e = cc

pub poke-write_at :
    (off : ℕ) (bytes text : List ℕ) {text' : List ℕ}
    → poke off bytes text ≡ fine text'
    → (off + length bytes ≤ length text) × (write_at off bytes text ≡ text')
unfolding poke
poke-write_at off bytes text e = elim (Bool-cases (leb (off + length bytes) (length text))) [
  | inl t ↦ (leb→le _ _ t, fine-injective (rw t at e))
  | inr f ↦ absurd (cc)
]

abbrev inst_of_bytes : ℕ → ℕ → ℕ → ℕ → ℕ → ℕ → ℕ → ℕ → Inst
inst_of_bytes b0 b1 b2 b3 b4 b5 b6 b7 = record {
  opcode = b0;
  dst = b1 % 16;
  src = b1 / 16;
  offset = b2 + 0x100 * b3;
  imm = b4 + 0x100 * b5 + 0x1_0000 * b6 + 0x100_0000 * b7;
}

-- The instruction of an index that is whole in the text.
pub inst_at :
    (k : ℕ) (text : List ℕ)
    → 8 * k + 8 ≤ length text
    → (i : Inst) × (get_elem? (insts_of text) k ≡ some i)
unfolding insts_of
inst_at zero (b0 ∷ b1 ∷ b2 ∷ b3 ∷ b4 ∷ b5 ∷ b6 ∷ b7 ∷ rest) h = (_, refl)
inst_at (suc k) (b0 ∷ b1 ∷ b2 ∷ b3 ∷ b4 ∷ b5 ∷ b6 ∷ b7 ∷ rest) h = inst_at k rest (omega arith)
inst_at _ _ h = absurd (omega arith)

eight_more : (k n : ℕ) → 8 * suc k + n ≡ suc (suc (suc (suc (suc (suc (suc (suc (8 * k + n))))))))
eight_more k n = omega arith

-- A write of four bytes at the place of the immediate value.
pub insts_of-imm :
    (k x : ℕ) (text : List ℕ) (i : Inst)
    → get_elem? (insts_of text) k ≡ some i
    → insts_of (write_at (8 * k + 4) (bytes_of x) text)
      ≡ set (insts_of text) k (record i { imm = x % u32_mod })
unfolding insts_of write_at overlay bytes_of
insts_of-imm zero x (b0 ∷ b1 ∷ b2 ∷ b3 ∷ b4 ∷ b5 ∷ b6 ∷ b7 ∷ rest) i e =
    let number : x % 256
          + 0x100 * (x / 0x100 % 256)
          + 0x1_0000 * (x / 0x1_0000 % 256)
          + 0x100_0000 * (x / 0x100_0000 % 256)
        ≡ x % u32_mod =
      omega arith in
    let same : inst_of_bytes b0 b1 b2 b3 b4 b5 b6 b7 ≡ i = cc in rw (← same, number) refl
insts_of-imm (suc k) x (b0 ∷ b1 ∷ b2 ∷ b3 ∷ b4 ∷ b5 ∷ b6 ∷ b7 ∷ rest) i e =
    rw (eight_more k 4) (rw (insts_of-imm k x rest i e) refl)
insts_of-imm _ x _ i e = absurd (cc)

-- A write of the half of a byte that is the source register.
pub insts_of-src :
    (k b : ℕ) (text : List ℕ) (i : Inst)
    → get_elem? (insts_of text) k ≡ some i
    → get_elem? text (8 * k + 1) ≡ some b
    → insts_of (write_at (8 * k + 1) ((b % 16 + 16) ∷ []) text)
      ≡ set (insts_of text) k (record i { src = 1 })
unfolding insts_of write_at overlay
insts_of-src zero b (b0 ∷ b1 ∷ b2 ∷ b3 ∷ b4 ∷ b5 ∷ b6 ∷ b7 ∷ rest) i e f =
    let same : inst_of_bytes b0 b1 b2 b3 b4 b5 b6 b7 ≡ i = cc in
    let byte : b1 ≡ b = cc in
    let low : (b % 16 + 16) % 16 ≡ b % 16 = omega arith in
    let high : (b % 16 + 16) / 16 ≡ 1 = omega arith in rw (← same, byte, low, high) refl
insts_of-src (suc k) b (b0 ∷ b1 ∷ b2 ∷ b3 ∷ b4 ∷ b5 ∷ b6 ∷ b7 ∷ rest) i e f =
    let later : get_elem? rest (8 * k + 1) ≡ some b = rw (eight_more k 1) at f in
    rw (eight_more k 1) (rw (insts_of-src k b rest i e later) refl)
insts_of-src _ b _ i e f = absurd (cc)

pub opcode_at :
    (k : ℕ) (text : List ℕ) (i : Inst)
    → get_elem? (insts_of text) k ≡ some i
    → get_elem? text (8 * k) ≡ some i.opcode
unfolding insts_of
opcode_at zero (b0 ∷ b1 ∷ b2 ∷ b3 ∷ b4 ∷ b5 ∷ b6 ∷ b7 ∷ rest) i e =
    let same : inst_of_bytes b0 b1 b2 b3 b4 b5 b6 b7 ≡ i = cc in rw (← same) refl
opcode_at (suc k) (b0 ∷ b1 ∷ b2 ∷ b3 ∷ b4 ∷ b5 ∷ b6 ∷ b7 ∷ rest) i e =
    let shift : 8 * suc k ≡ suc (suc (suc (suc (suc (suc (suc (suc (8 * k)))))))) = omega arith in
    rw shift (opcode_at k rest i e)
opcode_at _ _ i e = absurd (cc)

pub set_twice : (xs : List Inst) (k : ℕ) (a b : Inst) → set (set xs k a) k b ≡ set xs k b
set_twice [] k a b = refl
set_twice (x ∷ xs) zero a b = refl
set_twice (x ∷ xs) (suc k) a b = ap (λ t. x ∷ t) (set_twice xs k a b)
