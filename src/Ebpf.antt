-- ===== src/Ebpf.antt =====
-- ubpf/ebpf.h: the instruction record and the opcodes. `encode` composes an opcode from the
-- class, source and operation fields as the header's macros do; the fields are disjoint, so
-- their `|` is a sum.
pub mod Codec
use bpfabric.Prelude.{ℕ, ◌+◌, ◌*◌, Bool, Option, some, none, List, [], ◌∷◌, ◌++◌, map}
use bpfabric.Prelude.{◌==◌, if◌then◌else◌}

-- `struct ebpf_inst`; `offset` and `imm` are the 16- and 32-bit patterns of the signed fields.
pub record Inst : Type 0 where
  pub opcode : ℕ
  pub dst : ℕ
  pub src : ℕ
  pub offset : ℕ
  pub imm : ℕ

pub data Operand : Type 0 where
  imm reg : Operand

pub data Width : Type 0 where
  alu32 alu64 : Width

pub data BinOp : Type 0 where
  add sub mul div bor band lsh rsh modulo xor mov arsh : BinOp

pub data Size : Type 0 where
  word half byte double : Size

pub data Cond : Type 0 where
  jeq jgt jge jset jne jsgt jsge : Cond

pub data Op : Type 0 where
  alu : Width → BinOp → Operand → Op
  neg : Width → Op
  to_le to_be : Op
  ldx st stx : Size → Op
  lddw ja call exit : Op
  jump : Cond → Operand → Op

-- EBPF_SRC_IMM, EBPF_SRC_REG
unfoldable pub src_field : Operand → ℕ
src_field imm = 0x00
src_field reg = 0x08

-- EBPF_CLS_ALU, EBPF_CLS_ALU64
unfoldable pub class_field : Width → ℕ
class_field alu32 = 0x04
class_field alu64 = 0x07

unfoldable pub alu_field : BinOp → ℕ
alu_field add = 0x00
alu_field sub = 0x10
alu_field mul = 0x20
alu_field div = 0x30
alu_field bor = 0x40
alu_field band = 0x50
alu_field lsh = 0x60
alu_field rsh = 0x70
alu_field modulo = 0x90
alu_field xor = 0xa0
alu_field mov = 0xb0
alu_field arsh = 0xc0

unfoldable pub size_field : Size → ℕ
size_field word = 0x00
size_field half = 0x08
size_field byte = 0x10
size_field double = 0x18

unfoldable pub cond_field : Cond → ℕ
cond_field jeq = 0x10
cond_field jgt = 0x20
cond_field jge = 0x30
cond_field jset = 0x40
cond_field jne = 0x50
cond_field jsgt = 0x60
cond_field jsge = 0x70

unfoldable pub encode : Op → ℕ
unfolding src_field class_field alu_field size_field cond_field
encode (alu w o s) = class_field w + src_field s + alu_field o
encode (neg w) = class_field w + 0x80
encode to_le = 0x04 + 0x00 + 0xd0
encode to_be = 0x04 + 0x08 + 0xd0
encode (ldx z) = 0x01 + 0x60 + size_field z
encode (st z) = 0x02 + 0x60 + size_field z
encode (stx z) = 0x03 + 0x60 + size_field z
encode lddw = 0x00 + 0x00 + 0x18
encode ja = 0x05 + 0x00
encode (jump c s) = 0x05 + src_field s + cond_field c
encode call = 0x05 + 0x80
encode exit = 0x05 + 0x90

abbrev pub bin_ops : List BinOp
bin_ops = add ∷ sub ∷ mul ∷ div ∷ bor ∷ band ∷ lsh ∷ rsh ∷ modulo ∷ xor ∷ mov ∷ arsh ∷ []

abbrev pub sizes : List Size
sizes = word ∷ half ∷ byte ∷ double ∷ []

abbrev pub conds : List Cond
conds = jeq ∷ jgt ∷ jge ∷ jset ∷ jne ∷ jsgt ∷ jsge ∷ []

-- The case labels of the switches over `inst.opcode`.
abbrev pub all_ops : List Op
all_ops =
    map (λ o. alu alu32 o imm) bin_ops
    ++ (map (λ o. alu alu32 o reg) bin_ops
        ++ (map (λ o. alu alu64 o imm) bin_ops
            ++ (map (λ o. alu alu64 o reg) bin_ops
                ++ (map (λ z. ldx z) sizes
                    ++ (map (λ z. st z) sizes
                        ++ (map (λ z. stx z) sizes
                            ++ (map (λ c. jump c imm) conds
                                ++ (map (λ c. jump c reg) conds
                                    ++ (neg alu32
                                        ∷ neg alu64
                                        ∷ to_le
                                        ∷ to_be
                                        ∷ lddw
                                        ∷ ja
                                        ∷ call
                                        ∷ exit
                                        ∷ [])))))))))

unfoldable pub find_op : ℕ → List Op → Option Op
unfolding encode
find_op b [] = none
find_op b (op ∷ ops) = if encode op == b then some op else find_op b ops

-- `switch (inst.opcode)`: the case that an opcode selects, `none` for the default.
unfoldable pub decode : ℕ → Option Op
unfolding find_op
decode b = find_op b all_ops
