-- ===== src/Ebpf/Codec.antt =====
-- The opcodes of ubpf/ebpf.h: `decode` and `encode` are inverse to one another.
use bpfabric.Prelude.{ℕ, ◌≡◌, ◌↔◌, refl, some, List, [], ◌∷◌, ==_iff, ◌==◌}
use bpfabric.Prelude.{inl, inr, Bool-cases}
use bpfabric.Ebpf.{
  Operand, imm, reg, alu32, alu64, BinOp, add, Size, word, Cond, jeq, Op, alu, neg, ldx, st, stx,
  jump, encode, find_op, decode, all_ops,
}

find_op-encode : (b : ℕ) (ops : List Op) {op : Op} → find_op b ops ≡ some op → encode op ≡ b
unfolding find_op
find_op-encode b [] h = absurd (cc)
find_op-encode b (o ∷ ops) {op} h = elim (Bool-cases (encode o == b)) [
  | inl e ↦
      let same : some o ≡ some op = rw e at h in
      let eq : o ≡ op = cc in rw (← eq) ((==_iff _ b).0 e)
  | inr e ↦ find_op-encode b ops (rw e at h)
]

decode-alu32 : (o : BinOp) (s : Operand) → decode (encode (alu alu32 o s)) ≡ some (alu alu32 o s)
unfolding decode
decode-alu32 add = elim [ imm ↦ refl | reg ↦ refl ]
decode-alu32 _ = elim [ imm ↦ refl | reg ↦ refl ]

decode-alu64 : (o : BinOp) (s : Operand) → decode (encode (alu alu64 o s)) ≡ some (alu alu64 o s)
unfolding decode
decode-alu64 add = elim [ imm ↦ refl | reg ↦ refl ]
decode-alu64 _ = elim [ imm ↦ refl | reg ↦ refl ]

decode-jump : (c : Cond) (s : Operand) → decode (encode (jump c s)) ≡ some (jump c s)
unfolding decode
decode-jump jeq = elim [ imm ↦ refl | reg ↦ refl ]
decode-jump _ = elim [ imm ↦ refl | reg ↦ refl ]

decode-ldx : (z : Size) → decode (encode (ldx z)) ≡ some (ldx z)
unfolding decode
decode-ldx word = refl
decode-ldx _ = refl

decode-st : (z : Size) → decode (encode (st z)) ≡ some (st z)
unfolding decode
decode-st word = refl
decode-st _ = refl

decode-stx : (z : Size) → decode (encode (stx z)) ≡ some (stx z)
unfolding decode
decode-stx word = refl
decode-stx _ = refl

pub decode-encode_self : (op : Op) → decode (encode op) ≡ some op
unfolding decode
decode-encode_self (alu alu32 o s) = decode-alu32 o s
decode-encode_self (alu alu64 o s) = decode-alu64 o s
decode-encode_self (neg alu32) = refl
decode-encode_self (neg alu64) = refl
decode-encode_self (ldx z) = decode-ldx z
decode-encode_self (st z) = decode-st z
decode-encode_self (stx z) = decode-stx z
decode-encode_self (jump c s) = decode-jump c s
decode-encode_self _ = refl

-- An opcode selects the case of an operation exactly when it is that operation's constant of the
-- header: the constants are pairwise distinct, and every operation has a case.
pub decode-encode : (b : ℕ) (op : Op) → (decode b ≡ some op) ↔ (encode op ≡ b)
unfolding decode
decode-encode b op = (find_op-encode b all_ops, λ e. rw (← e) (decode-encode_self op))
