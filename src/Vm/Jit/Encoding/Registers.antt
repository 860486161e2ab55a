-- ===== src/Vm/Jit/Encoding/Registers.antt =====
-- The operations between registers that ubpf/ubpf_jit_x86_64.h emits are read back as they were meant.
use mathlib.Core.List.{append_assoc, append-nil}
use bpfabric.Prelude.{
  ℕ, ◌+◌, ◌-◌, ◌*◌, ◌/◌, ◌%◌, ◌≤◌, ◌<◌, ◌≡◌, ◌≢◌, refl, sym, ap, ◌∙◌, arith, Bool, true, false, not,
  ◌&&◌, ◌||◌, Bool-cases, inl, inr, some, List, [], ◌∷◌, ◌++◌, length, length-append, ltb, lt→ltb,
  le→leb, ◌==◌, if◌then◌else◌,
}
use bpfabric.Prelude.Words.{u32_mod}
use bpfabric.Ebpf.{Width, alu32, alu64}
use bpfabric.Vm.Jit.State.{Jit, ok, Emitter, ◌and_next◌, nothing, require, ◌>>=◌, emit_bytes, emit1}
use bpfabric.Vm.Jit.Emit.{
  top_bit, low_bits, emit_rex, emit_basic_rex, emit_modrm, emit_modrm_reg2reg, emit_alu32,
  emit_alu64,
}
use bpfabric.Vm.Jit.Encoding.{
  Rex, no_rex, split_rex, register_of, decode_modrm, decode_register_form,
}

-- With room for `bytes`, the emitter adds exactly these.
abbrev Puts : List ℕ → Emitter → Type 0
Puts bytes f =
    (s : Jit)
    → s.size < u32_mod
    → length s.code + length bytes ≤ s.size
    → f s ≡ ok (record s { code = s.code ++ bytes })

Puts-next :
    {xs ys : List ℕ} {f g : Emitter} → Puts xs f → Puts ys g → Puts (xs ++ ys) (f and_next g)
unfolding ◌and_next◌
Puts-next {xs} {ys} {f} {g} a b s small room =
    let total = length-append xs ys in
    let first = a s small (omega (arith, room, total)) in
    let second =
      b (record s { code = s.code ++ xs }) small
        (omega (arith, room, total, length-append s.code xs)) in
    ap (λ t. t >>= g) first
    ∙ (second ∙ ap (λ c. ok (record s { code = c })) (append_assoc s.code xs ys))

emit_bytes-Puts : (bytes : List ℕ) → Puts bytes (emit_bytes bytes)
unfolding emit_bytes
emit_bytes-Puts bytes s small room =
    let fits =
      le→leb (length s.code) ((s.size + (u32_mod - length bytes)) % u32_mod)
        (omega (arith, room, small)) in
    rw fits refl

emit1-Puts : (x : ℕ) → x < 256 → Puts (x ∷ []) (emit1 x)
unfolding emit1
emit1-Puts x h s small room =
    let same : x % 0x100 ≡ x = omega arith in rw same (emit_bytes-Puts (x ∷ []) s small room)

nothing-Puts : Puts [] nothing
unfolding nothing
nothing-Puts s small room = ap (λ c. ok (record s { code = c })) (sym (append-nil s.code))

require-Puts : (b : Bool) → b ≡ true → Puts [] (require b)
unfolding require
require-Puts true h s small room = ap (λ c. ok (record s { code = c })) (sym (append-nil s.code))
require-Puts false h s small room = absurd (cc)

rex_byte : ℕ → ℕ → ℕ → ℕ
rex_byte w r b = 0x40 + 8 * w + 4 * r + 2 * 0 + b

emit_rex-Puts : (w r b : ℕ) → w < 2 → r < 2 → b < 2 → Puts (rex_byte w r b ∷ []) (emit_rex w r 0 b)
unfolding emit_rex rex_byte
emit_rex-Puts w r b hw hr hb = Puts-next (require-Puts (ltb w 2) (lt→ltb w 2 hw)) (
    Puts-next (require-Puts (ltb r 2) (lt→ltb r 2 hr)) (
      Puts-next (require-Puts (ltb 0 2) refl)
        (Puts-next (require-Puts (ltb b 2) (lt→ltb b 2 hb)) (emit1-Puts _ (omega arith)))))

abbrev needs_rex : ℕ → ℕ → ℕ → Bool
needs_rex w src dst = not (w == 0) || (not (top_bit src == 0) || not (top_bit dst == 0))

rex_bytes : ℕ → ℕ → ℕ → List ℕ
unfolding rex_byte
rex_bytes w src dst =
    if needs_rex w src dst then rex_byte w (top_bit src) (top_bit dst) ∷ [] else []

emit_basic_rex-Puts :
    (w src dst : ℕ) → w < 2 → Puts (rex_bytes w src dst) (emit_basic_rex w src dst)
unfolding emit_basic_rex rex_bytes
emit_basic_rex-Puts w src dst hw = elim (Bool-cases (needs_rex w src dst)) [
  | inl e ↦ rw e (emit_rex-Puts w (top_bit src) (top_bit dst) hw (omega arith) (omega arith))
  | inr e ↦ rw e nothing-Puts
]

modrm_byte : ℕ → ℕ → ℕ
modrm_byte r m = 0xc0 + 8 * low_bits r + low_bits m

emit_modrm_reg2reg-Puts : (r m : ℕ) → Puts (modrm_byte r m ∷ []) (emit_modrm_reg2reg r m)
unfolding emit_modrm_reg2reg emit_modrm modrm_byte
emit_modrm_reg2reg-Puts r m =
    Puts-next (require-Puts (0xc0 % 0x40 == 0 && ltb 0xc0 0x100) refl) (emit1-Puts _ (omega arith))

abbrev alu_bytes : ℕ → ℕ → ℕ → ℕ → List ℕ
alu_bytes w op src dst = rex_bytes w src dst ++ (op ∷ modrm_byte src dst ∷ [])

emit_alu32-Puts :
    (op src dst : ℕ) → op < 256 → Puts (alu_bytes 0 op src dst) (emit_alu32 op src dst)
unfolding emit_alu32
emit_alu32-Puts op src dst h =
    Puts-next (emit_basic_rex-Puts 0 src dst (omega arith))
      (Puts-next (emit1-Puts op h) (emit_modrm_reg2reg-Puts src dst))

emit_alu64-Puts :
    (op src dst : ℕ) → op < 256 → Puts (alu_bytes 1 op src dst) (emit_alu64 op src dst)
unfolding emit_alu64
emit_alu64-Puts op src dst h =
    Puts-next (emit_basic_rex-Puts 1 src dst (omega arith))
      (Puts-next (emit1-Puts op h) (emit_modrm_reg2reg-Puts src dst))

length-alu_bytes : (w op src dst : ℕ) → length (alu_bytes w op src dst) ≤ 3
unfolding rex_bytes
length-alu_bytes w op src dst = elim (Bool-cases (needs_rex w src dst)) [
  | inl e ↦ rw e (omega arith)
  | inr e ↦ rw e (omega arith)
]

decode_modrm-byte :
    (x : Rex) (op src dst : ℕ) (rest : List ℕ)
    → src < 16
    → dst < 16
    → x.r ≡ top_bit src
    → x.b ≡ top_bit dst
    → decode_modrm x (op ∷ modrm_byte src dst ∷ rest)
      ≡ some (record { wide = x.w; opcode = op; reg = src; rm = dst }, rest)
unfolding decode_modrm modrm_byte
decode_modrm-byte x op src dst rest hs hd er eb =
    let three : (0xc0 + 8 * low_bits src + low_bits dst) / 64 ≡ 3 = omega arith in
    let reg : register_of x.r ((0xc0 + 8 * low_bits src + low_bits dst) / 8) ≡ src =
      omega (arith, er) in
    let rm : register_of x.b (0xc0 + 8 * low_bits src + low_bits dst) ≡ dst = omega (arith, eb) in
    rw (three, reg, rm) refl

split_rex-byte :
    (w r b : ℕ) (rest : List ℕ)
    → w < 2
    → r < 2
    → b < 2
    → split_rex (rex_byte w r b ∷ rest) ≡ (record { present = true; w = w; r = r; b = b }, rest)
unfolding split_rex rex_byte
split_rex-byte w r b rest hw hr hb =
    let byte : ℕ = 0x40 + 8 * w + 4 * r + 2 * 0 + b in
    let is_rex : (byte / 16 == 4 && byte / 2 % 2 == 0) ≡ true = ground arith in
    let ew : byte / 8 % 2 ≡ w = omega arith in
    let er : byte / 4 % 2 ≡ r = omega arith in
    let eb : byte % 2 ≡ b = omega arith in rw (is_rex, ew, er, eb) refl

split_rex-none :
    (byte : ℕ) (rest : List ℕ) → byte / 16 ≢ 4 → split_rex (byte ∷ rest) ≡ (no_rex, byte ∷ rest)
unfolding split_rex
split_rex-none byte rest ne =
    let other : (byte / 16 == 4 && byte / 2 % 2 == 0) ≡ false = ground arith in rw other refl

bare_bits :
    (w src dst : ℕ) → needs_rex w src dst ≡ false → (w ≡ 0) × (top_bit src ≡ 0) × (top_bit dst ≡ 0)
bare_bits w src dst e = ground arith

alu_bytes-decode :
    (w op src dst : ℕ) (rest : List ℕ)
    → w < 2
    → src < 16
    → dst < 16
    → op / 16 ≢ 4
    → decode_register_form (alu_bytes w op src dst ++ rest)
      ≡ some (record { wide = w; opcode = op; reg = src; rm = dst }, rest)
unfolding decode_register_form rex_bytes
alu_bytes-decode w op src dst rest hw hs hd ne = elim (Bool-cases (needs_rex w src dst)) [
  | inl e ↦
      let x : Rex = record { present = true; w = w; r = top_bit src; b = top_bit dst } in
      let after_rex = op ∷ modrm_byte src dst ∷ rest in
      let split =
        split_rex-byte w (top_bit src) (top_bit dst) after_rex hw (omega arith) (omega arith) in
      rw e
        (ap (λ p. decode_modrm p.0 p.1) split ∙ decode_modrm-byte x op src dst rest hs hd refl refl)
  | inr e ↦
      let (ew, es, ed) = bare_bits w src dst e in
      let split = split_rex-none op (modrm_byte src dst ∷ rest) ne in
      let read = decode_modrm-byte no_rex op src dst rest hs hd (sym es) (sym ed) in
      rw (e, ew) (ap (λ p. decode_modrm p.0 p.1) split ∙ read)
]

-- The two widths of `emit_alu32` and `emit_alu64`
abbrev pub emit_alu : Width → ℕ → ℕ → ℕ → Emitter
emit_alu alu32 = emit_alu32
emit_alu alu64 = emit_alu64

abbrev pub is_wide : Width → ℕ
is_wide alu32 = 0
is_wide alu64 = 1

-- An operation between registers, emitted where 3 bytes fit, adds bytes that are read as this
-- operation whatever stands behind them: with its opcode, which is a byte that is no REX prefix, its
-- width, and both of its registers, of which there are 16.
pub emit_alu-decode :
    (width : Width) (op src dst : ℕ) (s : Jit)
    → op < 256
    → op / 16 ≢ 4
    → src < 16
    → dst < 16
    → s.size < u32_mod
    → length s.code + 3 ≤ s.size
    → (bytes : List ℕ) × (emit_alu width op src dst s ≡ ok (record s { code = s.code ++ bytes }))
      × ((rest : List ℕ)
          → decode_register_form (bytes ++ rest)
            ≡ some (record { wide = is_wide width; opcode = op; reg = src; rm = dst }, rest))
emit_alu-decode alu32 op src dst s byte ne hs hd small room = (
  alu_bytes 0 op src dst,
  emit_alu32-Puts op src dst byte s small (omega (arith, room, length-alu_bytes 0 op src dst)),
  λ rest. alu_bytes-decode 0 op src dst rest (omega arith) hs hd ne,
)
emit_alu-decode alu64 op src dst s byte ne hs hd small room = (
  alu_bytes 1 op src dst,
  emit_alu64-Puts op src dst byte s small (omega (arith, room, length-alu_bytes 1 op src dst)),
  λ rest. alu_bytes-decode 1 op src dst rest (omega arith) hs hd ne,
)
