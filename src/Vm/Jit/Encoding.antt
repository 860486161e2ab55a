-- ===== src/Vm/Jit/Encoding.antt =====
-- How an x86-64 processor reads the instructions that ubpf/ubpf_jit_x86_64.h emits: the prefixes, the
-- opcode, and the ModRM byte with its displacement. This is the description that the emitters of
-- Jit/Emit are compared with; no line of the source is translated here.
pub mod Registers
use bpfabric.Prelude.{
  ℕ, ◌+◌, ◌-◌, ◌*◌, ◌/◌, ◌%◌, Bool, true, false, ◌&&◌, Option, none, some, List, [], ◌∷◌, ltb, ◌==◌,
  if◌then◌else◌,
}
use bpfabric.Prelude.Words.{u32_mod}

-- The bits W, R and B of a REX prefix, and whether there is one.
pub record Rex : Type 0 where
  pub present : Bool
  pub w : ℕ
  pub r : ℕ
  pub b : ℕ

abbrev pub no_rex : Rex
no_rex = record { present = false; w = 0; r = 0; b = 0 }

abbrev pub rex_of : ℕ → Rex
rex_of byte = record { present = true; w = byte / 8 % 2; r = byte / 4 % 2; b = byte % 2 }

-- A byte from 0x40 to 0x4f is a REX prefix, whose bit X these instructions leave clear.
unfoldable pub split_rex : List ℕ → Rex × List ℕ
split_rex [] = (no_rex, [])
split_rex (byte ∷ rest) =
    if byte / 16 == 4 && byte / 2 % 2 == 0 then (rex_of byte, rest) else (no_rex, byte ∷ rest)

-- An operation between two registers: its width (REX.W), opcode, `reg` and `rm` registers.
pub record RegisterForm : Type 0 where
  pub wide : ℕ
  pub opcode : ℕ
  pub reg : ℕ
  pub rm : ℕ

-- The register of a field of ModRM and its bit in the prefix
abbrev pub register_of : ℕ → ℕ → ℕ
register_of bit field = 8 * bit + field % 8

unfoldable pub decode_modrm : Rex → List ℕ → Option (RegisterForm × List ℕ)
decode_modrm x (op ∷ modrm ∷ rest) =
    if modrm / 64 == 3
    then some (
      record {
        wide = x.w;
        opcode = op;
        reg = register_of x.r (modrm / 8);
        rm = register_of x.b modrm;
      },
      rest,
    )
    else none
decode_modrm x _ = none

unfoldable pub decode_register_form : List ℕ → Option (RegisterForm × List ℕ)
unfolding split_rex decode_modrm
decode_register_form bytes = let (x, rest) = split_rex bytes in decode_modrm x rest

-- A register and a memory operand: its base register and its displacement, a pattern of 32 bits.
pub record MemoryForm : Type 0 where
  pub reg : ℕ
  pub base : ℕ
  pub displacement : ℕ

-- The sign extension of an 8-bit displacement
abbrev pub sext8 : ℕ → ℕ
sext8 d = if ltb d 0x80 then d else d + (u32_mod - 0x100)

unfoldable pub byte_displacement : List ℕ → Option (ℕ × List ℕ)
byte_displacement [] = none
byte_displacement (d ∷ rest) = some (sext8 d, rest)

unfoldable pub word_displacement : List ℕ → Option (ℕ × List ℕ)
word_displacement (a ∷ b ∷ c ∷ d ∷ rest) =
    some (a + 0x100 * b + 0x1_0000 * c + 0x100_0000 * d, rest)
word_displacement _ = none

-- The displacement by the field `mod`; without one, base field 5 means an address relative to the
-- next instruction.
unfoldable pub displacement_of : ℕ → ℕ → List ℕ → Option (ℕ × List ℕ)
unfolding byte_displacement word_displacement
displacement_of mod_field rm rest =
    if mod_field == 0
    then if rm == 5 then none else some (0, rest)
    else if mod_field == 1
    then byte_displacement rest
    else if mod_field == 2
    then word_displacement rest
    else none

unfoldable pub with_displacement : ℕ → ℕ → Option (ℕ × List ℕ) → Option (MemoryForm × List ℕ)
with_displacement reg base none = none
with_displacement reg base (some (d, rest)) =
    some (record { reg = reg; base = base; displacement = d }, rest)

-- The ModRM byte of a memory operand; base field 4 announces a SIB byte, which is not emitted.
unfoldable pub decode_memory : Rex → List ℕ → Option (MemoryForm × List ℕ)
unfolding with_displacement displacement_of
decode_memory x [] = none
decode_memory x (modrm ∷ rest) =
    if modrm % 8 == 4
    then none
    else with_displacement (register_of x.r (modrm / 8)) (register_of x.b modrm)
        (displacement_of (modrm / 64) (modrm % 8) rest)
