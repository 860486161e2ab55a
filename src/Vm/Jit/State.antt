-- ===== src/Vm/Jit/State.antt =====
-- ubpf/ubpf_jit_x86_64.h: `struct jit_state`, and the functions that append bytes and jumps to it.
use bpfabric.Prelude.{
  ℕ, ◌+◌, ◌-◌, ◌/◌, ◌%◌, Bool, true, false, List, [], ◌∷◌, ◌++◌, length, ltb, leb, if◌then◌else◌,
}
use bpfabric.Prelude.Words.{u32_mod}
use bpfabric.Maps.Attr.{bytes_of}
use bpfabric.Vm.Validate.{max_insts}

-- `struct jump`
pub record Jump : Type 0 where
  pub offset_loc : ℕ
  pub target_pc : ℕ

-- `struct jit_state`: `code` is what `buf` holds below `offset`, which is its length; `jumps` is what
-- the array holds below `num_jumps`, which is its length; `pc_locs` starts as an array of zeros.
pub record Jit : Type 0 where
  pub code : List ℕ
  pub size : ℕ
  pub pc_locs : ℕ → ℕ
  pub exit_loc : ℕ
  pub div_by_zero_loc : ℕ
  pub jumps : List Jump

-- How a translation stops: an assertion fails, an access runs off an array, or `translate` returns
-- -1 with the index and the opcode in its message.
pub data Stop : Type 0 where
  aborted wild : Stop
  unknown_instruction : ℕ → ℕ → Stop

pub data Result {ℓ} (A : Type ℓ) : Type ℓ where
  ok : A → Result A
  stop : Stop → Result A

infixl 5 ◌>>=◌
abbrev pub ◌>>=◌ {ℓ κ} : {A : Type ℓ} {B : Type κ} → Result A → (A → Result B) → Result B
ok a >>= f = f a
stop e >>= f = stop e

-- A function with a `struct jit_state *` parameter.
abbrev pub Emitter : Type 0
Emitter = Jit → Result Jit

-- One call after another.
infixr 6 ◌and_next◌
unfoldable pub ◌and_next◌ : Emitter → Emitter → Emitter
(f and_next g) s = f s >>= g

unfoldable pub nothing : Emitter
nothing s = ok s

-- `assert(b)`
unfoldable pub require : Bool → Emitter
require true s = ok s
require false s = stop aborted

-- sizeof(uint32_t)
abbrev pub rel_size : ℕ
rel_size = 4

-- `emit_bytes`; the subtraction of the assertion is that of `uint32_t`.
unfoldable pub emit_bytes : List ℕ → Emitter
emit_bytes bytes s =
    if leb (length s.code) ((s.size + (u32_mod - length bytes)) % u32_mod)
    then ok (record s { code = s.code ++ bytes })
    else stop aborted

unfoldable pub emit1 : ℕ → Emitter
unfolding emit_bytes
emit1 x = emit_bytes (x % 0x100 ∷ [])

unfoldable pub emit2 : ℕ → Emitter
unfolding emit_bytes
emit2 x = emit_bytes (x % 0x100 ∷ x / 0x100 % 0x100 ∷ [])

unfoldable pub emit4 : ℕ → Emitter
unfolding emit_bytes bytes_of
emit4 x = emit_bytes (bytes_of (x % u32_mod))

unfoldable pub emit8 : ℕ → Emitter
unfolding emit_bytes bytes_of
emit8 x = emit_bytes (bytes_of (x % u32_mod) ++ bytes_of (x / u32_mod % u32_mod))

-- `&state->jumps[state->num_jumps++]`, an array of MAX_INSTS elements, and the two assignments
unfoldable pub record_jump : ℕ → Emitter
record_jump target_pc s =
    if ltb (length s.jumps) max_insts
    then ok (record s {
      jumps = s.jumps ++ (record { offset_loc = length s.code; target_pc = target_pc } ∷ []);
    })
    else stop wild

-- `emit_jump_offset`
unfoldable pub emit_jump_offset : ℕ → Emitter
unfolding record_jump emit4 ◌and_next◌
emit_jump_offset target_pc = record_jump target_pc and_next emit4 0
