-- ===== src/Elf.antt =====
-- ubpf/ubpf_loader.c, `ubpf_load_elf`: what it reads of an ELF file. The layouts are those of
-- <elf.h>; a pointer into the file is the offset from its start.
pub mod Parts
pub mod Sections
pub mod MapTables
pub mod Relocate
pub mod Load
pub mod Sample
mod Tests
use bpfabric.Prelude.{ℕ, zero, suc, ◌+◌, ◌*◌, ◌/◌, ◌%◌, Bool, true, false, not, ◌&&◌, List, [], ◌∷◌}
use bpfabric.Prelude.{Option, none, some, ltb, length, drop}
use bpfabric.Prelude.Words.{u32_mod, add64}
use bpfabric.Prelude.Bytes.{read_at}

-- The messages of `ubpf_load_elf`, without those of `ubpf_load`.
pub data ElfError : Type 0 where
  no_header wrong_magic wrong_class wrong_byte_order wrong_version wrong_os_abi : ElfError
  wrong_type wrong_machine too_many_sections bad_section_header bad_section : ElfError
  no_table no_text no_memory bad_symbol_table bad_string_table bad_symbol_index : ElfError
  bad_symbol_name bad_relocation_offset bad_relocation_inst no_map no_function : ElfError
  bad_relocation_type : ElfError

-- A part of the loader has a value, jumps to `error`, or reads or writes outside the objects that
-- it has pointers to.
pub data Part {ℓ} (A : Type ℓ) : Type ℓ where
  fine : A → Part A
  error : ElfError → Part A
  wild : Part A

infixl 5 ◌>>=◌
abbrev pub ◌>>=◌ {ℓ κ} : {A : Type ℓ} {B : Type κ} → Part A → (A → Part B) → Part B
fine a >>= f = f a
error e >>= f = error e
wild >>= f = wild

infixl 5 ◌>>◌
abbrev pub ◌>>◌ {ℓ} : {B : Type ℓ} → Part (Unit {0}) → Part B → Part B
m >> k = m >>= λ _. k

-- `if (!ok) { *errmsg = e; goto error; }`
abbrev pub require : Bool → ElfError → Part (Unit {0})
require true e = fine tt
require false e = error e

-- A pointer that the code follows.
abbrev pub follow {ℓ} : {A : Type ℓ} → Option A → Part A
follow none = wild
follow (some a) = fine a

-- `bounds_check`: the range is inside the n bytes and does not wrap.
unfoldable pub fits : ℕ → ℕ → ℕ → Bool
unfolding add64
fits n off size = not (ltb n (add64 off size)) && not (ltb (add64 off size) off)

-- A little-endian number.
unfoldable pub le : List ℕ → ℕ
le [] = 0
le (b ∷ bs) = b + 0x100 * le bs

-- The field of n bytes at an offset.
unfoldable pub field : List ℕ → ℕ → ℕ → ℕ
unfolding le read_at
field file off n = le (read_at off n file)

-- The fields of `Elf64_Ehdr` that are read; the header stands at the start of the file.
pub record Ehdr : Type 0 where
  pub e_type : ℕ
  pub e_machine : ℕ
  pub e_shoff : ℕ
  pub e_shentsize : ℕ
  pub e_shnum : ℕ

unfoldable pub ehdr_of : List ℕ → Ehdr
unfolding field
ehdr_of file = record {
  e_type = field file 16 2;
  e_machine = field file 18 2;
  e_shoff = field file 40 8;
  e_shentsize = field file 58 2;
  e_shnum = field file 60 2;
}

-- The fields of `Elf64_Shdr` that are read.
pub record Shdr : Type 0 where
  pub sh_name : ℕ
  pub sh_type : ℕ
  pub sh_flags : ℕ
  pub sh_offset : ℕ
  pub sh_size : ℕ
  pub sh_link : ℕ
  pub sh_info : ℕ

unfoldable pub shdr_at : List ℕ → ℕ → Shdr
unfolding field
shdr_at file off = record {
  sh_name = field file off 4;
  sh_type = field file (off + 4) 4;
  sh_flags = field file (off + 8) 8;
  sh_offset = field file (off + 24) 8;
  sh_size = field file (off + 32) 8;
  sh_link = field file (off + 40) 4;
  sh_info = field file (off + 44) 4;
}

-- The fields of `Elf64_Sym` that are read.
pub record Symbol : Type 0 where
  pub st_name : ℕ
  pub st_shndx : ℕ
  pub st_value : ℕ

abbrev pub symbol_size : ℕ
symbol_size = 24

unfoldable pub symbol_at : List ℕ → ℕ → Symbol
unfolding field
symbol_at file off = record {
  st_name = field file off 4;
  st_shndx = field file (off + 6) 2;
  st_value = field file (off + 8) 8;
}

-- `Elf64_Rel`, with ELF64_R_SYM and ELF64_R_TYPE of `r_info`.
pub record Relocation : Type 0 where
  pub r_offset : ℕ
  pub r_sym : ℕ
  pub r_type : ℕ

abbrev pub relocation_size : ℕ
relocation_size = 16

unfoldable pub relocation_at : List ℕ → ℕ → Relocation
unfolding field
relocation_at file off = record {
  r_offset = field file off 8;
  r_sym = field file (off + 8) 8 / u32_mod;
  r_type = field file (off + 8) 8 % u32_mod;
}

-- `struct section`
pub record Section : Type 0 where
  pub shdr : Shdr
  pub data_at : ℕ
  pub size : ℕ

-- At most n bytes of a string, up to its first zero byte, as `strncpy` reads them: past the last
-- byte of the file the pointer is wild.
unfoldable pub string_from : ℕ → List ℕ → Part (List ℕ)
string_from zero bytes = fine []
string_from (suc n) [] = wild
string_from (suc n) (zero ∷ bytes) = fine []
string_from (suc n) (suc b ∷ bytes) = do s ← string_from n bytes; fine (suc b ∷ s)

unfoldable pub string_at : List ℕ → ℕ → ℕ → Part (List ℕ)
unfolding string_from
string_at file n off = string_from n (drop off file)
