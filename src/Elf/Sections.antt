-- ===== src/Elf/Sections.antt =====
-- ubpf/ubpf_loader.c, `ubpf_load_elf`: the checks of the ELF header, the array of sections and the
-- sections that the loader looks for.
pub mod InFile
use bpfabric.Prelude.{ℕ, zero, suc, ◌+◌, ◌*◌, Bool, true, false, ◌&&◌, ◌||◌, List, [], ◌∷◌}
use bpfabric.Prelude.{Option, none, some, leb, ◌==◌, if◌then◌else◌, length, drop, take, get_elem?}
use bpfabric.Prelude.Words.{add64}
use bpfabric.Prelude.Bytes.{bytes_eq}
use bpfabric.Elf.{
  Part, fine, error, wild, ◌>>=◌, ◌>>◌, require, follow, fits, Ehdr, ehdr_of, Shdr, shdr_at,
  Section, no_header, wrong_magic, wrong_class, wrong_byte_order, wrong_version, wrong_os_abi,
  wrong_type, wrong_machine, too_many_sections, bad_section_header, bad_section,
}

-- MAX_SECTIONS, sizeof(Elf64_Ehdr), sizeof(Elf64_Shdr)
abbrev pub max_sections : ℕ
max_sections = 32

abbrev pub ehdr_size : ℕ
ehdr_size = 64

abbrev pub shdr_size : ℕ
shdr_size = 64

-- SHT_PROGBITS, SHT_SYMTAB, SHT_STRTAB, SHT_REL; SHF_ALLOC | SHF_EXECINSTR; EM_BPF
abbrev pub sht_progbits : ℕ
sht_progbits = 1

abbrev pub sht_symtab : ℕ
sht_symtab = 2

abbrev pub sht_strtab : ℕ
sht_strtab = 3

abbrev pub sht_rel : ℕ
sht_rel = 9

abbrev pub text_flags : ℕ
text_flags = 6

abbrev pub em_bpf : ℕ
em_bpf = 0xf7

-- `e_ident[i] == b`
unfoldable pub ident : List ℕ → ℕ → ℕ → Bool
ident file i b = elim (get_elem? file i) [ some x ↦ x == b | none ↦ false ]

-- The checks of the ELF header, in their order: first its size and `e_ident`, then its fields.
unfoldable pub check_ident : List ℕ → Part (Unit {0})
unfolding fits ident
check_ident file = do
  require (fits (length file) 0 ehdr_size) no_header
  require (bytes_eq (take 4 file) (0x7f ∷ 0x45 ∷ 0x4c ∷ 0x46 ∷ [])) wrong_magic
  require (ident file 4 2) wrong_class
  require (ident file 5 1) wrong_byte_order
  require (ident file 6 1) wrong_version
  require (ident file 7 0) wrong_os_abi

unfoldable pub check_fields : Ehdr → Part Ehdr
check_fields h = do
  require (h.e_type == 1) wrong_type
  require (h.e_machine == 0 || h.e_machine == em_bpf) wrong_machine
  require (leb h.e_shnum max_sections) too_many_sections
  fine h

unfoldable pub check_header : List ℕ → Part Ehdr
unfolding check_ident check_fields ehdr_of
check_header file = do check_ident file; check_fields (ehdr_of file)

-- Where the header of a section stands: `ehdr->e_shoff + i*ehdr->e_shentsize`.
unfoldable pub shdr_offset : Ehdr → ℕ → ℕ
unfolding add64
shdr_offset h i = add64 h.e_shoff (i * h.e_shentsize)

unfoldable pub read_section : List ℕ → ℕ → Part Section
unfolding fits shdr_at
read_section file off = do
  require (fits (length file) off shdr_size) bad_section_header
  let shdr = shdr_at file off
  require (fits (length file) shdr.sh_offset shdr.sh_size) bad_section
  fine (record { shdr = shdr; data_at = shdr.sh_offset; size = shdr.sh_size })

-- The loop that fills `sections`, from index i on, for so many more sections.
unfoldable pub read_sections : List ℕ → Ehdr → ℕ → ℕ → Part (List Section)
unfolding read_section shdr_offset
read_sections file h zero i = fine []
read_sections file h (suc n) i = do
  sec ← read_section file (shdr_offset h i)
  secs ← read_sections file h n (i + 1)
  fine (sec ∷ secs)

-- `strings_table`, the data of the last string table; null at first.
unfoldable pub strings_table : Option ℕ → List Section → Option ℕ
strings_table found [] = found
strings_table found (sec ∷ secs) =
    strings_table (if sec.shdr.sh_type == sht_strtab then some sec.data_at else found) secs

-- `strcmp(s, bytes) == 0`, where s has no zero byte.
unfoldable pub strcmp_eq : List ℕ → List ℕ → Part Bool
strcmp_eq s [] = wild
strcmp_eq [] (b ∷ bytes) = fine (b == 0)
strcmp_eq (c ∷ s) (b ∷ bytes) = if c == b then strcmp_eq s bytes else fine false

-- "maps"
abbrev pub maps_name : List ℕ
maps_name = 0x6d ∷ 0x61 ∷ 0x70 ∷ 0x73 ∷ []

-- `symtab_idx` and `maps_idx`
pub record Found : Type 0 where
  pub symtab_idx : ℕ
  pub maps_idx : ℕ

-- One round of the loop that looks for the symbol table and the section of the map definitions.
unfoldable pub look_at : List ℕ → Option ℕ → ℕ → Section → Found → Part Found
unfolding strcmp_eq
look_at file strings i sec f =
    if sec.shdr.sh_type == sht_symtab then fine (record f { symtab_idx = i }) else (do
      table ← follow strings
      same ← strcmp_eq maps_name (drop (table + sec.shdr.sh_name) file)
      fine (if same then record f { maps_idx = i } else f))

unfoldable pub look_from : List ℕ → Option ℕ → ℕ → List Section → Found → Part Found
unfolding look_at
look_from file strings i [] f = fine f
look_from file strings i (sec ∷ secs) f = do
  f' ← look_at file strings i sec f
  look_from file strings (i + 1) secs f'

-- `text_shndx`: the index of the first section of code, 0 where there is none.
unfoldable pub find_text : ℕ → List Section → ℕ
find_text i [] = 0
find_text i (sec ∷ secs) =
    if sec.shdr.sh_type == sht_progbits && sec.shdr.sh_flags == text_flags
    then i
    else find_text (i + 1) secs

-- What the loader knows of the file once it has looked through the sections.
pub record Image : Type 0 where
  pub sections : List Section
  pub strings : Option ℕ
  pub found : Found

unfoldable pub parse : List ℕ → Part Image
unfolding check_header read_sections strings_table look_from
parse file = do
  h ← check_header file
  secs ← read_sections file h h.e_shnum 0
  let strings = strings_table none secs
  found ← look_from file strings 0 secs (record { symtab_idx = 0; maps_idx = 0 })
  fine (record { sections = secs; strings = strings; found = found })
