-- ===== src/Elf/Relocate.antt =====
-- ubpf/ubpf_loader.c, `ubpf_load_elf`: the relocations, on the copy of the text section.
pub mod Kept
pub mod Writes
pub mod Insts
use bpfabric.Prelude.{
  ℕ, zero, suc, ◌+◌, ◌-◌, ◌*◌, ◌/◌, ◌%◌, Bool, true, false, not, ◌&&◌, List, [], ◌∷◌,
}
use bpfabric.Prelude.{Option, none, some, ltb, leb, ◌==◌, if◌then◌else◌, length, get_elem?, drop}
use bpfabric.Prelude.Words.{u32_mod, add64}
use bpfabric.Prelude.Bytes.{write_at}
use bpfabric.Maps.Attr.{bytes_of}
use bpfabric.Maps.Ght.{Ght}
use bpfabric.Maps.Registry.{Call, done, crash, Maps}
use bpfabric.Vm.Code.{Vm, lookup_registered_function}
use bpfabric.Tables.{TableEntry, name_size, find_table}
use bpfabric.Elf.{
  Part, fine, error, wild, ◌>>=◌, ◌>>◌, require, follow, bad_symbol_table, bad_string_table,
  bad_symbol_index, bad_symbol_name, bad_relocation_offset, bad_relocation_inst, no_map,
  no_function, bad_relocation_type, Symbol, symbol_at, symbol_size, Relocation, relocation_at,
  relocation_size, Section, string_at,
}
use bpfabric.Elf.Sections.{Image, sht_rel}
use bpfabric.Elf.MapTables.{num_syms}

-- A write into the copy of the text: outside the copy it is wild.
unfoldable pub poke : ℕ → List ℕ → List ℕ → Part (List ℕ)
unfolding write_at
poke off bytes text =
    if leb (off + length bytes) (length text) then fine (write_at off bytes text) else wild

-- EBPF_CLS_LD | EBPF_SRC_IMM | EBPF_SIZE_DW, and BPF_PSEUDO_MAP_FD
abbrev pub lddw_opcode : ℕ
lddw_opcode = 0x18

abbrev pub pseudo_map_fd : ℕ
pseudo_map_fd = 1

-- `insn_idx`, an `unsigned int`
unfoldable pub inst_index : Relocation → ℕ
inst_index r = r.r_offset / 8 % u32_mod

-- `insns[insn_idx].opcode` is that of LDDW.
unfoldable pub require_lddw : ℕ → List ℕ → Part (Unit {0})
require_lddw idx text = do
  opcode ← follow (get_elem? text (8 * idx))
  require (opcode == lddw_opcode) bad_relocation_inst

-- `insns[insn_idx].src = 1; insns[insn_idx].imm = fd;`, where `src` is the high half of its byte.
unfoldable pub store_fd : ℕ → ℕ → List ℕ → Part (List ℕ)
unfolding poke bytes_of
store_fd idx fd text = do
  registers ← follow (get_elem? text (8 * idx + 1))
  text' ← poke (8 * idx + 1) ((registers % 16 + 16 * pseudo_map_fd) ∷ []) text
  poke (8 * idx + 4) (bytes_of fd) text'

-- `insns[insn_idx].imm = address; insns[insn_idx+1].imm = address >> 32;`
unfoldable pub store_address : ℕ → ℕ → List ℕ → Part (List ℕ)
unfolding poke bytes_of
store_address idx address text = do
  text' ← poke (8 * idx + 4) (bytes_of (address % u32_mod)) text
  poke (8 * ((idx + 1) % u32_mod) + 4) (bytes_of (address / u32_mod)) text'

-- The string relocation: the address of the symbol, where the file starts at the address `base`.
unfoldable pub relocate_string : ℕ → List Section → Relocation → Symbol → List ℕ → Part (List ℕ)
unfolding inst_index require_lddw store_address add64
relocate_string base sections r sym text = do
  require_lddw (inst_index r) text
  rodata ← follow (get_elem? sections sym.st_shndx)
  store_address (inst_index r) (add64 (base + rodata.data_at) sym.st_value) text

unfoldable pub store_function : Relocation → List ℕ → Option ℕ → Part (List ℕ)
unfolding poke bytes_of add64
store_function r text none = error no_function
store_function r text (some idx) = poke (add64 r.r_offset 4) (bytes_of idx) text

-- `ubpf_lookup_registered_function(vm, sym_name)`; the whole name is read.
unfoldable pub relocate_call : List ℕ → Vm → Relocation → ℕ → List ℕ → Part (List ℕ)
unfolding string_at store_function lookup_registered_function
relocate_call file vm r name_at text = do
  name ← string_at file (length file) name_at
  store_function r text (lookup_registered_function vm name)

module _ (g : Ght) where
  unfoldable pub found_fd : Call (Option TableEntry) → Part ℕ
  found_fd crash = wild
  found_fd (done none) = error no_map
  found_fd (done (some e)) = fine e.fd

  -- The map relocation.
  unfoldable pub relocate_map : List ℕ → Maps g → ℕ → Relocation → ℕ → List ℕ → Part (List ℕ)
  unfolding inst_index require_lddw store_fd string_at found_fd find_table
  relocate_map file maps tables r name_at text = do
    require_lddw (inst_index r) text
    name ← string_at file (name_size - 1) name_at
    fd ← found_fd (find_table g maps tables name)
    store_fd (inst_index r) fd text

  -- The dispatch on the type of a relocation.
  unfoldable pub relocate_by_type :
      ℕ → List ℕ → Image → Vm → Maps g → Relocation → Symbol → ℕ → List ℕ → Part (List ℕ)
  unfolding relocate_map relocate_string relocate_call
  relocate_by_type base file image vm maps r sym name_at text =
      if r.r_type == 1 && sym.st_shndx == image.found.maps_idx
      then relocate_map file maps vm.tables r name_at text
      else if r.r_type == 1
      then relocate_string base image.sections r sym text
      else if r.r_type == 2
      then relocate_call file vm r name_at text
      else error bad_relocation_type

  -- The body of the inner loop: one relocation.
  unfoldable pub relocate :
      ℕ → List ℕ → Image → Vm → Maps g → Section → Section → Relocation → List ℕ → Part (List ℕ)
  unfolding num_syms symbol_at add64 relocate_by_type
  relocate base file image vm maps symtab strtab r text = do
    require (ltb r.r_sym (num_syms symtab)) bad_symbol_index
    let sym = symbol_at file (symtab.data_at + r.r_sym * symbol_size)
    require (ltb sym.st_name strtab.size) bad_symbol_name
    require (leb (add64 r.r_offset 8) (length text)) bad_relocation_offset
    relocate_by_type base file image vm maps r sym (strtab.data_at + sym.st_name) text

  -- The inner loop from the j-th relocation on, for so many more relocations.
  unfoldable pub relocate_entries :
      ℕ
      → List ℕ
      → Image
      → Vm
      → Maps g
      → Section
      → Section
      → Section
      → ℕ
      → ℕ
      → List ℕ
      → Part (List ℕ)
  unfolding relocate relocation_at
  relocate_entries base file image vm maps symtab strtab rel zero j text = fine text
  relocate_entries base file image vm maps symtab strtab rel (suc n) j text = do
    text' ←
        relocate base file image vm maps symtab strtab
          (relocation_at file (rel.data_at + j * relocation_size)) text
    relocate_entries base file image vm maps symtab strtab rel n (j + 1) text'

  -- The sections that a relocation section refers to.
  unfoldable pub relocate_section :
      ℕ → List ℕ → Image → Vm → Maps g → Section → List ℕ → Part (List ℕ)
  unfolding relocate_entries
  relocate_section base file image vm maps rel text = do
    require (ltb rel.shdr.sh_link (length image.sections)) bad_symbol_table
    symtab ← follow (get_elem? image.sections rel.shdr.sh_link)
    require (ltb symtab.shdr.sh_link (length image.sections)) bad_string_table
    strtab ← follow (get_elem? image.sections symtab.shdr.sh_link)
    relocate_entries base file image vm maps symtab strtab rel (rel.size / relocation_size) 0 text

  -- The outer loop over the sections, of which some are left.
  unfoldable pub relocate_all :
      ℕ → List ℕ → Image → Vm → Maps g → ℕ → List Section → List ℕ → Part (List ℕ)
  unfolding relocate_section
  relocate_all base file image vm maps text_shndx [] text = fine text
  relocate_all base file image vm maps text_shndx (rel ∷ rels) text = do
    text' ←
        if rel.shdr.sh_type == sht_rel && rel.shdr.sh_info == text_shndx
        then relocate_section base file image vm maps rel text
        else fine text
    relocate_all base file image vm maps text_shndx rels text'
