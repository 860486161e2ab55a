-- ===== src/Elf/Relocate/Kept.antt =====
-- The relocations of `ubpf_load_elf` keep the size of the text, and it stays a sequence of bytes.
use bpfabric.Prelude.{ℕ, zero, suc, ◌+◌, ◌*◌, ◌/◌, ◌%◌, ◌≡◌, arith, ◌∙◌}
use bpfabric.Prelude.{
  Bool, ◌&&◌, List, [], ◌∷◌, Option, none, some, length, get_elem?, leb, ltb, ◌==◌, if◌then◌else◌,
  Bool-cases, inl, inr,
}
use bpfabric.Prelude.Words.{u32_mod, add64}
use bpfabric.Prelude.Bytes.{overlay, write_at, length-write_at}
use bpfabric.Maps.Attr.{bytes_of}
use bpfabric.Maps.Ght.{Ght}
use bpfabric.Maps.Registry.{Maps}
use bpfabric.Vm.Code.{Vm, lookup_registered_function}
use bpfabric.Vm.Code.Load.{AreBytes}
use bpfabric.Tables.{find_table}
use bpfabric.Elf.{
  fine, require, follow, Symbol, Relocation, Section, string_at, symbol_at, symbol_size,
  relocation_at, relocation_size, bad_symbol_index, bad_symbol_name, bad_relocation_offset,
  bad_symbol_table, bad_string_table,
}
use bpfabric.Elf.Parts.{After, After-bind, After-any}
use bpfabric.Elf.Sections.{Image, sht_rel}
use bpfabric.Elf.MapTables.{num_syms}
use bpfabric.Elf.Relocate.{
  poke, store_fd, store_address, relocate_string, store_function, relocate_call, relocate_map,
  relocate_by_type, relocate, relocate_entries, relocate_section, relocate_all, inst_index,
  require_lddw, found_fd,
}

overlay-AreBytes : (src dst : List ℕ) → AreBytes src → AreBytes dst → AreBytes (overlay src dst)
unfolding overlay
overlay-AreBytes [] dst h k = k
overlay-AreBytes (s ∷ src) [] h k = tt
overlay-AreBytes (s ∷ src) (d ∷ dst) h k = (h.0, overlay-AreBytes src dst h.1 k.1)

write_at-AreBytes :
    (off : ℕ) (src dst : List ℕ) → AreBytes src → AreBytes dst → AreBytes (write_at off src dst)
unfolding write_at
write_at-AreBytes zero src dst h k = overlay-AreBytes src dst h k
write_at-AreBytes (suc off) src [] h k = tt
write_at-AreBytes (suc off) src (d ∷ dst) h k = (k.0, write_at-AreBytes off src dst h k.1)

pub bytes_of-AreBytes : (x : ℕ) → AreBytes (bytes_of x)
unfolding bytes_of
bytes_of-AreBytes x = ground arith

-- A text of n bytes.
abbrev pub IsText : ℕ → List ℕ → Type 0
IsText n text = (length text ≡ n) × AreBytes text

poke-IsText :
    (n off : ℕ) (bytes text : List ℕ)
    → AreBytes bytes
    → IsText n text
    → After (IsText n) (poke off bytes text)
unfolding poke
poke-IsText n off bytes text b t = elim (Bool-cases (leb (off + length bytes) (length text))) [
  | inl e ↦ rw e (length-write_at off bytes text ∙ t.0, write_at-AreBytes off bytes text b t.1)
  | inr e ↦ rw e tt
]

poke-bytes_of :
    (n off x : ℕ) (text : List ℕ) → IsText n text → After (IsText n) (poke off (bytes_of x) text)
poke-bytes_of n off x text t = poke-IsText n off (bytes_of x) text (bytes_of-AreBytes x) t

store_fd-IsText :
    (n idx fd : ℕ) (text : List ℕ) → IsText n text → After (IsText n) (store_fd idx fd text)
unfolding store_fd
store_fd-IsText n idx fd text t =
    After-any (IsText n) (follow (get_elem? text (8 * idx + 1))) _ λ registers.
      After-bind (IsText n) (IsText n) (poke (8 * idx + 1) ((registers % 16 + 16) ∷ []) text) _
        (poke-IsText n (8 * idx + 1) ((registers % 16 + 16) ∷ []) text (omega arith, tt) t)
        λ text' t'. poke-bytes_of n (8 * idx + 4) fd text' t'

store_address-IsText :
    (n idx address : ℕ) (text : List ℕ)
    → IsText n text
    → After (IsText n) (store_address idx address text)
unfolding store_address
store_address-IsText n idx address text t =
    After-bind (IsText n) (IsText n) (poke (8 * idx + 4) (bytes_of (address % u32_mod)) text) _
      (poke-bytes_of n (8 * idx + 4) (address % u32_mod) text t)
      λ text' t'. poke-bytes_of n (8 * ((idx + 1) % u32_mod) + 4) (address / u32_mod) text' t'

relocate_string-IsText :
    (n base : ℕ) (sections : List Section) (r : Relocation) (sym : Symbol) (text : List ℕ)
    → IsText n text
    → After (IsText n) (relocate_string base sections r sym text)
unfolding relocate_string
relocate_string-IsText n base sections r sym text t =
    After-any (IsText n) (require_lddw (inst_index r) text) _ λ u.
      After-any (IsText n) (follow (get_elem? sections sym.st_shndx)) _
        λ rodata. store_address-IsText n (inst_index r) _ text t

store_function-IsText :
    (n : ℕ) (r : Relocation) (text : List ℕ) (o : Option ℕ)
    → IsText n text
    → After (IsText n) (store_function r text o)
unfolding store_function
store_function-IsText n r text none t = tt
store_function-IsText n r text (some idx) t = poke-bytes_of n (add64 r.r_offset 4) idx text t

relocate_call-IsText :
    (n : ℕ) (file : List ℕ) (vm : Vm) (r : Relocation) (name_at : ℕ) (text : List ℕ)
    → IsText n text
    → After (IsText n) (relocate_call file vm r name_at text)
unfolding relocate_call
relocate_call-IsText n file vm r name_at text t =
    After-any (IsText n) (string_at file (length file) name_at) _
      λ name. store_function-IsText n r text (lookup_registered_function vm name) t

module _ (g : Ght) (n base : ℕ) (file : List ℕ) (image : Image) (vm : Vm) (maps : Maps g) where
  relocate_map-IsText :
      (r : Relocation) (name_at : ℕ) (text : List ℕ)
      → IsText n text
      → After (IsText n) (relocate_map g file maps vm.tables r name_at text)
  unfolding relocate_map
  relocate_map-IsText r name_at text t =
      After-any (IsText n) (require_lddw (inst_index r) text) _ λ u.
        After-any (IsText n) (string_at file 31 name_at) _ λ name.
          After-any (IsText n) (found_fd g (find_table g maps vm.tables name)) _
            λ fd. store_fd-IsText n (inst_index r) fd text t

  relocate_by_type-IsText :
      (r : Relocation) (sym : Symbol) (name_at : ℕ) (text : List ℕ)
      → IsText n text
      → After (IsText n) (relocate_by_type g base file image vm maps r sym name_at text)
  unfolding relocate_by_type
  relocate_by_type-IsText r sym name_at text t =
      elim (Bool-cases (r.r_type == 1 && sym.st_shndx == image.found.maps_idx)) [
        | inl e ↦ rw e (relocate_map-IsText r name_at text t)
        | inr e ↦ rw e (elim (Bool-cases (r.r_type == 1)) [
          | inl e1 ↦ rw e1 (relocate_string-IsText n base image.sections r sym text t)
          | inr e1 ↦ rw e1 (elim (Bool-cases (r.r_type == 2)) [
            | inl e2 ↦ rw e2 (relocate_call-IsText n file vm r name_at text t)
            | inr e2 ↦ rw e2 tt
          ])
        ])
      ]

  relocate-IsText :
      (symtab strtab : Section) (r : Relocation) (text : List ℕ)
      → IsText n text
      → After (IsText n) (relocate g base file image vm maps symtab strtab r text)
  unfolding relocate
  relocate-IsText symtab strtab r text t =
      let sym = symbol_at file (symtab.data_at + r.r_sym * symbol_size) in
      After-any (IsText n) (require (ltb r.r_sym (num_syms symtab)) bad_symbol_index) _ λ u.
        After-any (IsText n) (require (ltb sym.st_name strtab.size) bad_symbol_name) _ λ u.
          After-any (IsText n)
            (require (leb (add64 r.r_offset 8) (length text)) bad_relocation_offset)
            (λ u.
              relocate_by_type g base file image vm maps r sym (strtab.data_at + sym.st_name) text)
            λ u. relocate_by_type-IsText r sym (strtab.data_at + sym.st_name) text t

  relocate_entries-IsText :
      (symtab strtab rel : Section) (k j : ℕ) (text : List ℕ)
      → IsText n text
      → After (IsText n) (relocate_entries g base file image vm maps symtab strtab rel k j text)
  unfolding relocate_entries
  relocate_entries-IsText symtab strtab rel zero j text t = t
  relocate_entries-IsText symtab strtab rel (suc k) j text t =
      let r = relocation_at file (rel.data_at + j * relocation_size) in
      After-bind (IsText n) (IsText n) (relocate g base file image vm maps symtab strtab r text) _
        (relocate-IsText symtab strtab r text t)
        λ text' t'. relocate_entries-IsText symtab strtab rel k (j + 1) text' t'

  relocate_section-IsText :
      (rel : Section) (text : List ℕ)
      → IsText n text
      → After (IsText n) (relocate_section g base file image vm maps rel text)
  unfolding relocate_section
  relocate_section-IsText rel text t =
      let known : Section → Bool = λ sec. ltb sec.shdr.sh_link (length image.sections) in
      After-any (IsText n) (require (known rel) bad_symbol_table) _ λ u.
        After-any (IsText n) (follow (get_elem? image.sections rel.shdr.sh_link)) _ λ symtab.
          After-any (IsText n) (require (known symtab) bad_string_table) _ λ u.
            After-any (IsText n) (follow (get_elem? image.sections symtab.shdr.sh_link)) _ λ strtab.
              relocate_entries-IsText symtab strtab rel (rel.size / relocation_size) 0 text t

  pub relocate_all-IsText :
      (text_shndx : ℕ) (rels : List Section) (text : List ℕ)
      → IsText n text
      → After (IsText n) (relocate_all g base file image vm maps text_shndx rels text)
  unfolding relocate_all
  relocate_all-IsText text_shndx [] text t = t
  relocate_all-IsText text_shndx (rel ∷ rels) text t =
      let chosen = rel.shdr.sh_type == sht_rel && rel.shdr.sh_info == text_shndx in
      After-bind (IsText n) (IsText n)
        (if chosen then relocate_section g base file image vm maps rel text else fine text) _
        (elim (Bool-cases chosen) [
          | inl e ↦ rw e (relocate_section-IsText rel text t)
          | inr e ↦ rw e t
        ])
        λ text' t'. relocate_all-IsText text_shndx rels text' t'
