-- ===== src/Elf/Load.antt =====
-- ubpf/ubpf_loader.c, `ubpf_load_elf`: the whole function.
pub mod Runs
use bpfabric.Prelude.{
  ℕ, ◌%◌, Bool, true, false, not, List, ◌==◌, if◌then◌else◌, get_elem?, take, length,
}
use bpfabric.Prelude.Words.{u32_mod}
use bpfabric.Prelude.Bytes.{read_at}
use bpfabric.Maps.Ght.{Ght}
use bpfabric.Maps.Registry.{Maps}
use bpfabric.Vm.Code.{Vm, LoadResult, load}
use bpfabric.Elf.{
  Part, fine, error, wild, ◌>>=◌, ◌>>◌, require, follow, ElfError, no_text, no_memory, Section,
}
use bpfabric.Elf.Sections.{Image, parse, find_text}
use bpfabric.Elf.MapTables.{Rooms, Creation, goes_on, stops, strays, create_all}
use bpfabric.Elf.Relocate.{relocate_all}

module _ (g : Ght) where
  -- The copy of the text section, with its relocations; `room` is that of `malloc`.
  unfoldable pub relocated_text : Bool → ℕ → List ℕ → Image → Vm → Maps g → Part (List ℕ)
  unfolding find_text read_at relocate_all
  relocated_text room base file image vm maps = do
    let text_shndx = find_text 0 image.sections
    require (not (text_shndx == 0)) no_text
    text ← follow (get_elem? image.sections text_shndx)
    require room no_memory
    relocate_all g base file image vm maps text_shndx image.sections
        (read_at text.data_at text.size file)

  -- The result of `ubpf_load`, or -1 with a message of the loader's own, with the maps as they are
  -- then; or undefined behaviour.
  pub data ElfResult : Type 0 where
    loads : LoadResult → Maps g → ElfResult
    refuses : ElfError → Maps g → ElfResult
    astray : ElfResult

  -- `ubpf_load(vm, text_copy, size, errmsg)`, whose size is a `uint32_t`.
  unfoldable pub load_text : Bool → Vm → Maps g → Part (List ℕ) → ElfResult
  unfolding load
  load_text room vm maps wild = astray
  load_text room vm maps (error e) = refuses e maps
  load_text room vm maps (fine text) = loads (load room (take (length text % u32_mod) text) vm) maps

  -- The allocations: those of the tables, of the copy of the text and of `ubpf_load`.
  pub record ElfRooms : Type 0 where
    pub tables : Rooms
    pub text_copy : Bool
    pub insts : Bool

  unfoldable pub load_image : ElfRooms → ℕ → List ℕ → Image → Vm → Creation (Maps g) → ElfResult
  unfolding load_text relocated_text
  load_image rooms base file image vm strays = astray
  load_image rooms base file image vm (stops e maps) = refuses e maps
  load_image rooms base file image vm (goes_on maps) =
      load_text rooms.insts vm maps (relocated_text rooms.text_copy base file image vm maps)

  unfoldable pub load_parsed : ElfRooms → ℕ → List ℕ → Vm → Maps g → Part Image → ElfResult
  unfolding load_image create_all
  load_parsed rooms base file vm maps wild = astray
  load_parsed rooms base file vm maps (error e) = refuses e maps
  load_parsed rooms base file vm maps (fine image) =
      load_image rooms base file image vm (create_all g rooms.tables file image vm.tables maps)

  -- `ubpf_load_elf` on a file that stands in memory at the address `base`.
  unfoldable pub load_elf : ElfRooms → ℕ → List ℕ → Vm → Maps g → ElfResult
  unfolding load_parsed parse
  load_elf rooms base file vm maps = load_parsed rooms base file vm maps (parse file)
