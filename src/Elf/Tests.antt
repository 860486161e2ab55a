-- ===== src/Elf/Tests.antt =====
-- `ubpf_load_elf` on a small file: a program that loads the address of a string and exits; and the
-- loop over the map definitions on a file that declares one table.
use bpfabric.Prelude.{ℕ, zero, suc, ◌+◌, ◌%◌, ◌<◌, ◌≡◌, refl, arith}
use bpfabric.Prelude.{none, some, List, [], ◌∷◌, length, replicate, get_elem?, set, ◌-◌}
use bpfabric.Prelude.Words.{u64_mod, u32_mod}
use bpfabric.Prelude.Bytes.{bytes_eq}
use bpfabric.Ebpf.{Inst}
use bpfabric.Ebpf.{decode}
use bpfabric.Maps.Registry.{Maps, no_maps, done}
use bpfabric.Maps.Tests.ListTable.{list_table}
use bpfabric.Vm.Outcome.{Post}
use bpfabric.Vm.Memory.{Regions, stack_size}
use bpfabric.Vm.Exec.{ExtFunc, run, start}
use bpfabric.Vm.Exec.Registers.{FuncsFit}
use bpfabric.Vm.Safety.Contained.{OnCode, IsContained, EndsInExit}
use bpfabric.Vm.Validate.{max_ext_funcs}
use bpfabric.Vm.Code.{Vm, insts_of, program_of, function_at}
use bpfabric.Tables.{TableEntry, name_size, find_table}
use bpfabric.Elf.Relocate.{relocate_map}
use bpfabric.Elf.Relocate.Insts.{relocate_map-sets}
use bpfabric.Elf.{string_at, Relocation, Part, fine, Shdr, Section, symbol_at}
use bpfabric.Elf.Sample.{
  object_file, relocated_code, all_room, new_vm, file_vm, object_file-loads, object_file-AreBytes,
  first_maps, first_maps-IsTableOfTables,
}
use bpfabric.Elf.Sections.{Image, parse}
use bpfabric.Elf.Sections.InFile.{IsParsed, parse-IsParsed}
use bpfabric.Elf.MapTables.{Declared, declared_table, num_syms, Creation, goes_on, create_all}
use bpfabric.Elf.MapTables.Listed.{Ends, Grows, IsListed}
use bpfabric.Elf.MapTables.Loop.{Declares, create_all-Grows, create_all-IsListed}
use bpfabric.Elf.Load.Runs.{LoadsElf, load_elf-LoadsElf, load_elf-run}

-- The sections of the file.
abbrev parsed_image : Part Image → Image
parsed_image (fine image) = image
parsed_image _ = record {
  sections = [];
  strings = none;
  found = record { symtab_idx = 0; maps_idx = 0 };
}

object_file-parsed : parse object_file ≡ fine (parsed_image (parse object_file))
unfolding parse bytes_eq
object_file-parsed = refl

parse-IsParsed_example : IsParsed object_file (parsed_image (parse object_file))
parse-IsParsed_example =
    parse-IsParsed object_file (parsed_image (parse object_file)) object_file-AreBytes (omega arith)
      object_file-parsed

load_elf-LoadsElf_example :
    LoadsElf list_table all_room 0x100001000 object_file new_vm file_vm
      (no_maps list_table)
      (no_maps list_table)
load_elf-LoadsElf_example =
    load_elf-LoadsElf list_table all_room 0x100001000 object_file new_vm file_vm
      (no_maps list_table) (no_maps list_table) object_file-AreBytes (omega arith) object_file-loads

abbrev regions : Regions
regions = record { mem = 0x1000; mem_len = 100; stack = 0x10_0000 }

no_function : (n k : ℕ) (f : ExtFunc) → function_at (replicate n none) k ≡ some f → ⊥
unfolding function_at
no_function zero k f e = absurd (cc)
no_function (suc n) zero f e = absurd (cc)
no_function (suc n) (suc k) f e = no_function n k f e

file_vm-FuncsFit : FuncsFit (program_of file_vm (insts_of relocated_code) regions)
file_vm-FuncsFit k f e = absurd (no_function max_ext_funcs k f e)

file_vm-EndsInExit : EndsInExit (insts_of relocated_code)
unfolding insts_of decode
file_vm-EndsInExit = record {
  last = record { opcode = 0x95; dst = 0; src = 0; offset = 0; imm = 0 };
  found = refl;
  is_exit = refl;
}

load_elf-run_example :
    Post
      (λ m.
        OnCode (insts_of relocated_code) m
        × (m.pc < length (insts_of relocated_code))
        × (m.regs 10 ≡ (0x10_0000 + stack_size) % u64_mod))
      IsContained
      (run
        (program_of file_vm (insts_of relocated_code) regions)
        100
        (start (program_of file_vm (insts_of relocated_code) regions) (λ r. 0) (λ a. 0)))
load_elf-run_example =
    load_elf-run list_table all_room 0x100001000 object_file new_vm file_vm (no_maps list_table)
      (no_maps list_table) (insts_of relocated_code) regions (λ r. 0) (λ a. 0) 100
      object_file-AreBytes (omega arith) refl object_file-loads refl file_vm-FuncsFit
      file_vm-EndsInExit (omega arith) (λ r. omega arith) (λ a. omega arith)

-- A file of one map definition, the string "t", and one symbol for it.
abbrev map_file : List ℕ
map_file =
    2 ∷ 0 ∷ 0 ∷ 0 ∷ 4 ∷ 0 ∷ 0 ∷ 0 ∷ 8 ∷ 0 ∷ 0 ∷ 0 ∷ 16 ∷ 0 ∷ 0 ∷ 0 ∷ 0 ∷ 0 ∷ 0 ∷ 0 ∷ 0x74 ∷ 0 ∷ 0
    ∷ 0 ∷ 0 ∷ 0 ∷ 0 ∷ 0 ∷ 0 ∷ 0 ∷ 1 ∷ 0 ∷ 0 ∷ 0 ∷ 0 ∷ 0 ∷ 0 ∷ 0 ∷ 0 ∷ 0 ∷ 0 ∷ 0 ∷ 0 ∷ 0 ∷ 0 ∷ 0 ∷ 0
    ∷ 0 ∷ []

abbrev shdr_of_type : ℕ → ℕ → ℕ → Shdr
shdr_of_type t off size = record {
  sh_name = 0;
  sh_type = t;
  sh_flags = 0;
  sh_offset = off;
  sh_size = size;
  sh_link = 0;
  sh_info = 0;
}

abbrev section_of_type : ℕ → ℕ → ℕ → Section
section_of_type t off size = record { shdr = shdr_of_type t off size; data_at = off; size = size }

abbrev map_image : Image
map_image = record {
  sections =
      section_of_type 0 0 0
      ∷ section_of_type 1 0 20
      ∷ section_of_type 2 24 24
      ∷ section_of_type 3 20 2
      ∷ [];
  strings = some 20;
  found = record { symtab_idx = 2; maps_idx = 1 };
}

abbrev maps_of : Creation (Maps list_table) → Maps list_table
maps_of (goes_on maps) = maps
maps_of _ = []

abbrev with_table : Maps list_table
with_table = maps_of (create_all list_table all_room.tables map_file map_image 0 first_maps)

with_table_goes :
    create_all list_table all_room.tables map_file map_image 0 first_maps ≡ goes_on with_table
unfolding create_all
with_table_goes = refl

create_all-Grows_example :
    Ends
      (Grows list_table 0 first_maps)
      (create_all list_table all_room.tables map_file map_image 0 first_maps)
create_all-Grows_example =
    create_all-Grows list_table all_room.tables map_file map_image 0 first_maps (λ i. refl)
      first_maps-IsTableOfTables

-- The table "t": an array of 16 values of 8 bytes.
abbrev one_table : Declared
one_table = record {
  name = 0x74 ∷ [];
  def = record { map_type = 2; key_size = 4; value_size = 8; max_entries = 16 };
}

one_table-Declares : Declares map_file map_image one_table
unfolding num_syms symbol_at declared_table
one_table-Declares = record {
  symtab = section_of_type 2 24 24;
  index = 0;
  has_symtab = λ e. absurd (omega arith);
  has_maps = λ e. absurd (omega arith);
  found = refl;
  inside = omega arith;
  of_maps = refl;
  def = refl;
}

create_all-IsListed_example : IsListed list_table 0 with_table (0x74 ∷ [])
create_all-IsListed_example =
    create_all-IsListed list_table all_room.tables map_file map_image 0 first_maps with_table
      one_table (λ i. refl) first_maps-IsTableOfTables one_table-Declares with_table_goes

-- A call of the function 0, which is named "f", and a map reference, at the start of a text.
abbrev named_vm : Vm
named_vm = record new_vm { ext_func_names = some (0x66 ∷ []) ∷ [] }

abbrev at_start : Relocation
at_start = record { r_offset = 0; r_sym = 0; r_type = 2 }

abbrev call_text : List ℕ
call_text = 0x85 ∷ 0 ∷ 0 ∷ 0 ∷ 0xff ∷ 0xff ∷ 0xff ∷ 0xff ∷ []

abbrev call_done : List ℕ
call_done = 0x85 ∷ 0 ∷ 0 ∷ 0 ∷ 0 ∷ 0 ∷ 0 ∷ 0 ∷ []

abbrev map_text : List ℕ
map_text = 0x18 ∷ 1 ∷ 0 ∷ 0 ∷ 0 ∷ 0 ∷ 0 ∷ 0 ∷ []

abbrev map_done : List ℕ
map_done = 0x18 ∷ 0x11 ∷ 0 ∷ 0 ∷ 1 ∷ 0 ∷ 0 ∷ 0 ∷ []

relocate_map-sets_example :
    (name : List ℕ) × (e : TableEntry) × (i : Inst) × (string_at (0x74 ∷ 0 ∷ []) (name_size - 1) 0
      ≡ fine name)
    × (find_table list_table with_table 0 name ≡ done (some e))
    × (get_elem? (insts_of map_text) 0 ≡ some i)
    × (i.opcode ≡ 0x18)
    × (insts_of map_done ≡ set (insts_of map_text) 0 (record i { src = 1; imm = e.fd % u32_mod }))
unfolding relocate_map create_all bytes_eq
relocate_map-sets_example =
    relocate_map-sets list_table (0x74 ∷ 0 ∷ []) with_table 0 at_start 0 0 map_text map_done refl
      (omega arith) (omega arith) refl
