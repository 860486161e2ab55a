-- ===== src/Elf/MapTables.antt =====
-- ubpf/ubpf_loader.c, `ubpf_load_elf`: the loop over the symbols that creates a table for each map
-- definition.
pub mod Listed
pub mod Loop
use bpfabric.Prelude.{ℕ, zero, suc, ◌+◌, ◌-◌, ◌*◌, ◌/◌, ◌%◌, Bool, true, false, ◌||◌, List, [], ◌∷◌}
use bpfabric.Prelude.{Option, none, some, ltb, leb, ◌==◌, if◌then◌else◌, length, get_elem?}
use bpfabric.Prelude.Words.{u32_mod}
use bpfabric.Maps.Ght.{Ght}
use bpfabric.Maps.Registry.{Call, done, crash, Maps, create_map, update_elem}
use bpfabric.Tables.{TableEntry, name_size, name_buffer, entry_bytes, find_table}
use bpfabric.Elf.{
  Part, fine, error, wild, ◌>>=◌, follow, ElfError, no_table, field, Symbol, symbol_at, symbol_size,
  Section, string_at,
}
use bpfabric.Elf.Sections.{Image}

-- `struct bpf_map_def`; `map_flags` is not read.
pub record MapDef : Type 0 where
  pub map_type : ℕ
  pub key_size : ℕ
  pub value_size : ℕ
  pub max_entries : ℕ

abbrev pub map_def_size : ℕ
map_def_size = 20

unfoldable pub map_def_at : List ℕ → ℕ → Part MapDef
unfolding field
map_def_at file off =
    if leb (off + map_def_size) (length file)
    then fine (record {
      map_type = field file off 4;
      key_size = field file (off + 4) 4;
      value_size = field file (off + 8) 4;
      max_entries = field file (off + 12) 4;
    })
    else wild

-- `maps_defs[sym->st_value / sizeof(struct bpf_map_def)]`; the index is converted to an `int`, so
-- that it can be negative.
unfoldable pub map_def_of : List ℕ → ℕ → ℕ → Part MapDef
unfolding map_def_at
map_def_of file base st_value =
    let idx = st_value / map_def_size % u32_mod in
    if ltb idx 0x8000_0000
    then map_def_at file (base + idx * map_def_size)
    else if leb ((u32_mod - idx) * map_def_size) base
    then map_def_at file (base - (u32_mod - idx) * map_def_size)
    else wild

-- Whether the allocations for the i-th symbol succeed: that of `tab_entry`, those of the new map and
-- those of its entry in the table of tables.
pub record Rooms : Type 0 where
  pub tab_entry : ℕ → Bool
  pub new_map : ℕ → Bool
  pub new_entry : ℕ → Bool

-- The name and the definition of the table of a symbol.
pub record Declared : Type 0 where
  pub name : List ℕ
  pub def : MapDef

unfoldable pub declared : List ℕ → ℕ → Section → Symbol → Part Declared
unfolding map_def_of string_at
declared file strings sec sym = do
  def ← map_def_of file sec.data_at sym.st_value
  name ← string_at file (name_size - 1) (strings + sym.st_name)
  fine (record { name = name; def = def })

-- The number of symbols of a symbol table, a `uint32_t`.
unfoldable pub num_syms : Section → ℕ
num_syms symtab = symtab.size / symbol_size % u32_mod

-- The table that a symbol of the section of map definitions declares.
unfoldable pub declared_table : List ℕ → Image → Symbol → Part Declared
unfolding declared
declared_table file image sym = do
  strings ← follow image.strings
  sec ← follow (get_elem? image.sections sym.st_shndx)
  declared file strings sec sym

-- What becomes of the loop: it goes on or jumps to `error`, with the maps as they are then; or it
-- follows a wild pointer.
pub data Creation {ℓ} (M : Type ℓ) : Type ℓ where
  goes_on : M → Creation M
  stops : ElfError → M → Creation M
  strays : Creation M

module _ (g : Ght) where
  unfoldable pub listed : Call (Bool × Maps g) → Creation (Maps g)
  listed crash = strays
  listed (done (b, maps)) = goes_on maps

  -- From the result of `bpf_create_map` on.
  unfoldable pub list_table : Bool → ℕ → Declared → Call (Option ℕ × Maps g) → Creation (Maps g)
  unfolding listed update_elem name_buffer entry_bytes
  list_table room tables d crash = strays
  list_table room tables d (done (none, maps)) = stops no_table maps
  list_table room tables d (done (some fd, maps)) =
      let e : TableEntry = record {
        fd = fd;
        table_type = d.def.map_type;
        key_size = d.def.key_size;
        value_size = d.def.value_size;
        max_entries = d.def.max_entries;
      } in
      listed (update_elem g room maps tables (name_buffer d.name) (entry_bytes e) 0)

  -- `if (ret == -1)` from the result of the look-up on.
  unfoldable pub create_missing :
      Rooms → ℕ → ℕ → Declared → Maps g → Call (Option TableEntry) → Creation (Maps g)
  unfolding list_table create_map
  create_missing rooms i tables d maps crash = strays
  create_missing rooms i tables d maps (done (some e)) = goes_on maps
  create_missing rooms i tables d maps (done none) =
      if rooms.tab_entry i
      then list_table (rooms.new_entry i) tables d (
          create_map g (rooms.new_map i) maps d.def.map_type d.def.key_size d.def.value_size
            d.def.max_entries)
      else strays

  unfoldable pub create_declared : Rooms → ℕ → ℕ → Maps g → Part Declared → Creation (Maps g)
  unfolding create_missing find_table
  create_declared rooms i tables maps wild = strays
  create_declared rooms i tables maps (error e) = stops e maps
  create_declared rooms i tables maps (fine d) =
      create_missing rooms i tables d maps (find_table g maps tables d.name)

  -- The body of the loop: the table of the i-th symbol, where it is a map definition.
  unfoldable pub create_table : Rooms → List ℕ → Image → ℕ → ℕ → Symbol → Maps g → Creation (Maps g)
  unfolding create_declared declared_table
  create_table rooms file image tables i sym maps =
      if sym.st_shndx == image.found.maps_idx
      then create_declared rooms i tables maps (declared_table file image sym)
      else goes_on maps

  -- The loop from the i-th symbol on, for so many more symbols.
  unfoldable pub create_tables :
      Rooms → List ℕ → Image → ℕ → Section → ℕ → ℕ → Creation (Maps g) → Creation (Maps g)
  unfolding create_table symbol_at
  create_tables rooms file image tables symtab zero i c = c
  create_tables rooms file image tables symtab (suc n) i strays = strays
  create_tables rooms file image tables symtab (suc n) i (stops e maps) = stops e maps
  create_tables rooms file image tables symtab (suc n) i (goes_on maps) =
      create_tables rooms file image tables symtab n (i + 1) (
        create_table rooms file image tables i (symbol_at file (symtab.data_at + i * symbol_size))
          maps)

  unfoldable pub create_from :
      Rooms → List ℕ → Image → ℕ → Maps g → Option Section → Creation (Maps g)
  unfolding create_tables num_syms
  create_from rooms file image tables maps none = strays
  create_from rooms file image tables maps (some symtab) =
      create_tables rooms file image tables symtab (num_syms symtab) 0 (goes_on maps)

  -- `if (symtab_idx != 0 && maps_idx != 0)`
  unfoldable pub create_all : Rooms → List ℕ → Image → ℕ → Maps g → Creation (Maps g)
  unfolding create_from
  create_all rooms file image tables maps =
      if image.found.symtab_idx == 0 || image.found.maps_idx == 0
      then goes_on maps
      else create_from rooms file image tables maps
          (get_elem? image.sections image.found.symtab_idx)
