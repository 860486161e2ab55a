-- ===== src/Elf/MapTables/Loop.antt =====
-- The whole loop of `ubpf_load_elf` over the symbols, in terms of the table of tables.
use bpfabric.Prelude.{ℕ, zero, suc, ◌+◌, ◌*◌, ◌≤◌, ◌<◌, ◌≡◌, ◌≢◌, arith, refl, sym, inl, inr}
use bpfabric.Prelude.{true, false, List, Option, none, some, ◌==◌, ◌||◌, Bool-cases, get_elem?}
use mathlib.Core.Path.{subst}
use bpfabric.Maps.Ght.{Ght}
use bpfabric.Maps.Registry.{Call, done, crash, Maps}
use bpfabric.Maps.Registry.Create.{create_map-Keeps}
use bpfabric.Tables.{TableEntry, find_table}
use bpfabric.Tables.View.{IsTableOfTables}
use bpfabric.Elf.{ElfError, Part, fine, error, wild, Symbol, symbol_at, symbol_size, Section}
use bpfabric.Elf.Sections.{Image}
use bpfabric.Elf.MapTables.{
  Rooms, Declared, declared_table, num_syms, Creation, goes_on, stops, strays, create_missing,
  create_declared, create_table, create_tables, create_from, create_all,
}
use bpfabric.Elf.MapTables.Listed.{
  Ends, Goes, IsListed, Grows, Grows-refl, Grows-trans, kept-IsListed, Steps, created-Steps,
}

-- A symbol of the symbol table that declares a table, with its section of map definitions.
pub record Declares (file : List ℕ) (image : Image) (d : Declared) : Type 0 where
  pub symtab : Section
  pub index : ℕ
  pub has_symtab : image.found.symtab_idx ≢ 0
  pub has_maps : image.found.maps_idx ≢ 0
  pub found : get_elem? image.sections image.found.symtab_idx ≡ some symtab
  pub inside : index < num_syms symtab
  pub of_maps :
      (symbol_at file (symtab.data_at + index * symbol_size)).st_shndx ≡ image.found.maps_idx
  pub def :
      declared_table file image (symbol_at file (symtab.data_at + index * symbol_size)) ≡ fine d

module _ (g : Ght) (tables : ℕ) (rooms : Rooms) (file : List ℕ) (image : Image)
    (roomy : (i : ℕ) → rooms.new_entry i ≡ true) where
  create_missing-Steps :
      (i : ℕ) (maps : Maps g) (d : Declared) (c : Call (Option TableEntry))
      → IsTableOfTables g tables maps
      → find_table g maps tables d.name ≡ c
      → Steps g tables maps d.name (create_missing g rooms i tables d maps c)
  unfolding create_missing
  create_missing-Steps i maps d crash t look = (tt, tt)
  create_missing-Steps i maps d (done (some e)) t look =
      (Grows-refl g tables maps t, record { entry = e; at = look })
  create_missing-Steps i maps d (done none) t look = elim (Bool-cases (rooms.tab_entry i)) [
    | inl e ↦
        rw (e, roomy i)
          (created-Steps g tables maps d _ t look (
            create_map-Keeps g (rooms.new_map i) maps d.def.map_type d.def.key_size d.def.value_size
              d.def.max_entries))
    | inr e ↦ rw e (tt, tt)
  ]

  -- What the step of a symbol has to list.
  abbrev Wanted : Symbol → Maps g → Type 0
  Wanted sym maps =
      (d : Declared)
      → sym.st_shndx ≡ image.found.maps_idx
      → declared_table file image sym ≡ fine d
      → IsListed g tables maps d.name

  create_declared-Wanted :
      (i : ℕ) (maps : Maps g) (p : Part Declared)
      → IsTableOfTables g tables maps
      → Ends (Grows g tables maps) (create_declared g rooms i tables maps p)
        × Goes
            (λ maps'. (d : Declared) → p ≡ fine d → IsListed g tables maps' d.name)
            (create_declared g rooms i tables maps p)
  unfolding create_declared
  create_declared-Wanted i maps wild t = (tt, tt)
  create_declared-Wanted i maps (error e) t = (Grows-refl g tables maps t, tt)
  create_declared-Wanted i maps (fine d) t =
      let steps = create_missing-Steps i maps d _ t refl in (steps.0, goes_for _ d steps.1)
    where
      goes_for :
          (c : Creation (Maps g)) (d : Declared)
          → Goes (λ maps'. IsListed g tables maps' d.name) c
          → Goes (λ maps'. (d' : Declared) → fine d ≡ fine d' → IsListed g tables maps' d'.name) c
      goes_for (goes_on maps') d h = λ d' e. let same : d ≡ d' = cc in rw (← same) h
      goes_for (stops x maps') d h = tt
      goes_for strays d h = tt

  create_table-Wanted :
      (i : ℕ) (sym : Symbol) (maps : Maps g)
      → IsTableOfTables g tables maps
      → Ends (Grows g tables maps) (create_table g rooms file image tables i sym maps)
        × Goes (Wanted sym) (create_table g rooms file image tables i sym maps)
  unfolding create_table
  create_table-Wanted i s maps t = elim (Bool-cases (s.st_shndx == image.found.maps_idx)) [
    | inl e ↦ rw e (
        let steps = create_declared-Wanted i maps (declared_table file image s) t in
        (steps.0, goes_for s _ steps.1))
    | inr e ↦ rw e (Grows-refl g tables maps t, λ d at _. absurd (ground (arith, at, e)))
  ]
    where
      goes_for :
          (sym : Symbol) (c : Creation (Maps g))
          → Goes
              (λ maps'.
                (d : Declared)
                → declared_table file image sym ≡ fine d
                → IsListed g tables maps' d.name)
              c
          → Goes (Wanted sym) c
      goes_for s (goes_on maps') h = λ d at e. h d e
      goes_for s (stops x maps') h = tt
      goes_for s strays h = tt

  -- The symbols from the i-th on, n of them.
  abbrev AllWanted : Section → ℕ → ℕ → Maps g → Type 0
  AllWanted symtab n i maps =
      (k : ℕ) → i ≤ k → k < i + n → Wanted (symbol_at file (symtab.data_at + k * symbol_size)) maps

  -- How the loop ends: what was listed is listed, and where it goes on every table that a symbol
  -- declares is listed.
  abbrev Loops : Maps g → Section → ℕ → ℕ → Creation (Maps g) → Type 0
  Loops maps symtab n i c = Ends (Grows g tables maps) c × Goes (AllWanted symtab n i) c

  -- The first symbol and the others.
  first_and_rest :
      (maps maps1 : Maps g) (symtab : Section) (n i : ℕ) (c : Creation (Maps g))
      → Grows g tables maps maps1
      → Wanted (symbol_at file (symtab.data_at + i * symbol_size)) maps1
      → Loops maps1 symtab n (i + 1) c
      → Loops maps symtab (suc n) i c
  first_and_rest maps maps1 symtab n i (goes_on maps') grows first rest = (
    Grows-trans g tables maps maps1 maps' grows rest.0,
    λ k from to d at e. elim (Bool-cases (k == i)) [
      | inl q ↦
          let here : k ≡ i = ground arith in
          kept-IsListed g tables maps1 maps' d.name rest.0
            (first d (rw (← here) at) (rw (← here) e))
      | inr q ↦ rest.1 k (ground arith) (omega (arith, to)) d at e
    ],
  )
  first_and_rest maps maps1 symtab n i (stops x maps') grows first rest =
      (Grows-trans g tables maps maps1 maps' grows rest.0, tt)
  first_and_rest maps maps1 symtab n i strays grows first rest = (tt, tt)

  stopped :
      (symtab : Section) (n i : ℕ) (x : ElfError) (maps : Maps g)
      → create_tables g rooms file image tables symtab n i (stops x maps) ≡ stops x maps
  unfolding create_tables
  stopped symtab zero i x maps = refl
  stopped symtab (suc n) i x maps = refl

  strayed :
      (symtab : Section) (n i : ℕ)
      → create_tables g rooms file image tables symtab n i strays ≡ strays
  unfolding create_tables
  strayed symtab zero i = refl
  strayed symtab (suc n) i = refl

  -- The rest of the loop after the step of a symbol.
  after_step :
      (symtab : Section) (n i : ℕ) (maps : Maps g) (c : Creation (Maps g))
      → Ends (Grows g tables maps) c
        × Goes (Wanted (symbol_at file (symtab.data_at + i * symbol_size))) c
      → ((maps1 : Maps g)
          → IsTableOfTables g tables maps1
          → Loops maps1 symtab n
              (i + 1)
              (create_tables g rooms file image tables symtab n (i + 1) (goes_on maps1)))
      → Loops maps symtab (suc n) i (create_tables g rooms file image tables symtab n (i + 1) c)
  after_step symtab n i maps (goes_on maps1) h rest =
      first_and_rest maps maps1 symtab n i _ h.0 h.1 (rest maps1 h.0.now)
  after_step symtab n i maps (stops x maps1) h rest =
      rw (stopped symtab n (i + 1) x maps1) (h.0, tt)
  after_step symtab n i maps strays h rest = rw (strayed symtab n (i + 1)) (tt, tt)

  create_tables-Loops :
      (symtab : Section) (n i : ℕ) (maps : Maps g)
      → IsTableOfTables g tables maps
      → Loops maps symtab n i (create_tables g rooms file image tables symtab n i (goes_on maps))
  unfolding create_tables
  create_tables-Loops symtab zero i maps t =
      (Grows-refl g tables maps t, λ k from to d at e. absurd (omega arith))
  create_tables-Loops symtab (suc n) i maps t =
      after_step symtab n i maps _
        (create_table-Wanted i (symbol_at file (symtab.data_at + i * symbol_size)) maps t)
        (λ maps1 t1. create_tables-Loops symtab n (i + 1) maps1 t1)

  create_from-Ends :
      (maps : Maps g) (o : Option Section)
      → IsTableOfTables g tables maps
      → Ends (Grows g tables maps) (create_from g rooms file image tables maps o)
  unfolding create_from
  create_from-Ends maps none t = tt
  create_from-Ends maps (some symtab) t = (create_tables-Loops symtab (num_syms symtab) 0 maps t).0

  create_from-Goes :
      (maps : Maps g) (d : Declared) (s : Declares file image d)
      → IsTableOfTables g tables maps
      → Goes
          (λ maps'. IsListed g tables maps' d.name)
          (create_from g rooms file image tables maps (some s.symtab))
  unfolding create_from
  create_from-Goes maps d s t =
      listed_of _ (create_tables-Loops s.symtab (num_syms s.symtab) 0 maps t).1
    where
      listed_of :
          (c : Creation (Maps g))
          → Goes (AllWanted s.symtab (num_syms s.symtab) 0) c
          → Goes (λ maps'. IsListed g tables maps' d.name) c
      listed_of (goes_on maps') h =
          h s.index (omega arith) (omega (arith, s.inside)) d s.of_maps s.def
      listed_of (stops x maps') h = tt
      listed_of strays h = tt

-- Over a valid table of tables, and with memory for its entries, the loop over the map definitions
-- keeps the table of tables valid and every entry that was listed, also where it ends in an error.
pub create_all-Grows :
    (g : Ght) (rooms : Rooms) (file : List ℕ) (image : Image) (tables : ℕ) (maps : Maps g)
    → ((i : ℕ) → rooms.new_entry i ≡ true)
    → IsTableOfTables g tables maps
    → Ends (Grows g tables maps) (create_all g rooms file image tables maps)
unfolding create_all
create_all-Grows g rooms file image tables maps roomy t =
    elim (Bool-cases (image.found.symtab_idx == 0 || image.found.maps_idx == 0)) [
      | inl e ↦ rw e (Grows-refl g tables maps t)
      | inr e ↦ rw e (
          create_from-Ends g tables rooms file image roomy maps
            (get_elem? image.sections image.found.symtab_idx) t)
    ]

-- Where the loop over the map definitions goes on, over a valid table of tables and with memory for its
-- entries, a table is listed under the name of each symbol that declares one.
pub create_all-IsListed :
    (g : Ght) (rooms : Rooms) (file : List ℕ) (image : Image) (tables : ℕ) (maps maps' : Maps g)
    (d : Declared)
    → ((i : ℕ) → rooms.new_entry i ≡ true)
    → IsTableOfTables g tables maps
    → Declares file image d
    → create_all g rooms file image tables maps ≡ goes_on maps'
    → IsListed g tables maps' d.name
unfolding create_all
create_all-IsListed g rooms file image tables maps maps' d roomy t s e =
    let has : (image.found.symtab_idx == 0 || image.found.maps_idx == 0) ≡ false =
      ground (arith, s.has_symtab, s.has_maps) in
    let from : create_from g rooms file image tables maps (some s.symtab) ≡ goes_on maps' =
      rw (has, s.found) at e in
    subst (Goes (λ maps'. IsListed g tables maps' d.name)) from
      (create_from-Goes g tables rooms file image roomy maps d s t)
