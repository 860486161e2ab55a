-- ===== src/Elf/Load/Runs.antt =====
-- What `ubpf_load_elf` has loaded, and how it runs.
use bpfabric.Prelude.{ℕ, zero, suc, ◌+◌, ◌%◌, ◌≤◌, ◌<◌, ◌≡◌, ◌≢◌, arith, refl, sym, ap, ◌∙◌}
use mathlib.Core.Path.{subst}
use bpfabric.Prelude.{
  Bool, true, not, ◌&&◌, List, [], ◌∷◌, some, length, length-take, get_elem?, take, drop,
  length-drop, ◌==◌, Bool-cases, inl, inr, ◌⊎◌,
}
use bpfabric.Prelude.Words.{u32_mod, u64_mod}
use bpfabric.Prelude.Bytes.{read_at}
use bpfabric.Ebpf.{Inst}
use bpfabric.Maps.Ght.{Ght}
use bpfabric.Maps.Registry.{Maps}
use bpfabric.Vm.Outcome.{Post}
use bpfabric.Vm.Memory.{Memory, Regions, stack_size}
use bpfabric.Vm.Exec.{run, start}
use bpfabric.Vm.Exec.Registers.{FuncsFit}
use bpfabric.Vm.Safety.Contained.{OnCode, IsContained, EndsInExit}
use bpfabric.Vm.Code.{Vm, live, insts_of, loaded, load, program_of}
use bpfabric.Vm.Code.Load.{AreBytes, load-IsStored, load-run}
use bpfabric.Elf.{Part, fine, error, wild, Section, no_text, no_memory, follow}
use bpfabric.Elf.Parts.{bind-fine, require-fine, follow-fine, After-fine}
use bpfabric.Elf.Sections.{Image, parse, find_text, sht_progbits, text_flags}
use bpfabric.Elf.Sections.InFile.{parse-IsParsed, take-AreBytes, drop-AreBytes}
use bpfabric.Elf.MapTables.{Creation, goes_on, stops, strays, create_all}
use bpfabric.Elf.Relocate.{relocate_all}
use bpfabric.Elf.Relocate.Kept.{IsText, relocate_all-IsText}
use bpfabric.Elf.Load.{
  relocated_text, loads, ElfRooms, load_text, load_image, load_parsed, load_elf,
}

-- A section of code: its type is PROGBITS, and its flags are those of an executable section that
-- is allocated and not written.
abbrev pub IsCode : Section → Type 0
IsCode sec = (sec.shdr.sh_type ≡ sht_progbits) × (sec.shdr.sh_flags ≡ text_flags)

-- The index that the loop finds: that of a section of code, 0 for none.
find_text_cases :
    (i : ℕ) (secs : List Section)
    → (find_text i secs ≡ 0)
      ⊎ ((j : ℕ) × (sec : Section) × (find_text i secs ≡ i + j)
          × (get_elem? secs j ≡ some sec)
          × IsCode sec)
unfolding find_text
find_text_cases i [] = inl refl
find_text_cases i (s ∷ secs) =
    elim (Bool-cases (s.shdr.sh_type == sht_progbits && s.shdr.sh_flags == text_flags)) [
      | inl e ↦ inr (0, s, rw e (omega arith), refl, ground arith)
      | inr e ↦ rw e (elim (find_text_cases (i + 1) secs) [
        | inl z ↦ inl z
        | inr (j, sec, at, q, code) ↦ inr (suc j, sec, omega (arith, at), q, code)
      ])
    ]

-- No section before the one that the loop finds is a section of code.
find_text-first :
    (i : ℕ) (secs : List Section) (j : ℕ) (sec : Section)
    → get_elem? secs j ≡ some sec
    → i + j < find_text i secs
    → ¬ IsCode sec
unfolding find_text
find_text-first i [] j sec at lt (type, flags) = absurd (cc)
find_text-first i (s ∷ secs) zero sec at lt (type, flags) =
    let same : s ≡ sec = cc in
    let t : (s.shdr.sh_type == sht_progbits) ≡ true = rw (same, type) refl in
    let f : (s.shdr.sh_flags == text_flags) ≡ true = rw (same, flags) refl in
    let lt' = rw (t, f) at lt in absurd (omega arith)
find_text-first i (s ∷ secs) (suc j) sec at lt code =
    elim (Bool-cases (s.shdr.sh_type == sht_progbits && s.shdr.sh_flags == text_flags)) [
      | inl e ↦ let lt' = rw e at lt in absurd (omega arith)
      | inr e ↦
          let lt' = rw e at lt in find_text-first (i + 1) secs j sec at (omega (arith, lt')) code
    ]

find_text-IsCode :
    (secs : List Section) (sec : Section)
    → find_text 0 secs ≢ 0
    → get_elem? secs (find_text 0 secs) ≡ some sec
    → IsCode sec
find_text-IsCode secs sec found q = elim (find_text_cases 0 secs) [
  | inl z ↦ absurd (found z)
  | inr (j, s, at, q', code) ↦
      let at' : find_text 0 secs ≡ j = omega (arith, at) in
      let here : get_elem? secs j ≡ some sec = rw (← at') q in
      let same : s ≡ sec = cc in rw (← same) code
]

length-read_at :
    (off n : ℕ) (file : List ℕ) → off + n ≤ length file → length (read_at off n file) ≡ n
unfolding read_at
length-read_at off n file h = length-take n (drop off file) (omega (arith, length-drop off file))

take-all : (xs : List ℕ) → take (length xs) xs ≡ xs
take-all [] = refl
take-all (x ∷ xs) = ap (λ t. x ∷ t) (take-all xs)

live-injective : {xs ys : List Inst} → live xs ≡ live ys → xs ≡ ys
live-injective e = cc

module _ (g : Ght) where
  -- The file was parsed, the tables of its map definitions were created, and the machine has
  -- loaded the whole text section after its relocations.
  pub record LoadsElf (rooms : ElfRooms g) (base : ℕ) (file : List ℕ) (vm vm' : Vm)
      (maps maps' : Maps g) : Type 0 where
    pub image : Image
    pub text : Section
    pub code : List ℕ
    pub parsed : parse file ≡ fine image
    pub tables_made : create_all g rooms.tables file image vm.tables maps ≡ goes_on maps'
    pub text_found : get_elem? image.sections (find_text 0 image.sections) ≡ some text
    pub text_first : find_text 0 image.sections ≢ 0
    pub text_IsCode : IsCode text
    pub text_earliest :
        (j : ℕ) (sec : Section)
        → get_elem? image.sections j ≡ some sec
        → j < find_text 0 image.sections
        → ¬ IsCode sec
    pub relocated :
        relocate_all g base file image vm maps'
          (find_text 0 image.sections)
          image.sections
          (read_at text.data_at text.size file)
        ≡ fine code
    pub code_size : length code ≡ text.size
    pub code_inside : text.size ≤ length file
    pub code_bytes : AreBytes code
    pub code_loaded : load rooms.insts code vm ≡ loaded vm'

  load_text-loaded :
      (room : Bool) (vm vm' : Vm) (maps maps' : Maps g) (p : Part (List ℕ))
      → load_text g room vm maps p ≡ loads (loaded vm') maps'
      → (code : List ℕ) × (p ≡ fine code)
        × (maps ≡ maps')
        × (load room (take (length code % u32_mod) code) vm ≡ loaded vm')
  unfolding load_text
  load_text-loaded room vm vm' maps maps' wild e = absurd (cc)
  load_text-loaded room vm vm' maps maps' (error x) e = absurd (cc)
  load_text-loaded room vm vm' maps maps' (fine code) e = (code, refl, cc, cc)

  load_image-loaded :
      (rooms : ElfRooms g) (base : ℕ) (file : List ℕ) (image : Image) (vm vm' : Vm) (maps' : Maps g)
      (c : Creation (Maps g))
      → load_image g rooms base file image vm c ≡ loads (loaded vm') maps'
      → (code : List ℕ) × (c ≡ goes_on maps')
        × (relocated_text g rooms.text_copy base file image vm maps' ≡ fine code)
        × (load rooms.insts (take (length code % u32_mod) code) vm ≡ loaded vm')
  unfolding load_image
  load_image-loaded rooms base file image vm vm' maps' strays e = absurd (cc)
  load_image-loaded rooms base file image vm vm' maps' (stops x maps) e = absurd (cc)
  load_image-loaded rooms base file image vm vm' maps' (goes_on maps) e =
      let (code, made, same, done) = load_text-loaded rooms.insts vm vm' maps maps' _ e in
      (
        code,
        ap goes_on same,
        subst (λ ms. relocated_text g rooms.text_copy base file image vm ms ≡ fine code) same made,
        done,
      )

  load_parsed-loaded :
      (rooms : ElfRooms g) (base : ℕ) (file : List ℕ) (vm vm' : Vm) (maps maps' : Maps g)
      (p : Part Image)
      → load_parsed g rooms base file vm maps p ≡ loads (loaded vm') maps'
      → (image : Image) × (p ≡ fine image)
        × (load_image g rooms base file image vm
              (create_all g rooms.tables file image vm.tables maps)
            ≡ loads (loaded vm') maps')
  unfolding load_parsed
  load_parsed-loaded rooms base file vm vm' maps maps' wild e = absurd (cc)
  load_parsed-loaded rooms base file vm vm' maps maps' (error x) e = absurd (cc)
  load_parsed-loaded rooms base file vm vm' maps maps' (fine image) e = (image, refl, e)

  -- Loading a file of bytes of less than 4 GB succeeds only by loading the whole text section: the
  -- first section of code, found at an index other than 0, with its relocations made over the maps
  -- as they are once the tables have been created; the relocations have kept its size, and it still
  -- consists of bytes.
  pub load_elf-LoadsElf :
      (rooms : ElfRooms g) (base : ℕ) (file : List ℕ) (vm vm' : Vm) (maps maps' : Maps g)
      → AreBytes file
      → length file < u32_mod
      → load_elf g rooms base file vm maps ≡ loads (loaded vm') maps'
      → LoadsElf rooms base file vm vm' maps maps'
  unfolding load_elf relocated_text read_at
  load_elf-LoadsElf rooms base file vm vm' maps maps' bytes small e =
      let (image, parsed, e1) = load_parsed-loaded rooms base file vm vm' maps maps' _ e in
      let (code, made, e2, done) =
        load_image-loaded rooms base file image vm vm' maps'
          (create_all g rooms.tables file image vm.tables maps) e1 in
      let shndx = find_text 0 image.sections in
      let (nonzero, e3) = require-fine (not (shndx == 0)) no_text _ e2 in
      let (text, at_shndx, e4) = bind-fine (follow (get_elem? image.sections shndx)) _ e3 in
      let (room, e5) = require-fine rooms.text_copy no_memory _ e4 in
      let found : get_elem? image.sections shndx ≡ some text = follow-fine _ at_shndx in
      let inside = (parse-IsParsed file image bytes (omega arith) parsed).inside shndx text found in
      let start : IsText text.size (read_at text.data_at text.size file) = (
        length-read_at text.data_at text.size file inside.data_inside,
        take-AreBytes text.size (drop text.data_at file) (drop-AreBytes text.data_at file bytes),
      ) in
      let kept =
        After-fine (IsText text.size) _
          (relocate_all-IsText g text.size base file image vm maps' shndx image.sections _ start)
          e5 in
      let size : length code % u32_mod ≡ length code = omega (arith, kept.0, inside.data_inside) in
      let first : shndx ≢ 0 = ground arith in
      record {
        image = image;
        text = text;
        code = code;
        parsed = parsed;
        tables_made = made;
        text_found = found;
        text_first = first;
        text_IsCode = find_text-IsCode image.sections text first found;
        text_earliest =
            λ j sec at lt. find_text-first 0 image.sections j sec at (omega (arith, lt));
        relocated = e5;
        code_size = kept.0;
        code_inside = omega (arith, inside.data_inside);
        code_bytes = kept.1;
        code_loaded =
            ap (λ c. load rooms.insts c vm) (sym (ap (λ k. take k code) size ∙ take-all code))
            ∙ done;
      }

  -- A machine that has loaded a file of bytes of less than 4 GB, whose code ends in EXIT, runs from the
  -- entry of `ubpf_exec`, for any number of iterations, without fetching outside the code or calling
  -- through a null pointer, and as long as it runs with the frame pointer at the end of the stack. The
  -- memory for the instructions was there; the registered functions return 64-bit words and leave
  -- bytes in memory; the registers and the packet's address are 64-bit words, and memory holds bytes.
  pub load_elf-run :
      (rooms : ElfRooms g) (base : ℕ) (file : List ℕ) (vm vm' : Vm) (maps maps' : Maps g)
      (insts : List Inst) (regions : Regions) (garbage : ℕ → ℕ) (memory : Memory) (fuel : ℕ)
      → AreBytes file
      → length file < u32_mod
      → rooms.insts ≡ true
      → load_elf g rooms base file vm maps ≡ loads (loaded vm') maps'
      → vm'.code ≡ live insts
      → FuncsFit (program_of vm' insts regions)
      → EndsInExit insts
      → regions.mem < u64_mod
      → ((r : ℕ) → garbage r < u64_mod)
      → ((a : ℕ) → memory a < 256)
      → let p = program_of vm' insts regions in
        Post
          (λ m.
            OnCode p.insts m
            × (m.pc < length p.insts)
            × (m.regs 10 ≡ (regions.stack + stack_size) % u64_mod))
          IsContained
          (run p fuel (start p garbage memory))
  load_elf-run rooms base file vm vm' maps maps' insts regions garbage memory fuel bytes small room
        e at funcs ends mem_fits garbage_fits memory_fits =
      let l = load_elf-LoadsElf rooms base file vm vm' maps maps' bytes small e in
      let stored = load-IsStored rooms.insts l.code vm vm' l.code_loaded in
      let same : insts ≡ insts_of l.code = live-injective (sym at ∙ stored.stored) in
      let h : load true l.code vm ≡ loaded vm' = rw (← room) l.code_loaded in
      rw same (
        load-run l.code vm vm' regions garbage memory fuel h l.code_bytes
          (subst (λ is. FuncsFit (program_of vm' is regions)) same funcs) (rw (← same) ends)
          mem_fits garbage_fits memory_fits)
