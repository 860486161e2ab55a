-- ===== src/Elf/Sections/InFile.antt =====
-- The section headers and the sections that `ubpf_load_elf` works on lie in the file.
use bpfabric.Prelude.{ℕ, zero, suc, ◌+◌, ◌^◌, ◌≤◌, ◌<◌, ◌≡◌, ◌↔◌, arith, refl, ap, ◌∙◌}
use bpfabric.Prelude.{true, List, [], ◌∷◌, some, length, get_elem?, take, drop}
use native.Mathlib.Nat.{pow-suc}
use bpfabric.Prelude.Words.{u64_mod, add64}
use bpfabric.Prelude.Bytes.{read_at}
use bpfabric.Vm.Code.Load.{AreBytes}
use bpfabric.Elf.{
  fine, fits, le, field, Ehdr, ehdr_of, shdr_at, Section, bad_section_header, bad_section,
}
use bpfabric.Elf.Parts.{
  fine-injective, bind-fine, require-fine, After, After-fine, After-bind, After-intro,
}
use bpfabric.Elf.Sections.{
  check_ident, check_fields, check_header, shdr_offset, shdr_size, read_section, read_sections,
  Image, parse, max_sections, look_from,
}

-- `bounds_check` accepts a range of 64-bit numbers exactly when its end, computed without a
-- wrap-around, is at most the size of the file.
pub fits_iff :
    (n off size : ℕ)
    → n < u64_mod
    → off < u64_mod
    → size < u64_mod
    → (fits n off size ≡ true) ↔ (off + size ≤ n)
unfolding fits add64
fits_iff n off size n_fits off_fits size_fits = ground arith

pub take-AreBytes : (n : ℕ) (bs : List ℕ) → AreBytes bs → AreBytes (take n bs)
take-AreBytes zero bs h = tt
take-AreBytes (suc n) [] h = tt
take-AreBytes (suc n) (b ∷ bs) h = (h.0, take-AreBytes n bs h.1)

pub drop-AreBytes : (n : ℕ) (bs : List ℕ) → AreBytes bs → AreBytes (drop n bs)
drop-AreBytes zero bs h = h
drop-AreBytes (suc n) [] h = tt
drop-AreBytes (suc n) (b ∷ bs) h = drop-AreBytes n bs h.1

le-lt : (n : ℕ) (bs : List ℕ) → AreBytes bs → le (take n bs) < 256 ^ n
unfolding le
le-lt zero bs h = omega arith
le-lt (suc n) [] h = omega (arith, pow-suc 256 n, le-lt n [] tt)
le-lt (suc n) (b ∷ bs) h = omega (arith, pow-suc 256 n, le-lt n bs h.1, h.0)

field-lt : (file : List ℕ) (off : ℕ) → AreBytes file → field file off 8 < u64_mod
unfolding field read_at
field-lt file off h = le-lt 8 (drop off file) (drop-AreBytes off file h)

-- What is known of the i-th section: its header is the one that the ELF header points to, and
-- neither the header nor the data reaches past the end of the file.
pub record InFile (file : List ℕ) (h : Ehdr) (i : ℕ) (sec : Section) : Type 0 where
  pub header : sec.shdr ≡ shdr_at file (shdr_offset h i)
  pub header_inside : shdr_offset h i + shdr_size ≤ length file
  pub data_start : sec.data_at ≡ sec.shdr.sh_offset
  pub data_size : sec.size ≡ sec.shdr.sh_size
  pub data_inside : sec.data_at + sec.size ≤ length file

shdr_offset-lt : (h : Ehdr) (i : ℕ) → shdr_offset h i < u64_mod
unfolding shdr_offset add64
shdr_offset-lt h i = omega arith

read_section-InFile :
    (file : List ℕ) (h : Ehdr) (i : ℕ) (sec : Section)
    → AreBytes file
    → length file < u64_mod
    → read_section file (shdr_offset h i) ≡ fine sec
    → InFile file h i sec
unfolding read_section shdr_at
read_section-InFile file h i sec bytes small e =
    let off = shdr_offset h i in
    let shdr = shdr_at file off in
    let (head, e1) = require-fine (fits (length file) off shdr_size) bad_section_header _ e in
    let (inside, e2) =
      require-fine (fits (length file) shdr.sh_offset shdr.sh_size) bad_section _ e1 in
    let same = fine-injective e2 in
    rw (← same) record {
      header = refl;
      header_inside = (fits_iff _ off shdr_size small (shdr_offset-lt h i) (omega arith)).0 head;
      data_start = refl;
      data_size = refl;
      data_inside =
          (fits_iff _ _ _ small (field-lt file (off + 24) bytes) (field-lt file (off + 32) bytes)).0
            inside;
    }

-- The sections from index i on are in the file.
pub AllInFile : List ℕ → Ehdr → ℕ → List Section → Type 0
AllInFile file h i [] = Unit
AllInFile file h i (sec ∷ secs) = InFile file h i sec × AllInFile file h (i + 1) secs

nth-InFile :
    (file : List ℕ) (h : Ehdr) (i j k : ℕ) (secs : List Section) (sec : Section)
    → AllInFile file h i secs
    → i + j ≡ k
    → get_elem? secs j ≡ some sec
    → InFile file h k sec
unfolding AllInFile
nth-InFile file h i j k [] sec a at q = absurd (cc)
nth-InFile file h i zero k (s ∷ secs) sec a at q =
    let same : s ≡ sec = cc in let here : k ≡ i = omega arith in rw (← same, here) a.0
nth-InFile file h i (suc j) k (s ∷ secs) sec a at q =
    nth-InFile file h (i + 1) j k secs sec a.1 (omega arith) q

read_sections-AllInFile :
    (file : List ℕ) (h : Ehdr) (n i : ℕ) (secs : List Section)
    → AreBytes file
    → length file < u64_mod
    → read_sections file h n i ≡ fine secs
    → (length secs ≡ n) × AllInFile file h i secs
unfolding read_sections AllInFile
read_sections-AllInFile file h zero i secs bytes small e =
    let same = fine-injective e in rw (← same) (refl, tt)
read_sections-AllInFile file h (suc n) i secs bytes small e =
    let (sec, first, e1) = bind-fine (read_section file (shdr_offset h i)) _ e in
    let (rest, others, e2) = bind-fine (read_sections file h n (i + 1)) _ e1 in
    let (len, inside) = read_sections-AllInFile file h n (i + 1) rest bytes small others in
    let same = fine-injective e2 in
    rw (← same) (ap suc len, (read_section-InFile file h i sec bytes small first, inside))

-- The header that passed the checks stands at the start of the file and has at most 32 sections.
abbrev HasHeader : List ℕ → Ehdr → Type 0
HasHeader file h = (h ≡ ehdr_of file) × ((ehdr_of file).e_shnum ≤ max_sections)

check_fields-HasHeader : (file : List ℕ) → After (HasHeader file) (check_fields (ehdr_of file))
unfolding check_fields
check_fields-HasHeader file = ground arith

check_header-HasHeader : (file : List ℕ) → After (HasHeader file) (check_header file)
unfolding check_header
check_header-HasHeader file =
    After-bind (λ u. Unit) (HasHeader file) (check_ident file) _
      (After-intro (λ u. Unit) _ (λ u e. tt)) λ u _. check_fields-HasHeader file

-- What the loader knows of the sections that it has read.
pub record IsParsed (file : List ℕ) (image : Image) : Type 0 where
  pub counted : length image.sections ≡ (ehdr_of file).e_shnum
  pub few : (ehdr_of file).e_shnum ≤ max_sections
  pub inside :
      (i : ℕ) (sec : Section)
      → get_elem? image.sections i ≡ some sec
      → InFile file (ehdr_of file) i sec

parse-After :
    (file : List ℕ) → AreBytes file → length file < u64_mod → After (IsParsed file) (parse file)
unfolding parse
parse-After file bytes small =
    After-bind (HasHeader file) (IsParsed file) (check_header file) _ (check_header-HasHeader file)
      λ h head.
        let Read : List Section → Type 0 =
          λ secs. (length secs ≡ h.e_shnum) × AllInFile file h 0 secs in
        After-bind Read (IsParsed file) (read_sections file h h.e_shnum 0) _
          (After-intro Read _
            (λ secs e. read_sections-AllInFile file h h.e_shnum 0 secs bytes small e))
          λ secs read.
            After-bind (λ f. Unit) (IsParsed file) (look_from file _ 0 secs _) _
              (After-intro (λ f. Unit) _ (λ f e. tt))
              λ f _. record {
                counted = read.0 ∙ ap (λ h. h.e_shnum) head.0;
                few = head.1;
                inside = λ i sec q.
                    nth-InFile file (ehdr_of file) 0 i i secs sec (rw (← head.0) read.1)
                      (omega arith) q;
              }

-- When the loader has read the sections of a file of bytes, there are as many as the ELF header
-- says and at most 32, so that the array `sections` suffices; each has the header that the ELF
-- header points to, and neither its header nor its data reaches past the end of the file.
pub parse-IsParsed :
    (file : List ℕ) (image : Image)
    → AreBytes file
    → length file < u64_mod
    → parse file ≡ fine image
    → IsParsed file image
parse-IsParsed file image bytes small e =
    After-fine (IsParsed file) (parse file) (parse-After file bytes small) e
