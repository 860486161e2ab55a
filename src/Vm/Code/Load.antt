-- ===== src/Vm/Code/Load.antt =====
-- What `ubpf_load` establishes, and what it leaves behind when it fails.
use bpfabric.Prelude.{ℕ, zero, suc, ◌+◌, ◌/◌, ◌%◌, ◌<◌, ◌≡◌, ◌≢◌, refl, sym, ap, ◌∙◌, arith}
use bpfabric.Prelude.{
  Bool, true, false, Option, none, some, List, [], ◌∷◌, length, get_elem?, get_elem?-lt, ◌==◌,
  Bool-cases, inl, inr, ==_iff,
}
use bpfabric.Prelude.Words.{u16_mod, u32_mod, u64_mod, add64}
use bpfabric.Ebpf.{Inst}
use bpfabric.Vm.Memory.{Memory, Regions, stack_size}
use bpfabric.Vm.Outcome.{Post, Post-mono}
use bpfabric.Vm.Exec.{ExtFunc, Program, run, start}
use bpfabric.Vm.Exec.Registers.{FuncsFit}
use bpfabric.Vm.Validate.{Verdict, accept, reject, validate}
use bpfabric.Vm.Validate.Sound.{here, length-lt_max}
use bpfabric.Vm.Safety.{FieldsFit}
use bpfabric.Vm.Safety.Contained.{OnCode, IsLoaded, IsContained, EndsInExit, run-IsContained}
use bpfabric.Vm.Code.{
  Vm, CodePtr, null, freed, live, insts_of, function_at, registered, is_some, LoadError,
  bad_code_len, out_of_memory, loaded, failed, double_free, install, load_code, load_from, load,
  program_of, exec, exec_code,
}

abbrev pub AreBytes : List ℕ → Type 0
AreBytes [] = Unit
AreBytes (b ∷ bs) = (b < 256) × AreBytes bs

inst_fields :
    (code : List ℕ) (j : ℕ) (i : Inst)
    → AreBytes code
    → get_elem? (insts_of code) j ≡ some i
    → (i.offset < u16_mod) × (i.imm < u32_mod)
unfolding insts_of
inst_fields (b0 ∷ b1 ∷ b2 ∷ b3 ∷ b4 ∷ b5 ∷ b6 ∷ b7 ∷ rest) zero i h e = ground arith
inst_fields (b0 ∷ b1 ∷ b2 ∷ b3 ∷ b4 ∷ b5 ∷ b6 ∷ b7 ∷ rest) (suc j) i h e =
    inst_fields rest j i h.1.1.1.1.1.1.1.1 e
inst_fields _ j i h e = absurd (cc)

-- The fields of instructions read from bytes are in range.
pub insts_of-FieldsFit : (code : List ℕ) → AreBytes code → FieldsFit (insts_of code)
insts_of-FieldsFit code h = record {
  offset_fits = λ j i e. (inst_fields code j i h e).0;
  imm_fits = λ j i e. (inst_fields code j i h e).1;
}

pub length-insts_of : (code : List ℕ) → length (insts_of code) ≡ length code / 8
unfolding insts_of
length-insts_of (b0 ∷ b1 ∷ b2 ∷ b3 ∷ b4 ∷ b5 ∷ b6 ∷ b7 ∷ rest) = omega (arith, length-insts_of rest)
length-insts_of [] = omega arith
length-insts_of _ = omega arith

loaded-injective : {vm vm' : Vm} → loaded vm ≡ loaded vm' → vm ≡ vm'
loaded-injective e = cc

-- What a successful load has done, whatever code the machine held before.
pub record IsStored (code : List ℕ) (vm vm' : Vm) : Type 0 where
  pub code_len : length code % 8 ≡ 0
  pub stored : vm'.code ≡ live (insts_of code)
  pub counted : vm'.num_insts ≡ length (insts_of code)
  pub funcs_kept : vm'.ext_funcs ≡ vm.ext_funcs
  pub accepted : validate (registered vm.ext_funcs) (insts_of code) ≡ accept

install-IsStored :
    (room : Bool) (code : List ℕ) (vm vm' : Vm) (v : Verdict)
    → length code % 8 ≡ 0
    → validate (registered vm.ext_funcs) (insts_of code) ≡ v
    → install room code vm v ≡ loaded vm'
    → IsStored code vm vm'
unfolding install
install-IsStored room code vm vm' (reject e) m a h = absurd (cc)
install-IsStored false code vm vm' accept m a h = absurd (cc)
install-IsStored true code vm vm' accept m a h =
    let small = length-lt_max (registered vm.ext_funcs) (insts_of code) a in
    let same = loaded-injective h in
    rw (← same) record {
      code_len = m;
      stored = refl;
      counted = omega (arith, length-insts_of code);
      funcs_kept = refl;
      accepted = a;
    }

load_code-IsStored :
    (room : Bool) (code : List ℕ) (vm vm' : Vm)
    → load_code room code vm ≡ loaded vm'
    → IsStored code vm vm'
unfolding load_code
load_code-IsStored room code vm vm' h = elim (Bool-cases (length code % 8 == 0)) [
  | inl e ↦ install-IsStored room code vm vm' _ ((==_iff _ 0).0 e) refl (rw e at h)
  | inr e ↦ absurd (ground arith)
]

load_from-IsStored :
    (room : Bool) (code : List ℕ) (vm vm' : Vm) (c : CodePtr)
    → load_from room code vm c ≡ loaded vm'
    → IsStored code vm vm'
unfolding load_from
load_from-IsStored room code vm vm' null h = load_code-IsStored room code vm vm' h
load_from-IsStored room code vm vm' (live insts) h =
    let s = load_code-IsStored room code (record vm { code = freed }) vm' h in
    record {
      code_len = s.code_len;
      stored = s.stored;
      counted = s.counted;
      funcs_kept = s.funcs_kept;
      accepted = s.accepted;
    }
load_from-IsStored room code vm vm' freed h = absurd (cc)

-- A load that succeeds has stored exactly the given instructions, all of them counted in the
-- 16-bit `num_insts`, has kept the registered functions, and `validate` accepted the instructions
-- against these.
pub load-IsStored :
    (room : Bool) (code : List ℕ) (vm vm' : Vm)
    → load room code vm ≡ loaded vm'
    → IsStored code vm vm'
unfolding load
load-IsStored room code vm vm' h = load_from-IsStored room code vm vm' vm.code h

install-failed :
    (room : Bool) (code : List ℕ) (vm vm' : Vm) (v : Verdict) (e : LoadError)
    → install room code vm v ≡ failed e vm'
    → e ≢ out_of_memory
    → vm'.code ≡ vm.code
unfolding install
install-failed room code vm vm' (reject x) e h other =
    let same : vm ≡ vm' = cc in ap (λ t. t.code) (sym same)
install-failed false code vm vm' accept e h other = absurd (other (cc))
install-failed true code vm vm' accept e h other = absurd (cc)

load_code-failed :
    (room : Bool) (code : List ℕ) (vm vm' : Vm) (e : LoadError)
    → load_code room code vm ≡ failed e vm'
    → e ≢ out_of_memory
    → vm'.code ≡ vm.code
unfolding load_code
load_code-failed room code vm vm' e h other = elim (Bool-cases (length code % 8 == 0)) [
  | inl t ↦ install-failed room code vm vm' _ e (rw t at h) other
  | inr t ↦
      let h' : failed bad_code_len vm ≡ failed e vm' = rw t at h in
      let same : vm ≡ vm' = cc in ap (λ u. u.code) (sym same)
]

load_from-failed :
    (room : Bool) (code : List ℕ) (vm vm' : Vm) (c : CodePtr) (insts : List Inst) (e : LoadError)
    → c ≡ live insts
    → load_from room code vm c ≡ failed e vm'
    → e ≢ out_of_memory
    → vm'.code ≡ freed
unfolding load_from
load_from-failed room code vm vm' (live x) insts e l h other =
    load_code-failed room code (record vm { code = freed }) vm' e h other
load_from-failed room code vm vm' _ insts e l h other = absurd (cc)

load_from_freed :
    (room : Bool) (code : List ℕ) (vm : Vm) (c : CodePtr)
    → c ≡ freed
    → load_from room code vm c ≡ double_free
unfolding load_from
load_from_freed room code vm freed e = refl
load_from_freed room code vm _ e = absurd (cc)

exec_freed :
    (fuel : ℕ) (vm : Vm) (r : Regions) (g : ℕ → ℕ) (m : Memory)
    → vm.code ≡ freed
    → exec fuel vm r g m ≡ none
unfolding exec exec_code
exec_freed fuel vm r g m e = rw e refl

-- A load that fails for any reason but memory leaves `insts` pointing to the array that it freed:
-- running the machine is then undefined, and the next load frees the array again.
pub load-freed :
    (room room' : Bool) (code code' : List ℕ) (vm vm' : Vm) (insts : List Inst) (e : LoadError)
    → vm.code ≡ live insts
    → load room code vm ≡ failed e vm'
    → e ≢ out_of_memory
    → (vm'.code ≡ freed)
      × (load room' code' vm' ≡ double_free)
      × ((fuel : ℕ) (r : Regions) (g : ℕ → ℕ) (m : Memory) → exec fuel vm' r g m ≡ none)
unfolding load
load-freed room room' code code' vm vm' insts e live_code h other =
    let is_freed = load_from-failed room code vm vm' vm.code insts e live_code h other in
    (
      is_freed,
      load_from_freed room' code' vm' vm'.code is_freed,
      λ fuel r g m. exec_freed fuel vm' r g m is_freed,
    )

function_known :
    (fs : List (Option ExtFunc)) (k : ℕ)
    → registered fs k ≡ true
    → (f : ExtFunc) × (function_at fs k ≡ some f)
unfolding registered
function_known fs k e = some_of (function_at fs k) e
  where
    some_of : (o : Option ExtFunc) → is_some o ≡ true → (f : ExtFunc) × (o ≡ some f)
    some_of none e = absurd (cc)
    some_of (some f) e = (f, refl)

start-frame :
    (p : Program) (garbage : ℕ → ℕ) (memory : Memory)
    → (start p garbage memory).regs 10 ≡ (p.regions.stack + stack_size) % u64_mod
unfolding start add64
start-frame p garbage memory = refl

start-lt :
    (p : Program) (garbage : ℕ → ℕ) (memory : Memory)
    → 0 < length p.insts
    → (start p garbage memory).pc < length p.insts
unfolding start
start-lt p garbage memory h = h

start-OnCode :
    (p : Program) (garbage : ℕ → ℕ) (memory : Memory)
    → p.regions.mem < u64_mod
    → ((r : ℕ) → garbage r < u64_mod)
    → ((a : ℕ) → memory a < 256)
    → OnCode p.insts (start p garbage memory)
unfolding start add64
start-OnCode p garbage memory h g b = record {
  starts = here;
  within = omega arith;
  fits = record { regs_fit = λ r. ground (arith, g r); bytes_fit = b };
}

-- Code of bytes that was loaded and ends in EXIT runs from the entry of `ubpf_exec`, for any number
-- of iterations, without fetching outside the code or calling through a null pointer, and as long
-- as it runs with the frame pointer at the end of the stack. The registered functions return 64-bit
-- words and leave bytes in memory; the registers and the packet's address are 64-bit words, and
-- memory holds bytes.
pub load-run :
    (code : List ℕ) (vm vm' : Vm) (regions : Regions) (garbage : ℕ → ℕ) (memory : Memory) (fuel : ℕ)
    → load true code vm ≡ loaded vm'
    → AreBytes code
    → FuncsFit (program_of vm' (insts_of code) regions)
    → EndsInExit (insts_of code)
    → regions.mem < u64_mod
    → ((r : ℕ) → garbage r < u64_mod)
    → ((a : ℕ) → memory a < 256)
    → let p = program_of vm' (insts_of code) regions in
      Post
        (λ m.
          OnCode p.insts m
          × (m.pc < length p.insts)
          × (m.regs 10 ≡ (regions.stack + stack_size) % u64_mod))
        IsContained
        (run p fuel (start p garbage memory))
load-run code vm vm' regions garbage memory fuel h bytes funcs ends mem_fits garbage_fits
      bytes_fit =
    let s = load-IsStored true code vm vm' h in
    let p = program_of vm' (insts_of code) regions in
    let ready : IsLoaded (registered vm.ext_funcs) p = record {
      accepted = s.accepted;
      fields = insts_of-FieldsFit code bytes;
      known = λ k e. function_known vm'.ext_funcs k (rw s.funcs_kept e);
      funcs = funcs;
    } in
    let lt : 0 < length (insts_of code) =
      omega (arith, get_elem?-lt (insts_of code) _ ends.found) in
    Post-mono _ _ IsContained IsContained (run p fuel (start p garbage memory))
      (λ m b. (b.0, b.2, b.1 ∙ start-frame p garbage memory)) (λ x b. b)
      (run-IsContained (registered vm.ext_funcs) p ready fuel (start p garbage memory) ends
        (start-OnCode p garbage memory mem_fits garbage_fits bytes_fit)
        (start-lt p garbage memory lt))
