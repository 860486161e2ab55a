-- ===== src/Agent/Dispatch/Install.antt =====
-- What an install request leaves as the program that the switch runs.
use bpfabric.Prelude.{
  ℕ, ◌≤◌, ◌<◌, ◌≡◌, ap, arith, Bool, if◌then◌else◌, refl, sym, ◌∙◌, Option, none, some, List,
  length,
}
use bpfabric.Prelude.Words.{u32_mod}
use bpfabric.Ebpf.{Inst}
use bpfabric.Maps.Ght.{Ght}
use bpfabric.Maps.Registry.{Call, done, Maps}
use bpfabric.Vm.Code.{Vm, insts_of, registered, loaded, failed, double_free}
use bpfabric.Vm.Code.Load.{AreBytes, load-IsStored, length-insts_of, insts_of-FieldsFit}
use bpfabric.Vm.Jit.{compile}
use bpfabric.Vm.Jit.Translate.{Addresses}
use bpfabric.Vm.Jit.Whole.{translation}
use bpfabric.Vm.Jit.Compiled.{IsCompiled, translation-IsCompiled}
use bpfabric.Elf.Load.{ElfResult, loads, refuses, astray, load_elf}
use bpfabric.Elf.Load.Runs.{LoadsElf, load_elf-LoadsElf}
use bpfabric.Agent.Dispatch.{Agent, Around, set_program, compile_for, compile_after, recv_install}

done-injective : {A : Type 0} {a b : A} → done a ≡ done b → a ≡ b
done-injective e = cc

module _ (g : Ght) {Fn : Type 0} (translate : List Inst → Call (Option Fn)) where
  -- The machine has been compiled before: `f` is in `vm->jitted`.
  compile_for-old :
      (a : Agent g Fn) (f : Fn)
      → a.jitted ≡ some f
      → compile_for g translate a ≡ done (record a { jitted = some f; ubpf_fn = some f })
  unfolding compile_for compile set_program
  compile_for-old a f h = rw (h) refl

  abbrev Runs : Fn → Agent g Fn → Type 0
  Runs f a = (a.jitted ≡ some f) × (a.ubpf_fn ≡ some f)

  compile_for-Runs :
      (a a' : Agent g Fn) (f : Fn)
      → a.jitted ≡ some f
      → compile_for g translate a ≡ done a'
      → Runs f a'
  compile_for-Runs a a' f h e =
      let same = done-injective (sym (compile_for-old a f h) ∙ e) in rw (← same) (refl, refl)

  compile_after-Runs :
      (a a' : Agent g Fn) (f : Fn) (r : ElfResult g)
      → a.jitted ≡ some f
      → compile_after g translate a r ≡ done a'
      → Runs f a'
  unfolding compile_after
  compile_after-Runs a a' f astray h e = absurd (cc)
  compile_after-Runs a a' f (refuses x maps) h e =
      compile_for-Runs (record a { maps = maps }) a' f h e
  compile_after-Runs a a' f (loads double_free maps) h e = absurd (cc)
  compile_after-Runs a a' f (loads (failed x vm) maps) h e =
      compile_for-Runs (record a { vm = vm; maps = maps }) a' f h e
  compile_after-Runs a a' f (loads (loaded vm) maps) h e =
      compile_for-Runs (record a { vm = vm; maps = maps }) a' f h e

  -- Once a program has been compiled, an install request that is handled at all, whatever its file,
  -- leaves that program as the one that the switch runs.
  pub recv_install-Runs :
      (w : Around g) (elf : List ℕ) (a a' : Agent g Fn) (f : Fn)
      → a.jitted ≡ some f
      → recv_install g translate w elf a ≡ done a'
      → (a'.jitted ≡ some f) × (a'.ubpf_fn ≡ some f)
  unfolding recv_install
  recv_install-Runs w elf a a' f h e =
      compile_after-Runs a a' f (load_elf g w.elf_rooms w.elf_at elf a.vm a.maps) h e

  recv_install-LoadsElf :
      (w : Around g) (elf : List ℕ) (a : Agent g Fn) (vm' : Vm) (maps' : Maps g)
      → AreBytes elf
      → length elf < u32_mod
      → a.jitted ≡ none
      → load_elf g w.elf_rooms w.elf_at elf a.vm a.maps ≡ loads (loaded vm') maps'
      → (l : LoadsElf g w.elf_rooms w.elf_at elf a.vm vm' a.maps maps') × (recv_install g translate
            w elf a
          ≡ set_program g translate
              (record a { vm = vm'; maps = maps' })
              (translate (insts_of l.code)))
  unfolding recv_install compile_after compile_for compile
  recv_install-LoadsElf w elf a vm' maps' bytes small new e =
      let l = load_elf-LoadsElf g w.elf_rooms w.elf_at elf a.vm vm' a.maps maps' bytes small e in
      let stored = load-IsStored w.elf_rooms.insts l.code a.vm vm' l.code_loaded in
      (l, rw (e, new, stored.stored) refl)

module _ (g : Ght) (at : Addresses) (room : Bool) where
  abbrev pub Installs : Around g → List ℕ → Agent g (List ℕ) → Vm → Maps g → Type 0
  Installs w elf a vm' maps' =
      (l : LoadsElf g w.elf_rooms w.elf_at elf a.vm vm' a.maps maps') × (code : List ℕ)
      × (recv_install g (translation at room) w elf a
          ≡ done (record a {
            vm = vm';
            maps = maps';
            jitted = if room then some code else none;
            ubpf_fn = if room then some code else none;
          }))
      × IsCompiled at (insts_of l.code) code

  -- While no program has been compiled, an install request whose file of at most 16,888 bytes is
  -- loaded makes the switch run the machine code of the file's relocated text, or none where `mmap` or
  -- `mprotect` fails. In the machine code, the code of each instruction stands at its location and that
  -- of the epilogue at the exit location; every jump leads to the location of its target, which is the
  -- exit or an instruction; and the other bytes are those that were emitted.
  pub recv_install-IsCompiled :
      (w : Around g) (elf : List ℕ) (a : Agent g (List ℕ)) (vm' : Vm) (maps' : Maps g)
      → AreBytes elf
      → length elf ≤ 16888
      → a.jitted ≡ none
      → load_elf g w.elf_rooms w.elf_at elf a.vm a.maps ≡ loads (loaded vm') maps'
      → Installs w elf a vm' maps'
  unfolding set_program
  recv_install-IsCompiled w elf a vm' maps' bytes small new e =
      let (l, done_so) =
        recv_install-LoadsElf g (translation at room) w elf a vm' maps' bytes (omega (arith, small))
          new e in
      let stored = load-IsStored w.elf_rooms.insts l.code a.vm vm' l.code_loaded in
      let few : (length (insts_of l.code) ≤ 2111) =
        omega (arith, length-insts_of l.code, l.code_size, l.code_inside, small) in
      let (code, translated, fits, compiled) =
        translation-IsCompiled at (insts_of l.code) (registered a.vm.ext_funcs) room stored.accepted
          (insts_of-FieldsFit l.code l.code_bytes) few in
      (
        l,
        code,
        done_so
            ∙ ap (set_program g (translation at room) (record a { vm = vm'; maps = maps' }))
                translated,
        compiled,
      )
