-- ===== src/Vm/Jit/Tests.antt =====
-- The translation of ubpf/ubpf_jit_x86_64.c at concrete programs.
use bpfabric.Prelude.{
  ℕ, ◌+◌, ◌*◌, ◌≤◌, ◌≡◌, refl, arith, Bool, true, false, some, List, [], ◌∷◌, ◌++◌, length,
}
use bpfabric.Ebpf.{alu64}
use bpfabric.Maps.Registry.{done}
use bpfabric.Vm.Validate.{accept, validate}
use bpfabric.Vm.Code.{insts_of}
use bpfabric.Vm.Code.Load.{AreBytes, insts_of-FieldsFit}
use bpfabric.Vm.Jit.State.{ok}
use bpfabric.Vm.Jit.Emit.{rax}
use bpfabric.Vm.Jit.AluSizes.{inst_bytes}
use bpfabric.Vm.Jit.Translate.{Addresses}
use bpfabric.Vm.Jit.Whole.{fresh, translate_all, translation}
use bpfabric.Vm.Jit.Compiled.{frame_bytes, IsCompiled, translation-IsCompiled}
use bpfabric.Vm.Jit.Encoding.{decode_register_form}
use bpfabric.Vm.Jit.Encoding.Registers.{emit_alu, is_wide, emit_alu-decode}

abbrev addresses : Addresses
addresses = record {
  ext_funcs = λ i. 0x40_0000 + 16 * i;
  stderr = 0x7fff_f7fa_56a0;
  div_by_zero_fmt = 0x40_2010;
  fprintf = 0x7fff_f7e4_0000;
}

-- r0 = 1; if (r0 == 1) goto exit; r0 = 7; exit
abbrev branch_code : List ℕ
branch_code =
    0xb7 ∷ 0 ∷ 0 ∷ 0 ∷ 1 ∷ 0 ∷ 0 ∷ 0 ∷ 0x15 ∷ 0 ∷ 1 ∷ 0 ∷ 1 ∷ 0 ∷ 0 ∷ 0 ∷ 0xb7 ∷ 0 ∷ 0 ∷ 0 ∷ 7 ∷ 0
    ∷ 0 ∷ 0 ∷ 0x95 ∷ 0 ∷ 0 ∷ 0 ∷ 0 ∷ 0 ∷ 0 ∷ 0 ∷ []

abbrev none_registered : ℕ → Bool
none_registered k = false

branch_code-accepted : validate none_registered (insts_of branch_code) ≡ accept
unfolding validate insts_of
branch_code-accepted = refl

branch_code-AreBytes : AreBytes branch_code
branch_code-AreBytes = omega arith

translation-IsCompiled_example :
    (code : List ℕ) × (translation addresses true (insts_of branch_code) ≡ done (some code))
    × (length code ≤ inst_bytes * length (insts_of branch_code) + frame_bytes)
    × IsCompiled addresses (insts_of branch_code) code
unfolding insts_of
translation-IsCompiled_example =
    translation-IsCompiled addresses (insts_of branch_code) none_registered true
      branch_code-accepted (insts_of-FieldsFit branch_code branch_code-AreBytes) (omega arith)

-- push rbp, rbx, r13, r14, r15; mov rbp, rsp; sub rsp, 0x4000; mov rax, 1; cmp rax, 1; je +7;
-- mov rax, 7; add rsp, 0x4000; pop r15, r14, r13, rbx, rbp; ret; and the handler, whose jump of -60
-- leads to the epilogue
abbrev machine_code : List ℕ
machine_code =
    0x55 ∷ 0x53 ∷ 0x41 ∷ 0x55 ∷ 0x41 ∷ 0x56 ∷ 0x41 ∷ 0x57 ∷ 0x48 ∷ 0x89 ∷ 0xe5 ∷ 0x48 ∷ 0x81 ∷ 0xec
    ∷ 0x00 ∷ 0x40 ∷ 0x00 ∷ 0x00 ∷ 0x48 ∷ 0xc7 ∷ 0xc0 ∷ 0x01 ∷ 0x00 ∷ 0x00 ∷ 0x00 ∷ 0x48 ∷ 0x81
    ∷ 0xf8 ∷ 0x01 ∷ 0x00 ∷ 0x00 ∷ 0x00 ∷ 0x0f ∷ 0x84 ∷ 0x07 ∷ 0x00 ∷ 0x00 ∷ 0x00 ∷ 0x48 ∷ 0xc7
    ∷ 0xc0 ∷ 0x07 ∷ 0x00 ∷ 0x00 ∷ 0x00 ∷ 0x48 ∷ 0x81 ∷ 0xc4 ∷ 0x00 ∷ 0x40 ∷ 0x00 ∷ 0x00 ∷ 0x41
    ∷ 0x5f ∷ 0x41 ∷ 0x5e ∷ 0x41 ∷ 0x5d ∷ 0x5b ∷ 0x5d ∷ 0xc3 ∷ 0x48 ∷ 0xbf ∷ 0xa0 ∷ 0x56 ∷ 0xfa
    ∷ 0xf7 ∷ 0xff ∷ 0x7f ∷ 0x00 ∷ 0x00 ∷ 0x48 ∷ 0xc7 ∷ 0xc6 ∷ 0x10 ∷ 0x20 ∷ 0x40 ∷ 0x00 ∷ 0x48
    ∷ 0x89 ∷ 0xca ∷ 0x48 ∷ 0xb8 ∷ 0x00 ∷ 0x00 ∷ 0xe4 ∷ 0xf7 ∷ 0xff ∷ 0x7f ∷ 0x00 ∷ 0x00 ∷ 0xff
    ∷ 0xd0 ∷ 0x48 ∷ 0xc7 ∷ 0xc0 ∷ 0xff ∷ 0xff ∷ 0xff ∷ 0xff ∷ 0xe9 ∷ 0xc4 ∷ 0xff ∷ 0xff ∷ 0xff ∷ []

branch_code-translate_all : translate_all addresses (insts_of branch_code) ≡ ok machine_code
unfolding translate_all insts_of
branch_code-translate_all = refl

emit_alu-decode_example :
    (bytes : List ℕ) × (emit_alu alu64 0x01 rax 13 fresh ≡ ok (record fresh { code = [] ++ bytes }))
    × ((rest : List ℕ)
        → decode_register_form (bytes ++ rest)
          ≡ some (record { wide = is_wide alu64; opcode = 0x01; reg = rax; rm = 13 }, rest))
emit_alu-decode_example =
    emit_alu-decode alu64 0x01 rax 13 fresh (omega arith) (omega arith) (omega arith) (omega arith)
      (omega arith) (omega arith)
