-- ===== src/Elf/Relocate/Insts.antt =====
-- What a relocation does to the program: the instruction at its offset gets another immediate value.
use bpfabric.Prelude.{ℕ, ◌+◌, ◌-◌, ◌*◌, ◌%◌, ◌≤◌, ◌<◌, ◌≡◌, ◌≢◌, arith, refl, sym, ap, ◌∙◌}
use bpfabric.Prelude.{
  false, List, [], ◌∷◌, Option, none, some, length, get_elem?, set, ◌==◌, ==_iff, Bool-cases,
  get_elem?-set_self, get_elem?-lt, inl, inr,
}
use bpfabric.Prelude.Words.{u32_mod}
use bpfabric.Ebpf.{Inst}
use bpfabric.Maps.Attr.{bytes_of}
use bpfabric.Maps.Ght.{Ght}
use bpfabric.Maps.Registry.{Maps, Call, done, crash}
use bpfabric.Vm.Code.{Vm, insts_of}
use bpfabric.Tables.{TableEntry, find_table, name_size}
use bpfabric.Elf.{fine, Relocation, string_at, follow, require, bad_relocation_inst}
use bpfabric.Elf.Parts.{fine-injective, bind-fine, follow-fine}
use bpfabric.Elf.Relocate.{
  poke, store_fd, relocate_map, inst_index, require_lddw, found_fd, lddw_opcode, pseudo_map_fd,
}
use bpfabric.Elf.Relocate.Writes.{
  some-injective, poke-write_at, inst_at, insts_of-imm, insts_of-src, opcode_at, set_twice,
}

-- The index of an instruction whose offset is a multiple of 8.
index_of : (r : Relocation) (k : ℕ) → r.r_offset ≡ 8 * k → k < u32_mod → inst_index r ≡ k
unfolding inst_index
index_of r k at small = omega arith

store_fd-sets :
    (k fd : ℕ) (text text' : List ℕ) (i : Inst)
    → get_elem? (insts_of text) k ≡ some i
    → store_fd k fd text ≡ fine text'
    → insts_of text' ≡ set (insts_of text) k (record i { src = 1; imm = fd % u32_mod })
unfolding store_fd
store_fd-sets k fd text text' i found e =
    let (b, at_b, e1) = bind-fine (follow (get_elem? text (8 * k + 1))) _ e in
    let (text1, poked, e2) = bind-fine (poke (8 * k + 1) ((b % 16 + 16) ∷ []) text) _ e1 in
    let (_, written1) = poke-write_at (8 * k + 1) ((b % 16 + 16) ∷ []) text poked in
    let (_, written2) = poke-write_at (8 * k + 4) (bytes_of fd) text1 e2 in
    let sourced : insts_of text1 ≡ set (insts_of text) k (record i { src = 1 }) =
      ap insts_of (sym written1) ∙ insts_of-src k b text i found (follow-fine _ at_b) in
    let now : get_elem? (insts_of text1) k ≡ some (record i { src = 1 }) =
      rw sourced (get_elem?-set_self (insts_of text) k _ (get_elem?-lt (insts_of text) k found)) in
    ap insts_of (sym written2)
    ∙ (insts_of-imm k fd text1 (record i { src = 1 }) now
        ∙ (ap (λ is. set is k (record i { src = 1; imm = fd % u32_mod })) sourced
            ∙ set_twice (insts_of text) k _ _))

found_fd-some :
    (g : Ght) (c : Call (Option TableEntry)) (fd : ℕ)
    → found_fd g c ≡ fine fd
    → (e : TableEntry) × (c ≡ done (some e)) × (e.fd ≡ fd)
unfolding found_fd
found_fd-some g crash fd h = absurd (cc)
found_fd-some g (done none) fd h = absurd (cc)
found_fd-some g (done (some e)) fd h = (e, refl, fine-injective h)

require_lddw-opcode :
    (k : ℕ) (text : List ℕ) (i : Inst) {u : Unit {0}}
    → get_elem? (insts_of text) k ≡ some i
    → require_lddw k text ≡ fine u
    → i.opcode ≡ lddw_opcode
unfolding require_lddw
require_lddw-opcode k text i found e =
    let (opcode, at_k, e1) = bind-fine (follow (get_elem? text (8 * k))) _ e in
    let same : opcode ≡ i.opcode =
      some-injective (sym (follow-fine _ at_k) ∙ opcode_at k text i found) in
    elim (Bool-cases (opcode == lddw_opcode)) [
      | inl t ↦ rw (← same) ((==_iff opcode lddw_opcode).0 t)
      | inr f ↦ absurd (wrong opcode f e1)
    ]
  where
    wrong :
        (opcode : ℕ) {u : Unit {0}}
        → (opcode == lddw_opcode) ≡ false
        → require (opcode == lddw_opcode) bad_relocation_inst ≢ fine u
    wrong opcode f e =
        let e' : require false bad_relocation_inst ≡ fine tt = rw f at e in absurd (cc)

-- A map relocation that succeeds at the offset of an instruction of the text, with an index below
-- 2 ^ 32, has found a listed table of the symbol's name; the instruction is an LDDW, and nothing
-- changes but its source field, which becomes BPF_PSEUDO_MAP_FD, and its immediate value, which
-- becomes the number of the table's map.
pub relocate_map-sets :
    (g : Ght) (file : List ℕ) (maps : Maps g) (tables : ℕ) (r : Relocation) (name_at k : ℕ)
    (text text' : List ℕ)
    → r.r_offset ≡ 8 * k
    → k < u32_mod
    → 8 * k + 8 ≤ length text
    → relocate_map g file maps tables r name_at text ≡ fine text'
    → (name : List ℕ) × (e : TableEntry) × (i : Inst) × (string_at file (name_size - 1) name_at
        ≡ fine name)
      × (find_table g maps tables name ≡ done (some e))
      × (get_elem? (insts_of text) k ≡ some i)
      × (i.opcode ≡ lddw_opcode)
      × (insts_of text'
          ≡ set (insts_of text) k (record i { src = pseudo_map_fd; imm = e.fd % u32_mod }))
unfolding relocate_map
relocate_map-sets g file maps tables r name_at k text text' at small inside e =
    let idx = index_of r k at small in
    let (i, found) = inst_at k text inside in
    let (u, lddw, e1) = bind-fine (require_lddw (inst_index r) text) _ e in
    let (name, read, e2) = bind-fine (string_at file (name_size - 1) name_at) _ e1 in
    let (fd, fd_found, e3) = bind-fine (found_fd g (find_table g maps tables name)) _ e2 in
    let (entry, listed, fd_of) = found_fd-some g _ fd fd_found in
    (
      name,
      entry,
      i,
      read,
      listed,
      found,
      require_lddw-opcode k text i found (rw (← idx) lddw),
      rw fd_of (store_fd-sets k fd text text' i found (rw (← idx) e3)),
    )
