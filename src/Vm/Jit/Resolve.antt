-- ===== src/Vm/Jit/Resolve.antt =====
-- `resolve_jumps` of ubpf/ubpf_jit_x86_64.c: what it writes, and what it leaves alone.
use bpfabric.Prelude.{
  ℕ, ◌+◌, ◌%◌, ◌≤◌, ◌<◌, ◌≡◌, ◌⊎◌, refl, ap, ◌∙◌, arith, inl, inr, List, [], ◌∷◌, length,
}
use bpfabric.Prelude.Words.{u32_mod}
use bpfabric.Prelude.Bytes.{
  read_at, length-write_at, read_at-write_at_of, read_at-write_above, read_at-write_below,
}
use bpfabric.Maps.Attr.{u32_of, bytes_of}
use bpfabric.Vm.Jit.State.{Jump, Jit, ok, rel_size}
use bpfabric.Vm.Jit.Translate.{target_loc, relative, patch, resolve}
use bpfabric.Vm.Jit.Extends.{Between, Between-le}

-- The n bytes at `o` hold no offset field.
abbrev pub Apart : ℕ → ℕ → List Jump → Type 0
Apart o n [] = Unit
Apart o n (j ∷ js) = ((o + n ≤ j.offset_loc) ⊎ (j.offset_loc + rel_size ≤ o)) × Apart o n js

-- The offset that stands in the code leads from the end of the field to the target's location.
abbrev pub Leads : Jit → List ℕ → Jump → Type 0
Leads s code j =
    (loc : ℕ) × (target_loc s j.target_pc ≡ ok loc)
    × ((j.offset_loc + rel_size + u32_of (read_at j.offset_loc rel_size code)) % u32_mod
        ≡ loc % u32_mod)

abbrev pub AllLead : Jit → List ℕ → List Jump → Type 0
AllLead s code [] = Unit
AllLead s code (j ∷ js) = Leads s code j × AllLead s code js

pub record IsResolved (s : Jit) (js : List Jump) (code code' : List ℕ) : Type 0 where
  pub same_length : length code' ≡ length code
  pub lead : AllLead s code' js
  pub kept : (o n : ℕ) → Apart o n js → read_at o n code' ≡ read_at o n code

relative_adds : (loc off : ℕ) → (off + rel_size + relative loc off) % u32_mod ≡ loc % u32_mod
unfolding relative
relative_adds loc off = omega arith

relative-lt : (loc off : ℕ) → relative loc off < u32_mod
unfolding relative
relative-lt loc off = omega arith

u32_of-bytes_of : (x : ℕ) → x < u32_mod → u32_of (bytes_of x) ≡ x
unfolding u32_of bytes_of
u32_of-bytes_of x h = omega arith

length-bytes_of : (x : ℕ) → length (bytes_of x) ≡ rel_size
unfolding bytes_of
length-bytes_of x = refl

read_patch :
    (off loc : ℕ) (code : List ℕ)
    → off + rel_size ≤ length code
    → u32_of (read_at off rel_size (patch off loc code)) ≡ relative loc off
unfolding patch
read_patch off loc code inside =
    ap u32_of (
      read_at-write_at_of off rel_size (bytes_of (relative loc off)) code
        (length-bytes_of (relative loc off)) inside)
    ∙ u32_of-bytes_of (relative loc off) (relative-lt loc off)

length-patch : (off loc : ℕ) (code : List ℕ) → length (patch off loc code) ≡ length code
unfolding patch
length-patch off loc code = length-write_at off (bytes_of (relative loc off)) code

read_at-patch :
    (o n off loc : ℕ) (code : List ℕ)
    → (o + n ≤ off) ⊎ (off + rel_size ≤ o)
    → read_at o n (patch off loc code) ≡ read_at o n code
unfolding patch
read_at-patch o n off loc code (inl h) =
    read_at-write_below o off n (bytes_of (relative loc off)) code h
read_at-patch o n off loc code (inr h) =
    read_at-write_above o off n (bytes_of (relative loc off)) code
      (omega (arith, h, length-bytes_of (relative loc off)))

module _ (P : ℕ → Type 0) (s : Jit)
    (known : (t : ℕ) → P t → (loc : ℕ) × (target_loc s t ≡ ok loc)) where
  Between-Apart :
      (o lo hi : ℕ) (js : List Jump) → Between P lo hi js → o + rel_size ≤ lo → Apart o rel_size js
  Between-Apart o lo hi [] b h = tt
  Between-Apart o lo hi (j ∷ js) (a, p, b) h = (
    inl (omega (arith, a, h)),
    Between-Apart o (j.offset_loc + rel_size) hi js b (omega (arith, a, h)),
  )

  -- The jumps whose fields stand apart in the code are all resolved.
  pub resolve-IsResolved :
      (lo hi : ℕ) (js : List Jump) (code : List ℕ)
      → Between P lo hi js
      → hi ≤ length code
      → (code' : List ℕ) × (resolve s js code ≡ ok code') × IsResolved s js code code'
  unfolding resolve
  resolve-IsResolved lo hi [] code b h =
      (code, refl, record { same_length = refl; lead = tt; kept = λ o n a. refl })
  resolve-IsResolved lo hi (j ∷ js) code (a, p, b) h =
      let (loc, e) = known j.target_pc p in
      let off = j.offset_loc in
      let code1 = patch off loc code in
      let len1 = length-patch off loc code in
      let le = Between-le P (off + rel_size) hi js b in
      let (code', e', r) =
        resolve-IsResolved (off + rel_size) hi js code1 b (omega (arith, len1, h)) in
      let field = r.kept off rel_size (Between-Apart off (off + rel_size) hi js b (omega arith)) in
      let stored : (u32_of (read_at off rel_size code') ≡ relative loc off) =
        ap u32_of field ∙ read_patch off loc code (omega (arith, le, h)) in
      (
        code',
        rw e e',
        record {
          same_length = r.same_length ∙ len1;
          lead = (
            (loc, e, ap (λ x. (off + rel_size + x) % u32_mod) stored ∙ relative_adds loc off),
            r.lead,
          );
          kept = λ o n apart. r.kept o n apart.1 ∙ read_at-patch o n off loc code apart.0;
        },
      )
