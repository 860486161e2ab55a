-- ===== src/Vm/Jit/Extends.antt =====
-- What an emitter of ubpf/ubpf_jit_x86_64.h adds to the code and to the jumps.
use mathlib.Core.List.{append_assoc, append-nil}
use bpfabric.Prelude.{
  ℕ, ◌+◌, ◌-◌, ◌%◌, ◌≤◌, ◌<◌, ◌≡◌, refl, sym, ap, ◌∙◌, arith, Bool, true, false, List, [], ◌∷◌,
  ◌++◌, length, if◌then◌else◌, length-append, le→leb, lt→ltb,
}
use bpfabric.Prelude.Words.{u32_mod}
use bpfabric.Vm.Validate.{max_insts}
use bpfabric.Vm.Jit.State.{
  Jump, Jit, ok, Emitter, ◌and_next◌, nothing, require, emit_bytes, record_jump, emit_jump_offset,
  emit4, rel_size, ◌>>=◌,
}

-- The offset fields of the jumps stand one behind the other between two locations, and their
-- targets satisfy `P`.
abbrev pub Between : (ℕ → Type 0) → ℕ → ℕ → List Jump → Type 0
Between P lo hi [] = lo ≤ hi
Between P lo hi (j ∷ js) =
    (lo ≤ j.offset_loc) × P j.target_pc × Between P (j.offset_loc + rel_size) hi js

-- At most `n` bytes of code and `k` jumps are added.
pub record Extends (P : ℕ → Type 0) (n k : ℕ) (s s' : Jit) : Type 0 where
  pub bytes : List ℕ
  pub js : List Jump
  pub code : s'.code ≡ s.code ++ bytes
  pub jumps : s'.jumps ≡ s.jumps ++ js
  pub size : s'.size ≡ s.size
  pub few_bytes : length bytes ≤ n
  pub few_jumps : length js ≤ k
  pub between : Between P (length s.code) (length s'.code) js

-- There is room for `n` bytes and `k` jumps.
pub record HasRoom (n k : ℕ) (s : Jit) : Type 0 where
  pub small : s.size < u32_mod
  pub bytes_fit : length s.code + n ≤ s.size
  pub jumps_fit : length s.jumps + k ≤ max_insts

-- The locations are left alone.
abbrev pub KeepsLocs : Jit → Jit → Type 0
KeepsLocs s s' =
    (s'.pc_locs ≡ s.pc_locs) × (s'.exit_loc ≡ s.exit_loc) × (s'.div_by_zero_loc ≡ s.div_by_zero_loc)

-- Where there is room for `n` bytes and `k` jumps, the emitter returns and adds no more than these.
abbrev pub Emits : (ℕ → Type 0) → ℕ → ℕ → Emitter → Type 0
Emits P n k f =
    (s : Jit) → HasRoom n k s → (s' : Jit) × (f s ≡ ok s') × Extends P n k s s' × KeepsLocs s s'

pub HasRoom-le : (n k m l : ℕ) (s : Jit) → n ≤ m → k ≤ l → HasRoom m l s → HasRoom n k s
HasRoom-le n k m l s p q r = record {
  small = r.small;
  bytes_fit = omega (arith, r.bytes_fit, p);
  jumps_fit = omega (arith, r.jumps_fit, q);
}

-- The first of two emitters has returned.
pub and_next-ok : (f g : Emitter) (s s' : Jit) → f s ≡ ok s' → (f and_next g) s ≡ g s'
unfolding ◌and_next◌
and_next-ok f g s s' e = ap (λ t. t >>= g) e

module _ (P : ℕ → Type 0) where
  pub Between-le : (lo hi : ℕ) (js : List Jump) → Between P lo hi js → lo ≤ hi
  Between-le lo hi [] h = h
  Between-le lo hi (j ∷ js) (a, p, b) =
      omega (arith, a, Between-le (j.offset_loc + rel_size) hi js b)

  pub Between-append :
      (lo mid hi : ℕ) (xs ys : List Jump)
      → Between P lo mid xs
      → Between P mid hi ys
      → Between P lo hi (xs ++ ys)
  Between-append lo mid hi [] [] a b = omega arith
  Between-append lo mid hi [] (j ∷ ys) a (b, p, c) = (omega arith, p, c)
  Between-append lo mid hi (j ∷ xs) ys (a, p, c) b =
      (a, p, Between-append (j.offset_loc + rel_size) mid hi xs ys c b)

  pub length-Extends :
      (n k : ℕ) (s s' : Jit) → Extends P n k s s' → length s'.code ≤ length s.code + n
  length-Extends n k s s' e =
      omega (arith, ap length e.code, length-append s.code e.bytes, e.few_bytes)

  pub Extends-refl : (s : Jit) → Extends P 0 0 s s
  Extends-refl s = record {
    bytes = [];
    js = [];
    code = sym (append-nil s.code);
    jumps = sym (append-nil s.jumps);
    size = refl;
    few_bytes = omega arith;
    few_jumps = omega arith;
    between = omega arith;
  }

  pub Extends-trans :
      (n k m l : ℕ) (s s' s'' : Jit)
      → Extends P n k s s'
      → Extends P m l s' s''
      → Extends P (n + m) (k + l) s s''
  Extends-trans n k m l s s' s'' a b = record {
    bytes = a.bytes ++ b.bytes;
    js = a.js ++ b.js;
    code = b.code ∙ (ap (λ c. c ++ b.bytes) a.code ∙ append_assoc s.code a.bytes b.bytes);
    jumps = b.jumps ∙ (ap (λ c. c ++ b.js) a.jumps ∙ append_assoc s.jumps a.js b.js);
    size = b.size ∙ a.size;
    few_bytes = omega (arith, length-append a.bytes b.bytes, a.few_bytes, b.few_bytes);
    few_jumps = omega (arith, length-append a.js b.js, a.few_jumps, b.few_jumps);
    between = Between-append _ _ _ a.js b.js a.between b.between;
  }

  pub Extends-le :
      (n k m l : ℕ) (s s' : Jit) → n ≤ m → k ≤ l → Extends P n k s s' → Extends P m l s s'
  Extends-le n k m l s s' p q x = record {
    bytes = x.bytes;
    js = x.js;
    code = x.code;
    jumps = x.jumps;
    size = x.size;
    few_bytes = omega (arith, x.few_bytes, p);
    few_jumps = omega (arith, x.few_jumps, q);
    between = x.between;
  }

  pub Extends-jumps :
      (n k : ℕ) (s s' : Jit)
      → s.jumps ≡ []
      → Extends P n k s s'
      → Between P (length s.code) (length s'.code) s'.jumps
  Extends-jumps n k s s' none_yet x =
      let same : s'.jumps ≡ x.js = x.jumps ∙ ap (λ js. js ++ x.js) none_yet in rw same x.between

  pub HasRoom-Extends :
      (n k m l : ℕ) (s s' : Jit) → HasRoom (n + m) (k + l) s → Extends P n k s s' → HasRoom m l s'
  HasRoom-Extends n k m l s s' r e = record {
    small = omega (arith, e.size, r.small);
    bytes_fit = omega (arith, e.size, r.bytes_fit, length-Extends n k s s' e);
    jumps_fit =
        omega (arith, r.jumps_fit, ap length e.jumps, length-append s.jumps e.js, e.few_jumps);
  }

  pub Emits-next :
      {n k m l : ℕ} {f g : Emitter}
      → Emits P n k f
      → Emits P m l g
      → Emits P (n + m) (k + l) (f and_next g)
  unfolding ◌and_next◌
  Emits-next {n} {k} {m} {l} {f} {g} a b s r =
      let front = HasRoom-le n k (n + m) (k + l) s (omega arith) (omega arith) r in
      let (s', e, x, kept) = a s front in
      let (s'', e', x', kept') = b s' (HasRoom-Extends n k m l s s' r x) in
      (
        s'',
        ap (λ t. t >>= g) e ∙ e',
        Extends-trans n k m l s s' s'' x x',
        (kept'.0 ∙ kept.0, kept'.1 ∙ kept.1, kept'.2 ∙ kept.2),
      )

  pub Emits-le : {n k m l : ℕ} {f : Emitter} → n ≤ m → k ≤ l → Emits P n k f → Emits P m l f
  Emits-le {n} {k} {m} {l} {f} p q a s r =
      let (s', e, x, kept) = a s (HasRoom-le n k m l s p q r) in
      (s', e, Extends-le n k m l s s' p q x, kept)

  pub Emits-if :
      {n k : ℕ} (b : Bool) {f g : Emitter}
      → Emits P n k f
      → Emits P n k g
      → Emits P n k (if b then f else g)
  Emits-if true a b = a
  Emits-if false a b = b

  pub nothing-Emits : Emits P 0 0 nothing
  unfolding nothing
  nothing-Emits s r = (s, refl, Extends-refl s, (refl, refl, refl))

  pub require-Emits : (b : Bool) → b ≡ true → Emits P 0 0 (require b)
  unfolding require
  require-Emits true h s r = (s, refl, Extends-refl s, (refl, refl, refl))
  require-Emits false h s r = absurd (cc)

  pub emit_bytes-Emits : (bs : List ℕ) → Emits P (length bs) 0 (emit_bytes bs)
  unfolding emit_bytes
  emit_bytes-Emits bs s r =
      let fits =
        le→leb (length s.code) ((s.size + (u32_mod - length bs)) % u32_mod)
          (omega (arith, r.bytes_fit, r.small)) in
      (
        record s { code = s.code ++ bs },
        rw fits,
        record {
          bytes = bs;
          js = [];
          code = refl;
          jumps = sym (append-nil s.jumps);
          size = refl;
          few_bytes = omega arith;
          few_jumps = omega arith;
          between = omega (arith, length-append s.code bs);
        },
        (refl, refl, refl),
      )

  pub emit_jump_offset-Emits : (t : ℕ) → P t → Emits P 4 1 (emit_jump_offset t)
  unfolding emit_jump_offset record_jump ◌and_next◌ emit4 emit_bytes
  emit_jump_offset-Emits t p s r =
      let jump : Jump = record { offset_loc = length s.code; target_pc = t } in
      let room = lt→ltb (length s.jumps) max_insts (omega (arith, r.jumps_fit)) in
      let fits =
        le→leb (length s.code) ((s.size + (u32_mod - 4)) % u32_mod)
          (omega (arith, r.bytes_fit, r.small)) in
      (
        record s { code = s.code ++ (0 ∷ 0 ∷ 0 ∷ 0 ∷ []); jumps = s.jumps ++ (jump ∷ []) },
        rw (room, fits),
        record {
          bytes = 0 ∷ 0 ∷ 0 ∷ 0 ∷ [];
          js = jump ∷ [];
          code = refl;
          jumps = refl;
          size = refl;
          few_bytes = omega arith;
          few_jumps = omega arith;
          between = (omega arith, p, omega (arith, length-append s.code (0 ∷ 0 ∷ 0 ∷ 0 ∷ [])));
        },
        (refl, refl, refl),
      )

-- Two emitters, one after the other.
infixr 6 ◌before◌
pub ◌before◌ :
    {P : ℕ → Type 0} {n k m l : ℕ} {f g : Emitter}
    → Emits P n k f
    → Emits P m l g
    → Emits P (n + m) (k + l) (f and_next g)
◌before◌ {P} a b = Emits-next P a b
