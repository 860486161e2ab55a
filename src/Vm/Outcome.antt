-- ===== src/Vm/Outcome.antt =====
-- How the interpreter of ubpf/ubpf_vm.c stops.
use bpfabric.Prelude.{ℕ, ◌≡◌}

-- The run-time checks that print a message and return UINT64_MAX.
pub data Error : Type 0 where
  division_by_zero out_of_bounds : Error

-- Where the C code has no defined behaviour, or traps: a fetch past the end of the code, a division
-- by a divisor whose low 32 bits are 0, a shift by the operand's width or more, and a call through
-- a null pointer.
pub data Fault : Type 0 where
  no_instruction division_trap shift_undefined null_call : Fault

pub data Halt : Type 0 where
  returned : ℕ → Halt
  error : Error → Halt
  fault : Fault → Halt

pub data Run {ℓ} (A : Type ℓ) : Type ℓ where
  ok : A → Run A
  halt : Halt → Run A

infixl 5 ◌>>=◌
abbrev pub ◌>>=◌ {ℓ κ} : {A : Type ℓ} {B : Type κ} → Run A → (A → Run B) → Run B
ok a >>= f = f a
halt h >>= f = halt h

-- `P` holds of a result, `H` of a way to stop.
abbrev pub Post {ℓ} : {A : Type ℓ} → (A → Type 0) → (Halt → Type 0) → Run A → Type 0
Post P H (ok a) = P a
Post P H (halt h) = H h

module _ {ℓ κ} {A : Type ℓ} {B : Type κ} where
  pub Post-bind :
      (P : A → Type 0) (Q : B → Type 0) (H : Halt → Type 0) (r : Run A) (f : A → Run B)
      → Post P H r
      → ((a : A) → P a → Post Q H (f a))
      → Post Q H (r >>= f)
  Post-bind P Q H (ok a) f h k = k a h
  Post-bind P Q H (halt e) f h k = h

pub Post-mono {ℓ} :
    {A : Type ℓ} (P Q : A → Type 0) (H K : Halt → Type 0) (r : Run A)
    → ((a : A) → P a → Q a)
    → ((h : Halt) → H h → K h)
    → Post P H r
    → Post Q K r
Post-mono P Q H K (ok a) f g h = f a h
Post-mono P Q H K (halt e) f g h = g e h

ok-injective {ℓ} : {A : Type ℓ} {a b : A} → ok a ≡ ok b → a ≡ b
ok-injective e = cc

halt-injective {ℓ} : (A : Type ℓ) {x y : Halt} → ◌≡◌ {A = Run A} (halt x) (halt y) → x ≡ y
halt-injective A e = cc

pub Post-ok {ℓ} :
    {A : Type ℓ} (P : A → Type 0) (H : Halt → Type 0) (r : Run A) {a : A}
    → Post P H r
    → r ≡ ok a
    → P a
Post-ok P H (ok b) h e = let same : b ≡ _ = ok-injective e in rw (← same) h
Post-ok P H (halt x) h e = absurd (cc)

pub Post-halt {ℓ} :
    {A : Type ℓ} (P : A → Type 0) (H : Halt → Type 0) (r : Run A) {x : Halt}
    → Post P H r
    → r ≡ halt x
    → H x
Post-halt P H (ok b) h e = absurd (cc)
Post-halt {A} P H (halt y) h e = let same : y ≡ _ = halt-injective A e in rw (← same) h

pub Post-both {ℓ} :
    {A : Type ℓ} (P Q : A → Type 0) (H K : Halt → Type 0) (r : Run A)
    → Post P H r
    → Post Q K r
    → Post (λ a. P a × Q a) (λ h. H h × K h) r
Post-both P Q H K (ok a) x y = (x, y)
Post-both P Q H K (halt h) x y = (x, y)
