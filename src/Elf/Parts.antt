-- ===== src/Elf/Parts.antt =====
-- The parts of `ubpf_load_elf` in sequence: what it says that a chain of them succeeded.
use bpfabric.Prelude.{◌≡◌, refl, ap, Bool, true, false, Option, none, some}
use bpfabric.Elf.{Part, fine, error, wild, ◌>>=◌, ◌>>◌, require, follow, ElfError}

pub fine-injective {ℓ} : {A : Type ℓ} {a b : A} → fine a ≡ fine b → a ≡ b
fine-injective e = cc

pub bind-fine {ℓ κ} :
    {A : Type ℓ} {B : Type κ} (m : Part A) (f : A → Part B) {b : B}
    → m >>= f ≡ fine b
    → (a : A) × (m ≡ fine a) × (f a ≡ fine b)
bind-fine (fine a) f h = (a, refl, h)
bind-fine (error e) f h = absurd (cc)
bind-fine wild f h = absurd (cc)

pub require-fine {ℓ} :
    {A : Type ℓ} (b : Bool) (e : ElfError) (m : Part A) {a : A}
    → require b e >> m ≡ fine a
    → (b ≡ true) × (m ≡ fine a)
require-fine true e m h = (refl, h)
require-fine false e m h = absurd (cc)

pub follow-fine {ℓ} : {A : Type ℓ} (o : Option A) {a : A} → follow o ≡ fine a → o ≡ some a
follow-fine none h = absurd (cc)
follow-fine (some a) h = ap some (fine-injective h)

-- `P` holds of the value, where there is one.
abbrev pub After {ℓ} : {A : Type ℓ} → (A → Type 0) → Part A → Type 0
After P (fine a) = P a
After P (error e) = Unit
After P wild = Unit

module _ {ℓ} {A : Type ℓ} where
  pub After-require :
      (P : A → Type 0) (b : Bool) (e : ElfError) (m : Part A)
      → (b ≡ true → After P m)
      → After P (require b e >> m)
  After-require P true e m h = h refl
  After-require P false e m h = tt

  pub After-skip :
      (P : A → Type 0) (b : Bool) (e : ElfError) (m : Part A)
      → After P m
      → After P (require b e >> m)
  After-skip P b e m h = After-require P b e m (λ t. h)

  pub After-fine : (P : A → Type 0) (m : Part A) {a : A} → After P m → m ≡ fine a → P a
  After-fine P (fine a) h e = let same = fine-injective e in rw (← same) h
  After-fine P (error x) h e = absurd (cc)
  After-fine P wild h e = absurd (cc)

pub After-bind {ℓ κ} :
    {A : Type ℓ} {B : Type κ} (P : A → Type 0) (Q : B → Type 0) (m : Part A) (f : A → Part B)
    → After P m
    → ((a : A) → P a → After Q (f a))
    → After Q (m >>= f)
After-bind P Q (fine a) f h k = k a h
After-bind P Q (error e) f h k = tt
After-bind P Q wild f h k = tt

module _ {ℓ} {A : Type ℓ} where
  pub After-intro : (P : A → Type 0) (m : Part A) → ((a : A) → m ≡ fine a → P a) → After P m
  After-intro P (fine a) h = h a refl
  After-intro P (error e) h = tt
  After-intro P wild h = tt

-- What follows a part whose value does not matter.
pub After-any {ℓ κ} :
    {A : Type ℓ} {B : Type κ} (Q : B → Type 0) (m : Part A) (f : A → Part B)
    → ((a : A) → After Q (f a))
    → After Q (m >>= f)
After-any Q m f h =
    After-bind (λ a. Unit) Q m f (After-intro (λ a. Unit) m (λ a e. tt)) (λ a u. h a)
