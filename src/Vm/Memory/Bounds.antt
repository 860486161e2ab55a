-- ===== src/Vm/Memory/Bounds.antt =====
-- What `bounds_check` guarantees, and what loads and stores do to memory.
use native.Mathlib.Nat.{pow-suc, mod-eq-sub-mul-div, div-add-mod, div-div-eq-div-mul}
use bpfabric.Prelude.{
  ℕ, zero, suc, ◌+◌, ◌*◌, ◌/◌, ◌%◌, ◌^◌, ◌≤◌, ◌<◌, ◌≡◌, ◌≢◌, ◌↔◌, ◌∙◌, ap, ◌⊎◌, refl, arith,
}
use bpfabric.Prelude.{true}
use bpfabric.Prelude.Words.{u64_mod, add64}
use bpfabric.Vm.Memory.{Memory, Regions, stack_size, poke, load, store, bounds_check}

-- An access of `size` bytes inside `[base, base + len)`.
abbrev pub Within : ℕ → ℕ → ℕ → ℕ → Type 0
Within base len addr size = (base ≤ addr) × (addr + size ≤ base + len)

-- The packet, if there is one, or the stack.
abbrev pub Inside : Regions → ℕ → ℕ → Type 0
Inside r addr size =
    ((0 < r.mem) × Within r.mem r.mem_len addr size) ⊎ Within r.stack stack_size addr size

-- The regions lie in the address space.
pub record IsPlaced (r : Regions) : Type 0 where
  pub mem_fits : r.mem + r.mem_len < u64_mod
  pub stack_fits : r.stack + stack_size < u64_mod

-- For an access that does not run past the end of the address space, the check passes exactly when
-- the access lies in the packet (if its pointer is not null) or in the stack.
pub bounds_check_iff :
    (r : Regions) (addr size : ℕ)
    → IsPlaced r
    → addr + size < u64_mod
    → (bounds_check r addr size ≡ true) ↔ Inside r addr size
unfolding bounds_check
bounds_check_iff r addr size p h = (λ e. ground arith, λ i. ground arith)

-- The end of an access at the top of the address space wraps to a small number, so the check
-- accepts any such access although it lies in neither region.
pub bounds_check-wraps :
    (r : Regions) (addr size : ℕ)
    → IsPlaced r
    → addr < u64_mod
    → u64_mod ≤ addr + size
    → size ≤ 8
    → r.stack ≤ addr
    → (bounds_check r addr size ≡ true) × ¬ Inside r addr size
unfolding bounds_check
bounds_check-wraps r addr size p lt wraps small above = (ground arith, λ i. ground arith)

pub add64-small : (a b : ℕ) → a + b < u64_mod → add64 a b ≡ a + b
unfolding add64
add64-small a b h = omega arith

poke_other : (m : Memory) (a v b : ℕ) → a ≢ b → poke m a v b ≡ m b
unfolding poke
poke_other m a v b h = ground arith

poke_self : (m : Memory) (a v : ℕ) → poke m a v a ≡ v
unfolding poke
poke_self m a v = ground arith

-- A store changes only the bytes it covers.
pub store_outside :
    (n : ℕ) (m : Memory) (a v b : ℕ)
    → a + n < u64_mod
    → (b < a) ⊎ (a + n ≤ b)
    → store n m a v b ≡ m b
unfolding store
store_outside zero m a v b fits out = refl
store_outside (suc n) m a v b fits out =
    let e : add64 a 1 ≡ a + 1 = add64-small a 1 (omega arith) in
    store_outside n (poke m a (v % 256)) (add64 a 1) (v / 256) b (omega arith) (omega arith)
    ∙ poke_other m a (v % 256) b (omega arith)

pub load-lt : (n : ℕ) (m : Memory) (a : ℕ) → ((b : ℕ) → m b < 256) → load n m a < 256 ^ n
unfolding load
load-lt zero m a h = omega arith
load-lt (suc n) m a h = omega (arith, pow-suc 256 n, h a, load-lt n m (add64 a 1) h)

digit_mod_by : (p v : ℕ) → v % 256 + 256 * (v / 256 % p) ≡ v % (256 * p)
digit_mod_by p v = omega (
  arith,
  mod-eq-sub-mul-div v (256 * p),
  div-add-mod (v / 256) p,
  ap (λ (t : ℕ). 256 * p * t) (div-div-eq-div-mul v 256 p),
)

digit_mod : (n v : ℕ) → v % 256 + 256 * (v / 256 % 256 ^ n) ≡ v % 256 ^ suc n
digit_mod n v = digit_mod_by (256 ^ n) v ∙ ap (λ t. v % t) (omega (arith, pow-suc 256 n))

-- A load of the bytes that a store wrote gives the stored value, truncated to their number.
pub load-store :
    (n : ℕ) (m : Memory) (a v : ℕ) → a + n < u64_mod → load n (store n m a v) a ≡ v % 256 ^ n
unfolding load store
load-store zero m a v h = omega arith
load-store (suc n) m a v h =
    let e : add64 a 1 ≡ a + 1 = add64-small a 1 (omega arith) in
    let low : store n (poke m a (v % 256)) (add64 a 1) (v / 256) a ≡ v % 256 =
      store_outside n (poke m a (v % 256)) (add64 a 1) (v / 256) a (omega arith) (omega arith)
      ∙ poke_self m a (v % 256) in
    let rest = load-store n (poke m a (v % 256)) (add64 a 1) (v / 256) (omega arith) in
    omega (arith, low, rest, digit_mod n v)

poke-byte : (m : Memory) (a v : ℕ) → ((b : ℕ) → m b < 256) → (c : ℕ) → poke m a (v % 256) c < 256
unfolding poke
poke-byte m a v h c = ground (arith, h c)

pub store-byte :
    (n : ℕ) (m : Memory) (a v : ℕ) → ((b : ℕ) → m b < 256) → (b : ℕ) → store n m a v b < 256
unfolding store
store-byte zero m a v h b = h b
store-byte (suc n) m a v h b =
    store-byte n (poke m a (v % 256)) (add64 a 1) (v / 256) (poke-byte m a v h) b
