-- ===== src/Prelude/Bytes.antt =====
-- `memcpy` into and out of a byte buffer: a buffer is a list of bytes, a pointer into it is the
-- offset from its start.
use Prim.Native.Nat.{ℕ, zero, suc, ◌+◌, ◌≤◌}
use mathlib.Core.Path.{◌≡◌, refl, sym, ap, ◌∙◌}
use mathlib.Core.List.{List, [], ◌∷◌, ◌++◌}
use mathlib.Core.Logic.{◌↔◌}
use mathlib.Core.Bool.{Bool, true, false, ◌&&◌}
use native.Mathlib.Omega.{arith}
use bpfabric.Prelude.Tests.{◌==◌}
use bpfabric.Prelude.Lists.{length, take, drop}

module _ {ℓ} {A : Type ℓ} where
  -- `src` over the front of `dst`.
  unfoldable pub overlay : List A → List A → List A
  overlay [] dst = dst
  overlay (s ∷ src) [] = []
  overlay (s ∷ src) (d ∷ dst) = s ∷ overlay src dst

  -- `memcpy(dst + off, src, n)` where `src` has the n bytes.
  unfoldable pub write_at : ℕ → List A → List A → List A
  unfolding overlay
  write_at zero src dst = overlay src dst
  write_at (suc off) src [] = []
  write_at (suc off) src (d ∷ dst) = d ∷ write_at off src dst

  -- The n bytes at `off`.
  unfoldable pub read_at : ℕ → ℕ → List A → List A
  read_at off n buf = take n (drop off buf)

  length-overlay : (src dst : List A) → length (overlay src dst) ≡ length dst
  unfolding overlay
  length-overlay [] dst = refl
  length-overlay (s ∷ src) [] = refl
  length-overlay (s ∷ src) (d ∷ dst) = ap suc (length-overlay src dst)

  pub length-write_at : (off : ℕ) (src dst : List A) → length (write_at off src dst) ≡ length dst
  unfolding write_at
  length-write_at zero src dst = length-overlay src dst
  length-write_at (suc off) src [] = refl
  length-write_at (suc off) src (d ∷ dst) = ap suc (length-write_at off src dst)

  take-overlay :
      (src dst : List A) → length src ≤ length dst → take (length src) (overlay src dst) ≡ src
  unfolding overlay
  take-overlay [] dst h = refl
  take-overlay (s ∷ src) [] h = absurd (omega arith)
  take-overlay (s ∷ src) (d ∷ dst) h = ap (λ t. s ∷ t) (take-overlay src dst (omega arith))

  -- What was copied in is read back.
  pub read_at-write_at :
      (off : ℕ) (src dst : List A)
      → off + length src ≤ length dst
      → read_at off (length src) (write_at off src dst) ≡ src
  unfolding read_at write_at
  read_at-write_at zero src dst h = take-overlay src dst (omega arith)
  read_at-write_at (suc off) [] [] h = refl
  read_at-write_at (suc off) (s ∷ src) [] h = absurd (omega arith)
  read_at-write_at (suc off) src (d ∷ dst) h = read_at-write_at off src dst (omega arith)

  pub read_at-write_at_of :
      (off n : ℕ) (src dst : List A)
      → length src ≡ n
      → off + n ≤ length dst
      → read_at off n (write_at off src dst) ≡ src
  read_at-write_at_of off n src dst e h =
      ap (λ k. read_at off k (write_at off src dst)) (sym e)
      ∙ read_at-write_at off src dst (omega arith)

  -- What stands at an offset is read there.
  pub read_at-append :
      (off : ℕ) (xs ys buf : List A) → drop off buf ≡ xs ++ ys → read_at off (length xs) buf ≡ xs
  unfolding read_at
  read_at-append off xs ys buf h = ap (take (length xs)) h ∙ take-append xs ys
    where
      take-append : (xs ys : List A) → take (length xs) (xs ++ ys) ≡ xs
      take-append [] ys = refl
      take-append (x ∷ xs) ys = ap (λ t. x ∷ t) (take-append xs ys)

  drop_nil : (n : ℕ) → drop {A = A} n [] ≡ []
  drop_nil zero = refl
  drop_nil (suc n) = refl

  drop_add : (off n : ℕ) (buf : List A) → drop (off + n) buf ≡ drop n (drop off buf)
  drop_add zero n buf = ap (λ k. drop k buf) (omega arith)
  drop_add (suc off) n [] =
      let e : suc off + n ≡ suc (off + n) = omega arith in rw e (sym (drop_nil n))
  drop_add (suc off) n (b ∷ buf) =
      let e : suc off + n ≡ suc (off + n) = omega arith in rw e (drop_add off n buf)

  drop_length : (xs ys : List A) → drop (length xs) (xs ++ ys) ≡ ys
  drop_length [] ys = refl
  drop_length (x ∷ xs) ys = drop_length xs ys

  pub drop-append :
      (off : ℕ) (xs ys buf : List A) → drop off buf ≡ xs ++ ys → drop (off + length xs) buf ≡ ys
  drop-append off xs ys buf h =
      drop_add off (length xs) buf ∙ (ap (drop (length xs)) h ∙ drop_length xs ys)

  drop-overlay : (n : ℕ) (src dst : List A) → length src ≤ n → drop n (overlay src dst) ≡ drop n dst
  unfolding overlay
  drop-overlay n [] dst h = refl
  drop-overlay zero (s ∷ src) dst h = absurd (omega arith)
  drop-overlay (suc n) (s ∷ src) [] h = refl
  drop-overlay (suc n) (s ∷ src) (d ∷ dst) h = drop-overlay n src dst (omega arith)

  -- A read past the copied range.
  pub read_at-write_above :
      (o off n : ℕ) (src dst : List A)
      → off + length src ≤ o
      → read_at o n (write_at off src dst) ≡ read_at o n dst
  unfolding read_at write_at
  read_at-write_above o zero n src dst h = ap (take n) (drop-overlay o src dst (omega arith))
  read_at-write_above zero (suc off) n src dst h = absurd (omega arith)
  read_at-write_above (suc o) (suc off) n src [] h = refl
  read_at-write_above (suc o) (suc off) n src (d ∷ dst) h =
      read_at-write_above o off n src dst (omega arith)

  -- A read before the copied range.
  pub read_at-write_below :
      (o off n : ℕ) (src dst : List A)
      → o + n ≤ off
      → read_at o n (write_at off src dst) ≡ read_at o n dst
  unfolding read_at write_at
  read_at-write_below o off zero src dst h = refl
  read_at-write_below o zero (suc n) src dst h = absurd (omega arith)
  read_at-write_below zero (suc off) (suc n) src [] h = refl
  read_at-write_below zero (suc off) (suc n) src (d ∷ dst) h =
      ap (λ t. d ∷ t) (read_at-write_below zero off n src dst (omega arith))
  read_at-write_below (suc o) (suc off) (suc n) src [] h = refl
  read_at-write_below (suc o) (suc off) (suc n) src (d ∷ dst) h =
      read_at-write_below o off (suc n) src dst (omega arith)

-- `strcmp(a, b) == 0`, and `memcmp(a, b, n) == 0` on keys of n bytes.
unfoldable pub bytes_eq : List ℕ → List ℕ → Bool
bytes_eq [] [] = true
bytes_eq [] (y ∷ ys) = false
bytes_eq (x ∷ xs) [] = false
bytes_eq (x ∷ xs) (y ∷ ys) = x == y && bytes_eq xs ys

pub bytes_eq-true : (xs ys : List ℕ) → bytes_eq xs ys ≡ true → xs ≡ ys
unfolding bytes_eq
bytes_eq-true [] [] h = refl
bytes_eq-true [] (y ∷ ys) h = absurd (cc)
bytes_eq-true (x ∷ xs) [] h = absurd (cc)
bytes_eq-true (x ∷ xs) (y ∷ ys) h = ground (arith, bytes_eq-true xs ys)

pub bytes_eq_refl : (xs : List ℕ) → bytes_eq xs xs ≡ true
unfolding bytes_eq
bytes_eq_refl [] = refl
bytes_eq_refl (x ∷ xs) = ground (arith, bytes_eq_refl xs)

pub bytes_eq_iff : (xs ys : List ℕ) → (bytes_eq xs ys ≡ true) ↔ (xs ≡ ys)
bytes_eq_iff xs ys = (bytes_eq-true xs ys, λ e. rw e (bytes_eq_refl ys))
