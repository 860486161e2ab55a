-- ===== src/Maps/ArrayMap/Keys.antt =====
-- Iteration over the keys of an array map by `array_map_get_next_key`.
use bpfabric.Prelude.{ℕ, zero, suc, ◌+◌, ◌-◌, ◌≤◌, ◌<◌, ◌≡◌, refl, ap, ◌∙◌, arith}
use bpfabric.Prelude.{List, [], ◌∷◌, map}
use bpfabric.Prelude.Words.{u32_mod}
use bpfabric.Maps.Attr.{Result, ok, err, enoent, u32_of, bytes_of}
use bpfabric.Maps.Attr.Rounding.{u32_of-bytes_of}
use bpfabric.Maps.ArrayMap.{ArrayMap, get_next_key}

-- A client's loop `while (get_next_key(map, key, key) == 0)`: the keys that it sees.
walk_from : ℕ → ArrayMap → Result (List ℕ) → List (List ℕ)
unfolding get_next_key
walk_from fuel a (err e) = []
walk_from zero a (ok key) = key ∷ []
walk_from (suc fuel) a (ok key) = key ∷ walk_from fuel a (get_next_key a key)

pub walk : ℕ → ArrayMap → List ℕ → List (List ℕ)
unfolding walk_from
walk fuel a key = walk_from fuel a (get_next_key a key)

-- i, i + 1, ..., i + n - 1
abbrev pub count_up : ℕ → ℕ → List ℕ
count_up i zero = []
count_up i (suc n) = i ∷ count_up (i + 1) n

module _ (a : ArrayMap) (small : a.max_entries < u32_mod) where
  next_inside :
      (i : ℕ) → i + 1 < a.max_entries → get_next_key a (bytes_of i) ≡ ok (bytes_of (i + 1))
  unfolding get_next_key
  next_inside i h = ground (arith, u32_of-bytes_of i)

  next_last : (i : ℕ) → i + 1 ≡ a.max_entries → get_next_key a (bytes_of i) ≡ err enoent
  unfolding get_next_key
  next_last i h = ground (arith, u32_of-bytes_of i)

  next_outside : (key : List ℕ) → a.max_entries ≤ u32_of key → get_next_key a key ≡ ok (bytes_of 0)
  unfolding get_next_key
  next_outside key h = ground arith

  walk-inside :
      (fuel n i : ℕ)
      → n ≤ fuel
      → i + suc n ≡ a.max_entries
      → walk_from fuel a (ok (bytes_of i)) ≡ map bytes_of (count_up i (suc n))
  unfolding walk_from
  walk-inside zero zero i enough h = refl
  walk-inside zero (suc n) i enough h = absurd (omega arith)
  walk-inside (suc fuel) zero i enough h = rw (next_last i (omega arith)) refl
  walk-inside (suc fuel) (suc n) i enough h =
      rw (next_inside i (omega arith))
        (ap (λ t. bytes_of i ∷ t) (walk-inside fuel n (i + 1) (omega arith) (omega arith)))

  -- The loop from a key that is no index of the map sees every index once, in order.
  pub walk-all :
      (fuel : ℕ) (key : List ℕ)
      → 0 < a.max_entries
      → a.max_entries ≤ u32_of key
      → a.max_entries ≤ fuel
      → walk fuel a key ≡ map bytes_of (count_up 0 a.max_entries)
  unfolding walk
  walk-all fuel key pos h enough = rw (next_outside key h) (
      walk-inside fuel (a.max_entries - 1) 0 (omega arith) (omega arith)
      ∙ ap (λ t. map bytes_of (count_up 0 t)) {x = suc (a.max_entries - 1)} (omega arith))
