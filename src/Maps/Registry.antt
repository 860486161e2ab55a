-- ===== src/Maps/Registry.antt =====
-- bpfmap/bpfmap.c: the global array of maps, and the calls that dispatch on a map's type.
pub mod Create
pub mod Access
use bpfabric.Prelude.{ℕ, zero, suc, ◌+◌, Bool, true, false, Option, none, some, List, [], ◌∷◌}
use bpfabric.Prelude.{◌==◌, if◌then◌else◌, get_elem?, set, replicate, drop, flat}
use bpfabric.Maps.Attr.{Attr, Errno, Result, ok, err}
use bpfabric.Maps.ArrayMap
use bpfabric.Maps.ArrayMap.{ArrayMap}
use bpfabric.Maps.Ght.{Ght}
use bpfabric.Maps.HashMap
use bpfabric.Maps.HashMap.{HashMap, NextKey, found, finished, unspecified}

-- MAX_MAPS, BPF_MAP_TYPE_HASH, BPF_MAP_TYPE_ARRAY
abbrev pub max_maps : ℕ
max_maps = 64

abbrev pub type_hash : ℕ
type_hash = 1

abbrev pub type_array : ℕ
type_array = 2

-- A call returns, or goes through a null or wild pointer.
pub data Call {ℓ} (A : Type ℓ) : Type ℓ where
  done : A → Call A
  crash : Call A

-- The first index, from `i` on, whose pointer is null.
unfoldable pub find_free {ℓ} : {A : Type ℓ} → ℕ → List (Option A) → Option ℕ
find_free i [] = none
find_free i (none ∷ maps) = some i
find_free i (some m ∷ maps) = find_free (i + 1) maps

module _ (g : Ght) where
  -- `struct bpf_map` with its `ops`
  pub data BpfMap : Type 0 where
    hash : HashMap g → BpfMap
    array : ArrayMap → BpfMap

  -- `bpf_maps`
  abbrev pub Maps : Type 0
  Maps = List (Option BpfMap)

  abbrev pub no_maps : Maps
  no_maps = replicate max_maps none

  unfoldable pub hash_result : Result (HashMap g) → Result BpfMap
  hash_result (ok m) = ok (hash m)
  hash_result (err e) = err e

  unfoldable pub array_result : Result ArrayMap → Result BpfMap
  array_result (ok m) = ok (array m)
  array_result (err e) = err e

  -- `map_type_ops->map_alloc(&attr)`: the table has no entry for other types.
  unfoldable pub alloc_map : Bool → Attr → Call (Result BpfMap)
  unfolding hash_result array_result HashMap.alloc ArrayMap.alloc
  alloc_map room attr =
      if attr.map_type == type_hash
      then done (hash_result (HashMap.alloc g room attr))
      else if attr.map_type == type_array
      then done (array_result (ArrayMap.alloc room attr))
      else crash

  -- The loop of `bpf_create_map` that stores the map under a free index.
  unfoldable pub store_map : Maps → BpfMap → Option ℕ → Option ℕ × Maps
  store_map maps m none = (none, maps)
  store_map maps m (some i) = (some i, set maps i (some m))

  unfoldable pub created : Maps → Call (Result BpfMap) → Call (Option ℕ × Maps)
  unfolding store_map find_free
  created maps crash = crash
  created maps (done (err e)) = done (none, maps)
  created maps (done (ok m)) = done (store_map maps m (find_free 0 maps))

  -- `bpf_create_map`: the index, or `none` for -1. A map that finds no index is leaked.
  unfoldable pub create_map : Bool → Maps → ℕ → ℕ → ℕ → ℕ → Call (Option ℕ × Maps)
  unfolding alloc_map created
  create_map room maps map_type key_size value_size max_entries = created maps (
      alloc_map room (record {
        map_type = map_type;
        key_size = key_size;
        value_size = value_size;
        max_entries = max_entries;
        map_flags = 0;
      }))

  -- `bpf_maps[map]`, null outside the array
  unfoldable pub map_at : Maps → ℕ → Option BpfMap
  map_at maps fd = flat (get_elem? maps fd)

  -- `m->ops->map_update_elem`, with `true` for 0
  unfoldable pub update_map : Bool → BpfMap → List ℕ → List ℕ → ℕ → Bool × BpfMap
  unfolding HashMap.update_elem ArrayMap.update_elem
  update_map room (hash m) key value flags =
      let r = HashMap.update_elem g room m key value flags in (r.0, hash r.1)
  update_map room (array m) key value flags = elim (ArrayMap.update_elem m key value flags) [
    | ok m' ↦ (true, array m')
    | err e ↦ (false, array m)
  ]

  unfoldable pub delete_map : BpfMap → List ℕ → Bool × BpfMap
  unfolding HashMap.delete_elem ArrayMap.delete_elem
  delete_map (hash m) key = let r = HashMap.delete_elem g m key in (r.0, hash r.1)
  delete_map (array m) key = elim (ArrayMap.delete_elem m key) [
    | ok m' ↦ (true, array m')
    | err e ↦ (false, array m)
  ]

  -- `m->ops->map_lookup_elem`: the bytes from the returned pointer on
  unfoldable pub lookup_map : BpfMap → List ℕ → Option (List ℕ)
  unfolding HashMap.lookup_elem ArrayMap.lookup_elem
  lookup_map (hash m) key = HashMap.lookup_elem g m key
  lookup_map (array m) key = elim (ArrayMap.lookup_elem m key) [
    | none ↦ none
    | some p ↦ some (drop p m.value)
  ]

  unfoldable pub next_key_map : BpfMap → List ℕ → NextKey × BpfMap
  unfolding HashMap.get_next_key ArrayMap.get_next_key
  next_key_map (hash m) key = let r = HashMap.get_next_key g m key in (r.0, hash r.1)
  next_key_map (array m) key = elim (ArrayMap.get_next_key m key) [
    | ok k ↦ (found k, array m)
    | err e ↦ (finished, array m)
  ]

  -- An operation on the map of an index, whose new state is stored back.
  unfoldable pub with_map {ℓ} :
      {A : Type ℓ} → Maps → ℕ → (BpfMap → A × BpfMap) → Option BpfMap → Call (A × Maps)
  with_map maps fd op none = crash
  with_map maps fd op (some m) = let r = op m in done (r.0, set maps fd (some r.1))

  -- `bpf_update_elem`, `bpf_delete_elem`, `bpf_get_next_key`, `bpf_lookup_elem`
  unfoldable pub update_elem : Bool → Maps → ℕ → List ℕ → List ℕ → ℕ → Call (Bool × Maps)
  unfolding with_map map_at update_map
  update_elem room maps fd key value flags =
      with_map maps fd (λ m. update_map room m key value flags) (map_at maps fd)

  unfoldable pub delete_elem : Maps → ℕ → List ℕ → Call (Bool × Maps)
  unfolding with_map map_at delete_map
  delete_elem maps fd key = with_map maps fd (λ m. delete_map m key) (map_at maps fd)

  unfoldable pub get_next_key : Maps → ℕ → List ℕ → Call (NextKey × Maps)
  unfolding with_map map_at next_key_map
  get_next_key maps fd key = with_map maps fd (λ m. next_key_map m key) (map_at maps fd)

  unfoldable pub lookup_elem : Maps → ℕ → List ℕ → Call (Option (List ℕ))
  unfolding map_at lookup_map
  lookup_elem maps fd key = elim (map_at maps fd) [
    | none ↦ crash
    | some m ↦ done (lookup_map m key)
  ]
