-- ===== src/Maps/Registry/Access.antt =====
-- The calls of bpfmap/bpfmap.c that dispatch on an index, through `bpf_maps`.
use bpfabric.Prelude.{ℕ, ◌<◌, ◌≡◌, ◌≢◌, refl, ap}
use bpfabric.Prelude.{Bool, Option, none, some, List, length, get_elem?, set, flat}
use bpfabric.Prelude.{get_elem?-set_self, get_elem?-set_ne, get_elem?-lt}
use bpfabric.Maps.Ght.{Ght}
use bpfabric.Maps.Registry.{
  Call, done, crash, BpfMap, Maps, map_at, with_map, update_map, update_elem, delete_map,
  delete_elem, next_key_map, get_next_key,
}

flat-some : {A : Type 0} (o : Option (Option A)) (m : A) → flat o ≡ some m → o ≡ some (some m)
flat-some none m h = absurd (cc)
flat-some (some none) m h = absurd (cc)
flat-some (some (some x)) m h = let e : x ≡ m = cc in rw e refl

module _ (g : Ght) where
  map_at-lt : (maps : Maps g) (fd : ℕ) (m : BpfMap g) → map_at g maps fd ≡ some m → fd < length maps
  unfolding map_at
  map_at-lt maps fd m h = get_elem?-lt maps fd (flat-some (get_elem? maps fd) m h)

  -- What an operation on the map under `fd` does to the array: the map's own operation gives the
  -- result and the new map of `fd`; every other map is kept. A null pointer is a crash.
  pub record Touches {A : Type 0} (maps : Maps g) (fd : ℕ) (op : BpfMap g → A × BpfMap g)
      (c : Call (A × Maps g)) : Type 0 where
    pub null_crashes : map_at g maps fd ≡ none → c ≡ crash
    pub acts :
        (m : BpfMap g)
        → map_at g maps fd ≡ some m
        → (maps' : Maps g) × (c ≡ done ((op m).0, maps'))
          × (map_at g maps' fd ≡ some (op m).1)
          × ((j : ℕ) → fd ≢ j → map_at g maps' j ≡ map_at g maps j)

  with_map-Touches :
      {A : Type 0} (maps : Maps g) (fd : ℕ) (op : BpfMap g → A × BpfMap g)
      → Touches maps fd op (with_map g maps fd op (map_at g maps fd))
  unfolding with_map map_at
  with_map-Touches maps fd op = record {
    null_crashes = λ e. rw e refl;
    acts = λ m e. (
      set maps fd (some (op m).1),
      rw e refl,
      ap flat (get_elem?-set_self maps fd (some (op m).1) (map_at-lt maps fd m e)),
      λ j ne. ap flat (get_elem?-set_ne maps fd j (some (op m).1) ne),
    );
  }

  -- `bpf_update_elem`, `bpf_delete_elem` and `bpf_get_next_key` act on the map of the given index
  -- by the operation of that map's type and on no other map, and crash where the index has no map.
  pub operations-Touches :
      (room : Bool) (maps : Maps g) (fd : ℕ) (key value : List ℕ) (flags : ℕ)
      → Touches maps fd
          (λ m. update_map g room m key value flags)
          (update_elem g room maps fd key value flags)
        × Touches maps fd (λ m. delete_map g m key) (delete_elem g maps fd key)
        × Touches maps fd (λ m. next_key_map g m key) (get_next_key g maps fd key)
  unfolding update_elem delete_elem get_next_key
  operations-Touches room maps fd key value flags = (
    with_map-Touches maps fd (λ m. update_map g room m key value flags),
    with_map-Touches maps fd (λ m. delete_map g m key),
    with_map-Touches maps fd (λ m. next_key_map g m key),
  )
