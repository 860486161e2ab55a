-- ===== src/Maps/Tests.antt =====
-- The map properties at concrete maps.
pub mod ListTable
use bpfabric.Prelude.{ℕ, ◌+◌, ◌++◌, ◌*◌, ◌<◌, ◌≤◌, ◌≡◌, ◌≢◌, ◌↔◌, ◌⊎◌, refl, arith, inl, inr, map}
use bpfabric.Prelude.{
  Bool, true, false, Option, none, some, List, [], ◌∷◌, if◌then◌else◌, ◌==◌, take, length,
  replicate,
}
use bpfabric.Prelude.Words.{u32_mod}
use bpfabric.Maps.Attr.{Attr, ok, err, round_up, u32_of, bytes_of}
use bpfabric.Maps.Attr.Rounding.{round_up_lem}
use bpfabric.Maps.ArrayMap
use bpfabric.Maps.ArrayMap.{ArrayMap}
use bpfabric.Maps.ArrayMap.Values as ArrayValues
use bpfabric.Maps.ArrayMap.Values.{alloc-IsValid, view-update, alloc-wraps, Fits}
use bpfabric.Maps.ArrayMap.Keys as ArrayKeys
use bpfabric.Maps.HashMap.Values as HashValues
use bpfabric.Maps.HashMap.Keys as HashKeys
use bpfabric.Prelude.Bytes.{write_at, bytes_eq}
use bpfabric.Maps.ArrayMap.Keys.{walk-all, count_up}
use bpfabric.Maps.Ght.{Distinct, Entry}
use bpfabric.Maps.HashMap
use bpfabric.Maps.HashMap.{HashMap, idle}
use bpfabric.Maps.HashMap.Values.{
  view-update_elem, view-delete_elem, alloc-empty, SameShape, same_key,
}
use bpfabric.Maps.HashMap.Keys.{walk-entries, keys}
use bpfabric.Maps.Registry.{
  BpfMap, Maps, hash, array, max_maps, Call, done, create_map, alloc_map, map_at, no_maps,
  update_map, update_elem, delete_map, delete_elem, next_key_map, get_next_key, lookup_elem,
}
use bpfabric.Maps.Registry.Create.{AllTaken, Stores, create_map-Stores}
use bpfabric.Maps.Registry.Access.{Touches, operations-Touches}
use bpfabric.Maps.Tests.ListTable.{list_table}

-- Four values of 6 bytes.
abbrev four : Attr
four = record { map_type = 2; key_size = 4; value_size = 6; max_entries = 4; map_flags = 0 }

abbrev four_map : ArrayMap
four_map = record {
  key_size = 4;
  value_size = 6;
  max_entries = 4;
  elem_size = 8;
  value = replicate 1240 0;
}

four-alloc : ArrayMap.alloc true four ≡ ok four_map
unfolding ArrayMap.alloc
four-alloc = refl

alloc-IsValid_example :
    ArrayValues.IsValid four_map
    × (four_map.max_entries ≡ 4)
    × (four_map.value_size ≡ 6)
    × (four_map.key_size ≡ 4)
alloc-IsValid_example =
    alloc-IsValid true four four_map four-alloc (omega arith, omega (arith, round_up_lem 6))

four-IsValid : ArrayValues.IsValid four_map
four-IsValid =
    (alloc-IsValid true four four_map four-alloc (omega arith, omega (arith, round_up_lem 6))).0

-- The map after six bytes were stored under the index 2.
abbrev four_map_after : ArrayMap
four_map_after = record four_map { value = write_at 16 (1 ∷ 2 ∷ 3 ∷ 4 ∷ 5 ∷ 6 ∷ []) four_map.value }

four-update :
    ArrayMap.update_elem four_map (2 ∷ 0 ∷ 0 ∷ 0 ∷ []) (1 ∷ 2 ∷ 3 ∷ 4 ∷ 5 ∷ 6 ∷ []) 0
    ≡ ok four_map_after
unfolding ArrayMap.update_elem
four-update = refl

view-update_example :
    ArrayValues.IsValid four_map_after
    × ((j : ℕ)
        → j < four_map.max_entries
        → ArrayValues.view four_map_after j ≡ (
            if u32_of (2 ∷ 0 ∷ 0 ∷ 0 ∷ []) == j
            then 1 ∷ 2 ∷ 3 ∷ 4 ∷ 5 ∷ 6 ∷ []
            else ArrayValues.view four_map j))
view-update_example =
    view-update four_map (2 ∷ 0 ∷ 0 ∷ 0 ∷ []) (1 ∷ 2 ∷ 3 ∷ 4 ∷ 5 ∷ 6 ∷ []) 0 four_map_after
      four-IsValid refl four-update

-- Keys of 2 bytes and values of 3 bytes.
abbrev pairs : Attr
pairs = record { map_type = 1; key_size = 2; value_size = 3; max_entries = 16; map_flags = 0 }

abbrev empty_map : HashMap list_table
empty_map = record {
  key_size = 2;
  value_size = 3;
  max_entries = 16;
  map_flags = 0;
  elem_size = 16;
  htab = ([], tt);
  cursor = idle;
}

pairs-alloc : HashMap.alloc list_table true pairs ≡ ok empty_map
unfolding HashMap.alloc
pairs-alloc = refl

pairs_empty :
    HashValues.IsValid list_table empty_map
    × (empty_map.key_size ≡ 2)
    × (empty_map.value_size ≡ 3)
    × ((key : List ℕ) → HashValues.view list_table empty_map key ≡ none)
pairs_empty =
    alloc-empty list_table pairs empty_map pairs-alloc (omega arith)
      (omega (arith, round_up_lem 2, round_up_lem 3))

empty-IsValid : HashValues.IsValid list_table empty_map
empty-IsValid = pairs_empty.0

-- The map after one update.
abbrev one_map : HashMap list_table
one_map = (HashMap.update_elem list_table true empty_map (0 ∷ 0 ∷ []) (7 ∷ 8 ∷ 9 ∷ []) 0).1

view-update_elem_example :
    ((HashMap.update_elem list_table true empty_map (0 ∷ 0 ∷ []) (7 ∷ 8 ∷ 9 ∷ []) 0).0 ≡ true)
    × HashValues.IsValid list_table one_map
    × SameShape list_table empty_map one_map
    × ((key' : List ℕ)
        → HashValues.view list_table one_map key' ≡ (
            if same_key list_table empty_map (0 ∷ 0 ∷ []) key'
            then some (take 3 (7 ∷ 8 ∷ 9 ∷ []))
            else HashValues.view list_table empty_map key'))
unfolding HashMap.update_elem
view-update_elem_example =
    view-update_elem list_table empty_map (0 ∷ 0 ∷ []) (7 ∷ 8 ∷ 9 ∷ []) 0 empty-IsValid
      (omega arith)

view-delete_elem_example :
    (((HashMap.delete_elem list_table one_map (0 ∷ 0 ∷ [])).0 ≡ true)
      ↔ (HashValues.view list_table one_map (0 ∷ 0 ∷ []) ≢ none))
    × SameShape list_table one_map (HashMap.delete_elem list_table one_map (0 ∷ 0 ∷ [])).1
    × ((key' : List ℕ)
        → HashValues.view list_table (HashMap.delete_elem list_table one_map (0 ∷ 0 ∷ [])).1 key'
          ≡ (if same_key list_table one_map (0 ∷ 0 ∷ []) key'
              then none
              else HashValues.view list_table one_map key'))
view-delete_elem_example = view-delete_elem list_table one_map (0 ∷ 0 ∷ [])

-- A table that holds the key of two zeros behind another key.
abbrev two_entries : List Entry
two_entries = (5 ∷ 6 ∷ [], 1 ∷ []) ∷ (0 ∷ 0 ∷ [], 2 ∷ []) ∷ (3 ∷ 4 ∷ [], 3 ∷ []) ∷ []

two-Distinct : Distinct two_entries
unfolding bytes_eq
two-Distinct = (refl, (refl, (refl, tt)))

abbrev two_map : HashMap list_table
two_map = record empty_map { htab = (two_entries, two-Distinct) }

walk-entries_example :
    ((list_table.get two_map.htab (0 ∷ 0 ∷ []) ≡ none)
      → HashKeys.walk list_table 5 two_map (0 ∷ 0 ∷ []) ≡ (keys two_entries, true))
    × ((l : List ℕ)
        → list_table.get two_map.htab (0 ∷ 0 ∷ []) ≡ some l
        → (before : List Entry) × (after : List Entry) × (two_entries
            ≡ before ++ ((0 ∷ 0 ∷ [], l) ∷ after))
          × (HashKeys.walk list_table 5 two_map (0 ∷ 0 ∷ []) ≡ (keys after, true)))
    × Distinct two_entries
walk-entries_example =
    walk-entries list_table 5 two_map (0 ∷ 0 ∷ []) refl refl (refl, (refl, (refl, tt)))
      (omega arith)

abbrev store_of_one : Maps list_table
store_of_one = none ∷ some (hash one_map) ∷ []
