-- ===== src/Maps/Ght.antt =====
-- The interface of bpfmap/libghthash/ght_hash_table.h, a third-party hash table that hashtab.c
-- calls: tables from byte keys to pointers. The pointers are those of the map elements, so a
-- table is said to hold the bytes of an element.
use bpfabric.Prelude.{ℕ, ◌≡◌, Bool, true, Option, none, some, List, [], ◌∷◌, if◌then◌else◌}
use bpfabric.Prelude.Bytes.{bytes_eq}

-- A key and its element.
abbrev pub Entry : Type 0
Entry = List ℕ × List ℕ

-- A search through entries.
abbrev pub assoc : List ℕ → List Entry → Option (List ℕ)
assoc k [] = none
assoc k ((j, e) ∷ es) = if bytes_eq j k then some e else assoc k es

-- No two entries have the same key.
abbrev pub Distinct : List Entry → Type 0
Distinct [] = Unit
Distinct ((k, e) ∷ es) = (assoc k es ≡ none) × Distinct es

-- The calls, and what the header documents of them. `entries` is the order of `ght_first` and
-- `ght_next`. An insertion returns `true` for 0; that one under a new key succeeds is said for a
-- host with enough memory.
pub record Ght : Type 1 where
  pub Table : Type 0
  pub create : ℕ → Option Table
  pub get : Table → List ℕ → Option (List ℕ)
  pub insert : Table → List ℕ → List ℕ → Bool × Table
  pub remove : Table → List ℕ → Table
  pub entries : Table → List Entry
  pub get-create : (n : ℕ) (t : Table) (k : List ℕ) → create n ≡ some t → get t k ≡ none
  pub insert_new : (t : Table) (k e : List ℕ) → get t k ≡ none → (insert t k e).0 ≡ true
  pub get-insert :
      (t : Table) (k e j : List ℕ)
      → get t k ≡ none
      → get (insert t k e).1 j ≡ (if bytes_eq k j then some e else get t j)
  pub get-remove :
      (t : Table) (k j : List ℕ) → get (remove t k) j ≡ (if bytes_eq k j then none else get t j)
  pub get-entries : (t : Table) (k : List ℕ) → get t k ≡ assoc k (entries t)
  pub distinct_entries : (t : Table) → Distinct (entries t)
