-- ===== src/Tables/View.antt =====
-- The table of tables as a map from names to entries.
use bpfabric.Prelude.{ℕ, zero, suc, ◌+◌, ◌*◌, ◌%◌, ◌/◌, ◌≤◌, ◌<◌, ◌≡◌, arith, refl, sym, ap, ◌∙◌}
use bpfabric.Prelude.{List, [], ◌∷◌, ◌++◌, Option, none, some, length, take, drop}
use bpfabric.Prelude.Words.{u32_mod}
use bpfabric.Maps.Attr.{u32_of, bytes_of}
use bpfabric.Maps.Ght.{Ght}
use bpfabric.Prelude.Bytes.{read_at}
use bpfabric.Maps.Attr.{round_up}
use bpfabric.Maps.HashMap
use bpfabric.Maps.HashMap.{HashMap, value_part}
use bpfabric.Maps.HashMap.Values.{IsValid, view, read_value}
use bpfabric.Maps.Registry.{done, Maps, hash, map_at, lookup_map}
use bpfabric.Tables.{
  TableEntry, entry_of, entry_bytes, name_size, name_buffer, as_entry, find_table,
}
use bpfabric.Tables.Lookup.{lookup-opened}

-- The numbers of an entry are 32-bit words.
pub record EntryFits (e : TableEntry) : Type 0 where
  pub fd_fits : e.fd < u32_mod
  pub type_fits : e.table_type < u32_mod
  pub key_fits : e.key_size < u32_mod
  pub value_fits : e.value_size < u32_mod
  pub entries_fits : e.max_entries < u32_mod

u32_of-bytes_of : (x : ℕ) (rest : List ℕ) → x < u32_mod → u32_of (bytes_of x ++ rest) ≡ x
unfolding u32_of bytes_of
u32_of-bytes_of x rest h = omega arith

-- An entry that was copied into a map is read back.
pub entry_of-entry_bytes :
    (e : TableEntry) (rest : List ℕ) → EntryFits e → entry_of (entry_bytes e ++ rest) ≡ e
unfolding entry_of entry_bytes u32_of bytes_of
entry_of-entry_bytes e rest fits =
    let number : (x : ℕ)
        → x < u32_mod
        → x % 256
            + 0x100 * (x / 0x100 % 256)
            + 0x1_0000 * (x / 0x1_0000 % 256)
            + 0x100_0000 * (x / 0x100_0000 % 256)
          ≡ x =
      λ x h. omega arith in
    rw
      (
        number e.fd fits.fd_fits,
        number e.table_type fits.type_fits,
        number e.key_size fits.key_fits,
        number e.value_size fits.value_fits,
        number e.max_entries fits.entries_fits,
      )
      refl

pub length-entry_bytes : (e : TableEntry) → length (entry_bytes e) ≡ 20
unfolding entry_bytes bytes_of
length-entry_bytes e = refl

u32_of-take : (k n : ℕ) (xs : List ℕ) → k + 4 ≤ n → u32_of (drop k (take n xs)) ≡ u32_of (drop k xs)
unfolding u32_of
u32_of-take (suc k) zero xs h = absurd (omega arith)
u32_of-take (suc k) (suc n) [] h = refl
u32_of-take (suc k) (suc n) (x ∷ xs) h = u32_of-take k n xs (omega arith)
u32_of-take zero (suc (suc (suc (suc n)))) [] h = refl
u32_of-take zero (suc (suc (suc (suc n)))) (a ∷ []) h = refl
u32_of-take zero (suc (suc (suc (suc n)))) (a ∷ b ∷ []) h = refl
u32_of-take zero (suc (suc (suc (suc n)))) (a ∷ b ∷ c ∷ []) h = refl
u32_of-take zero (suc (suc (suc (suc n)))) (a ∷ b ∷ c ∷ d ∷ xs) h = refl
u32_of-take zero _ xs h = absurd (omega arith)

-- Only the first 20 bytes of an entry are read.
pub entry_of-take : (bytes : List ℕ) → entry_of (take 20 bytes) ≡ entry_of bytes
unfolding entry_of
entry_of-take bytes =
    rw
      (
        u32_of-take 0 20 bytes (omega arith),
        u32_of-take 4 20 bytes (omega arith),
        u32_of-take 8 20 bytes (omega arith),
        u32_of-take 12 20 bytes (omega arith),
        u32_of-take 16 20 bytes (omega arith),
      )
      refl

-- The entry behind a value of the table of tables.
abbrev pub listing : Option (List ℕ) → Option TableEntry
listing none = none
listing (some bytes) = some (entry_of bytes)

module _ (g : Ght) where
  -- The map of the index `tables` is the table of tables: a valid hash map from names of 32 bytes to
  -- entries of 20 bytes.
  pub record IsTableOfTables (tables : ℕ) (maps : Maps g) : Type 0 where
    pub table : HashMap g
    pub opened : map_at g maps tables ≡ some (hash table)
    pub valid : IsValid g table
    pub key_size : table.key_size ≡ name_size
    pub value_size : table.value_size ≡ 20

  value_part-listing :
      (m : HashMap g) (o : Option (List ℕ))
      → m.value_size ≡ 20
      → as_entry (done (value_part g m o)) ≡ done (listing (read_value g m o))
  unfolding as_entry value_part read_at
  value_part-listing m none h = refl
  value_part-listing m (some l) h =
      ap (λ e. done (some e)) (sym (rw h (entry_of-take (drop (round_up m.key_size) l))))

  -- A look-up by name is a look-up in the map's view.
  pub find_table-view :
      (tables : ℕ) (maps : Maps g) (name : List ℕ) (t : IsTableOfTables tables maps)
      → find_table g maps tables name ≡ done (listing (view g t.table (name_buffer name)))
  unfolding find_table lookup_map HashMap.lookup_elem
  find_table-view tables maps name t =
      ap as_entry (lookup-opened g maps tables (name_buffer name) (hash t.table) t.opened)
      ∙ value_part-listing t.table _ t.value_size
