-- ===== src/Tables/Lookup.antt =====
-- Look-ups by index and by table name depend only on the map that they go to.
use bpfabric.Prelude.{ℕ, ◌≡◌, refl, ap, some, List}
use bpfabric.Maps.Ght.{Ght}
use bpfabric.Maps.Registry.{done, Maps, BpfMap, map_at, lookup_elem, lookup_map}
use bpfabric.Tables.{find_table, as_entry, name_buffer}

module _ (g : Ght) where
  pub lookup-kept :
      (maps maps' : Maps g) (fd : ℕ) (key : List ℕ)
      → map_at g maps' fd ≡ map_at g maps fd
      → lookup_elem g maps' fd key ≡ lookup_elem g maps fd key
  unfolding lookup_elem
  lookup-kept maps maps' fd key e = rw (lookup_elem, e) refl

  pub lookup-opened :
      (maps : Maps g) (fd : ℕ) (key : List ℕ) (m : BpfMap g)
      → map_at g maps fd ≡ some m
      → lookup_elem g maps fd key ≡ done (lookup_map g m key)
  unfolding lookup_elem
  lookup-opened maps fd key m e = rw (lookup_elem, e) refl

  pub find_table_kept :
      (maps maps' : Maps g) (tables : ℕ) (name : List ℕ)
      → map_at g maps' tables ≡ map_at g maps tables
      → find_table g maps' tables name ≡ find_table g maps tables name
  unfolding find_table
  find_table_kept maps maps' tables name e =
      ap (as_entry) (lookup-kept maps maps' tables (name_buffer name) e)
