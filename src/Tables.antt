-- ===== src/Tables.antt =====
-- The table of tables: `struct table_entry` of ubpf/inc/ubpf.h, the name buffers that agent/agent.c
-- and ubpf/ubpf_loader.c look tables up with, and the look-up.
pub mod Lookup
pub mod View
use bpfabric.Prelude.{
  ℕ, zero, suc, ◌-◌, Option, none, some, List, [], ◌∷◌, ◌++◌, take, drop, replicate, length,
}
use bpfabric.Maps.Attr.{u32_of, bytes_of}
use bpfabric.Maps.Ght.{Ght}
use bpfabric.Maps.Registry.{Call, done, crash, Maps, lookup_elem}

-- TABLE_NAME_MAX_LENGTH
abbrev pub name_size : ℕ
name_size = 32

-- `struct table_entry` of ubpf/inc/ubpf.h, five ints in a row.
pub record TableEntry : Type 0 where
  pub fd : ℕ
  pub table_type : ℕ
  pub key_size : ℕ
  pub value_size : ℕ
  pub max_entries : ℕ

-- The entry that a pointer into a map points to.
unfoldable pub entry_of : List ℕ → TableEntry
unfolding u32_of
entry_of bytes = record {
  fd = u32_of bytes;
  table_type = u32_of (drop 4 bytes);
  key_size = u32_of (drop 8 bytes);
  value_size = u32_of (drop 12 bytes);
  max_entries = u32_of (drop 16 bytes);
}

unfoldable pub entry_bytes : TableEntry → List ℕ
unfolding bytes_of
entry_bytes e =
    bytes_of e.fd
    ++ (bytes_of e.table_type
        ++ (bytes_of e.key_size ++ (bytes_of e.value_size ++ bytes_of e.max_entries)))

-- A string up to its first zero byte, as `strncpy` reads it.
unfoldable pub c_string : List ℕ → List ℕ
c_string [] = []
c_string (zero ∷ bytes) = []
c_string (suc b ∷ bytes) = suc b ∷ c_string bytes

-- `char table_name[32] = {0}; strncpy(table_name, request->table_name, 31);`
unfoldable pub name_buffer : List ℕ → List ℕ
unfolding c_string
name_buffer name =
    let s = take (name_size - 1) (c_string name) in s ++ replicate (name_size - length s) 0

-- `bpf_lookup_elem(tables, table_name, &tab_entry)`, where the result -1 is `none`.
unfoldable pub as_entry : Call (Option (List ℕ)) → Call (Option TableEntry)
unfolding entry_of
as_entry crash = crash
as_entry (done none) = done none
as_entry (done (some bytes)) = done (some (entry_of bytes))

module _ (g : Ght) where
  unfoldable pub find_table : Maps g → ℕ → List ℕ → Call (Option TableEntry)
  unfolding as_entry name_buffer lookup_elem
  find_table maps tables name = as_entry (lookup_elem g maps tables (name_buffer name))
