-- ===== src/Maps/HashMap.antt =====
-- bpfmap/hashtab.c: a map from keys of `key_size` bytes to values of `value_size` bytes, over the
-- hash table that it is given.
pub mod Values
pub mod Keys
use bpfabric.Prelude.{ℕ, ◌+◌, ◌%◌, Bool, true, false, ◌||◌, Option, none, some, List, [], ◌∷◌}
use bpfabric.Prelude.{leb, ◌==◌, if◌then◌else◌, take, drop, replicate}
use bpfabric.Prelude.Words.{u32_mod}
use bpfabric.Prelude.Bytes.{bytes_eq, write_at}
use bpfabric.Maps.Attr.{Attr, Errno, einval, enomem, Result, ok, err, round_up}
use bpfabric.Maps.Ght.{Entry, Ght}

-- The fields `current` and `iterator`. `current` is null (`idle`); or it points to the element of a
-- key, with the entries that the iterator has still to give (`at`), or with an iterator that a
-- change of the table has left behind (`stale`); or it points to an element that has been freed.
pub data Cursor : Type 0 where
  idle dangling : Cursor
  at : List ℕ → List Entry → Cursor
  stale : List ℕ → Cursor

-- The cursor after `free` of the element of a key, and after an insertion.
unfoldable pub free_element : List ℕ → Cursor → Cursor
free_element k idle = idle
free_element k dangling = dangling
free_element k (at c rest) = if bytes_eq c k then dangling else stale c
free_element k (stale c) = if bytes_eq c k then dangling else stale c

unfoldable pub age : Cursor → Cursor
age (at c rest) = stale c
age c = c

-- What `htab_map_get_next_key` does: it writes a key, or returns -1, or reads freed memory.
pub data NextKey : Type 0 where
  found : List ℕ → NextKey
  finished unspecified : NextKey

-- The iteration in `htab_map_get_next_key` from the start up to a key that is in the table.
unfoldable pub skip_past : List ℕ → List Entry → List Entry
skip_past key [] = []
skip_past key ((k, e) ∷ es) = if bytes_eq k key then es else skip_past key es

module _ (g : Ght) where
  open g use {Table, create, get, insert, remove, entries}

  -- `struct bpf_htab`; `elems` and `n_buckets` are never used.
  pub record HashMap : Type 0 where
    pub key_size : ℕ
    pub value_size : ℕ
    pub max_entries : ℕ
    pub map_flags : ℕ
    pub elem_size : ℕ
    pub htab : Table
    pub cursor : Cursor

  -- `htab_map_alloc` once `ght_create` has returned
  unfoldable pub alloc_with : Attr → Option Table → Result HashMap
  unfolding round_up
  alloc_with attr none = err einval
  alloc_with attr (some t) = ok (record {
    key_size = attr.key_size;
    value_size = attr.value_size;
    max_entries = attr.max_entries;
    map_flags = attr.map_flags;
    elem_size = (round_up attr.key_size + round_up attr.value_size) % u32_mod;
    htab = t;
    cursor = idle;
  })

  -- `htab_map_alloc`; the only flag allowed is BPF_F_NO_PREALLOC, `room` is that of `calloc`.
  unfoldable pub alloc : Bool → Attr → Result HashMap
  unfolding alloc_with
  alloc room attr =
      if leb 2 attr.map_flags
      then err einval
      else if room
      then if attr.max_entries == 0 || (attr.key_size == 0 || attr.value_size == 0)
        then err einval
        else alloc_with attr (create attr.max_entries)
      else err enomem

  -- `htab_map_lookup_elem`: the bytes from the returned pointer on, of which the first
  -- `value_size` are the value.
  unfoldable pub value_part : HashMap → Option (List ℕ) → Option (List ℕ)
  value_part m none = none
  value_part m (some l) = some (drop (round_up m.key_size) l)

  unfoldable pub lookup_elem : HashMap → List ℕ → Option (List ℕ)
  unfolding value_part
  lookup_elem m key = value_part m (get m.htab (take m.key_size key))

  -- The bytes of a new element: zeros, then the key and the value copied in.
  unfoldable pub new_element : HashMap → List ℕ → List ℕ → List ℕ
  unfolding write_at round_up
  new_element m key value =
      write_at (round_up m.key_size) (take m.value_size value)
        (write_at 0 (take m.key_size key) (replicate m.elem_size 0))

  -- `ght_remove` and `free` of the old element, if there is one
  unfoldable pub drop_old : HashMap → List ℕ → Option (List ℕ) → HashMap
  unfolding free_element
  drop_old m k none = m
  drop_old m k (some l) = record m { htab = remove m.htab k; cursor = free_element k m.cursor }

  -- `htab_map_update_elem`; the result is `true` for 0. `room` is that of `calloc`; `map_flags` is
  -- not read.
  unfoldable pub update_elem : Bool → HashMap → List ℕ → List ℕ → ℕ → Bool × HashMap
  unfolding drop_old new_element age
  update_elem room m key value map_flags =
      let k = take m.key_size key in
      let m1 = drop_old m k (get m.htab k) in
      let r = insert m1.htab k (new_element m key value) in
      if room then (r.0, record m1 { htab = r.1; cursor = age m1.cursor }) else (false, m1)

  unfoldable pub delete_found : HashMap → List ℕ → Option (List ℕ) → Bool × HashMap
  unfolding drop_old
  delete_found m k none = (false, m)
  delete_found m k (some l) = (true, drop_old m k (some l))

  -- `htab_map_delete_elem`
  unfoldable pub delete_elem : HashMap → List ℕ → Bool × HashMap
  unfolding delete_found
  delete_elem m key = let k = take m.key_size key in delete_found m k (get m.htab k)

  -- The next entry of the iteration, if there is one.
  unfoldable pub advance : HashMap → List Entry → NextKey × HashMap
  advance m [] = (finished, record m { cursor = idle })
  advance m ((k, e) ∷ es) = (found k, record m { cursor = at k es })

  unfoldable pub restart : HashMap → List ℕ → Option (List ℕ) → NextKey × HashMap
  unfolding advance skip_past
  restart m key none = advance m (entries m.htab)
  restart m key (some l) = advance m (skip_past key (entries m.htab))

  unfoldable pub next_from : HashMap → List ℕ → Cursor → NextKey × HashMap
  unfolding advance restart
  next_from m key idle = restart m key (get m.htab key)
  next_from m key dangling = (unspecified, m)
  next_from m key (at c rest) =
      if bytes_eq c key then advance m rest else restart m key (get m.htab key)
  next_from m key (stale c) =
      if bytes_eq c key then (unspecified, m) else restart m key (get m.htab key)

  -- `htab_map_get_next_key`
  unfoldable pub get_next_key : HashMap → List ℕ → NextKey × HashMap
  unfolding next_from
  get_next_key m key = next_from m (take m.key_size key) m.cursor
