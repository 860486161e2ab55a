-- ===== src/Agent.antt =====
-- agent/agent.c: the handlers of the controller's requests, over the machine's table of tables.
pub mod Requests
pub mod Dispatch
use bpfabric.Prelude.{
  ℕ, zero, suc, ◌+◌, ◌-◌, ◌*◌, ◌≤◌, Bool, true, false, Option, none, some, List, [], ◌∷◌, ◌++◌,
}
use bpfabric.Prelude.{
  ◌&&◌, ◌==◌, leb, if◌then◌else◌, take, drop, replicate, length, get_elem?, flat,
}
use bpfabric.Maps.Attr.{u32_of, bytes_of}
use bpfabric.Maps.Ght.{Ght}
use bpfabric.Tables.{name_size, TableEntry, c_string, as_entry, find_table}
use bpfabric.Maps.HashMap.{NextKey, found, finished, unspecified}
use bpfabric.Maps.Registry.{
  Call, done, crash, Maps, BpfMap, hash, array, map_at, update_elem, delete_elem, get_next_key,
  lookup_elem, type_hash, type_array,
}

-- TABLE_STATUS__*
pub data Status : Type 0 where
  success table_not_found entry_not_found : Status

-- The replies, with the fields that are set.
pub data Reply : Type 0 where
  table_entry_get : Status → Option (List ℕ) → Option (List ℕ) → Reply
  table_entry_insert table_entry_delete : Status → Reply
  tables_list : List (List ℕ × TableEntry) → Reply
  table_list : Status → Option (List ℕ × TableEntry) → Option (ℕ × List ℕ) → Reply

-- The last thing that a handler does is to `free` the value in its reply: that is null, or a
-- pointer into a map, which is undefined.
pub data Release : Type 0 where
  frees_null frees_map_element : Release

module _ (g : Ght) where
  -- Whether a key or a value of a request has the bytes that the operations of the table's map read behind
  -- its pointer, `key_size` and `value_size` of them, and of an array's key 4. No length is compared in
  -- the source: with fewer bytes, what lies behind the request's buffer is read.
  unfoldable pub key_covers : Option (BpfMap g) → List ℕ → Bool
  key_covers none key = true
  key_covers (some (hash m)) key = leb m.key_size (length key)
  key_covers (some (array m)) key = leb 4 (length key)

  unfoldable pub value_covers : Option (BpfMap g) → List ℕ → Bool
  value_covers none value = true
  value_covers (some (hash m)) value = leb m.value_size (length value)
  value_covers (some (array m)) value = leb m.value_size (length value)

  -- What `recv_table_entry_get_request` replies for a found table, from the result of the look-up:
  -- `value_size` bytes behind the pointer.
  unfoldable pub get_reply : ℕ → List ℕ → Call (Option (List ℕ)) → Call (Reply × Release)
  get_reply size key crash = crash
  get_reply size key (done none) =
      done (table_entry_get entry_not_found (some key) none, frees_null)
  get_reply size key (done (some bytes)) =
      done (table_entry_get success (some key) (some (take size bytes)), frees_map_element)

  unfoldable pub get_from : Maps g → List ℕ → Call (Option TableEntry) → Call (Reply × Release)
  unfolding get_reply lookup_elem map_at key_covers
  get_from maps key crash = crash
  get_from maps key (done none) = done (table_entry_get table_not_found none none, frees_null)
  get_from maps key (done (some e)) =
      if key_covers (map_at g maps e.fd) key
      then get_reply e.value_size key (lookup_elem g maps e.fd key)
      else crash

  -- `recv_table_entry_get_request`: the reply that it sends, and what it frees then
  unfoldable pub recv_table_entry_get_request :
      Maps g → ℕ → List ℕ → List ℕ → Call (Reply × Release)
  unfolding get_from find_table
  recv_table_entry_get_request maps tables name key =
      get_from maps key (find_table g maps tables name)

  unfoldable pub insert_reply : Call (Bool × Maps g) → Call (Reply × Maps g)
  insert_reply crash = crash
  insert_reply (done (b, maps)) = done (table_entry_insert success, maps)

  unfoldable pub insert_into :
      Bool → Maps g → List ℕ → List ℕ → Call (Option TableEntry) → Call (Reply × Maps g)
  unfolding insert_reply update_elem map_at key_covers value_covers
  insert_into room maps key value crash = crash
  insert_into room maps key value (done none) = done (table_entry_insert table_not_found, maps)
  insert_into room maps key value (done (some e)) =
      if key_covers (map_at g maps e.fd) key && value_covers (map_at g maps e.fd) value
      then insert_reply (update_elem g room maps e.fd key value 0)
      else crash

  -- `recv_table_entry_insert_request`
  unfoldable pub recv_table_entry_insert_request :
      Bool → Maps g → ℕ → List ℕ → List ℕ → List ℕ → Call (Reply × Maps g)
  unfolding insert_into find_table
  recv_table_entry_insert_request room maps tables name key value =
      insert_into room maps key value (find_table g maps tables name)

  unfoldable pub delete_reply : Call (Bool × Maps g) → Call (Reply × Maps g)
  delete_reply crash = crash
  delete_reply (done (true, maps)) = done (table_entry_delete success, maps)
  delete_reply (done (false, maps)) = done (table_entry_delete entry_not_found, maps)

  unfoldable pub delete_from : Maps g → List ℕ → Call (Option TableEntry) → Call (Reply × Maps g)
  unfolding delete_reply delete_elem map_at key_covers
  delete_from maps key crash = crash
  delete_from maps key (done none) = done (table_entry_delete table_not_found, maps)
  delete_from maps key (done (some e)) =
      if key_covers (map_at g maps e.fd) key
      then delete_reply (delete_elem g maps e.fd key)
      else crash

  -- `recv_table_entry_delete_request`
  unfoldable pub recv_table_entry_delete_request :
      Maps g → ℕ → List ℕ → List ℕ → Call (Reply × Maps g)
  unfolding delete_from find_table
  recv_table_entry_delete_request maps tables name key =
      delete_from maps key (find_table g maps tables name)

  -- The loop of `recv_tables_list_request`, with room for so many more entries in its array:
  -- `name` is the buffer `table_name`, `entries` what has been listed.
  unfoldable pub list_tables :
      ℕ → ℕ → List (List ℕ × TableEntry) → Call (NextKey × Maps g) → Call (Reply × Maps g)
  unfolding as_entry lookup_elem get_next_key c_string
  list_tables room tables entries crash = crash
  list_tables room tables entries (done (finished, maps)) = done (tables_list entries, maps)
  list_tables room tables entries (done (unspecified, maps)) = crash
  list_tables zero tables entries (done (found name, maps)) = crash
  list_tables (suc room) tables entries (done (found name, maps)) =
      elim (as_entry (lookup_elem g maps tables name)) [
        | done (some e) ↦
            list_tables room tables (entries ++ ((c_string name, e) ∷ []))
              (get_next_key g maps tables name)
        | _ ↦ crash
      ]

  -- `recv_tables_list_request`, whose array has TABLE_MAX_ENTRIES entries
  unfoldable pub recv_tables_list_request : Maps g → ℕ → Call (Reply × Maps g)
  unfolding list_tables get_next_key
  recv_tables_list_request maps tables =
      list_tables 64 tables [] (get_next_key g maps tables (replicate name_size 0))

  -- The loop of `recv_table_list_request` over a hash map, with room for so many more items.
  unfoldable pub list_items :
      ℕ → TableEntry → ℕ → List ℕ → Call (NextKey × Maps g) → Call (ℕ × List ℕ × Maps g)
  unfolding lookup_elem get_next_key
  list_items room e n items crash = crash
  list_items room e n items (done (finished, maps)) = done (n, items, maps)
  list_items room e n items (done (unspecified, maps)) = crash
  list_items zero e n items (done (found key, maps)) = crash
  list_items (suc room) e n items (done (found key, maps)) = elim (lookup_elem g maps e.fd key) [
    | done (some value) ↦
        list_items room e (n + 1) (items ++ (key ++ take e.value_size value))
          (get_next_key g maps e.fd key)
    | _ ↦ crash
  ]

  unfoldable pub listed : List ℕ → TableEntry → Call (ℕ × List ℕ × Maps g) → Call (Reply × Maps g)
  listed name e crash = crash
  listed name e (done (n, items, maps)) =
      done (table_list success (some (name, e)) (some (n, items)), maps)

  -- The items of an array: `max_entries * value_size` bytes from the value of the key 0 on.
  unfoldable pub array_items :
      Maps g → TableEntry → Call (Option (List ℕ)) → Call (ℕ × List ℕ × Maps g)
  array_items maps e (done (some value)) =
      done (e.max_entries, take (e.max_entries * e.value_size) value, maps)
  array_items maps e _ = crash

  -- `recv_table_list_request`; for a type that is neither, `items` is never set.
  unfoldable pub list_from : Maps g → List ℕ → Call (Option TableEntry) → Call (Reply × Maps g)
  unfolding list_items listed array_items get_next_key lookup_elem
  list_from maps name crash = crash
  list_from maps name (done none) = done (table_list table_not_found none none, maps)
  list_from maps name (done (some e)) =
      if e.table_type == type_hash
      then listed name e
          (list_items e.max_entries e 0 [] (get_next_key g maps e.fd (replicate e.key_size 0)))
      else if e.table_type == type_array
      then listed name e (array_items maps e (lookup_elem g maps e.fd (replicate 4 0)))
      else crash

  unfoldable pub recv_table_list_request : Maps g → ℕ → List ℕ → Call (Reply × Maps g)
  unfolding list_from find_table
  recv_table_list_request maps tables name = list_from maps name (find_table g maps tables name)
