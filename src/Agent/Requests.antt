-- ===== src/Agent/Requests.antt =====
-- The controller's requests on the entries of a hash table: insert, get and delete of agent/agent.c.
use bpfabric.Prelude.{ℕ, ◌≡◌, ◌≢◌, ◌↔◌, arith, refl, sym, ap, ◌∙◌, inl, inr}
use bpfabric.Prelude.{
  Bool, true, false, le→leb, ◌≤◌, Option, none, some, List, take, drop, length, if◌then◌else◌,
  Bool-cases,
}
use bpfabric.Prelude.Bytes.{read_at}
use bpfabric.Maps.Attr.{round_up}
use bpfabric.Maps.Ght.{Ght}
use bpfabric.Maps.HashMap
use bpfabric.Maps.HashMap.{HashMap, value_part}
use bpfabric.Maps.HashMap.Values.{
  IsValid, view, read_value, same_key, view-update_elem, view-delete_elem,
}
use bpfabric.Maps.Registry.{done, Maps, hash, map_at, lookup_map, update_map, delete_map}
use bpfabric.Maps.Registry.Access.{operations-Touches}
use bpfabric.Tables.{TableEntry, find_table}
use bpfabric.Tables.Lookup.{find_table_kept, lookup-opened}
use bpfabric.Agent.{
  key_covers, value_covers, Reply, table_entry_get, table_entry_insert, table_entry_delete, success,
  entry_not_found, Release, frees_null, frees_map_element, get_reply, get_from,
  recv_table_entry_get_request, insert_reply, insert_into, recv_table_entry_insert_request,
  delete_reply, delete_from, recv_table_entry_delete_request,
}

module _ (g : Ght) where
  lookup-read :
      (m : HashMap g) (o : Option (List ℕ)) (v : List ℕ)
      → read_value g m o ≡ some v
      → (bytes : List ℕ) × (value_part g m o ≡ some bytes) × (take m.value_size bytes ≡ v)
  unfolding value_part read_at
  lookup-read m none v h = absurd (cc)
  lookup-read m (some l) v h = (drop (round_up m.key_size) l, refl, cc)

  lookup-missing :
      (m : HashMap g) (o : Option (List ℕ)) → read_value g m o ≡ none → value_part g m o ≡ none
  unfolding value_part
  lookup-missing m none h = refl
  lookup-missing m (some l) h = absurd (cc)

  -- The table `name` is listed with the entry `e`, whose map is the hash map `m`, of the value size
  -- that the entry says, and not the table of tables itself.
  pub record IsTable (maps : Maps g) (tables : ℕ) (name : List ℕ) (e : TableEntry) (m : HashMap g)
      : Type 0 where
    pub listed : find_table g maps tables name ≡ done (some e)
    pub apart : e.fd ≢ tables
    pub opened : map_at g maps e.fd ≡ some (hash m)
    pub sized : m.value_size ≡ e.value_size

  covers-key :
      (maps : Maps g) (tables : ℕ) (name key : List ℕ) (e : TableEntry) (m : HashMap g)
      → IsTable maps tables name e m
      → m.key_size ≤ length key
      → key_covers g (map_at g maps e.fd) key ≡ true
  unfolding key_covers
  covers-key maps tables name key e m t long = rw t.opened (le→leb _ _ long)

  covers-value :
      (maps : Maps g) (tables : ℕ) (name value : List ℕ) (e : TableEntry) (m : HashMap g)
      → IsTable maps tables name e m
      → m.value_size ≤ length value
      → value_covers g (map_at g maps e.fd) value ≡ true
  unfolding value_covers
  covers-value maps tables name value e m t long = rw t.opened (le→leb _ _ long)

  -- A get request is answered from the map's value of the key.
  abbrev pub answer : List ℕ → Option (List ℕ) → Reply × Release
  answer key none = (table_entry_get entry_not_found (some key) none, frees_null)
  answer key (some v) = (table_entry_get success (some key) (some v), frees_map_element)

  get_reply-answer :
      (m : HashMap g) (size : ℕ) (key : List ℕ) (o v : Option (List ℕ))
      → m.value_size ≡ size
      → read_value g m o ≡ v
      → get_reply g size key (done (value_part g m o)) ≡ done (answer key v)
  unfolding get_reply
  get_reply-answer m size key o none sized h = rw (lookup-missing m o h) refl
  get_reply-answer m size key o (some v) sized h =
      let (bytes, found, taken) = lookup-read m o v h in rw (found, ← sized, taken) refl

  -- A get request on a hash table other than the table of tables, listed with its map's value size, with a
  -- key that has at least the bytes of the map's key size, is answered with the value that the map has for the key, or with ENTRY_NOT_FOUND. Where it has found a
  -- value, the handler then frees a pointer into the map.
  pub get_request-answer :
      (maps : Maps g) (tables : ℕ) (name key : List ℕ) (e : TableEntry) (m : HashMap g)
      → IsTable maps tables name e m
      → m.key_size ≤ length key
      → recv_table_entry_get_request g maps tables name key ≡ done (answer key (view g m key))
  unfolding recv_table_entry_get_request get_from lookup_map HashMap.lookup_elem
  get_request-answer maps tables name key e m t long =
      rw
        (
          t.listed,
          get_from,
          covers-key maps tables name key e m t long,
          lookup-opened g maps e.fd key (hash m) t.opened,
        )
        (get_reply-answer m e.value_size key (g.get m.htab (take m.key_size key)) _ t.sized refl)

  -- After an insert request on a hash table other than the table of tables, listed with its map's value
  -- size, whose map is valid, with a key of at least the map's key
  -- size, a value of its value size and enough memory, a get request with the same key returns the
  -- value, and with a key, of at least the key size, that differs in these bytes it returns what it did
  -- before.
  pub insert_request-get_request :
      (maps : Maps g) (tables : ℕ) (name key value : List ℕ) (e : TableEntry) (m : HashMap g)
      → IsTable maps tables name e m
      → IsValid g m
      → m.key_size ≤ length key
      → length value ≡ m.value_size
      → (maps' : Maps g) × (recv_table_entry_insert_request g true maps tables name key value
          ≡ done (table_entry_insert success, maps'))
        × ((key' : List ℕ)
            → m.key_size ≤ length key'
            → recv_table_entry_get_request g maps' tables name key' ≡ (
                if same_key g m key key'
                then done (answer key' (some (take m.value_size value)))
                else recv_table_entry_get_request g maps tables name key'))
  unfolding recv_table_entry_insert_request insert_into insert_reply update_map
  insert_request-get_request maps tables name key value e m t valid long len =
      let touches = operations-Touches g true maps e.fd key value 0 in
      let (maps', acted, now, others) = touches.0.acts (hash m) t.opened in
      let whole = covers-value maps tables name value e m t (omega (arith, len)) in
      let (ok, valid', shape, views) =
        view-update_elem g m key value 0 valid (omega (arith, len)) in
      let m' = (HashMap.update_elem g true m key value 0).1 in
      let t' : IsTable maps' tables name e m' = record {
        listed = find_table_kept g maps maps' tables name (others tables t.apart) ∙ t.listed;
        apart = t.apart;
        opened = now;
        sized = shape.value_size ∙ t.sized;
      } in
      (
        maps',
        rw (t.listed, insert_into, covers-key maps tables name key e m t long, whole, acted) refl,
        λ key' long'.
            get_request-answer maps' tables name key' e m' t' (omega (arith, shape.key_size, long'))
            ∙ (ap (λ v. done (answer key' v)) (views key')
                ∙ elim (Bool-cases (same_key g m key key')) [
                  | inl s ↦ rw s refl
                  | inr s ↦ rw s (sym (get_request-answer maps tables name key' e m t long'))
                ]),
      )

  -- The reply to a delete request, from the result of the deletion.
  abbrev pub deleted : Bool → Reply
  deleted true = table_entry_delete success
  deleted false = table_entry_delete entry_not_found

  delete_reply-deleted :
      (b : Bool) (maps : Maps g) → delete_reply g (done (b, maps)) ≡ done (deleted b, maps)
  unfolding delete_reply
  delete_reply-deleted true maps = refl
  delete_reply-deleted false maps = refl

  -- A delete request on a listed hash table, with a key of at least the map's key size, is answered with SUCCESS exactly when the map has a value for the key,
  -- and else with ENTRY_NOT_FOUND. A get request with this key then finds no entry, and with a key
  -- that differs in the map's key size it returns what it did before.
  pub delete_request-get_request :
      (maps : Maps g) (tables : ℕ) (name key : List ℕ) (e : TableEntry) (m : HashMap g)
      → IsTable maps tables name e m
      → m.key_size ≤ length key
      → (b : Bool) × (maps' : Maps g) × (recv_table_entry_delete_request g maps tables name key
          ≡ done (deleted b, maps'))
        × ((b ≡ true) ↔ (view g m key ≢ none))
        × ((key' : List ℕ)
            → m.key_size ≤ length key'
            → recv_table_entry_get_request g maps' tables name key' ≡ (
                if same_key g m key key'
                then done (answer key' none)
                else recv_table_entry_get_request g maps tables name key'))
  unfolding recv_table_entry_delete_request delete_from delete_map
  delete_request-get_request maps tables name key e m t long =
      let touches = operations-Touches g true maps e.fd key key 0 in
      let (maps', acted, now, others) = touches.1.acts (hash m) t.opened in
      let (had, shape, views) = view-delete_elem g m key in
      let m' = (HashMap.delete_elem g m key).1 in
      let t' : IsTable maps' tables name e m' = record {
        listed = find_table_kept g maps maps' tables name (others tables t.apart) ∙ t.listed;
        apart = t.apart;
        opened = now;
        sized = shape.value_size ∙ t.sized;
      } in
      (
        (HashMap.delete_elem g m key).0,
        maps',
        rw (t.listed, delete_from, covers-key maps tables name key e m t long, acted)
            (delete_reply-deleted (HashMap.delete_elem g m key).0 maps'),
        had,
        λ key' long'.
            get_request-answer maps' tables name key' e m' t' (omega (arith, shape.key_size, long'))
            ∙ (ap (λ v. done (answer key' v)) (views key')
                ∙ elim (Bool-cases (same_key g m key key')) [
                  | inl s ↦ rw s refl
                  | inr s ↦ rw s (sym (get_request-answer maps tables name key' e m t long'))
                ]),
      )
