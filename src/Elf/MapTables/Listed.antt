-- ===== src/Elf/MapTables/Listed.antt =====
-- The loop of `ubpf_load_elf` over the map definitions: what is listed in the table of tables before
-- and after.
use bpfabric.Prelude.{ℕ, ◌≡◌, ◌≢◌, arith, refl, sym, ap, ◌∙◌, inl, inr}
use bpfabric.Prelude.{Bool, true, List, Option, none, some, length, take, if◌then◌else◌, Bool-cases}
use bpfabric.Prelude.Bytes.{bytes_eq_refl, bytes_eq-true}
use bpfabric.Maps.Ght.{Ght}
use bpfabric.Maps.HashMap
use bpfabric.Maps.HashMap.{HashMap}
use bpfabric.Maps.HashMap.Values.{view, read_value, same_key, view-update_elem}
use bpfabric.Maps.Registry.{Call, done, crash, Maps, hash, map_at, update_elem, update_map}
use bpfabric.Maps.Registry.Create.{Keeps}
use bpfabric.Maps.Registry.Access.{operations-Touches}
use bpfabric.Tables.{TableEntry, entry_of, entry_bytes, name_buffer, find_table}
use bpfabric.Tables.Lookup.{find_table_kept}
use bpfabric.Tables.View.{
  IsTableOfTables, listing, length-entry_bytes, entry_of-take, find_table-view,
}
use bpfabric.Elf.MapTables.{Declared, Creation, goes_on, stops, strays, listed, list_table}

-- `P` holds of the maps, whether the loop goes on or stops; `Q` where it goes on.
abbrev pub Ends : {M : Type 0} → (M → Type 0) → Creation M → Type 0
Ends P (goes_on maps) = P maps
Ends P (stops e maps) = P maps
Ends P strays = Unit

abbrev pub Goes : {M : Type 0} → (M → Type 0) → Creation M → Type 0
Goes P (goes_on maps) = P maps
Goes P (stops e maps) = Unit
Goes P strays = Unit

module _ (g : Ght) (tables : ℕ) where
  -- A table of the name is listed.
  pub record IsListed (maps : Maps g) (name : List ℕ) : Type 0 where
    pub entry : TableEntry
    pub at : find_table g maps tables name ≡ done (some entry)

  -- The table of tables is still one, and what was listed is listed with the same entry.
  pub record Grows (maps maps' : Maps g) : Type 0 where
    pub now : IsTableOfTables g tables maps'
    pub kept :
        (name : List ℕ) (e : TableEntry)
        → find_table g maps tables name ≡ done (some e)
        → find_table g maps' tables name ≡ done (some e)

  pub Grows-refl : (maps : Maps g) → IsTableOfTables g tables maps → Grows maps maps
  Grows-refl maps t = record { now = t; kept = λ name e h. h }

  pub Grows-trans : (a b c : Maps g) → Grows a b → Grows b c → Grows a c
  Grows-trans a b c h k = record { now = k.now; kept = λ name e q. k.kept name e (h.kept name e q) }

  pub kept-IsListed : (a b : Maps g) (name : List ℕ) → Grows a b → IsListed a name → IsListed b name
  kept-IsListed a b name h l = record { entry = l.entry; at = h.kept name l.entry l.at }

  -- The table of tables depends only on its own map.
  same_table :
      (maps maps' : Maps g) (t : IsTableOfTables g tables maps)
      → map_at g maps' tables ≡ some (hash t.table)
      → IsTableOfTables g tables maps'
  same_table maps maps' t e = record {
    table = t.table;
    opened = e;
    valid = t.valid;
    key_size = t.key_size;
    value_size = t.value_size;
  }

  Keeps-Grows :
      (maps maps' : Maps g) → IsTableOfTables g tables maps → Keeps g maps maps' → Grows maps maps'
  unfolding same_table
  Keeps-Grows maps maps' t k =
      let t' = same_table maps maps' t (k tables (hash t.table) t.opened) in
      record {
        now = t';
        kept = λ name e h.
            find_table-view g tables maps' name t'
            ∙ (sym (find_table-view g tables maps name t) ∙ h);
      }

  -- The update that lists a table under a name that is not listed.
  update-Grows :
      (maps : Maps g) (name value : List ℕ)
      → IsTableOfTables g tables maps
      → length value ≡ 20
      → find_table g maps tables name ≡ done none
      → (maps' : Maps g) × (b : Bool) × (update_elem g true maps tables (name_buffer name) value 0
          ≡ done (b, maps'))
        × Grows maps maps'
        × (find_table g maps' tables name ≡ done (some (entry_of value)))
  unfolding update_map
  update-Grows maps name value t len missing =
      let m = t.table in
      let key = name_buffer name in
      let touches = operations-Touches g true maps tables key value 0 in
      let (maps', acted, now, others) = touches.0.acts (hash m) t.opened in
      let (ok, valid', shape, views) =
        view-update_elem g m key value 0 t.valid (omega (arith, len, t.value_size)) in
      let t' : IsTableOfTables g tables maps' = record {
        table = (HashMap.update_elem g true m key value 0).1;
        opened = now;
        valid = valid';
        key_size = shape.key_size ∙ t.key_size;
        value_size = shape.value_size ∙ t.value_size;
      } in
      let seen : (name' : List ℕ)
          → find_table g maps' tables name'
            ≡ done (
                listing (
                  if same_key g m key (name_buffer name')
                  then some (take m.value_size value)
                  else view g m (name_buffer name'))) =
        λ name'.
          find_table-view g tables maps' name' t'
          ∙ ap (λ o. done (listing o)) (views (name_buffer name')) in
      (
        maps',
        (update_map g true (hash m) key value 0).0,
        acted,
        record {
          now = t';
          kept = λ name' e h.
              seen name' ∙ elim (Bool-cases (same_key g m key (name_buffer name'))) [
                | inl s ↦ absurd (unlisted maps name name' e t missing h s)
                | inr s ↦ rw s (sym (find_table-view g tables maps name' t) ∙ h)
              ];
        },
        seen name
            ∙ rw (bytes_eq_refl (take m.key_size key))
                (ap (λ e. done (some e)) (rw t.value_size (entry_of-take value))),
      )
    where
      unlisted :
          (maps : Maps g) (name name' : List ℕ) (e : TableEntry) (t : IsTableOfTables g tables maps)
          → find_table g maps tables name ≡ done none
          → find_table g maps tables name' ≡ done (some e)
          → same_key g t.table (name_buffer name) (name_buffer name') ≢ true
      unlisted maps name name' e t missing h s =
          let same = bytes_eq-true _ _ s in
          let looked = find_table-view g tables maps name t in
          let looked' = find_table-view g tables maps name' t in
          let views : view g t.table (name_buffer name) ≡ view g t.table (name_buffer name') =
            ap (λ k. read_value g t.table (g.get t.table.htab k)) same in
          cc

  -- The entry that is listed for a new map.
  abbrev pub entry_for : ℕ → Declared → TableEntry
  entry_for fd d = record {
    fd = fd;
    table_type = d.def.map_type;
    key_size = d.def.key_size;
    value_size = d.def.value_size;
    max_entries = d.def.max_entries;
  }

  Keeps-find_table :
      (maps maps' : Maps g) (name : List ℕ)
      → IsTableOfTables g tables maps
      → Keeps g maps maps'
      → find_table g maps' tables name ≡ find_table g maps tables name
  Keeps-find_table maps maps' name t k =
      find_table_kept g maps maps' tables name (k tables (hash t.table) t.opened ∙ sym t.opened)

  -- A new map is listed under its name, and nothing that was listed is lost.
  list_table-Grows :
      (maps maps1 : Maps g) (fd : ℕ) (d : Declared)
      → IsTableOfTables g tables maps
      → find_table g maps tables d.name ≡ done none
      → Keeps g maps maps1
      → (maps' : Maps g) × (list_table g true tables d (done (some fd, maps1)) ≡ goes_on maps')
        × Grows maps maps'
        × (find_table g maps' tables d.name ≡ done (some (entry_of (entry_bytes (entry_for fd d)))))
  unfolding list_table listed
  list_table-Grows maps maps1 fd d t missing k =
      let grows1 = Keeps-Grows maps maps1 t k in
      let (maps', b, done', grows, found) =
        update-Grows maps1 d.name (entry_bytes (entry_for fd d)) grows1.now
          (length-entry_bytes (entry_for fd d))
          (Keeps-find_table maps maps1 d.name t k ∙ missing) in
      (maps', rw done' refl, Grows-trans maps maps1 maps' grows1 grows, found)

  -- How a step ends: what was listed is listed, and where it goes on the name is listed.
  abbrev pub Steps : Maps g → List ℕ → Creation (Maps g) → Type 0
  Steps maps name c = Ends (Grows maps) c × Goes (λ maps'. IsListed maps' name) c

  pub created-Steps :
      (maps : Maps g) (d : Declared) (c : Call (Option ℕ × Maps g))
      → IsTableOfTables g tables maps
      → find_table g maps tables d.name ≡ done none
      → ((o : Option ℕ) (maps1 : Maps g) → c ≡ done (o, maps1) → Keeps g maps maps1)
      → Steps maps d.name (list_table g true tables d c)
  unfolding list_table
  created-Steps maps d crash t missing keeps = (tt, tt)
  created-Steps maps d (done (none, maps1)) t missing keeps =
      (Keeps-Grows maps maps1 t (keeps none maps1 refl), tt)
  created-Steps maps d (done (some fd, maps1)) t missing keeps =
      let (maps', goes, grows, found) =
        list_table-Grows maps maps1 fd d t missing (keeps (some fd) maps1 refl) in
      rw goes (grows, record { entry = _; at = found })
