-- ===== src/Maps/HashMap/Values.antt =====
-- The values of a hash map: allocation, look-up, update and deletion of bpfmap/hashtab.c.
use bpfabric.Prelude.{ℕ, ◌+◌, ◌-◌, ◌≤◌, ◌<◌, ◌≡◌, ◌≢◌, ◌↔◌, refl, ap, ◌∙◌, arith, inl, inr}
use bpfabric.Prelude.{Bool, true, Option, none, some, List, length, take, replicate, Bool-cases}
use bpfabric.Prelude.{if◌then◌else◌, length-replicate, length-take}
use bpfabric.Prelude.Words.{u32_mod}
use bpfabric.Prelude.Bytes.{
  bytes_eq, bytes_eq_refl, bytes_eq-true, read_at, length-write_at, read_at-write_at_of,
}
use bpfabric.Maps.Attr.{Attr, ok, round_up}
use bpfabric.Maps.Attr.Rounding.{le-round_up}
use bpfabric.Maps.Ght.{Ght}
use bpfabric.Maps.HashMap.{
  HashMap, alloc, alloc_with, new_element, drop_old, update_elem, delete_found, delete_elem,
}

ok-injective {ℓ} : {A : Type ℓ} {a b : A} → ok a ≡ ok b → a ≡ b
ok-injective e = cc

module _ (g : Ght) where
  open g use {get, insert, remove, get-create, insert_new, get-insert, get-remove}

  -- An element has room for the rounded key and the rounded value.
  pub record IsValid (m : HashMap g) : Type 0 where
    pub elem_room : round_up m.key_size + m.value_size ≤ m.elem_size

  -- What a client reads through a looked-up pointer: the `value_size` bytes of the value.
  abbrev pub read_value : HashMap g → Option (List ℕ) → Option (List ℕ)
  read_value m none = none
  read_value m (some l) = some (read_at (round_up m.key_size) m.value_size l)

  -- The map as a function from keys to values.
  abbrev pub view : HashMap g → List ℕ → Option (List ℕ)
  view m key = read_value m (get m.htab (take m.key_size key))

  abbrev pub same_key : HashMap g → List ℕ → List ℕ → Bool
  same_key m key key' = bytes_eq (take m.key_size key) (take m.key_size key')

  pub record SameShape (m m' : HashMap g) : Type 0 where
    pub key_size : m'.key_size ≡ m.key_size
    pub value_size : m'.value_size ≡ m.value_size
    pub elem_size : m'.elem_size ≡ m.elem_size
    pub max_entries : m'.max_entries ≡ m.max_entries

  read-new_element :
      (m : HashMap g) (key value : List ℕ)
      → IsValid m
      → m.value_size ≤ length value
      → read_at (round_up m.key_size) m.value_size (new_element g m key value)
        ≡ take m.value_size value
  unfolding new_element
  read-new_element m key value v long =
      read_at-write_at_of (round_up m.key_size) m.value_size (take m.value_size value) _
        (length-take m.value_size value long)
        (omega (
          arith,
          v.elem_room,
          length-write_at 0 (take m.key_size key) (replicate m.elem_size 0),
          length-replicate {A = ℕ} m.elem_size 0,
        ))

  get-drop_old :
      (m : HashMap g) (k j : List ℕ) (o : Option (List ℕ))
      → get m.htab k ≡ o
      → get (drop_old g m k o).htab j ≡ (if bytes_eq k j then none else get m.htab j)
  unfolding drop_old
  get-drop_old m k j none e = elim (Bool-cases (bytes_eq k j)) [
    | inl same ↦ rw (same, ← bytes_eq-true k j same) e
    | inr other ↦ rw other refl
  ]
  get-drop_old m k j (some l) e = get-remove m.htab k j

  drop_old-SameShape :
      (m : HashMap g) (k : List ℕ) (o : Option (List ℕ)) → SameShape m (drop_old g m k o)
  unfolding drop_old
  drop_old-SameShape m k none = record {
    key_size = refl;
    value_size = refl;
    elem_size = refl;
    max_entries = refl;
  }
  drop_old-SameShape m k (some l) = record {
    key_size = refl;
    value_size = refl;
    elem_size = refl;
    max_entries = refl;
  }

  -- The state that a successful update leaves.
  abbrev updated : HashMap g → List ℕ → List ℕ → ℕ → HashMap g
  updated m key value flags = (update_elem g true m key value flags).1

  inserted :
      (m : HashMap g) (key value : List ℕ) (flags : ℕ)
      → ((update_elem g true m key value flags).0 ≡ true)
        × SameShape m (updated m key value flags)
        × ((j : List ℕ)
            → get (updated m key value flags).htab j ≡ (
                if bytes_eq (take m.key_size key) j
                then some (new_element g m key value)
                else get m.htab j))
  unfolding update_elem
  inserted m key value flags =
      let k = take m.key_size key in
      let m1 = drop_old g m k (get m.htab k) in
      let shape = drop_old-SameShape m k (get m.htab k) in
      let old : (j : List ℕ) → get m1.htab j ≡ (if bytes_eq k j then none else get m.htab j) =
        λ j. get-drop_old m k j _ refl in
      let gone : get m1.htab k ≡ none = old k ∙ simp (bytes_eq_refl) in
      (
        insert_new m1.htab k (new_element g m key value) gone,
        record {
          key_size = shape.key_size;
          value_size = shape.value_size;
          elem_size = shape.elem_size;
          max_entries = shape.max_entries;
        },
        λ j.
            get-insert m1.htab k (new_element g m key value) j gone
            ∙ elim (Bool-cases (bytes_eq k j)) [
              | inl e ↦ rw e refl
              | inr e ↦ rw e (old j ∙ rw e refl)
            ],
      )

  reads_at_shape :
      (m m' : HashMap g) → SameShape m m' → (o : Option (List ℕ)) → read_value m' o ≡ read_value m o
  reads_at_shape m m' s none = refl
  reads_at_shape m m' s (some l) = ap some (simp (s.key_size, s.value_size) refl)

  -- An update for which memory suffices succeeds, whatever the flags and however many entries the
  -- map has; it stores the value under its key, leaves the values of all other keys, and keeps the
  -- map valid and its attributes.
  pub view-update_elem :
      (m : HashMap g) (key value : List ℕ) (flags : ℕ)
      → IsValid m
      → m.value_size ≤ length value
      → ((update_elem g true m key value flags).0 ≡ true)
        × IsValid (update_elem g true m key value flags).1
        × SameShape m (update_elem g true m key value flags).1
        × ((key' : List ℕ)
            → view (update_elem g true m key value flags).1 key'
              ≡ (if same_key m key key' then some (take m.value_size value) else view m key'))
  view-update_elem m key value flags v long =
      let (done, shape, gets) = inserted m key value flags in
      (
        done,
        record { elem_room = simp (shape.key_size, shape.value_size, shape.elem_size) v.elem_room },
        shape,
        λ key'.
            reads_at_shape m _ shape _
            ∙ (ap (λ n. read_value m (get (updated m key value flags).htab (take n key')))
                  shape.key_size
                ∙ (ap (read_value m) (gets (take m.key_size key'))
                    ∙ elim (Bool-cases (same_key m key key')) [
                      | inl e ↦ rw e (ap some (read-new_element m key value v long))
                      | inr e ↦ rw e refl
                    ])),
      )

  delete_found_cases :
      (m : HashMap g) (k : List ℕ) (o : Option (List ℕ))
      → get m.htab k ≡ o
      → (((delete_found g m k o).0 ≡ true) ↔ (read_value m o ≢ none))
        × SameShape m (delete_found g m k o).1
        × ((j : List ℕ)
            → get (delete_found g m k o).1.htab j ≡ (if bytes_eq k j then none else get m.htab j))
  unfolding delete_found
  delete_found_cases m k none e = (
    (λ t. absurd (cc), λ n. absurd (n refl)),
    drop_old-SameShape m k none,
    λ j. get-drop_old m k j none e,
  )
  delete_found_cases m k (some l) e =
      ((λ t n. cc, λ n. refl), drop_old-SameShape m k (some l), λ j. get-drop_old m k j (some l) e)

  -- A deletion succeeds exactly for a key that has a value; it removes this value and no other.
  pub view-delete_elem :
      (m : HashMap g) (key : List ℕ)
      → (((delete_elem g m key).0 ≡ true) ↔ (view m key ≢ none))
        × SameShape m (delete_elem g m key).1
        × ((key' : List ℕ)
            → view (delete_elem g m key).1 key'
              ≡ (if same_key m key key' then none else view m key'))
  unfolding delete_elem
  view-delete_elem m key =
      let k = take m.key_size key in
      let (answer, shape, gets) = delete_found_cases m k (get m.htab k) refl in
      (
        answer,
        shape,
        λ key'.
            reads_at_shape m _ shape _
            ∙ (ap (λ n. read_value m (get (delete_found g m k (get m.htab k)).1.htab (take n key')))
                  shape.key_size
                ∙ (ap (read_value m) (gets (take m.key_size key'))
                    ∙ elim (Bool-cases (same_key m key key')) [
                      | inl e ↦ rw e refl
                      | inr e ↦ rw e refl
                    ])),
      )

  alloc-alloc_with :
      (attr : Attr) (m : HashMap g)
      → alloc g true attr ≡ ok m
      → (0 < attr.value_size) × (alloc_with g attr (g.create attr.max_entries) ≡ ok m)
  unfolding alloc
  alloc-alloc_with attr m h = (ground arith, ground arith)

  alloc_with-empty :
      (attr : Attr) (o : Option g.Table) (m : HashMap g)
      → alloc_with g attr o ≡ ok m
      → g.create attr.max_entries ≡ o
      → 0 < attr.value_size
      → attr.value_size ≤ u32_mod - 8
      → round_up attr.key_size + round_up attr.value_size < u32_mod
      → IsValid m
        × (m.key_size ≡ attr.key_size)
        × (m.value_size ≡ attr.value_size)
        × ((key : List ℕ) → view m key ≡ none)
  unfolding alloc_with
  alloc_with-empty attr none m h e pos small total = absurd (cc)
  alloc_with-empty attr (some t) m h e pos small total =
      let same = ok-injective h in
      rw (← same) (
        record { elem_room = omega (arith, le-round_up attr.value_size pos small) },
        refl,
        refl,
        λ key. rw (get-create attr.max_entries t (take attr.key_size key) e) refl,
      )

  -- A map that has been allocated, with sizes whose rounded sum fits 32 bits, is valid, has the
  -- sizes asked for, and holds no value.
  pub alloc-empty :
      (attr : Attr) (m : HashMap g)
      → alloc g true attr ≡ ok m
      → attr.value_size ≤ u32_mod - 8
      → round_up attr.key_size + round_up attr.value_size < u32_mod
      → IsValid m
        × (m.key_size ≡ attr.key_size)
        × (m.value_size ≡ attr.value_size)
        × ((key : List ℕ) → view m key ≡ none)
  alloc-empty attr m h small total =
      let (pos, made) = alloc-alloc_with attr m h in
      alloc_with-empty attr (g.create attr.max_entries) m made refl pos small total
