-- ===== src/Maps/ArrayMap/Values.antt =====
-- The values of an array map: allocation, look-up and update of bpfmap/arraymap.c.
use bpfabric.Prelude.{
  ℕ, zero, suc, ◌+◌, ◌-◌, ◌*◌, ◌%◌, ◌≤◌, ◌<◌, ◌≡◌, ◌≢◌, refl, ap, arith, inl, inr,
}
use bpfabric.Prelude.{Bool, true, false, some, List, [], ◌∷◌, length, take, replicate, Bool-cases}
use bpfabric.Prelude.{ltb, leb, ◌==◌, if◌then◌else◌, length-replicate, ==_iff}
use bpfabric.Prelude.Words.{u32_mod}
use bpfabric.Prelude.Bytes.{
  write_at, read_at, length-write_at, read_at-write_at, read_at-write_above, read_at-write_below,
}
use bpfabric.Maps.Attr.{Attr, ok, round_up, u32_of, bpf_noexist, bpf_exist}
use bpfabric.Maps.Attr.Rounding.{le-round_up, round_up_lem}
use bpfabric.Maps.ArrayMap.{
  ArrayMap, header_size, value_bytes, is_invalid, fresh, alloc, offset_of, lookup_elem, update_elem,
}

-- Every element lies in the allocation, and offsets do not wrap.
pub record IsValid (a : ArrayMap) : Type 0 where
  pub has_entries : 0 < a.max_entries
  pub elem_fits : a.value_size ≤ a.elem_size
  pub small : a.max_entries * a.elem_size < u32_mod
  pub room : a.max_entries * a.elem_size ≤ length a.value

abbrev pub Fits : Attr → Type 0
Fits attr =
    (attr.value_size ≤ u32_mod - 8) × (attr.max_entries * round_up attr.value_size < u32_mod)

ok-injective : {a b : ArrayMap} → ok a ≡ ok b → a ≡ b
ok-injective e = cc

alloc-fresh :
    (room : Bool) (attr : Attr) (a : ArrayMap)
    → alloc room attr ≡ ok a
    → fresh attr (round_up attr.value_size) ≡ a
unfolding alloc
alloc-fresh room attr a h = ground arith

product-le : (n e : ℕ) → 0 < n → 8 ≤ e → 8 ≤ n * e
product-le n e h k = grind arith

fresh-IsValid :
    (attr : Attr)
    → is_invalid attr ≡ false
    → Fits attr
    → IsValid (fresh attr (round_up attr.value_size))
unfolding fresh value_bytes is_invalid
fresh-IsValid attr valid (small, total) =
    let pos : (0 < attr.value_size) × (0 < attr.max_entries) = ground arith in
    let rounded = round_up_lem attr.value_size pos.0 small in
    let least = product-le attr.max_entries (round_up attr.value_size) pos.1 (omega arith) in
    record {
      has_entries = pos.1;
      elem_fits = le-round_up attr.value_size pos.0 small;
      small = total;
      room = omega (
        arith,
        length-replicate {A = ℕ} (value_bytes attr.max_entries (round_up attr.value_size)) 0,
      );
    }

-- An allocation of attributes whose total size fits 32 bits is a valid array of the asked shape,
-- with keys of 4 bytes.
pub alloc-IsValid :
    (room : Bool) (attr : Attr) (a : ArrayMap)
    → alloc room attr ≡ ok a
    → Fits attr
    → IsValid a
      × (a.max_entries ≡ attr.max_entries)
      × (a.value_size ≡ attr.value_size)
      × (a.key_size ≡ 4)
unfolding alloc fresh is_invalid
alloc-IsValid room attr a h fits = elim (Bool-cases (is_invalid attr)) [
  | inl e ↦ absurd (ground arith)
  | inr e ↦
      let same = alloc-fresh room attr a h in
      rw (← same) (fresh-IsValid attr e fits, refl, refl, ground arith)
]

-- The value at an index, as a client reads it through the looked-up pointer.
abbrev pub view : ArrayMap → ℕ → List ℕ
view a i = read_at (offset_of a i) a.value_size a.value

offset_room :
    (a : ArrayMap) (i : ℕ)
    → IsValid a
    → i < a.max_entries
    → (offset_of a i ≡ a.elem_size * i) × (a.elem_size * i + a.elem_size ≤ length a.value)
unfolding offset_of
offset_room a i v h =
    let total : a.elem_size * i + a.elem_size ≤ a.max_entries * a.elem_size = grind arith in
    (omega arith, omega arith)

-- An update succeeds exactly for the flags BPF_ANY and BPF_EXIST and an index below
-- `max_entries`, and then stores the value.
update-cases :
    (a : ArrayMap) (key value : List ℕ) (flags : ℕ) (a' : ArrayMap)
    → update_elem a key value flags ≡ ok a'
    → (u32_of key < a.max_entries)
      × (flags ≤ bpf_exist)
      × (flags ≢ bpf_noexist)
      × (record a { value = write_at (offset_of a (u32_of key)) (take a.value_size value) a.value }
          ≡ a')
unfolding update_elem
update-cases a key value flags a' h = (ground arith, ground arith, ground arith, ground arith)

slots_apart : (e i j : ℕ) → i < j → e * i + e ≤ e * j
slots_apart e i j h = grind arith

take_all : (xs : List ℕ) (n : ℕ) → length xs ≡ n → take n xs ≡ xs
take_all [] zero h = refl
take_all [] (suc n) h = refl
take_all (x ∷ xs) zero h = absurd (omega arith)
take_all (x ∷ xs) (suc n) h = ap (λ t. x ∷ t) (take_all xs n (omega arith))

write-view :
    (a : ArrayMap) (i j : ℕ) (src : List ℕ)
    → IsValid a
    → i < a.max_entries
    → j < a.max_entries
    → length src ≡ a.value_size
    → read_at (offset_of a j) a.value_size (write_at (offset_of a i) src a.value)
      ≡ (if i == j then src else view a j)
unfolding offset_of
write-view a i j src v hi hj len = elim (Bool-cases (i == j)) [
  | inl e ↦
      let same : i ≡ j = (==_iff i j).0 e in
      rw (e, ← same, ← len)
        (read_at-write_at (offset_of a i) src a.value (omega (arith, offset_room a i v hi)))
  | inr e ↦ rw e (elim (Bool-cases (ltb i j)) [
    | inl lt ↦
        let gap = slots_apart a.elem_size i j (ground arith) in
        read_at-write_above (offset_of a j) (offset_of a i) a.value_size src a.value
          (omega (arith, offset_room a i v hi, offset_room a j v hj))
    | inr ge ↦
        let gap = slots_apart a.elem_size j i (ground arith) in
        read_at-write_below (offset_of a j) (offset_of a i) a.value_size src a.value
          (omega (arith, offset_room a i v hi, offset_room a j v hj))
  ])
]

-- A successful update of a valid array with a value of `value_size` bytes stores the value under its
-- index, leaves every other index as it was, and keeps the array valid.
pub view-update :
    (a : ArrayMap) (key value : List ℕ) (flags : ℕ) (a' : ArrayMap)
    → IsValid a
    → length value ≡ a.value_size
    → update_elem a key value flags ≡ ok a'
    → IsValid a'
      × ((j : ℕ) → j < a.max_entries → view a' j ≡ (if u32_of key == j then value else view a j))
unfolding offset_of
view-update a key value flags a' v len h =
    let (inside, _, _, same) = update-cases a key value flags a' h in
    let whole = take_all value a.value_size len in
    rw (← same) (
      record {
        has_entries = v.has_entries;
        elem_fits = v.elem_fits;
        small = v.small;
        room =
            omega
              (arith, length-write_at (offset_of a (u32_of key)) (take a.value_size value) a.value);
      },
      λ j hj. rw whole (write-view a (u32_of key) j value v inside hj len),
    )

no_room : (x k : ℕ) → x ≡ k * u32_mod → x % u32_mod * header_size - header_size ≡ 0
no_room x k h = omega arith

le→leb_false : (i n : ℕ) → i < n → leb n i ≡ false
le→leb_false i n h = ground arith

-- Where the entries times the rounded value size are a positive multiple of 2 ^ 32, the product of
-- `uint32_t` is 0: the allocation has no room for any value, and yet look-ups succeed and give
-- pointers.
pub alloc-wraps :
    (attr : Attr) (key : List ℕ) (k : ℕ)
    → is_invalid attr ≡ false
    → attr.max_entries * round_up attr.value_size ≡ k * u32_mod
    → u32_of key < attr.max_entries
    → (a : ArrayMap) × (alloc true attr ≡ ok a)
      × (a.value ≡ [])
      × ((p : ℕ) × (lookup_elem a key ≡ some p))
unfolding alloc fresh lookup_elem value_bytes
alloc-wraps attr key k valid wraps h = (
  fresh attr (round_up attr.value_size),
  rw valid refl,
  ap (λ n. replicate n 0) (no_room _ k wraps),
  (
    offset_of (fresh attr (round_up attr.value_size)) (u32_of key),
    rw (le→leb_false (u32_of key) attr.max_entries h) refl,
  ),
)
