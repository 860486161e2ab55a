-- ===== src/Programs/Histogram.antt =====
-- examples/traffichist.c: a histogram of packet lengths in an array map, in front of the learning
-- switch.
use bpfabric.Prelude.{ℕ, ◌+◌, ◌*◌, ◌/◌, ◌%◌, ◌≤◌, ◌<◌, ◌≡◌, ◌≢◌, ◌⊎◌, arith, refl, ap, ◌∙◌}
use bpfabric.Prelude.{
  Bool, Option, none, some, List, ◌++◌, length, drop, leb, leb→le, Bool-cases, inl, inr,
}
use bpfabric.Prelude.Words.{u32_mod, u64_mod}
use bpfabric.Prelude.Bytes.{
  read_at, write_at, read_at-write_at_of, read_at-write_above, read_at-write_below,
}
use bpfabric.Maps.Attr.{u32_of, bytes_of}
use bpfabric.Maps.ArrayMap
use bpfabric.Maps.ArrayMap.{ArrayMap, offset_of}
use bpfabric.Maps.ArrayMap.Values.{IsValid}
use bpfabric.Maps.Ght.{Ght}
use bpfabric.Maps.HashMap.{HashMap}
use bpfabric.Maps.Registry.{Call, done, crash}
use bpfabric.Programs.{Packet, learning_switch}

-- A `uint64_t` in memory.
unfoldable u64_of : List ℕ → ℕ
unfolding u32_of
u64_of bytes = u32_of bytes + u32_mod * u32_of (drop 4 bytes)

unfoldable u64_bytes : ℕ → List ℕ
unfolding bytes_of
u64_bytes x = bytes_of (x % u32_mod) ++ bytes_of (x / u32_mod)

-- `(*value)++`, through a pointer into the array
unfoldable bump : ArrayMap → ℕ → ArrayMap
unfolding u64_of u64_bytes read_at write_at
bump a off = record a {
  value = write_at off (u64_bytes ((u64_of (read_at off 8 a.value) + 1) % u64_mod)) a.value;
}

-- `bpf_map_lookup_elem(&traffichist, &index, &value); (*value)++;`: a failed look-up leaves a null
-- pointer.
unfoldable count_packet : ArrayMap → Option ℕ → Call ArrayMap
unfolding bump
count_packet a none = crash
count_packet a (some off) = done (bump a off)

module _ (g : Ght) where
  unfoldable switch_after :
      Bool → HashMap g → Packet → Call ArrayMap → Call (ℕ × ArrayMap × HashMap g)
  unfolding learning_switch
  switch_after room inports pkt crash = crash
  switch_after room inports pkt (done a) =
      let r = learning_switch g room inports pkt in done (r.0, a, r.1)

  -- `prog`
  unfoldable traffichist : Bool → ArrayMap → HashMap g → Packet → Call (ℕ × ArrayMap × HashMap g)
  unfolding switch_after count_packet ArrayMap.lookup_elem bytes_of
  traffichist room a inports pkt =
      switch_after room inports pkt
        (count_packet a (ArrayMap.lookup_elem a (bytes_of (pkt.length / 64))))

u64_of-u64_bytes : (x : ℕ) → x < u64_mod → u64_of (u64_bytes x) ≡ x
unfolding u64_of u64_bytes u32_of bytes_of
u64_of-u64_bytes x h = omega arith

-- The counter of an index.
abbrev counter : ArrayMap → ℕ → ℕ
counter a i = u64_of (read_at (8 * i) 8 a.value)

bump-counter :
    (a : ArrayMap) (i : ℕ)
    → 8 * i + 8 ≤ length a.value
    → counter (bump a (8 * i)) i ≡ (counter a i + 1) % u64_mod
unfolding bump
bump-counter a i inside =
    ap u64_of
      (read_at-write_at_of (8 * i) 8 (u64_bytes ((counter a i + 1) % u64_mod)) a.value refl inside)
    ∙ u64_of-u64_bytes ((counter a i + 1) % u64_mod) (omega arith)

bump-other : (a : ArrayMap) (i j : ℕ) → i ≢ j → counter (bump a (8 * i)) j ≡ counter a j
unfolding bump
bump-other a i j ne = elim (Bool-cases (leb i j)) [
  | inl e ↦ ap u64_of (
      read_at-write_above (8 * j) (8 * i) 8 (u64_bytes ((counter a i + 1) % u64_mod)) a.value
        (let lt : (i < j) = ground arith in omega arith))
  | inr e ↦ ap u64_of (
      read_at-write_below (8 * j) (8 * i) 8 (u64_bytes ((counter a i + 1) % u64_mod)) a.value
        (let lt : (j < i) = ground arith in omega arith))
]

u32_of-bytes_of : (x : ℕ) → x < u32_mod → u32_of (bytes_of x) ≡ x
unfolding u32_of bytes_of
u32_of-bytes_of x h = omega arith

lookup_elem-index :
    (a : ArrayMap) (i : ℕ) (key : List ℕ)
    → IsValid a
    → a.elem_size ≡ 8
    → u32_of key ≡ i
    → ((a.max_entries ≤ i) × (ArrayMap.lookup_elem a key ≡ none))
      ⊎ ((i < a.max_entries)
          × (8 * i + 8 ≤ length a.value)
          × (ArrayMap.lookup_elem a key ≡ some (8 * i)))
unfolding ArrayMap.lookup_elem offset_of
lookup_elem-index a i key valid eight at = elim (Bool-cases (leb a.max_entries i)) [
  | inl e ↦ inl (leb→le a.max_entries i e, simp (at, e))
  | inr e ↦
      let inside : (i < a.max_entries) = ground arith in
      let total : (a.max_entries * a.elem_size ≡ a.max_entries * 8) = rw (eight) refl in
      let fits : (8 * i < u32_mod) = omega (arith, valid.small, total, inside) in
      inr (
        inside,
        omega (arith, valid.room, total, inside),
        (let index : (a.elem_size * i % u32_mod ≡ 8 * i) = rw (eight) (omega (arith, fits)) in
            simp (at, e, index)),
      )
]

module _ (g : Ght) where
  pub Counts : Bool → ArrayMap → HashMap g → Packet → ℕ → Type 0
  Counts room a inports pkt i =
      ((a.max_entries ≤ i) × (traffichist g room a inports pkt ≡ crash))
      ⊎ ((i < a.max_entries)
          × ((a' : ArrayMap) × (traffichist g room a inports pkt
                ≡ done (
                  (learning_switch g room inports pkt).0,
                  a',
                  (learning_switch g room inports pkt).1,
                ))
              × (counter a' i ≡ (counter a i + 1) % u64_mod)
              × ((j : ℕ) → i ≢ j → counter a' j ≡ counter a j)))

  -- On a valid array of elements of 8 bytes, a packet of less than 2 ^ 16 bytes whose length divided
  -- by 64 is below the number of entries increments the counter at this index, modulo 2 ^ 64, and no
  -- other, and the answer and the map of ports are those of the learning switch. With a longer
  -- packet the program crashes: it follows the null pointer of the failed look-up.
  pub traffichist_lem :
      (room : Bool) (a : ArrayMap) (inports : HashMap g) (pkt : Packet)
      → IsValid a
      → a.elem_size ≡ 8
      → pkt.length < 0x1_0000
      → Counts room a inports pkt (pkt.length / 64)
  unfolding Counts traffichist switch_after count_packet
  traffichist_lem room a inports pkt valid eight short =
      let i = pkt.length / 64 in
      let index = u32_of-bytes_of i (omega arith) in
      elim (lookup_elem-index a i (bytes_of i) valid eight index) [
        | inl (long, e) ↦ inl (long, ap (λ x. switch_after g room inports pkt (count_packet a x)) e)
        | inr (below, inside, e) ↦ inr (
          below,
          (
            bump a (8 * i),
            ap (λ x. switch_after g room inports pkt (count_packet a x)) e,
            bump-counter a i inside,
            bump-other a i,
          ),
        )
      ]
