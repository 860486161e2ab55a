-- ===== src/Maps/ArrayMap.antt =====
-- bpfmap/arraymap.c: a map from the indices below `max_entries` to values of `value_size` bytes.
pub mod Values
pub mod Keys
use bpfabric.Prelude.{
  ℕ, zero, suc, ◌+◌, ◌-◌, ◌*◌, ◌%◌, Bool, true, false, not, ◌||◌, Option, none, some,
}
use bpfabric.Prelude.{List, [], ◌∷◌, ltb, leb, ◌==◌, if◌then◌else◌, take, replicate}
use bpfabric.Prelude.Words.{u32_mod}
use bpfabric.Prelude.Bytes.{write_at}
use bpfabric.Maps.Attr.{
  Attr, Errno, einval, e2big, eexist, enoent, enomem, Result, ok, err, round_up, u32_of, bytes_of,
  bpf_exist, bpf_noexist,
}

-- `struct bpf_array`: the fields of its `struct bpf_map` that the operations read, the element
-- size, and the bytes from `value` to the end of the allocation.
pub record ArrayMap : Type 0 where
  pub key_size : ℕ
  pub value_size : ℕ
  pub max_entries : ℕ
  pub elem_size : ℕ
  pub value : List ℕ

-- sizeof(struct bpf_array) on a 64-bit host, which is also the offset of `value`
abbrev pub header_size : ℕ
header_size = 40

-- The bytes from `value` on: `calloc(max_entries * elem_size, sizeof(*array))`, whose first factor
-- is a `uint32_t`.
unfoldable pub value_bytes : ℕ → ℕ → ℕ
value_bytes max_entries elem_size = max_entries * elem_size % u32_mod * header_size - header_size

unfoldable pub is_invalid : Attr → Bool
is_invalid attr =
    attr.max_entries == 0
    || (not (attr.key_size == 4) || (attr.value_size == 0 || not (attr.map_flags == 0)))

-- The zeroed allocation with the attributes copied in.
unfoldable pub fresh : Attr → ℕ → ArrayMap
unfolding value_bytes
fresh attr elem_size = record {
  key_size = attr.key_size;
  value_size = attr.value_size;
  max_entries = attr.max_entries;
  elem_size = elem_size;
  value = replicate (value_bytes attr.max_entries elem_size) 0;
}

-- `array_map_alloc`; `room` says whether `calloc` succeeds.
unfoldable pub alloc : Bool → Attr → Result ArrayMap
unfolding is_invalid round_up fresh
alloc room attr =
    if is_invalid attr
    then err einval
    else if room
    then ok (fresh attr (round_up attr.value_size))
    else err enomem

-- `array->elem_size * index` on `uint32_t`
unfoldable pub offset_of : ArrayMap → ℕ → ℕ
offset_of a index = a.elem_size * index % u32_mod

-- `array_map_lookup_elem`: the offset from `value` that the returned pointer has.
unfoldable pub lookup_elem : ArrayMap → List ℕ → Option ℕ
unfolding u32_of offset_of
lookup_elem a key =
    let index = u32_of key in if leb a.max_entries index then none else some (offset_of a index)

-- `array_map_get_next_key`: the bytes written through `next_key`.
unfoldable pub get_next_key : ArrayMap → List ℕ → Result (List ℕ)
unfolding u32_of bytes_of
get_next_key a key =
    let index = u32_of key in
    if leb a.max_entries index
    then ok (bytes_of 0)
    else if index == a.max_entries - 1
    then err enoent
    else ok (bytes_of (index + 1))

-- `array_map_update_elem`; `value` has the `value_size` bytes that are copied.
unfoldable pub update_elem : ArrayMap → List ℕ → List ℕ → ℕ → Result ArrayMap
unfolding u32_of offset_of write_at
update_elem a key value map_flags =
    let index = u32_of key in
    if ltb bpf_exist map_flags
    then err einval
    else if leb a.max_entries index
    then err e2big
    else if map_flags == bpf_noexist
    then err eexist
    else ok (record a { value = write_at (offset_of a index) (take a.value_size value) a.value })

-- `array_map_delete_elem`
unfoldable pub delete_elem : ArrayMap → List ℕ → Result ArrayMap
delete_elem a key = err einval
