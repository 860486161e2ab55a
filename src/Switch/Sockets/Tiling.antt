-- ===== src/Switch/Sockets/Tiling.antt =====
-- softswitch/main.c, `setup_socket`: the frames of the rings in the mapped memory.
use bpfabric.Prelude.{
  ℕ, zero, suc, ◌+◌, ◌*◌, ◌/◌, ◌%◌, ◌≤◌, ◌<◌, ◌≡◌, refl, ap, ◌∙◌, arith, true, false, some, [], ◌∷◌,
  ◌==◌, get_elem?,
}
use bpfabric.Prelude.Words.{u32_mod, u64_mod, sext32}
use bpfabric.Maps.Registry.{done}
use bpfabric.Switch.Sockets.{
  frame_bytes, setup_ring, MappedRing, MappedPort, Calls, iovecs, mapped_ring, mapped_port,
  mmap_length, or_exit, map_rings, open_socket, setup_socket, teardown_socket,
}

-- The frames of a ring are the `size` bytes from `map` on, one behind the other.
pub record Tiles (map size : ℕ) (r : MappedRing) : Type 0 where
  pub at : r.map ≡ map
  pub bytes : r.size ≡ size
  pub blocks : r.req.tp_block_size * r.req.tp_block_nr ≡ size
  pub whole : r.req.tp_frame_size * r.req.tp_frame_nr ≡ size
  pub frames :
      (i : ℕ)
      → i < r.req.tp_frame_nr
      → get_elem? r.rd i ≡ some (map + i * r.req.tp_frame_size, r.req.tp_frame_size)

-- None of the calls for an interface fails.
pub record Succeed (page fd map : ℕ) (c : Calls) : Type 0 where
  pub known : (c.ifindex == 0) ≡ false
  pub opened : c.socket ≡ some fd
  pub versioned : c.set_version ≡ true
  pub ringed : (c.set_rx_ring ≡ true) × (c.set_tx_ring ≡ true)
  pub mapped : c.mmap (mmap_length page) ≡ some map
  pub allocated : (c.rx_malloc ≡ true) × (c.tx_malloc ≡ true)
  pub bound : c.bind ≡ true

get_elem?-iovecs :
    (map n i j : ℕ)
    → j < n
    → (i + n) * frame_bytes < u32_mod
    → map + (i + n) * frame_bytes ≤ u64_mod
    → get_elem? (iovecs map frame_bytes n i) j ≡ some (map + (i + j) * frame_bytes, frame_bytes)
unfolding iovecs
get_elem?-iovecs map zero i j lt small fits = absurd (omega arith)
get_elem?-iovecs map (suc n) i zero lt small fits =
    ap (λ a. some (a, frame_bytes)) (omega (arith, small, fits))
get_elem?-iovecs map (suc n) i (suc j) lt small fits =
    get_elem?-iovecs map n (i + 1) j (omega arith) (omega (arith, small)) (omega (arith, fits))
    ∙ ap (λ a. some (a, frame_bytes)) (omega arith)

module _ (k : ℕ) (k_pos : 0 < k) (k_small : k < 2048) where
  -- The bytes of a ring for pages of `512 * k` bytes
  abbrev pub ring_bytes : ℕ
  ring_bytes = 524288 * k

  block_bytes : 512 * k * 4 % u32_mod ≡ 2048 * k
  block_bytes = omega (arith, k_small)

  frame_count : 2048 * k / frame_bytes * 256 % u32_mod ≡ 256 * k
  frame_count =
      let per : 2048 * k / frame_bytes ≡ k = omega arith in rw per (omega (arith, k_small))

  all_bytes : 2048 * k * 256 % u32_mod ≡ ring_bytes
  all_bytes = omega (arith, k_small)

  ring_bytes-sext32 : sext32 ring_bytes ≡ ring_bytes
  unfolding sext32
  ring_bytes-sext32 = ground (arith, k_small)

  mapped_ring-Tiles :
      (map : ℕ) → map + ring_bytes ≤ u64_mod → Tiles map ring_bytes (mapped_ring (512 * k) map)
  unfolding mapped_ring setup_ring
  mapped_ring-Tiles map fits =
      rw (block_bytes, frame_count, all_bytes)
        (record {
          at = refl;
          bytes = refl;
          blocks = omega arith;
          whole = omega arith;
          frames = λ i lt.
              get_elem?-iovecs map (256 * k) 0 i lt (omega (arith, k_small)) (omega (arith, fits))
              ∙ ap (λ a. some (a, frame_bytes)) (omega arith);
        })

  mmap_length-lem : mmap_length (512 * k) ≡ 2 * ring_bytes
  unfolding mmap_length setup_ring sext32
  mmap_length-lem = rw (block_bytes, all_bytes) (ground (arith, k_small))

  tx_start :
      (map : ℕ)
      → map + 2 * ring_bytes ≤ u64_mod
      → (map + sext32 (setup_ring (512 * k)).1) % u64_mod ≡ map + ring_bytes
  unfolding setup_ring
  tx_start map fits = rw (block_bytes, all_bytes, ring_bytes-sext32) (omega (arith, fits, k_pos))

  mapped_port-Tiles :
      (fd map : ℕ)
      → map + 2 * ring_bytes ≤ u64_mod
      → Tiles map ring_bytes (mapped_port (512 * k) fd map).rx_ring
        × Tiles (map + ring_bytes) ring_bytes (mapped_port (512 * k) fd map).tx_ring
  unfolding mapped_port
  mapped_port-Tiles fd map fits = (
    mapped_ring-Tiles map (omega (arith, fits)),
    rw (tx_start map fits) (mapped_ring-Tiles (map + ring_bytes) (omega (arith, fits))),
  )

  setup_socket-succeeds :
      (fd map : ℕ) (c : Calls)
      → Succeed (512 * k) fd map c
      → setup_socket (512 * k) c ≡ done (some (mapped_port (512 * k) fd map))
  unfolding setup_socket open_socket map_rings or_exit
  setup_socket-succeeds fd map c s =
      rw
        (
          s.known, s.opened, s.versioned, s.ringed.0, s.ringed.1, s.mapped, s.allocated.0,
          s.allocated.1, s.bound,
        )
        refl

  unmapped :
      (p : MappedPort) (map : ℕ)
      → Tiles map ring_bytes p.rx_ring
      → Tiles (map + ring_bytes) ring_bytes p.tx_ring
      → teardown_socket p ≡ (map + ring_bytes, ring_bytes) ∷ (map, ring_bytes) ∷ []
  unfolding teardown_socket
  unmapped p map rx tx = rw (rx.at, rx.bytes, tx.at, tx.bytes, ring_bytes-sext32) refl

  -- For pages of 512 * k bytes, fewer than 2 ^ 20: where no call for an interface fails and the mapping
  -- does not reach past the address space, `setup_socket` succeeds. It has asked for a mapping of twice
  -- the bytes of a ring. The receive ring is the first half of it, the transmit ring the second: in
  -- each, the blocks and the frames that the kernel has been told of take exactly these bytes, and
  -- entry `i` of `rd`, for every frame, is the frame at `i` times the frame size. What
  -- `teardown_socket` unmaps are the two halves.
  pub setup_socket-Tiles :
      (fd map : ℕ) (c : Calls)
      → Succeed (512 * k) fd map c
      → map + 2 * ring_bytes ≤ u64_mod
      → (mmap_length (512 * k) ≡ 2 * ring_bytes)
        × (p : MappedPort) × (setup_socket (512 * k) c ≡ done (some p))
        × Tiles map ring_bytes p.rx_ring
        × Tiles (map + ring_bytes) ring_bytes p.tx_ring
        × (teardown_socket p ≡ (map + ring_bytes, ring_bytes) ∷ (map, ring_bytes) ∷ [])
  setup_socket-Tiles fd map c s fits =
      let (rx, tx) = mapped_port-Tiles fd map fits in
      let p = mapped_port (512 * k) fd map in
      (mmap_length-lem, p, setup_socket-succeeds fd map c s, rx, tx, unmapped p map rx tx)
