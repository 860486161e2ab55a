-- ===== src/Switch/Sockets.antt =====
-- softswitch/main.c: `setup_ring`, `setup_socket`, `teardown_socket`, and the loop of `main` over the
-- interfaces. What the calls of the system give is a record.
pub mod Tiling
use bpfabric.Prelude.{
  ℕ, zero, suc, ◌+◌, ◌-◌, ◌*◌, ◌/◌, ◌%◌, ◌≤◌, ◌<◌, ◌≡◌, ◌≢◌, refl, sym, ap, ◌∙◌, arith, Bool, true,
  false, not, ◌&&◌, Option, none, some, List, [], ◌∷◌, ◌==◌, get_elem?, if◌then◌else◌,
}
use bpfabric.Prelude.Words.{u32_mod, u64_mod, sext32}
use bpfabric.Maps.Registry.{Call, done, crash}

-- `struct tpacket_req`
pub record TpacketReq : Type 0 where
  pub tp_block_size : ℕ
  pub tp_block_nr : ℕ
  pub tp_frame_size : ℕ
  pub tp_frame_nr : ℕ

-- TPACKET_ALIGNMENT, which is 16, shifted by 7
abbrev pub frame_bytes : ℕ
frame_bytes = 2048

-- `req` and `size` of a ring, for the result of `getpagesize`
unfoldable pub setup_ring : ℕ → TpacketReq × ℕ
setup_ring page =
    let block_size = page * 4 % u32_mod in
    (
      record {
        tp_block_size = block_size;
        tp_block_nr = 256;
        tp_frame_size = frame_bytes;
        tp_frame_nr = block_size / frame_bytes * 256 % u32_mod;
      },
      block_size * 256 % u32_mod,
    )

-- The pointers of a ring: `map`, `req`, `size`, and `rd`, the base and the length of each frame.
pub record MappedRing : Type 0 where
  pub map : ℕ
  pub req : TpacketReq
  pub size : ℕ
  pub rd : List (ℕ × ℕ)

pub record MappedPort : Type 0 where
  pub fd : ℕ
  pub rx_ring : MappedRing
  pub tx_ring : MappedRing

-- What the calls of the system give for an interface: the index, the socket, whether setsockopt does not
-- fail, the address of a mapping of a length, whether the allocations and bind do not fail.
pub record Calls : Type 0 where
  pub ifindex : ℕ
  pub socket : Option ℕ
  pub set_version : Bool
  pub set_rx_ring : Bool
  pub set_tx_ring : Bool
  pub mmap : ℕ → Option ℕ
  pub rx_malloc : Bool
  pub tx_malloc : Bool
  pub bind : Bool

-- The loop that fills `rd` from frame `i`, `n` of which are left.
unfoldable pub iovecs : ℕ → ℕ → ℕ → ℕ → List (ℕ × ℕ)
iovecs map frame_size zero i = []
iovecs map frame_size (suc n) i =
    ((map + i * frame_size % u32_mod) % u64_mod, frame_size) ∷ iovecs map frame_size n (i + 1)

unfoldable pub mapped_ring : ℕ → ℕ → MappedRing
unfolding setup_ring iovecs
mapped_ring page map =
    let (req, size) = setup_ring page in
    record {
      map = map;
      req = req;
      size = size;
      rd = iovecs map req.tp_frame_size req.tp_frame_nr 0;
    }

-- `port->tx_ring.map` and the frames of both rings
unfoldable pub mapped_port : ℕ → ℕ → ℕ → MappedPort
unfolding mapped_ring setup_ring
mapped_port page fd map = record {
  fd = fd;
  rx_ring = mapped_ring page map;
  tx_ring = mapped_ring page ((map + sext32 (setup_ring page).1) % u64_mod);
}

-- The length that is mapped
unfoldable pub mmap_length : ℕ → ℕ
unfolding setup_ring
mmap_length page = sext32 (((setup_ring page).1 + (setup_ring page).1) % u32_mod)

-- `exit(1)` after a call that has failed; `done none` is the exit.
unfoldable pub or_exit : {A : Type 0} → Bool → Call (Option A) → Call (Option A)
or_exit true x = x
or_exit false x = done none

-- The second half of `setup_socket`: an allocation that failed is written to by `memset`.
unfoldable pub map_rings : ℕ → Calls → ℕ → Option ℕ → Call (Option MappedPort)
unfolding or_exit mapped_port
map_rings page c fd none = done none
map_rings page c fd (some map) =
    if c.rx_malloc && c.tx_malloc
    then or_exit c.bind (done (some (mapped_port page fd map)))
    else crash

unfoldable pub open_socket : ℕ → Calls → Option ℕ → Call (Option MappedPort)
unfolding or_exit map_rings mmap_length
open_socket page c none = done none
open_socket page c (some fd) = or_exit c.set_version (
    or_exit c.set_rx_ring (or_exit c.set_tx_ring (map_rings page c fd (c.mmap (mmap_length page)))))

unfoldable pub setup_socket : ℕ → Calls → Call (Option MappedPort)
unfolding or_exit open_socket
setup_socket page c = or_exit (not (c.ifindex == 0)) (open_socket page c c.socket)

unfoldable pub add_first :
    Call (Option MappedPort) → Call (Option (List MappedPort)) → Call (Option (List MappedPort))
add_first crash ps = crash
add_first (done none) ps = done none
add_first (done (some p)) crash = crash
add_first (done (some p)) (done none) = done none
add_first (done (some p)) (done (some ps)) = done (some (p ∷ ps))

-- The loop of `main` over the interfaces
unfoldable pub setup_ports : ℕ → List Calls → Call (Option (List MappedPort))
unfolding setup_socket add_first
setup_ports page [] = done (some [])
setup_ports page (c ∷ cs) = add_first (setup_socket page c) (setup_ports page cs)

-- `teardown_socket`: the address and the length of each `munmap`
unfoldable pub teardown_socket : MappedPort → List (ℕ × ℕ)
unfolding sext32
teardown_socket p =
    (p.tx_ring.map, sext32 p.tx_ring.size) ∷ (p.rx_ring.map, sext32 p.rx_ring.size) ∷ []
