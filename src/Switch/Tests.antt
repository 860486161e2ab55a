-- ===== src/Switch/Tests.antt =====
-- The set-up of the software switch at a concrete page size and a concrete command line.
use bpfabric.Prelude.{ℕ, ◌+◌, ◌≡◌, refl, arith, true, false, some, List, [], ◌∷◌, ◌++◌}
use bpfabric.Maps.Registry.{done}
use bpfabric.Switch.Sockets.{MappedPort, Calls, setup_socket, mmap_length, teardown_socket}
use bpfabric.Switch.Sockets.Tiling.{Tiles, setup_socket-Tiles}
use bpfabric.Switch.Arguments.{Key, Arguments, verbose_key, dpid_key, arg_key, end_key, parse_keys}
use bpfabric.Switch.Arguments.Interfaces.{
  Ends, interfaces_of, last_dpid, last_controller, parse_keys-Ends,
}

abbrev calls : Calls
calls = record {
  ifindex = 2;
  socket = some 5;
  set_version = true;
  set_rx_ring = true;
  set_tx_ring = true;
  mmap = λ len. some 0x7f00_0000_0000;
  rx_malloc = true;
  tx_malloc = true;
  bind = true;
}

-- Pages of 4096 bytes
setup_socket-Tiles_example :
    (mmap_length 4096 ≡ 8388608)
    × (p : MappedPort) × (setup_socket 4096 calls ≡ done (some p))
    × Tiles 0x7f00_0000_0000 4194304 p.rx_ring
    × Tiles (0x7f00_0000_0000 + 4194304) 4194304 p.tx_ring
    × (teardown_socket p ≡ (0x7f00_0000_0000 + 4194304, 4194304) ∷ (0x7f00_0000_0000, 4194304) ∷ [])
setup_socket-Tiles_example =
    setup_socket-Tiles 8 (omega arith) (omega arith) 5 0x7f00_0000_0000 calls
      (record {
        known = refl;
        opened = refl;
        versioned = refl;
        ringed = (refl, refl);
        mapped = refl;
        allocated = (refl, refl);
        bound = refl;
      })
      (omega arith)

abbrev defaults : Arguments
defaults = record {
  interfaces = [];
  interface_count = 0;
  dpid = 77;
  controller = [];
  verbose = false;
}

-- `-v a -d 9 b`, where every number is 9
abbrev keys : List Key
keys = verbose_key ∷ arg_key (97 ∷ []) ∷ dpid_key (57 ∷ []) ∷ arg_key (98 ∷ []) ∷ []

abbrev always_nine : List ℕ → ℕ
always_nine arg = 9

parse_keys-Ends_example :
    Ends
      (interfaces_of keys)
      (last_dpid always_nine 77 keys)
      (last_controller [] keys)
      (parse_keys always_nine defaults 0 (keys ++ (end_key ∷ [])))
parse_keys-Ends_example = parse_keys-Ends always_nine keys defaults refl refl refl
