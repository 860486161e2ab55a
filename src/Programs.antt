-- ===== src/Programs.antt =====
-- examples/: the eBPF programs that decide on a packet, with the maps that they keep.
pub mod Learning
pub mod Histogram
use Prim.Native.Nat.{bit_and}
use bpfabric.Prelude.{
  ℕ, ◌+◌, ◌/◌, Bool, true, false, Option, none, some, List, [], ◌∷◌, ◌==◌, if◌then◌else◌,
}
use bpfabric.Maps.Attr.{u32_of, bytes_of}
use bpfabric.Maps.Ght.{Ght}
use bpfabric.Maps.HashMap
use bpfabric.Maps.HashMap.{HashMap}

-- FLOOD, CONTROLLER, DROP
abbrev pub flood : ℕ
flood = 0xffff_fffd

abbrev pub controller : ℕ
controller = 0xffff_fffe

abbrev pub drop_packet : ℕ
drop_packet = 0xffff_ffff

-- `struct packet`: the metadata, and the addresses of the Ethernet header.
pub record Packet : Type 0 where
  pub in_port : ℕ
  pub sec : ℕ
  pub nsec : ℕ
  pub length : ℕ
  pub h_dest : List ℕ
  pub h_source : List ℕ

-- `address[0] & 1`: the address is a broadcast or multicast address.
unfoldable pub is_group : List ℕ → Bool
is_group [] = false
is_group (b ∷ address) = bit_and b 1 == 1

module _ (g : Ght) where
  -- `bpf_map_update_elem(&inports, pkt->eth.h_source, &pkt->metadata.in_port, 0)` for a source that
  -- is no group address; `room` says whether memory suffices.
  unfoldable pub learn : Bool → HashMap g → Packet → HashMap g
  unfolding is_group HashMap.update_elem bytes_of
  learn room inports pkt =
      if is_group pkt.h_source
      then inports
      else (HashMap.update_elem g room inports pkt.h_source (bytes_of pkt.in_port) 0).1

  -- `*out_port` behind a look-up, or the result for a failed one
  unfoldable pub port_or : ℕ → Option (List ℕ) → ℕ
  unfolding u32_of
  port_or missing none = missing
  port_or missing (some value) = u32_of value

  -- What learningswitch.c returns for the destination.
  unfoldable pub forward : HashMap g → Packet → ℕ
  unfolding is_group port_or HashMap.lookup_elem
  forward inports pkt =
      if is_group pkt.h_dest
      then flood
      else port_or flood (HashMap.lookup_elem g inports pkt.h_dest)

  -- `prog` of learningswitch.c
  unfoldable pub learning_switch : Bool → HashMap g → Packet → ℕ × HashMap g
  unfolding learn forward
  learning_switch room inports pkt =
      let inports' = learn room inports pkt in (forward inports' pkt, inports')

  -- `prog` of learningswitch_centralized.c, whose map the controller fills
  unfoldable pub known_destination : HashMap g → Packet → Option (List ℕ) → ℕ
  unfolding port_or HashMap.lookup_elem
  known_destination inports pkt none = controller
  known_destination inports pkt (some value) =
      port_or controller (HashMap.lookup_elem g inports pkt.h_dest)

  unfoldable pub centralized_switch : HashMap g → Packet → ℕ
  unfolding known_destination HashMap.lookup_elem
  centralized_switch inports pkt =
      known_destination inports pkt (HashMap.lookup_elem g inports pkt.h_source)

  -- The program run on packets in turn: what it returns for each.
  unfoldable pub switch_all : HashMap g → List Packet → List ℕ
  unfolding learning_switch
  switch_all inports [] = []
  switch_all inports (pkt ∷ pkts) =
      let r = learning_switch true inports pkt in r.0 ∷ switch_all r.1 pkts
