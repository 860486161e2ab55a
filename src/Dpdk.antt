-- ===== src/Dpdk.antt =====
-- dpdkswitch/main.c: the output queues of a core and `pkt_transmit`. The calls of DPDK are
-- parameters: `tx_burst` says how many packets of a burst `rte_eth_tx_burst` accepts; what is handed to
-- it and to `rte_pktmbuf_free` is recorded. A packet buffer (`struct rte_mbuf *`) is a number.
pub mod Queues
pub mod Flood
pub mod Arguments
pub mod Cores
pub mod Links
pub mod Clock
pub mod Setup
mod Tests
use bpfabric.Prelude.{ℕ, zero, suc, ◌+◌, ◌-◌, ◌*◌, ◌/◌, ◌%◌, ◌^◌, Bool, true, false, ◌&&◌, not}
use bpfabric.Prelude.{Option, none, some, List, [], ◌∷◌, ◌++◌}
use bpfabric.Prelude.{◌==◌, ltb, if◌then◌else◌, length, take, drop, get_elem?, set}
use bpfabric.Prelude.Words.{u8_mod, u16_mod, u32_mod, u64_mod}
use bpfabric.Maps.Registry.{Call, done, crash}
use bpfabric.Programs.{flood, controller, drop_packet}

-- MAX_PKT_BURST
abbrev pub max_pkt_burst : ℕ
max_pkt_burst = 32

-- A port of a core: `tx_mbufs[port]` up to `len`, its statistics, and the packets that
-- `rte_eth_tx_burst` has accepted and that were freed because it has not.
pub record TxPort : Type 0 where
  pub m_table : List ℕ
  pub tx : ℕ
  pub dropped : ℕ
  pub accepted : List ℕ
  pub freed : List ℕ

-- `l2fwd_send_burst` of the whole queue, once `rte_eth_tx_burst` has returned `ret`; the callers then
-- set `len` to 0.
unfoldable pub send_burst : ℕ → TxPort → TxPort
send_burst ret p =
    let n = length p.m_table in
    record {
      m_table = [];
      tx = (p.tx + ret) % u64_mod;
      dropped = if ltb ret n then (p.dropped + (n - ret)) % u64_mod else p.dropped;
      accepted = p.accepted ++ take ret p.m_table;
      freed = p.freed ++ drop ret p.m_table;
    }

-- A core: its RTE_MAX_ETHPORTS ports, the reference count of each packet buffer as this file's calls of
-- `rte_mbuf_refcnt_update` change it (DPDK's own changes, when it frees or has sent a buffer, are left
-- out), the buffers passed to `rte_pktmbuf_free`, and those passed to the controller.
pub record Core : Type 0 where
  pub ports : List TxPort
  pub refcnt : ℕ → ℕ
  pub released : List ℕ
  pub punted : List ℕ

-- `rte_mbuf_refcnt_update(m, 1)` and `rte_mbuf_refcnt_update(m, -1)`, on a 16-bit counter. The changes
-- that DPDK makes itself are not part of it: a theorem on the count is about a flood that sends nothing.
unfoldable pub update_ref : ℕ → ℕ → Core → Core
update_ref m by c = record c {
  refcnt = λ k. if k == m then (c.refcnt k + by) % u16_mod else c.refcnt k;
}

abbrev pub increment : ℕ → Core → Core
increment m c = update_ref m 1 c

abbrev pub decrement : ℕ → Core → Core
decrement m c = update_ref m (u16_mod - 1) c

-- `l2fwd_enabled_port_mask & (1 << i)`
unfoldable pub is_enabled : ℕ → ℕ → Bool
is_enabled mask i = mask / 2 ^ i % 2 == 1

unfoldable pub after_send : ℕ → Call Core → Call Core
after_send m crash = crash
after_send m (done c) = done (decrement m c)

-- What `rte_eth_tx_burst` returns for a port in a state.
module _ (tx_burst : ℕ → TxPort → ℕ) where
  -- `l2fwd_send_packet` on a port's queue.
  unfoldable pub enqueue : ℕ → ℕ → TxPort → TxPort
  unfolding send_burst
  enqueue port m p =
      let p' = record p { m_table = p.m_table ++ (m ∷ []) } in
      if length p'.m_table == max_pkt_burst then send_burst (tx_burst port p') p' else p'

  -- The drain of `l2fwd_main_loop` on one port.
  unfoldable pub drain : ℕ → TxPort → TxPort
  unfolding send_burst
  drain port p = if length p.m_table == 0 then p else send_burst (tx_burst port p) p

  unfoldable pub put_back : Core → ℕ → ℕ → Option TxPort → Call Core
  unfolding enqueue
  put_back c port m none = crash
  put_back c port m (some p) = done (record c { ports = set c.ports port (enqueue port m p) })

  -- `l2fwd_send_packet`, whose port is a `uint8_t`; from RTE_MAX_ETHPORTS on it is past the array.
  unfoldable pub send_packet : ℕ → ℕ → Core → Call Core
  unfolding put_back
  send_packet m port c = put_back c (port % u8_mod) m (get_elem? c.ports (port % u8_mod))

  -- One round of the loop of `pkt_transmit` for FLOOD.
  unfoldable pub flood_port : ℕ → ℕ → ℕ → ℕ → Core → Call Core
  unfolding is_enabled update_ref send_packet after_send
  flood_port mask in_port m i c =
      if is_enabled mask i
      then if i == in_port
        then done (decrement m c)
        else after_send m (send_packet m i (increment m c))
      else done c

  -- The loop from port i on, for so many more ports.
  unfoldable pub flood_ports : ℕ → ℕ → ℕ → ℕ → ℕ → Call Core → Call Core
  unfolding flood_port
  flood_ports mask in_port m zero i c = c
  flood_ports mask in_port m (suc n) i crash = crash
  flood_ports mask in_port m (suc n) i (done c) =
      flood_ports mask in_port m n (i + 1) (flood_port mask in_port m i c)

  -- `pkt_transmit`; `in_port` is that of the packet's metadata.
  unfoldable pub pkt_transmit : ℕ → ℕ → ℕ → ℕ → Core → Call Core
  unfolding flood_ports send_packet
  pkt_transmit mask in_port m port c =
      if port == flood
      then flood_ports mask in_port m (length c.ports) 0 (done c)
      else if port == controller
      then done (record c { punted = c.punted ++ (m ∷ []); released = c.released ++ (m ∷ []) })
      else if port == drop_packet
      then done (record c { released = c.released ++ (m ∷ []) })
      else send_packet m port c

  -- The drain of `l2fwd_main_loop` over the ports from i on.
  unfoldable pub drain_ports : ℕ → List TxPort → List TxPort
  unfolding drain
  drain_ports i [] = []
  drain_ports i (p ∷ ps) = drain i p ∷ drain_ports (i + 1) ps

  unfoldable pub drain_core : Core → Core
  unfolding drain_ports
  drain_core c = record c { ports = drain_ports 0 c.ports }

  -- The port for a received packet: what the program returns, as a `uint32_t`, and DROP where there
  -- is no program.
  unfoldable pub port_for : Option (ℕ → ℕ) → ℕ → ℕ
  port_for none m = drop_packet
  port_for (some ubpf_fn) m = ubpf_fn m % u32_mod

  -- The loop of `l2fwd_main_loop` over a burst received from a port.
  unfoldable pub receive_burst : ℕ → ℕ → Option (ℕ → ℕ) → List ℕ → Call Core → Call Core
  unfolding port_for pkt_transmit
  receive_burst mask in_port ubpf_fn [] c = c
  receive_burst mask in_port ubpf_fn (m ∷ ms) crash = crash
  receive_burst mask in_port ubpf_fn (m ∷ ms) (done c) =
      receive_burst mask in_port ubpf_fn ms (pkt_transmit mask in_port m (port_for ubpf_fn m) c)
