-- ===== src/Switch.antt =====
-- softswitch/main.c: the ports with their transmit and receive rings, and what is done with a packet.
pub mod Transmit
pub mod Delivery
pub mod Receive
pub mod Sockets
mod Tests
pub mod Arguments
use Prim.Native.Nat.{bit_and}
use bpfabric.Prelude.{
  ℕ, zero, suc, ◌+◌, ◌-◌, ◌%◌, Bool, true, false, not, Option, none, some, List, [], ◌∷◌, ◌++◌,
}
use bpfabric.Prelude.{◌||◌, ltb, ◌==◌, if◌then◌else◌, get_elem?, set, drop, length}
use bpfabric.Prelude.Words.{u16_mod, u32_mod}
use bpfabric.Programs.{flood, controller, drop_packet}

-- TP_STATUS_KERNEL, TP_STATUS_USER, TP_STATUS_SEND_REQUEST, TP_STATUS_SENDING of the kernel's
-- packet rings
abbrev pub status_kernel : ℕ
status_kernel = 0

abbrev pub status_user : ℕ
status_user = 1

abbrev pub status_send_request : ℕ
status_send_request = 1

abbrev pub status_sending : ℕ
status_sending = 2

-- A frame of a ring: `tp_status`, the time stamps of `struct tpacket2_hdr`, and the `tp_len` bytes
-- of the packet.
pub record Frame : Type 0 where
  pub tp_status : ℕ
  pub tp_sec : ℕ
  pub tp_nsec : ℕ
  pub bytes : List ℕ

-- `struct ring`: the frames that `rd` points to, `req.tp_frame_nr` of them.
pub record Ring : Type 0 where
  pub frames : List Frame
  pub frame_num : ℕ

-- What a frame of 2048 bytes has room for behind TPACKET2_HDRLEN - sizeof(struct sockaddr_ll), which is 32
abbrev pub frame_room : ℕ
frame_room = 2016

-- `struct port`. `overrun` says that a packet has been copied over the end of its frame, into the frames
-- behind it or past the ring: what the frames of the port hold is then no longer told by `tx_ring`.
pub record Port : Type 0 where
  pub rx_ring : Ring
  pub tx_ring : Ring
  pub overrun : Bool

-- `sizeof(struct metadatahdr)`
abbrev pub metadata_size : ℕ
metadata_size = 14

-- `struct metadatahdr` and the Ethernet frame behind it.
pub record Buffer : Type 0 where
  pub in_port : ℕ
  pub sec : ℕ
  pub nsec : ℕ
  pub length : ℕ
  pub frame : List ℕ

-- The ports of `dataplane`; the packets passed to `agent_packetin`; and the ports whose socket
-- has been told to send.
pub record Dataplane : Type 0 where
  pub ports : List Port
  pub packet_ins : List Buffer
  pub kicked : List ℕ

unfoldable pub tx_ready : Frame → Bool
tx_ready f = bit_and f.tp_status 3 == 0

unfoldable pub rx_ready : Frame → Bool
rx_ready f = bit_and f.tp_status status_user == status_user

-- `(frame_num + 1) % req.tp_frame_nr`
abbrev pub next_frame : Ring → ℕ
next_frame r = (r.frame_num + 1) % length r.frames

abbrev pub put_frame : Ring → Frame → Ring
put_frame r f = record { frames = set r.frames r.frame_num f; frame_num = next_frame r }

-- `tx_frame` at the frame that `frame_num` selects: the result is `true` for 0 and `false` for -1.
unfoldable pub tx_at : Port → List ℕ → Option Frame → Bool × Port
unfolding tx_ready
tx_at port frame_data none = (false, port)
tx_at port frame_data (some f) =
    if tx_ready f
    then (
      true,
      record port {
        tx_ring =
            put_frame port.tx_ring
              (record f { tp_status = status_send_request; bytes = frame_data });
        overrun = port.overrun || ltb frame_room (length frame_data);
      },
    )
    else (false, port)

unfoldable pub tx_frame : Port → List ℕ → Bool × Port
unfolding tx_at
tx_frame port frame_data =
    tx_at port frame_data (get_elem? port.tx_ring.frames port.tx_ring.frame_num)

-- The loop of FLOOD from port `i`.
unfoldable pub flood_from : ℕ → ℕ → List ℕ → List Port → List Port
unfolding tx_frame
flood_from i in_port frame_data [] = []
flood_from i in_port frame_data (p ∷ ports) =
    let rest = flood_from (i + 1) in_port frame_data ports in
    if i == in_port then p ∷ rest else (tx_frame p frame_data).1 ∷ rest

unfoldable pub indices : ℕ → List Port → List ℕ
indices i [] = []
indices i (p ∷ ports) = i ∷ indices (i + 1) ports

-- The default case: `&dataplane.ports[port]`, with no test of the port; `none` outside the array.
unfoldable pub forward_to : Dataplane → ℕ → List ℕ → Option Port → Option Dataplane
unfolding tx_frame
forward_to d port frame_data none = none
forward_to d port frame_data (some p) =
    some (record d { ports = set d.ports port (tx_frame p frame_data).1 })

-- `transmit(buf, len, port, flags)`, where `len` is the length of the whole buffer
unfoldable pub transmit : Dataplane → Buffer → ℕ → Bool → Option Dataplane
unfolding flood_from indices forward_to
transmit d buf port flags =
    if port == flood
    then some (record d {
      ports = flood_from 0 buf.in_port buf.frame d.ports;
      kicked = if flags then d.kicked ++ indices 0 d.ports else d.kicked;
    })
    else if port == controller
    then some (record d { packet_ins = d.packet_ins ++ (buf ∷ []) })
    else if port == drop_packet
    then some d
    else forward_to d port buf.frame (get_elem? d.ports port)

-- The metadata that the main loop writes in front of a received frame.
unfoldable pub metadata : ℕ → Frame → Buffer
metadata i f = record {
  in_port = i;
  sec = f.tp_sec;
  nsec = f.tp_nsec;
  length = length f.bytes % u16_mod;
  frame = f.bytes;
}
