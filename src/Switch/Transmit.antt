-- ===== src/Switch/Transmit.antt =====
-- `tx_frame` of softswitch/main.c and the transmit ring.
use bpfabric.Prelude.{
  ◌||◌, ltb, ◌≤◌, ℕ, ◌+◌, ◌%◌, ◌<◌, ◌≡◌, refl, sym, ap, ◌∙◌, arith, inl, inr, Bool-cases,
}
use bpfabric.Prelude.{Bool, true, false, some, List, length, get_elem?, set}
use bpfabric.Prelude.{get_elem?-set_self, get_elem?-set_ne, length-set, get_elem?-some}
use bpfabric.Switch.{frame_room, Frame, Ring, Port, tx_ready, status_send_request, tx_at, tx_frame}

-- The index of the next frame is inside the ring.
abbrev pub IsRing : Ring → Type 0
IsRing r = r.frame_num < length r.frames

-- The frame that was queued.
abbrev pub queued : Frame → List ℕ → Frame
queued f bytes = record f { tp_status = status_send_request; bytes = bytes }

-- What `tx_frame` does to a port: with `true` it has queued the packet in the selected frame, which
-- was free, and advanced by one frame around the ring; with `false` the port is as before, and the
-- selected frame was not free.
abbrev pub Queues : Port → List ℕ → Bool × Port → Type 0
Queues port bytes (true, port') =
    (f : Frame) × (get_elem? port.tx_ring.frames port.tx_ring.frame_num ≡ some f)
    × (tx_ready f ≡ true)
    × (get_elem? port'.tx_ring.frames port.tx_ring.frame_num ≡ some (queued f bytes))
    × (port'.tx_ring.frame_num ≡ (port.tx_ring.frame_num + 1) % length port.tx_ring.frames)
Queues port bytes (false, port') =
    (port' ≡ port)
    × ((f : Frame) × (get_elem? port.tx_ring.frames port.tx_ring.frame_num ≡ some f)
        × (tx_ready f ≡ false))

-- What holds of the port whatever the result.
pub record KeepsRing (port port' : Port) : Type 0 where
  pub is_ring : IsRing port'.tx_ring
  pub same_size : length port'.tx_ring.frames ≡ length port.tx_ring.frames
  pub same_rx : port'.rx_ring ≡ port.rx_ring
  pub in_frame : port'.overrun ≡ port.overrun
  pub pending :
      (k : ℕ) (f : Frame)
      → get_elem? port.tx_ring.frames k ≡ some f
      → tx_ready f ≡ false
      → get_elem? port'.tx_ring.frames k ≡ some f

mod-lt : (a n : ℕ) → 0 < n → a % n < n
mod-lt a n h = grind arith

pending_kept :
    (port : Port) (f f' : Frame) (k : ℕ) (bytes : List ℕ)
    → get_elem? port.tx_ring.frames port.tx_ring.frame_num ≡ some f
    → tx_ready f ≡ true
    → get_elem? port.tx_ring.frames k ≡ some f'
    → tx_ready f' ≡ false
    → get_elem? (set port.tx_ring.frames port.tx_ring.frame_num (queued f bytes)) k ≡ some f'
pending_kept port f f' k bytes at free h busy =
    get_elem?-set_ne port.tx_ring.frames port.tx_ring.frame_num k (queued f bytes) (λ same.
      let e : some f ≡ some f' = sym at ∙ (ap (get_elem? port.tx_ring.frames) same ∙ h) in
      let e' : f ≡ f' = cc in let e'' = ap tx_ready e' in cc)
    ∙ h

not_over : (b : Bool) (n : ℕ) → n ≤ frame_room → (b || ltb frame_room n) ≡ b
not_over b n short = let s : ltb frame_room n ≡ false = ground (arith, short) in rw s (or_false b)
  where
    or_false : (c : Bool) → (c || false) ≡ c
    or_false true = refl
    or_false false = refl

tx_at-Queues :
    (port : Port) (bytes : List ℕ) (f : Frame)
    → IsRing port.tx_ring
    → length bytes ≤ frame_room
    → get_elem? port.tx_ring.frames port.tx_ring.frame_num ≡ some f
    → Queues port bytes (tx_at port bytes (some f)) × KeepsRing port (tx_at port bytes (some f)).1
unfolding tx_at
tx_at-Queues port bytes f ring short at = elim (Bool-cases (tx_ready f)) [
  | inl e ↦ rw e (
    (
      f,
      at,
      e,
      get_elem?-set_self port.tx_ring.frames port.tx_ring.frame_num (queued f bytes) ring,
      refl,
    ),
    record {
      is_ring = omega (
        arith,
        length-set port.tx_ring.frames port.tx_ring.frame_num (queued f bytes),
        mod-lt (port.tx_ring.frame_num + 1) (length port.tx_ring.frames) (omega arith),
      );
      same_size = length-set port.tx_ring.frames port.tx_ring.frame_num (queued f bytes);
      same_rx = refl;
      in_frame = not_over port.overrun (length bytes) short;
      pending = λ k f' h busy. pending_kept port f f' k bytes at e h busy;
    },
  )
  | inr e ↦ rw e (
    (refl, (f, at, e)),
    record {
      is_ring = ring;
      same_size = refl;
      same_rx = refl;
      in_frame = refl;
      pending = λ k f' h busy. h;
    },
  )
]

-- On a port whose index is inside its ring, with a packet of at most 2016 bytes, which a frame has room
-- for, `tx_frame` queues the packet exactly when the selected frame is free. It does not change a frame
-- that the kernel still has to send, nor the receive ring, does not write past the frame, and leaves
-- the index inside a ring of the same size.
pub tx_frame-Queues :
    (port : Port) (bytes : List ℕ)
    → IsRing port.tx_ring
    → length bytes ≤ frame_room
    → Queues port bytes (tx_frame port bytes) × KeepsRing port (tx_frame port bytes).1
unfolding tx_frame
tx_frame-Queues port bytes ring short =
    let (f, at) = get_elem?-some port.tx_ring.frames port.tx_ring.frame_num ring in
    rw at (tx_at-Queues port bytes f ring short at)
