-- ===== src/Switch/Receive.antt =====
-- The receive loop of `main` in softswitch/main.c: what is done with the frames of one port.
pub mod Ends
use bpfabric.Prelude.{
  ℕ, zero, suc, ◌%◌, Bool, true, false, Option, none, some, get_elem?, set, if◌then◌else◌,
}
use bpfabric.Prelude.Words.{u32_mod}
use bpfabric.Switch.{
  Frame, Port, Buffer, Dataplane, metadata, put_frame, rx_ready, status_kernel, transmit,
}

-- `v2_rx_user_ready`, and the step to the next frame of the ring.
abbrev pub release : Port → Frame → Port
release p f = record p { rx_ring = put_frame p.rx_ring (record f { tp_status = status_kernel }) }

unfoldable pub release_at : Dataplane → ℕ → Frame → Option Port → Dataplane
release_at d i f none = d
release_at d i f (some p) = record d { ports = set d.ports i (release p f) }

unfoldable pub if_ready : Option Frame → Option Frame
unfolding rx_ready
if_ready none = none
if_ready (some f) = if rx_ready f then some f else none

-- The frame that the loop finds ready on a port, if there is one.
unfoldable pub next_received : Option Port → Option Frame
unfolding if_ready
next_received none = none
next_received (some p) = if_ready (get_elem? p.rx_ring.frames p.rx_ring.frame_num)

module _ {S : Type 0} where
  abbrev with_state : S → Option Dataplane → Option (S × Dataplane)
  with_state s none = none
  with_state s (some d) = some (s, d)

  -- `if (ubpf_fn != NULL)`: the program on the packet, with its own state (its maps) and what it
  -- makes of the packet; then `transmit` with its result as a `uint32_t`.
  unfoldable pub run_program :
      Option (S → Buffer → ℕ × Buffer × S) → S → Dataplane → Buffer → Option (S × Dataplane)
  unfolding transmit
  run_program none s d buf = some (s, d)
  run_program (some prog) s d buf =
      let (ret, buf', s') = prog s buf in with_state s' (transmit d buf' (ret % u32_mod) false)

  unfoldable pub released : ℕ → Frame → Option (S × Dataplane) → Option (S × Dataplane)
  unfolding release_at
  released i f none = none
  released i f (some (s, d)) = some (s, release_at d i f (get_elem? d.ports i))

  -- The inner loop for port `i`, from the frame that is ready, if one is, for at most `fuel` frames:
  -- the flag says whether it has ended.
  unfoldable pub receive_from :
      Option (S → Buffer → ℕ × Buffer × S)
      → ℕ
      → S
      → Dataplane
      → ℕ
      → Option Frame
      → Option (S × Dataplane × Bool)
  unfolding released run_program next_received metadata
  receive_from fn fuel s d i none = some (s, d, true)
  receive_from fn zero s d i (some f) = some (s, d, false)
  receive_from fn (suc fuel) s d i (some f) =
      elim (released i f (run_program fn s d (metadata i f))) [
        | none ↦ none
        | some (s', d') ↦ receive_from fn fuel s' d' i (next_received (get_elem? d'.ports i))
      ]
