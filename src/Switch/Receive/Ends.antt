-- ===== src/Switch/Receive/Ends.antt =====
-- The receive loop of softswitch/main.c ends: each round takes one ready frame off the ring.
use bpfabric.Prelude.{
  ℕ, zero, suc, ◌+◌, ◌%◌, ◌≤◌, ◌<◌, ◌≡◌, ◌⊎◌, inl, inr, refl, sym, ap, ◌∙◌, arith, Bool-cases,
}
use bpfabric.Prelude.{
  Bool, true, false, Option, none, some, List, [], ◌∷◌, length, get_elem?, set, if◌then◌else◌,
}
use bpfabric.Prelude.{get_elem?-set_self, length-set, get_elem?-lt}
use bpfabric.Prelude.Words.{u32_mod}
use bpfabric.Programs.{flood, controller, drop_packet}
use bpfabric.Switch.{
  Frame, Port, Buffer, Dataplane, metadata, rx_ready, status_kernel, tx_ready, tx_at, tx_frame,
  transmit,
}
use bpfabric.Switch.Delivery.{sent_if, goes_to, Delivers, transmit-Delivers}
use bpfabric.Switch.Receive.{
  release, release_at, if_ready, next_received, with_state, run_program, released, receive_from,
}

-- The number of frames of a ring that are ready for the switch.
abbrev pub ready_count : List Frame → ℕ
ready_count [] = 0
ready_count (f ∷ fs) = (if rx_ready f then 1 else 0) + ready_count fs

ready_count-set :
    (fs : List Frame) (k : ℕ) (f f' : Frame)
    → get_elem? fs k ≡ some f
    → rx_ready f ≡ true
    → rx_ready f' ≡ false
    → suc (ready_count (set fs k f')) ≡ ready_count fs
ready_count-set [] k f f' at r n = absurd (cc)
ready_count-set (x ∷ fs) zero f f' at r n = let e : x ≡ f = cc in rw (e, r, n) (omega arith)
ready_count-set (x ∷ fs) (suc k) f f' at r n = omega (arith, ready_count-set fs k f f' at r n)

tx_at_rx : (p : Port) (bytes : List ℕ) (o : Option Frame) → (tx_at p bytes o).1.rx_ring ≡ p.rx_ring
unfolding tx_at
tx_at_rx p bytes none = refl
tx_at_rx p bytes (some f) = elim (Bool-cases (tx_ready f)) [ inl e ↦ rw e refl | inr e ↦ rw e refl ]

sent_if_rx :
    (b : Bool) (bytes : List ℕ) (p : Port)
    → (p' : Port) × (sent_if b bytes (some p) ≡ some p') × (p'.rx_ring ≡ p.rx_ring)
unfolding tx_frame
sent_if_rx true bytes p =
    ((tx_frame p bytes).1, refl, tx_at_rx p bytes (get_elem? p.tx_ring.frames p.tx_ring.frame_num))
sent_if_rx false bytes p = (p, refl, refl)

sent_if_size :
    (xs ys : List Port) (b : ℕ → Bool) (bytes : List ℕ)
    → ((k : ℕ) → get_elem? ys k ≡ sent_if (b k) bytes (get_elem? xs k))
    → length ys ≡ length xs
sent_if_size [] [] b bytes h = refl
sent_if_size [] (y ∷ ys) b bytes h = let t = h 0 in absurd (cc)
sent_if_size (x ∷ xs) [] b bytes h =
    let (x', e, _) = sent_if_rx (b 0) bytes x in let t = h 0 ∙ e in absurd (cc)
sent_if_size (x ∷ xs) (y ∷ ys) b bytes h =
    ap suc (sent_if_size xs ys (λ k. b (suc k)) bytes (λ k. h (suc k)))

-- A result for which the switch has a port, or one of the three special ones.
abbrev pub IsAnswer : ℕ → ℕ → Type 0
IsAnswer ports port = (port ≡ flood) ⊎ (port ≡ controller) ⊎ (port ≡ drop_packet) ⊎ (port < ports)

transmit-some :
    (d : Dataplane) (buf : Buffer) (port : ℕ)
    → IsAnswer (length d.ports) port
    → (d' : Dataplane) × (transmit d buf port false ≡ some d') × Delivers d buf port d'
transmit-some d buf port a = elim (transmit-Delivers d buf port false) [
  | inl (_, m) ↦ absurd (ground arith)
  | inr r ↦ r
]

if_ready-some :
    (o : Option Frame) (f : Frame) → if_ready o ≡ some f → (o ≡ some f) × (rx_ready f ≡ true)
unfolding if_ready
if_ready-some none f h = absurd (cc)
if_ready-some (some x) f h = elim (Bool-cases (rx_ready x)) [
  | inl e ↦
      let h' : some x ≡ some f = rw e at h in
      let same : x ≡ f = cc in (h', ap rx_ready (sym same) ∙ e)
  | inr e ↦ let h' : none ≡ some f = rw e at h in absurd (cc)
]

kernel-unready : (f : Frame) → rx_ready (record f { tp_status = status_kernel }) ≡ false
unfolding rx_ready
kernel-unready f = refl

module _ {S : Type 0} where
  -- The program, if there is one, answers every packet so.
  abbrev pub Answers : Option (S → Buffer → ℕ × Buffer × S) → ℕ → Type 0
  Answers none ports = Unit
  Answers (some prog) ports = (s : S) (buf : Buffer) → IsAnswer ports ((prog s buf).0 % u32_mod)

  -- What the program and `transmit` leave of a port.
  abbrev Serves : Dataplane → ℕ → Port → Option (S × Dataplane) → Type 0
  Serves d i p r =
      (s' : S) × (d' : Dataplane) × (r ≡ some (s', d'))
      × (length d'.ports ≡ length d.ports)
      × ((p' : Port) × (get_elem? d'.ports i ≡ some p') × (p'.rx_ring ≡ p.rx_ring))

  run_program-Serves :
      (fn : Option (S → Buffer → ℕ × Buffer × S)) (s : S) (d : Dataplane) (buf : Buffer) (i : ℕ)
      (p : Port)
      → Answers fn (length d.ports)
      → get_elem? d.ports i ≡ some p
      → Serves d i p (run_program fn s d buf)
  unfolding run_program
  run_program-Serves none s d buf i p a at = (s, d, refl, refl, (p, at, refl))
  run_program-Serves (some prog) s d buf i p a at =
      let (ret, buf', s') = prog s buf in
      let (d', sends, delivers) = transmit-some d buf' (ret % u32_mod) (a s buf) in
      let (p', e, rx) = sent_if_rx (goes_to (ret % u32_mod) buf'.in_port i) buf'.frame p in
      (
        s',
        d',
        ap (with_state s') sends,
        sent_if_size d.ports d'.ports (goes_to (ret % u32_mod) buf'.in_port) buf'.frame
            delivers.sent,
        (
          p',
          delivers.sent i
              ∙ (ap (sent_if (goes_to (ret % u32_mod) buf'.in_port i) buf'.frame) at ∙ e),
          rx,
        ),
      )

  -- What a round of the loop leaves: one ready frame less.
  abbrev Drains : Dataplane → ℕ → Port → Option (S × Dataplane) → Type 0
  Drains d i p r =
      (s' : S) × (d' : Dataplane) × (r ≡ some (s', d'))
      × (length d'.ports ≡ length d.ports)
      × ((p' : Port) × (get_elem? d'.ports i ≡ some p')
          × (suc (ready_count p'.rx_ring.frames) ≡ ready_count p.rx_ring.frames))

  released-Drains :
      (d : Dataplane) (i : ℕ) (p : Port) (f : Frame) (r : Option (S × Dataplane))
      → next_received (some p) ≡ some f
      → Serves d i p r
      → Drains d i p (released i f r)
  unfolding released release_at next_received
  released-Drains d i p f r ready (s, d', e, size, (p', at, rx)) =
      let (found, is_ready) = if_ready-some _ f ready in
      let found' : get_elem? p'.rx_ring.frames p'.rx_ring.frame_num ≡ some f =
        ap (λ ring. get_elem? ring.frames ring.frame_num) rx ∙ found in
      (
        s,
        record d' { ports = set d'.ports i (release p' f) },
        rw e (rw at refl),
        length-set d'.ports i (release p' f) ∙ size,
        (
          release p' f,
          get_elem?-set_self d'.ports i (release p' f) (get_elem?-lt d'.ports i at),
          ready_count-set p'.rx_ring.frames p'.rx_ring.frame_num f _ found' is_ready
                (kernel-unready f)
              ∙ ap (λ ring. ready_count ring.frames) rx,
        ),
      )

  receive_from-suc :
      (fn : Option (S → Buffer → ℕ × Buffer × S)) (fuel : ℕ) (s : S) (d : Dataplane) (i : ℕ)
      (f : Frame) (s' : S) (d' : Dataplane)
      → released i f (run_program fn s d (metadata i f)) ≡ some (s', d')
      → receive_from fn (suc fuel) s d i (some f)
        ≡ receive_from fn fuel s' d' i (next_received (get_elem? d'.ports i))
  unfolding receive_from
  receive_from-suc fn fuel s d i f s' d' e = rw (receive_from, e) refl

  -- With a program whose every answer is a special result or a port of the switch, the loop over a
  -- port ends after at most as many rounds as frames were ready, with no frame ready at the ring's
  -- index and as many ports as before; it never reads past the array of ports.
  pub receive_from_ends :
      (fn : Option (S → Buffer → ℕ × Buffer × S)) (fuel : ℕ) (s : S) (d : Dataplane) (i : ℕ)
      (p : Port) (o : Option Frame)
      → Answers fn (length d.ports)
      → get_elem? d.ports i ≡ some p
      → next_received (some p) ≡ o
      → ready_count p.rx_ring.frames ≤ fuel
      → (s' : S) × (d' : Dataplane) × (receive_from fn fuel s d i o ≡ some (s', d', true))
        × (next_received (get_elem? d'.ports i) ≡ none)
        × (length d'.ports ≡ length d.ports)
  unfolding receive_from
  receive_from_ends fn fuel s d i p none a at next enough =
      (s, d, refl, ap next_received at ∙ next, refl)
  receive_from_ends fn zero s d i p (some f) a at next enough =
      let (s', d', e, size, (p', at', less)) =
        released-Drains d i p f _ next (run_program-Serves fn s d (metadata i f) i p a at) in
      absurd (omega arith)
  receive_from_ends fn (suc fuel) s d i p (some f) a at next enough =
      let (s', d', e, size, (p', at', less)) =
        released-Drains d i p f _ next (run_program-Serves fn s d (metadata i f) i p a at) in
      let (s'', d'', ends, idle, size') =
        receive_from_ends fn fuel s' d' i p' (next_received (get_elem? d'.ports i)) (rw size a) at'
          (ap next_received (sym at')) (omega arith) in
      (s'', d'', receive_from-suc fn fuel s d i f s' d' e ∙ ends, idle, size' ∙ size)
