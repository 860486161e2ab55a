-- ===== src/Switch/Delivery.antt =====
-- `transmit` of softswitch/main.c: which ports a packet is sent on.
use bpfabric.Prelude.{
  ℕ, zero, suc, ◌+◌, ◌≤◌, ◌≡◌, ◌≢◌, refl, ap, ◌∙◌, arith, ◌⊎◌, inl, inr, Bool-cases,
}
use bpfabric.Prelude.{
  Bool, true, false, Option, none, some, List, [], ◌∷◌, ◌++◌, length, get_elem?, set, ◌==◌,
  if◌then◌else◌, ==_iff,
}
use bpfabric.Prelude.{get_elem?-set_self, get_elem?-set_ne, get_elem?-lt}
use bpfabric.Programs.{flood, controller, drop_packet}
use bpfabric.Switch.{Port, Buffer, Dataplane, tx_frame, flood_from, forward_to, transmit}

-- A port after the packet was sent on it, or not.
abbrev pub sent_if : Bool → List ℕ → Option Port → Option Port
sent_if b bytes none = none
sent_if true bytes (some p) = some (tx_frame p bytes).1
sent_if false bytes (some p) = some p

-- The test whether a packet with result `port` from `in_port` goes out on port `k`.
abbrev pub goes_to : ℕ → ℕ → ℕ → Bool
goes_to port in_port k =
    if port == flood
    then if k == in_port then false else true
    else if port == controller
    then false
    else if port == drop_packet
    then false
    else port == k

flood_from-sent_if :
    (i in_port : ℕ) (bytes : List ℕ) (ports : List Port) (k : ℕ)
    → get_elem? (flood_from i in_port bytes ports) k
      ≡ sent_if (if (i + k) == in_port then false else true) bytes (get_elem? ports k)
unfolding flood_from
flood_from-sent_if i in_port bytes [] k = refl
flood_from-sent_if i in_port bytes (p ∷ ports) zero =
    let e : i + 0 ≡ i = omega arith in
    rw e (elim (Bool-cases (i == in_port)) [ inl t ↦ rw t refl | inr t ↦ rw t refl ])
flood_from-sent_if i in_port bytes (p ∷ ports) (suc k) =
    let rest = flood_from-sent_if (i + 1) in_port bytes ports k in
    let e : i + 1 + k ≡ i + suc k = omega arith in
    elim (Bool-cases (i == in_port)) [
      | inl t ↦ rw t (rest ∙ rw e refl)
      | inr t ↦ rw t (rest ∙ rw e refl)
    ]

flood_from-goes_to :
    (in_port : ℕ) (bytes : List ℕ) (ports : List Port) (k : ℕ)
    → get_elem? (flood_from 0 in_port bytes ports) k
      ≡ sent_if (goes_to flood in_port k) bytes (get_elem? ports k)
flood_from-goes_to in_port bytes ports k =
    flood_from-sent_if 0 in_port bytes ports k
    ∙ ap (λ j. sent_if (if j == in_port then false else true) bytes (get_elem? ports k))
        (omega arith)

-- The ports after a packet, and the packets that were passed to the controller.
pub record Delivers (d : Dataplane) (buf : Buffer) (port : ℕ) (d' : Dataplane) : Type 0 where
  pub sent :
      (k : ℕ)
      → get_elem? d'.ports k ≡ sent_if (goes_to port buf.in_port k) buf.frame (get_elem? d.ports k)
  pub passed :
      d'.packet_ins ≡ (if port == controller then d.packet_ins ++ (buf ∷ []) else d.packet_ins)

unsent : (bytes : List ℕ) (o : Option Port) → o ≡ sent_if false bytes o
unsent bytes none = refl
unsent bytes (some p) = refl

set-sent_if :
    (ports : List Port) (port : ℕ) (p : Port) (bytes : List ℕ) (k : ℕ)
    → get_elem? ports port ≡ some p
    → get_elem? (set ports port (tx_frame p bytes).1) k
      ≡ sent_if (port == k) bytes (get_elem? ports k)
set-sent_if ports port p bytes k at = elim (Bool-cases (port == k)) [
  | inl e ↦
      let same : port ≡ k = (==_iff port k).0 e in
      rw (e, ← same, at)
        (get_elem?-set_self ports port (tx_frame p bytes).1 (get_elem?-lt ports port at))
  | inr e ↦ rw e (
      get_elem?-set_ne ports port k (tx_frame p bytes).1
        (λ same. let t = (==_iff port k).1 same in cc)
      ∙ unsent bytes (get_elem? ports k))
]

-- A result that is none of FLOOD, CONTROLLER and DROP, for which the switch has no port.
abbrev pub IsMissing : Dataplane → ℕ → Type 0
IsMissing d port =
    (port ≢ flood) × (port ≢ controller) × (port ≢ drop_packet) × (length d.ports ≤ port)

missing : (ports : List Port) (i : ℕ) → get_elem? ports i ≡ none → length ports ≤ i
missing [] i h = omega arith
missing (p ∷ ports) zero h = absurd (cc)
missing (p ∷ ports) (suc i) h = omega (arith, missing ports i h)

forward_to-cases :
    (d : Dataplane) (buf : Buffer) (port : ℕ) (o : Option Port)
    → get_elem? d.ports port ≡ o
    → (port == flood) ≡ false
    → (port == controller) ≡ false
    → (port == drop_packet) ≡ false
    → ((forward_to d port buf.frame o ≡ none) × IsMissing d port)
      ⊎ ((d' : Dataplane) × (forward_to d port buf.frame o ≡ some d') × Delivers d buf port d')
unfolding forward_to
forward_to-cases d buf port none at f c x =
    inl (refl, (ground arith, ground arith, ground arith, missing d.ports port at))
forward_to-cases d buf port (some p) at f c x = inr (
  record d { ports = set d.ports port (tx_frame p buf.frame).1 },
  refl,
  record {
    sent = λ k. rw (f, c, x) (set-sent_if d.ports port p buf.frame k at);
    passed = rw c refl;
  },
)

-- A packet with the result FLOOD is sent on every port but the one it came from; with CONTROLLER
-- it is passed to the controller and sent on no port; with DROP, neither; with any other result it
-- is sent on that port only. A result for which there is no port reads past the array of ports.
pub transmit-Delivers :
    (d : Dataplane) (buf : Buffer) (port : ℕ) (flags : Bool)
    → ((transmit d buf port flags ≡ none) × IsMissing d port)
      ⊎ ((d' : Dataplane) × (transmit d buf port flags ≡ some d') × Delivers d buf port d')
unfolding transmit
transmit-Delivers d buf port flags = elim (Bool-cases (port == flood)) [
  | inl f ↦
      let same : port ≡ flood = (==_iff port flood).0 f in
      rw same (
        inr (
          _,
          refl,
          record { sent = λ k. flood_from-goes_to buf.in_port buf.frame d.ports k; passed = refl },
        ))
  | inr f ↦ elim (Bool-cases (port == controller)) [
    | inl c ↦
        let same : port ≡ controller = (==_iff port controller).0 c in
        rw same (
          inr
            (_, refl, record { sent = λ k. unsent buf.frame (get_elem? d.ports k); passed = refl }))
    | inr c ↦ elim (Bool-cases (port == drop_packet)) [
      | inl x ↦
          let same : port ≡ drop_packet = (==_iff port drop_packet).0 x in
          rw same (
            inr (
              d,
              refl,
              record { sent = λ k. unsent buf.frame (get_elem? d.ports k); passed = refl },
            ))
      | inr x ↦ rw (f, c, x) (forward_to-cases d buf port (get_elem? d.ports port) refl f c x)
    ]
  ]
]
