-- ===== src/Programs/Learning.antt =====
-- The learning switches of examples/ as tables from addresses to ports.
use bpfabric.Prelude.{ℕ, ◌<◌, ◌≡◌, ◌≢◌, refl, sym, ap, ◌∙◌, arith, inl, inr, Bool-cases}
use bpfabric.Prelude.{true, false, Option, none, some, List, [], ◌∷◌, take, drop, if◌then◌else◌}
use bpfabric.Prelude.Words.{u32_mod}
use bpfabric.Prelude.Bytes.{bytes_eq, bytes_eq_refl, bytes_eq-true, read_at}
use bpfabric.Maps.Attr.{u32_of, bytes_of, round_up}
use bpfabric.Maps.Attr.Rounding.{u32_of-bytes_of}
use bpfabric.Maps.Ght.{Ght}
use bpfabric.Maps.HashMap
use bpfabric.Maps.HashMap.{HashMap}
use bpfabric.Maps.HashMap.Values.{IsValid, view, read_value, view-update_elem}
use bpfabric.Programs.{
  Packet, flood, controller, is_group, learn, port_or, forward, learning_switch, known_destination,
  centralized_switch, switch_all,
}

-- The abstract switch: a table from addresses to ports.
abbrev pub Ports : Type 0
Ports = List ℕ → Option ℕ

abbrev pub port_from : ℕ → Option ℕ → ℕ
port_from missing none = missing
port_from missing (some p) = p

abbrev pub learn_port : Ports → Packet → Ports
learn_port ports pkt mac =
    if is_group pkt.h_source
    then ports mac
    else if bytes_eq pkt.h_source mac
    then some pkt.in_port
    else ports mac

abbrev pub decide : Ports → Packet → ℕ
decide ports pkt = if is_group pkt.h_dest then flood else port_from flood (ports pkt.h_dest)

abbrev pub decide_all : Ports → List Packet → List ℕ
decide_all ports [] = []
decide_all ports (pkt ∷ pkts) =
    decide (learn_port ports pkt) pkt ∷ decide_all (learn_port ports pkt) pkts

-- Addresses of 6 bytes, and a port of 32 bits.
pub record IsPacket (pkt : Packet) : Type 0 where
  pub dest_size : take 6 pkt.h_dest ≡ pkt.h_dest
  pub source_size : take 6 pkt.h_source ≡ pkt.h_source
  pub port_fits : pkt.in_port < u32_mod

abbrev pub ArePackets : List Packet → Type 0
ArePackets [] = Unit
ArePackets (pkt ∷ pkts) = IsPacket pkt × ArePackets pkts

abbrev pub as_port : Option (List ℕ) → Option ℕ
as_port none = none
as_port (some value) = some (u32_of value)

u32_of-take : (xs : List ℕ) → u32_of (take 4 xs) ≡ u32_of xs
unfolding u32_of
u32_of-take (a ∷ b ∷ c ∷ d ∷ rest) = refl
u32_of-take [] = refl
u32_of-take _ = refl

module _ (g : Ght) where
  -- The map `inports`: keys of 6 bytes, values of 4.
  pub record IsInports (m : HashMap g) : Type 0 where
    pub valid : IsValid g m
    pub keys : m.key_size ≡ 6
    pub values : m.value_size ≡ 4

  -- The map holds the table, on addresses of 6 bytes.
  abbrev pub Holds : HashMap g → Ports → Type 0
  Holds m ports = (mac : List ℕ) → take 6 mac ≡ mac → as_port (view g m mac) ≡ ports mac

  port_or-value :
      (missing : ℕ) (m : HashMap g) (o : Option (List ℕ))
      → m.value_size ≡ 4
      → port_or g missing (HashMap.value_part g m o)
        ≡ port_from missing (as_port (read_value g m o))
  unfolding port_or HashMap.value_part read_at
  port_or-value missing m none four = refl
  port_or-value missing m (some l) four =
      let bytes = drop (round_up m.key_size) l in
      sym (u32_of-take bytes) ∙ ap (λ n. u32_of (take n bytes)) (sym four)

  port_or-lookup :
      (missing : ℕ) (m : HashMap g) (ports : Ports) (mac : List ℕ)
      → IsInports m
      → Holds m ports
      → take 6 mac ≡ mac
      → port_or g missing (HashMap.lookup_elem g m mac) ≡ port_from missing (ports mac)
  unfolding HashMap.lookup_elem
  port_or-lookup missing m ports mac inports holds whole =
      port_or-value missing m _ inports.values ∙ ap (port_from missing) (holds mac whole)

  learned :
      (m : HashMap g) (ports : Ports) (source : List ℕ) (port : ℕ) (mac : List ℕ) (k v : ℕ)
      → k ≡ 6
      → v ≡ 4
      → Holds m ports
      → port < u32_mod
      → take 6 source ≡ source
      → take 6 mac ≡ mac
      → as_port (
          if bytes_eq (take k source) (take k mac)
          then some (take v (bytes_of port))
          else view g m mac)
        ≡ (if bytes_eq source mac then some port else ports mac)
  unfolding bytes_of
  learned m ports source port mac k v six four holds fits sw mw =
      rw (six, four, sw, mw)
        (elim (Bool-cases (bytes_eq source mac)) [
          | inl e ↦ rw e (ap some (u32_of-bytes_of port fits))
          | inr e ↦ rw e (holds mac mw)
        ])

  learn-Holds :
      (m : HashMap g) (ports : Ports) (pkt : Packet)
      → IsInports m
      → Holds m ports
      → IsPacket pkt
      → IsInports (learn g true m pkt) × Holds (learn g true m pkt) (learn_port ports pkt)
  unfolding learn
  learn-Holds m ports pkt inports holds is = elim (Bool-cases (is_group pkt.h_source)) [
    | inl e ↦ rw e (inports, holds)
    | inr e ↦
        let (done, valid, shape, views) =
          view-update_elem g m pkt.h_source (bytes_of pkt.in_port) 0 inports.valid (omega arith) in
        rw e (
          record {
            valid = valid;
            keys = shape.key_size ∙ inports.keys;
            values = shape.value_size ∙ inports.values;
          },
          λ mac whole.
              ap as_port (views mac)
              ∙ learned m ports pkt.h_source pkt.in_port mac m.key_size m.value_size inports.keys
                  inports.values holds is.port_fits is.source_size whole,
        )
  ]

  -- One packet with addresses of 6 bytes and a port of 32 bits, on a valid map with keys of 6 and
  -- values of 4 bytes that holds a table, with enough memory: the program returns what the table
  -- decides, and the map then holds the table that has learned the packet's source.
  pub learning_switch-decide :
      (m : HashMap g) (ports : Ports) (pkt : Packet)
      → IsInports m
      → Holds m ports
      → IsPacket pkt
      → ((learning_switch g true m pkt).0 ≡ decide (learn_port ports pkt) pkt)
        × IsInports (learning_switch g true m pkt).1
        × Holds (learning_switch g true m pkt).1 (learn_port ports pkt)
  unfolding learning_switch forward
  learning_switch-decide m ports pkt inports holds is =
      let (inports', holds') = learn-Holds m ports pkt inports holds is in
      (
        elim (Bool-cases (is_group pkt.h_dest)) [
          | inl e ↦ rw e refl
          | inr e ↦ rw e (
              port_or-lookup flood (learn g true m pkt) (learn_port ports pkt) pkt.h_dest inports'
                holds' is.dest_size)
        ],
        inports',
        holds',
      )

  -- The learning switch implements the table: on every sequence of packets with addresses of 6 bytes
  -- and ports of 32 bits, from a valid map with keys of 6 and values of 4 bytes that holds a table,
  -- with enough memory, it returns for each packet what the table decides after it has learned the
  -- sources of this packet and of those before.
  pub switch_all-decide_all :
      (pkts : List Packet) (m : HashMap g) (ports : Ports)
      → IsInports m
      → Holds m ports
      → ArePackets pkts
      → switch_all g m pkts ≡ decide_all ports pkts
  unfolding switch_all
  switch_all-decide_all [] m ports inports holds are = refl
  switch_all-decide_all (pkt ∷ pkts) m ports inports holds are =
      let (answer, inports', holds') = learning_switch-decide m ports pkt inports holds are.0 in
      let rest =
        switch_all-decide_all pkts (learning_switch g true m pkt).1 (learn_port ports pkt) inports'
          holds' are.1 in
      rw (answer, rest) refl

  learn_port_self :
      (ports : Ports) (pkt : Packet)
      → is_group pkt.h_source ≡ false
      → learn_port ports pkt pkt.h_source ≡ some pkt.in_port
  learn_port_self ports pkt unicast = rw (unicast, bytes_eq_refl) refl

  learn_port_other :
      (ports : Ports) (pkt : Packet) (mac : List ℕ)
      → pkt.h_source ≢ mac
      → learn_port ports pkt mac ≡ ports mac
  learn_port_other ports pkt mac other = elim (Bool-cases (is_group pkt.h_source)) [
    | inl e ↦ rw e refl
    | inr e ↦ rw e (elim (Bool-cases (bytes_eq pkt.h_source mac)) [
      | inl t ↦ absurd (other (bytes_eq-true pkt.h_source mac t))
      | inr t ↦ rw t refl
    ])
  ]

  decide-known :
      (ports : Ports) (pkt : Packet) (p : ℕ)
      → is_group pkt.h_dest ≡ false
      → ports pkt.h_dest ≡ some p
      → decide ports pkt ≡ p
  decide-known ports pkt p unicast e = rw (unicast, e) refl

  decide-reply :
      (ports : Ports) (first second : Packet)
      → is_group first.h_source ≡ false
      → second.h_dest ≡ first.h_source
      → second.h_source ≢ first.h_source
      → decide (learn_port (learn_port ports first) second) second ≡ first.in_port
  decide-reply ports first second unicast back other =
      decide-known (learn_port (learn_port ports first) second) second first.in_port
        (ap is_group back ∙ unicast)
        (ap (learn_port (learn_port ports first) second) back
          ∙ (learn_port_other (learn_port ports first) second first.h_source other
              ∙ learn_port_self ports first unicast))

  -- A reply comes back: once a packet from an address that is no group address has been seen on a
  -- port, the next packet to that address from another address is sent to that port.
  pub switch-reply :
      (m : HashMap g) (ports : Ports) (first second : Packet)
      → IsInports m
      → Holds m ports
      → IsPacket first
      → IsPacket second
      → is_group first.h_source ≡ false
      → second.h_dest ≡ first.h_source
      → second.h_source ≢ first.h_source
      → switch_all g m (first ∷ second ∷ [])
        ≡ (learning_switch g true m first).0 ∷ first.in_port ∷ []
  switch-reply m ports first second inports holds one two unicast back other =
      switch_all-decide_all (first ∷ second ∷ []) m ports inports holds (one, (two, tt))
      ∙ rw (← (learning_switch-decide m ports first inports holds one).0) (
          ap (λ p. (learning_switch g true m first).0 ∷ p ∷ [])
            (decide-reply ports first second unicast back other))

  abbrev pub decide_known : Ports → Packet → Option ℕ → ℕ
  decide_known ports pkt none = controller
  decide_known ports pkt (some p) = port_from controller (ports pkt.h_dest)

  known-value :
      (m : HashMap g) (ports : Ports) (pkt : Packet) (o : Option (List ℕ))
      → port_or g controller (HashMap.lookup_elem g m pkt.h_dest)
        ≡ port_from controller (ports pkt.h_dest)
      → known_destination g m pkt (HashMap.value_part g m o)
        ≡ decide_known ports pkt (as_port (read_value g m o))
  unfolding known_destination HashMap.value_part
  known-value m ports pkt none e = refl
  known-value m ports pkt (some l) e = e

  -- The centralized switch sends a packet to the controller unless its map knows the ports of both
  -- addresses, and else to the port of the destination.
  pub centralized_switch-decide_known :
      (m : HashMap g) (ports : Ports) (pkt : Packet)
      → IsInports m
      → Holds m ports
      → IsPacket pkt
      → centralized_switch g m pkt ≡ decide_known ports pkt (ports pkt.h_source)
  unfolding centralized_switch HashMap.lookup_elem
  centralized_switch-decide_known m ports pkt inports holds is =
      known-value m ports pkt _
        (port_or-lookup controller m ports pkt.h_dest inports holds is.dest_size)
      ∙ ap (decide_known ports pkt) (holds pkt.h_source is.source_size)
