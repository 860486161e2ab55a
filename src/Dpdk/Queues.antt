-- ===== src/Dpdk/Queues.antt =====
-- The output queue of a port, over any sequence of packets and drains: dpdkswitch/main.c,
-- `l2fwd_send_packet`, `l2fwd_send_burst` and the drain of `l2fwd_main_loop`.
use bpfabric.Prelude.{ℕ, zero, suc, ◌+◌, ◌%◌, ◌≤◌, ◌<◌, ◌≡◌, arith}
use bpfabric.Prelude.{
  List, [], ◌∷◌, ◌++◌, ◌==◌, ltb, if◌then◌else◌, length, take, drop, length-append, length-take,
  ==_iff, ap, refl, length-drop, Bool-cases, inl, inr,
}
use mathlib.Core.Path.{subst}
use mathlib.Core.List.{append-nil, append_assoc}
use bpfabric.Prelude.Words.{u64_mod}
use bpfabric.Dpdk.{TxPort, send_burst, enqueue, drain, max_pkt_burst}

-- How often a packet buffer occurs.
abbrev pub count : ℕ → List ℕ → ℕ
count m [] = 0
count m (k ∷ ks) = let rest = count m ks in if k == m then suc rest else rest

count-append : (m : ℕ) (xs ys : List ℕ) → count m (xs ++ ys) ≡ count m xs + count m ys
count-append m [] ys = omega arith
count-append m (x ∷ xs) ys = elim (Bool-cases (x == m)) [
  | inl e ↦ rw e (omega (arith, count-append m xs ys))
  | inr e ↦ rw e (count-append m xs ys)
]

count-take : (m n : ℕ) (xs : List ℕ) → count m (take n xs) + count m (drop n xs) ≡ count m xs
count-take m zero xs = omega arith
count-take m (suc n) [] = omega arith
count-take m (suc n) (x ∷ xs) = elim (Bool-cases (x == m)) [
  | inl e ↦ rw e (omega (arith, count-take m n xs))
  | inr e ↦ rw e (count-take m n xs)
]

-- The buffers handed to the port so far are those accepted by `rte_eth_tx_burst`, those freed and those
-- in the queue, each as often as it was handed over; the statistics count them; and the queue is not
-- full, so that the next packet has room in `m_table`.
pub record Accounts (handed : List ℕ) (p : TxPort) : Type 0 where
  pub room : length p.m_table < max_pkt_burst
  pub sent : p.tx ≡ length p.accepted % u64_mod
  pub lost : p.dropped ≡ length p.freed % u64_mod
  pub whole : (m : ℕ) → count m handed ≡ count m p.accepted + count m p.freed + count m p.m_table

send_burst-Accounts :
    (ret : ℕ) (handed : List ℕ) (p : TxPort)
    → ret ≤ length p.m_table
    → p.tx ≡ length p.accepted % u64_mod
    → p.dropped ≡ length p.freed % u64_mod
    → ((m : ℕ) → count m handed ≡ count m p.accepted + count m p.freed + count m p.m_table)
    → Accounts handed (send_burst ret p)
unfolding send_burst
send_burst-Accounts ret handed p le sent lost whole = record {
  room = omega arith;
  sent =
      omega
        (arith, sent, length-append p.accepted (take ret p.m_table), length-take ret p.m_table le);
  lost = elim (Bool-cases (ltb ret (length p.m_table))) [
    | inl e ↦
        rw e (
          omega
            (arith, lost, length-append p.freed (drop ret p.m_table), length-drop ret p.m_table))
    | inr e ↦
        let all : length p.m_table ≤ ret = ground arith in
        rw e (
          omega
            (arith, lost, length-append p.freed (drop ret p.m_table), length-drop ret p.m_table))
  ];
  whole = λ m. omega (
    arith,
    whole m,
    count-append m p.accepted (take ret p.m_table),
    count-append m p.freed (drop ret p.m_table),
    count-take m ret p.m_table,
  );
}

-- What happens to a port of a core: `l2fwd_send_packet` of a buffer, or a round of the drain.
pub data Event : Type 0 where
  send : ℕ → Event
  drain_round : Event

abbrev pub handed_by : List Event → List ℕ
handed_by [] = []
handed_by (send m ∷ es) = m ∷ handed_by es
handed_by (drain_round ∷ es) = handed_by es

module _ (tx_burst : ℕ → TxPort → ℕ) (port : ℕ)
    (at_most : (p : TxPort) → tx_burst port p ≤ length p.m_table) where
  abbrev pub happens : List Event → TxPort → TxPort
  happens [] p = p
  happens (send m ∷ es) p = happens es (enqueue tx_burst port m p)
  happens (drain_round ∷ es) p = happens es (drain tx_burst port p)

  enqueue-Accounts :
      (m : ℕ) (handed : List ℕ) (p : TxPort)
      → Accounts handed p
      → Accounts (handed ++ (m ∷ [])) (enqueue tx_burst port m p)
  unfolding enqueue
  enqueue-Accounts m handed p a =
      let p' = record p { m_table = p.m_table ++ (m ∷ []) } in
      let more : (k : ℕ)
          → count k (handed ++ (m ∷ []))
            ≡ count k p.accepted + count k p.freed + count k (p.m_table ++ (m ∷ [])) =
        λ k.
          omega
            (arith, a.whole k, count-append k handed (m ∷ []), count-append k p.m_table (m ∷ [])) in
      elim (Bool-cases (length (p.m_table ++ (m ∷ [])) == max_pkt_burst)) [
        | inl e ↦ rw e (
            send_burst-Accounts (tx_burst port p') (handed ++ (m ∷ [])) p' (at_most p') a.sent
              a.lost more)
        | inr e ↦ rw e record {
          room = ground (arith, a.room, length-append p.m_table (m ∷ []), e);
          sent = a.sent;
          lost = a.lost;
          whole = more;
        }
      ]

  drain-Accounts :
      (handed : List ℕ) (p : TxPort) → Accounts handed p → Accounts handed (drain tx_burst port p)
  unfolding drain
  drain-Accounts handed p a = elim (Bool-cases (length p.m_table == 0)) [
    | inl e ↦ rw e a
    | inr e ↦
        rw e (send_burst-Accounts (tx_burst port p) handed p (at_most p) a.sent a.lost a.whole)
  ]

  -- The following holds after any sequence of packets sent on a port and drains of its queue, if it held
  -- before, however many packets of a burst DPDK accepts, which are at most those of the burst: the
  -- queue is not full; every packet buffer that was handed to the port has been accepted or freed or
  -- is in the queue, as often as it was handed over; and the statistics count those accepted and freed
  -- modulo 2 ^ 64.
  pub happens-Accounts :
      (es : List Event) (handed : List ℕ) (p : TxPort)
      → Accounts handed p
      → Accounts (handed ++ handed_by es) (happens es p)
  happens-Accounts [] handed p a = rw (append-nil handed) a
  happens-Accounts (send m ∷ es) handed p a =
      subst (λ h. Accounts h (happens es (enqueue tx_burst port m p)))
        (append_assoc handed (m ∷ []) (handed_by es))
        (happens-Accounts es (handed ++ (m ∷ [])) (enqueue tx_burst port m p)
          (enqueue-Accounts m handed p a))
  happens-Accounts (drain_round ∷ es) handed p a =
      happens-Accounts es handed (drain tx_burst port p) (drain-Accounts handed p a)

  drain-nil : (p : TxPort) → (drain tx_burst port p).m_table ≡ []
  unfolding drain send_burst
  drain-nil p = elim (Bool-cases (length p.m_table == 0)) [
    | inl e ↦ rw e (length-nil p.m_table ((==_iff (length p.m_table) 0).0 e))
    | inr e ↦ rw e refl
  ]
    where
      length-nil : (ms : List ℕ) → length ms ≡ 0 → ms ≡ []
      length-nil [] h = refl
      length-nil (m ∷ ms) h = absurd (omega (arith, h))

  -- Once a port whose buffers were accounted for is drained, whatever packets were sent on it before,
  -- its queue is empty, and every packet buffer that was handed to it has been accepted by DPDK or
  -- freed, as often as it was handed over. DPDK accepts at most the packets of a burst.
  pub happens-drain :
      (es : List Event) (handed : List ℕ) (p : TxPort)
      → Accounts handed p
      → let p' = drain tx_burst port (happens es p) in
        (p'.m_table ≡ [])
        × ((m : ℕ) → count m (handed ++ handed_by es) ≡ count m p'.accepted + count m p'.freed)
  happens-drain es handed p a =
      let p' = drain tx_burst port (happens es p) in
      let empty : p'.m_table ≡ [] = drain-nil (happens es p) in
      let all =
        drain-Accounts (handed ++ handed_by es) (happens es p) (happens-Accounts es handed p a) in
      (empty, λ m. omega (arith, all.whole m, ap (count m) empty))
