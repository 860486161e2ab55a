-- ===== src/Dpdk/Flood.antt =====
-- `pkt_transmit` of dpdkswitch/main.c for FLOOD: the ports that get the packet, and its reference count.
use bpfabric.Prelude.{
  ◌++◌, ◌∷◌, [], length-append, ℕ, zero, suc, ◌+◌, ◌-◌, ◌%◌, ◌≤◌, ◌<◌, ◌≡◌, ◌⊎◌, arith, refl, sym,
  ap, ◌∙◌,
}
use bpfabric.Prelude.{
  Bool, true, false, not, ◌&&◌, some, ◌==◌, if◌then◌else◌, length, get_elem?, set, Bool-cases, inl,
  inr, ==_iff, get_elem?-some, get_elem?-lt, get_elem?-set_self, get_elem?-set_ne, length-set,
}
use bpfabric.Prelude.Words.{u8_mod, u16_mod}
use bpfabric.Maps.Registry.{done}
use bpfabric.Programs.{flood}
use bpfabric.Dpdk.{
  max_pkt_burst, TxPort, Core, enqueue, put_back, send_packet, update_ref, increment, decrement,
  is_enabled, after_send, flood_port, flood_ports, pkt_transmit,
}

and_false : (b : Bool) → (b && false) ≡ false
and_false true = refl
and_false false = refl

module _ (tx_burst : ℕ → TxPort → ℕ) (mask in_port m : ℕ) where
  -- A port after the flood: the packet is put into its queue where it is enabled and not the port that
  -- the packet came from.
  abbrev pub flooded : ℕ → TxPort → TxPort
  flooded j p = if is_enabled mask j && not (j == in_port) then enqueue tx_burst j m p else p

  -- What the rounds for the ports from i up to, and without, k have done.
  pub record Floods (i k : ℕ) (c c' : Core) : Type 0 where
    pub size : length c'.ports ≡ length c.ports
    pub touched :
        (j : ℕ) (p : TxPort)
        → i ≤ j
        → j < k
        → get_elem? c.ports j ≡ some p
        → get_elem? c'.ports j ≡ some (flooded j p)
    pub others : (j : ℕ) → (j < i) ⊎ (k ≤ j) → get_elem? c'.ports j ≡ get_elem? c.ports j
    pub refs_fit : c'.refcnt m < u16_mod
    pub refs_kept : (in_port < i) ⊎ (k ≤ in_port) → c'.refcnt m ≡ c.refcnt m
    pub refs_taken :
        i ≤ in_port
        → in_port < k
        → is_enabled mask in_port ≡ true
        → c'.refcnt m ≡ (c.refcnt m + (u16_mod - 1)) % u16_mod

  send_packet-fits :
      (i : ℕ) (c : Core) (p : TxPort)
      → i < u8_mod
      → get_elem? c.ports i ≡ some p
      → send_packet tx_burst m i c
        ≡ done (record c { ports = set c.ports i (enqueue tx_burst i m p) })
  unfolding send_packet put_back
  send_packet-fits i c p small at = let same : i % u8_mod ≡ i = omega arith in rw (same, at) refl

  self : (k : ℕ) → (k == k) ≡ true
  self k = (==_iff k k).1 refl

  -- A round for a port that does not get the packet.
  kept-flooded :
      (i j : ℕ) (p : TxPort)
      → i ≤ j
      → j < i + 1
      → (is_enabled mask i && not (i == in_port)) ≡ false
      → flooded j p ≡ p
  kept-flooded i j p lo hi off = let same : j ≡ i = omega arith in rw (same, off) refl

  skipped-Floods :
      (i : ℕ) (c : Core) → c.refcnt m < u16_mod → is_enabled mask i ≡ false → Floods i (i + 1) c c
  skipped-Floods i c fits e = record {
    size = refl;
    refs_fit = fits;
    touched = λ j p lo hi at. at ∙ ap some (sym (kept-flooded i j p lo hi (rw e refl)));
    others = λ j out. refl;
    refs_kept = λ out. refl;
    refs_taken = λ lo hi on.
        let same : in_port ≡ i = omega arith in
        let off : is_enabled mask in_port ≡ false = rw same e in absurd (cc);
  }

  own-Floods : (i : ℕ) (c : Core) → (i == in_port) ≡ true → Floods i (i + 1) c (decrement m c)
  unfolding update_ref
  own-Floods i c here =
      let at_i : i ≡ in_port = (==_iff i in_port).0 here in
      let off : (is_enabled mask i && not (i == in_port)) ≡ false =
        rw here (and_false (is_enabled mask i)) in
      record {
        size = refl;
        refs_fit = rw (self m) (omega arith);
        touched = λ j p lo hi at. at ∙ ap some (sym (kept-flooded i j p lo hi off));
        others = λ j out. refl;
        refs_kept = λ out. absurd (omega (arith, out, at_i));
        refs_taken = λ lo hi on. rw (self m) refl;
      }

  sent-Floods :
      (i : ℕ) (c : Core) (p : TxPort)
      → c.refcnt m < u16_mod
      → i < length c.ports
      → get_elem? c.ports i ≡ some p
      → is_enabled mask i ≡ true
      → (i == in_port) ≡ false
      → Floods i
          (i + 1)
          c
          (decrement m (record (increment m c) { ports = set c.ports i (enqueue tx_burst i m p) }))
  unfolding update_ref
  sent-Floods i c p fits inside at on other = record {
    refs_fit = rw (self m) (omega arith);
    size = length-set c.ports i (enqueue tx_burst i m p);
    touched = λ j q lo hi at_j.
        let same : j ≡ i = omega arith in
        let at_i : get_elem? c.ports i ≡ some q = rw (← same) at_j in
        let which : p ≡ q = cc in
        rw (same, on, other, ← which)
          (get_elem?-set_self c.ports i (enqueue tx_burst i m p) inside);
    others = λ j out.
        get_elem?-set_ne c.ports i j (enqueue tx_burst i m p) (λ e. absurd (omega (arith, out, e)));
    refs_kept = λ out. rw (self m) (omega arith);
    refs_taken = λ lo hi q.
        let same : in_port ≡ i = omega arith in
        let here : (i == in_port) ≡ true = rw same (self i) in absurd (cc);
  }

  flood_port-Floods :
      (i : ℕ) (c : Core)
      → i < length c.ports
      → i < u8_mod
      → c.refcnt m < u16_mod
      → (c' : Core) × (flood_port tx_burst mask in_port m i c ≡ done c') × Floods i (i + 1) c c'
  unfolding flood_port after_send
  flood_port-Floods i c inside small fits = elim (Bool-cases (is_enabled mask i)) [
    | inr e ↦ (c, rw e refl, skipped-Floods i c fits e)
    | inl e ↦ elim (Bool-cases (i == in_port)) [
      | inl here ↦ (decrement m c, rw (e, here) refl, own-Floods i c here)
      | inr other ↦
          let (p, at) = get_elem?-some c.ports i inside in
          (
            decrement m (record (increment m c) { ports = set c.ports i (enqueue tx_burst i m p) }),
            rw (e, other, send_packet-fits i (increment m c) p small at) refl,
            sent-Floods i c p fits inside at e other,
          )
    ]
  ]

  Floods-nil : (i : ℕ) (c : Core) → c.refcnt m < u16_mod → Floods i i c c
  Floods-nil i c fits = record {
    size = refl;
    refs_fit = fits;
    touched = λ j p lo hi at. absurd (omega (arith, lo, hi));
    others = λ j out. refl;
    refs_kept = λ out. refl;
    refs_taken = λ lo hi on. absurd (omega (arith, lo, hi));
  }

  Floods-trans :
      (i k : ℕ) (c c1 c' : Core)
      → i < k
      → Floods i (i + 1) c c1
      → Floods (i + 1) k c1 c'
      → Floods i k c c'
  Floods-trans i k c c1 c' more first rest = record {
    size = rest.size ∙ first.size;
    refs_fit = rest.refs_fit;
    touched = λ j p lo hi at. elim (Bool-cases (j == i)) [
      | inl e ↦
          rest.others j (inl (ground (arith, e))) ∙ first.touched j p lo (ground (arith, e)) at
      | inr e ↦
          let above : i < j = ground (arith, e, lo) in
          rest.touched j p (omega arith) hi (first.others j (inr (omega arith)) ∙ at)
    ];
    others = λ j out. elim out [
      | inl lo ↦ rest.others j (inl (omega arith)) ∙ first.others j (inl lo)
      | inr hi ↦ rest.others j (inr hi) ∙ first.others j (inr (omega arith))
    ];
    refs_kept = λ out. elim out [
      | inl lo ↦ rest.refs_kept (inl (omega arith)) ∙ first.refs_kept (inl lo)
      | inr hi ↦ rest.refs_kept (inr hi) ∙ first.refs_kept (inr (omega arith))
    ];
    refs_taken = λ lo hi on. elim (Bool-cases (in_port == i)) [
      | inl e ↦
          rest.refs_kept (inl (ground (arith, e))) ∙ first.refs_taken lo (ground (arith, e)) on
      | inr e ↦
          let above : i < in_port = ground (arith, e, lo) in
          let kept = first.refs_kept (inr (omega arith)) in
          rest.refs_taken (omega arith) hi on ∙ rw kept refl
    ];
  }

  flood_ports-Floods :
      (n i : ℕ) (c : Core)
      → i + n ≤ length c.ports
      → i + n ≤ u8_mod
      → c.refcnt m < u16_mod
      → (c' : Core) × (flood_ports tx_burst mask in_port m n i (done c) ≡ done c')
        × Floods i (i + n) c c'
  unfolding flood_ports
  flood_ports-Floods zero i c inside small fits =
      let none_left : i + 0 ≡ i = omega arith in (c, refl, rw none_left (Floods-nil i c fits))
  flood_ports-Floods (suc n) i c inside small fits =
      let (c1, step, first) = flood_port-Floods i c (omega arith) (omega arith) fits in
      let (c', steps, rest) =
        flood_ports-Floods n (i + 1) c1 (omega (arith, first.size)) (omega arith) first.refs_fit in
      let end : i + suc n ≡ i + 1 + n = omega arith in
      (c', rw step steps, rw end (Floods-trans i (i + 1 + n) c c1 c' (omega arith) first rest))

  -- A port whose queue does not fill up: nothing is sent, and the packet waits behind the others.
  abbrev pub waits : ℕ → TxPort → TxPort
  waits j p =
      if is_enabled mask j && not (j == in_port)
      then record p { m_table = p.m_table ++ (m ∷ []) }
      else p

  flooded-waits :
      (j : ℕ) (p : TxPort) → length p.m_table + 1 < max_pkt_burst → flooded j p ≡ waits j p
  unfolding enqueue
  flooded-waits j p room =
      let short : (length (p.m_table ++ (m ∷ [])) == max_pkt_burst) ≡ false =
        ground (arith, length-append p.m_table (m ∷ []), room) in
      rw short refl

  -- On a core with at most 256 ports, for a packet that came from an enabled one of them and has the one
  -- reference with which it was received, and where no queue fills up, so that nothing is sent and DPDK
  -- frees no packet during the flood: the packet is put behind the others in the queue of every enabled
  -- port but the one that it came from, every other port is as before, and the loop has set the
  -- packet's reference count to 0, however many queues it waits in.
  pub pkt_transmit-waits :
      (c : Core)
      → length c.ports ≤ u8_mod
      → c.refcnt m ≡ 1
      → in_port < length c.ports
      → is_enabled mask in_port ≡ true
      → ((j : ℕ) (p : TxPort) → get_elem? c.ports j ≡ some p → length p.m_table + 1 < max_pkt_burst)
      → (c' : Core) × (pkt_transmit tx_burst mask in_port m flood c ≡ done c')
        × ((j : ℕ) (p : TxPort)
            → get_elem? c.ports j ≡ some p
            → get_elem? c'.ports j ≡ some (waits j p))
        × (length c'.ports ≡ length c.ports)
        × (c'.refcnt m ≡ 0)
  unfolding pkt_transmit
  pkt_transmit-waits c small one inside on room =
      let (c', run, floods) =
        flood_ports-Floods (length c.ports) 0 c (omega arith) (omega arith) (omega (arith, one)) in
      (
        c',
        run,
        λ j p at.
            floods.touched j p (omega arith) (omega (arith, get_elem?-lt c.ports j at)) at
            ∙ ap some (flooded-waits j p (room j p at)),
        floods.size,
        floods.refs_taken (omega arith) (omega arith) on ∙ omega (arith, one),
      )
