-- ===== src/Dpdk/Links.antt =====
-- dpdkswitch/main.c, `check_all_ports_link_status`. What `rte_eth_link_get_nowait` finds on a port in a
-- round is a parameter.
use bpfabric.Prelude.{
  map, ◌∙◌, ℕ, zero, suc, ◌+◌, ◌-◌, ◌≤◌, ◌<◌, ◌≡◌, ◌≢◌, ◌⊎◌, ==_iff, refl, ap, arith, Bool, true,
  false, not, ◌&&◌, ◌||◌, Bool-cases, inl, inr, Option, none, some, List, [], ◌∷◌, ◌==◌,
  if◌then◌else◌,
}
use bpfabric.Dpdk.{is_enabled}
use bpfabric.Dpdk.Cores.{enabled_ports}

-- MAX_CHECK_TIME
abbrev pub max_check_time : ℕ
max_check_time = 90

-- What a call has done: how often it has waited, and the link status that it has printed for each
-- enabled port, if it has.
pub record Checked : Type 0 where
  pub delays : ℕ
  pub report : Option (List (ℕ × ℕ))

unfoldable pub delayed : Bool → Checked → Checked
delayed false r = r
delayed true r = record r { delays = suc r.delays }

module _ (port_mask : ℕ) (link_status : ℕ → ℕ → ℕ) where
  -- The loop over the ports from `portid`, `n` of which are left, in round `count`, when nothing is
  -- printed: `all_ports_up`.
  unfoldable pub all_ports_up : ℕ → ℕ → ℕ → Bool
  unfolding is_enabled
  all_ports_up count zero portid = true
  all_ports_up count (suc n) portid =
      let rest = all_ports_up count n (portid + 1) in
      if is_enabled port_mask portid && link_status count portid == 0 then false else rest

  -- The same loop when the statuses are printed
  unfoldable pub statuses : ℕ → ℕ → ℕ → List (ℕ × ℕ)
  unfolding is_enabled
  statuses count zero portid = []
  statuses count (suc n) portid =
      let rest = statuses count n (portid + 1) in
      if is_enabled port_mask portid then (portid, link_status count portid) ∷ rest else rest

  -- The loop from round `count`, `left` of which are left, with `print_flag`.
  unfoldable pub check_from : ℕ → Bool → ℕ → ℕ → Checked
  unfolding all_ports_up statuses delayed
  check_from port_num print_flag zero count = record { delays = 0; report = none }
  check_from port_num true (suc left) count = record {
    delays = 0;
    report = some (statuses count port_num 0);
  }
  check_from port_num false (suc left) count =
      let up = all_ports_up count port_num 0 in
      delayed (not up) (check_from port_num (up || count == max_check_time - 1) left (count + 1))

  unfoldable pub check_all_ports_link_status : ℕ → Checked
  unfolding check_from
  check_all_ports_link_status port_num = check_from port_num false (max_check_time + 1) 0

  -- In round `count` every enabled one of the ports has a link.
  abbrev pub AllUp : ℕ → ℕ → Type 0
  AllUp port_num count =
      (i : ℕ) → i < port_num → is_enabled port_mask i ≡ true → link_status count i ≢ 0

  -- In round `count` some enabled one of the ports has no link.
  abbrev pub SomeDown : ℕ → ℕ → Type 0
  SomeDown port_num count =
      (i : ℕ) × (i < port_num) × (is_enabled port_mask i ≡ true) × (link_status count i ≡ 0)

  -- What the printed list says in round `count`: the enabled ports below `port_num` in increasing order,
  -- each with its link.
  abbrev pub report_of : ℕ → ℕ → List (ℕ × ℕ)
  report_of port_num count =
      map (λ i. (i, link_status count i)) (enabled_ports port_mask port_num 0)

  statuses-report :
      (count n portid : ℕ)
      → statuses count n portid
        ≡ map (λ i. (i, link_status count i)) (enabled_ports port_mask n portid)
  unfolding statuses
  statuses-report count zero portid = refl
  statuses-report count (suc n) portid = elim (Bool-cases (is_enabled port_mask portid)) [
    | inl on ↦
        rw on
          (ap (λ r. (portid, link_status count portid) ∷ r) (statuses-report count n (portid + 1)))
    | inr off ↦ rw off (statuses-report count n (portid + 1))
  ]

  up_from :
      (count n portid i : ℕ)
      → all_ports_up count n portid ≡ true
      → portid ≤ i
      → i < portid + n
      → is_enabled port_mask i ≡ true
      → link_status count i ≢ 0
  unfolding all_ports_up
  up_from count zero portid i h lo hi on = absurd (omega arith)
  up_from count (suc n) portid i h lo hi on =
      elim (Bool-cases (is_enabled port_mask portid && link_status count portid == 0)) [
        | inl bad ↦ let h' = rw bad at h in absurd (cc)
        | inr good ↦
            let h' : all_ports_up count n (portid + 1) ≡ true = rw good at h in
            elim (Bool-cases (portid == i)) [
              | inl same ↦
                  let e : portid ≡ i = (==_iff portid i).0 same in
                  let here = rw (e, on) at good in ground (arith, here)
              | inr other ↦
                  up_from count n (portid + 1) i h' (ground (arith, other, lo)) (omega (arith, hi))
                    on
            ]
      ]

  down_from :
      (count n portid : ℕ)
      → all_ports_up count n portid ≡ false
      → (i : ℕ) × (i < portid + n) × (is_enabled port_mask i ≡ true) × (link_status count i ≡ 0)
  unfolding all_ports_up
  down_from count zero portid h = absurd (cc)
  down_from count (suc n) portid h =
      elim (Bool-cases (is_enabled port_mask portid && link_status count portid == 0)) [
        | inl bad ↦ (portid, omega arith, ground (arith, bad), ground (arith, bad))
        | inr good ↦
            let h' : all_ports_up count n (portid + 1) ≡ false = rw good at h in
            let (i, lt, on, low) = down_from count n (portid + 1) h' in
            (i, omega (arith, lt), on, low)
      ]

  -- Round `last` was the first one from `count` on in which all links were up, or the one before the
  -- last; the call has waited in every round before it in which some link was down.
  pub record Reports (port_num count last waited : ℕ) : Type 0 where
    pub later : count ≤ last
    pub in_time : last < max_check_time
    pub down : (k : ℕ) → count ≤ k → k < last → all_ports_up k port_num 0 ≡ false
    pub reason :
        ((all_ports_up last port_num 0 ≡ true) × (waited ≡ last - count))
        ⊎ ((all_ports_up last port_num 0 ≡ false)
            × (last ≡ max_check_time - 1)
            × (waited ≡ last + 1 - count))

  Reports-next :
      (port_num count last waited : ℕ)
      → all_ports_up count port_num 0 ≡ false
      → Reports port_num (count + 1) last waited
      → Reports port_num count last (suc waited)
  Reports-next port_num count last waited down r = record {
    later = omega (arith, r.later);
    in_time = r.in_time;
    down = λ k from below. down_at k from below (dec_eq k count);
    reason = elim r.reason [
      | inl (up, w) ↦ inl (up, omega (arith, w, r.later))
      | inr (low, end, w) ↦ inr (low, end, omega (arith, w, r.later))
    ];
  }
    where
      dec_eq : (a b : ℕ) → (a ≡ b) ⊎ (a ≢ b)
      dec_eq a b = elim (Bool-cases (a == b)) [
        | inl e ↦ inl ((==_iff a b).0 e)
        | inr n ↦ inr (λ e. absurd (ground arith))
      ]

      down_at :
          (k : ℕ)
          → count ≤ k
          → k < last
          → (k ≡ count) ⊎ (k ≢ count)
          → all_ports_up k port_num 0 ≡ false
      down_at k from below (inl e) = rw e down
      down_at k from below (inr n) = r.down k (omega (arith, from, n)) below

  check_from-Reports :
      (port_num left count : ℕ)
      → count + left ≡ max_check_time + 1
      → 2 ≤ left
      → (last : ℕ) × (waited : ℕ) × (check_from port_num false left count
          ≡ record { delays = waited; report = some (statuses (last + 1) port_num 0) })
        × Reports port_num count last waited
  unfolding check_from delayed
  check_from-Reports port_num zero count e h = absurd (omega arith)
  check_from-Reports port_num (suc zero) count e h = absurd (omega arith)
  check_from-Reports port_num (suc (suc left)) count e h =
      elim (Bool-cases (all_ports_up count port_num 0)) [
        | inl up ↦ (
          count,
          0,
          rw up refl,
          record {
            later = omega arith;
            in_time = omega (arith, e);
            down = λ k from below. absurd (omega (arith, from, below));
            reason = inl (up, omega arith);
          },
        )
        | inr down ↦ elim (Bool-cases (count == max_check_time - 1)) [
          | inl end ↦
              let at : count ≡ max_check_time - 1 = (==_iff count (max_check_time - 1)).0 end in
              (
                count,
                1,
                rw (down, end) refl,
                record {
                  later = omega arith;
                  in_time = omega (arith, e);
                  down = λ k from below. absurd (omega (arith, from, below));
                  reason = inr (down, at, omega arith);
                },
              )
          | inr more ↦
              let (last, waited, p, r) =
                check_from-Reports port_num (suc left) (count + 1) (omega (arith, e))
                  (ground arith) in
              (
                last,
                suc waited,
                rw (down, more) (ap (λ x. delayed true x) p),
                Reports-next port_num count last waited down r,
              )
        ]
      ]

  -- Round `last` was the first one in which all enabled ports had a link, or the one before the last; the
  -- call has waited in every round before it.
  pub record FirstUp (port_num last waited : ℕ) : Type 0 where
    pub in_time : last < max_check_time
    pub down : (k : ℕ) → k < last → SomeDown port_num k
    pub reason :
        (AllUp port_num last × (waited ≡ last))
        ⊎ (SomeDown port_num last × (last ≡ max_check_time - 1) × (waited ≡ last + 1))

  down_some : (port_num k : ℕ) → all_ports_up k port_num 0 ≡ false → SomeDown port_num k
  down_some port_num k h =
      let (i, lt, on, low) = down_from k port_num 0 h in (i, omega (arith, lt), on, low)

  Reports-FirstUp :
      (port_num last waited : ℕ) → Reports port_num 0 last waited → FirstUp port_num last waited
  Reports-FirstUp port_num last waited r = record {
    in_time = r.in_time;
    down = λ k lt. down_some port_num k (r.down k (omega arith) lt);
    reason = elim r.reason [
      | inl (up, w) ↦ inl (
        λ i lt on. up_from last port_num 0 i up (omega arith) (omega (arith, lt)) on,
        omega (arith, w),
      )
      | inr (low, end, w) ↦ inr (down_some port_num last low, end, omega (arith, w))
    ];
  }

  -- The call always ends with a printed list of the enabled ones of the `port_num` ports, in increasing
  -- order, each with its link status, after at most 90 rounds without printing: the statuses are those of
  -- the round behind the first one in which every enabled port had a link, before which it has waited
  -- once for each round, some enabled port having had none; or, if there was no such round among the
  -- 90, those of the last round, after 90 waits.
  pub check_all_ports_link_status-FirstUp :
      (port_num : ℕ)
      → (last : ℕ) × (waited : ℕ) × (check_all_ports_link_status port_num
          ≡ record { delays = waited; report = some (report_of port_num (last + 1)) })
        × FirstUp port_num last waited
  unfolding check_all_ports_link_status
  check_all_ports_link_status-FirstUp port_num =
      let (last, waited, e, r) =
        check_from-Reports port_num (max_check_time + 1) 0 refl (omega arith) in
      (
        last,
        waited,
        e
            ∙ ap (λ l. record { delays = waited; report = some l })
                (statuses-report (last + 1) port_num 0),
        Reports-FirstUp port_num last waited r,
      )
