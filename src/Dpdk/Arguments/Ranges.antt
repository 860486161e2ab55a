-- ===== src/Dpdk/Arguments/Ranges.antt =====
-- dpdkswitch/main.c, `l2fwd_parse_args`: the ranges of the variables that it sets.
use bpfabric.Prelude.{
  ℕ, ◌<◌, arith, Bool-cases, inl, inr, Option, none, some, List, [], ◌∷◌, leb, ◌==◌,
}
use bpfabric.Dpdk.Arguments.{
  max_rx_queue_per_lcore, Opt, portmask, nqueue, timer, dpid_opt, controller_opt, long, other,
  Options, parse_portmask, parse_nqueue, parse_timer_period, parse_dpid, timer_period_of,
  handle_option, parse_args,
}

-- The variables that the set-up of the switch relies on, in their ranges
pub record InRange (o : Options) : Type 0 where
  pub some_queue : 0 < o.rx_queue_per_lcore
  pub few_queues : o.rx_queue_per_lcore < max_rx_queue_per_lcore
  pub positive_timer : o.timer_period < 0x8000_0000_0000_0000

abbrev pub Ranged : Option Options → Type 0
Ranged none = Unit
Ranged (some o) = InRange o

module _ (strtoul strtol : ℕ → List ℕ → ℕ × List ℕ) where
  parse_nqueue-lt : (arg : List ℕ) → parse_nqueue strtoul strtol arg < max_rx_queue_per_lcore
  unfolding parse_nqueue
  parse_nqueue-lt arg = ground arith

  handle_option-Ranged :
      (o : Options) (opt : Opt) → InRange o → Ranged (handle_option strtoul strtol o opt)
  unfolding handle_option
  handle_option-Ranged o (portmask arg) r =
      elim (Bool-cases (parse_portmask strtoul strtol arg == 0)) [
        | inl e ↦ rw e tt
        | inr e ↦ rw e (record {
          some_queue = r.some_queue;
          few_queues = r.few_queues;
          positive_timer = r.positive_timer;
        })
      ]
  handle_option-Ranged o (nqueue arg) r = elim (Bool-cases (parse_nqueue strtoul strtol arg == 0)) [
    | inl e ↦ rw e tt
    | inr e ↦ rw e (record {
      some_queue = ground (arith, e);
      few_queues = parse_nqueue-lt arg;
      positive_timer = r.positive_timer;
    })
  ]
  handle_option-Ranged o (timer arg) r =
      let t = timer_period_of strtoul strtol (parse_timer_period strtoul strtol arg) in
      elim (Bool-cases (leb 0x8000_0000_0000_0000 t)) [
        | inl e ↦ rw e tt
        | inr e ↦ rw e (record {
          some_queue = r.some_queue;
          few_queues = r.few_queues;
          positive_timer = ground (arith, e);
        })
      ]
  handle_option-Ranged o (dpid_opt arg) r = elim (Bool-cases (parse_dpid strtoul strtol arg == 0)) [
    | inl e ↦ rw e tt
    | inr e ↦ rw e (record {
      some_queue = r.some_queue;
      few_queues = r.few_queues;
      positive_timer = r.positive_timer;
    })
  ]
  handle_option-Ranged o (controller_opt arg) r = record {
    some_queue = r.some_queue;
    few_queues = r.few_queues;
    positive_timer = r.positive_timer;
  }
  handle_option-Ranged o long r = tt
  handle_option-Ranged o other r = tt

  pub parse_args-Ranged :
      (opts : List Opt) (o : Options) → InRange o → Ranged (parse_args strtoul strtol opts o)
  unfolding parse_args
  parse_args-Ranged [] o r = r
  parse_args-Ranged (opt ∷ opts) o r =
      continues (handle_option strtoul strtol o opt) (λ o' h. parse_args-Ranged opts o' h)
        (handle_option-Ranged o opt r)
    where
      continues :
          (x : Option Options)
          → ((o' : Options) → InRange o' → Ranged (parse_args strtoul strtol opts o'))
          → Ranged x
          → Ranged (elim x [ none ↦ none | some o' ↦ parse_args strtoul strtol opts o' ])
      continues none next h = tt
      continues (some o') next h = next o' h
