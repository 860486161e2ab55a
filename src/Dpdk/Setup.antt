-- ===== src/Dpdk/Setup.antt =====
-- dpdkswitch/main.c, `main`: the arguments, and then the dealing of the ports out to the cores.
use bpfabric.Prelude.{ℕ, ◌<◌, arith, Option, none, some, List, [], ◌∷◌, length}
use bpfabric.Dpdk.Arguments.{max_rx_queue_per_lcore, Opt, Options, parse_args}
use bpfabric.Dpdk.Arguments.Ranges.{InRange, Ranged, parse_args-Ranged}
use bpfabric.Dpdk.Cores.{Lcore, assign, enabled_cores, enabled_ports}
use bpfabric.Dpdk.Cores.Dealing.{AllDealt, Untouched, Deals, assign-Deals}

-- The dealing with the options that have been parsed; `none` stands for both exits of `main`.
unfoldable pub deal : ℕ → List Lcore → Option Options → Option (List Lcore)
unfolding assign
deal nb_ports ls none = none
deal nb_ports ls (some o) = assign o.enabled_port_mask o.rx_queue_per_lcore nb_ports 0 0 ls

-- Every `rx_port_list` has room for the ports that have been written to it.
abbrev pub AllFit : List Lcore → Type 0
AllFit [] = Unit
AllFit (l ∷ ls) = (length l.rx_port_list < max_rx_queue_per_lcore) × AllFit ls

AllDealt-AllFit :
    (per_lcore : ℕ) (ls : List Lcore)
    → per_lcore < max_rx_queue_per_lcore
    → AllDealt per_lcore ls
    → AllFit ls
AllDealt-AllFit per_lcore [] lt d = tt
AllDealt-AllFit per_lcore (l ∷ ls) lt (d, ds) =
    (omega (arith, d.few, lt), AllDealt-AllFit per_lcore ls lt ds)

abbrev pub Fits : Option (List Lcore) → Type 0
Fits none = Unit
Fits (some ls) = AllFit ls

Deals-Fits :
    (per_lcore cores : ℕ) (wanted : List ℕ) (x : Option (List Lcore))
    → per_lcore < max_rx_queue_per_lcore
    → Deals per_lcore cores wanted x
    → Fits x
Deals-Fits per_lcore cores wanted none lt d = tt
Deals-Fits per_lcore cores wanted (some ls) lt (e, d) = AllDealt-AllFit per_lcore ls lt d

deal-Fits :
    (nb_ports : ℕ) (ls : List Lcore) (x : Option Options)
    → Untouched ls
    → Ranged x
    → Fits (deal nb_ports ls x)
unfolding deal
deal-Fits nb_ports ls none u r = tt
deal-Fits nb_ports ls (some o) u r =
    Deals-Fits o.rx_queue_per_lcore (enabled_cores ls)
      (enabled_ports o.enabled_port_mask nb_ports 0)
      (assign o.enabled_port_mask o.rx_queue_per_lcore nb_ports 0 0 ls) r.few_queues
      (assign-Deals o.enabled_port_mask o.rx_queue_per_lcore nb_ports ls u)

-- Whatever the options on the command line, where the variables start in their ranges and the cores
-- without ports: when `main` has dealt the ports out, no core has been given as many ports as its array
-- has entries, so that no write of the dealing goes past the end of an array `rx_port_list`.
pub deal-parse_args-Fits :
    (strtoul strtol : ℕ → List ℕ → ℕ × List ℕ) (opts : List Opt) (o : Options) (nb_ports : ℕ)
    (ls : List Lcore)
    → InRange o
    → Untouched ls
    → Fits (deal nb_ports ls (parse_args strtoul strtol opts o))
deal-parse_args-Fits strtoul strtol opts o nb_ports ls r u =
    deal-Fits nb_ports ls (parse_args strtoul strtol opts o) u
      (parse_args-Ranged strtoul strtol opts o r)
