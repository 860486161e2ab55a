-- ===== src/Dpdk/Tests.antt =====
-- The DPDK switch at concrete packets, options, ports and times.
use bpfabric.Prelude.{
  zero, suc, ◌<◌, ◌&&◌, ◌==◌, if◌then◌else◌, ltb, true, false, ◌+◌, ℕ, ◌≤◌, ◌≡◌, refl, arith, List,
  [], ◌∷◌, length, some, get_elem?,
}
use bpfabric.Maps.Registry.{done}
use bpfabric.Programs.{flood}
use bpfabric.Dpdk.{max_pkt_burst, drain, TxPort, Core, is_enabled, pkt_transmit}
use bpfabric.Dpdk.Queues.{
  Accounts, Event, send, drain_round, happens, count, happens-Accounts, happens-drain,
}
use bpfabric.Dpdk.Arguments.{Options, portmask, nqueue, parse_args}
use bpfabric.Dpdk.Setup.{deal, Fits, deal-parse_args-Fits}
use bpfabric.Dpdk.Cores.{Lcore, assign, enabled_cores, enabled_ports}
use bpfabric.Dpdk.Cores.Dealing.{Deals, assign-Deals}
use bpfabric.Dpdk.Links.{
  FirstUp, report_of, check_all_ports_link_status, check_all_ports_link_status-FirstUp,
}
use bpfabric.Dpdk.Flood.{waits, pkt_transmit-waits}

abbrev idle_port : TxPort
idle_port = record { m_table = []; tx = 0; dropped = 0; accepted = []; freed = [] }

idle_port-Accounts : Accounts [] idle_port
idle_port-Accounts = record { room = omega arith; sent = refl; lost = refl; whole = λ m. refl }

-- DPDK accepts one packet of every burst.
abbrev one_of : List ℕ → ℕ
one_of [] = 0
one_of (m ∷ ms) = 1

abbrev accept_one : ℕ → TxPort → ℕ
accept_one port p = one_of p.m_table

one_of-le : (ms : List ℕ) → one_of ms ≤ length ms
one_of-le [] = omega arith
one_of-le (m ∷ ms) = omega arith

abbrev events : List Event
events = send 7 ∷ send 8 ∷ drain_round ∷ send 9 ∷ []

happens-Accounts_example :
    Accounts (7 ∷ 8 ∷ 9 ∷ []) (happens accept_one 0 (λ p. one_of-le p.m_table) events idle_port)
happens-Accounts_example =
    happens-Accounts accept_one 0 (λ p. one_of-le p.m_table) events [] idle_port idle_port-Accounts

happens-drain_example :
    let p = drain accept_one 0 (happens accept_one 0 (λ p. one_of-le p.m_table) events idle_port) in
    (p.m_table ≡ []) × ((m : ℕ) → count m (7 ∷ 8 ∷ 9 ∷ []) ≡ count m p.accepted + count m p.freed)
happens-drain_example =
    happens-drain accept_one 0 (λ p. one_of-le p.m_table) events [] idle_port idle_port-Accounts

-- Three ports, all enabled; buffer 7 has one reference.
abbrev three_ports : Core
three_ports = record {
  ports = idle_port ∷ idle_port ∷ idle_port ∷ [];
  refcnt = λ m. 1;
  released = [];
  punted = [];
}

three-room :
    (j : ℕ) (p : TxPort)
    → get_elem? three_ports.ports j ≡ some p
    → length p.m_table + 1 < max_pkt_burst
three-room zero p at = let e : idle_port ≡ p = cc in rw (← e) (omega arith)
three-room (suc zero) p at = let e : idle_port ≡ p = cc in rw (← e) (omega arith)
three-room (suc (suc zero)) p at = let e : idle_port ≡ p = cc in rw (← e) (omega arith)
three-room (suc (suc (suc j))) p at = absurd (cc)

pkt_transmit-waits_example :
    (c' : Core) × (pkt_transmit accept_one 7 1 7 flood three_ports ≡ done c')
    × ((j : ℕ) (p : TxPort)
        → get_elem? three_ports.ports j ≡ some p
        → get_elem? c'.ports j ≡ some (waits accept_one 7 1 7 j p))
    × (length c'.ports ≡ 3)
    × (c'.refcnt 7 ≡ 0)
unfolding is_enabled
pkt_transmit-waits_example =
    pkt_transmit-waits accept_one 7 1 7 three_ports (omega arith) refl (omega arith) refl three-room

-- `strtoul` on an argument that starts with no digit: no number, and the whole string is left.
abbrev no_digits : ℕ → List ℕ → ℕ × List ℕ
no_digits base arg = (0, arg)

abbrev defaults : Options
defaults = record {
  enabled_port_mask = 0;
  rx_queue_per_lcore = 1;
  timer_period = 20000000000;
  dpid = 0;
  controller = [];
}

-- Three cores, the second of which is not enabled
abbrev three_cores : List Lcore
three_cores =
    record { enabled = true; rx_port_list = [] }
    ∷ record { enabled = false; rx_port_list = [] }
    ∷ record { enabled = true; rx_port_list = [] }
    ∷ []

-- Ports 0, 2 and 3 of four, two for each core
assign-Deals_example :
    Deals 2 (enabled_cores three_cores) (enabled_ports 13 4 0) (assign 13 2 4 0 0 three_cores)
assign-Deals_example = assign-Deals 13 2 4 three_cores (refl, (refl, (refl, tt)))

-- Every number that `strtoul` reads is 2.
abbrev always_two : ℕ → List ℕ → ℕ × List ℕ
always_two base arg = (2, [])

deal-parse_args-Fits_example : Fits (
    deal 4 three_cores
      (parse_args always_two no_digits (portmask (120 ∷ []) ∷ nqueue (50 ∷ []) ∷ []) defaults))
deal-parse_args-Fits_example =
    deal-parse_args-Fits always_two no_digits (portmask (120 ∷ []) ∷ nqueue (50 ∷ []) ∷ []) defaults
      4 three_cores
      (record { some_queue = omega arith; few_queues = omega arith; positive_timer = omega arith })
      (refl, (refl, (refl, tt)))

-- Port 1 comes up in the third round.
abbrev third_round : ℕ → ℕ → ℕ
third_round count portid = if portid == 1 && ltb count 2 then 0 else 1

check_all_ports_link_status-FirstUp_example :
    (last : ℕ) × (waited : ℕ) × (check_all_ports_link_status 3 third_round 2
      ≡ record { delays = waited; report = some (report_of 3 third_round 2 (last + 1)) })
    × FirstUp 3 third_round 2 last waited
check_all_ports_link_status-FirstUp_example = check_all_ports_link_status-FirstUp 3 third_round 2
