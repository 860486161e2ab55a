-- ===== src/Dpdk/Clock.antt =====
-- dpdkswitch/main.c, `l2fwd_main_loop`: the time stamps that decide when the queues are drained and the
-- statistics printed, and one round of the loop.
use bpfabric.Prelude.{
  ℕ, suc, ◌+◌, ◌-◌, ◌*◌, ◌/◌, ◌%◌, ◌≤◌, ◌<◌, ◌≡◌, Bool, true, false, ◌&&◌, Option, List, [], ◌∷◌,
  ltb, leb, if◌then◌else◌,
}
use bpfabric.Prelude.Words.{u64_mod}
use bpfabric.Maps.Registry.{Call, done}
use bpfabric.Dpdk.{TxPort, Core, drain_core, receive_burst}

-- `drain_tsc`: BURST_TX_DRAIN_US microseconds
unfoldable pub drain_tsc : ℕ → ℕ
drain_tsc tsc_hz = (tsc_hz + 1000000 - 1) % u64_mod / 1000000 * 100 % u64_mod

-- `prev_tsc`, `timer_tsc`, and how often the statistics have been printed
pub record Clock : Type 0 where
  pub prev_tsc : ℕ
  pub timer_tsc : ℕ
  pub prints : ℕ

-- `prev_tsc = 0; timer_tsc = 0`, and nothing is printed yet.
abbrev pub new_clock : Clock
new_clock = record { prev_tsc = 0; timer_tsc = 0; prints = 0 }

-- `timer_period > 0`, on an `int64_t`
abbrev pub is_positive : ℕ → Bool
is_positive x = ltb 0 x && ltb x 0x8000_0000_0000_0000

module _ (timer_period : ℕ) (master : Bool) where
  -- The timer, which is advanced when the queues are drained
  unfoldable pub advance_timer : ℕ → Clock → Clock
  advance_timer diff c =
      let timer = (c.timer_tsc + diff) % u64_mod in
      if is_positive timer_period
      then if leb timer_period timer && master
        then record c { timer_tsc = 0; prints = suc c.prints }
        else record c { timer_tsc = timer }
      else c

  -- The step at the time `cur`: whether the queues are drained, and the new time stamps.
  unfoldable pub tick : ℕ → ℕ → Clock → Bool × Clock
  unfolding advance_timer
  tick drain cur c =
      let diff = (cur + (u64_mod - c.prev_tsc)) % u64_mod in
      if ltb drain diff
      then (true, record (advance_timer diff c) { prev_tsc = cur })
      else (false, c)

  -- The steps at the times of a list
  unfoldable pub ticks : ℕ → List ℕ → Clock → Clock
  unfolding tick
  ticks drain [] c = c
  ticks drain (cur ∷ curs) c = ticks drain curs (tick drain cur c).1

-- The loop over the ports of the core, each with the burst that `rte_eth_rx_burst` returns for it
unfoldable pub receive_ports :
    (ℕ → TxPort → ℕ) → ℕ → Option (ℕ → ℕ) → List (ℕ × List ℕ) → Call Core → Call Core
unfolding receive_burst
receive_ports tx_burst mask ubpf_fn [] c = c
receive_ports tx_burst mask ubpf_fn ((portid, burst) ∷ bursts) c =
    receive_ports tx_burst mask ubpf_fn bursts (receive_burst tx_burst mask portid ubpf_fn burst c)

-- One round of the loop, where the queues are drained or not
unfoldable pub round :
    (ℕ → TxPort → ℕ) → ℕ → Option (ℕ → ℕ) → Bool → List (ℕ × List ℕ) → Core → Call Core
unfolding receive_ports drain_core
round tx_burst mask ubpf_fn drains bursts c =
    receive_ports tx_burst mask ubpf_fn bursts (done (if drains then drain_core tx_burst c else c))

-- The times of a list increase from one on, and stay 64-bit words.
abbrev pub Increasing : ℕ → List ℕ → Type 0
Increasing from [] = Unit
Increasing from (cur ∷ curs) = (from ≤ cur) × (cur < u64_mod) × Increasing cur curs

-- The same loop told by absolute times: when the queues were last drained, and when the statistics were
-- last printed, at the time 0 before the first print.
pub record Watch : Type 0 where
  pub drained : ℕ
  pub printed : ℕ
  pub times : ℕ

abbrev pub watch_step : ℕ → ℕ → ℕ → Watch → Watch
watch_step timer_period drain cur w =
    if ltb drain (cur - w.drained)
    then if leb timer_period (cur - w.printed)
      then record { drained = cur; printed = cur; times = suc w.times }
      else record w { drained = cur }
    else w

abbrev pub watch : ℕ → ℕ → List ℕ → Watch → Watch
watch timer_period drain [] w = w
watch timer_period drain (cur ∷ curs) w =
    watch timer_period drain curs (watch_step timer_period drain cur w)

-- The clock says the same as the absolute times; between two prints, and before the first, at least a
-- timer period has passed, and less than one has since the last print when the queues were drained.
pub record Agrees (timer_period : ℕ) (c : Clock) (w : Watch) : Type 0 where
  pub drained : c.prev_tsc ≡ w.drained
  pub timer : c.timer_tsc + w.printed ≡ w.drained
  pub prints : c.prints ≡ w.times
  pub rate : w.times * timer_period ≤ w.printed
  pub waiting : c.timer_tsc < timer_period
