-- ===== src/Dpdk/Cores.antt =====
-- dpdkswitch/main.c, `main`: how the enabled ports are dealt out to the logical cores.
pub mod Dealing
use mathlib.Core.List.{append_assoc, append-nil}
use native.Mathlib.Nat.{zero-add}
use mathlib.Core.Path.{subst}
use bpfabric.Prelude.{
  ℕ, zero, suc, ◌+◌, ◌-◌, ◌*◌, ◌≤◌, ◌<◌, ◌≡◌, ◌≢◌, ◌⊎◌, refl, sym, ap, ◌∙◌, arith, Bool, true,
  false, not, ◌&&◌, Bool-cases, Option-cases, inl, inr, Option, none, some, List, [], ◌∷◌, ◌++◌,
  length, length-append, get_elem?, set, drop, ◌==◌, if◌then◌else◌,
}
use bpfabric.Dpdk.{is_enabled}

-- `lcore_queue_conf[i]`, whose `n_rx_port` is the length of the list, and `rte_lcore_is_enabled(i)`
pub record Lcore : Type 0 where
  pub enabled : Bool
  pub rx_port_list : List ℕ

-- The test of the loop that looks for a core
abbrev pub is_free : ℕ → Lcore → Bool
is_free per_lcore l = l.enabled && not (length l.rx_port_list == per_lcore)

-- The loop from core `i` on; `none` is the exit "Not enough cores".
unfoldable pub find_lcore : ℕ → ℕ → List Lcore → Option ℕ
find_lcore per_lcore i [] = none
find_lcore per_lcore i (l ∷ ls) =
    if is_free per_lcore l then some i else find_lcore per_lcore (i + 1) ls

-- `qconf->rx_port_list[qconf->n_rx_port] = portid; qconf->n_rx_port++;`
unfoldable pub add_port : List Lcore → ℕ → ℕ → List Lcore
add_port [] i portid = []
add_port (l ∷ ls) zero portid = record l { rx_port_list = l.rx_port_list ++ (portid ∷ []) } ∷ ls
add_port (l ∷ ls) (suc i) portid = l ∷ add_port ls i portid

unfoldable pub place :
    (ℕ → List Lcore → Option (List Lcore)) → List Lcore → ℕ → Option ℕ → Option (List Lcore)
unfolding add_port
place next ls portid none = none
place next ls portid (some i) = next i (add_port ls i portid)

module _ (mask per_lcore : ℕ) where
  -- The loop over the ports from `portid`, `n` of which are left, with `rx_lcore_id`.
  unfoldable pub assign : ℕ → ℕ → ℕ → List Lcore → Option (List Lcore)
  unfolding is_enabled place find_lcore
  assign zero portid rx_lcore_id ls = some ls
  assign (suc n) portid rx_lcore_id ls =
      let skipped = assign n (portid + 1) rx_lcore_id ls in
      if is_enabled mask portid
      then place (assign n (portid + 1)) ls portid
          (find_lcore per_lcore rx_lcore_id (drop rx_lcore_id ls))
      else skipped

-- The ports that the cores receive from, core by core
abbrev pub all_ports : List Lcore → List ℕ
all_ports [] = []
all_ports (l ∷ ls) = l.rx_port_list ++ all_ports ls

abbrev pub enabled_cores : List Lcore → ℕ
enabled_cores [] = 0
enabled_cores (l ∷ ls) = (if l.enabled then 1 else 0) + enabled_cores ls

-- The enabled ones of `n` ports from `portid` on
abbrev pub enabled_ports : ℕ → ℕ → ℕ → List ℕ
enabled_ports mask zero portid = []
enabled_ports mask (suc n) portid =
    if is_enabled mask portid
    then portid ∷ enabled_ports mask n (portid + 1)
    else enabled_ports mask n (portid + 1)
