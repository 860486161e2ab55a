-- ===== src/Dpdk/Arguments.antt =====
-- dpdkswitch/main.c: the options of the command line. `strtoul` and `strtol` are parameters: they get the
-- base and a string, and give the value, a pattern of 64 bits, and the string at `*end`.
pub mod Ranges
use bpfabric.Prelude.{
  ℕ, zero, suc, ◌-◌, ◌*◌, ◌%◌, ◌<◌, ◌≡◌, refl, arith, Bool, true, false, Bool-cases, inl, inr, not,
  ◌||◌, ◌&&◌, Option, none, some, List, [], ◌∷◌, ltb, leb, ◌==◌, if◌then◌else◌,
}
use bpfabric.Prelude.Words.{u32_mod, u64_mod, sext32}
use bpfabric.Dpdk.{is_enabled}

-- MAX_RX_QUEUE_PER_LCORE, MAX_TIMER_PERIOD, TIMER_MILLISECOND
abbrev pub max_rx_queue_per_lcore : ℕ
max_rx_queue_per_lcore = 16

abbrev pub max_timer_period : ℕ
max_timer_period = 86400

abbrev pub timer_millisecond : ℕ
timer_millisecond = 2000000

-- -1 as an `int`
abbrev pub minus_one : ℕ
minus_one = u32_mod - 1

-- The option that `getopt_long` returns for the string "p:q:T:d:": a letter with its argument, 0 for a
-- long option, or another character.
pub data Opt : Type 0 where
  portmask nqueue timer dpid_opt controller_opt : List ℕ → Opt
  long other : Opt

-- The variables that the options set; `timer_period` is the pattern of an `int64_t`.
pub record Options : Type 0 where
  pub enabled_port_mask : ℕ
  pub rx_queue_per_lcore : ℕ
  pub timer_period : ℕ
  pub dpid : ℕ
  pub controller : List ℕ

unfoldable pub is_empty : List ℕ → Bool
is_empty [] = true
is_empty (c ∷ cs) = false

-- `(arg[0] == '\0') || (end == NULL) || (*end != '\0')`
unfoldable pub is_no_number : List ℕ → List ℕ → Bool
unfolding is_empty
is_no_number arg rest = is_empty arg || not (is_empty rest)

-- The bit of every port below `n` is set in the mask.
all_enabled : ℕ → ℕ → Bool
all_enabled mask zero = true
all_enabled mask (suc n) = is_enabled mask n && all_enabled mask n

all_enabled-is_enabled :
    (mask n i : ℕ) → all_enabled mask n ≡ true → i < n → is_enabled mask i ≡ true
unfolding all_enabled
all_enabled-is_enabled mask zero i h lt = absurd (omega arith)
all_enabled-is_enabled mask (suc n) i h lt = ground (arith, all_enabled-is_enabled mask n i)

minus_one-is_enabled : (i : ℕ) → i < 32 → is_enabled minus_one i ≡ true
unfolding all_enabled is_enabled
minus_one-is_enabled i lt = all_enabled-is_enabled minus_one 32 i refl lt

module _ (strtoul strtol : ℕ → List ℕ → ℕ × List ℕ) where
  -- `l2fwd_parse_portmask`, as the `uint32_t` that its result is assigned to
  unfoldable pub parse_portmask : List ℕ → ℕ
  unfolding is_no_number
  parse_portmask arg =
      let (pm, rest) = strtoul 16 arg in
      if is_no_number arg rest then minus_one else if pm == 0 then minus_one else pm % u32_mod

  unfoldable pub parse_nqueue : List ℕ → ℕ
  unfolding is_no_number
  parse_nqueue arg =
      let (n, rest) = strtoul 10 arg in
      if is_no_number arg rest
      then 0
      else if n == 0
      then 0
      else if leb max_rx_queue_per_lcore n
      then 0
      else n

  -- `l2fwd_parse_timer_period`: `int n` is the low half of the value.
  unfoldable pub parse_timer_period : List ℕ → ℕ
  unfolding is_no_number
  parse_timer_period arg =
      let (v, rest) = strtol 10 arg in
      let n = v % u32_mod in
      if is_no_number arg rest
      then minus_one
      else if ltb n 0x8000_0000 && leb max_timer_period n
      then minus_one
      else n

  -- `l2fwd_parse_dpid`: `int n` again, whose conversion to `uint64_t` extends its sign.
  unfoldable pub parse_dpid : List ℕ → ℕ
  unfolding is_no_number sext32
  parse_dpid arg =
      let (v, rest) = strtoul 10 arg in if is_no_number arg rest then 0 else sext32 (v % u32_mod)

  -- `l2fwd_parse_timer_period(optarg) * 1000 * TIMER_MILLISECOND`
  unfoldable pub timer_period_of : ℕ → ℕ
  unfolding sext32
  timer_period_of n = sext32 (n * 1000 % u32_mod) * timer_millisecond % u64_mod

  -- The switch of `l2fwd_parse_args`; `none` is the result -1.
  unfoldable pub handle_option : Options → Opt → Option Options
  unfolding parse_portmask parse_nqueue parse_timer_period parse_dpid timer_period_of
  handle_option o (portmask arg) =
      let mask = parse_portmask arg in
      if mask == 0 then none else some (record o { enabled_port_mask = mask })
  handle_option o (nqueue arg) =
      let n = parse_nqueue arg in
      if n == 0 then none else some (record o { rx_queue_per_lcore = n })
  handle_option o (timer arg) =
      let t = timer_period_of (parse_timer_period arg) in
      if leb 0x8000_0000_0000_0000 t then none else some (record o { timer_period = t })
  handle_option o (dpid_opt arg) =
      let d = parse_dpid arg in if d == 0 then none else some (record o { dpid = d })
  handle_option o (controller_opt arg) = some (record o { controller = arg })
  handle_option o long = none
  handle_option o other = none

  -- The loop of `l2fwd_parse_args` over what `getopt_long` returns
  unfoldable pub parse_args : List Opt → Options → Option Options
  unfolding handle_option
  parse_args [] o = some o
  parse_args (opt ∷ opts) o = elim (handle_option o opt) [
    | none ↦ none
    | some o' ↦ parse_args opts o'
  ]

  parse_portmask-invalid :
      (arg : List ℕ)
      → (is_no_number arg (strtoul 16 arg).1 || (strtoul 16 arg).0 == 0) ≡ true
      → parse_portmask arg ≡ minus_one
  unfolding parse_portmask
  parse_portmask-invalid arg bad = elim (Bool-cases (is_no_number arg (strtoul 16 arg).1)) [
    | inl e ↦ rw e refl
    | inr e ↦ let z : ((strtoul 16 arg).0 == 0) ≡ true = rw e at bad in rw (e, z) refl
  ]

  -- An argument of -p that is empty or does not end where its hexadecimal number ends, or whose number
  -- is 0, is not refused: it enables all 32 ports.
  pub handle_option-invalid :
      (arg : List ℕ) (o : Options) (i : ℕ)
      → (is_no_number arg (strtoul 16 arg).1 || (strtoul 16 arg).0 == 0) ≡ true
      → i < 32
      → (o' : Options) × (handle_option o (portmask arg) ≡ some o')
        × (is_enabled o'.enabled_port_mask i ≡ true)
  unfolding handle_option
  handle_option-invalid arg o i bad lt = (
    record o { enabled_port_mask = minus_one },
    rw (parse_portmask-invalid arg bad) refl,
    minus_one-is_enabled i lt,
  )
