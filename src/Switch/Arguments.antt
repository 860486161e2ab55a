-- ===== src/Switch/Arguments.antt =====
-- softswitch/main.c: the arguments of the command line. argp calls `parse_opt` once for each option and
-- argument, with the number of the arguments before it; `strtoull` is a parameter.
pub mod Interfaces
use bpfabric.Prelude.{
  ℕ, zero, suc, ◌+◌, ◌≤◌, ◌<◌, ◌≡◌, refl, sym, ap, ◌∙◌, arith, Bool, true, false, Bool-cases, inl,
  inr, Option, none, some, List, [], ◌∷◌, ◌++◌, length, set, ltb, leb, if◌then◌else◌,
}
use bpfabric.Maps.Registry.{Call, done, crash}

-- MAX_INTERFACES
abbrev pub max_interfaces : ℕ
max_interfaces = 255

-- What argp calls `parse_opt` with
pub data Key : Type 0 where
  verbose_key end_key unknown_key : Key
  dpid_key controller_key arg_key : List ℕ → Key

-- `struct arguments`: the entries of `interfaces` that have been written, from the first on.
pub record Arguments : Type 0 where
  pub interfaces : List (List ℕ)
  pub interface_count : ℕ
  pub dpid : ℕ
  pub controller : List ℕ
  pub verbose : Bool

-- How a call of `parse_opt` ends: normally, with the usage text and the end of the program, or with
-- ARGP_ERR_UNKNOWN.
pub data Parsed : Type 0 where
  parsed : Arguments → Parsed
  usage unknown : Parsed

-- `arguments->interfaces[state->arg_num] = arg; arguments->interface_count++`
unfoldable pub add_interface : Arguments → ℕ → List ℕ → Call Parsed
add_interface a arg_num arg =
    if ltb arg_num max_interfaces
    then done (
        parsed (record a {
          interfaces =
              if ltb arg_num (length a.interfaces)
              then set a.interfaces arg_num arg
              else a.interfaces ++ (arg ∷ []);
          interface_count = suc a.interface_count;
        }))
    else crash

module _ (strtoull : List ℕ → ℕ) where
  unfoldable pub parse_opt : Arguments → ℕ → Key → Call Parsed
  unfolding add_interface
  parse_opt a arg_num verbose_key = done (parsed (record a { verbose = true }))
  parse_opt a arg_num (dpid_key arg) = done (parsed (record a { dpid = strtoull arg }))
  parse_opt a arg_num (controller_key arg) = done (parsed (record a { controller = arg }))
  parse_opt a arg_num (arg_key arg) = add_interface a arg_num arg
  parse_opt a arg_num end_key = done (if ltb arg_num 1 then usage else parsed a)
  parse_opt a arg_num unknown_key = done unknown

  -- The number of arguments after a key
  unfoldable pub next_arg_num : ℕ → Key → ℕ
  next_arg_num arg_num (arg_key arg) = suc arg_num
  next_arg_num arg_num verbose_key = arg_num
  next_arg_num arg_num (dpid_key arg) = arg_num
  next_arg_num arg_num (controller_key arg) = arg_num
  next_arg_num arg_num end_key = arg_num
  next_arg_num arg_num unknown_key = arg_num

  -- `argp_parse`: a call for each key, until one does not end normally.
  unfoldable pub parse_keys : Arguments → ℕ → List Key → Call Parsed
  unfolding parse_opt next_arg_num
  parse_keys a arg_num [] = done (parsed a)
  parse_keys a arg_num (k ∷ ks) = elim (parse_opt a arg_num k) [
    | crash ↦ crash
    | done usage ↦ done usage
    | done unknown ↦ done unknown
    | done (parsed a') ↦ parse_keys a' (next_arg_num arg_num k) ks
  ]
