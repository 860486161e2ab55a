-- ===== src/Switch/Arguments/Interfaces.antt =====
-- softswitch/main.c, `parse_opt`: the interfaces of a whole command line.
use mathlib.Core.List.{append_assoc, append-nil}
use mathlib.Core.Path.{subst}
use bpfabric.Prelude.{
  ℕ, suc, ◌≤◌, ◌<◌, ◌≡◌, ◌⊎◌, refl, sym, ap, ◌∙◌, arith, Bool, true, false, Bool-cases, inl, inr,
  List, [], ◌∷◌, ◌++◌, length, length-append, ltb,
}
use bpfabric.Maps.Registry.{Call, done, crash}
use bpfabric.Switch.Arguments.{
  max_interfaces, Key, verbose_key, end_key, unknown_key, dpid_key, controller_key, arg_key,
  Arguments, Parsed, parsed, usage, add_interface, parse_opt, next_arg_num, parse_keys,
}

-- The options and arguments of a command line, all of them known
abbrev pub are_known : List Key → Bool
are_known [] = true
are_known (verbose_key ∷ ks) = are_known ks
are_known (dpid_key arg ∷ ks) = are_known ks
are_known (controller_key arg ∷ ks) = are_known ks
are_known (arg_key arg ∷ ks) = are_known ks
are_known (end_key ∷ ks) = false
are_known (unknown_key ∷ ks) = false

-- The arguments that are no options
abbrev pub interfaces_of : List Key → List (List ℕ)
interfaces_of [] = []
interfaces_of (arg_key arg ∷ ks) = arg ∷ interfaces_of ks
interfaces_of (verbose_key ∷ ks) = interfaces_of ks
interfaces_of (dpid_key arg ∷ ks) = interfaces_of ks
interfaces_of (controller_key arg ∷ ks) = interfaces_of ks
interfaces_of (end_key ∷ ks) = interfaces_of ks
interfaces_of (unknown_key ∷ ks) = interfaces_of ks

-- The last one of an option, or what stands for it if there is none
abbrev pub last_dpid : (List ℕ → ℕ) → ℕ → List Key → ℕ
last_dpid strtoull d [] = d
last_dpid strtoull d (dpid_key arg ∷ ks) = last_dpid strtoull (strtoull arg) ks
last_dpid strtoull d (verbose_key ∷ ks) = last_dpid strtoull d ks
last_dpid strtoull d (controller_key arg ∷ ks) = last_dpid strtoull d ks
last_dpid strtoull d (arg_key arg ∷ ks) = last_dpid strtoull d ks
last_dpid strtoull d (end_key ∷ ks) = last_dpid strtoull d ks
last_dpid strtoull d (unknown_key ∷ ks) = last_dpid strtoull d ks

abbrev pub last_controller : List ℕ → List Key → List ℕ
last_controller c [] = c
last_controller c (controller_key arg ∷ ks) = last_controller arg ks
last_controller c (verbose_key ∷ ks) = last_controller c ks
last_controller c (dpid_key arg ∷ ks) = last_controller c ks
last_controller c (arg_key arg ∷ ks) = last_controller c ks
last_controller c (end_key ∷ ks) = last_controller c ks
last_controller c (unknown_key ∷ ks) = last_controller c ks

-- How the parsing of a command line with the interfaces `all` ends
abbrev pub Ends : List (List ℕ) → ℕ → List ℕ → Call Parsed → Type 0
Ends all dpid controller x =
    ((max_interfaces < length all) × (x ≡ crash))
    ⊎ ((all ≡ []) × (x ≡ done usage))
    ⊎ ((0 < length all)
        × (length all ≤ max_interfaces)
        × (a : Arguments) × (x ≡ done (parsed a))
        × (a.interfaces ≡ all)
        × (a.interface_count ≡ length all)
        × (a.dpid ≡ dpid)
        × (a.controller ≡ controller))

module _ (strtoull : List ℕ → ℕ) where
  -- Nothing is left but the end of the command line.
  parse_end :
      (a : Arguments) (n : ℕ) (is : List (List ℕ))
      → is ≡ a.interfaces
      → n ≡ length is
      → a.interface_count ≡ n
      → n ≤ max_interfaces
      → Ends is a.dpid a.controller (parse_keys strtoull a n (end_key ∷ []))
  unfolding parse_keys
  parse_end a n [] e at counted few = inr (inl (refl, rw at refl))
  parse_end a n (i ∷ is) e at counted few =
      let more : ltb n 1 ≡ false = ground (arith, at) in
      inr (
        inr (
          omega arith,
          omega (arith, at, few),
          a,
          rw (parse_keys, more) refl,
          sym e,
          counted ∙ at,
          refl,
          refl,
        ))

  arg_taken :
      (a : Arguments) (n : ℕ) (arg : List ℕ) (ks : List Key)
      → ltb n max_interfaces ≡ true
      → n ≡ length a.interfaces
      → parse_keys strtoull a n (arg_key arg ∷ ks)
        ≡ parse_keys strtoull
            (record a {
              interfaces = a.interfaces ++ (arg ∷ []);
              interface_count = suc a.interface_count;
            })
            (suc n)
            ks
  unfolding parse_keys parse_opt add_interface next_arg_num
  arg_taken a n arg ks room at =
      let new : ltb n (length a.interfaces) ≡ false = ground (arith, at) in
      rw (parse_keys, parse_opt, add_interface, room, new) refl

  arg_refused :
      (a : Arguments) (n : ℕ) (arg : List ℕ) (ks : List Key)
      → ltb n max_interfaces ≡ false
      → parse_keys strtoull a n (arg_key arg ∷ ks) ≡ crash
  unfolding parse_keys parse_opt add_interface
  arg_refused a n arg ks full = rw (parse_keys, full) refl

  parse_from :
      (ks : List Key) (a : Arguments) (n : ℕ)
      → are_known ks ≡ true
      → n ≡ length a.interfaces
      → a.interface_count ≡ n
      → n ≤ max_interfaces
      → Ends
          (a.interfaces ++ interfaces_of ks)
          (last_dpid strtoull a.dpid ks)
          (last_controller a.controller ks)
          (parse_keys strtoull a n (ks ++ (end_key ∷ [])))
  unfolding parse_keys
  parse_from [] a n known at counted few =
      rw (append-nil a.interfaces) (parse_end a n a.interfaces refl at counted few)
  parse_from (verbose_key ∷ ks) a n known at counted few =
      parse_from ks (record a { verbose = true }) n known at counted few
  parse_from (dpid_key arg ∷ ks) a n known at counted few =
      parse_from ks (record a { dpid = strtoull arg }) n known at counted few
  parse_from (controller_key arg ∷ ks) a n known at counted few =
      parse_from ks (record a { controller = arg }) n known at counted few
  parse_from (arg_key arg ∷ ks) a n known at counted few =
      elim (Bool-cases (ltb n max_interfaces)) [
        | inl room ↦
            let a' = record a {
              interfaces = a.interfaces ++ (arg ∷ []);
              interface_count = suc a.interface_count;
            } in
            let d = last_dpid strtoull a.dpid ks in
            let c = last_controller a.controller ks in
            let rest = ks ++ (end_key ∷ []) in
            subst (λ x. Ends (a.interfaces ++ (arg ∷ interfaces_of ks)) d c x)
              (sym (arg_taken a n arg rest room at))
              (subst (λ is. Ends is d c (parse_keys strtoull a' (suc n) rest))
                (append_assoc a.interfaces (arg ∷ []) (interfaces_of ks))
                (parse_from ks a' (suc n) known
                  (omega (arith, at, length-append a.interfaces (arg ∷ [])))
                  (omega (arith, counted)) (ground (arith, room))))
        | inr full ↦
            let all = length-append a.interfaces (arg ∷ interfaces_of ks) in
            inl (ground (arith, all, at), arg_refused a n arg (ks ++ (end_key ∷ [])) full)
      ]
  parse_from (end_key ∷ ks) a n known at counted few = absurd (cc)
  parse_from (unknown_key ∷ ks) a n known at counted few = absurd (cc)

  -- A command line of known options and arguments, to be parsed from the `Arguments` of a program that has
  -- no interface yet, ends in one of three ways: with more than 255 arguments, `parse_opt` writes past the
  -- end of `interfaces`; with none, it prints the usage text; otherwise, one being enough, it has stored
  -- all arguments in their order and counted them, and the identifier and the controller are those of
  -- the last such option, or the ones from before.
  pub parse_keys-Ends :
      (ks : List Key) (a : Arguments)
      → are_known ks ≡ true
      → a.interfaces ≡ []
      → a.interface_count ≡ 0
      → Ends
          (interfaces_of ks)
          (last_dpid strtoull a.dpid ks)
          (last_controller a.controller ks)
          (parse_keys strtoull a 0 (ks ++ (end_key ∷ [])))
  parse_keys-Ends ks a known empty none_yet =
      subst
        (λ is.
          Ends (is ++ interfaces_of ks) (last_dpid strtoull a.dpid ks)
            (last_controller a.controller ks) (parse_keys strtoull a 0 (ks ++ (end_key ∷ []))))
        empty (parse_from ks a 0 known (sym (ap length empty)) none_yet (omega arith))
