-- ===== src/Dpdk/Cores/Dealing.antt =====
-- dpdkswitch/main.c, `main`: what it is for the ports to be dealt out to the cores, and its lemmas.
use mathlib.Core.List.{append_assoc, append-nil}
use native.Mathlib.Nat.{zero-add}
use mathlib.Core.Path.{subst}
use bpfabric.Prelude.{
  ℕ, zero, suc, ◌+◌, ◌*◌, ◌≤◌, ◌<◌, ◌≡◌, ◌≢◌, ◌⊎◌, refl, sym, ap, ◌∙◌, arith, true, false,
  Bool-cases, inl, inr, Option, none, some, List, [], ◌∷◌, ◌++◌, length, length-append, drop,
}
use bpfabric.Dpdk.{is_enabled}
use bpfabric.Dpdk.Cores.{
  Lcore, is_free, find_lcore, add_port, place, assign, all_ports, enabled_cores, enabled_ports,
}

-- What a core has been dealt: at most `per_lcore` ports, and none where it is not enabled.
pub record IsDealt (per_lcore : ℕ) (l : Lcore) : Type 0 where
  pub few : length l.rx_port_list ≤ per_lcore
  pub off : l.enabled ≡ false → l.rx_port_list ≡ []

-- A core that the search has passed takes no further port.
abbrev IsFull : ℕ → Lcore → Type 0
IsFull per_lcore l = l.enabled ≡ true → length l.rx_port_list ≡ per_lcore

-- No core has a port.
abbrev pub Untouched : List Lcore → Type 0
Untouched [] = Unit
Untouched (l ∷ ls) = (l.rx_port_list ≡ []) × Untouched ls

-- The cores are dealt out up to the one with index `i`.
abbrev Dealt : ℕ → ℕ → List Lcore → Type 0
Dealt per_lcore i [] = Unit
Dealt per_lcore zero (l ∷ ls) = IsDealt per_lcore l × Untouched ls
Dealt per_lcore (suc i) (l ∷ ls) = IsDealt per_lcore l × IsFull per_lcore l × Dealt per_lcore i ls

-- Every core has been dealt at most its share.
abbrev pub AllDealt : ℕ → List Lcore → Type 0
AllDealt per_lcore [] = Unit
AllDealt per_lcore (l ∷ ls) = IsDealt per_lcore l × AllDealt per_lcore ls

all_ports-Untouched : (ls : List Lcore) → Untouched ls → all_ports ls ≡ []
all_ports-Untouched [] u = refl
all_ports-Untouched (l ∷ ls) (e, u) = rw (e, all_ports-Untouched ls u) refl

module _ (per_lcore : ℕ) where
  Untouched-Dealt : (ls : List Lcore) → Untouched ls → Dealt per_lcore 0 ls
  Untouched-Dealt [] u = tt
  Untouched-Dealt (l ∷ ls) (e, u) = (record { few = omega (arith, ap length e); off = λ h. e }, u)

  Untouched-AllDealt : (ls : List Lcore) → Untouched ls → AllDealt per_lcore ls
  Untouched-AllDealt [] u = tt
  Untouched-AllDealt (l ∷ ls) (e, u) =
      (record { few = omega (arith, ap length e); off = λ h. e }, Untouched-AllDealt ls u)

  Dealt-AllDealt : (i : ℕ) (ls : List Lcore) → Dealt per_lcore i ls → AllDealt per_lcore ls
  Dealt-AllDealt i [] d = tt
  Dealt-AllDealt zero (l ∷ ls) (d, u) = (d, Untouched-AllDealt ls u)
  Dealt-AllDealt (suc i) (l ∷ ls) (d, full, rest) = (d, Dealt-AllDealt i ls rest)

  taken-IsFull : (l : Lcore) → is_free per_lcore l ≡ false → IsFull per_lcore l
  taken-IsFull l h e = ground arith

  add-IsDealt :
      (l : Lcore) (portid : ℕ)
      → is_free per_lcore l ≡ true
      → IsDealt per_lcore l
      → IsDealt per_lcore (record l { rx_port_list = l.rx_port_list ++ (portid ∷ []) })
  add-IsDealt l portid free d =
      let room : length l.rx_port_list ≢ per_lcore = ground arith in
      let on : l.enabled ≡ true = ground arith in
      record {
        few = omega (arith, length-append l.rx_port_list (portid ∷ []), d.few, room);
        off = λ h. absurd (cc);
      }

  -- All cores are full.
  abbrev Exhausted : List Lcore → Type 0
  Exhausted ls = length (all_ports ls) ≡ per_lcore * enabled_cores ls

  exhausted :
      (l : Lcore) (ls : List Lcore)
      → IsDealt per_lcore l
      → IsFull per_lcore l
      → Exhausted ls
      → Exhausted (l ∷ ls)
  exhausted l ls d full e = elim (Bool-cases l.enabled) [
    | inl on ↦
        let here : length l.rx_port_list ≡ per_lcore = full on in
        rw on (grind (arith, length-append l.rx_port_list (all_ports ls), here, e))
    | inr off ↦ rw (off, d.off off) (rw zero-add e)
  ]

  -- The port has been given to core `base + j`.
  record Placed (ls : List Lcore) (portid j : ℕ) : Type 0 where
    pub dealt : Dealt per_lcore j (add_port ls j portid)
    pub ports : all_ports (add_port ls j portid) ≡ all_ports ls ++ (portid ∷ [])
    pub cores : enabled_cores (add_port ls j portid) ≡ enabled_cores ls

  abbrev Search : ℕ → List Lcore → ℕ → Option ℕ → Type 0
  Search base ls portid found =
      ((found ≡ none) × Exhausted ls) ⊎ ((j : ℕ) × (found ≡ some (base + j)) × Placed ls portid j)

  Search-next :
      (base : ℕ) (l : Lcore) (ls : List Lcore) (portid : ℕ) (found : Option ℕ)
      → IsDealt per_lcore l
      → IsFull per_lcore l
      → Search (base + 1) ls portid found
      → Search base (l ∷ ls) portid found
  unfolding add_port
  Search-next base l ls portid found d full (inl (e, x)) = inl (e, exhausted l ls d full x)
  Search-next base l ls portid found d full (inr (j, e, p)) = inr (
    suc j,
    e ∙ ap some (omega arith),
    record {
      dealt = (d, full, p.dealt);
      ports =
          ap (λ ps. l.rx_port_list ++ ps) p.ports
          ∙ sym (append_assoc l.rx_port_list (all_ports ls) (portid ∷ []));
      cores = omega (arith, p.cores);
    },
  )

  find_lcore-Search :
      (base i k : ℕ) (ls : List Lcore) (portid : ℕ)
      → k ≡ base + i
      → Dealt per_lcore i ls
      → Search base ls portid (find_lcore per_lcore k (drop i ls))
  unfolding find_lcore add_port
  find_lcore-Search base zero k [] portid e d = inl (refl, omega arith)
  find_lcore-Search base (suc i) k [] portid e d = inl (refl, omega arith)
  find_lcore-Search base zero k (l ∷ ls) portid e (d, u) = elim (Bool-cases (is_free per_lcore l)) [
    | inl free ↦ inr (
      0,
      rw free (ap some e),
      record {
        dealt = (add-IsDealt l portid free d, u);
        ports = simp (all_ports-Untouched ls u, append-nil);
        cores = refl;
      },
    )
    | inr taken ↦
        let later =
          find_lcore-Search (base + 1) 0 (k + 1) ls portid (omega (arith, e))
            (Untouched-Dealt ls u) in
        rw taken (
          Search-next base l ls portid (find_lcore per_lcore (k + 1) ls) d (taken-IsFull l taken)
            later)
  ]
  find_lcore-Search base (suc i) k (l ∷ ls) portid e (d, full, rest) =
      Search-next base l ls portid (find_lcore per_lcore k (drop i ls)) d full
        (find_lcore-Search (base + 1) i k ls portid (omega (arith, e)) rest)

-- How the dealing ends where `wanted` are the enabled ports and there are so many enabled cores: every
-- port has gone to one core, in their order, or the cores do not suffice for all ports.
abbrev pub Deals : ℕ → ℕ → List ℕ → Option (List Lcore) → Type 0
Deals per_lcore cores wanted none = per_lcore * cores < length wanted
Deals per_lcore cores wanted (some ls) = (all_ports ls ≡ wanted) × AllDealt per_lcore ls

module _ (mask per_lcore : ℕ) where
  place-Deals :
      (n portid : ℕ) (ls : List Lcore) (found : Option ℕ)
      → Search per_lcore 0 ls portid found
      → ((j : ℕ) (ls' : List Lcore)
          → Dealt per_lcore j ls'
          → Deals per_lcore
              (enabled_cores ls')
              (all_ports ls' ++ enabled_ports mask n (portid + 1))
              (assign mask per_lcore n (portid + 1) j ls'))
      → Deals per_lcore
          (enabled_cores ls)
          (all_ports ls ++ (portid ∷ enabled_ports mask n (portid + 1)))
          (place (assign mask per_lcore n (portid + 1)) ls portid found)
  unfolding place
  place-Deals n portid ls found (inl (e, x)) later =
      let more = length-append (all_ports ls) (portid ∷ enabled_ports mask n (portid + 1)) in
      rw e (omega (arith, more, x))
  place-Deals n portid ls found (inr (j, e, p)) later =
      let e' : found ≡ some j = e ∙ ap some (omega arith) in
      let ls' = add_port ls j portid in
      let wanted : all_ports ls' ++ enabled_ports mask n (portid + 1)
          ≡ all_ports ls ++ (portid ∷ enabled_ports mask n (portid + 1)) =
        ap (λ ps. ps ++ enabled_ports mask n (portid + 1)) p.ports
        ∙ append_assoc (all_ports ls) (portid ∷ []) (enabled_ports mask n (portid + 1)) in
      rw e' (
        subst
          (λ ps. Deals per_lcore (enabled_cores ls) ps (assign mask per_lcore n (portid + 1) j ls'))
          wanted
          (subst
            (λ k.
              Deals per_lcore k (all_ports ls' ++ enabled_ports mask n (portid + 1))
                (assign mask per_lcore n (portid + 1) j ls'))
            p.cores (later j ls' p.dealt)))

  assign-from :
      (n portid id : ℕ) (ls : List Lcore)
      → Dealt per_lcore id ls
      → Deals per_lcore
          (enabled_cores ls)
          (all_ports ls ++ enabled_ports mask n portid)
          (assign mask per_lcore n portid id ls)
  unfolding assign
  assign-from zero portid id ls d =
      (sym (append-nil (all_ports ls)), Dealt-AllDealt per_lcore id ls d)
  assign-from (suc n) portid id ls d = elim (Bool-cases (is_enabled mask portid)) [
    | inl on ↦ rw on (
        place-Deals n portid ls (find_lcore per_lcore id (drop id ls))
          (find_lcore-Search per_lcore 0 id id ls portid (omega arith) d)
          (λ j ls' d'. assign-from n (portid + 1) j ls' d'))
    | inr off ↦ rw off (assign-from n (portid + 1) id ls d)
  ]

  -- Where the cores have no ports yet, the loops of `main` deal out the enabled ones of the `nb_ports`
  -- ports: read core by core, the cores' lists are these ports in increasing order, so that each has
  -- exactly one core; no core has more than `per_lcore` ports, and one that is not enabled has none.
  -- The exit "Not enough cores" is taken only where the enabled cores, with `per_lcore` ports each,
  -- cannot have all enabled ports.
  pub assign-Deals :
      (nb_ports : ℕ) (ls : List Lcore)
      → Untouched ls
      → Deals per_lcore
          (enabled_cores ls)
          (enabled_ports mask nb_ports 0)
          (assign mask per_lcore nb_ports 0 0 ls)
  assign-Deals nb_ports ls u =
      subst
        (λ ps.
          Deals per_lcore (enabled_cores ls) (ps ++ enabled_ports mask nb_ports 0)
            (assign mask per_lcore nb_ports 0 0 ls))
        (all_ports-Untouched ls u) (assign-from nb_ports 0 0 ls (Untouched-Dealt per_lcore ls u))
