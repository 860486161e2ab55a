-- ===== src/Maps/Registry/Create.antt =====
-- `bpf_create_map` of bpfmap/bpfmap.c.
use bpfabric.Prelude.{ℕ, zero, suc, ◌+◌, ◌<◌, ◌≡◌, ◌≢◌, refl, sym, ap, ◌∙◌, arith, ◌⊎◌, inl, inr}
use bpfabric.Prelude.{Bool, Option, none, some, List, [], ◌∷◌, length, get_elem?, set, flat}
use bpfabric.Prelude.{get_elem?-set_self, get_elem?-set_ne, length-set}
use bpfabric.Maps.Attr.{Result, ok, err}
use bpfabric.Maps.Ght.{Ght}
use bpfabric.Maps.Registry.{
  Call, done, crash, find_free, BpfMap, Maps, store_map, created, alloc_map, create_map, map_at,
}

module _ {ℓ} {A : Type ℓ} where
  -- Every slot from the first on is taken.
  abbrev pub AllTaken : List (Option A) → Type ℓ
  AllTaken [] = Unit
  AllTaken (o ∷ maps) = (o ≢ none) × AllTaken maps

  -- The first free slot: it is free, and all before it are taken.
  pub record IsFirstFree (maps : List (Option A)) (i : ℕ) : Type ℓ where
    pub inside : i < length maps
    pub free : get_elem? maps i ≡ some none
    pub taken : (j : ℕ) → j < i → get_elem? maps j ≢ some none

  pub find_free_cases :
      (i : ℕ) (maps : List (Option A))
      → ((find_free i maps ≡ none) × AllTaken maps)
        ⊎ ((k : ℕ) × (find_free i maps ≡ some (i + k)) × IsFirstFree maps k)
  unfolding find_free
  find_free_cases i [] = inl (refl, tt)
  find_free_cases i (none ∷ maps) = inr (
    0,
    ap some (omega arith),
    record { inside = omega arith; free = refl; taken = λ j h. absurd (omega arith) },
  )
  find_free_cases i (some m ∷ maps) = elim (find_free_cases (i + 1) maps) [
    | inl (e, all) ↦ inl (e, ((λ q. cc), all))
    | inr (k, e, first) ↦ inr (
      suc k,
      e ∙ ap some (omega arith),
      record {
        inside = omega (arith, first.inside);
        free = first.free;
        taken = λ j h. later m maps k first j h;
      },
    )
  ]
    where
      later :
          (m : A) (maps : List (Option A)) (k : ℕ)
          → IsFirstFree maps k
          → (j : ℕ) → j < suc k
          → get_elem? (some m ∷ maps) j ≢ some none
      later m maps k first zero h = λ q. cc
      later m maps k first (suc j) h = first.taken j (omega arith)

module _ (g : Ght) where
  -- The array of maps after a map was stored under the index `fd`.
  pub record Stores (maps : Maps g) (m : BpfMap g) (fd : ℕ) (maps' : Maps g) : Type 0 where
    pub was_free : IsFirstFree maps fd
    pub now : map_at g maps' fd ≡ some m
    pub others : (j : ℕ) → fd ≢ j → map_at g maps' j ≡ map_at g maps j
    pub size : length maps' ≡ length maps

  -- Where the allocation gives a map, `create_map` returns the least free index and stores the map
  -- there, all other indices as before; or every index is taken, and it returns -1 with the
  -- array unchanged.
  pub create_map-Stores :
      (room : Bool) (maps : Maps g) (map_type key_size value_size max_entries : ℕ) (m : BpfMap g)
      → alloc_map g room (record {
        map_type = map_type;
        key_size = key_size;
        value_size = value_size;
        max_entries = max_entries;
        map_flags = 0;
      })
        ≡ done (ok m)
      → ((create_map g room maps map_type key_size value_size max_entries ≡ done (none, maps))
          × AllTaken maps)
        ⊎ ((fd : ℕ) × (maps' : Maps g) × (create_map g room maps map_type key_size value_size
                max_entries
              ≡ done (some fd, maps'))
            × Stores maps m fd maps')
  unfolding create_map created store_map map_at
  create_map-Stores room maps map_type key_size value_size max_entries m made =
      elim (find_free_cases 0 maps) [
        | inl (e, all) ↦ inl (rw made (rw e refl), all)
        | inr (k, e, first) ↦
            let e' : find_free 0 maps ≡ some k = e ∙ ap some (omega arith) in
            inr (
              k,
              set maps k (some m),
              rw made (rw e' refl),
              record {
                was_free = first;
                now = ap flat (get_elem?-set_self maps k (some m) first.inside);
                others = λ j ne. ap flat (get_elem?-set_ne maps k j (some m) ne);
                size = length-set maps k (some m);
              },
            )
      ]

  map_at-set_ne :
      (maps : Maps g) (m : BpfMap g) (k j : ℕ) (m' : BpfMap g)
      → get_elem? maps k ≡ some none
      → map_at g maps j ≡ some m'
      → map_at g (set maps k (some m)) j ≡ some m'
  unfolding map_at
  map_at-set_ne maps m k j m' free at =
      ap flat (get_elem?-set_ne maps k j (some m) (λ e. taken maps k j m' free at e)) ∙ at
    where
      taken :
          (maps : Maps g) (k j : ℕ) (m' : BpfMap g)
          → get_elem? maps k ≡ some none
          → flat (get_elem? maps j) ≡ some m'
          → k ≢ j
      taken maps k j m' free at e =
          let empty : flat (get_elem? maps j) ≡ none = rw (← e, free) refl in cc

  -- Every map that was there is there.
  abbrev pub Keeps : Maps g → Maps g → Type 0
  Keeps maps maps' = (j : ℕ) (m : BpfMap g) → map_at g maps j ≡ some m → map_at g maps' j ≡ some m

  created-Keeps :
      (maps : Maps g) (r : Call (Result (BpfMap g))) (o : Option ℕ) (maps' : Maps g)
      → created g maps r ≡ done (o, maps')
      → Keeps maps maps'
  unfolding created store_map
  created-Keeps maps crash o maps' e = absurd (cc)
  created-Keeps maps (done (err x)) o maps' e =
      let same : maps ≡ maps' = cc in rw (← same) (λ j m at. at)
  created-Keeps maps (done (ok m)) o maps' e = elim (find_free_cases 0 maps) [
    | inl (full, all) ↦
        let e' : done (store_map g maps m none) ≡ done (o, maps') =
          ap (λ r. done (store_map g maps m r)) (sym full) ∙ e in
        let same : maps ≡ maps' = cc in rw (← same) (λ j m at. at)
    | inr (k, found, first) ↦
        let e' : done (store_map g maps m (some k)) ≡ done (o, maps') =
          ap (λ r. done (store_map g maps m r)) (sym (found ∙ ap some (omega arith))) ∙ e in
        let same : set maps k (some m) ≡ maps' = cc in
        rw (← same) (λ j m' at. map_at-set_ne maps m k j m' first.free at)
  ]

  -- `create_map` never overwrites a map.
  pub create_map-Keeps :
      (room : Bool) (maps : Maps g) (map_type key_size value_size max_entries : ℕ) (o : Option ℕ)
      (maps' : Maps g)
      → create_map g room maps map_type key_size value_size max_entries ≡ done (o, maps')
      → Keeps maps maps'
  unfolding create_map
  create_map-Keeps room maps map_type key_size value_size max_entries o maps' e =
      created-Keeps maps _ o maps' e
