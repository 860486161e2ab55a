-- ===== src/Maps/HashMap/Keys.antt =====
-- Iteration over the keys of a hash map by `htab_map_get_next_key`.
use bpfabric.Prelude.{
  ℕ, zero, suc, ◌≤◌, ◌≡◌, refl, sym, ap, ◌∙◌, ◌++◌, arith, inl, inr, map, Bool-cases,
}
use bpfabric.Prelude.{Bool, true, false, Option, none, some, List, [], ◌∷◌, length, take}
use bpfabric.Prelude.Bytes.{bytes_eq, bytes_eq-true, bytes_eq_refl}
use bpfabric.Maps.Ght.{Ght, Entry, Distinct, assoc}
use bpfabric.Maps.HashMap.{
  HashMap, Cursor, idle, at, NextKey, found, finished, unspecified, skip_past, advance, restart,
  next_from, get_next_key,
}

abbrev pub keys : List Entry → List (List ℕ)
keys = map λ e. e.0

abbrev pub AllKeys : ℕ → List Entry → Type 0
AllKeys n [] = Unit
AllKeys n ((k, e) ∷ es) = (take n k ≡ k) × AllKeys n es

module _ (g : Ght) where
  -- A client's loop `while (get_next_key(map, key, key) == 0)`: the keys that it sees, and whether
  -- it ended by the result -1 within the fuel.
  abbrev cons_key : List ℕ → List (List ℕ) × Bool → List (List ℕ) × Bool
  cons_key k r = (k ∷ r.0, r.1)

  walk_from : ℕ → NextKey × HashMap g → List (List ℕ) × Bool
  walk_from fuel (finished, m) = ([], true)
  walk_from fuel (unspecified, m) = ([], false)
  walk_from zero (found k, m) = (k ∷ [], false)
  walk_from (suc fuel) (found k, m) = cons_key k (walk_from fuel (get_next_key g m k))

  pub walk : ℕ → HashMap g → List ℕ → List (List ℕ) × Bool
  unfolding walk_from
  walk fuel m key = walk_from fuel (get_next_key g m key)

  next_at :
      (m : HashMap g) (k : List ℕ) (es : List Entry)
      → take m.key_size k ≡ k
      → get_next_key g (record m { cursor = at k es }) k
        ≡ advance g (record m { cursor = at k es }) es
  unfolding get_next_key
  next_at m k es whole = rw (whole, bytes_eq_refl) refl

  -- Once it stands at an entry, the loop sees that entry and all that follow.
  walk-advance :
      (fuel : ℕ) (m : HashMap g) (es : List Entry)
      → AllKeys m.key_size es
      → length es ≤ fuel
      → walk_from fuel (advance g m es) ≡ (keys es, true)
  unfolding walk_from advance
  walk-advance fuel m [] all enough = refl
  walk-advance zero m ((k, e) ∷ es) all enough = absurd (omega arith)
  walk-advance (suc fuel) m ((k, e) ∷ es) (whole, all) enough =
      ap (λ r. cons_key k (walk_from fuel r)) (next_at m k es whole)
      ∙ ap (cons_key k) (walk-advance fuel (record m { cursor = at k es }) es all (omega arith))

  -- The entries that a loop from `key` has before it: all of them if the key is not in the table,
  -- and else those behind it.
  abbrev pub behind : HashMap g → List ℕ → Option (List ℕ) → List Entry
  behind m key none = g.entries m.htab
  behind m key (some l) = skip_past key (g.entries m.htab)

  AllKeys-skip_past :
      (n : ℕ) (key : List ℕ) (es : List Entry) → AllKeys n es → AllKeys n (skip_past key es)
  unfolding skip_past
  AllKeys-skip_past n key [] all = all
  AllKeys-skip_past n key ((k, e) ∷ es) all = elim (Bool-cases (bytes_eq k key)) [
    | inl t ↦ rw t all.1
    | inr t ↦ rw t (AllKeys-skip_past n key es all.1)
  ]

  length-skip_past-le : (key : List ℕ) (es : List Entry) → length (skip_past key es) ≤ length es
  unfolding skip_past
  length-skip_past-le key [] = omega arith
  length-skip_past-le key ((k, e) ∷ es) = ground (arith, length-skip_past-le key es)

  restart-advance :
      (m : HashMap g) (key : List ℕ) (o : Option (List ℕ))
      → restart g m key o ≡ advance g m (behind m key o)
  unfolding restart
  restart-advance m key none = refl
  restart-advance m key (some l) = refl

  AllKeys-behind :
      (m : HashMap g) (key : List ℕ) (o : Option (List ℕ))
      → AllKeys m.key_size (g.entries m.htab)
      → AllKeys m.key_size (behind m key o) × (length (behind m key o) ≤ length (g.entries m.htab))
  AllKeys-behind m key none all = (all, omega arith)
  AllKeys-behind m key (some l) all = (
    AllKeys-skip_past m.key_size key (g.entries m.htab) all,
    length-skip_past-le key (g.entries m.htab),
  )

  next_idle :
      (m : HashMap g) (key : List ℕ) (c : Cursor)
      → c ≡ idle
      → next_from g m key c ≡ restart g m key (g.get m.htab key)
  unfolding next_from
  next_idle m key idle e = refl
  next_idle m key _ e = absurd (cc)

  walk-behind :
      (fuel : ℕ) (m : HashMap g) (key : List ℕ)
      → m.cursor ≡ idle
      → take m.key_size key ≡ key
      → AllKeys m.key_size (g.entries m.htab)
      → length (g.entries m.htab) ≤ fuel
      → walk fuel m key ≡ (keys (behind m key (g.get m.htab key)), true)
  unfolding walk get_next_key
  walk-behind fuel m key rest whole all enough =
      let (all', le) = AllKeys-behind m key (g.get m.htab key) all in
      ap (walk_from fuel) (
        ap (λ k. next_from g m k m.cursor) whole
        ∙ (next_idle m key m.cursor rest ∙ restart-advance m key (g.get m.htab key)))
      ∙ walk-advance fuel m (behind m key (g.get m.htab key)) all' (omega arith)

  -- The entries in two parts, between which the entry of the key stands.
  split_at_key :
      (key l : List ℕ) (es : List Entry)
      → assoc key es ≡ some l
      → (before : List Entry) × (es ≡ before ++ ((key, l) ∷ skip_past key es))
        × (assoc key before ≡ none)
  unfolding skip_past
  split_at_key key l [] h = absurd (cc)
  split_at_key key l ((k, e) ∷ es) h = elim (Bool-cases (bytes_eq k key)) [
    | inl t ↦
        let same : k ≡ key = bytes_eq-true k key t in
        let h' : some e ≡ some l = rw t at h in
        let same' : e ≡ l = cc in ([], rw (t, same, same') refl, refl)
    | inr t ↦
        let h' : assoc key es ≡ some l = rw t at h in
        let (before, split, absent) = split_at_key key l es h' in
        ((k, e) ∷ before, rw t (ap (λ r. (k, e) ∷ r) split), rw t absent)
  ]

  -- The loop from a key of `key_size` bytes, on a map with no iteration under way, ends with -1. If the
  -- start is not a key of the table, it sees the keys of all entries, in the order of the table. If it
  -- is one, as a key of zeros may be, the loop sees exactly the keys that stand behind it in this order:
  -- neither the start itself nor a key before it. No two entries have the same key. As much fuel as
  -- there are entries is enough.
  pub walk-entries :
      (fuel : ℕ) (m : HashMap g) (key : List ℕ)
      → m.cursor ≡ idle
      → take m.key_size key ≡ key
      → AllKeys m.key_size (g.entries m.htab)
      → length (g.entries m.htab) ≤ fuel
      → ((g.get m.htab key ≡ none) → walk fuel m key ≡ (keys (g.entries m.htab), true))
        × ((l : List ℕ)
            → g.get m.htab key ≡ some l
            → (before : List Entry) × (after : List Entry) × (g.entries m.htab
                ≡ before ++ ((key, l) ∷ after))
              × (walk fuel m key ≡ (keys after, true)))
        × Distinct (g.entries m.htab)
  walk-entries fuel m key rest whole all enough =
      let seen = walk-behind fuel m key rest whole all enough in
      (
        λ absent. rw absent at seen,
        λ l present.
            let (before, split, _) =
              split_at_key key l (g.entries m.htab) (sym (g.get-entries m.htab key) ∙ present) in
            (before, skip_past key (g.entries m.htab), split, rw present at seen),
        g.distinct_entries m.htab,
      )
