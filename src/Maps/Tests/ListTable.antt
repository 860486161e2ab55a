-- ===== src/Maps/Tests/ListTable.antt =====
-- A hash table kept as a list of entries: an instance of the interface of libghthash.
use bpfabric.Prelude.{ℕ, ◌≡◌, refl, sym, ap, ◌∙◌, inl, inr, Bool-cases}
use bpfabric.Prelude.{Bool, true, false, Option, none, some, List, [], ◌∷◌, if◌then◌else◌}
use bpfabric.Prelude.Bytes.{bytes_eq, bytes_eq_refl, bytes_eq-true}
use bpfabric.Maps.Ght.{Ght, Entry, assoc, Distinct}

abbrev pub drop_key : List ℕ → List Entry → List Entry
drop_key k [] = []
drop_key k ((j, e) ∷ es) = let rest = drop_key k es in if bytes_eq j k then rest else (j, e) ∷ rest

assoc-head :
    (k j e : List ℕ) (es : List Entry)
    → (if bytes_eq k j then none else assoc j es)
      ≡ (if bytes_eq k j then none else assoc j ((k, e) ∷ es))
assoc-head k j e es = elim (Bool-cases (bytes_eq k j)) [ inl t ↦ rw t refl | inr t ↦ rw t refl ]

pub assoc-drop_key :
    (k j : List ℕ) (es : List Entry)
    → assoc j (drop_key k es) ≡ (if bytes_eq k j then none else assoc j es)
assoc-drop_key k j [] = elim (Bool-cases (bytes_eq k j)) [ inl e ↦ rw e refl | inr e ↦ rw e refl ]
assoc-drop_key k j ((i, e) ∷ es) = elim (Bool-cases (bytes_eq i k)) [
  | inl t ↦ rw t (assoc-drop_key k j es ∙ rw (bytes_eq-true i k t) (assoc-head k j e es))
  | inr t ↦ rw t (elim (Bool-cases (bytes_eq i j)) [
    | inl s ↦
        let other : bytes_eq k j ≡ false = elim (Bool-cases (bytes_eq k j)) [
          | inl u ↦
              let same : i ≡ k = bytes_eq-true i j s ∙ sym (bytes_eq-true k j u) in
              let yes : bytes_eq i k ≡ true = rw same (bytes_eq_refl k) in absurd (cc)
          | inr u ↦ u
        ] in
        rw (s, other) refl
    | inr s ↦ rw s (assoc-drop_key k j es)
  ])
]

pub drop_key-Distinct : (k : List ℕ) (es : List Entry) → Distinct es → Distinct (drop_key k es)
drop_key-Distinct k [] d = d
drop_key-Distinct k ((i, e) ∷ es) (fresh, d) = elim (Bool-cases (bytes_eq i k)) [
  | inl t ↦ rw t (drop_key-Distinct k es d)
  | inr t ↦ rw t (assoc-drop_key k i es ∙ gone k i es fresh, drop_key-Distinct k es d)
]
  where
    gone :
        (k i : List ℕ) (es : List Entry)
        → assoc i es ≡ none
        → (if bytes_eq k i then none else assoc i es) ≡ none
    gone k i es h = elim (Bool-cases (bytes_eq k i)) [ inl s ↦ rw s refl | inr s ↦ rw s h ]

abbrev pub Table : Type 0
Table = (es : List Entry) × Distinct es

abbrev pub insert_if :
    (t : Table) (k e : List ℕ) (o : Option (List ℕ)) → assoc k t.0 ≡ o → Bool × Table
insert_if t k e none h = (true, ((k, e) ∷ t.0, (h, t.1)))
insert_if t k e (some l) h = (false, t)

pub insert_if-none :
    (t : Table) (k e : List ℕ) (o : Option (List ℕ)) (h : assoc k t.0 ≡ o)
    → assoc k t.0 ≡ none
    → ((insert_if t k e o h).0 ≡ true) × ((insert_if t k e o h).1.0 ≡ (k, e) ∷ t.0)
insert_if-none t k e none h n = (refl, refl)
insert_if-none t k e (some l) h n = absurd (cc)

abbrev content : Option Table → List Entry
content none = []
content (some t) = t.0

abbrev pub list_table : Ght
list_table = record {
  Table = Table;
  create = λ n. some ([], tt);
  get = λ t k. assoc k t.0;
  insert = λ t k e. insert_if t k e (assoc k t.0) refl;
  remove = λ t k. (drop_key k t.0, drop_key-Distinct k t.0 t.1);
  entries = λ t. t.0;
  get-create = λ n t k e. ap (λ o. assoc k (content o)) (sym e);
  insert_new = λ t k e h. (insert_if-none t k e _ refl h).0;
  get-insert = λ t k e j h. ap (assoc j) (insert_if-none t k e _ refl h).1;
  get-remove = λ t k j. assoc-drop_key k j t.0;
  get-entries = λ t k. refl;
  distinct_entries = λ t. t.1;
}
