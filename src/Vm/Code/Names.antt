-- ===== src/Vm/Code/Names.antt =====
-- The registered functions by name: `ubpf_register` and `ubpf_lookup_registered_function`.
use bpfabric.Prelude.{
  ℕ, zero, suc, ◌+◌, ◌≤◌, ◌<◌, ◌≡◌, ◌≢◌, refl, ap, ◌∙◌, arith, ◌⊎◌, inl, inr, Bool-cases,
}
use bpfabric.Prelude.{false, Option, none, some, List, [], ◌∷◌, length, get_elem?, set}
use bpfabric.Prelude.{leb, get_elem?-set_self, get_elem?-set_ne, length-set, flat}
use bpfabric.Prelude.Bytes.{bytes_eq_refl}
use bpfabric.Vm.Exec.{ExtFunc}
use bpfabric.Vm.Validate.{max_ext_funcs}
use bpfabric.Vm.Code.{
  Vm, Name, register, is_named, find_name, lookup_registered_function, function_at,
}

-- Both arrays have MAX_EXT_FUNCS entries, as `ubpf_create` allocates them.
pub record IsSized (vm : Vm) : Type 0 where
  pub funcs_size : length vm.ext_funcs ≡ max_ext_funcs
  pub names_size : length vm.ext_func_names ≡ max_ext_funcs

-- `register` refuses exactly the indices from MAX_EXT_FUNCS on. Otherwise the entry is set, every
-- other entry of both arrays is kept, and so are the sizes.
pub record Registers (vm : Vm) (idx : ℕ) (name : Name) (fn : ExtFunc) (vm' : Vm) : Type 0 where
  pub func_set : function_at vm'.ext_funcs idx ≡ some fn
  pub name_set : get_elem? vm'.ext_func_names idx ≡ some (some name)
  pub funcs_kept : (j : ℕ) → idx ≢ j → function_at vm'.ext_funcs j ≡ function_at vm.ext_funcs j
  pub names_kept :
      (j : ℕ) → idx ≢ j → get_elem? vm'.ext_func_names j ≡ get_elem? vm.ext_func_names j
  pub sized : IsSized vm'

-- A machine with arrays of the right size registers a function at an index exactly when the index
-- is below MAX_EXT_FUNCS; the entry is then set and every other entry kept.
pub register_lem :
    (vm : Vm) (idx : ℕ) (name : Name) (fn : ExtFunc)
    → IsSized vm
    → ((max_ext_funcs ≤ idx) × (register vm idx name fn ≡ none))
      ⊎ ((idx < max_ext_funcs)
          × ((vm' : Vm) × (register vm idx name fn ≡ some vm') × Registers vm idx name fn vm'))
unfolding register function_at
register_lem vm idx name fn sized = elim (Bool-cases (leb max_ext_funcs idx)) [
  | inl e ↦ inl (ground arith, rw e refl)
  | inr e ↦
      let lt : idx < max_ext_funcs = ground arith in
      inr (
        lt,
        (
          record vm {
            ext_funcs = set vm.ext_funcs idx (some fn);
            ext_func_names = set vm.ext_func_names idx (some name);
          },
          rw e refl,
          record {
            func_set = ap flat (get_elem?-set_self vm.ext_funcs idx (some fn) (omega arith));
            name_set = get_elem?-set_self vm.ext_func_names idx (some name) (omega arith);
            funcs_kept = λ j ne. ap flat (get_elem?-set_ne vm.ext_funcs idx j (some fn) ne);
            names_kept = λ j ne. get_elem?-set_ne vm.ext_func_names idx j (some name) ne;
            sized = record {
              funcs_size = omega (arith, length-set vm.ext_funcs idx (some fn));
              names_size = omega (arith, length-set vm.ext_func_names idx (some name));
            };
          },
        ),
      )
]

abbrev pub NotNamed : Name → Option (Option Name) → Type 0
NotNamed name none = Unit
NotNamed name (some o) = is_named name o ≡ false

find_name-first :
    (name : Name) (i : ℕ) (names : List (Option Name)) (k : ℕ)
    → get_elem? names k ≡ some (some name)
    → ((j : ℕ) → j < k → NotNamed name (get_elem? names j))
    → find_name name i names ≡ some (i + k)
unfolding find_name
find_name-first name i [] k h first = absurd (cc)
find_name-first name i (o ∷ names) zero h first =
    let e : o ≡ some name = cc in rw (e, is_named, bytes_eq_refl) (ap some (omega arith))
find_name-first name i (o ∷ names) (suc k) h first =
    let e : is_named name o ≡ false = first 0 (omega arith) in
    rw e (
      find_name-first name (i + 1) names k h (λ j lt. first (suc j) (omega arith))
      ∙ ap some (omega arith))

-- After a registration, a look-up of the name by `ubpf_lookup_registered_function` gives the
-- registered index, provided that no entry below it carries the same name.
lookup-register :
    (vm vm' : Vm) (idx : ℕ) (name : Name) (fn : ExtFunc)
    → IsSized vm
    → register vm idx name fn ≡ some vm'
    → ((j : ℕ) → j < idx → NotNamed name (get_elem? vm.ext_func_names j))
    → lookup_registered_function vm' name ≡ some idx
unfolding lookup_registered_function
lookup-register vm vm' idx name fn sized h first = elim (register_lem vm idx name fn sized) [
  | inl (_, e) ↦ absurd (cc)
  | inr (_, (vm'', e, r)) ↦
      let same : vm'' ≡ vm' = cc in
      let found : get_elem? vm'.ext_func_names idx ≡ some (some name) = rw (← same) r.name_set in
      find_name-first name 0 vm'.ext_func_names idx found (λ j lt.
        let kept : get_elem? vm'.ext_func_names j ≡ get_elem? vm.ext_func_names j =
          rw (← same) (r.names_kept j (omega arith)) in
        rw kept (first j lt))
      ∙ ap some (omega arith)
]
