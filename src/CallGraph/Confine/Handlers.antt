-- ===== src/CallGraph/Confine/Handlers.antt =====
-- `typeConfineInStore_new` of CallGraph.cc, and `trackFuncPointer` of LayerAnalysis.cc, its last
-- resort. `none` is out of fuel.
use tfa_project.Common.{
  ℕ, zero, suc, ◌≡◌, refl, inl, inr, Bool, true, false, ◌&&◌, not, Option, none, some, List, [],
  ◌∷◌, nat_eq, if◌then◌else◌, Bool-cases,
}
use tfa_project.Worklist.{Step, go, stop, finished, stopped, out_of_fuel, run, enough}
use tfa_project.CallGraph.{Llvm}
use tfa_project.CallGraph.Layers.{Layer, recall}
use tfa_project.CallGraph.Confine.{Collected, Functions}
use tfa_project.CallGraph.Confine.Stores.{
  Operands, incoming_values, is_phi, base_function, get_base_type, layer_types, propagate_types,
  escape_target, store_function,
}

unfoldable pub values_below : ℕ → List ℕ
values_below zero = []
values_below (suc n) = n ∷ values_below n

module _ (llvm : Llvm) (funcs : Functions) (ops : Operands) where
  -- The incoming values of a phi that are no constant data.
  unfoldable pub non_constant : List ℕ → List ℕ
  non_constant [] = []
  non_constant (v ∷ vs) =
      let rest = non_constant vs in if ops.vals.is_constant_data v then rest else v ∷ rest

  unfoldable pub track_next : ℕ → List ℕ
  unfolding non_constant
  track_next v =
      if ops.vals.is_constant_data v then [] else non_constant (incoming_values (ops.vals.shape v))

  -- A visit of `trackFuncPointer`: constants and phis pass, a function is stored, and any other
  -- value ends it. A state `none` is out of fuel.
  unfoldable pub track_visit : (po si : ℕ) → ℕ → Option Collected → Step (Option Collected)
  track_visit po si v none = stop none
  track_visit po si v (some c) =
      if ops.vals.is_constant_data v
      then go (some c)
      else if is_phi (ops.vals.shape v)
      then go (some c)
      else elim (base_function llvm funcs ops v) [
        | some f ↦ go (store_function llvm funcs ops f po 0 si c)
        | none ↦ stop (some c)
      ]

  -- `trackFuncPointer(VO, PO, SI)`
  unfoldable pub track_func_pointer : (vo po si : ℕ) → Collected → Option (Bool × Collected)
  unfolding track_visit track_next values_below
  track_func_pointer vo po si c =
      if not (ops.is_pointer_ty (ops.type_of vo))
      then some (false, c)
      else if not (ops.is_function_ty (ops.type_of vo))
      then some (false, c)
      else elim (run track_next (track_visit po si)
          (enough track_next (vo ∷ []) (values_below ops.count)) (vo ∷ []) [] (some c)) [
            | finished visited none ↦ none
            | finished visited (some c') ↦ some (true, c')
            | stopped none ↦ none
            | stopped (some c') ↦ some (false, c')
            | out_of_fuel ↦ none
          ]

  -- The elements of a constant vector, each a function or not.
  unfoldable pub store_elements : List ℕ → ℕ → (po si : ℕ) → Collected → Option Collected
  store_elements [] i po si c = some c
  store_elements (v ∷ vs) i po si c = elim (base_function llvm funcs ops v) [
    | none ↦ store_elements vs (suc i) po si c
    | some f ↦ elim (store_function llvm funcs ops f po i si c) [
      | none ↦ none
      | some c' ↦ store_elements vs (suc i) po si c'
    ]
  ]

  -- A stored value that has a base type: only vectors of pointers hold functions.
  unfoldable pub store_composite : ℕ → (vo po si : ℕ) → Collected → Option Collected
  unfolding store_elements
  store_composite ty vo po si c =
      if ops.is_vector_ty ty && ops.has_pointer_scalars ty
      then (elim (ops.vector_elements vo) [ none ↦ some c | some vs ↦ store_elements vs 0 po si c ])
      else some c

  -- A stored value without layer types and without a base type: a function, or a pointer of unknown
  -- source, which makes the types of the target escape.
  unfoldable pub store_plain : (vo po si : ℕ) → Collected → Option Collected
  unfolding track_func_pointer
  store_plain vo po si c = elim (base_function llvm funcs ops vo) [
    | some f ↦ store_function llvm funcs ops f po 0 si c
    | none ↦
        if not (ops.is_pointer_ty (ops.type_of vo))
        then some c
        else elim (track_func_pointer vo po si c) [
          | none ↦ none
          | some (true, c') ↦ some c'
          | some (false, c') ↦ escape_target llvm funcs ops si po c'
        ]
  ]

  unfoldable pub store_untyped : (vo po si : ℕ) → Collected → Option Collected
  unfolding store_composite store_plain
  store_untyped vo po si c = elim (get_base_type llvm funcs ops (suc ops.count) vo []) [
    | none ↦ none
    | some (some ty, visited) ↦ store_composite ty vo po si c
    | some (none, visited) ↦ store_plain vo po si c
  ]

  -- A stored value with layer types: they flow to those of the target, which escape as well if some
  -- of the value's are unknown.
  unfoldable pub store_typed : Bool → List Layer → (po si : ℕ) → Collected → Option Collected
  store_typed ok froms po si c = elim (propagate_types llvm funcs ops po froms c) [
    | none ↦ none
    | some c' ↦ if ok then some c' else escape_target llvm funcs ops si po c'
  ]

  -- By the answer for the stored value in recall mode.
  unfoldable pub store_by_layers : Bool → List Layer → (vo po si : ℕ) → Collected → Option Collected
  unfolding store_typed store_untyped
  store_by_layers true froms vo po si c = store_typed true froms po si c
  store_by_layers false [] vo po si c = store_untyped vo po si c
  store_by_layers false (f ∷ fs) vo po si c = store_typed false (f ∷ fs) po si c

  -- `typeConfineInStore_new` of a store `si` of `vo` to `po`.
  unfoldable pub type_confine_in_store : (si vo po : ℕ) → Collected → Option Collected
  unfolding store_by_layers
  type_confine_in_store si vo po c =
      if ops.vals.is_constant_data vo
      then some c
      else elim (layer_types llvm funcs ops recall vo c) [
        | none ↦ none
        | some (ok, froms) ↦ store_by_layers ok froms vo po si c
      ]

  -- When no type is both a pointer and a function type, `trackFuncPointer` returns false and
  -- changes nothing.
  pub track_func_pointer-false :
      (vo po si : ℕ) (c : Collected)
      → ((ty : ℕ) → ops.is_pointer_ty ty ≡ true → ops.is_function_ty ty ≡ false)
      → track_func_pointer vo po si c ≡ some (false, c)
  unfolding track_func_pointer
  track_func_pointer-false vo po si c apart =
      elim (Bool-cases (ops.is_pointer_ty (ops.type_of vo))) [
        | inl pointer ↦ rw (pointer, apart (ops.type_of vo) pointer, track_func_pointer) refl
        | inr other ↦ rw (other, track_func_pointer) refl
      ]
